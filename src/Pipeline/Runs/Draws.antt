-- ===== src/Pipeline/Runs/Draws.antt =====
-- What is drawn for an answer does not depend on what a run finds or fails (human_edit/simulate.py
-- `run`).
use prompt_patrol.Common.{ℕ, Option, List, [], ◌∷◌, Text, length, ◌≡◌, refl, arith, All}
use prompt_patrol.Pipeline.Runs.{
  GenerationResult, RunState, skipped, with_reply, run_calls, fresh_run, edit_id, edit_calls,
  simulate_run,
}
use prompt_patrol.Pipeline.Runs.Report.{AddsUp, fresh_run-AddsUp, IsNew, run_calls-New}

module _ {Rng Draw : Type 0} (draw : Rng → Draw × Rng) where
  -- The draws that the selection and the seed alone give.
  pub with_draws : List Text → Rng → List (Text × Draw)
  with_draws [] rng = []
  with_draws (source ∷ sources) rng = (source, (draw rng).0) ∷ with_draws sources (draw rng).1

  length-with_draws :
      (sources : List Text) (rng : Rng) → length (with_draws sources rng) ≡ length sources
  unfolding with_draws
  length-with_draws [] rng = refl
  length-with_draws (source ∷ sources) rng = omega (arith, length-with_draws sources (draw rng).1)

  module _ (client : ℕ → Text × Draw → Option GenerationResult) (existing : List Text) where
    edit_calls-run_calls :
        (sources : List Text) (rng : Rng) (s : RunState (Text × Draw))
        → edit_calls draw client existing sources rng s
          ≡ run_calls (edit_id draw client existing) client existing (with_draws sources rng) s
    unfolding edit_calls run_calls with_draws
    edit_calls-run_calls [] rng s = refl
    edit_calls-run_calls (source ∷ sources) rng s =
        let c : Text × Draw = (source, (draw rng).0) in
        rw
          (
            edit_calls-run_calls sources (draw rng).1 (skipped s),
            edit_calls-run_calls sources (draw rng).1 (with_reply c (client s.requested c) s),
          )
          refl

    -- A simulated run's report adds up, and each record that it writes is new, has text and carries
    -- the edit types and the target size that the selection and the seed alone give its answer: a
    -- resumed run asks for the same edits as an uninterrupted one.
    pub simulate_run-IsNew :
        (selected : List Text) (rng : Rng)
        → AddsUp (length selected) (simulate_run draw client existing selected rng)
          × All
              (IsNew (edit_id draw client existing) client existing (with_draws selected rng))
              (simulate_run draw client existing selected rng).written
    unfolding simulate_run
    simulate_run-IsNew selected rng =
        rw (edit_calls-run_calls selected rng fresh_run, ← length-with_draws selected rng)
          (
            fresh_run-AddsUp (edit_id draw client existing) client existing
                (with_draws selected rng),
            run_calls-New (edit_id draw client existing) client existing _ _ fresh_run (λ c i. i)
                tt,
          )
