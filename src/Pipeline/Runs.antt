-- ===== src/Pipeline/Runs.antt =====
-- The paid passes over the answers: paraphrase/generate.py `run`, and human_edit/simulate.py `run`,
-- past their dry-run gate. A model's client is a parameter: its reply, or none for an exception, is a
-- function of how many requests were made before and of what is asked.
pub mod Billed
pub mod Once
pub mod Report
pub mod Draws
use prompt_patrol.Common.{
  ℕ, ◌+◌, Bool, true, false, Option, none, some, List, [], ◌∷◌, ◌++◌, Text, text, leb,
  if◌then◌else◌,
}
use prompt_patrol.Pipeline.Split.{is_in}

-- `GenerationResult`
pub record GenerationResult : Type 0 where
  pub answer : Text
  pub prompt_tokens : ℕ
  pub completion_tokens : ℕ

-- `run_report.json`, `streak`, and the records appended to the output.
pub record RunState (C : Type 0) : Type 0 where
  pub requested : ℕ
  pub succeeded : ℕ
  pub failed : ℕ
  pub skipped_existing : ℕ
  pub prompt_tokens : ℕ
  pub completion_tokens : ℕ
  pub streak : ℕ
  pub written : List (C × GenerationResult)

module _ {C : Type 0} where
  abbrev pub skipped : RunState C → RunState C
  skipped s = record s { skipped_existing = s.skipped_existing + 1 }

  abbrev pub failure : RunState C → RunState C
  failure s = record s { requested = s.requested + 1; failed = s.failed + 1; streak = s.streak + 1 }

  abbrev pub billed : GenerationResult → RunState C → RunState C
  billed r s = record s {
    prompt_tokens = s.prompt_tokens + r.prompt_tokens;
    completion_tokens = s.completion_tokens + r.completion_tokens;
  }

  abbrev pub success : C → GenerationResult → RunState C → RunState C
  success c r s = record (billed r s) {
    requested = s.requested + 1;
    succeeded = s.succeeded + 1;
    streak = 0;
    written = s.written ++ (c, r) ∷ [];
  }

  -- An answer without text is billed, and is a failure.
  abbrev pub with_result : C → GenerationResult → Text → RunState C → RunState C
  with_result c r [] s = failure (billed r s)
  with_result c r (_ ∷ _) s = success c r s

  abbrev pub with_reply : C → Option GenerationResult → RunState C → RunState C
  with_reply c none s = failure s
  with_reply c (some r) s = with_result c r r.answer s

  -- Three failures in a row end the run.
  abbrev pub goes_on : RunState C → Bool
  goes_on s = if leb 3 s.streak then false else true

  abbrev pub unless_ended : RunState C → RunState C → RunState C
  unless_ended s rest = if goes_on s then rest else s

module _ {C : Type 0} (id_of : C → Text) (client : ℕ → C → Option GenerationResult)
    (existing : List Text) where
  unfoldable pub run_calls : List C → RunState C → RunState C
  run_calls [] s = s
  run_calls (c ∷ cs) s =
      let skip = run_calls cs (skipped s) in
      let asked = with_reply c (client s.requested c) s in
      let rest = run_calls cs asked in
      if is_in (id_of c) existing then skip else unless_ended asked rest

abbrev pub fresh_run : {C : Type 0} → RunState C
fresh_run = record {
  requested = 0;
  succeeded = 0;
  failed = 0;
  skipped_existing = 0;
  prompt_tokens = 0;
  completion_tokens = 0;
  streak = 0;
  written = [];
}

-- An answer's identifier and a strength: `calls`.
abbrev pub paraphrase_id : Text × Text → Text
paraphrase_id (answer_id, strength) = answer_id ++ (text "/para-" ++ strength)

abbrev pub with_strengths : Text → List Text → List (Text × Text)
with_strengths source [] = []
with_strengths source (strength ∷ strengths) = (source, strength) ∷ with_strengths source strengths

abbrev pub paraphrase_calls : List Text → List Text → List (Text × Text)
paraphrase_calls [] strengths = []
paraphrase_calls (source ∷ sources) strengths =
    with_strengths source strengths ++ paraphrase_calls sources strengths

unfoldable pub paraphrase_run :
    (ℕ → Text × Text → Option GenerationResult)
    → List Text
    → List Text
    → List Text
    → RunState (Text × Text)
paraphrase_run client existing selected strengths =
    run_calls paraphrase_id client existing (paraphrase_calls selected strengths) fresh_run

-- The simulated edits. A draw gives the edit types and the target size of one answer, and the
-- generator's next state.
module _ {Rng Draw : Type 0} (draw : Rng → Draw × Rng)
    (client : ℕ → Text × Draw → Option GenerationResult) (existing : List Text) where
  abbrev pub edit_id : Text × Draw → Text
  edit_id (answer_id, d) = answer_id ++ text "/edit-simulated"

  -- Each answer draws before the check of what exists.
  unfoldable pub edit_calls : List Text → Rng → RunState (Text × Draw) → RunState (Text × Draw)
  edit_calls [] rng s = s
  edit_calls (source ∷ sources) rng s =
      let c : Text × Draw = (source, (draw rng).0) in
      let skip = edit_calls sources (draw rng).1 (skipped s) in
      let asked = with_reply c (client s.requested c) s in
      let rest = edit_calls sources (draw rng).1 asked in
      if is_in (edit_id c) existing then skip else unless_ended asked rest

  unfoldable pub simulate_run : List Text → Rng → RunState (Text × Draw)
  simulate_run selected rng = edit_calls selected rng fresh_run
