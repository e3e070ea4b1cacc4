-- ===== src/Pipeline/Runs/Report.antt =====
-- What a run's report says, and what a run writes.
use mathlib.Core.Path.{subst}
use prompt_patrol.Common.{
  ℕ, ◌+◌, ◌*◌, ◌≤◌, ◌<◌, Bool, true, false, Option, none, some, List, [], ◌∷◌, Text, map, NoRepeats,
  length, length-append, leb, ◌≡◌, ◌≢◌, ◌⊎◌, In, All, All-append, inl, inr, refl, arith, Bool-cases,
  if◌then◌else◌,
}
use prompt_patrol.Pipeline.Split.{is_in}
use prompt_patrol.Pipeline.Runs.{
  GenerationResult, RunState, skipped, with_result, with_reply, goes_on, run_calls, fresh_run,
  paraphrase_id, paraphrase_calls, paraphrase_run,
}
use prompt_patrol.Pipeline.Runs.Once.{ids, fresh_run-Once}

module _ {C : Type 0} where
  -- The numbers of a report, after `calls` of a run's calls.
  pub record Counts (calls : ℕ) (s : RunState C) : Type 0 where
    pub requests : s.requested ≡ s.succeeded + s.failed
    pub records : length s.written ≡ s.succeeded
    pub done : s.skipped_existing + s.requested ≡ calls
    pub wasted : s.failed ≤ 2 * s.succeeded + s.streak
    pub below : s.streak ≤ 3

  skipped-Counts : (n : ℕ) (s : RunState C) → Counts n s → Counts (n + 1) (skipped s)
  skipped-Counts n s h = omega (arith, h)

  with_result-Counts :
      (n : ℕ) (c : C) (r : GenerationResult) (a : Text) (s : RunState C)
      → s.streak < 3
      → Counts n s
      → Counts (n + 1) (with_result c r a s)
  with_result-Counts n c r [] s l h = omega (arith, h)
  with_result-Counts n c r (_ ∷ _) s l h = omega (arith, h, length-append s.written ((c, r) ∷ []))

  with_reply-Counts :
      (n : ℕ) (c : C) (o : Option GenerationResult) (s : RunState C)
      → s.streak < 3
      → Counts n s
      → Counts (n + 1) (with_reply c o s)
  with_reply-Counts n c none s l h = omega (arith, h)
  with_reply-Counts n c (some r) s l h = with_result-Counts n c r r.answer s l h

  -- The report of a run of `calls` calls: all of them are accounted for, or three failures in a row
  -- have ended it; and failures are few beside successes.
  pub record AddsUp (calls : ℕ) (s : RunState C) : Type 0 where
    pub requests : s.requested ≡ s.succeeded + s.failed
    pub records : length s.written ≡ s.succeeded
    pub within : s.skipped_existing + s.requested ≤ calls
    pub whole : (s.skipped_existing + s.requested ≡ calls) ⊎ (s.streak ≡ 3)
    pub wasted : s.failed ≤ 2 * s.succeeded + 3

  ended-AddsUp :
      (n m : ℕ) (s : RunState C) → Counts n s → leb 3 s.streak ≡ true → n ≤ m → AddsUp m s
  ended-AddsUp n m s h e l = record {
    requests = h.requests;
    records = h.records;
    within = omega (arith, h, l);
    whole = inr (ground (arith, h.below, e));
    wasted = omega (arith, h);
  }

module _ {C : Type 0} (id_of : C → Text) (client : ℕ → C → Option GenerationResult)
    (existing : List Text) where
  run_calls-AddsUp :
      (n : ℕ) (cs : List C) (s : RunState C)
      → s.streak < 3
      → Counts n s
      → AddsUp (n + length cs) (run_calls id_of client existing cs s)
  unfolding run_calls
  run_calls-AddsUp n [] s l h = record {
    requests = h.requests;
    records = h.records;
    within = omega (arith, h);
    whole = inl (omega (arith, h));
    wasted = omega (arith, h, l);
  }
  run_calls-AddsUp n (c ∷ cs) s l h =
      let asked : RunState C = with_reply c (client s.requested c) s in
      let k : Counts (n + 1) asked = with_reply-Counts n c (client s.requested c) s l h in
      let e : n + 1 + length cs ≡ n + length (c ∷ cs) = omega arith in
      elim (Bool-cases (is_in (id_of c) existing)) [
        | inl old ↦
            rw old (rw (← e) (run_calls-AddsUp (n + 1) cs (skipped s) l (skipped-Counts n s h)))
        | inr new ↦ elim (Bool-cases (leb 3 asked.streak)) [
          | inl over ↦
              rw (new, over)
                (ended-AddsUp (n + 1) (n + length (c ∷ cs)) asked k over (omega (arith, e)))
          | inr on ↦
              rw (new, on) (rw (← e) (run_calls-AddsUp (n + 1) cs asked (ground (arith, on)) k))
        ]
      ]

fresh-Counts : {C : Type 0} → Counts {C = C} 0 fresh_run
fresh-Counts = omega arith

pub fresh_run-AddsUp :
    {C : Type 0} (id_of : C → Text) (client : ℕ → C → Option GenerationResult)
    (existing : List Text) (cs : List C)
    → AddsUp (length cs) (run_calls id_of client existing cs fresh_run)
fresh_run-AddsUp id_of client existing cs =
    let e : 0 + length cs ≡ length cs = omega arith in
    subst (λ n. AddsUp n (run_calls id_of client existing cs fresh_run)) e
      (run_calls-AddsUp id_of client existing 0 cs fresh_run (omega arith) fresh-Counts)

module _ {C : Type 0} (id_of : C → Text) (client : ℕ → C → Option GenerationResult)
    (existing : List Text) where
  -- A record is of one of the calls, is new, and has text.
  abbrev pub IsNew : List C → C × GenerationResult → Type 0
  IsNew cs (c, r) = In c cs × (is_in (id_of c) existing ≡ false) × (r.answer ≢ [])

  with_result-New :
      (all : List C) (c : C) (r : GenerationResult) (a : Text) (s : RunState C)
      → r.answer ≡ a
      → In c all
      → is_in (id_of c) existing ≡ false
      → All (IsNew all) s.written
      → All (IsNew all) (with_result c r a s).written
  with_result-New all c r [] s e i new h = h
  with_result-New all c r (x ∷ a) s e i new h =
      All-append (IsNew all) s.written ((c, r) ∷ []) h ((i, new, (λ none_left. cc)), tt)

  with_reply-New :
      (all : List C) (c : C) (o : Option GenerationResult) (s : RunState C)
      → In c all
      → is_in (id_of c) existing ≡ false
      → All (IsNew all) s.written
      → All (IsNew all) (with_reply c o s).written
  with_reply-New all c none s i new h = h
  with_reply-New all c (some r) s i new h = with_result-New all c r r.answer s refl i new h

  unless_ended-New :
      (all : List C) (b : Bool) (s t : RunState C)
      → All (IsNew all) s.written
      → All (IsNew all) t.written
      → All (IsNew all) (if b then t else s).written
  unless_ended-New all true s t h k = k
  unless_ended-New all false s t h k = h

  pub run_calls-New :
      (all cs : List C) (s : RunState C)
      → ((c : C) → In c cs → In c all)
      → All (IsNew all) s.written
      → All (IsNew all) (run_calls id_of client existing cs s).written
  unfolding run_calls
  run_calls-New all [] s sub h = h
  run_calls-New all (c ∷ cs) s sub h =
      let asked : RunState C = with_reply c (client s.requested c) s in
      elim (Bool-cases (is_in (id_of c) existing)) [
        | inl old ↦ rw old (run_calls-New all cs (skipped s) (λ d i. sub d (inr i)) h)
        | inr new ↦
            let k : All (IsNew all) asked.written =
              with_reply-New all c (client s.requested c) s (sub c (inl refl)) new h in
            rw new (
              unless_ended-New all (goes_on asked) asked _ k
                (run_calls-New all cs asked (λ d i. sub d (inr i)) k))
      ]

-- Where the calls have different identifiers, a paraphrase run writes each at most once; and what it
-- appends is new: of one of its calls, under an identifier that the output did not have, and with
-- text.
pub paraphrase_run-New :
    (client : ℕ → Text × Text → Option GenerationResult) (existing selected strengths : List Text)
    → NoRepeats (map paraphrase_id (paraphrase_calls selected strengths))
    → NoRepeats (ids paraphrase_id (paraphrase_run client existing selected strengths).written)
      × All
          (IsNew paraphrase_id client existing (paraphrase_calls selected strengths))
          (paraphrase_run client existing selected strengths).written
unfolding paraphrase_run
paraphrase_run-New client existing selected strengths d = (
  fresh_run-Once paraphrase_id client existing (paraphrase_calls selected strengths) d,
  run_calls-New paraphrase_id client existing _ _ fresh_run (λ c i. i) tt,
)
