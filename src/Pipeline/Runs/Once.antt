-- ===== src/Pipeline/Runs/Once.antt =====
-- A run whose calls have different identifiers writes no identifier twice.
use mathlib.Core.Path.{subst}
use prompt_patrol.Common.{
  ℕ, Option, none, some, List, [], ◌∷◌, ◌++◌, map, Text, leb, ◌≡◌, ◌⊎◌, refl, ap, inl, inr,
  Bool-cases, In, In-append, In-map, NoRepeats, NoRepeats-snoc,
}
use prompt_patrol.Pipeline.Split.{is_in}
use prompt_patrol.Pipeline.Runs.{
  GenerationResult, RunState, skipped, with_result, with_reply, run_calls, fresh_run,
}

module _ {C : Type 0} (id_of : C → Text) where
  abbrev pub ids : List (C × GenerationResult) → List Text
  ids = map (λ x. id_of x.0)

  ids-snoc :
      (xs : List (C × GenerationResult)) (c : C) (r : GenerationResult)
      → ids (xs ++ (c, r) ∷ []) ≡ ids xs ++ id_of c ∷ []
  ids-snoc [] c r = refl
  ids-snoc (x ∷ xs) c r = ap (λ rest. id_of x.0 ∷ rest) (ids-snoc xs c r)

  with_result-ids :
      (c : C) (r : GenerationResult) (a : Text) (s : RunState C)
      → (ids (with_result c r a s).written ≡ ids s.written)
        ⊎ (ids (with_result c r a s).written ≡ ids s.written ++ id_of c ∷ [])
  with_result-ids c r [] s = inl refl
  with_result-ids c r (_ ∷ _) s = inr (ids-snoc s.written c r)

  with_reply-ids :
      (c : C) (o : Option GenerationResult) (s : RunState C)
      → (ids (with_reply c o s).written ≡ ids s.written)
        ⊎ (ids (with_reply c o s).written ≡ ids s.written ++ id_of c ∷ [])
  with_reply-ids c none s = inl refl
  with_reply-ids c (some r) s = with_result-ids c r r.answer s

  -- Nothing is written twice, and nothing of the calls left to make.
  record Once (cs : List C) (s : RunState C) : Type 0 where
    apart : NoRepeats (ids s.written)
    ahead : (c : C) → In c cs → ¬ In (id_of c) (ids s.written)

  skipped-Once : (c : C) (cs : List C) (s : RunState C) → Once (c ∷ cs) s → Once cs (skipped s)
  skipped-Once c cs s o = record { apart = o.apart; ahead = λ d i. o.ahead d (inr i) }

  asked-Once :
      (c : C) (cs : List C) (o : Option GenerationResult) (s : RunState C)
      → ¬ In (id_of c) (map id_of cs)
      → Once (c ∷ cs) s
      → Once cs (with_reply c o s)
  asked-Once c cs o s new h = elim (with_reply-ids c o s) [
    | inl e ↦ record { apart = rw e h.apart; ahead = λ d i. rw e (h.ahead d (inr i)) }
    | inr e ↦ record {
      apart = rw e (NoRepeats-snoc (ids s.written) (id_of c) h.apart (h.ahead c (inl refl)));
      ahead = λ d i. rw e (λ j. elim (In-append (id_of d) (ids s.written) (id_of c ∷ []) j) [
        | inl k ↦ h.ahead d (inr i) k
        | inr (inl k) ↦ new (subst (λ t. In t (map id_of cs)) k (In-map id_of d cs i))
        | inr (inr none_left) ↦ none_left
      ]);
    }
  ]

module _ {C : Type 0} (id_of : C → Text) (client : ℕ → C → Option GenerationResult)
    (existing : List Text) where
  run_calls-Once :
      (cs : List C) (s : RunState C)
      → NoRepeats (map id_of cs)
      → Once id_of cs s
      → NoRepeats (ids id_of (run_calls id_of client existing cs s).written)
  unfolding run_calls
  run_calls-Once [] s d h = h.apart
  run_calls-Once (c ∷ cs) s d h =
      let asked : RunState C = with_reply c (client s.requested c) s in
      let k : Once id_of cs asked = asked-Once id_of c cs (client s.requested c) s d.0 h in
      elim (Bool-cases (is_in (id_of c) existing)) [
        | inl old ↦ rw old (run_calls-Once cs (skipped s) d.1 (skipped-Once id_of c cs s h))
        | inr new ↦ elim (Bool-cases (leb 3 asked.streak)) [
          | inl over ↦ rw (new, over) k.apart
          | inr on ↦ rw (new, on) (run_calls-Once cs asked d.1 k)
        ]
      ]

  pub fresh_run-Once :
      (cs : List C)
      → NoRepeats (map id_of cs)
      → NoRepeats (ids id_of (run_calls id_of client existing cs fresh_run).written)
  fresh_run-Once cs d = run_calls-Once cs fresh_run d (record { apart = tt; ahead = λ c i j. j })
