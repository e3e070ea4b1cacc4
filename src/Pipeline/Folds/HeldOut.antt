-- ===== src/Pipeline/Folds/HeldOut.antt =====
-- What each fold trains on and tests on (logo_folds.py).
use mathlib.Core.Path.{subst}
use prompt_patrol.Common.{
  Bool, true, false, some, List, [], ◌∷◌, map, Text, text_eq, text_eq_iff, ◌&&◌, not, select, ◌≡◌,
  ◌≢◌, ◌↔◌, ◌⊎◌, refl, inl, inr, arith, In, All, In-append, In-append_left, In-append_right,
  In-select, In-select_of,
}
use prompt_patrol.Pipeline.Folds.{
  Answer, is_human, in_train, ai_generators, Fold, fold_of, folds_for, leave_one_generator_out,
}

-- A fold trains on the humans' training rows and the other generators, and tests on the humans'
-- other rows and its own generator.
pub record IsHeldOut (df : List Answer) (f : Fold) : Type 0 where
  pub trains :
      (a : Answer)
      → In a f.train ↔ (
          In a df
          × ((is_human a ≡ true) × (in_train a ≡ true)
              ⊎ ((a.generator ≢ f.generator) × (is_human a ≡ false))))
  pub tests :
      (a : Answer)
      → In a f.test
        ↔ (In a df × ((is_human a ≡ true) × (in_train a ≡ false) ⊎ (a.generator ≡ f.generator)))

both_false : (b c : Bool) → (not b && not c) ≡ true → (b ≡ false) × (c ≡ false)
both_false b c h = ground arith

module _ (df : List Answer) (g : Text) where
  abbrev is_other : Answer → Bool
  is_other a = not (text_eq a.generator g) && not (is_human a)

  train_of :
      (a : Answer)
      → In a (fold_of df g).train
      → In a df
        × ((is_human a ≡ true) × (in_train a ≡ true) ⊎ ((a.generator ≢ g) × (is_human a ≡ false)))
  unfolding fold_of
  train_of a h = elim (In-append a (select in_train (select is_human df)) (select is_other df) h) [
    | inl l ↦
        let (i, t) = In-select in_train a (select is_human df) l in
        let (j, u) = In-select is_human a df i in (j, inl (u, t))
    | inr r ↦
        let (j, t) = In-select is_other a df r in
        let (other, ai) = both_false (text_eq a.generator g) (is_human a) t in
        (j, inr ((λ e. ground (arith, other, text_eq_iff a.generator g)), ai))
  ]

  of_train :
      (a : Answer)
      → In a df
        × ((is_human a ≡ true) × (in_train a ≡ true) ⊎ ((a.generator ≢ g) × (is_human a ≡ false)))
      → In a (fold_of df g).train
  unfolding fold_of
  of_train a (j, inl (u, t)) =
      In-append_left a _ (select is_other df)
        (In-select_of in_train a (select is_human df) (In-select_of is_human a df j u) t)
  of_train a (j, inr (other, ai)) =
      In-append_right a (select in_train (select is_human df)) _
        (In-select_of is_other a df j (ground (arith, other, ai, text_eq_iff a.generator g)))

  test_of :
      (a : Answer)
      → In a (fold_of df g).test
      → In a df × ((is_human a ≡ true) × (in_train a ≡ false) ⊎ (a.generator ≡ g))
  unfolding fold_of
  test_of a h =
      elim (In-append a (select (λ a. not (in_train a)) (select is_human df))
        (select (λ a. text_eq a.generator g) df) h) [
          | inl l ↦
              let (i, t) = In-select (λ a. not (in_train a)) a (select is_human df) l in
              let (j, u) = In-select is_human a df i in (j, inl (u, ground (arith, t)))
          | inr r ↦
              let (j, t) = In-select (λ a. text_eq a.generator g) a df r in
              (j, inr ((text_eq_iff a.generator g).0 t))
        ]

  of_test :
      (a : Answer)
      → In a df × ((is_human a ≡ true) × (in_train a ≡ false) ⊎ (a.generator ≡ g))
      → In a (fold_of df g).test
  unfolding fold_of
  of_test a (j, inl (u, t)) = In-append_left a _ (select (λ a. text_eq a.generator g) df) (
      In-select_of (λ a. not (in_train a)) a (select is_human df) (In-select_of is_human a df j u)
        (rw t refl))
  of_test a (j, inr e) =
      In-append_right a (select (λ a. not (in_train a)) (select is_human df)) _
        (In-select_of (λ a. text_eq a.generator g) a df j ((text_eq_iff a.generator g).1 e))

  fold_of-IsHeldOut : IsHeldOut df (fold_of df g)
  unfolding fold_of
  fold_of-IsHeldOut = record {
    trains = λ a. (train_of a, of_train a);
    tests = λ a. (test_of a, of_test a);
  }

folds-IsHeldOut : (df : List Answer) (gs : List Text) → All (IsHeldOut df) (map (fold_of df) gs)
folds-IsHeldOut df [] = tt
folds-IsHeldOut df (g ∷ gs) = (fold_of-IsHeldOut df g, folds-IsHeldOut df gs)

-- Every fold trains on exactly the humans' training rows and the AI rows of the other generators,
-- and tests on exactly the humans' other rows and the rows of its own generator.
pub leave_one_generator_out-IsHeldOut :
    (df : List Answer) (folds : List Fold)
    → leave_one_generator_out df ≡ some folds
    → All (IsHeldOut df) folds
unfolding leave_one_generator_out
leave_one_generator_out-IsHeldOut df folds e = of_generators (ai_generators df) e
  where
    of_generators : (gs : List Text) → folds_for df gs ≡ some folds → All (IsHeldOut df) folds
    of_generators [] h = cc
    of_generators (g ∷ gs) h =
        let same : map (fold_of df) (g ∷ gs) ≡ folds = cc in
        subst (All (IsHeldOut df)) same (folds-IsHeldOut df (g ∷ gs))
