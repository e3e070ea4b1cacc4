-- ===== src/Common/Repeats.antt =====
-- Lists without repeats: as many elements as any other such list with the same members.
use mathlib.Core.Path.{◌≡◌, refl, ap, sym, ◌∙◌, subst}
use mathlib.Core.Logic.{inl, inr, ◌↔◌}
use mathlib.Core.Bool.{Bool}
use mathlib.Core.List.{List, [], ◌∷◌, ◌++◌, map}
use Prim.Native.Nat.{suc, ◌≤◌}
use native.Mathlib.Omega.{arith}
use prompt_patrol.Common.Tests.{Bool-cases}
use prompt_patrol.Common.Lists.{select, length, sort_by, insert_by}
use prompt_patrol.Common.Members.{In, In-append, In-select, In-map, In-map_from}

module _ {A : Type 0} where
  abbrev pub NoRepeats : List A → Type 0
  NoRepeats [] = Unit
  NoRepeats (x ∷ xs) = ¬ In x xs × NoRepeats xs

  abbrev pub SameMembers : List A → List A → Type 0
  SameMembers xs ys = (x : A) → In x xs ↔ In x ys

  abbrev without : (x : A) (ys : List A) → In x ys → List A
  without x [] h = absurd h
  without x (y ∷ ys) (inl e) = ys
  without x (y ∷ ys) (inr h) = y ∷ without x ys h

  length-without : (x : A) (ys : List A) (h : In x ys) → suc (length (without x ys h)) ≡ length ys
  length-without x [] h = absurd h
  length-without x (y ∷ ys) (inl e) = refl
  length-without x (y ∷ ys) (inr h) = ap suc (length-without x ys h)

  without-In : (x z : A) (ys : List A) (h : In x ys) → ¬ (z ≡ x) → In z ys → In z (without x ys h)
  without-In x z [] h d i = absurd h
  without-In x z (y ∷ ys) (inl e) d (inl i) = absurd (d (i ∙ sym e))
  without-In x z (y ∷ ys) (inl e) d (inr i) = i
  without-In x z (y ∷ ys) (inr h) d (inl i) = inl i
  without-In x z (y ∷ ys) (inr h) d (inr i) = inr (without-In x z ys h d i)

  length_within :
      (xs ys : List A) → NoRepeats xs → ((x : A) → In x xs → In x ys) → length xs ≤ length ys
  length_within [] ys d h = omega arith
  length_within (x ∷ xs) ys d h =
      let i : In x ys = h x (inl refl) in
      let shorter : length xs ≤ length (without x ys i) =
        length_within xs (without x ys i) d.1
          (λ z j. without-In x z ys i (λ e. d.0 (subst (λ u. In u xs) e j)) (h z (inr j))) in
      omega (arith, shorter, length-without x ys i)

  pub length_same :
      (xs ys : List A) → NoRepeats xs → NoRepeats ys → SameMembers xs ys → length xs ≡ length ys
  length_same xs ys d e h =
      let no_more : length xs ≤ length ys = length_within xs ys d (λ x. (h x).0) in
      let no_less : length ys ≤ length xs = length_within ys xs e (λ x. (h x).1) in
      omega (arith, no_more, no_less)

  insert_by-Members :
      (before : A → A → Bool) (z x : A) (xs : List A) → In z (insert_by before x xs) ↔ In z (x ∷ xs)
  insert_by-Members before z x [] = (λ h. h, λ h. h)
  insert_by-Members before z x (y ∷ ys) = elim (Bool-cases (before x y)) [
    | inl e ↦ rw e (λ h. h, λ h. h)
    | inr e ↦ rw e (there (insert_by-Members before z x ys), back (insert_by-Members before z x ys))
  ]
    where
      there :
          In z (insert_by before x ys) ↔ In z (x ∷ ys)
          → In z (y ∷ insert_by before x ys)
          → In z (x ∷ y ∷ ys)
      there k (inl i) = inr (inl i)
      there k (inr h) = elim (k.0 h) [ inl i ↦ inl i | inr i ↦ inr (inr i) ]

      back :
          In z (insert_by before x ys) ↔ In z (x ∷ ys)
          → In z (x ∷ y ∷ ys)
          → In z (y ∷ insert_by before x ys)
      back k (inl i) = inr (k.1 (inl i))
      back k (inr (inl i)) = inl i
      back k (inr (inr i)) = inr (k.1 (inr i))

  insert_by-NoRepeats :
      (before : A → A → Bool) (x : A) (xs : List A)
      → ¬ In x xs
      → NoRepeats xs
      → NoRepeats (insert_by before x xs)
  insert_by-NoRepeats before x [] h d = (h, tt)
  insert_by-NoRepeats before x (y ∷ ys) h d = elim (Bool-cases (before x y)) [
    | inl e ↦ rw e (h, d)
    | inr e ↦ rw e (
      (λ i. elim ((insert_by-Members before y x ys).0 i) [
        | inl same ↦ h (inl (sym same))
        | inr j ↦ d.0 j
      ]),
      insert_by-NoRepeats before x ys (λ i. h (inr i)) d.1,
    )
  ]

  pub sort_by-Members : (before : A → A → Bool) (xs : List A) → SameMembers (sort_by before xs) xs
  unfolding sort_by
  sort_by-Members before [] z = (λ h. h, λ h. h)
  sort_by-Members before (x ∷ xs) z = both (sort_by-Members before xs z)
    where
      both :
          In z (sort_by before xs) ↔ In z xs
          → In z (insert_by before x (sort_by before xs)) ↔ In z (x ∷ xs)
      both k = (
        (λ h. elim ((insert_by-Members before z x (sort_by before xs)).0 h) [
          | inl i ↦ inl i
          | inr i ↦ inr (k.0 i)
        ]),
        (λ h.
            (insert_by-Members before z x (sort_by before xs)).1
              (elim h [ inl i ↦ inl i | inr i ↦ inr (k.1 i) ])),
      )

  pub sort_by-NoRepeats :
      (before : A → A → Bool) (xs : List A) → NoRepeats xs → NoRepeats (sort_by before xs)
  unfolding sort_by
  sort_by-NoRepeats before [] d = tt
  sort_by-NoRepeats before (x ∷ xs) d =
      insert_by-NoRepeats before x (sort_by before xs)
        (λ i. d.0 ((sort_by-Members before xs x).0 i)) (sort_by-NoRepeats before xs d.1)

  pub NoRepeats-snoc : (xs : List A) (x : A) → NoRepeats xs → ¬ In x xs → NoRepeats (xs ++ x ∷ [])
  NoRepeats-snoc [] x d h = ((λ i. i), tt)
  NoRepeats-snoc (y ∷ ys) x d h = (
    (λ i. elim (In-append y ys (x ∷ []) i) [
      | inl j ↦ d.0 j
      | inr (inl e) ↦ h (inl (sym e))
      | inr (inr none) ↦ none
    ]),
    NoRepeats-snoc ys x d.1 (λ i. h (inr i)),
  )

module _ {A B : Type 0} (f : A → B) where
  -- Keys stay without repeats in a query's rows.
  pub map-select-NoRepeats :
      (p : A → Bool) (xs : List A) → NoRepeats (map f xs) → NoRepeats (map f (select p xs))
  unfolding select
  map-select-NoRepeats p [] d = tt
  map-select-NoRepeats p (x ∷ xs) d = elim (Bool-cases (p x)) [
    | inl e ↦ rw e (
      (λ i.
          let (y, j) = In-map_from f (f x) (select p xs) i in
          d.0 (subst (λ b. In b (map f xs)) (sym j.1) (In-map f y xs (In-select p y xs j.0).0))),
      map-select-NoRepeats p xs d.1,
    )
    | inr e ↦ rw e (map-select-NoRepeats p xs d.1)
  ]

  -- One row has each key.
  pub one_row :
      (xs : List A) → NoRepeats (map f xs) → (x y : A) → In x xs → In y xs → f x ≡ f y → x ≡ y
  one_row [] d x y h k e = absurd h
  one_row (z ∷ zs) d x y (inl h) (inl k) e = h ∙ sym k
  one_row (z ∷ zs) d x y (inl h) (inr k) e =
      absurd (d.0 (subst (λ b. In b (map f zs)) (sym e ∙ ap f h) (In-map f y zs k)))
  one_row (z ∷ zs) d x y (inr h) (inl k) e =
      absurd (d.0 (subst (λ b. In b (map f zs)) (e ∙ ap f k) (In-map f x zs h)))
  one_row (z ∷ zs) d x y (inr h) (inr k) e = one_row zs d.1 x y h k e
