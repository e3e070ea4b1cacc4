-- ===== src/Paging/Order.antt =====
-- Rows in the order of their keys: `sort_by` sorts, and a filter may come before it or after it.
use prompt_patrol.Common.{
  ◌≡◌, refl, Bool, true, false, List, [], ◌∷◌, ◌++◌, ◌||◌, inl, inr, arith, All, All-map,
  All-select, select, sort_by, insert_by, Bool-cases, if◌then◌else◌,
}

-- What the order of a listing must be.
pub record IsKeyOrder {A : Type 0} (before : A → A → Bool) : Type 0 where
  pub trans : (a b c : A) → before a b ≡ true → before b c ≡ true → before a c ≡ true
  pub asym : (a b : A) → before a b ≡ true → before b a ≡ false

module _ {A : Type 0} (before : A → A → Bool) where
  abbrev pub Precedes : A → List A → Type 0
  Precedes x = All (λ y. before x y ≡ true)

  abbrev pub IsSorted : List A → Type 0
  IsSorted [] = Unit
  IsSorted (x ∷ xs) = Precedes x xs × IsSorted xs

  abbrev pub Comparable : A → List A → Type 0
  Comparable x = All (λ y. (before x y || before y x) ≡ true)

  -- No two rows have the same key.
  abbrev pub Distinct : List A → Type 0
  Distinct [] = Unit
  Distinct (x ∷ xs) = Comparable x xs × Distinct xs

module _ {A : Type 0} (before : A → A → Bool) (o : IsKeyOrder before) where
  All-insert_by :
      (P : A → Type 0) (x : A) (ys : List A) → P x → All P ys → All P (insert_by before x ys)
  All-insert_by P x [] p h = (p, tt)
  All-insert_by P x (y ∷ ys) p h = elim (Bool-cases (before x y)) [
    | inl e ↦ rw e (p, h)
    | inr e ↦ rw e (h.0, All-insert_by P x ys p h.1)
  ]

  pub All-sort_by : (P : A → Type 0) (xs : List A) → All P xs → All P (sort_by before xs)
  unfolding sort_by
  All-sort_by P [] h = tt
  All-sort_by P (x ∷ xs) h = All-insert_by P x (sort_by before xs) h.0 (All-sort_by P xs h.1)

  Precedes-trans :
      (x y : A) (ys : List A) → before x y ≡ true → Precedes before y ys → Precedes before x ys
  Precedes-trans x y ys e h =
      All-map (λ z. before y z ≡ true) (λ z. before x z ≡ true) (λ z k. o.trans x y z e k) ys h

  insert_by-IsSorted :
      (x : A) (ys : List A)
      → Comparable before x ys
      → IsSorted before ys
      → IsSorted before (insert_by before x ys)
  insert_by-IsSorted x [] c s = (tt, tt)
  insert_by-IsSorted x (y ∷ ys) c s = elim (Bool-cases (before x y)) [
    | inl e ↦ rw e ((e, Precedes-trans x y ys e s.0), s)
    | inr e ↦ rw e (
      All-insert_by (λ z. before y z ≡ true) x ys (ground (arith, c.0)) s.0,
      insert_by-IsSorted x ys c.1 s.1,
    )
  ]

  pub sort_by-IsSorted : (xs : List A) → Distinct before xs → IsSorted before (sort_by before xs)
  unfolding sort_by
  sort_by-IsSorted [] d = tt
  sort_by-IsSorted (x ∷ xs) d =
      insert_by-IsSorted x (sort_by before xs)
        (All-sort_by (λ y. (before x y || before y x) ≡ true) xs d.0) (sort_by-IsSorted xs d.1)

  insert_by_first : (x : A) (ys : List A) → Precedes before x ys → insert_by before x ys ≡ x ∷ ys
  insert_by_first x [] h = refl
  insert_by_first x (y ∷ ys) h = rw h.0

  pub Distinct-select :
      (p : A → Bool) (xs : List A) → Distinct before xs → Distinct before (select p xs)
  unfolding select
  Distinct-select p [] d = tt
  Distinct-select p (x ∷ xs) d = elim (Bool-cases (p x)) [
    | inl e ↦
        rw e
          (All-select (λ y. (before x y || before y x) ≡ true) p xs d.0, Distinct-select p xs d.1)
    | inr e ↦ rw e (Distinct-select p xs d.1)
  ]

  select-insert_by :
      (p : A → Bool) (x : A) (ys : List A)
      → IsSorted before ys
      → select p (insert_by before x ys)
        ≡ (if p x then insert_by before x (select p ys) else select p ys)
  unfolding select
  select-insert_by p x [] s = refl
  select-insert_by p x (y ∷ ys) s = elim (Bool-cases (before x y)) [
    | inl e ↦ ground (
      arith,
      e,
      insert_by_first x (select p (y ∷ ys))
          (All-select (λ z. before x z ≡ true) p (y ∷ ys) (e, Precedes-trans x y ys e s.0)),
    )
    | inr e ↦ ground (arith, e, select-insert_by p x ys s.1)
  ]

  -- Filtering and then sorting is sorting and then filtering.
  pub select-sort_by :
      (p : A → Bool) (xs : List A)
      → Distinct before xs
      → select p (sort_by before xs) ≡ sort_by before (select p xs)
  unfolding select sort_by
  select-sort_by p [] d = refl
  select-sort_by p (x ∷ xs) d = ground (
    arith,
    select-insert_by p x (sort_by before xs) (sort_by-IsSorted xs d.1),
    select-sort_by p xs d.1,
  )

  select_everything : (p : A → Bool) (xs : List A) → All (λ y. p y ≡ true) xs → select p xs ≡ xs
  unfolding select
  select_everything p [] h = refl
  select_everything p (x ∷ xs) h = ground (arith, h.0, select_everything p xs h.1)

  irreflexive : (x : A) → before x x ≡ false
  irreflexive x = elim (Bool-cases (before x x)) [ inl e ↦ o.asym x x e | inr e ↦ e ]

  Precedes-last :
      (x y : A) (pre post : List A) → Precedes before x (pre ++ y ∷ post) → before x y ≡ true
  Precedes-last x y [] post h = h.0
  Precedes-last x y (z ∷ pre) post h = Precedes-last x y pre post h.1

  -- In order, the rows after a row are those that it precedes.
  pub select-after :
      (pre : List A) (x : A) (post : List A)
      → IsSorted before (pre ++ x ∷ post)
      → select (before x) (pre ++ x ∷ post) ≡ post
  unfolding select
  select-after [] x post s = ground (arith, irreflexive x, select_everything (before x) post s.0)
  select-after (y ∷ pre) x post s =
      ground (arith, o.asym y x (Precedes-last y x pre post s.0), select-after pre x post s.1)
