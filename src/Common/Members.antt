-- ===== src/Common/Members.antt =====
-- Membership by recursion, which a proof takes apart by clauses.
use mathlib.Core.Path.{◌≡◌, refl, ap, sym, ◌∙◌}
use mathlib.Core.Logic.{◌⊎◌, inl, inr}
use mathlib.Core.Bool.{Bool, true, false}
use mathlib.Core.List.{List, [], ◌∷◌, ◌++◌, map}
use prompt_patrol.Common.Tests.{if◌then◌else◌, Bool-cases}
use prompt_patrol.Common.Lists.{select}

abbrev pub In : {A : Type 0} → A → List A → Type 0
In x [] = ⊥
In x (y ∷ ys) = (x ≡ y) ⊎ In x ys

module _ {A : Type 0} where
  pub In-append_left : (x : A) (xs ys : List A) → In x xs → In x (xs ++ ys)
  In-append_left x [] ys h = absurd h
  In-append_left x (y ∷ xs) ys (inl e) = inl e
  In-append_left x (y ∷ xs) ys (inr h) = inr (In-append_left x xs ys h)

  pub In-append_right : (x : A) (xs ys : List A) → In x ys → In x (xs ++ ys)
  In-append_right x [] ys h = h
  In-append_right x (y ∷ xs) ys h = inr (In-append_right x xs ys h)

  pub In-append : (x : A) (xs ys : List A) → In x (xs ++ ys) → In x xs ⊎ In x ys
  In-append x [] ys h = inr h
  In-append x (y ∷ xs) ys (inl e) = inl (inl e)
  In-append x (y ∷ xs) ys (inr h) = elim (In-append x xs ys h) [
    | inl l ↦ inl (inr l)
    | inr r ↦ inr r
  ]

  In-if :
      (b : Bool) (x y : A) (ys : List A)
      → In x (if b then y ∷ ys else ys)
      → ((b ≡ true) × (x ≡ y)) ⊎ In x ys
  In-if true x y ys (inl e) = inl (refl, e)
  In-if true x y ys (inr h) = inr h
  In-if false x y ys h = inr h

  -- What a query gives is in the table and satisfies the condition.
  pub In-select : (p : A → Bool) (x : A) (xs : List A) → In x (select p xs) → In x xs × (p x ≡ true)
  unfolding select
  In-select p x [] h = absurd h
  In-select p x (y ∷ ys) h = elim (In-if (p y) x y (select p ys) h) [
    | inl (e, same) ↦ (inl same, ap p same ∙ e)
    | inr k ↦ let (i, t) = In-select p x ys k in (inr i, t)
  ]

  pub In-select_of :
      (p : A → Bool) (x : A) (xs : List A) → In x xs → p x ≡ true → In x (select p xs)
  unfolding select
  In-select_of p x [] h t = absurd h
  In-select_of p x (y ∷ ys) (inl e) t = rw (ap p (sym e) ∙ t) (inl e)
  In-select_of p x (y ∷ ys) (inr h) t = elim (Bool-cases (p y)) [
    | inl u ↦ rw u (inr (In-select_of p x ys h t))
    | inr u ↦ rw u (In-select_of p x ys h t)
  ]

pub In-map : {A B : Type 0} (f : A → B) (x : A) (xs : List A) → In x xs → In (f x) (map f xs)
In-map f x [] h = absurd h
In-map f x (y ∷ ys) (inl e) = inl (ap f e)
In-map f x (y ∷ ys) (inr h) = inr (In-map f x ys h)

-- What a mapped list holds comes from an element of the list.
pub In-map_from :
    {A B : Type 0} (f : A → B) (b : B) (xs : List A)
    → In b (map f xs)
    → (x : A) × (In x xs × (b ≡ f x))
In-map_from f b [] h = absurd h
In-map_from f b (y ∷ ys) (inl e) = (y, (inl refl, e))
In-map_from f b (y ∷ ys) (inr h) = let (x, p) = In-map_from f b ys h in (x, (inr p.0, p.1))
