-- ===== src/Paging/Laws.antt =====
-- A page and the query that its cursor starts split the ordered rows without a gap or an overlap.
use prompt_patrol.Common.{
  ℕ, zero, suc, ◌≤◌, ◌<◌, ◌≡◌, refl, ap, sym, ◌∙◌, Bool, Option, none, some, List, [], ◌∷◌, ◌++◌,
  inl, inr, arith, ltb, length, take, drop, select, Bool-cases, length-take,
}
use mathlib.Core.List.{append_assoc}
use prompt_patrol.Models.{Uuid}
use prompt_patrol.Paging.{last, last_id, cut, page}
use prompt_patrol.Paging.Order.{IsKeyOrder, IsSorted, select-after}

module _ {A : Type 0} where
  take-append-drop : (n : ℕ) (xs : List A) → take n xs ++ drop n xs ≡ xs
  take-append-drop zero xs = refl
  take-append-drop (suc n) [] = refl
  take-append-drop (suc n) (x ∷ xs) = ap (λ r. x ∷ r) (take-append-drop n xs)

  take-take-suc : (n : ℕ) (xs : List A) → take n (take (suc n) xs) ≡ take n xs
  take-take-suc zero xs = refl
  take-take-suc (suc n) [] = refl
  take-take-suc (suc n) (x ∷ xs) = ap (λ r. x ∷ r) (take-take-suc n xs)

  take_all : (n : ℕ) (xs : List A) → length (take (suc n) xs) ≤ n → take (suc n) xs ≡ xs
  take_all n [] h = refl
  take_all zero (x ∷ xs) h = absurd (omega arith)
  take_all (suc n) (x ∷ xs) h = ap (λ r. x ∷ r) (take_all n xs (omega arith))

  -- The last row of a page, with those before it.
  init : A → List A → List A
  init x [] = []
  init x (y ∷ ys) = x ∷ init y ys

  init-append-last : (x : A) (xs : List A) → init x xs ++ last x xs ∷ [] ≡ x ∷ xs
  unfolding init
  init-append-last x [] = refl
  init-append-last x (y ∷ ys) = ap (λ r. x ∷ r) (init-append-last y ys)

-- What a page is of the ordered rows: all of them, or `limit` of them, where the rows left are those
-- that the last row of the page precedes.
abbrev pub Splits :
    {A : Type 0} → (A → Uuid) → (A → A → Bool) → ℕ → List A → List A × Option Uuid → Type 0
Splits id before limit ordered (items, none) = items ≡ ordered
Splits {A} id before limit ordered (items, some c) =
    (x : A) × (pre : List A) × (items ≡ pre ++ x ∷ [])
    × (c ≡ id x)
    × (items ++ select (before x) ordered ≡ ordered)
    × (length items ≡ limit)

module _ {A : Type 0} (id : A → Uuid) (before : A → A → Bool) (o : IsKeyOrder before) where
  rest_after :
      (pre : List A) (x : A) (post ordered : List A)
      → pre ++ x ∷ post ≡ ordered
      → IsSorted before ordered
      → select (before x) ordered ≡ post
  rest_after pre x post ordered e s = rw (← e) (select-after before o pre x post (rw e s))

  by_rows :
      (n : ℕ) (ordered items post : List A)
      → IsSorted before ordered
      → items ++ post ≡ ordered
      → length items ≡ n
      → 0 < n
      → Splits id before n ordered (items, last_id id items)
  by_rows n ordered [] post s e len pos = absurd (omega arith)
  by_rows n ordered (y ∷ ys) post s e len pos =
      let joined : init y ys ++ last y ys ∷ post ≡ ordered =
        sym (append_assoc (init y ys) (last y ys ∷ []) post)
        ∙ ap (λ r. r ++ post) (init-append-last y ys)
        ∙ e in
      (
        last y ys,
        init y ys,
        sym (init-append-last y ys),
        refl,
        ap (λ r. (y ∷ ys) ++ r) (rest_after (init y ys) (last y ys) post ordered joined s) ∙ e,
        len,
      )

  full_page :
      (n : ℕ) (ordered : List A)
      → IsSorted before ordered
      → n < length (take (suc n) ordered)
      → 0 < n
      → Splits id before n ordered (take n ordered, last_id id (take n ordered))
  full_page n ordered s h pos =
      by_rows n ordered (take n ordered) (drop n ordered) s (take-append-drop n ordered)
        (omega (arith, length-take n ordered, length-take (suc n) ordered)) pos

  pub page-Splits :
      (limit : ℕ) (ordered : List A)
      → 0 < limit
      → IsSorted before ordered
      → Splits id before limit ordered (page id limit ordered)
  unfolding page cut
  page-Splits limit ordered pos s =
      elim (Bool-cases (ltb limit (length (take (suc limit) ordered)))) [
        | inl more ↦
            rw (more, take-take-suc limit ordered) (full_page limit ordered s (ground arith) pos)
        | inr all ↦ rw all (take_all limit ordered (ground arith))
      ]
