-- ===== src/Paging/Follow.antt =====
-- Following the cursors from the first page lists every row once, in order.
use mathlib.Core.List.{append_assoc, append-nil}
use prompt_patrol.Common.{
  ℕ, zero, suc, ◌<◌, ◌≡◌, ap, sym, ◌∙◌, Bool, Option, none, some, List, [], ◌∷◌, ◌++◌, arith,
  length, select, length-append,
}
use prompt_patrol.Models.{Uuid}
use prompt_patrol.Paging.{page}
use prompt_patrol.Paging.Order.{IsKeyOrder, IsSorted}
use prompt_patrol.Paging.Laws.{Splits, page-Splits}

-- A client that asks for the page after each cursor that it is given, at most `fuel` times.
pub follow : {A : Type 0} → ℕ → (Option Uuid → List A × Option Uuid) → Option Uuid → List A
follow zero fetch c = []
follow (suc fuel) fetch c =
    (fetch c).0 ++ elim (fetch c).1 [ none ↦ [] | some next ↦ follow fuel fetch (some next) ]

module _ {A : Type 0} (id : A → Uuid) (before : A → A → Bool) (o : IsKeyOrder before) (limit : ℕ)
    (pos : 0 < limit) (ordered : List A) (s : IsSorted before ordered)
    (fetch : Option Uuid → List A × Option Uuid)
    (after : (pre : List A) (x : A) (post : List A)
      → pre ++ x ∷ post ≡ ordered
      → fetch (some (id x)) ≡ page id limit post) where
  suffix-IsSorted : (front rows : List A) → IsSorted before (front ++ rows) → IsSorted before rows
  suffix-IsSorted [] rows k = k
  suffix-IsSorted (x ∷ front) rows k = suffix-IsSorted front rows k.1

  -- One page, and by `later` all those after it.
  page-follow :
      (fuel : ℕ) (front rows : List A)
      → ((front' rows' : List A) (c : Option Uuid)
          → front' ++ rows' ≡ ordered
          → fetch c ≡ page id limit rows'
          → length rows' < fuel
          → follow fuel fetch c ≡ rows')
      → front ++ rows ≡ ordered
      → length rows < suc fuel
      → (p : List A × Option Uuid) → Splits id before limit rows p
      → p.0 ++ elim p.1 [ none ↦ [] | some next ↦ follow fuel fetch (some next) ] ≡ rows
  page-follow fuel front rows later e h (items, none) k = append-nil items ∙ k
  page-follow fuel front rows later e h (items, some next) (x, pre, e1, e2, e3, e4) =
      ap (λ r. items ++ r)
        (later (front ++ items) rest (some next)
          (append_assoc front items rest ∙ ap (λ r. front ++ r) e3 ∙ e)
          (ap (λ i. fetch (some i)) e2 ∙ after (front ++ pre) x rest joined)
          (omega (arith, ap length e3, length-append items rest)))
      ∙ e3
    where
      rest : List A
      rest = select (before x) rows

      joined : (front ++ pre) ++ x ∷ rest ≡ ordered
      joined =
          append_assoc front pre (x ∷ rest)
          ∙ ap (λ r. front ++ r)
              (sym (append_assoc pre (x ∷ []) rest) ∙ ap (λ r. r ++ rest) (sym e1) ∙ e3)
          ∙ e

  pub follow-rows :
      (fuel : ℕ) (front rows : List A) (c : Option Uuid)
      → front ++ rows ≡ ordered
      → fetch c ≡ page id limit rows
      → length rows < fuel
      → follow fuel fetch c ≡ rows
  unfolding follow
  follow-rows zero front rows c e f h = absurd (omega arith)
  follow-rows (suc fuel) front rows c e f h = rw f (
      page-follow fuel front rows (follow-rows fuel) e h (page id limit rows)
        (page-Splits id before o limit rows pos (suffix-IsSorted front rows (rw e s))))
