-- ===== src/Paging.antt =====
-- Keyset pages, as `list_checks` (services/checks_service.py) and `list_users`
-- (services/users_service.py) cut them: one row more than the limit is read, to see whether there
-- is a next page. The cursor of a page is the identifier of its last row.
pub mod Order
pub mod Laws
pub mod Follow
use prompt_patrol.Common.{
  ℕ, suc, Option, none, some, List, [], ◌∷◌, ltb, length, take, if◌then◌else◌,
}
use prompt_patrol.Models.{Uuid}

module _ {A : Type 0} where
  abbrev pub last : A → List A → A
  last x [] = x
  last x (y ∷ ys) = last y ys

  abbrev pub last_id : (A → Uuid) → List A → Option Uuid
  last_id id [] = none
  last_id id (x ∷ xs) = some (id (last x xs))

  -- `rows[:limit]` and the cursor, from the at most `limit + 1` rows that were read.
  unfoldable pub cut : (A → Uuid) → ℕ → List A → List A × Option Uuid
  cut id limit rows =
      if ltb limit (length rows)
      then (take limit rows, last_id id (take limit rows))
      else (rows, none)

  -- The page of a query's ordered rows.
  unfoldable pub page : (A → Uuid) → ℕ → List A → List A × Option Uuid
  unfolding cut
  page id limit ordered = cut id limit (take (suc limit) ordered)
