-- ===== src/Users/Pages.antt =====
-- The pages of `list_users` (services/users_service.py).
use prompt_patrol.Common.{
  ℕ, suc, ◌<◌, ◌≡◌, refl, sym, ap, ◌∙◌, true, false, Option, none, some, List, [], ◌∷◌, ◌++◌, ◌==◌,
  ◌||◌, arith, All, All-map, select, length, sort_by,
}
use prompt_patrol.Models.{Db, Uuid, User, UserRole, UserStatus}
use prompt_patrol.World.{World, Result, ok, err, ◌>>=◌}
use prompt_patrol.Paging.{page}
use prompt_patrol.Paging.Order.{
  IsKeyOrder, IsSorted, Distinct, sort_by-IsSorted, Distinct-select, select-sort_by, select-after,
}
use prompt_patrol.Paging.Follow.{follow, follow-rows}
use prompt_patrol.Users.Roster.{roster, list_users, may_not_list, id_before, after_cursor}

id_before-IsKeyOrder : IsKeyOrder id_before
id_before-IsKeyOrder = record { trans = λ a b c p q. ground arith; asym = λ a b p. ground arith }

-- The primary key: no two accounts have one identifier.
abbrev UserIdsDistinct : List User → Type 0
UserIdsDistinct [] = Unit
UserIdsDistinct (u ∷ us) = All (λ v. (v.id == u.id) ≡ false) us × UserIdsDistinct us

UserIdsDistinct-Distinct : (us : List User) → UserIdsDistinct us → Distinct id_before us
UserIdsDistinct-Distinct [] d = tt
UserIdsDistinct-Distinct (u ∷ us) d = (
  All-map (λ v. (v.id == u.id) ≡ false) (λ v. (id_before u v || id_before v u) ≡ true)
      (λ v k. ground arith) us d.0,
  UserIdsDistinct-Distinct us d.1,
)

-- The page of the service, or none where it raises.
abbrev users_served : Result (List User × Option Uuid) × World → List User × Option Uuid
users_served (ok p, w) = p
users_served (err e, w) = ([], none)

abbrev pub fetch_users :
    User
    → Option UserRole
    → Option (List UserStatus)
    → ℕ
    → World
    → Option Uuid
    → List User × Option Uuid
fetch_users actor role statuses limit w cursor =
    users_served (list_users actor role statuses limit cursor w)

abbrev pub ordered_roster : User → Option UserRole → Option (List UserStatus) → Db → List User
ordered_roster actor role statuses db = sort_by id_before (roster db actor role statuses)

module _ (actor : User) (role : Option UserRole) (statuses : Option (List UserStatus)) (limit : ℕ)
    (w : World) (d : UserIdsDistinct w.db.users) (allowed : may_not_list actor role ≡ false) where
  roster-Distinct : Distinct id_before (roster w.db actor role statuses)
  unfolding roster
  roster-Distinct =
      Distinct-select id_before id_before-IsKeyOrder _ w.db.users
        (UserIdsDistinct-Distinct w.db.users d)

  ordered-IsSorted : IsSorted id_before (ordered_roster actor role statuses w.db)
  ordered-IsSorted =
      sort_by-IsSorted id_before id_before-IsKeyOrder (roster w.db actor role statuses)
        roster-Distinct

  fetch-page :
      (cursor : Option Uuid)
      → fetch_users actor role statuses limit w cursor
        ≡ page
            (λ u. u.id)
            limit
            (sort_by id_before (select (after_cursor cursor) (roster w.db actor role statuses)))
  unfolding list_users ◌>>=◌
  fetch-page cursor = rw allowed refl

  select_all : (us : List User) → select (after_cursor none) us ≡ us
  unfolding select
  select_all [] = refl
  select_all (u ∷ us) = ap (λ r. u ∷ r) (select_all us)

  fetch_first :
      fetch_users actor role statuses limit w none
      ≡ page (λ u. u.id) limit (ordered_roster actor role statuses w.db)
  fetch_first = rw (fetch-page none, select_all (roster w.db actor role statuses)) refl

  fetch_next :
      (pre : List User) (x : User) (post : List User)
      → pre ++ x ∷ post ≡ ordered_roster actor role statuses w.db
      → fetch_users actor role statuses limit w (some x.id) ≡ page (λ u. u.id) limit post
  fetch_next pre x post e =
      fetch-page (some x.id)
      ∙ ap (page (λ u. u.id) limit) (
          sym (
            select-sort_by id_before id_before-IsKeyOrder (id_before x)
              (roster w.db actor role statuses) roster-Distinct)
          ∙ ap (select (id_before x)) (sym e)
          ∙ select-after id_before id_before-IsKeyOrder pre x post (rw e ordered-IsSorted))

-- A client that may list and that follows the cursors of `list_users` from the first page, with a
-- page limit of at least one and no write in between, is given every account of the roster once, in
-- the order of the identifiers, if no two accounts have one identifier.
pub follow-list_users :
    (actor : User) (role : Option UserRole) (statuses : Option (List UserStatus)) (limit : ℕ)
    (w : World)
    → UserIdsDistinct w.db.users
    → may_not_list actor role ≡ false
    → 0 < limit
    → follow
        (suc (length (ordered_roster actor role statuses w.db)))
        (fetch_users actor role statuses limit w)
        none
      ≡ ordered_roster actor role statuses w.db
follow-list_users actor role statuses limit w d allowed pos =
    follow-rows (λ u. u.id) id_before id_before-IsKeyOrder limit pos
      (ordered_roster actor role statuses w.db)
      (ordered-IsSorted actor role statuses limit w d allowed)
      (fetch_users actor role statuses limit w) (fetch_next actor role statuses limit w d allowed)
      (suc (length (ordered_roster actor role statuses w.db))) []
      (ordered_roster actor role statuses w.db) none refl
      (fetch_first actor role statuses limit w d allowed) (omega arith)
