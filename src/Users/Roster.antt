-- ===== src/Users/Roster.antt =====
-- users_service.`list_users`: the roster, in pages. A cursor is the identifier that it encodes.
use prompt_patrol.Common.{
  ℕ, Bool, true, false, Option, none, some, List, [], ◌∷◌, ltb, ◌&&◌, not, any, select, sort_by,
  if◌then◌else◌,
}
use prompt_patrol.Models.{
  Db, Uuid, User, UserRole, instructor, teaching_assistant, UserStatus, active, role_eq, status_eq,
}
use prompt_patrol.World.{Exec, gets, raise_if, ◌>>◌, permission_error}
use prompt_patrol.Users.Tables.{supervised_ta_ids, is_in}
use prompt_patrol.Paging.{page}

-- The refusals: a TA, and an instructor who asks for another role than that of TAs.
unfoldable pub may_not_list : User → Option UserRole → Bool
may_not_list actor role = if role_eq actor.role teaching_assistant then true else elim role [
  | none ↦ false
  | some r ↦ role_eq actor.role instructor && not (role_eq r teaching_assistant)
]

-- An instructor lists the TAs linked to them.
unfoldable in_roster : Db → User → Option UserRole → User → Bool
in_roster db actor role u =
    if role_eq actor.role instructor
    then role_eq u.role teaching_assistant && is_in u.id (supervised_ta_ids db actor.id)
    else elim role [ none ↦ true | some r ↦ role_eq u.role r ]

-- `statuses or {UserStatusEnum.active}`
abbrev status_listed : Option (List UserStatus) → UserStatus → Bool
status_listed none s = status_eq s active
status_listed (some []) s = status_eq s active
status_listed (some (t ∷ ts)) s = any (λ r. status_eq s r) (t ∷ ts)

-- `ORDER BY id`
abbrev pub id_before : User → User → Bool
id_before a b = ltb a.id b.id

unfoldable pub roster : Db → User → Option UserRole → Option (List UserStatus) → List User
unfolding in_roster
roster db actor role statuses =
    select (λ u. in_roster db actor role u && status_listed statuses u.status) db.users

abbrev pub after_cursor : Option Uuid → User → Bool
after_cursor none u = true
after_cursor (some c) u = ltb c u.id

unfoldable pub list_users :
    User
    → Option UserRole
    → Option (List UserStatus)
    → ℕ
    → Option Uuid
    → Exec (List User × Option Uuid)
unfolding may_not_list roster page
list_users actor role statuses limit cursor = do
  raise_if (may_not_list actor role) permission_error
  gets λ w.
      page (λ u. u.id) limit
        (sort_by id_before (select (after_cursor cursor) (roster w.db actor role statuses)))
