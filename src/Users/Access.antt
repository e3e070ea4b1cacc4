-- ===== src/Users/Access.antt =====
-- users_service.py: who may see and manage whom, sign-in, and single rows.
use prompt_patrol.Common.{
  Bool, true, false, Option, none, some, List, [], ◌∷◌, Text, text_eq, ◌==◌, ltb, ◌&&◌, not, map,
  any, find, select, sort_by, update_where, if◌then◌else◌,
}
use prompt_patrol.Models.{
  Db, Uuid, Time, User, root_admin, instructor, teaching_assistant, active, deactivated, deleted,
  role_eq, status_eq, Supervision, is_none,
}
use prompt_patrol.World.{
  Exec, pure, gets, modify, or_raise, raise_if, ◌>>=◌, ◌>>◌, Done, clock, do_commit,
  permission_error, user_not_found, invalid_transition,
}
use prompt_patrol.Users.Email.{normalize_email}

-- An active link of `supervisions`.
abbrev pub is_link : Uuid → Uuid → Supervision → Bool
is_link ta i l = l.ta_id == ta && l.instructor_id == i && is_none l.ended_at

-- `User.supervisor_ids`, over the relationship `User.supervisors`.
unfoldable pub supervisor_ids : Db → Uuid → List Uuid
supervisor_ids db ta =
    map (λ u. u.id)
      (select (λ i. status_eq i.status active && any (is_link ta i.id) db.supervisions) db.users)

-- `_supervises`
unfoldable pub supervises : Db → User → User → Bool
unfolding supervisor_ids
supervises db actor target =
    role_eq target.role teaching_assistant && any (λ i. actor.id == i) (supervisor_ids db target.id)

-- `_may_manage`
unfoldable pub may_manage : Db → User → User → Bool
unfolding supervises
may_manage db actor target =
    if role_eq actor.role root_admin
    then true
    else if role_eq actor.role instructor
    then supervises db actor target
    else false

-- `_assert_may_manage`
unfoldable pub assert_may_manage : User → User → Exec Done
unfolding supervises
assert_may_manage actor target = do
  raise_if (actor.id == target.id) permission_error
  raise_if (role_eq actor.role teaching_assistant) permission_error
  held ← gets (λ w. supervises w.db actor target)
  raise_if (role_eq actor.role instructor && not held) permission_error

-- `_can_view_user`
unfoldable pub can_view_user : Db → User → User → Bool
unfolding supervises
can_view_user db actor target =
    if role_eq actor.role root_admin
    then true
    else if actor.id == target.id
    then true
    else if role_eq target.role root_admin
    then false
    else if role_eq actor.role instructor
    then supervises db actor target
    else if role_eq actor.role teaching_assistant
    then any (λ i. target.id == i) (supervisor_ids db actor.id)
    else false

abbrev pub has_id : Uuid → User → Bool
has_id i u = u.id == i

-- `_load_manageable`
unfoldable pub load_manageable : Uuid → Exec User
load_manageable user_id = do
  found ← gets (λ w. find (has_id user_id) w.db.users)
  or_raise found user_not_found

abbrev pub visible : Db → User → Option User → Option User
visible db actor none = none
visible db actor (some user) =
    if not (status_eq user.status active) && not (may_manage db actor user)
    then none
    else if can_view_user db actor user
    then some user
    else none

unfoldable pub get_user_by_id : User → Uuid → Exec (Option User)
unfolding may_manage can_view_user
get_user_by_id actor user_id = gets (λ w. visible w.db actor (find (has_id user_id) w.db.users))

abbrev pub name_set : Uuid → Text → Db → Db
name_set i name db = record db {
  users = update_where (has_id i) (λ u. record u { display_name = some name }) db.users;
}

unfoldable pub update_display_name : User → Uuid → Text → Exec User
unfolding load_manageable
update_display_name actor user_id display_name = do
  raise_if (not (role_eq actor.role root_admin) && not (actor.id == user_id)) user_not_found
  target ← load_manageable user_id
  raise_if (status_eq target.status deleted) invalid_transition
  modify (name_set target.id display_name)
  do_commit
  pure (record target { display_name = some display_name })

pub data LoginRejection : Type 0 where
  not_provisioned login_deactivated login_deleted : LoginRejection

-- What `resolve_user` returns.
pub data Resolved : Type 0 where
  user : User → Resolved
  rejected : LoginRejection → Resolved

abbrev newest_first : User → User → Bool
newest_first a b = not (ltb a.created_at b.created_at)

abbrev has_email : Text → User → Bool
has_email email u = text_eq u.email email

abbrev pub has_sub : Text → Option Text → Bool
has_sub sub none = false
has_sub sub (some s) = text_eq s sub

-- `_rows_for_email`: every row with this address, the most recent first.
unfoldable pub rows_for_email : Db → Text → List User
rows_for_email db email = sort_by newest_first (select (has_email email) db.users)

abbrev rejection_of : List User → LoginRejection
rejection_of [] = not_provisioned
rejection_of (u ∷ _) =
    if status_eq u.status deactivated
    then login_deactivated
    else if status_eq u.status deleted
    then login_deleted
    else not_provisioned

-- `_classify_rejection`
unfoldable pub classify_rejection : Db → Text → LoginRejection
unfolding rows_for_email
classify_rejection db email = rejection_of (rows_for_email db email)

abbrev pub resolved_or : LoginRejection → Option User → Resolved
resolved_or why none = rejected why
resolved_or why (some u) = user u

unfoldable pub resolve_user : Text → Text → Exec Resolved
unfolding classify_rejection normalize_email
resolve_user sub email = gets λ w.
    resolved_or (classify_rejection w.db (normalize_email email))
      (find (λ u. has_sub sub u.auth0_sub && status_eq u.status active) w.db.users)

abbrev pub login_set : Uuid → Time → Db → Db
login_set i now db = record db {
  users = update_where (has_id i) (λ u. record u { first_login_at = some now }) db.users;
}

abbrev pub first_login : User → Option Time → Exec Done
first_login u (some _) = pure tt
first_login u none = do now ← clock; modify (login_set u.id now); do_commit

unfoldable pub mark_first_login : User → Exec Done
mark_first_login u = first_login u u.first_login_at
