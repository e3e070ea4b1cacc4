-- ===== src/Users/Provision.antt =====
-- users_service.py: creating accounts, `_provision` and its two callers.
use prompt_patrol.Common.{
  Bool, Option, none, some, List, [], ◌∷◌, ◌++◌, Text, text, not, any, find, update_where,
  if◌then◌else◌,
}
use prompt_patrol.Models.{
  Db, Uuid, Time, User, UserRole, root_admin, instructor, teaching_assistant, active, deleted,
  role_eq, status_eq, UserStatusEvent,
}
use prompt_patrol.World.{
  Exec, World, Result, ok, err, pure, raise, gets, modify, raise_if, ◌>>=◌, ◌>>◌, Done, clock,
  new_id, do_commit, do_flush, rollback, permission_error, invalid_supervisor, email_exists,
  auth0_provisioning, cannot_add, Refusal, only_deleted, other_role, not_active,
}
use prompt_patrol.Auth0.{find_auth0_user_id_by_email, delete_auth0_user, invite_user}
use prompt_patrol.Users.Email.{normalize_email}
use prompt_patrol.Users.Access.{has_id, rows_for_email}
use prompt_patrol.Users.Lifecycle.{status_event_added}
use prompt_patrol.Users.Teams.{assert_supervisor_available, link_added, link}

-- A stale Auth0 credential is deleted, never adopted.
abbrev pub replace_stale : Option Text → Exec Done
replace_stale none = pure tt
replace_stale (some stale) = do
  gone ← delete_auth0_user stale
  raise_if (not gone) auth0_provisioning

-- The fields of a deleted row that is used again.
abbrev pub reused : User → UserRole → Text → Time → User → User
reused actor role sub now u = record u {
  reprovisioned_at = some now;
  role = role;
  display_name = none;
  provisioned_by = some actor.id;
  auth0_sub = some sub;
  status = active;
  first_login_at = none;
}

abbrev pub row_reused : User → UserRole → Text → Time → Uuid → Db → Db
row_reused actor role sub now i db = record db {
  users = update_where (has_id i) (reused actor role sub now) db.users;
}

abbrev pub reprovision_event : Uuid → Uuid → UserStatusEvent
reprovision_event i actor_id = record {
  user_id = i;
  actor_id = some actor_id;
  from_status = deleted;
  to_status = active;
  reason = some (text "reprovisioned with a new Auth0 credential");
}

abbrev pub new_user : User → Text → UserRole → Text → Uuid → Time → User
new_user actor email role sub i now = record {
  id = i;
  email = email;
  auth0_sub = some sub;
  display_name = none;
  role = role;
  status = active;
  provisioned_by = some actor.id;
  created_at = now;
  first_login_at = none;
  reprovisioned_at = none;
}

abbrev pub user_added : User → Db → Db
user_added u db = record db { users = db.users ++ u ∷ [] }

-- The row of the account: a deleted row used again, or a new one.
abbrev pub place_row : User → Text → UserRole → Text → Option User → Exec User
place_row actor email role sub (some old) = do
  now ← clock
  modify (row_reused actor role sub now old.id)
  modify (status_event_added (reprovision_event old.id actor.id))
  pure (reused actor role sub now old)
place_row actor email role sub none = do
  i ← new_id
  now ← clock
  modify (user_added (new_user actor email role sub i now))
  pure (new_user actor email role sub i now)

abbrev pub link_new : User → Uuid → Option Uuid → Exec Done
link_new actor i none = pure tt
link_new actor i (some supervisor_id) = do do_flush; modify (link_added i supervisor_id actor.id)

-- `except Exception`: roll back, delete the credential just made, raise again.
abbrev pub undo_invite : Text → User → Result Done × World → Result User × World
undo_invite sub u (ok _, w) = (ok u, w)
undo_invite sub u (err e, w) = (do rollback; delete_auth0_user sub; raise e) w

-- The transaction of `_provision`: the optional link and the commit.
unfoldable pub commit_account : User → Text → User → Option Uuid → Exec User
unfolding rollback delete_auth0_user
commit_account actor sub u supervisor_id w =
    undo_invite sub u ((do link_new actor u.id supervisor_id; do_commit) w)

-- `_provision`
unfoldable pub provision : User → Text → UserRole → Option User → Option Uuid → Exec User
unfolding find_auth0_user_id_by_email delete_auth0_user invite_user commit_account
provision actor email role reusable supervisor_id = do
  stale ← find_auth0_user_id_by_email email
  replace_stale stale
  sub ← invite_user email
  u ← place_row actor email role sub reusable
  commit_account actor sub u supervisor_id

abbrev pub is_undeleted : User → Bool
is_undeleted u = not (status_eq u.status deleted)

abbrev head : List User → Option User
head [] = none
head (u ∷ _) = some u

abbrev pub check_supervisor : UserRole → Option Uuid → Exec Done
check_supervisor role none = pure tt
check_supervisor role (some supervisor_id) = do
  raise_if (not (role_eq role teaching_assistant)) invalid_supervisor
  assert_supervisor_available supervisor_id

unfoldable pub create_user : User → Text → UserRole → Option Uuid → Exec User
unfolding assert_supervisor_available provision
create_user actor email role supervisor_id = do
  raise_if (not (role_eq actor.role root_admin)) permission_error
  raise_if (role_eq role root_admin) permission_error
  check_supervisor role supervisor_id
  rows ← gets (λ w. rows_for_email w.db (normalize_email email))
  raise_if (any is_undeleted rows) email_exists
  provision actor (normalize_email email) role (head rows) supervisor_id

-- The account that holds the address, if it can join the team.
abbrev pub refusal_of : User → Option Refusal
refusal_of live =
    if not (role_eq live.role teaching_assistant)
    then some other_role
    else if not (status_eq live.status active)
    then some not_active
    else none

abbrev pub join_team : User → User → Option Refusal → Exec User
join_team actor live (some why) = raise (cannot_add why)
join_team actor live none = do link actor live.id actor.id; pure live

abbrev pub add_live : User → Option User → Exec User
add_live actor none = raise (cannot_add only_deleted)
add_live actor (some live) = join_team actor live (refusal_of live)

abbrev pub add_by_rows : User → Text → List User → Exec User
add_by_rows actor email [] = provision actor email teaching_assistant none (some actor.id)
add_by_rows actor email (u ∷ us) = add_live actor (find is_undeleted (u ∷ us))

unfoldable pub add_teaching_assistant : User → Text → Exec User
unfolding provision link
add_teaching_assistant actor email = do
  raise_if (not (role_eq actor.role instructor)) permission_error
  rows ← gets (λ w. rows_for_email w.db (normalize_email email))
  add_by_rows actor (normalize_email email) rows
