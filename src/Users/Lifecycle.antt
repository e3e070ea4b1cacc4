-- ===== src/Users/Lifecycle.antt =====
-- users_service.py: the lifecycle of an account, `_transition` and what calls it, and role changes.
use prompt_patrol.Common.{
  Bool, true, false, Option, none, some, List, [], ◌∷◌, ◌++◌, Text, ◌==◌, ◌&&◌, ◌||◌, not, map,
  find, select, update_where, if◌then◌else◌,
}
use prompt_patrol.Models.{
  Db, Uuid, User, UserRole, root_admin, UserStatus, active, deactivated, deleted, role_eq,
  status_eq, UserStatusEvent, is_none,
}
use prompt_patrol.World.{
  Exec, World, Result, ok, pure, gets, modify, or_raise, raise_if, when, ◌>>=◌, ◌>>◌, Done,
  do_commit, permission_error, invalid_transition, database_error,
}
use prompt_patrol.Auth0.{delete_auth0_user, resend_invite_email}
use prompt_patrol.Aws.{purge_batch_messages}
use prompt_patrol.Users.Access.{has_id, load_manageable, assert_may_manage}
use prompt_patrol.Users.Tables.{
  revoke_sessions, end_links, supervised_ta_ids, sign_out_unsupervised, cancel_unfinished_batches,
}

-- `_ALLOWED_TRANSITIONS`
abbrev is_allowed : UserStatus → UserStatus → Bool
is_allowed active deactivated = true
is_allowed active deleted = true
is_allowed deactivated active = true
is_allowed deactivated deleted = true
is_allowed _ _ = false

abbrev pub status_set : Uuid → UserStatus → Db → Db
status_set i to_status db = record db {
  users = update_where (has_id i) (λ u. record u { status = to_status }) db.users;
}

abbrev pub status_event_added : UserStatusEvent → Db → Db
status_event_added e db = record db { status_events = db.status_events ++ e ∷ [] }

-- The TAs that `_transition` reads before the change.
abbrev leaving_tas : UserStatus → Db → Uuid → List Uuid
leaving_tas to_status db i = if status_eq to_status active then [] else supervised_ta_ids db i

-- `_transition`
unfoldable pub transition : User → User → UserStatus → Option Text → Exec User
unfolding revoke_sessions end_links sign_out_unsupervised cancel_unfinished_batches
transition actor target to_status reason = do
  locked ← gets (λ w. find (has_id target.id) w.db.users)
  current ← or_raise locked database_error
  raise_if (not (is_allowed current.status to_status)) invalid_transition
  leaving ← gets (λ w. leaving_tas to_status w.db current.id)
  modify (status_set current.id to_status)
  when (not (status_eq to_status active)) (revoke_sessions current.id)
  when (status_eq to_status deleted)
      (do end_links current.id actor.id; cancel_unfinished_batches current.id)
  sign_out_unsupervised leaving
  modify (
      status_event_added (record {
        user_id = current.id;
        actor_id = some actor.id;
        from_status = current.status;
        to_status = to_status;
        reason = reason;
      }))
  do_commit
  pure (record current { status = to_status })

unfoldable pub deactivate_user : User → Uuid → Option Text → Exec User
unfolding load_manageable assert_may_manage
deactivate_user actor user_id reason = do
  raise_if (not (role_eq actor.role root_admin)) permission_error
  target ← load_manageable user_id
  assert_may_manage actor target
  transition actor target deactivated reason

unfoldable pub reactivate_user : User → Uuid → Option Text → Exec User
unfolding load_manageable assert_may_manage
reactivate_user actor user_id reason = do
  raise_if (not (role_eq actor.role root_admin)) permission_error
  target ← load_manageable user_id
  assert_may_manage actor target
  transition actor target active reason

unfoldable pub resend_invite : User → Uuid → Exec User
unfolding load_manageable assert_may_manage
resend_invite actor user_id = do
  target ← load_manageable user_id
  assert_may_manage actor target
  raise_if (not (status_eq target.status active) || not (is_none target.first_login_at))
      invalid_transition
  resend_invite_email target.email
  pure target

abbrev pub sub_cleared : Uuid → Db → Db
sub_cleared i db = record db {
  users = update_where (has_id i) (λ u. record u { auth0_sub = none }) db.users;
}

abbrev pub removed_credential : User → Bool → Exec User
removed_credential u false = pure u
removed_credential u true = do
  modify (sub_cleared u.id)
  do_commit
  pure (record u { auth0_sub = none })

-- The Auth0 credential of a deleted account, removed after the deletion is committed.
unfoldable pub remove_credential : User → Option Text → Exec User
unfolding delete_auth0_user
remove_credential u none = pure u
remove_credential u (some sub) = do gone ← delete_auth0_user sub; removed_credential u gone

abbrev swallow : {A : Type 0} → Result A × World → Result Done × World
swallow (r, w) = (ok tt, w)

-- `try: purge_batch_messages(...) except Exception`: a failed purge is logged only.
unfoldable pub purge_quietly : List Uuid → Exec Done
purge_quietly [] w = (ok tt, w)
purge_quietly (b ∷ bs) w = swallow (purge_batch_messages (b ∷ bs) w)

unfoldable pub delete_user : User → Uuid → Option Text → Exec User
unfolding load_manageable remove_credential purge_quietly
delete_user actor user_id reason = do
  raise_if (not (role_eq actor.role root_admin)) permission_error
  target ← load_manageable user_id
  raise_if (role_eq target.role root_admin) permission_error
  gone ← transition actor target deleted reason
  gone' ← remove_credential gone gone.auth0_sub
  cancelled ← gets λ w.
      map (λ b. b.id)
        (select (λ b. b.actor_id == gone'.id && not (is_none b.cancelled_at)) w.db.batches)
  purge_quietly cancelled
  pure gone'

abbrev pub role_set : Uuid → UserRole → Db → Db
role_set i role db = record db {
  users = update_where (has_id i) (λ u. record u { role = role }) db.users;
}

-- No link survives a role swap.
abbrev pub swap_links : User → Uuid → Exec Done
swap_links actor i = do
  leaving ← gets (λ w. supervised_ta_ids w.db i)
  end_links i actor.id
  sign_out_unsupervised leaving

unfoldable pub change_user_role : User → Uuid → UserRole → Exec User
unfolding load_manageable end_links sign_out_unsupervised
change_user_role actor user_id new_role = do
  target ← load_manageable user_id
  raise_if (role_eq target.role root_admin) permission_error
  modify (role_set target.id new_role)
  when (not (role_eq target.role new_role)) (swap_links actor target.id)
  modify λ db. record db {
    role_events =
        db.role_events
        ++ record {
          user_id = target.id;
          actor_id = some actor.id;
          from_role = target.role;
          to_role = new_role;
        }
          ∷ [];
  }
  do_commit
  pure (record target { role = new_role })
