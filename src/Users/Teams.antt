-- ===== src/Users/Teams.antt =====
-- users_service.py: the supervision links, at most one active link to a pair.
use prompt_patrol.Common.{
  Bool, true, false, none, some, List, [], ◌∷◌, ◌++◌, ◌==◌, ◌&&◌, not, any, find, if◌then◌else◌,
}
use prompt_patrol.Models.{
  Db, Uuid, Time, User, root_admin, instructor, teaching_assistant, active, role_eq, status_eq,
  Supervision,
}
use prompt_patrol.World.{
  Exec, World, Result, ok, err, pure, gets, modify, or_raise, raise_if, ◌>>=◌, ◌>>◌, Done, clock,
  do_commit, rollback, permission_error, user_not_found, invalid_transition, invalid_supervisor,
  integrity_error,
}
use prompt_patrol.Users.Access.{has_id, is_link, load_manageable}
use prompt_patrol.Users.Tables.{sign_out_unsupervised, end_link}

-- `_assert_supervisor_available`
unfoldable pub assert_supervisor_available : Uuid → Exec Done
assert_supervisor_available supervisor_id = do
  found ← gets (λ w. find (has_id supervisor_id) w.db.users)
  supervisor ← or_raise found invalid_supervisor
  raise_if (not (role_eq supervisor.role instructor)) invalid_supervisor
  raise_if (not (status_eq supervisor.status active)) invalid_supervisor

abbrev pub link_added : Uuid → Uuid → Uuid → Db → Db
link_added ta_id instructor_id actor_id db = record db {
  supervisions =
      db.supervisions
      ++ record {
        ta_id = ta_id;
        instructor_id = instructor_id;
        created_by = some actor_id;
        ended_at = none;
        ended_by = none;
      }
        ∷ [];
}

-- `except IntegrityError: await db.rollback()`
abbrev pub except_integrity : Result Done × World → Result Done × World
except_integrity (ok a, w) = (ok a, w)
except_integrity (err integrity_error, w) = rollback w
except_integrity (err e, w) = (err e, w)

unfoldable pub commit_link : Exec Done
unfolding rollback
commit_link w = except_integrity (do_commit w)

abbrev pub link_unless : Bool → Uuid → Uuid → Uuid → Exec Done
link_unless true ta i actor_id = pure tt
link_unless false ta i actor_id = do modify (link_added ta i actor_id); commit_link

-- `_link`
unfoldable pub link : User → Uuid → Uuid → Exec Done
unfolding commit_link
link actor ta i = do
  existing ← gets (λ w. any (is_link ta i) w.db.supervisions)
  link_unless existing ta i actor.id

unfoldable pub link_supervisor : User → Uuid → Uuid → Exec User
unfolding load_manageable assert_supervisor_available link
link_supervisor actor ta_id instructor_id = do
  raise_if (not (role_eq actor.role root_admin)) permission_error
  target ← load_manageable ta_id
  raise_if (not (role_eq target.role teaching_assistant)) invalid_supervisor
  raise_if (not (status_eq target.status active)) invalid_transition
  assert_supervisor_available instructor_id
  link actor target.id instructor_id
  pure target

-- The ORM writes the row that it read: the first active link of the pair.
abbrev pub first_link_ended : Time → Uuid → Uuid → Uuid → List Supervision → List Supervision
first_link_ended now actor_id ta i [] = []
first_link_ended now actor_id ta i (l ∷ ls) =
    if is_link ta i l
    then end_link now actor_id l ∷ ls
    else l ∷ first_link_ended now actor_id ta i ls

unfoldable pub end_supervision : User → Uuid → Uuid → Exec User
unfolding load_manageable sign_out_unsupervised
end_supervision actor ta_id instructor_id = do
  raise_if (not (role_eq actor.role root_admin) && not (actor.id == instructor_id)) user_not_found
  link ← gets (λ w. find (is_link ta_id instructor_id) w.db.supervisions)
  or_raise link user_not_found
  now ← clock
  modify λ db. record db {
    supervisions = first_link_ended now actor.id ta_id instructor_id db.supervisions;
  }
  sign_out_unsupervised (ta_id ∷ [])
  target ← load_manageable ta_id
  do_commit
  pure target
