-- ===== src/Invariants/LiveSessions/Accounts.antt =====
-- The other services of users_service.py, and those of sessions.py and auth_routes.py.
use prompt_patrol.Common.{refl, Bool, true, false, Option, some, List, [], ◌∷◌, Text}
use prompt_patrol.Models.{Db, User, UserRole, UserRoleEvent, Supervision, Uuid}
use prompt_patrol.World.{World, Result, ok, err, Done, do_commit, modify, rollback, integrity_error}
use prompt_patrol.Transactions.{Keeps-modify, Silent, Post, keeps_rules}
use prompt_patrol.Aws.Laws.{purge_batch_messages-Silent}
use prompt_patrol.Users.Access.{has_id, name_set, update_display_name}
use prompt_patrol.Users.Lifecycle.{purge_quietly, delete_user, change_user_role, role_set}
use prompt_patrol.Users.Teams.{
  assert_supervisor_available, link_added, commit_link, link_unless, link, link_supervisor,
  end_supervision, except_integrity,
}
use prompt_patrol.Invariants.LiveSessions.{LiveSessionsActive}
use prompt_patrol.Invariants.LiveSessions.Services.{
  Safe, commit-Safe, safe_rules, service_rules, load_manageable-Safe, renamed-Safe,
  remove_credential-Safe,
}

purge_quietly-Silent : (bs : List Uuid) → Silent (purge_quietly bs)
unfolding purge_quietly
purge_quietly-Silent [] = record { db = λ w. refl; saved = λ w. refl }
purge_quietly-Silent (b ∷ bs) = record {
  db = λ w. (purge_batch_messages-Silent (b ∷ bs)).db w;
  saved = λ w. (purge_batch_messages-Silent (b ∷ bs)).saved w;
}

pub delete_user-Safe :
    (actor : User) (i : Uuid) (reason : Option Text) → Safe (delete_user actor i reason)
unfolding delete_user
delete_user-Safe actor i reason =
    search (service_rules, load_manageable-Safe, remove_credential-Safe, purge_quietly-Silent) depth
      10

role_set-Safe : (i : Uuid) (role : UserRole) → Safe (modify (role_set i role))
role_set-Safe i role = renamed-Safe (has_id i) (λ u. record u { role = role }) (λ u. (refl, refl))

role_event-Safe :
    (f : Db → List UserRoleEvent) → Safe (modify (λ db. record db { role_events = f db }))
role_event-Safe f = Keeps-modify _ (λ db h. h)

pub change_user_role-Safe :
    (actor : User) (i : Uuid) (role : UserRole) → Safe (change_user_role actor i role)
unfolding change_user_role
change_user_role-Safe actor i role =
    search (service_rules, load_manageable-Safe, role_set-Safe, role_event-Safe) depth 14

name_set-Safe : (i : Uuid) (name : Text) → Safe (modify (name_set i name))
name_set-Safe i name =
    renamed-Safe (has_id i) (λ u. record u { display_name = some name }) (λ u. (refl, refl))

pub update_display_name-Safe :
    (actor : User) (i : Uuid) (name : Text) → Safe (update_display_name actor i name)
unfolding update_display_name
update_display_name-Safe actor i name =
    search (service_rules, load_manageable-Safe, name_set-Safe) depth 9

pub link_added-Safe : (ta i actor_id : Uuid) → Safe (modify (link_added ta i actor_id))
link_added-Safe ta i actor_id = Keeps-modify _ (λ db h. h)

except_integrity-Post :
    (x : Result Done × World)
    → Post LiveSessionsActive (λ _. LiveSessionsActive) x
    → Post LiveSessionsActive (λ _. LiveSessionsActive) (except_integrity x)
unfolding rollback
except_integrity-Post (ok a, w) p = p
except_integrity-Post (err integrity_error, w) p = (p, p)
except_integrity-Post (err e, w) p = p

commit_link-Safe : Safe commit_link
unfolding commit_link
commit_link-Safe = record {
  at = λ w h i. except_integrity-Post (do_commit w) (commit-Safe.at w h i);
}

link_unless-Safe : (b : Bool) (ta i actor_id : Uuid) → Safe (link_unless b ta i actor_id)
link_unless-Safe true ta i actor_id = search keeps_rules
link_unless-Safe false ta i actor_id = search (keeps_rules, link_added-Safe, commit_link-Safe)

pub link-Safe : (actor : User) (ta i : Uuid) → Safe (link actor ta i)
unfolding link
link-Safe actor ta i = search (keeps_rules, link_unless-Safe)

pub assert_supervisor_available-Safe : (i : Uuid) → Safe (assert_supervisor_available i)
unfolding assert_supervisor_available
assert_supervisor_available-Safe i = search keeps_rules depth 6

pub link_supervisor-Safe : (actor : User) (ta i : Uuid) → Safe (link_supervisor actor ta i)
unfolding link_supervisor
link_supervisor-Safe actor ta i =
    search (keeps_rules, load_manageable-Safe, assert_supervisor_available-Safe, link-Safe) depth 9

ended-Safe : (f : Db → List Supervision) → Safe (modify (λ db. record db { supervisions = f db }))
ended-Safe f = Keeps-modify _ (λ db h. h)

pub end_supervision-Safe : (actor : User) (ta i : Uuid) → Safe (end_supervision actor ta i)
unfolding end_supervision
end_supervision-Safe actor ta i = search (safe_rules, load_manageable-Safe, ended-Safe) depth 12
