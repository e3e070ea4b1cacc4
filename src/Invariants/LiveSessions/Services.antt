-- ===== src/Invariants/LiveSessions/Services.antt =====
-- Every service commits only databases in which a live session belongs to an active account.
use prompt_patrol.Common.{
  ◌≡◌, refl, Bool, true, false, Option, none, some, List, [], ◌∷◌, Text, arith, ◌==◌, ◌&&◌,
  update_where, any-update_where,
}
use prompt_patrol.Models.{
  User, UserStatus, UserStatusEvent, active, deactivated, deleted, status_eq, Uuid,
}
use prompt_patrol.World.{Exec, do_commit, modify, when, ◌>>◌}
use prompt_patrol.Transactions.{
  Holds, Keeps, Holds-bind, Holds-modify, Keeps-ask, Keeps-gets, Keeps-or_raise, Keeps-then,
  Keeps-modify, Keeps-do_commit, keeps_rules, Keeps-do_flush, Keeps-Silent,
}
use prompt_patrol.Auth0.Laws.{delete_auth0_user-Silent, resend_invite_email-Silent}
use prompt_patrol.Users.Access.{load_manageable, assert_may_manage}
use prompt_patrol.Users.Tables.{
  revoke_sessions, sessions_revoked, end_links, links_ended, sign_out_unsupervised,
  unsupervised_signed_out, cancel_unfinished_batches, unfinished_cancelled,
}
use prompt_patrol.Users.Lifecycle.{
  transition, removed_credential, remove_credential, resend_invite, deactivate_user,
  reactivate_user, status_set, status_event_added,
}
use prompt_patrol.Invariants.LiveSessions.{
  LiveSessionsActive, ActiveBut, ending-LiveSessionsActive, users-LiveSessionsActive,
  status_set-ActiveBut, reactivated-LiveSessionsActive, revoked-LiveSessionsActive,
}

-- What is committed, and what a service keeps.
abbrev pub Safe : {A : Type 0} → Exec A → Type 0
Safe = Keeps LiveSessionsActive LiveSessionsActive

pub commit-Safe : Safe do_commit
commit-Safe = Keeps-do_commit (λ db h. h)

revoke_sessions-Holds :
    (i : Uuid)
    → Holds LiveSessionsActive (ActiveBut i) (revoke_sessions i) (λ _. LiveSessionsActive)
unfolding revoke_sessions
revoke_sessions-Holds i =
    Holds-bind (Keeps-ask _ _) (λ now. Holds-modify _ (revoked-LiveSessionsActive now i))

pub end_links-Safe : (i actor_id : Uuid) → Safe (end_links i actor_id)
unfolding end_links links_ended
end_links-Safe i actor_id = Keeps-then (Keeps-ask _ _) (λ now. Keeps-modify _ (λ db h. h))

pub cancel-Safe : (i : Uuid) → Safe (cancel_unfinished_batches i)
unfolding cancel_unfinished_batches unfinished_cancelled
cancel-Safe i = Keeps-then (Keeps-ask _ _) (λ now. Keeps-modify _ (λ db h. h))

pub sign_out-Safe : (tas : List Uuid) → Safe (sign_out_unsupervised tas)
unfolding sign_out_unsupervised unsupervised_signed_out
sign_out-Safe [] = search keeps_rules
sign_out-Safe (ta ∷ tas) = Keeps-then Keeps-do_flush λ _.
    Keeps-then (Keeps-ask _ _)
      (λ now. Keeps-modify _ (λ db h. ending-LiveSessionsActive _ now db h))

pub event-Safe : (e : UserStatusEvent) → Safe (modify (status_event_added e))
event-Safe e = Keeps-modify _ (λ db h. h)

pub ruleset safe_rules =
    (keeps_rules, commit-Safe, end_links-Safe, cancel-Safe, sign_out-Safe, event-Safe, Keeps-Silent)

reactivated-Safe : (i : Uuid) → Safe (modify (status_set i active))
reactivated-Safe i = Keeps-modify _ (reactivated-LiveSessionsActive i)

revoke_sessions-Safe : (i : Uuid) → Safe (revoke_sessions i)
unfolding revoke_sessions sessions_revoked
revoke_sessions-Safe i =
    Keeps-then (Keeps-ask _ _) (λ now. Keeps-modify _ (ending-LiveSessionsActive _ now))

-- Between the new status and the revocation some live sessions are of an account that is not active.
left-Safe :
    {B : Type 0} (i : Uuid) (to_status : UserStatus) (rest : Exec B)
    → Safe rest
    → Safe (modify (status_set i to_status) >> (when true (revoke_sessions i) >> rest))
unfolding when
left-Safe i to_status rest k =
    Holds-bind (Holds-modify _ (status_set-ActiveBut i to_status))
      λ _. Holds-bind (revoke_sessions-Holds i) (λ _. k)

pub transition-Safe :
    (actor target : User) (to_status : UserStatus) (reason : Option Text)
    → Safe (transition actor target to_status reason)
unfolding transition
transition-Safe actor target active reason =
    search (safe_rules, reactivated-Safe, revoke_sessions-Safe) depth 16
transition-Safe actor target deactivated reason = search (safe_rules, left-Safe) depth 16
transition-Safe actor target deleted reason = search (safe_rules, left-Safe) depth 16

pub ruleset service_rules = (safe_rules, transition-Safe)

pub load_manageable-Safe : (i : Uuid) → Safe (load_manageable i)
unfolding load_manageable
load_manageable-Safe i = search keeps_rules

assert_may_manage-Safe : (actor target : User) → Safe (assert_may_manage actor target)
unfolding assert_may_manage
assert_may_manage-Safe actor target = search keeps_rules

pub deactivate_user-Safe :
    (actor : User) (i : Uuid) (reason : Option Text) → Safe (deactivate_user actor i reason)
unfolding deactivate_user
deactivate_user-Safe actor i reason =
    search (service_rules, load_manageable-Safe, assert_may_manage-Safe) depth 8

pub reactivate_user-Safe :
    (actor : User) (i : Uuid) (reason : Option Text) → Safe (reactivate_user actor i reason)
unfolding reactivate_user
reactivate_user-Safe actor i reason =
    search (service_rules, load_manageable-Safe, assert_may_manage-Safe) depth 8

pub resend_invite-Safe : (actor : User) (i : Uuid) → Safe (resend_invite actor i)
unfolding resend_invite
resend_invite-Safe actor i =
    search
      (
        keeps_rules, load_manageable-Safe, assert_may_manage-Safe, Keeps-Silent,
        resend_invite_email-Silent,
      )
      depth 8

-- A field of the accounts other than the status.
pub renamed-Safe :
    (p : User → Bool) (f : User → User)
    → ((u : User) → ((f u).id ≡ u.id) × ((f u).status ≡ u.status))
    → Safe (modify (λ db. record db { users = update_where p f db.users }))
renamed-Safe p f same = Keeps-modify _ λ db h.
    users-LiveSessionsActive (update_where p f db.users) db
      (λ i.
        any-update_where (λ u. u.id == i && status_eq u.status active) p f
          (λ u a b. ground (arith, same u)) db.users)
      h

removed_credential-Safe : (u : User) (gone : Bool) → Safe (removed_credential u gone)
removed_credential-Safe u false = search keeps_rules
removed_credential-Safe u true =
    Keeps-then (renamed-Safe _ _ (λ v. (refl, refl))) (λ _. search service_rules)

pub remove_credential-Safe : (u : User) (sub : Option Text) → Safe (remove_credential u sub)
unfolding remove_credential
remove_credential-Safe u none = search keeps_rules
remove_credential-Safe u (some sub) =
    search (service_rules, delete_auth0_user-Silent, removed_credential-Safe)
