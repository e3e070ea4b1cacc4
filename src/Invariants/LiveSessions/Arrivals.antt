-- ===== src/Invariants/LiveSessions/Arrivals.antt =====
-- Services that make accounts and sessions: provisioning, and sign-in.
use prompt_patrol.Common.{
  ◌≡◌, refl, true, Option, none, some, List, [], ◌∷◌, Text, arith, ◌==◌, ◌&&◌, not, any,
  any-update_where, any-append, All-append, All-select, find,
}
use prompt_patrol.Models.{Db, User, UserRole, teaching_assistant, active, status_eq, Uuid, Time}
use prompt_patrol.World.{
  World, Result, ok, err, Done, do_commit, Error, raise, modify, rollback, ◌>>◌, Refusal,
}
use prompt_patrol.Transactions.{
  Holds, Holds-bind, Holds-gets, Holds-modify, Keeps, Keeps-ask, Keeps-then, Keeps-modify,
  Keeps-do_commit, Keeps-Silent, Keeps-gets, Keeps-pure, Post, keeps_rules,
}
use prompt_patrol.Auth0.{delete_auth0_user}
use prompt_patrol.Auth0.Laws.{
  find_auth0_user_id_by_email-Silent, delete_auth0_user-Silent, invite_user-Silent,
}
use prompt_patrol.Users.Access.{
  has_id, has_sub, login_set, first_login, mark_first_login, resolve_user, Resolved, user, rejected,
  resolved_or, classify_rejection,
}
use prompt_patrol.Users.Email.{normalize_email}
use prompt_patrol.Users.Tables.{is_active_user}
use prompt_patrol.Users.Provision.{
  reused, row_reused, user_added, place_row, replace_stale, link_new, undo_invite, commit_account,
  provision, check_supervisor, create_user, join_team, add_live, add_by_rows, refusal_of,
  add_teaching_assistant, is_undeleted,
}
use prompt_patrol.Sessions.{
  new_session, session_added, old_purged, is_past_retention, create_session,
}
use prompt_patrol.Routes.SignIn.{
  Exchange, claims, oauth_cancelled, oauth_error, auth0_unreachable, log_out, enter, let_in,
  callback,
}
use prompt_patrol.Invariants.LiveSessions.{LiveSessionsActive, IsCovered, users-LiveSessionsActive}
use prompt_patrol.Invariants.LiveSessions.Services.{Safe, commit-Safe, safe_rules}
use prompt_patrol.Invariants.LiveSessions.Accounts.{
  link_added-Safe, link-Safe, assert_supervisor_available-Safe,
}

reused-Safe :
    (actor : User) (role : UserRole) (sub : Text) (now : Time) (i : Uuid)
    → Safe (modify (row_reused actor role sub now i))
reused-Safe actor role sub now i = Keeps-modify _ λ db h.
    users-LiveSessionsActive (row_reused actor role sub now i db).users db
      (λ j.
        any-update_where (λ u. u.id == j && status_eq u.status active) (has_id i)
          (reused actor role sub now) (λ u a b. ground arith) db.users)
      h

user_added-Safe : (u : User) → Safe (modify (user_added u))
user_added-Safe u = Keeps-modify _ λ db h.
    users-LiveSessionsActive (user_added u db).users db
      (λ j. any-append (λ v. v.id == j && status_eq v.status active) db.users (u ∷ [])) h

place_row-Safe :
    (actor : User) (email : Text) (role : UserRole) (sub : Text) (old : Option User)
    → Safe (place_row actor email role sub old)
place_row-Safe actor email role sub (some old) = search (safe_rules, reused-Safe) depth 7
place_row-Safe actor email role sub none = search (safe_rules, user_added-Safe) depth 7

replace_stale-Safe : (stale : Option Text) → Safe (replace_stale stale)
replace_stale-Safe none = search keeps_rules
replace_stale-Safe (some s) = search (keeps_rules, Keeps-Silent, delete_auth0_user-Silent)

link_new-Safe : (actor : User) (i : Uuid) (s : Option Uuid) → Safe (link_new actor i s)
link_new-Safe actor i none = search keeps_rules
link_new-Safe actor i (some s) = search (keeps_rules, link_added-Safe)

-- After a rollback the session is the committed database.
rollback-Holds : Holds LiveSessionsActive (λ _. Unit {0}) rollback (λ _. LiveSessionsActive)
unfolding rollback
rollback-Holds = record { at = λ w p i. (i, i) }

credential_undone-Holds :
    (sub : Text) (e : Error)
    → Holds LiveSessionsActive
        (λ _. Unit {0})
        (rollback >> (delete_auth0_user sub >> raise {A = User} e))
        (λ _. LiveSessionsActive)
credential_undone-Holds sub e =
    Holds-bind rollback-Holds λ _. search (keeps_rules, Keeps-Silent, delete_auth0_user-Silent)

undo_invite-Post :
    (sub : Text) (u : User) (x : Result Done × World)
    → Post LiveSessionsActive (λ _. LiveSessionsActive) x
    → Post LiveSessionsActive (λ _. LiveSessionsActive) (undo_invite sub u x)
undo_invite-Post sub u (ok a, w) p = p
undo_invite-Post sub u (err e, w) p = (credential_undone-Holds sub e).at w tt p

link_and_commit-Safe :
    (actor : User) (i : Uuid) (s : Option Uuid) → Safe (link_new actor i s >> do_commit)
link_and_commit-Safe actor i s = search (safe_rules, link_new-Safe)

commit_account-Safe :
    (actor : User) (sub : Text) (u : User) (s : Option Uuid) → Safe (commit_account actor sub u s)
unfolding commit_account
commit_account-Safe actor sub u s = record {
  at = λ w p i.
      undo_invite-Post sub u ((link_new actor u.id s >> do_commit) w)
        ((link_and_commit-Safe actor u.id s).at w p i);
}

provision-Safe :
    (actor : User) (email : Text) (role : UserRole) (old : Option User) (s : Option Uuid)
    → Safe (provision actor email role old s)
unfolding provision
provision-Safe actor email role old s =
    search
      (
        keeps_rules, Keeps-Silent, find_auth0_user_id_by_email-Silent, replace_stale-Safe,
        invite_user-Silent, place_row-Safe, commit_account-Safe,
      )
      depth 9

check_supervisor-Safe : (role : UserRole) (s : Option Uuid) → Safe (check_supervisor role s)
check_supervisor-Safe role none = search keeps_rules
check_supervisor-Safe role (some s) = search (keeps_rules, assert_supervisor_available-Safe)

pub create_user-Safe :
    (actor : User) (email : Text) (role : UserRole) (s : Option Uuid)
    → Safe (create_user actor email role s)
unfolding create_user
create_user-Safe actor email role s =
    search (keeps_rules, check_supervisor-Safe, provision-Safe) depth 9

join_team-Safe : (actor live : User) (why : Option Refusal) → Safe (join_team actor live why)
join_team-Safe actor live (some why) = search keeps_rules
join_team-Safe actor live none = search (keeps_rules, link-Safe)

add_live-Safe : (actor : User) (live : Option User) → Safe (add_live actor live)
add_live-Safe actor none = search keeps_rules
add_live-Safe actor (some u) = join_team-Safe actor u (refusal_of u)

add_by_rows-Safe :
    (actor : User) (email : Text) (rows : List User) → Safe (add_by_rows actor email rows)
add_by_rows-Safe actor email [] = provision-Safe actor email teaching_assistant none (some actor.id)
add_by_rows-Safe actor email (u ∷ us) = add_live-Safe actor (find is_undeleted (u ∷ us))

pub add_teaching_assistant-Safe :
    (actor : User) (email : Text) → Safe (add_teaching_assistant actor email)
unfolding add_teaching_assistant
add_teaching_assistant-Safe actor email = search (keeps_rules, add_by_rows-Safe)

-- The account that signs in, while it is known to be active.
abbrev SigningIn : Uuid → Db → Type 0
SigningIn i db = LiveSessionsActive db × (is_active_user db i ≡ true)

login_set-SigningIn :
    (i : Uuid) (now : Time) (db : Db) → SigningIn i db → SigningIn i (login_set i now db)
login_set-SigningIn i now db (h, a) = (
  users-LiveSessionsActive (login_set i now db).users db (still_active db) h,
  still_active db i a,
)
  where
    still_active :
        (db : Db) (j : Uuid)
        → is_active_user db j ≡ true
        → is_active_user (login_set i now db) j ≡ true
    still_active db j =
        any-update_where (λ u. u.id == j && status_eq u.status active) (has_id i)
          (λ u. record u { first_login_at = some now }) (λ u a b. ground arith) db.users

first_login-Holds :
    (u : User) (at : Option Time) → Keeps LiveSessionsActive (SigningIn u.id) (first_login u at)
first_login-Holds u (some t) = search keeps_rules
first_login-Holds u none = Keeps-then (Keeps-ask _ _) λ now.
    Keeps-then (Keeps-modify _ (login_set-SigningIn u.id now)) (λ _. Keeps-do_commit (λ db h. h.0))

session_made-LiveSessionsActive :
    (i : Uuid) (h : Text) (now : Time) (u : Uuid) (db : Db)
    → SigningIn u db
    → LiveSessionsActive (session_added (new_session i h u now) db)
session_made-LiveSessionsActive i h now u db (k, a) =
    All-append (IsCovered db) db.sessions (new_session i h u now ∷ []) k (λ live. a, tt)

old_purged-LiveSessionsActive :
    (now : Time) (u : Uuid) (db : Db)
    → LiveSessionsActive db
    → LiveSessionsActive (old_purged now u db)
old_purged-LiveSessionsActive now u db h =
    All-select (IsCovered db) (λ s. not (s.user_id == u && is_past_retention now s)) db.sessions h

create_session-Holds :
    (u : Uuid) → Holds LiveSessionsActive (SigningIn u) (create_session u) (λ _. LiveSessionsActive)
unfolding create_session
create_session-Holds u = Keeps-then (Keeps-ask _ _) λ t. Keeps-then (Keeps-ask _ _) λ now.
    Keeps-then (Keeps-ask _ _) λ i. Keeps-then (Keeps-gets _) λ h.
      Holds-bind (Holds-modify _ (session_made-LiveSessionsActive i h now u)) λ _.
        Keeps-then (Keeps-modify _ (old_purged-LiveSessionsActive now u))
          (λ _. Keeps-then commit-Safe (λ _. Keeps-pure t))

-- What `resolve_user` says of the accounts.
abbrev Resolves : Resolved → Db → Type 0
Resolves (user u) db = SigningIn u.id db
Resolves (rejected why) db = LiveSessionsActive db

-- An account that is let in is an active one.
found_active :
    (sub : Text) (users : List User) {u : User}
    → find (λ v. has_sub sub v.auth0_sub && status_eq v.status active) users ≡ some u
    → any (λ v. v.id == u.id && status_eq v.status active) users ≡ true
unfolding find any
found_active sub [] e = cc
found_active sub (v ∷ vs) {u} e = ground (arith, found_active sub vs {u = u})

resolve_user-Holds :
    (sub email : Text)
    → Holds LiveSessionsActive LiveSessionsActive (resolve_user sub email) Resolves
unfolding resolve_user
resolve_user-Holds sub email = Holds-gets _ (λ w h. by_row w h _ refl)
  where
    by_row :
        (w : World)
        → LiveSessionsActive w.db
        → (o : Option User)
        → find (λ u. has_sub sub u.auth0_sub && status_eq u.status active) w.db.users ≡ o
        → Resolves (resolved_or (classify_rejection w.db (normalize_email email)) o) w.db
    by_row w h none e = h
    by_row w h (some u) e = (h, found_active sub w.db.users e)

let_in-Holds :
    (r : Resolved) → Holds LiveSessionsActive (Resolves r) (let_in r) (λ _. LiveSessionsActive)
unfolding mark_first_login
let_in-Holds (rejected why) = Keeps-pure (log_out why)
let_in-Holds (user u) =
    Keeps-then (first_login-Holds u u.first_login_at)
      (λ _. Holds-bind (create_session-Holds u.id) (λ t. Keeps-pure (enter t)))

pub callback-Safe : (x : Exchange) → Safe (callback x)
unfolding callback
callback-Safe (claims sub email) = Holds-bind (resolve_user-Holds sub email) let_in-Holds
callback-Safe oauth_cancelled = search keeps_rules
callback-Safe oauth_error = search keeps_rules
callback-Safe auth0_unreachable = search keeps_rules
