-- ===== src/Invariants/LiveSessions/Requests.antt =====
-- Any sequence of requests keeps the invariant, whatever the outside world answers.
use prompt_patrol.Common.{ℕ, Bool, Option, List, [], ◌∷◌, Text}
use prompt_patrol.Models.{User, UserRole, Uuid}
use prompt_patrol.World.{Exec, World, Result, ok, err, Done, in_session, ◌>>◌, pure}
use prompt_patrol.Transactions.{Keeps-then, Keeps-pure, Post}
use prompt_patrol.Users.Access.{update_display_name}
use prompt_patrol.Users.Lifecycle.{
  deactivate_user, reactivate_user, delete_user, change_user_role, resend_invite,
}
use prompt_patrol.Users.Teams.{link_supervisor, end_supervision}
use prompt_patrol.Users.Provision.{create_user, add_teaching_assistant}
use prompt_patrol.Routes.SignIn.{Exchange, callback, logout, get_current_session}
use prompt_patrol.Invariants.LiveSessions.Visits.{logout-Safe, purge-Safe, get_current_session-Safe}
use prompt_patrol.Sessions.{purge_expired_sessions}
use prompt_patrol.Invariants.LiveSessions.{LiveSessionsActive}
use prompt_patrol.Invariants.LiveSessions.Services.{
  Safe, deactivate_user-Safe, reactivate_user-Safe, resend_invite-Safe,
}
use prompt_patrol.Invariants.LiveSessions.Accounts.{
  update_display_name-Safe, delete_user-Safe, change_user_role-Safe, link_supervisor-Safe,
  end_supervision-Safe,
}
use prompt_patrol.Invariants.LiveSessions.Arrivals.{
  create_user-Safe, add_teaching_assistant-Safe, callback-Safe,
}

-- The requests that change accounts, links or sessions, each with the account that makes it.
pub data Request : Type 0 where
  rename : User → Uuid → Text → Request
  deactivate reactivate delete : User → Uuid → Option Text → Request
  change_role : User → Uuid → UserRole → Request
  resend : User → Uuid → Request
  place remove_from_team : User → Uuid → Uuid → Request
  create : User → Text → UserRole → Option Uuid → Request
  add_assistant : User → Text → Request
  sign_in : Exchange → Request
  sign_out : Option Text → Request
  open_page : Bool → Option Text → Request
  purge : ℕ → Request

-- A request's handler, without its answer.
unfoldable pub handle : Request → Exec Done
handle (rename actor i name) = update_display_name actor i name >> pure tt
handle (deactivate actor i reason) = deactivate_user actor i reason >> pure tt
handle (reactivate actor i reason) = reactivate_user actor i reason >> pure tt
handle (delete actor i reason) = delete_user actor i reason >> pure tt
handle (change_role actor i role) = change_user_role actor i role >> pure tt
handle (resend actor i) = resend_invite actor i >> pure tt
handle (place actor ta i) = link_supervisor actor ta i >> pure tt
handle (remove_from_team actor ta i) = end_supervision actor ta i >> pure tt
handle (create actor email role s) = create_user actor email role s >> pure tt
handle (add_assistant actor email) = add_teaching_assistant actor email >> pure tt
handle (sign_in x) = callback x >> pure tt
handle (sign_out cookie) = logout cookie
handle (open_page probe cookie) = get_current_session probe cookie >> pure tt
handle (purge batch_size) = purge_expired_sessions batch_size >> pure tt

-- The requests one after the other, each in a session of its own.
unfoldable pub serve : List Request → World → World
serve [] w = w
serve (r ∷ rs) w = serve rs (in_session (handle r) w).1

handle-Safe : (r : Request) → Safe (handle r)
unfolding handle
handle-Safe (sign_out cookie) = logout-Safe cookie
handle-Safe (purge batch_size) = Keeps-then (purge-Safe batch_size) (λ _. Keeps-pure tt)
handle-Safe (open_page probe cookie) =
    Keeps-then (get_current_session-Safe probe cookie) (λ _. Keeps-pure tt)
handle-Safe (rename actor i name) =
    Keeps-then (update_display_name-Safe actor i name) (λ _. Keeps-pure tt)
handle-Safe (deactivate actor i reason) =
    Keeps-then (deactivate_user-Safe actor i reason) (λ _. Keeps-pure tt)
handle-Safe (reactivate actor i reason) =
    Keeps-then (reactivate_user-Safe actor i reason) (λ _. Keeps-pure tt)
handle-Safe (delete actor i reason) =
    Keeps-then (delete_user-Safe actor i reason) (λ _. Keeps-pure tt)
handle-Safe (change_role actor i role) =
    Keeps-then (change_user_role-Safe actor i role) (λ _. Keeps-pure tt)
handle-Safe (resend actor i) = Keeps-then (resend_invite-Safe actor i) (λ _. Keeps-pure tt)
handle-Safe (place actor ta i) = Keeps-then (link_supervisor-Safe actor ta i) (λ _. Keeps-pure tt)
handle-Safe (remove_from_team actor ta i) =
    Keeps-then (end_supervision-Safe actor ta i) (λ _. Keeps-pure tt)
handle-Safe (create actor email role s) =
    Keeps-then (create_user-Safe actor email role s) (λ _. Keeps-pure tt)
handle-Safe (add_assistant actor email) =
    Keeps-then (add_teaching_assistant-Safe actor email) (λ _. Keeps-pure tt)
handle-Safe (sign_in x) = Keeps-then (callback-Safe x) (λ _. Keeps-pure tt)

session-LiveSessionsActive :
    (m : Exec Done) (w : World)
    → Safe m
    → LiveSessionsActive w.db
    → LiveSessionsActive w.saved
    → LiveSessionsActive (in_session m w).1.saved
unfolding in_session
session-LiveSessionsActive m w k d s = committed (m w) (k.at w d s)
  where
    committed :
        (x : Result Done × World)
        → Post LiveSessionsActive (λ _. LiveSessionsActive) x
        → LiveSessionsActive x.1.saved
    committed (ok a, w') p = p.1
    committed (err e, w') p = p

-- From a database in which every session that is not revoked is of an active account, any sequence
-- of these requests leaves such a database, whatever the outside world answers, whether they succeed
-- or fail.
pub serve-LiveSessionsActive :
    (rs : List Request) (w : World)
    → LiveSessionsActive w.db
    → LiveSessionsActive w.saved
    → LiveSessionsActive (serve rs w).saved
unfolding serve
serve-LiveSessionsActive [] w d s = s
serve-LiveSessionsActive (r ∷ rs) w d s =
    serve-LiveSessionsActive rs (in_session (handle r) w).1 (unfold in_session in kept) kept
  where
    kept : LiveSessionsActive (in_session (handle r) w).1.saved
    kept = session-LiveSessionsActive (handle r) w (handle-Safe r) d s
