-- ===== src/Routes/SignIn.antt =====
-- routes/auth_routes.py: the Auth0 callback, sign-out, and auth/dependencies.py.
pub mod Errors
use prompt_patrol.Common.{
  ℕ, Bool, true, false, Option, none, some, List, [], ◌∷◌, Text, ltb, ◌&&◌, not, if◌then◌else◌,
}
use prompt_patrol.Models.{
  Db, Uuid, User, UserRole, root_admin, instructor, teaching_assistant, role_eq,
}
use prompt_patrol.World.{Exec, pure, gets, ◌>>=◌, ◌>>◌, Done}
use prompt_patrol.Users.Access.{
  Resolved, user, rejected, LoginRejection, resolve_user, mark_first_login, supervisor_ids,
}
use prompt_patrol.Sessions.{
  ActiveSession, Outcome, signed_in, failed, SessionFailure, not_signed_in, create_session,
  authenticate_session, sign_out_everywhere,
}

-- What the Auth0 token exchange of the callback gave: the claims `sub` and the address, or a failure.
pub data Exchange : Type 0 where
  claims : Text → Text → Exchange
  oauth_cancelled oauth_error auth0_unreachable : Exchange

-- Where the browser is sent: to the login page with an error, out of Auth0, or in with a cookie.
pub data Redirect : Type 0 where
  sign_in_cancelled sign_in_failed : Redirect
  log_out : LoginRejection → Redirect
  enter : Text → Redirect

abbrev pub let_in : Resolved → Exec Redirect
let_in (rejected why) = pure (log_out why)
let_in (user u) = do mark_first_login u; raw_token ← create_session u.id; pure (enter raw_token)

unfoldable pub callback : Exchange → Exec Redirect
unfolding resolve_user mark_first_login create_session
callback oauth_cancelled = pure sign_in_cancelled
callback oauth_error = pure sign_in_failed
callback auth0_unreachable = pure sign_in_failed
callback (claims sub email) = do resolved ← resolve_user sub email; let_in resolved

abbrev pub end_all : Option Text → Exec (Option User)
end_all none = pure none
end_all (some raw_token) = sign_out_everywhere raw_token

-- `logout`: the redirect and the cookie's removal carry no state.
unfoldable pub logout : Option Text → Exec Done
unfolding sign_out_everywhere
logout cookie = do end_all cookie; pure tt

-- An HTTP answer of a dependency: a value, 401 with its reason, or 403.
pub data Gate {ℓ} (A : Type ℓ) : Type ℓ where
  pass : A → Gate A
  unauthorized : SessionFailure → Gate A
  forbidden : Gate A

abbrev gate_of : Outcome → Gate ActiveSession
gate_of (signed_in s) = pass s
gate_of (failed why) = unauthorized why

abbrev pub session_of : Bool → Option Text → Exec (Gate ActiveSession)
session_of probe none = pure (unauthorized not_signed_in)
session_of probe (some raw_token) = do
  outcome ← authenticate_session raw_token (not probe)
  pure (gate_of outcome)

-- `get_current_session`
unfoldable pub get_current_session : Bool → Option Text → Exec (Gate ActiveSession)
unfolding authenticate_session
get_current_session probe cookie = session_of probe cookie

-- `ROLE_ORDER`
abbrev role_order : UserRole → ℕ
role_order teaching_assistant = 0
role_order instructor = 1
role_order root_admin = 2

abbrev require_of : UserRole → Gate ActiveSession → Gate User
require_of min_role (unauthorized why) = unauthorized why
require_of min_role forbidden = forbidden
require_of min_role (pass s) =
    if ltb (role_order s.user.role) (role_order min_role) then forbidden else pass s.user

-- `require_role`, over `get_current_user`.
unfoldable pub require_role : UserRole → Option Text → Exec (Gate User)
unfolding get_current_session
require_role min_role cookie = do
  gate ← get_current_session false cookie
  pure (require_of min_role gate)

abbrev is_empty : List Uuid → Bool
is_empty [] = true
is_empty (_ ∷ _) = false

abbrev screening_of : Db → Gate ActiveSession → Gate User
screening_of db (unauthorized why) = unauthorized why
screening_of db forbidden = forbidden
screening_of db (pass s) =
    if role_eq s.user.role teaching_assistant && is_empty (supervisor_ids db s.user.id)
    then forbidden
    else pass s.user

-- `require_screening_access`
unfoldable pub require_screening_access : Option Text → Exec (Gate User)
unfolding get_current_session supervisor_ids
require_screening_access cookie = do
  gate ← get_current_session false cookie
  db ← gets (λ w. w.db)
  pure (screening_of db gate)
