-- ===== src/Routes/Accounts.antt =====
-- routes/users_routes.py: the endpoints on accounts, the status code of each exception, and the 500
-- of middleware.py for one that no endpoint maps. The shape of the answers is left out;
-- the endpoints that only read are in Reading.
pub mod Statuses
use prompt_patrol.Common.{ℕ, Option, none, some, Text}
use prompt_patrol.Models.{User, Uuid, UserRole, root_admin, instructor, teaching_assistant}
use prompt_patrol.World.{
  Exec, World, Result, ok, err, Error, in_session, ◌>>=◌, pure, permission_error, user_not_found,
  invalid_transition, invalid_supervisor, email_exists, auth0_provisioning, cannot_add,
}
use prompt_patrol.Users.Access.{update_display_name}
use prompt_patrol.Users.Lifecycle.{
  deactivate_user, reactivate_user, delete_user, change_user_role, resend_invite,
}
use prompt_patrol.Users.Teams.{link_supervisor, end_supervision}
use prompt_patrol.Users.Provision.{create_user, add_teaching_assistant}
use prompt_patrol.Routes.SignIn.{Gate, pass, unauthorized, forbidden, require_role}

-- The `except` clauses of each endpoint.
abbrev pub rename_status : Error → Option ℕ
rename_status user_not_found = some 404
rename_status invalid_transition = some 409
rename_status _ = none

abbrev pub provision_status : Error → Option ℕ
provision_status permission_error = some 403
provision_status invalid_supervisor = some 400
provision_status email_exists = some 409
provision_status auth0_provisioning = some 502
provision_status _ = none

abbrev pub add_assistant_status : Error → Option ℕ
add_assistant_status permission_error = some 403
add_assistant_status (cannot_add _) = some 409
add_assistant_status auth0_provisioning = some 502
add_assistant_status _ = none

abbrev pub role_status : Error → Option ℕ
role_status permission_error = some 403
role_status user_not_found = some 404
role_status _ = none

abbrev pub place_status : Error → Option ℕ
place_status permission_error = some 403
place_status user_not_found = some 404
place_status invalid_supervisor = some 400
place_status invalid_transition = some 409
place_status _ = none

abbrev pub remove_status : Error → Option ℕ
remove_status user_not_found = some 404
remove_status _ = none

-- `_transition_route`
abbrev pub transition_status : Error → Option ℕ
transition_status permission_error = some 403
transition_status user_not_found = some 404
transition_status invalid_transition = some 409
transition_status _ = none

abbrev pub resend_status : Error → Option ℕ
resend_status permission_error = some 403
resend_status user_not_found = some 404
resend_status invalid_transition = some 409
resend_status auth0_provisioning = some 502
resend_status _ = none

pub data Endpoint : Type 0 where
  update_user : Uuid → Text → Endpoint
  provision_user : Text → UserRole → Option Uuid → Endpoint
  add_assistant : Text → Endpoint
  change_role : Uuid → UserRole → Endpoint
  add_supervisor remove_supervisor : Uuid → Uuid → Endpoint
  deactivate reactivate delete : Uuid → Option Text → Endpoint
  resend : Uuid → Endpoint

-- The role that the endpoint's `require_role` asks for.
abbrev pub min_role : Endpoint → UserRole
min_role (update_user i name) = teaching_assistant
min_role (provision_user email role s) = root_admin
min_role (add_assistant email) = instructor
min_role (change_role i role) = root_admin
min_role (add_supervisor ta i) = root_admin
min_role (remove_supervisor ta i) = instructor
min_role (deactivate i reason) = root_admin
min_role (reactivate i reason) = root_admin
min_role (delete i reason) = root_admin
min_role (resend i) = instructor

abbrev pub serve_endpoint : Endpoint → User → Exec User
serve_endpoint (update_user i name) actor = update_display_name actor i name
serve_endpoint (provision_user email role s) actor = create_user actor email role s
serve_endpoint (add_assistant email) actor = add_teaching_assistant actor email
serve_endpoint (change_role i role) actor = change_user_role actor i role
serve_endpoint (add_supervisor ta i) actor = link_supervisor actor ta i
serve_endpoint (remove_supervisor ta i) actor = end_supervision actor ta i
serve_endpoint (deactivate i reason) actor = deactivate_user actor i reason
serve_endpoint (reactivate i reason) actor = reactivate_user actor i reason
serve_endpoint (delete i reason) actor = delete_user actor i reason
serve_endpoint (resend i) actor = resend_invite actor i

abbrev pub status_of : Endpoint → Error → Option ℕ
status_of (update_user i name) = rename_status
status_of (provision_user email role s) = provision_status
status_of (add_assistant email) = add_assistant_status
status_of (change_role i role) = role_status
status_of (add_supervisor ta i) = place_status
status_of (remove_supervisor ta i) = remove_status
status_of (deactivate i reason) = transition_status
status_of (reactivate i reason) = transition_status
status_of (delete i reason) = transition_status
status_of (resend i) = resend_status

-- An HTTP answer: the account, a status that the endpoint raises, or the 500 of an exception that
-- it does not handle.
pub data Answer : Type 0 where
  success : User → Answer
  refused : ℕ → Answer
  unhandled : Error → Answer

abbrev pub mapped_status : Error → Option ℕ → Answer
mapped_status e none = unhandled e
mapped_status e (some status) = refused status

abbrev pub answer_of : Endpoint → Result User × World → Answer × World
answer_of r (ok u, w) = (success u, w)
answer_of r (err e, w) = (mapped_status e (status_of r e), w)

abbrev pub gated : Endpoint → Result (Gate User) × World → Answer × World
gated r (ok (pass actor), w) = answer_of r (serve_endpoint r actor w)
gated r (ok (unauthorized why), w) = (refused 401, w)
gated r (ok forbidden, w) = (refused 403, w)
gated r (err e, w) = (unhandled e, w)

-- A request to an endpoint, with its cookie.
unfoldable pub respond : Endpoint → Option Text → World → Answer × World
unfolding require_role
respond r cookie w = gated r (require_role (min_role r) cookie w)
