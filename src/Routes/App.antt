-- ===== src/Routes/App.antt =====
-- A request through main.py's middleware: `CrossOriginProtectionMiddleware` of middleware.py in front
-- of every endpoint. `GET /auth/login`, `/health` and the constants of `GET /detector` hold no state.
pub mod Forged
use prompt_patrol.Common.{
  ℕ, Bool, true, false, Option, none, some, List, Text, text, text_eq, ◌||◌, if◌then◌else◌,
}
use prompt_patrol.Models.{Uuid, User, UserRole, UserStatus}
use prompt_patrol.World.{World, Exec, Result, ok, err, Done, rollback}
use prompt_patrol.Checks.{Filters}
use prompt_patrol.Routes.SignIn.{Exchange, Redirect, callback, logout}
use prompt_patrol.Routes.Accounts.{Endpoint, provision_user, Answer, respond}
use prompt_patrol.Routes.Accounts as Accounts
use prompt_patrol.Routes.Replies.{Reply, rendered}
use prompt_patrol.Routes.Screening.{
  CheckCreateRequest, BatchCreateRequest, create_check_route, get_upload_url_route,
  create_batch_route, cancel_batch_route,
}
use prompt_patrol.Routes.Reading.{
  list_checks_route, get_check_route, get_batch_progress_route, get_user_route,
  get_current_user_profile, list_all_users, me,
}

pub data Route : Type 0 where
  account : Endpoint → Route
  post_check : CheckCreateRequest → Route
  post_upload_url : Text → Route
  post_batch : BatchCreateRequest → Route
  post_cancel : Uuid → Route
  post_logout : Route
  get_callback : Exchange → Route
  get_checks : ℕ → Option Text → Filters → Route
  get_check get_batch get_user : Uuid → Route
  get_profile : Route
  get_users : Option UserRole → List UserStatus → ℕ → Option Text → Route
  get_me : Bool → Route

-- Whether the route's method is one of `_SAFE_METHODS`.
abbrev pub is_safe : Route → Bool
is_safe (account e) = false
is_safe (post_check body) = false
is_safe (post_upload_url name) = false
is_safe (post_batch body) = false
is_safe (post_cancel i) = false
is_safe post_logout = false
is_safe _ = true

pub record HttpRequest : Type 0 where
  pub route : Route
  pub cookie : Option Text
  pub fetch_site : Option Text
  pub origin : Option Text

abbrev pub has_origin : Text → Option Text → Bool
has_origin own none = false
has_origin own (some origin) = text_eq origin own

-- The guard's decision; `own` is the origin of `FRONTEND_URL`.
unfoldable pub allowed : Text → Option Text → Option Text → Bool
allowed own none origin = has_origin own origin
allowed own (some site) origin = text_eq site (text "same-origin") || text_eq site (text "none")

abbrev success_status : Endpoint → ℕ
success_status (provision_user email role supervisor) = 201
success_status _ = 200

abbrev account_status : Endpoint → Answer → ℕ
account_status e (Accounts.success user) = success_status e
account_status e (Accounts.refused status) = status
account_status e (Accounts.unhandled why) = 500

abbrev pub status_of_account : Endpoint → Answer × World → ℕ × World
status_of_account e (a, w) = (account_status e a, w)

abbrev pub status_of_reply : {A : Type 0} → Reply A × World → ℕ × World
status_of_reply (r, w) = ((rendered r).0, w)

-- Both redirect with 303, or fail with a 500.
abbrev pub status_of_redirect : {A : Type 0} → Result A × World → ℕ × World
status_of_redirect (ok a, w) = (303, w)
status_of_redirect (err e, w) = (500, w)

unfoldable pub serve : Route → Option Text → World → ℕ × World
serve (account e) cookie w = status_of_account e (respond e cookie w)
serve (post_check body) cookie w = status_of_reply (create_check_route body cookie w)
serve (post_upload_url name) cookie w = status_of_reply (get_upload_url_route name cookie w)
serve (post_batch body) cookie w = status_of_reply (create_batch_route body cookie w)
serve (post_cancel i) cookie w = status_of_reply (cancel_batch_route i cookie w)
serve post_logout cookie w = status_of_redirect (logout cookie w)
serve (get_callback x) cookie w = status_of_redirect (callback x w)
serve (get_checks limit cursor f) cookie w =
    status_of_reply (list_checks_route limit cursor f cookie w)
serve (get_check i) cookie w = status_of_reply (get_check_route i cookie w)
serve (get_batch i) cookie w = status_of_reply (get_batch_progress_route i cookie w)
serve (get_user i) cookie w = status_of_reply (get_user_route i cookie w)
serve get_profile cookie w = status_of_reply (get_current_user_profile cookie w)
serve (get_users role statuses limit cursor) cookie w =
    status_of_reply (list_all_users role statuses limit cursor cookie w)
serve (get_me probe) cookie w = status_of_reply (me probe cookie w)

abbrev pub closed : ℕ × World → ℕ × World
closed (status, w) = (status, record w { db = w.saved })

-- `dispatch` of the guard, around an endpoint in its database session.
unfoldable pub handle : Text → HttpRequest → World → ℕ × World
unfolding allowed
handle own r w =
    if is_safe r.route || allowed own r.fetch_site r.origin
    then closed (serve r.route r.cookie w)
    else (403, w)
