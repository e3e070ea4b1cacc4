-- ===== src/Routes/Reading.antt =====
-- The endpoints that only read: of routes/checks_routes.py, batches_routes.py, users_routes.py, and
-- `me` of auth_routes.py; and detector_client.`health`.
pub mod Gates
pub mod Untouched
use prompt_patrol.Common.{
  ℕ, Bool, true, false, Option, none, some, List, [], ◌∷◌, Text, text, text_eq, ◌==◌, ◌-◌, ◌||◌,
  ltb, if◌then◌else◌,
}
use Prim.Native.Nat.{◌/◌}
use prompt_patrol.Models.{
  Uuid, Time, User, UserRole, UserStatus, teaching_assistant, instructor, Check,
}
use prompt_patrol.World.{
  World, Exec, Result, ok, err, Error, ◌>>=◌, ◌>>◌, raise, raise_if, clock, permission_error,
  invalid_cursor,
}
use prompt_patrol.Cursors.{encode_cursor, decode_cursor}
use prompt_patrol.Checks.{Filters, list_checks, get_check_by_id}
use prompt_patrol.Batches.Service.{Progress, get_batch_progress}
use prompt_patrol.Users.Access.{get_user_by_id}
use prompt_patrol.Users.Roster.{list_users, may_not_list}
use prompt_patrol.Sessions.{ActiveSession, capped, second, session_idle_ttl}
use prompt_patrol.Routes.SignIn.{
  Gate, pass, unauthorized, forbidden, require_role, get_current_session,
}
use prompt_patrol.Routes.Replies.{
  Reply, success, http_exception, validation_error, unhandled, plain, unauthenticated, behind,
}

-- What `GET /health` of the detector answered: nothing, or a status and a body, which is no JSON or
-- has a `status`.
pub data HealthReply : Type 0 where
  no_answer : HealthReply
  answered : ℕ → Option (Option Text) → HealthReply

pub data DetectorStatus : Type 0 where
  ready loading unavailable : DetectorStatus

abbrev pub reported_status : Option (Option Text) → DetectorStatus
reported_status none = unavailable
reported_status (some none) = unavailable
reported_status (some (some s)) = if text_eq s (text "loading") then loading else unavailable

unfoldable pub health : HealthReply → DetectorStatus
health no_answer = unavailable
health (answered status body) = if status == 200 then ready else reported_status body

-- `limit: Annotated[int, Query(ge=1, le=100)]`
abbrev pub limit_is_invalid : ℕ → Bool
limit_is_invalid limit = ltb limit 1 || ltb 100 limit

abbrev pub with_decoded : {A : Type 0} → (Option Uuid → Exec A) → Option Uuid → Exec A
with_decoded f none = raise invalid_cursor
with_decoded f (some i) = f (some i)

-- A cursor of the query string, read by `_decode_cursor`.
abbrev pub with_cursor : {A : Type 0} → Option Text → (Option Uuid → Exec A) → Exec A
with_cursor none f = f none
with_cursor (some cursor) f = with_decoded f (decode_cursor cursor)

abbrev pub encoded : Option Uuid → Option Text
encoded none = none
encoded (some i) = some (encode_cursor i)

abbrev pub page_failure : {A : Type 0} → Error → Reply A
page_failure invalid_cursor = http_exception 400 plain
page_failure e = unhandled e

abbrev pub page_reply :
    {A : Type 0} → Result (List A × Option Uuid) × World → Reply (List A × Option Text) × World
page_reply (ok (items, next), w) = (success 200 (items, encoded next), w)
page_reply (err e, w) = (page_failure e, w)

unfoldable pub show_checks :
    ℕ → Option Text → Filters → User → World → Reply (List Check × Option Text) × World
show_checks limit cursor f user w =
    if limit_is_invalid limit
    then (validation_error, w)
    else page_reply (with_cursor cursor (list_checks user f limit) w)

-- `GET /checks`
unfoldable pub list_checks_route :
    ℕ → Option Text → Filters → Option Text → World → Reply (List Check × Option Text) × World
list_checks_route limit cursor f cookie w =
    behind (show_checks limit cursor f) (require_role teaching_assistant cookie w)

abbrev pub found_reply : {A : Type 0} → Result (Option A) × World → Reply A × World
found_reply (ok none, w) = (http_exception 404 plain, w)
found_reply (ok (some a), w) = (success 200 a, w)
found_reply (err e, w) = (unhandled e, w)

-- `GET /checks/{check_id}`
unfoldable pub get_check_route : Uuid → Option Text → World → Reply Check × World
get_check_route check_id cookie w =
    behind (λ user w'. found_reply (get_check_by_id user check_id w'))
      (require_role teaching_assistant cookie w)

-- `GET /batches/{batch_id}`
unfoldable pub get_batch_progress_route : Uuid → Option Text → World → Reply Progress × World
get_batch_progress_route batch_id cookie w =
    behind (λ user w'. found_reply (get_batch_progress user batch_id w'))
      (require_role teaching_assistant cookie w)

-- `GET /users/{user_id}`
unfoldable pub get_user_route : Uuid → Option Text → World → Reply User × World
get_user_route user_id cookie w =
    behind (λ user w'. found_reply (get_user_by_id user user_id w'))
      (require_role teaching_assistant cookie w)

-- `GET /users/me`
unfoldable pub get_current_user_profile : Option Text → World → Reply User × World
get_current_user_profile cookie w =
    behind (λ user w'. (success 200 user, w')) (require_role teaching_assistant cookie w)

abbrev pub users_failure : {A : Type 0} → Error → Reply A
users_failure permission_error = http_exception 403 plain
users_failure invalid_cursor = http_exception 400 plain
users_failure e = unhandled e

abbrev pub users_by_decoded :
    User
    → Option UserRole
    → Option (List UserStatus)
    → ℕ
    → Option Uuid
    → Exec (List User × Option Uuid)
users_by_decoded user role statuses limit none = do
  raise_if (may_not_list user role) permission_error
  raise invalid_cursor
users_by_decoded user role statuses limit (some i) = list_users user role statuses limit (some i)

-- `list_users` of a cursor's text: who may not list is refused before the cursor is read.
abbrev pub users_by_cursor :
    User
    → Option UserRole
    → Option (List UserStatus)
    → ℕ
    → Option Text
    → Exec (List User × Option Uuid)
users_by_cursor user role statuses limit none = list_users user role statuses limit none
users_by_cursor user role statuses limit (some cursor) =
    users_by_decoded user role statuses limit (decode_cursor cursor)

abbrev pub users_reply :
    Result (List User × Option Uuid) × World → Reply (List User × Option Text) × World
users_reply (ok (items, next), w) = (success 200 (items, encoded next), w)
users_reply (err e, w) = (users_failure e, w)

-- `status_filter if status_filter else None`
abbrev pub given_statuses : List UserStatus → Option (List UserStatus)
given_statuses [] = none
given_statuses (s ∷ ss) = some (s ∷ ss)

unfoldable pub show_users :
    Option UserRole
    → List UserStatus
    → ℕ
    → Option Text
    → User
    → World
    → Reply (List User × Option Text) × World
show_users role statuses limit cursor user w =
    if limit_is_invalid limit
    then (validation_error, w)
    else users_reply (users_by_cursor user role (given_statuses statuses) limit cursor w)

-- `GET /users`
unfoldable pub list_all_users :
    Option UserRole
    → List UserStatus
    → ℕ
    → Option Text
    → Option Text
    → World
    → Reply (List User × Option Text) × World
list_all_users role statuses limit cursor cookie w =
    behind (show_users role statuses limit cursor) (require_role instructor cookie w)

-- The session part of `MeResponse`.
pub record MeSession : Type 0 where
  pub expires_at : Time
  pub idle_expires_at : Time
  pub absolute_expires_at : Time
  pub expires_in_seconds : ℕ
  pub capped : Bool
  pub idle_timeout_seconds : ℕ

abbrev pub me_of : ActiveSession → Time → User × MeSession
me_of s now = (
  s.user,
  record {
    expires_at = s.expires_at;
    idle_expires_at = s.idle_expires_at;
    absolute_expires_at = s.absolute_expires_at;
    expires_in_seconds = (s.expires_at - now) / second;
    capped = capped s;
    idle_timeout_seconds = session_idle_ttl / second;
  },
)

abbrev pub timed_me : ActiveSession → Result Time × World → Reply (User × MeSession) × World
timed_me s (ok now, w) = (success 200 (me_of s now), w)
timed_me s (err e, w) = (unhandled e, w)

abbrev pub me_reply : Result (Gate ActiveSession) × World → Reply (User × MeSession) × World
me_reply (ok (pass s), w) = timed_me s (clock w)
me_reply (ok (unauthorized why), w) = (unauthenticated why, w)
me_reply (ok forbidden, w) = (http_exception 403 plain, w)
me_reply (err e, w) = (unhandled e, w)

-- `GET /auth/me`; `probe` asks without recording activity.
unfoldable pub me : Bool → Option Text → World → Reply (User × MeSession) × World
me probe cookie w = me_reply (get_current_session probe cookie w)
