-- ===== src/Routes/Replies.antt =====
-- What an endpoint answers: exceptions/handlers.py, `_error` of routes/checks_routes.py, and the 401
-- of auth/dependencies.py.
use prompt_patrol.Common.{ℕ, Option, none, some, Text, text, ◌==◌, if◌then◌else◌}
use prompt_patrol.Models.{User}
use prompt_patrol.World.{World, Result, ok, err, Error}
use prompt_patrol.Sessions.{
  SessionFailure, not_signed_in, session_unknown, session_revoked, session_expired, session_ended,
  account_deactivated,
}
use prompt_patrol.Routes.SignIn.{Gate, pass, unauthorized, forbidden}

-- The `detail` of an `HTTPException`: a text, or a code and a text.
pub data Detail : Type 0 where
  plain : Detail
  coded : Text → Detail

-- A value with its status, an `HTTPException`, a `RequestValidationError`, or an exception that the
-- endpoint does not handle.
pub data Reply (A : Type 0) : Type 0 where
  success : ℕ → A → Reply A
  http_exception : ℕ → Detail → Reply A
  validation_error : Reply A
  unhandled : Error → Reply A

-- `_DEFAULT_CODES`
unfoldable pub default_code : ℕ → Text
default_code status =
    if status == 400
    then text "invalid_request"
    else if status == 403
    then text "forbidden"
    else if status == 404
    then text "not_found"
    else if status == 405
    then text "invalid_request"
    else if status == 409
    then text "conflict"
    else if status == 413
    then text "payload_too_large"
    else if status == 502
    then text "upstream_idp_error"
    else text "internal_error"

-- `_http_error`
abbrev pub code_of : ℕ → Detail → Text
code_of status plain = default_code status
code_of status (coded code) = code

-- The values of `SessionFailure`.
abbrev pub failure_code : SessionFailure → Text
failure_code not_signed_in = text "not_signed_in"
failure_code session_unknown = text "session_unknown"
failure_code session_revoked = text "session_revoked"
failure_code session_expired = text "session_expired"
failure_code session_ended = text "session_ended"
failure_code account_deactivated = text "account_deactivated"

-- `_unauthenticated`
abbrev pub unauthenticated : {A : Type 0} → SessionFailure → Reply A
unauthenticated why = http_exception 401 (coded (failure_code why))

-- The status and, but for a value, the code in the body: `_http_error`, `_validation_error`, and
-- `RequestIdMiddleware` for what nothing handles.
unfoldable pub rendered : {A : Type 0} → Reply A → ℕ × Option Text
unfolding default_code
rendered (success status a) = (status, none)
rendered (http_exception status detail) = (status, some (code_of status detail))
rendered validation_error = (400, some (text "invalid_request"))
rendered (unhandled e) = (500, some (text "internal_error"))

-- An endpoint behind a gate.
abbrev pub behind :
    {A : Type 0} → (User → World → Reply A × World) → Result (Gate User) × World → Reply A × World
behind f (ok (pass user), w) = f user w
behind f (ok (unauthorized why), w) = (unauthenticated why, w)
behind f (ok forbidden, w) = (http_exception 403 plain, w)
behind f (err e, w) = (unhandled e, w)
