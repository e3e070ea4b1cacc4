-- ===== src/Auth0.antt =====
-- apps/api/app/auth/management.py: the calls of the Auth0 Management API, over the outside world's
-- replies. A reply that lacks the field that the code reads raises `key_error`, which no handler of
-- this file catches. The invite's placeholder password is not part of the modelled request.
pub mod Laws
pub mod Errors
use prompt_patrol.Common.{
  ℕ, zero, suc, ◌+◌, ◌-◌, Bool, true, false, Option, none, some, List, [], ◌∷◌, Text, ◌==◌, ltb,
  leb, ◌&&◌, not, if◌then◌else◌,
}
use prompt_patrol.World.{
  Exec, Result, ok, err, pure, raise, gets, ask, ◌>>=◌, ◌>>◌, raise_if, except_transport, Done,
  World, HttpReply, transport_error, response, Json, token, created_id, matches, Match, Request,
  post_token, change_password, create_credential, users_by_email, delete_credential, monotonic,
  http, transport, key_error, auth0_provisioning,
}

abbrev received : HttpReply → Exec (ℕ × Json)
received transport_error = raise transport
received (response status body) = pure (status, body)

send : Request → Exec (ℕ × Json)
send r = ask (http r) (λ o calls. o.reply calls r) >>= received

-- httpx: `raise_for_status` lets the 2xx statuses through.
raise_for_status : ℕ → Exec Done
raise_for_status status = raise_if (not (leb 200 status && ltb status 300)) transport

abbrev store_token : Text → ℕ → ℕ → Exec Text
store_token t expires_in at w = (ok t, record w { cached_token = some (t, at + expires_in - 60) })

abbrev read_token : Json → Exec Text
read_token (token t expires_in) = do at ← ask monotonic (λ o. o.ticks); store_token t expires_in at
read_token _ = raise key_error

fetch_token : Exec Text
unfolding send raise_for_status
fetch_token = do (status, body) ← send post_token; raise_for_status status; read_token body

-- `_management_token`
abbrev cached_or_fetched : Option (Text × ℕ) → Exec Text
cached_or_fetched none = fetch_token
cached_or_fetched (some (t, expiry)) = do
  at ← ask monotonic (λ o. o.ticks)
  if ltb at expiry then pure t else fetch_token

management_token : Exec Text
unfolding fetch_token
management_token = do cached ← gets (λ w. w.cached_token); cached_or_fetched cached

-- `_send_invite_email`
pub send_invite_email : Text → Exec Done
unfolding send raise_for_status
send_invite_email email =
    except_transport (do (status, _) ← send (change_password email); raise_for_status status)
      (raise auth0_provisioning)

abbrev retry : ℕ → Exec (ℕ × Json) → ℕ × Json → Exec (ℕ × Json)
retry zero again last = pure last
retry (suc n) again last = again

-- The retries of `invite_user`: a 409 is tried again while attempts are left.
create_attempts : ℕ → Text → Exec (ℕ × Json)
unfolding send
create_attempts zero email = raise transport
create_attempts (suc left) email =
    let again = create_attempts left email in
    do
      (status, body) ← send (create_credential email)
      if status == 409 then retry left again (status, body) else pure (status, body)

abbrev create_attempts_max : ℕ
create_attempts_max = 3

abbrev read_id : Json → Exec Text
read_id (created_id i) = pure i
read_id _ = raise key_error

pub create_user_credential : Text → Exec Text
unfolding management_token create_attempts raise_for_status
create_user_credential email = do
  management_token
  (status, body) ← create_attempts create_attempts_max email
  raise_for_status status
  read_id body

abbrev first_match : List Match → Option Text
first_match [] = none
first_match (m ∷ ms) = if m.in_connection then some m.user_id else first_match ms

abbrev read_matches : Json → Exec (Option Text)
read_matches (matches ms) = pure (first_match ms)
read_matches _ = raise key_error

-- `find_auth0_user_id_by_email`
unfoldable pub find_auth0_user_id_by_email : Text → Exec (Option Text)
unfolding management_token send raise_for_status
find_auth0_user_id_by_email email = do
  body ←
      except_transport
        (do
          management_token
          (status, body) ← send (users_by_email email)
          raise_for_status status
          pure body)
        (raise auth0_provisioning)
  read_matches body

-- `delete_auth0_user`: false if Auth0 refuses or cannot be reached.
unfoldable pub delete_auth0_user : Text → Exec Bool
unfolding management_token send raise_for_status
delete_auth0_user auth0_user_id =
    except_transport
      (do
        management_token
        (status, _) ← send (delete_credential auth0_user_id)
        raise_for_status status
        pure true)
      (pure false)

-- `except Auth0ProvisioningError: await delete_auth0_user(...); raise`
abbrev undo_credential : Text → Result Done × World → Result Text × World
undo_credential i (ok _, w) = (ok i, w)
undo_credential i (err auth0_provisioning, w) = (do delete_auth0_user i; raise auth0_provisioning) w
undo_credential i (err e, w) = (err e, w)

abbrev email_credential : Text → Text → Exec Text
email_credential email i w = undo_credential i (send_invite_email email w)

unfoldable pub invite_user : Text → Exec Text
unfolding create_user_credential send_invite_email delete_auth0_user
invite_user email = do
  i ← except_transport (create_user_credential email) (raise auth0_provisioning)
  email_credential email i

-- `resend_invite_email`
unfoldable pub resend_invite_email : Text → Exec Done
unfolding send_invite_email
resend_invite_email email = send_invite_email email
