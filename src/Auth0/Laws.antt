-- ===== src/Auth0/Laws.antt =====
-- The calls of Auth0 touch neither the session nor the committed database.
use prompt_patrol.Common.{Option, none, some, Text, ℕ, zero, suc, refl, arith, ◌==◌}
use prompt_patrol.World.{
  ◌>>=◌, Exec, Json, token, created_id, matches, HttpReply, Request, create_credential,
  transport_error, response,
}
use prompt_patrol.Transactions.{Silent, silent_rules, Silent-bind, Silent-if, Silent-pure}
use prompt_patrol.Auth0.{
  received, send, read_token, fetch_token, cached_or_fetched, management_token, store_token,
  send_invite_email, create_attempts, create_user_credential, find_auth0_user_id_by_email, retry,
  delete_auth0_user, invite_user, resend_invite_email, read_id, read_matches, email_credential,
}

received-Silent : (r : HttpReply) → Silent (received r)
received-Silent transport_error = search silent_rules
received-Silent (response s b) = search silent_rules

send-Silent : (r : Request) → Silent (send r)
unfolding send
send-Silent r = search (silent_rules, received-Silent)

store_token-Silent : (t : Text) (e at : ℕ) → Silent (store_token t e at)
store_token-Silent t e at = record { db = λ w. refl; saved = λ w. refl }

read_token-Silent : (j : Json) → Silent (read_token j)
read_token-Silent (token t e) = search (silent_rules, store_token-Silent)
read_token-Silent _ = search silent_rules

ruleset http_rules = (silent_rules, received-Silent, read_token-Silent)

fetch_token-Silent : Silent fetch_token
unfolding fetch_token
fetch_token-Silent = search http_rules

cached_or_fetched-Silent : (c : Option (Text × ℕ)) → Silent (cached_or_fetched c)
cached_or_fetched-Silent none = fetch_token-Silent
cached_or_fetched-Silent (some (t, e)) = search (http_rules, fetch_token-Silent)

management_token-Silent : Silent management_token
unfolding management_token
management_token-Silent = search (http_rules, cached_or_fetched-Silent)

send_invite_email-Silent : (email : Text) → Silent (send_invite_email email)
unfolding send_invite_email
send_invite_email-Silent email = search http_rules

retry-Silent :
    (n : ℕ) (again : Exec (ℕ × Json)) (last : ℕ × Json) → Silent again → Silent (retry n again last)
retry-Silent zero again last k = search silent_rules
retry-Silent (suc n) again last k = k

create_attempts-Silent : (n : ℕ) (email : Text) → Silent (create_attempts n email)
unfolding create_attempts
create_attempts-Silent zero email = search http_rules
create_attempts-Silent (suc n) email = Silent-bind (send-Silent (create_credential email)) λ last.
    Silent-if (last.0 == 409) _ _ (retry-Silent n _ _ (create_attempts-Silent n email))
      (Silent-pure last)

read_id-Silent : (j : Json) → Silent (read_id j)
read_id-Silent (created_id i) = search silent_rules
read_id-Silent _ = search silent_rules

create_user_credential-Silent : (email : Text) → Silent (create_user_credential email)
unfolding create_user_credential
create_user_credential-Silent email =
    search (http_rules, management_token-Silent, create_attempts-Silent, read_id-Silent)

read_matches-Silent : (j : Json) → Silent (read_matches j)
read_matches-Silent (matches ms) = search silent_rules
read_matches-Silent _ = search silent_rules

pub find_auth0_user_id_by_email-Silent : (email : Text) → Silent (find_auth0_user_id_by_email email)
unfolding find_auth0_user_id_by_email
find_auth0_user_id_by_email-Silent email =
    search (http_rules, management_token-Silent, read_matches-Silent) depth 8

pub delete_auth0_user-Silent : (i : Text) → Silent (delete_auth0_user i)
unfolding delete_auth0_user
delete_auth0_user-Silent i = search (http_rules, management_token-Silent)

email_credential-Silent : (email i : Text) → Silent (email_credential email i)
unfolding ◌>>=◌
email_credential-Silent email i = record {
  db = λ w. ground (
    arith,
    (send_invite_email-Silent email).db w,
    (delete_auth0_user-Silent i).db (send_invite_email email w).1,
  );
  saved = λ w. ground (
    arith,
    (send_invite_email-Silent email).saved w,
    (delete_auth0_user-Silent i).saved (send_invite_email email w).1,
  );
}

pub invite_user-Silent : (email : Text) → Silent (invite_user email)
unfolding invite_user
invite_user-Silent email =
    search (http_rules, create_user_credential-Silent, email_credential-Silent)

pub resend_invite_email-Silent : (email : Text) → Silent (resend_invite_email email)
unfolding resend_invite_email
resend_invite_email-Silent email = send_invite_email-Silent email
