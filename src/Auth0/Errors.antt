-- ===== src/Auth0/Errors.antt =====
-- Which exceptions the calls of Auth0 raise (apps/api/app/auth/management.py): what the callers
-- expect, and `key_error` for a reply without the field that the code reads.
use prompt_patrol.Common.{
  ℕ, zero, suc, Bool, true, false, Option, none, some, ◌≡◌, ◌==◌, arith, refl, Text,
}
use prompt_patrol.World.{
  Error, Exec, World, Result, Request, HttpReply, transport_error, response, Json, token,
  created_id, matches, other_json, auth0_provisioning, create_credential, key_error, ◌>>=◌, ◌>>◌,
  pure, transport, Done,
}
use prompt_patrol.Transactions.Raises.{
  Raises, Within, raises_rules, or_transport, Raises-except_transport, Raises-bind, Raises-pure,
  Raises-raise, Raises-if,
}
use prompt_patrol.Auth0.{
  received, send, raise_for_status, read_token, store_token, fetch_token, cached_or_fetched,
  management_token, send_invite_email, retry, create_attempts, read_id, create_user_credential,
  read_matches, find_auth0_user_id_by_email, delete_auth0_user, undo_credential, invite_user,
  resend_invite_email,
}

module _ (may : Error → Bool) (t : may transport ≡ true) (k : may key_error ≡ true) where
  received-Raises : (r : HttpReply) → Raises may (received r)
  received-Raises transport_error = Raises-raise transport t
  received-Raises (response status body) = Raises-pure (status, body)

  send-Raises : (r : Request) → Raises may (send r)
  unfolding send
  send-Raises r = search (raises_rules, received-Raises) depth 6

  raise_for_status-Raises : (n : ℕ) → Raises may (raise_for_status n)
  unfolding raise_for_status
  raise_for_status-Raises n = search (raises_rules) depth 4

  store_token-Raises : (s : Text) (e at : ℕ) → Raises may (store_token s e at)
  store_token-Raises s e at = record { at = λ w. tt }

  read_token-Raises : (b : Json) → Raises may (read_token b)
  read_token-Raises (token s e) = search (raises_rules, store_token-Raises) depth 6
  read_token-Raises (created_id i) = Raises-raise key_error k
  read_token-Raises (matches ms) = Raises-raise key_error k
  read_token-Raises other_json = Raises-raise key_error k

  fetch_token-Raises : Raises may fetch_token
  unfolding fetch_token
  fetch_token-Raises =
      search (raises_rules, send-Raises, raise_for_status-Raises, read_token-Raises) depth 8

  cached_or_fetched-Raises : (o : Option (Text × ℕ)) → Raises may (cached_or_fetched o)
  cached_or_fetched-Raises none = fetch_token-Raises
  cached_or_fetched-Raises (some (s, e)) = search (raises_rules, fetch_token-Raises) depth 6

  management_token-Raises : Raises may management_token
  unfolding management_token
  management_token-Raises = search (raises_rules, cached_or_fetched-Raises) depth 6

  retry-Raises :
      (n : ℕ) (again : Exec (ℕ × Json)) (p : ℕ × Json)
      → Raises may again
      → Raises may (retry n again p)
  retry-Raises zero again p r = Raises-pure p
  retry-Raises (suc n) again p r = r

  create_attempts-Raises : (n : ℕ) (email : Text) → Raises may (create_attempts n email)
  unfolding create_attempts
  create_attempts-Raises zero email = Raises-raise transport t
  create_attempts-Raises (suc n) email = Raises-bind (send-Raises (create_credential email)) λ last.
      Raises-if (last.0 == 409) _ _ (retry-Raises n _ _ (create_attempts-Raises n email))
        (Raises-pure last)

  read_id-Raises : (b : Json) → Raises may (read_id b)
  read_id-Raises (created_id i) = Raises-pure i
  read_id-Raises (token s e) = Raises-raise key_error k
  read_id-Raises (matches ms) = Raises-raise key_error k
  read_id-Raises other_json = Raises-raise key_error k

  create_user_credential-Raises : (email : Text) → Raises may (create_user_credential email)
  unfolding create_user_credential
  create_user_credential-Raises email =
      search
        (
          raises_rules, management_token-Raises, create_attempts-Raises, raise_for_status-Raises,
          read_id-Raises,
        )
        depth 12

  -- A request with a token, and what is made of a good reply.
  requested-Raises :
      {A : Type 0} (r : Request) (f : Json → A)
      → Raises may
          (do management_token; (status, body) ← send r; raise_for_status status; pure (f body))
  requested-Raises r f = Raises-bind management_token-Raises λ _.
      Raises-bind (send-Raises r)
        λ x. Raises-bind (raise_for_status-Raises x.0) (λ _. Raises-pure (f x.1))

pub delete_auth0_user-Raises :
    (may : Error → Bool) (i : Text) → may key_error ≡ true → Raises may (delete_auth0_user i)
unfolding delete_auth0_user
delete_auth0_user-Raises may i k =
    Raises-except_transport _ _ (requested-Raises (or_transport may) refl k _ (λ _. true))
      (Raises-pure false)

-- What the callers see: no `httpx.HTTPError` leaves these calls.
module _ (may : Error → Bool) (p : may auth0_provisioning ≡ true) (k : may key_error ≡ true) where
  pub send_invite_email-Raises : (email : Text) → Raises may (send_invite_email email)
  unfolding send_invite_email
  send_invite_email-Raises email =
      Raises-except_transport _ _
        (search
          (
            raises_rules,
            send-Raises (or_transport may) refl k,
            raise_for_status-Raises (or_transport may) refl k,
          )
          depth 8)
        (Raises-raise auth0_provisioning p)

  read_matches-Raises : (b : Json) → Raises may (read_matches b)
  read_matches-Raises (matches ms) = Raises-pure _
  read_matches-Raises (token s e) = Raises-raise key_error k
  read_matches-Raises (created_id i) = Raises-raise key_error k
  read_matches-Raises other_json = Raises-raise key_error k

  pub find_auth0_user_id_by_email-Raises :
      (email : Text) → Raises may (find_auth0_user_id_by_email email)
  unfolding find_auth0_user_id_by_email
  find_auth0_user_id_by_email-Raises email =
      Raises-bind
        (Raises-except_transport _ _ (requested-Raises (or_transport may) refl k _ (λ b. b))
          (Raises-raise auth0_provisioning p))
        read_matches-Raises

  pub invite_user-Raises : (email : Text) → Raises may (invite_user email)
  unfolding invite_user
  invite_user-Raises email =
      Raises-bind
        (Raises-except_transport _ _ (create_user_credential-Raises (or_transport may) refl k email)
          (Raises-raise auth0_provisioning p))
        (λ i. record {
          at = λ w. undone i (send_invite_email email w) ((send_invite_email-Raises email).at w);
        })
    where
      undone :
          (i : Text) (x : Result Done × World) → Within may x → Within may (undo_credential i x)
      undone i x h = ground (
        arith,
        h,
        (Raises-bind (delete_auth0_user-Raises may i k)
              (λ _. Raises-raise {A = Text} auth0_provisioning p)).at
            x.1,
      )

  pub resend_invite_email-Raises : (email : Text) → Raises may (resend_invite_email email)
  unfolding resend_invite_email
  resend_invite_email-Raises email = send_invite_email-Raises email
