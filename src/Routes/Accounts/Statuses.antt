-- ===== src/Routes/Accounts/Statuses.antt =====
-- Which exceptions leave the endpoints of routes/users_routes.py unhandled.
use prompt_patrol.Common.{ℕ, Bool, true, Option, none, some, ◌≡◌, refl, ◌||◌, not, Text}
use prompt_patrol.Models.{User, is_none}
use prompt_patrol.World.{World, Result, ok, err, Error}
use prompt_patrol.Transactions.Raises.{Raises, Within}
use prompt_patrol.Users.Errors.{
  is_fault, update_display_name-Raises, end_supervision-Raises, link_supervisor-Raises,
  change_user_role-Raises, deactivate_user-Raises, reactivate_user-Raises, delete_user-Raises,
}
use prompt_patrol.Users.Errors.Arrivals.{
  resend_invite-Raises, create_user-Raises, add_teaching_assistant-Raises,
}
use prompt_patrol.Routes.Accounts.{
  Endpoint, update_user, provision_user, add_assistant, change_role, add_supervisor,
  remove_supervisor, deactivate, reactivate, delete, resend, serve_endpoint, status_of, Answer,
  success, refused, unhandled, mapped_status, answer_of, gated, respond, min_role,
}
use prompt_patrol.Routes.SignIn.{Gate, pass, unauthorized, forbidden, require_role}
use prompt_patrol.Routes.SignIn.Errors.{require_role-Raises}

-- What an endpoint handles, or need not.
abbrev may_raise : Endpoint → Error → Bool
may_raise r e = not (is_none (status_of r e)) || is_fault e

serve_endpoint-Raises :
    (r : Endpoint) (actor : User) → Raises (may_raise r) (serve_endpoint r actor)
serve_endpoint-Raises (update_user i name) actor =
    update_display_name-Raises _ refl refl actor i name refl refl
serve_endpoint-Raises (provision_user email role s) actor =
    create_user-Raises _ refl refl refl refl actor email role s refl refl refl
serve_endpoint-Raises (add_assistant email) actor =
    add_teaching_assistant-Raises _ refl refl refl refl actor email refl (λ why. refl)
serve_endpoint-Raises (change_role i role) actor =
    change_user_role-Raises _ refl refl actor i role refl refl
serve_endpoint-Raises (add_supervisor ta i) actor =
    link_supervisor-Raises _ refl refl actor ta i refl refl refl refl
serve_endpoint-Raises (remove_supervisor ta i) actor =
    end_supervision-Raises _ refl refl actor ta i refl
serve_endpoint-Raises (deactivate i reason) actor =
    deactivate_user-Raises _ refl refl refl refl refl actor i reason
serve_endpoint-Raises (reactivate i reason) actor =
    reactivate_user-Raises _ refl refl refl refl refl actor i reason
serve_endpoint-Raises (delete i reason) actor =
    delete_user-Raises _ refl refl refl refl refl refl actor i reason
serve_endpoint-Raises (resend i) actor =
    resend_invite-Raises _ refl refl refl refl actor i refl refl refl

-- An answer is no 500, or one for a fault.
abbrev pub IsMapped : Answer → Type 0
IsMapped (success u) = Unit
IsMapped (refused status) = Unit
IsMapped (unhandled e) = is_fault e ≡ true

answer_of-IsMapped :
    (r : Endpoint) (x : Result User × World) → Within (may_raise r) x → IsMapped (answer_of r x).0
answer_of-IsMapped r (ok u, w) h = tt
answer_of-IsMapped r (err e, w) h = by_status e (status_of r e) h
  where
    by_status :
        (e : Error) (s : Option ℕ)
        → (not (is_none s) || is_fault e) ≡ true
        → IsMapped (mapped_status e s)
    by_status e none h = h
    by_status e (some status) h = tt

gated-IsMapped :
    (r : Endpoint) (x : Result (Gate User) × World) → Within is_fault x → IsMapped (gated r x).0
gated-IsMapped r (ok (pass actor), w) h =
    answer_of-IsMapped r (serve_endpoint r actor w) ((serve_endpoint-Raises r actor).at w)
gated-IsMapped r (ok (unauthorized why), w) h = tt
gated-IsMapped r (ok forbidden, w) h = tt
gated-IsMapped r (err e, w) h = h

-- No endpoint on accounts lets an exception through unhandled, so that it is answered with a 500,
-- but those of the database (a failed commit or a refused row) and of an Auth0 reply without a field
-- that the code reads.
pub respond-IsMapped :
    (r : Endpoint) (cookie : Option Text) (w : World) → IsMapped (respond r cookie w).0
unfolding respond
respond-IsMapped r cookie w =
    gated-IsMapped r (require_role (min_role r) cookie w)
      ((require_role-Raises is_fault refl refl (min_role r) cookie).at w)
