-- ===== src/Users/Errors/Arrivals.antt =====
-- Which exceptions the services that create accounts raise (users_service.py).
use prompt_patrol.Common.{Bool, true, Option, none, some, List, [], ◌∷◌, ◌≡◌, Text, find}
use prompt_patrol.Models.{User, Uuid, UserRole}
use prompt_patrol.World.{
  Error, World, Result, ok, err, Done, permission_error, user_not_found, invalid_transition,
  invalid_supervisor, email_exists, auth0_provisioning, integrity_error, database_error, key_error,
  cannot_add, Refusal, only_deleted, do_commit, ◌>>◌, rollback, raise,
}
use prompt_patrol.Transactions.Raises.{
  Raises, Within, raises_rules, Raises-bind, Raises-raise, Raises-pure, Raises-raise_if,
  Raises-gets,
}
use prompt_patrol.Auth0.{delete_auth0_user}
use prompt_patrol.Auth0.Errors.{
  find_auth0_user_id_by_email-Raises, invite_user-Raises, delete_auth0_user-Raises,
  resend_invite_email-Raises,
}
use prompt_patrol.Users.Lifecycle.{resend_invite}
use prompt_patrol.Users.Provision.{
  replace_stale, place_row, link_new, undo_invite, commit_account, provision, check_supervisor,
  create_user, join_team, add_live, add_by_rows, add_teaching_assistant, refusal_of, is_undeleted,
}
use prompt_patrol.Users.Errors.{
  load_manageable-Raises, assert_may_manage-Raises, assert_supervisor-Raises, link-Raises,
}

module _ (may : Error → Bool) (integrity : may integrity_error ≡ true)
    (database : may database_error ≡ true) (key : may key_error ≡ true)
    (auth0 : may auth0_provisioning ≡ true) where
  pub resend_invite-Raises :
      (actor : User) (i : Uuid)
      → may permission_error ≡ true
      → may user_not_found ≡ true
      → may invalid_transition ≡ true
      → Raises may (resend_invite actor i)
  unfolding resend_invite
  resend_invite-Raises actor i p n t =
      search
        (
          raises_rules,
          load_manageable-Raises may integrity database,
          assert_may_manage-Raises may integrity database,
          resend_invite_email-Raises may auth0 key,
        )
        depth 14

  replace_stale-Raises : (o : Option Text) → Raises may (replace_stale o)
  replace_stale-Raises none = Raises-pure tt
  replace_stale-Raises (some stale) =
      search (raises_rules, delete_auth0_user-Raises may stale key) depth 6

  place_row-Raises :
      (actor : User) (email : Text) (role : UserRole) (sub : Text) (o : Option User)
      → Raises may (place_row actor email role sub o)
  place_row-Raises actor email role sub none = search (raises_rules) depth 10
  place_row-Raises actor email role sub (some old) = search (raises_rules) depth 10

  link_new-Raises : (actor : User) (i : Uuid) (o : Option Uuid) → Raises may (link_new actor i o)
  link_new-Raises actor i none = Raises-pure tt
  link_new-Raises actor i (some s) = search (raises_rules) depth 6

  committed-Raises :
      (actor : User) (i : Uuid) (o : Option Uuid) → Raises may (do link_new actor i o; do_commit)
  committed-Raises actor i o = search (raises_rules, link_new-Raises) depth 6

  undone-Raises :
      (sub : Text) (e : Error)
      → may e ≡ true
      → Raises {A = User} may (do rollback; delete_auth0_user sub; raise e)
  unfolding rollback
  undone-Raises sub e h =
      Raises-bind rolled
        (λ _. Raises-bind (delete_auth0_user-Raises may sub key) (λ _. Raises-raise e h))
    where
      rolled : Raises may rollback
      rolled = record { at = λ w. tt }

  undo_invite-Within :
      (sub : Text) (u : User) (x : Result Done × World)
      → Within may x
      → Within may (undo_invite sub u x)
  undo_invite-Within sub u (ok _, w) h = tt
  undo_invite-Within sub u (err e, w) h = (undone-Raises sub e h).at w

  commit_account-Raises :
      (actor : User) (sub : Text) (u : User) (o : Option Uuid)
      → Raises may (commit_account actor sub u o)
  unfolding commit_account
  commit_account-Raises actor sub u o = record {
    at = λ w. undo_invite-Within sub u _ ((committed-Raises actor u.id o).at w);
  }

  provision-Raises :
      (actor : User) (email : Text) (role : UserRole) (old : Option User) (s : Option Uuid)
      → Raises may (provision actor email role old s)
  unfolding provision
  provision-Raises actor email role old s =
      search
        (
          raises_rules,
          find_auth0_user_id_by_email-Raises may auth0 key,
          replace_stale-Raises,
          invite_user-Raises may auth0 key,
          place_row-Raises,
          commit_account-Raises,
        )
        depth 14

  check_supervisor-Raises :
      (role : UserRole) (s : Option Uuid)
      → may invalid_supervisor ≡ true
      → Raises may (check_supervisor role s)
  check_supervisor-Raises role none i = Raises-pure tt
  check_supervisor-Raises role (some s) i =
      search (raises_rules, assert_supervisor-Raises may integrity database) depth 6

  pub create_user-Raises :
      (actor : User) (email : Text) (role : UserRole) (s : Option Uuid)
      → may permission_error ≡ true
      → may invalid_supervisor ≡ true
      → may email_exists ≡ true
      → Raises may (create_user actor email role s)
  unfolding create_user
  create_user-Raises actor email role s p i e =
      search (raises_rules, check_supervisor-Raises, provision-Raises) depth 16

  join_team-Raises :
      (actor live : User) (o : Option Refusal)
      → ((why : Refusal) → may (cannot_add why) ≡ true)
      → Raises may (join_team actor live o)
  join_team-Raises actor live none c =
      search (raises_rules, link-Raises may integrity database) depth 6
  join_team-Raises actor live (some why) c = Raises-raise (cannot_add why) (c why)

  add_live-Raises :
      (actor : User) (o : Option User)
      → ((why : Refusal) → may (cannot_add why) ≡ true)
      → Raises may (add_live actor o)
  add_live-Raises actor none c = Raises-raise (cannot_add only_deleted) (c only_deleted)
  add_live-Raises actor (some live) c = join_team-Raises actor live (refusal_of live) c

  add_by_rows-Raises :
      (actor : User) (email : Text) (us : List User)
      → ((why : Refusal) → may (cannot_add why) ≡ true)
      → Raises may (add_by_rows actor email us)
  add_by_rows-Raises actor email [] c = provision-Raises actor email _ none (some actor.id)
  add_by_rows-Raises actor email (u ∷ us) c = add_live-Raises actor (find is_undeleted (u ∷ us)) c

  pub add_teaching_assistant-Raises :
      (actor : User) (email : Text)
      → may permission_error ≡ true
      → ((why : Refusal) → may (cannot_add why) ≡ true)
      → Raises may (add_teaching_assistant actor email)
  unfolding add_teaching_assistant
  add_teaching_assistant-Raises actor email p c =
      Raises-bind (Raises-raise_if _ permission_error p)
        (λ _. Raises-bind (Raises-gets _) (λ rows. add_by_rows-Raises actor _ rows c))
