-- ===== src/Users/Errors.antt =====
-- Which exceptions the services of users_service.py raise.
pub mod Arrivals
use prompt_patrol.Common.{
  Bool, true, false, Option, none, some, List, [], ◌∷◌, ◌≡◌, refl, arith, Text,
}
use prompt_patrol.Models.{User, Uuid, UserRole, UserStatus}
use prompt_patrol.World.{
  Error, Exec, World, Result, ok, err, Done, permission_error, user_not_found, invalid_transition,
  invalid_supervisor, email_exists, auth0_provisioning, integrity_error, database_error, key_error,
  cannot_add, Refusal, do_commit, ◌>>=◌, rollback, raise,
}
use prompt_patrol.Transactions.Raises.{
  Raises, Within, raises_rules, Raises-bind, Raises-raise, Raises-pure, Raises-do_commit,
}
use prompt_patrol.Auth0.{delete_auth0_user}
use prompt_patrol.Auth0.Errors.{
  find_auth0_user_id_by_email-Raises, invite_user-Raises, delete_auth0_user-Raises,
  send_invite_email-Raises,
}
use prompt_patrol.Users.Access.{load_manageable, assert_may_manage, update_display_name}
use prompt_patrol.Users.Tables.{
  sign_out_unsupervised, revoke_sessions, end_links, cancel_unfinished_batches,
}
use prompt_patrol.Users.Lifecycle.{
  transition, deactivate_user, reactivate_user, resend_invite, remove_credential,
  removed_credential, purge_quietly, delete_user, swap_links, change_user_role,
}
use prompt_patrol.Users.Teams.{
  assert_supervisor_available, except_integrity, commit_link, link_unless, link, link_supervisor,
  end_supervision,
}
use prompt_patrol.Users.Provision.{
  replace_stale, place_row, link_new, undo_invite, commit_account, provision, check_supervisor,
  create_user, join_team, add_live, add_by_rows, add_teaching_assistant,
}

-- The failures that no route maps: the database's, and a reply of Auth0 that lacks a field.
abbrev pub is_fault : Error → Bool
is_fault integrity_error = true
is_fault database_error = true
is_fault key_error = true
is_fault _ = false

module _ (may : Error → Bool) (integrity : may integrity_error ≡ true)
    (database : may database_error ≡ true) where
  load_manageable-Raises : (i : Uuid) → may user_not_found ≡ true → Raises may (load_manageable i)
  unfolding load_manageable
  load_manageable-Raises i h = search (raises_rules) depth 8

  sign_out_unsupervised-Raises : (tas : List Uuid) → Raises may (sign_out_unsupervised tas)
  unfolding sign_out_unsupervised
  sign_out_unsupervised-Raises [] = Raises-pure tt
  sign_out_unsupervised-Raises (ta ∷ tas) = search (raises_rules) depth 8

  revoke_sessions-Raises : (i : Uuid) → Raises may (revoke_sessions i)
  unfolding revoke_sessions
  revoke_sessions-Raises i = search (raises_rules) depth 6

  end_links-Raises : (i a : Uuid) → Raises may (end_links i a)
  unfolding end_links
  end_links-Raises i a = search (raises_rules) depth 6

  cancel-Raises : (i : Uuid) → Raises may (cancel_unfinished_batches i)
  unfolding cancel_unfinished_batches
  cancel-Raises i = search (raises_rules) depth 6

  assert_may_manage-Raises :
      (actor target : User)
      → may permission_error ≡ true
      → Raises may (assert_may_manage actor target)
  unfolding assert_may_manage
  assert_may_manage-Raises actor target h = search (raises_rules) depth 10

  transition-Raises :
      (actor target : User) (to_status : UserStatus) (reason : Option Text)
      → may invalid_transition ≡ true
      → Raises may (transition actor target to_status reason)
  unfolding transition
  transition-Raises actor target to_status reason h =
      search
        (
          raises_rules, sign_out_unsupervised-Raises, revoke_sessions-Raises, end_links-Raises,
          cancel-Raises,
        )
        depth 24

  assert_supervisor-Raises :
      (i : Uuid) → may invalid_supervisor ≡ true → Raises may (assert_supervisor_available i)
  unfolding assert_supervisor_available
  assert_supervisor-Raises i h = search (raises_rules) depth 10

  commit_link-Raises : Raises may commit_link
  unfolding commit_link rollback
  commit_link-Raises = record {
    at = λ w. excepted (do_commit w) ((Raises-do_commit integrity database).at w);
  }
    where
      excepted : (x : Result Done × World) → Within may x → Within may (except_integrity x)
      excepted x h = ground (arith, h)

  link_unless-Raises : (b : Bool) (ta i a : Uuid) → Raises may (link_unless b ta i a)
  link_unless-Raises true ta i a = Raises-pure tt
  link_unless-Raises false ta i a = search (raises_rules, commit_link-Raises) depth 6

  link-Raises : (actor : User) (ta i : Uuid) → Raises may (link actor ta i)
  unfolding link
  link-Raises actor ta i = search (raises_rules, link_unless-Raises) depth 6

  swap_links-Raises : (actor : User) (i : Uuid) → Raises may (swap_links actor i)
  swap_links-Raises actor i =
      search (raises_rules, end_links-Raises, sign_out_unsupervised-Raises) depth 8

  pub update_display_name-Raises :
      (actor : User) (i : Uuid) (name : Text)
      → may user_not_found ≡ true
      → may invalid_transition ≡ true
      → Raises may (update_display_name actor i name)
  unfolding update_display_name
  update_display_name-Raises actor i name n t =
      search (raises_rules, load_manageable-Raises) depth 12

  pub end_supervision-Raises :
      (actor : User) (ta i : Uuid)
      → may user_not_found ≡ true
      → Raises may (end_supervision actor ta i)
  unfolding end_supervision
  end_supervision-Raises actor ta i n =
      search (raises_rules, load_manageable-Raises, sign_out_unsupervised-Raises) depth 18

  pub link_supervisor-Raises :
      (actor : User) (ta i : Uuid)
      → may permission_error ≡ true
      → may user_not_found ≡ true
      → may invalid_supervisor ≡ true
      → may invalid_transition ≡ true
      → Raises may (link_supervisor actor ta i)
  unfolding link_supervisor
  link_supervisor-Raises actor ta i p n s t =
      search (raises_rules, load_manageable-Raises, assert_supervisor-Raises, link-Raises) depth 16

  pub change_user_role-Raises :
      (actor : User) (i : Uuid) (role : UserRole)
      → may permission_error ≡ true
      → may user_not_found ≡ true
      → Raises may (change_user_role actor i role)
  unfolding change_user_role
  change_user_role-Raises actor i role p n =
      search (raises_rules, load_manageable-Raises, swap_links-Raises) depth 16

  module _ (p : may permission_error ≡ true) (n : may user_not_found ≡ true)
      (t : may invalid_transition ≡ true) where
    pub deactivate_user-Raises :
        (actor : User) (i : Uuid) (reason : Option Text)
        → Raises may (deactivate_user actor i reason)
    unfolding deactivate_user
    deactivate_user-Raises actor i reason =
        search (raises_rules, load_manageable-Raises, assert_may_manage-Raises, transition-Raises)
          depth 10

    pub reactivate_user-Raises :
        (actor : User) (i : Uuid) (reason : Option Text)
        → Raises may (reactivate_user actor i reason)
    unfolding reactivate_user
    reactivate_user-Raises actor i reason =
        search (raises_rules, load_manageable-Raises, assert_may_manage-Raises, transition-Raises)
          depth 10

    module _ (k : may key_error ≡ true) where
      removed_credential-Raises : (u : User) (b : Bool) → Raises may (removed_credential u b)
      removed_credential-Raises u false = Raises-pure u
      removed_credential-Raises u true = search (raises_rules) depth 6

      remove_credential-Raises :
          (u : User) (sub : Option Text) → Raises may (remove_credential u sub)
      unfolding remove_credential
      remove_credential-Raises u none = Raises-pure u
      remove_credential-Raises u (some sub) =
          Raises-bind (delete_auth0_user-Raises may sub k) (removed_credential-Raises u)

      purge_quietly-Raises : (bs : List Uuid) → Raises may (purge_quietly bs)
      unfolding purge_quietly
      purge_quietly-Raises [] = record { at = λ w. tt }
      purge_quietly-Raises (b ∷ bs) = record { at = λ w. tt }

      pub delete_user-Raises :
          (actor : User) (i : Uuid) (reason : Option Text) → Raises may (delete_user actor i reason)
      unfolding delete_user
      delete_user-Raises actor i reason =
          search
            (
              raises_rules, load_manageable-Raises, transition-Raises, remove_credential-Raises,
              purge_quietly-Raises,
            )
            depth 16
