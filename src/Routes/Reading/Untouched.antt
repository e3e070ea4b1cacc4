-- ===== src/Routes/Reading/Untouched.antt =====
-- A reading endpoint leaves every committed table but the sessions as it is.
use prompt_patrol.Common.{ℕ, Bool, Option, none, some, List, Text, Bool-cases, inl, inr}
use prompt_patrol.Models.{Db, Uuid, User, UserRole, UserStatus, teaching_assistant, instructor}
use prompt_patrol.World.{World, Result, ok, err, ◌>>=◌, gets}
use prompt_patrol.Transactions.{Keeps, Post, keeps_rules, Keeps-gets, Keeps-raise}
use prompt_patrol.Sessions.{ActiveSession}
use prompt_patrol.Routes.SignIn.{
  Gate, pass, unauthorized, forbidden, get_current_session, require_role,
}
use prompt_patrol.Routes.Replies.{Reply, behind}
use prompt_patrol.Cursors.{decode_cursor}
use prompt_patrol.Routes.Reading.{
  page_reply, users_reply, found_reply, show_checks, with_cursor, with_decoded, limit_is_invalid,
  show_users, users_by_cursor, users_by_decoded, given_statuses, me_reply, me, list_checks_route,
  get_check_route, get_batch_progress_route, get_user_route, get_current_user_profile,
  list_all_users,
}
use prompt_patrol.Checks.{Filters, list_checks, get_check_by_id}
use prompt_patrol.Batches.Service.{get_batch_progress}
use prompt_patrol.Users.Access.{get_user_by_id}
use prompt_patrol.Users.Roster.{list_users}
use prompt_patrol.Routes.Reading.Gates.{SameTables, session_of-Same, require_role-Same}

module _ (base : Db) where
  abbrev Same : Db → Type 0
  Same db = SameTables base db

  -- An endpoint behind a gate, where what runs for the user commits nothing else.
  behind-Same :
      {A : Type 0} (f : User → World → Reply A × World)
      → ((u : User) (w : World) → Same w.db → Same w.saved → Same (f u w).1.saved)
      → (x : Result (Gate User) × World) → Post Same (λ _. Same) x
      → Same (behind f x).1.saved
  behind-Same f k (ok (pass user), w) p = k user w p.0 p.1
  behind-Same f k (ok (unauthorized why), w) p = p.1
  behind-Same f k (ok forbidden, w) p = p.1
  behind-Same f k (err e, w) p = p

  Post-saved : {A : Type 0} (x : Result A × World) → Post Same (λ _. Same) x → Same x.1.saved
  Post-saved (ok a, w) p = p.1
  Post-saved (err e, w) p = p

  page_reply-Same :
      {A : Type 0} (x : Result (List A × Option Uuid) × World)
      → Same x.1.saved
      → Same (page_reply x).1.saved
  page_reply-Same (ok a, w) p = p
  page_reply-Same (err e, w) p = p

  users_reply-Same :
      (x : Result (List User × Option Uuid) × World) → Same x.1.saved → Same (users_reply x).1.saved
  users_reply-Same (ok a, w) p = p
  users_reply-Same (err e, w) p = p

  found_reply-Same :
      {A : Type 0} (x : Result (Option A) × World) → Same x.1.saved → Same (found_reply x).1.saved
  found_reply-Same (ok none, w) p = p
  found_reply-Same (ok (some a), w) p = p
  found_reply-Same (err e, w) p = p

  list_checks-Same :
      (user : User) (f : Filters) (limit : ℕ) (cursor : Option Uuid)
      → Keeps Same Same (list_checks user f limit cursor)
  unfolding list_checks
  list_checks-Same user f limit none = Keeps-gets _
  list_checks-Same user f limit (some i) = search (keeps_rules) depth 6

  list_users-Same :
      (user : User) (role : Option UserRole) (statuses : Option (List UserStatus)) (limit : ℕ)
      (cursor : Option Uuid)
      → Keeps Same Same (list_users user role statuses limit cursor)
  unfolding list_users
  list_users-Same user role statuses limit cursor = search (keeps_rules) depth 6

  show_checks-Same :
      (limit : ℕ) (cursor : Option Text) (f : Filters) (u : User) (w : World)
      → Same w.db
      → Same w.saved
      → Same (show_checks limit cursor f u w).1.saved
  unfolding show_checks
  show_checks-Same limit cursor f u w p i = elim (Bool-cases (limit_is_invalid limit)) [
    | inl e ↦ rw e i
    | inr e ↦ rw e (page_reply-Same _ (Post-saved _ ((with_cursor-Same cursor).at w p i)))
  ]
    where
      decoded : (o : Option Uuid) → Keeps Same Same (with_decoded (list_checks u f limit) o)
      decoded none = Keeps-raise _
      decoded (some i) = list_checks-Same u f limit (some i)

      with_cursor-Same :
          (cursor : Option Text) → Keeps Same Same (with_cursor cursor (list_checks u f limit))
      with_cursor-Same none = list_checks-Same u f limit none
      with_cursor-Same (some c) = decoded (decode_cursor c)

  show_users-Same :
      (role : Option UserRole) (statuses : List UserStatus) (limit : ℕ) (cursor : Option Text)
      (u : User) (w : World)
      → Same w.db
      → Same w.saved
      → Same (show_users role statuses limit cursor u w).1.saved
  unfolding show_users
  show_users-Same role statuses limit cursor u w p i = elim (Bool-cases (limit_is_invalid limit)) [
    | inl e ↦ rw e i
    | inr e ↦ rw e (users_reply-Same _ (Post-saved _ ((by_cursor cursor).at w p i)))
  ]
    where
      decoded :
          (o : Option Uuid)
          → Keeps Same Same (users_by_decoded u role (given_statuses statuses) limit o)
      decoded none = search (keeps_rules) depth 4
      decoded (some i) = list_users-Same u role (given_statuses statuses) limit (some i)

      by_cursor :
          (cursor : Option Text)
          → Keeps Same Same (users_by_cursor u role (given_statuses statuses) limit cursor)
      by_cursor none = list_users-Same u role (given_statuses statuses) limit none
      by_cursor (some c) = decoded (decode_cursor c)

  me_reply-Same :
      (x : Result (Gate ActiveSession) × World)
      → Post Same (λ _. Same) x
      → Same (me_reply x).1.saved
  unfolding ◌>>=◌
  me_reply-Same (ok (pass s), w) p = p.1
  me_reply-Same (ok (unauthorized why), w) p = p.1
  me_reply-Same (ok forbidden, w) p = p.1
  me_reply-Same (err e, w) p = p

-- Of a request whose session starts from what is committed, each endpoint that only reads.
module _ (base : Db) (w : World) (p : SameTables base w.db) (i : SameTables base w.saved)
    (cookie : Option Text) where
  behind_role :
      {A : Type 0} (role : UserRole) (f : User → World → Reply A × World)
      → ((u : User) (w' : World)
          → Same base w'.db
          → Same base w'.saved
          → Same base (f u w').1.saved)
      → Same base (behind f (require_role role cookie w)).1.saved
  behind_role role f k = behind-Same base f k _ ((require_role-Same base role cookie).at w p i)

  pub list_checks_route-Same :
      (limit : ℕ) (cursor : Option Text) (f : Filters)
      → Same base (list_checks_route limit cursor f cookie w).1.saved
  unfolding list_checks_route
  list_checks_route-Same limit cursor f =
      behind_role teaching_assistant _ (show_checks-Same base limit cursor f)

  pub get_check_route-Same : (c : Uuid) → Same base (get_check_route c cookie w).1.saved
  unfolding get_check_route get_check_by_id gets
  get_check_route-Same c =
      behind_role teaching_assistant _ λ u w' q j. found_reply-Same base (get_check_by_id u c w') j

  pub get_batch_progress_route-Same :
      (b : Uuid) → Same base (get_batch_progress_route b cookie w).1.saved
  unfolding get_batch_progress_route get_batch_progress gets
  get_batch_progress_route-Same b =
      behind_role teaching_assistant _
        λ u w' q j. found_reply-Same base (get_batch_progress u b w') j

  pub get_user_route-Same : (a : Uuid) → Same base (get_user_route a cookie w).1.saved
  unfolding get_user_route get_user_by_id gets
  get_user_route-Same a =
      behind_role teaching_assistant _ λ u w' q j. found_reply-Same base (get_user_by_id u a w') j

  pub get_current_user_profile-Same : Same base (get_current_user_profile cookie w).1.saved
  unfolding get_current_user_profile
  get_current_user_profile-Same = behind_role teaching_assistant _ λ u w' q j. j

  pub list_all_users-Same :
      (role : Option UserRole) (statuses : List UserStatus) (limit : ℕ) (cursor : Option Text)
      → Same base (list_all_users role statuses limit cursor cookie w).1.saved
  unfolding list_all_users
  list_all_users-Same role statuses limit cursor =
      behind_role instructor _ (show_users-Same base role statuses limit cursor)

  pub me-Same : (probe : Bool) → Same base (me probe cookie w).1.saved
  unfolding me get_current_session
  me-Same probe = me_reply-Same base _ ((session_of-Same base probe cookie).at w p i)
