-- ===== src/Invariants/LiveSessions.antt =====
-- A session that is not revoked belongs to an active account. Each statement of users_service.py
-- and sessions.py on the tables, and what it does to that.
pub mod Services
pub mod Accounts
pub mod Arrivals
pub mod Visits
pub mod Requests
use prompt_patrol.Common.{
  ℕ, ◌≡◌, ◌≢◌, refl, Bool, true, false, Option, none, some, List, [], ◌∷◌, ◌++◌, ◌==◌, ◌&&◌, arith,
  All, All-map, All-update_where, All-append, All-select, any, any-update_where, any-append,
  update_where, select, Bool-cases, inl, inr,
}
use prompt_patrol.Models.{
  Db, User, UserSession, UserStatus, active, deactivated, deleted, status_eq, Uuid, Time,
}
use prompt_patrol.Users.Access.{has_id}
use prompt_patrol.Users.Tables.{is_live, is_active_user, end_session, sessions_revoked}
use prompt_patrol.Users.Lifecycle.{status_set}

abbrev pub IsCovered : Db → UserSession → Type 0
IsCovered db s = is_live s ≡ true → is_active_user db s.user_id ≡ true

abbrev pub LiveSessionsActive : Db → Type 0
LiveSessionsActive db = All (IsCovered db) db.sessions

-- While the sessions of one user wait to be revoked.
abbrev pub ActiveBut : Uuid → Db → Type 0
ActiveBut i db = All (λ s. (s.user_id == i) ≡ false → IsCovered db s) db.sessions

-- Ending sessions keeps it, whichever they are.
pub ending-LiveSessionsActive :
    (p : UserSession → Bool) (now : Time) (db : Db)
    → LiveSessionsActive db
    → LiveSessionsActive (record db { sessions = update_where p (end_session now) db.sessions })
ending-LiveSessionsActive p now db h =
    All-update_where (IsCovered db) (IsCovered db) p (end_session now) (λ s t k l. cc) (λ s t k. k)
      db.sessions h

-- So does any change of the accounts that leaves the active ones active.
pub users-LiveSessionsActive :
    (users : List User) (db : Db)
    → ((i : Uuid)
        → is_active_user db i ≡ true
        → any (λ u. u.id == i && status_eq u.status active) users ≡ true)
    → LiveSessionsActive db
    → LiveSessionsActive (record db { users = users })
users-LiveSessionsActive users db f h =
    All-map (IsCovered db) (IsCovered (record db { users = users })) (λ s k l. f s.user_id (k l))
      db.sessions h

-- A new status covers what it does not name.
pub status_set-ActiveBut :
    (i : Uuid) (to_status : UserStatus) (db : Db)
    → LiveSessionsActive db
    → ActiveBut i (status_set i to_status db)
status_set-ActiveBut i to_status db h =
    All-map (IsCovered db) (λ s. (s.user_id == i) ≡ false → IsCovered (status_set i to_status db) s)
      (λ s k other live.
        any-update_where (λ u. u.id == s.user_id && status_eq u.status active) (has_id i)
          (λ u. record u { status = to_status }) (λ u a b. ground arith) db.users (k live))
      db.sessions h

pub reactivated-LiveSessionsActive :
    (i : Uuid) (db : Db) → LiveSessionsActive db → LiveSessionsActive (status_set i active db)
reactivated-LiveSessionsActive i db h =
    users-LiveSessionsActive (status_set i active db).users db
      (λ j.
        any-update_where (λ u. u.id == j && status_eq u.status active) (has_id i)
          (λ u. record u { status = active }) (λ u a b. ground arith) db.users)
      h

pub revoked-LiveSessionsActive :
    (now : Time) (i : Uuid) (db : Db)
    → ActiveBut i db
    → LiveSessionsActive (sessions_revoked now i db)
unfolding sessions_revoked
revoked-LiveSessionsActive now i db h =
    All-update_where (λ s. (s.user_id == i) ≡ false → IsCovered db s) (IsCovered db)
      (λ s. s.user_id == i && is_live s) (end_session now) (λ s t k l. cc)
      (λ s t k l. k (ground arith) l) db.sessions h
