-- ===== src/Sessions.antt =====
-- apps/api/app/services/sessions.py and auth/session_state.py: login sessions.
-- Times are microseconds. `_as_utc` has nothing to do: every modelled time is in UTC.
pub mod Laws
pub mod Purge
use prompt_patrol.Common.{
  ℕ, zero, suc, ◌+◌, ◌-◌, ◌*◌, min, Bool, true, false, Option, none, some, List, [], ◌∷◌, ◌++◌,
  Text, text_eq, ◌==◌, ltb, leb, ◌&&◌, not, find, select, update_where, length, if◌then◌else◌,
}
use prompt_patrol.Models.{Db, Uuid, Time, User, active, status_eq, UserSession, is_none}
use prompt_patrol.World.{
  Exec, World, Result, ok, err, pure, gets, modify, ask, ◌>>=◌, ◌>>◌, Done, clock, new_id,
  do_commit, token_urlsafe,
}
use prompt_patrol.Users.Access.{has_id}
use prompt_patrol.Users.Tables.{is_live, sessions_revoked}

abbrev pub second : Time
second = 1000000

abbrev pub session_absolute_ttl : Time
session_absolute_ttl = 4 * 3600 * second

abbrev pub session_idle_ttl : Time
session_idle_ttl = 30 * 60 * second

abbrev pub session_activity_resolution : Time
session_activity_resolution = 60 * second

abbrev pub session_retention : Time
session_retention = 30 * 86400 * second

pub data SessionFailure : Type 0 where
  not_signed_in session_unknown session_revoked session_expired : SessionFailure
  session_ended account_deactivated : SessionFailure

pub record ActiveSession : Type 0 where
  pub user : User
  pub expires_at : Time
  pub idle_expires_at : Time
  pub absolute_expires_at : Time

-- `ActiveSession.capped`
unfoldable pub capped : ActiveSession → Bool
capped s = leb s.absolute_expires_at s.idle_expires_at

pub data Outcome : Type 0 where
  signed_in : ActiveSession → Outcome
  failed : SessionFailure → Outcome

abbrev pub has_hash : Text → UserSession → Bool
has_hash h s = text_eq s.token_hash h

abbrev pub is_past_retention : Time → UserSession → Bool
is_past_retention now s = ltb s.absolute_expires_at (now - session_retention)

abbrev pub new_session : Uuid → Text → Uuid → Time → UserSession
new_session i h user_id now = record {
  id = i;
  token_hash = h;
  user_id = user_id;
  created_at = now;
  last_active_at = now;
  absolute_expires_at = now + session_absolute_ttl;
  deleted_at = none;
}

abbrev pub session_added : UserSession → Db → Db
session_added s db = record db { sessions = db.sessions ++ s ∷ [] }

abbrev pub old_purged : Time → Uuid → Db → Db
old_purged now user_id db = record db {
  sessions = select (λ s. not (s.user_id == user_id && is_past_retention now s)) db.sessions;
}

unfoldable pub create_session : Uuid → Exec Text
create_session user_id = do
  raw_token ← ask token_urlsafe (λ o. o.secret)
  now ← clock
  i ← new_id
  h ← gets (λ w. w.outside.sha256 raw_token)
  modify (session_added (new_session i h user_id now))
  modify (old_purged now user_id)
  do_commit
  pure raw_token

-- `DELETE ... WHERE id IN (SELECT id ... LIMIT n)`: the rows left, and how many went.
unfoldable pub delete_limited : ℕ → (UserSession → Bool) → List UserSession → List UserSession
delete_limited zero p ss = ss
delete_limited (suc n) p [] = []
delete_limited (suc n) p (s ∷ ss) =
    let kept = delete_limited (suc n) p ss in
    let gone = delete_limited n p ss in if p s then gone else s ∷ kept

-- One round of `purge_expired_sessions`, with its commit.
unfoldable pub purge_round : Time → ℕ → Exec ℕ
unfolding delete_limited
purge_round cutoff batch_size = do
  before ← gets (λ w. length w.db.sessions)
  modify λ db. record db {
    sessions = delete_limited batch_size (λ s. ltb s.absolute_expires_at cutoff) db.sessions;
  }
  after ← gets (λ w. length w.db.sessions)
  do_commit
  pure (before - after)

-- `if result.rowcount == 0: return total`, and `total += result.rowcount`
abbrev pub next_round : (ℕ → Exec (Option ℕ)) → ℕ → ℕ → Exec (Option ℕ)
next_round rest total zero = pure (some total)
next_round rest total (suc k) = rest (total + suc k)

-- The loop of `purge_expired_sessions` on fuel; `none` means that the fuel ran out.
unfoldable pub purge_rounds : ℕ → Time → ℕ → ℕ → Exec (Option ℕ)
unfolding purge_round
purge_rounds zero cutoff batch_size total = pure none
purge_rounds (suc fuel) cutoff batch_size total = do
  rowcount ← purge_round cutoff batch_size
  next_round (purge_rounds fuel cutoff batch_size) total rowcount

-- Every round but the last deletes a row, so one more round than there are rows is enough.
unfoldable pub purge_expired_sessions : ℕ → Exec (Option ℕ)
unfolding purge_rounds
purge_expired_sessions batch_size = do
  now ← clock
  fuel ← gets (λ w. suc (length w.db.sessions))
  purge_rounds fuel (now - session_retention) batch_size 0

abbrev pub touched : Uuid → Time → Db → Db
touched i now db = record db {
  sessions = update_where (λ s. s.id == i) (λ s. record s { last_active_at = now }) db.sessions;
}

abbrev pub activity : User → Time → Time → ActiveSession
activity user absolute idle = record {
  user = user;
  expires_at = min absolute idle;
  idle_expires_at = idle;
  absolute_expires_at = absolute;
}

-- The refusals of `authenticate_session`, in its order.
unfoldable pub refusal : Time → UserSession → User → Option SessionFailure
refusal now s u =
    if not (status_eq u.status active)
    then some account_deactivated
    else if not (is_live s)
    then some session_revoked
    else if leb s.absolute_expires_at now
    then some session_ended
    else if leb (s.last_active_at + session_idle_ttl) now
    then some session_expired
    else none

-- A live session: its activity is recorded at most once a minute.
abbrev pub slide : Bool → Time → UserSession → User → Exec Outcome
slide false now s u =
    pure (signed_in (activity u s.absolute_expires_at (s.last_active_at + session_idle_ttl)))
slide true now s u = do
  modify (touched s.id now)
  do_commit
  pure (signed_in (activity u s.absolute_expires_at (now + session_idle_ttl)))

abbrev pub admit : Bool → Time → UserSession → User → Option SessionFailure → Exec Outcome
admit touch now s u (some why) = pure (failed why)
admit touch now s u none =
    slide (touch && leb session_activity_resolution (now - s.last_active_at)) now s u

abbrev pub judge : Bool → Time → UserSession → Option User → Exec Outcome
judge touch now s none = pure (failed session_unknown)
judge touch now s (some u) = admit touch now s u (refusal now s u)

abbrev pub judge_row : Bool → Time → Option UserSession → Exec Outcome
judge_row touch now none = pure (failed session_unknown)
judge_row touch now (some s) = do
  u ← gets (λ w. find (has_id s.user_id) w.db.users)
  judge touch now s u

unfoldable pub authenticate_session : Text → Bool → Exec Outcome
unfolding refusal
authenticate_session raw_token touch = do
  h ← gets (λ w. w.outside.sha256 raw_token)
  now ← clock
  row ← gets (λ w. find (has_hash h) w.db.sessions)
  judge_row touch now row

unfoldable pub revoke_all_for_user : Uuid → Exec ℕ
revoke_all_for_user user_id = do
  now ← clock
  ended ← gets (λ w. length (select (λ s. s.user_id == user_id && is_live s) w.db.sessions))
  modify (sessions_revoked now user_id)
  do_commit
  pure ended

abbrev pub sign_out_user : Option User → Exec (Option User)
sign_out_user none = pure none
sign_out_user (some u) = do revoke_all_for_user u.id; pure (some u)

abbrev pub holder : Db → Option UserSession → Option User
holder db none = none
holder db (some s) = find (has_id s.user_id) db.users

unfoldable pub sign_out_everywhere : Text → Exec (Option User)
unfolding revoke_all_for_user
sign_out_everywhere raw_token = do
  h ← gets (λ w. w.outside.sha256 raw_token)
  u ← gets (λ w. holder w.db (find (λ s. has_hash h s && is_live s) w.db.sessions))
  sign_out_user u
