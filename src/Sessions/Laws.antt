-- ===== src/Sessions/Laws.antt =====
-- What `authenticate_session` accepts and writes (apps/api/app/services/sessions.py).
use prompt_patrol.Common.{
  ◌+◌, ◌≤◌, ◌<◌, ◌≡◌, refl, Bool, false, Option, none, some, Text, inl, inr, arith, find,
  Option-cases, List, [], ◌∷◌, map, update_where, ◌==◌,
}
use prompt_patrol.Models.{UserSession, active, Time}
use prompt_patrol.World.{do_commit, World, ok}
use prompt_patrol.Users.Access.{has_id}
use prompt_patrol.Sessions.{
  ActiveSession, signed_in, has_hash, session_idle_ttl, authenticate_session,
}

-- The instant at which the call reads the clock.
abbrev pub instant : World → Time
instant w = w.outside.time w.calls

abbrev pub stored : Text → World → Option UserSession
stored raw_token w = find (has_hash (w.outside.sha256 raw_token)) w.db.sessions

-- What a session must be for a request to be let in with it, and what it is told of its end.
pub record Admits (w : World) (s : UserSession) (a : ActiveSession) : Type 0 where
  pub unrevoked : s.deleted_at ≡ none
  pub holder : find (has_id s.user_id) w.db.users ≡ some a.user
  pub active_user : a.user.status ≡ active
  pub before_absolute : instant w < s.absolute_expires_at
  pub before_idle : instant w < s.last_active_at + session_idle_ttl
  pub still_good : instant w < a.expires_at
  pub capped_by : a.expires_at ≤ s.absolute_expires_at

-- A request is let in only with a stored session that is not revoked, whose user is active, and
-- which is before both of its deadlines; the end that it is told lies ahead and not past the
-- absolute deadline.
pub authenticate-Admits :
    (raw_token : Text) (touch : Bool) (w : World) {w' : World} {a : ActiveSession}
    → authenticate_session raw_token touch w ≡ (ok (signed_in a), w')
    → (s : UserSession) × (stored raw_token w ≡ some s) × Admits w s a
unfolding authenticate_session do_commit
authenticate-Admits raw_token touch w {w'} {a} h = elim (Option-cases (stored raw_token w)) [
  | inl e ↦ ground arith
  | inr (s, e) ↦ elim (Option-cases (find (has_id s.user_id) w.db.users)) [
    | inl n ↦ ground arith
    | inr (u, f) ↦ (s, e, ground arith)
  ]
]

-- A probe (`touch=False`) writes nothing, whatever it answers.
pub probe_writes_nothing :
    (raw_token : Text) (w : World)
    → let w' = (authenticate_session raw_token false w).1 in (w'.db ≡ w.db) × (w'.saved ≡ w.saved)
unfolding authenticate_session do_commit
probe_writes_nothing raw_token w = elim (Option-cases (stored raw_token w)) [
  | inl e ↦ ground arith
  | inr (s, e) ↦ elim (Option-cases (find (has_id s.user_id) w.db.users)) [
    | inl n ↦ ground arith
    | inr (u, f) ↦ ground arith
  ]
]

abbrev pub deadlines : List UserSession → List Time
deadlines = map (λ s. s.absolute_expires_at)

deadlines-update_where :
    (p : UserSession → Bool) (f : UserSession → UserSession)
    → ((s : UserSession) → (f s).absolute_expires_at ≡ s.absolute_expires_at)
    → (ss : List UserSession) → deadlines (update_where p f ss) ≡ deadlines ss
unfolding update_where
deadlines-update_where p f same [] = refl
deadlines-update_where p f same (s ∷ ss) =
    ground (arith, same s, deadlines-update_where p f same ss)

-- Authenticating, whether it counts as activity or not, moves no session's absolute deadline.
pub authenticate-keeps-deadlines :
    (raw_token : Text) (touch : Bool) (w : World)
    → deadlines (authenticate_session raw_token touch w).1.db.sessions ≡ deadlines w.db.sessions
unfolding authenticate_session do_commit
authenticate-keeps-deadlines raw_token touch w = elim (Option-cases (stored raw_token w)) [
  | inl e ↦ ground arith
  | inr (s, e) ↦ elim (Option-cases (find (has_id s.user_id) w.db.users)) [
    | inl n ↦ ground arith
    | inr (u, f) ↦ ground (
      arith,
      deadlines-update_where (λ (r : UserSession). r.id == s.id)
          (λ (r : UserSession). record r { last_active_at = instant w }) (λ (r : UserSession). refl)
          w.db.sessions,
    )
  ]
]
