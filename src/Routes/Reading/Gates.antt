-- ===== src/Routes/Reading/Gates.antt =====
-- A session is resolved (auth/dependencies.py) without a change of another table.
use prompt_patrol.Common.{
  List, [], ◌∷◌, map, update_where, ◌==◌, refl, ap, sym, ◌∙◌, Bool-cases, inl, inr, Bool, true,
  false, Option, none, some, Text, ◌≡◌,
}
use prompt_patrol.Models.{Db, Uuid, Time, User, UserRole, UserSession}
use prompt_patrol.Transactions.{Keeps, keeps_rules, Keeps-pure, Keeps-modify, Keeps-do_commit}
use prompt_patrol.Sessions.{
  authenticate_session, slide, judge, admit, judge_row, refusal, SessionFailure, touched,
}
use prompt_patrol.Routes.SignIn.{session_of, get_current_session, require_role}

-- A session but for the time of its last activity.
abbrev pub unmoved : UserSession → UserSession
unmoved s = record s { last_active_at = 0 }

unmoved-touched :
    (i : Uuid) (now : Time) (ss : List UserSession)
    → map unmoved (update_where (λ s. s.id == i) (λ s. record s { last_active_at = now }) ss)
      ≡ map unmoved ss
unfolding update_where
unmoved-touched i now [] = refl
unmoved-touched i now (s ∷ ss) = elim (Bool-cases (s.id == i)) [
  | inl e ↦ rw e (ap (λ rest. unmoved s ∷ rest) (unmoved-touched i now ss))
  | inr e ↦ rw e (ap (λ rest. unmoved s ∷ rest) (unmoved-touched i now ss))
]

-- All tables are the same, but for the last activity of sessions.
pub record SameTables (a b : Db) : Type 0 where
  pub users : a.users ≡ b.users
  pub sessions : map unmoved a.sessions ≡ map unmoved b.sessions
  pub status_events : a.status_events ≡ b.status_events
  pub role_events : a.role_events ≡ b.role_events
  pub supervisions : a.supervisions ≡ b.supervisions
  pub checks : a.checks ≡ b.checks
  pub batches : a.batches ≡ b.batches
  pub row_failures : a.row_failures ≡ b.row_failures

module _ (base : Db) where
  abbrev pub Same : Db → Type 0
  Same db = SameTables base db

  touched-Same : (i : Uuid) (now : Time) (db : Db) → Same db → Same (touched i now db)
  touched-Same i now db p = record {
    users = p.users;
    sessions = p.sessions ∙ sym (unmoved-touched i now db.sessions);
    status_events = p.status_events;
    role_events = p.role_events;
    supervisions = p.supervisions;
    checks = p.checks;
    batches = p.batches;
    row_failures = p.row_failures;
  }

  slide-Same :
      (b : Bool) (now : Time) (s : UserSession) (u : User) → Keeps Same Same (slide b now s u)
  slide-Same false now s u = Keeps-pure _
  slide-Same true now s u =
      search
        (
          keeps_rules,
          Keeps-modify (touched s.id now) (touched-Same s.id now),
          Keeps-do_commit (λ db p. p),
        )
        depth 6

  judge-Same :
      (touch : Bool) (now : Time) (s : UserSession) (o : Option User)
      → Keeps Same Same (judge touch now s o)
  judge-Same touch now s none = Keeps-pure _
  judge-Same touch now s (some u) = admitted (refusal now s u)
    where
      admitted : (o : Option SessionFailure) → Keeps Same Same (admit touch now s u o)
      admitted none = slide-Same _ now s u
      admitted (some why) = Keeps-pure _

  judge_row-Same :
      (touch : Bool) (now : Time) (o : Option UserSession) → Keeps Same Same (judge_row touch now o)
  judge_row-Same touch now none = Keeps-pure _
  judge_row-Same touch now (some s) = search (keeps_rules, judge-Same) depth 6

  pub session_of-Same :
      (probe : Bool) (cookie : Option Text) → Keeps Same Same (session_of probe cookie)
  unfolding authenticate_session
  session_of-Same probe none = Keeps-pure _
  session_of-Same probe (some t) = search (keeps_rules, judge_row-Same) depth 10

  pub require_role-Same :
      (role : UserRole) (cookie : Option Text) → Keeps Same Same (require_role role cookie)
  unfolding require_role get_current_session
  require_role-Same role cookie = search (keeps_rules, session_of-Same) depth 6
