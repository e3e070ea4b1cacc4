-- ===== src/Routes/SignIn/Errors.antt =====
-- Which exceptions the gates of auth/dependencies.py let through: those of a commit.
use prompt_patrol.Common.{Bool, true, false, Option, none, some, ◌≡◌, Text}
use prompt_patrol.Models.{User, UserRole, UserSession, Time}
use prompt_patrol.World.{Error, integrity_error, database_error}
use prompt_patrol.Transactions.Raises.{Raises, raises_rules, Raises-pure}
use prompt_patrol.Sessions.{
  authenticate_session, slide, judge, admit, judge_row, refusal, SessionFailure,
}
use prompt_patrol.Routes.SignIn.{
  session_of, get_current_session, require_role, require_screening_access,
}

module _ (may : Error → Bool) (integrity : may integrity_error ≡ true)
    (database : may database_error ≡ true) where
  slide-Raises : (b : Bool) (now : Time) (s : UserSession) (u : User) → Raises may (slide b now s u)
  slide-Raises false now s u = Raises-pure _
  slide-Raises true now s u = search (raises_rules) depth 8

  judge-Raises :
      (touch : Bool) (now : Time) (s : UserSession) (o : Option User)
      → Raises may (judge touch now s o)
  judge-Raises touch now s none = Raises-pure _
  judge-Raises touch now s (some u) = admitted (refusal now s u)
    where
      admitted : (o : Option SessionFailure) → Raises may (admit touch now s u o)
      admitted none = slide-Raises _ now s u
      admitted (some why) = Raises-pure _

  judge_row-Raises :
      (touch : Bool) (now : Time) (o : Option UserSession) → Raises may (judge_row touch now o)
  judge_row-Raises touch now none = Raises-pure _
  judge_row-Raises touch now (some s) = search (raises_rules, judge-Raises) depth 6

  pub session_of-Raises :
      (probe : Bool) (cookie : Option Text) → Raises may (session_of probe cookie)
  unfolding authenticate_session
  session_of-Raises probe none = Raises-pure _
  session_of-Raises probe (some t) = search (raises_rules, judge_row-Raises) depth 10

  pub require_role-Raises :
      (role : UserRole) (cookie : Option Text) → Raises may (require_role role cookie)
  unfolding require_role get_current_session
  require_role-Raises role cookie = search (raises_rules, session_of-Raises) depth 6

  pub require_screening_access-Raises :
      (cookie : Option Text) → Raises may (require_screening_access cookie)
  unfolding require_screening_access get_current_session
  require_screening_access-Raises cookie = search (raises_rules, session_of-Raises) depth 6
