-- ===== src/Invariants/LiveSessions/Visits.antt =====
-- Services of sessions.py that change sessions only: none makes a live session.
use prompt_patrol.Common.{
  ℕ, zero, suc, ◌+◌, Bool, true, false, Option, none, some, List, [], ◌∷◌, Text, ◌==◌, All,
  All-update_where, Bool-cases, inl, inr,
}
use prompt_patrol.Models.{User, UserSession, Uuid, Time}
use prompt_patrol.World.{Exec, modify}
use prompt_patrol.Transactions.{Keeps-then, Keeps-modify, keeps_rules}
use prompt_patrol.Users.Tables.{sessions_revoked}
use prompt_patrol.Sessions.{
  SessionFailure, touched, slide, admit, judge, judge_row, refusal, authenticate_session,
  revoke_all_for_user, sign_out_user, sign_out_everywhere, delete_limited, purge_round,
  purge_rounds, next_round, purge_expired_sessions,
}
use prompt_patrol.Routes.SignIn.{end_all, logout, session_of, get_current_session}
use prompt_patrol.Invariants.LiveSessions.{IsCovered, ending-LiveSessionsActive}
use prompt_patrol.Invariants.LiveSessions.Services.{Safe, safe_rules}

touched-Safe : (i : Uuid) (now : Time) → Safe (modify (touched i now))
touched-Safe i now = Keeps-modify _ λ db h.
    All-update_where (IsCovered db) (IsCovered db) (λ s. s.id == i)
      (λ s. record s { last_active_at = now }) (λ s t k. k) (λ s t k. k) db.sessions h

slide-Safe : (b : Bool) (now : Time) (s : UserSession) (u : User) → Safe (slide b now s u)
slide-Safe true now s u = search (safe_rules, touched-Safe)
slide-Safe false now s u = search keeps_rules

admit-Safe :
    (b : Bool) (now : Time) (s : UserSession) (u : User) (why : Option SessionFailure)
    → Safe (admit b now s u why)
admit-Safe b now s u (some why) = search keeps_rules
admit-Safe b now s u none = slide-Safe _ now s u

judge-Safe : (b : Bool) (now : Time) (s : UserSession) (u : Option User) → Safe (judge b now s u)
judge-Safe b now s none = search keeps_rules
judge-Safe b now s (some u) = admit-Safe b now s u (refusal now s u)

judge_row-Safe : (b : Bool) (now : Time) (s : Option UserSession) → Safe (judge_row b now s)
judge_row-Safe b now none = search keeps_rules
judge_row-Safe b now (some s) = search (keeps_rules, judge-Safe)

authenticate_session-Safe : (t : Text) (b : Bool) → Safe (authenticate_session t b)
unfolding authenticate_session
authenticate_session-Safe t b = search (keeps_rules, judge_row-Safe) depth 7

session_of-Safe : (probe : Bool) (cookie : Option Text) → Safe (session_of probe cookie)
session_of-Safe probe none = search keeps_rules
session_of-Safe probe (some t) = search (keeps_rules, authenticate_session-Safe)

pub get_current_session-Safe :
    (probe : Bool) (cookie : Option Text) → Safe (get_current_session probe cookie)
unfolding get_current_session
get_current_session-Safe = session_of-Safe

revoked-Safe : (now : Time) (i : Uuid) → Safe (modify (sessions_revoked now i))
unfolding sessions_revoked
revoked-Safe now i = Keeps-modify _ (ending-LiveSessionsActive _ now)

revoke_all_for_user-Safe : (i : Uuid) → Safe (revoke_all_for_user i)
unfolding revoke_all_for_user
revoke_all_for_user-Safe i = search (safe_rules, revoked-Safe) depth 7

sign_out_user-Safe : (u : Option User) → Safe (sign_out_user u)
sign_out_user-Safe none = search keeps_rules
sign_out_user-Safe (some u) = search (keeps_rules, revoke_all_for_user-Safe)

end_all-Safe : (cookie : Option Text) → Safe (end_all cookie)
unfolding sign_out_everywhere
end_all-Safe none = search keeps_rules
end_all-Safe (some t) = search (keeps_rules, sign_out_user-Safe)

pub logout-Safe : (cookie : Option Text) → Safe (logout cookie)
unfolding logout
logout-Safe cookie = search (keeps_rules, end_all-Safe)

All-delete_limited :
    (P : UserSession → Type 0) (n : ℕ) (p : UserSession → Bool) (ss : List UserSession)
    → All P ss
    → All P (delete_limited n p ss)
unfolding delete_limited
All-delete_limited P zero p ss h = h
All-delete_limited P (suc n) p [] h = h
All-delete_limited P (suc n) p (s ∷ ss) h = elim (Bool-cases (p s)) [
  | inl e ↦ rw e (All-delete_limited P n p ss h.1)
  | inr e ↦ rw e (h.0, All-delete_limited P (suc n) p ss h.1)
]

deleted-Safe :
    (n : ℕ) (p : UserSession → Bool)
    → Safe (modify (λ db. record db { sessions = delete_limited n p db.sessions }))
deleted-Safe n p = Keeps-modify _ (λ db h. All-delete_limited (IsCovered db) n p db.sessions h)

purge_round-Safe : (cutoff : Time) (n : ℕ) → Safe (purge_round cutoff n)
unfolding purge_round
purge_round-Safe cutoff n = search (safe_rules, deleted-Safe) depth 8

next_round-Safe :
    (rest : ℕ → Exec (Option ℕ)) (total k : ℕ)
    → ((t : ℕ) → Safe (rest t))
    → Safe (next_round rest total k)
next_round-Safe rest total zero f = search keeps_rules
next_round-Safe rest total (suc k) f = f (total + suc k)

purge_rounds-Safe : (fuel : ℕ) (cutoff : Time) (n t : ℕ) → Safe (purge_rounds fuel cutoff n t)
unfolding purge_rounds
purge_rounds-Safe zero cutoff n t = search keeps_rules
purge_rounds-Safe (suc fuel) cutoff n t =
    Keeps-then (purge_round-Safe cutoff n)
      (λ k. next_round-Safe (purge_rounds fuel cutoff n) t k (purge_rounds-Safe fuel cutoff n))

pub purge-Safe : (n : ℕ) → Safe (purge_expired_sessions n)
unfolding purge_expired_sessions
purge-Safe n = search (keeps_rules, purge_rounds-Safe)
