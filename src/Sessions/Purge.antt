-- ===== src/Sessions/Purge.antt =====
-- `purge_expired_sessions` ends within its fuel, deletes every expired row and nothing else, and
-- counts what it deletes (apps/api/app/services/sessions.py).
use prompt_patrol.Common.{
  ℕ, zero, suc, ◌+◌, ◌-◌, ◌≤◌, ◌<◌, ◌≡◌, refl, ap, sym, ◌∙◌, Bool, Option, none, some, List, [],
  ◌∷◌, inl, inr, arith, ltb, not, select, length, Bool-cases,
}
use prompt_patrol.Models.{UserSession, Time}
use prompt_patrol.World.{◌>>=◌, do_commit, World, Result, ok, err, Exec, feed, now}
use prompt_patrol.Sessions.{
  delete_limited, purge_rounds, purge_round, next_round, purge_expired_sessions, session_retention,
}

module _ (p : UserSession → Bool) where
  pub kept : List UserSession → List UserSession
  unfolding select
  kept = select (λ s. not (p s))

  -- What a round leaves holds the same rows to keep.
  kept-delete_limited : (n : ℕ) (ss : List UserSession) → kept (delete_limited n p ss) ≡ kept ss
  unfolding delete_limited kept
  kept-delete_limited zero ss = refl
  kept-delete_limited (suc n) [] = refl
  kept-delete_limited (suc n) (s ∷ ss) =
      ground (arith, kept-delete_limited n ss, kept-delete_limited (suc n) ss)

  length-delete_limited :
      (n : ℕ) (ss : List UserSession) → length (delete_limited n p ss) ≤ length ss
  unfolding delete_limited
  length-delete_limited zero ss = omega arith
  length-delete_limited (suc n) [] = omega arith
  length-delete_limited (suc n) (s ∷ ss) =
      ground (arith, length-delete_limited n ss, length-delete_limited (suc n) ss)

  length-kept : (ss : List UserSession) → length (kept ss) ≤ length ss
  unfolding kept
  length-kept [] = omega arith
  length-kept (s ∷ ss) = ground (arith, length-kept ss)

  -- A round that deletes nothing found nothing to delete.
  idle_round :
      (n : ℕ) (ss : List UserSession)
      → length (delete_limited (suc n) p ss) ≡ length ss
      → kept ss ≡ ss
  unfolding delete_limited kept
  idle_round n [] e = refl
  idle_round n (s ∷ ss) e = elim (Bool-cases (p s)) [
    | inl t ↦ absurd (ground (arith, length-delete_limited n ss))
    | inr f ↦ rw f (ap (λ r. s ∷ r) (idle_round n ss (ground arith)))
  ]

  idle_round_left :
      (n : ℕ) (ss : List UserSession)
      → length (delete_limited (suc n) p ss) ≡ length ss
      → delete_limited (suc n) p ss ≡ ss
  unfolding delete_limited
  idle_round_left n [] e = refl
  idle_round_left n (s ∷ ss) e = elim (Bool-cases (p s)) [
    | inl t ↦ absurd (ground (arith, length-delete_limited n ss))
    | inr f ↦ rw f (ap (λ r. s ∷ r) (idle_round_left n ss (ground arith)))
  ]

abbrev pub is_expired : Time → UserSession → Bool
is_expired cutoff s = ltb s.absolute_expires_at cutoff

-- The rows that are to stay.
abbrev pub unexpired : Time → List UserSession → List UserSession
unexpired cutoff = kept (is_expired cutoff)

-- How a purge that began with `ss`, and had counted `total` before, may end: with all expired rows
-- deleted, committed and counted, or with an error of a commit; no other row is gone.
abbrev pub Purges : Time → ℕ → List UserSession → Result (Option ℕ) × World → Type 0
Purges cutoff total ss (ok none, w') = ⊥
Purges cutoff total ss (ok (some t), w') =
    (w'.db.sessions ≡ unexpired cutoff ss)
    × (w'.saved ≡ w'.db)
    × (t + length (unexpired cutoff ss) ≡ total + length ss)
Purges cutoff total ss (err e, w') = unexpired cutoff w'.db.sessions ≡ unexpired cutoff ss

abbrev left_by : Time → ℕ → World → List UserSession
left_by cutoff n w = delete_limited (suc n) (is_expired cutoff) w.db.sessions

abbrev Rounds : Time → ℕ → World → Result ℕ × World → Type 0
Rounds cutoff n w (ok k, w') =
    (w'.db.sessions ≡ left_by cutoff n w)
    × (w'.saved ≡ w'.db)
    × (k ≡ length w.db.sessions - length (left_by cutoff n w))
Rounds cutoff n w (err e, w') = w'.db.sessions ≡ left_by cutoff n w

purge_round-Rounds :
    (cutoff : Time) (n : ℕ) (w : World) → Rounds cutoff n w (purge_round cutoff (suc n) w)
unfolding purge_round do_commit
purge_round-Rounds cutoff n w = ground arith

-- A purge that goes on from `mid` is one that began with `ss`, if both have the same rows to keep.
Purges-rebase :
    (cutoff : Time) (t total : ℕ) (mid ss : List UserSession)
    → unexpired cutoff mid ≡ unexpired cutoff ss
    → t + length mid ≡ total + length ss
    → (x : Result (Option ℕ) × World) → Purges cutoff t mid x
    → Purges cutoff total ss x
Purges-rebase cutoff t total mid ss e c (ok none, w') p = p
Purges-rebase cutoff t total mid ss e c (ok (some k), w') p =
    (p.0 ∙ e, p.1, omega (arith, p.2, ap length e))
Purges-rebase cutoff t total mid ss e c (err x, w') p = p ∙ e

-- The rest of the loop after one round, by what the round did.
next_round-Purges :
    (fuel : ℕ) (cutoff : Time) (n total : ℕ) (w : World) (rest : ℕ → Exec (Option ℕ))
    → ((t : ℕ) (w' : World)
        → length w'.db.sessions < fuel
        → Purges cutoff t w'.db.sessions (rest t w'))
    → length w.db.sessions < suc fuel
    → (x : Result ℕ × World) → Rounds cutoff n w x
    → Purges cutoff total w.db.sessions (feed (next_round rest total) x)
unfolding ◌>>=◌
next_round-Purges fuel cutoff n total w rest ih h (err e, w') r =
    rw r (kept-delete_limited (is_expired cutoff) (suc n) w.db.sessions)
next_round-Purges fuel cutoff n total w rest ih h (ok zero, w') (same, saved, none_left) =
    let idle : unexpired cutoff w.db.sessions ≡ w.db.sessions =
      idle_round (is_expired cutoff) n w.db.sessions (round_length none_left) in
    (
      same
          ∙ idle_round_left (is_expired cutoff) n w.db.sessions (round_length none_left)
          ∙ sym idle,
      saved,
      omega (arith, ap length idle),
    )
  where
    round_length :
        0 ≡ length w.db.sessions - length (left_by cutoff n w)
        → length (left_by cutoff n w) ≡ length w.db.sessions
    round_length e = omega (arith, length-delete_limited (is_expired cutoff) (suc n) w.db.sessions)
next_round-Purges fuel cutoff n total w rest ih h (ok (suc k), w') (same, saved, gone) =
    let mid : length w'.db.sessions ≡ length (left_by cutoff n w) = ap length same in
    Purges-rebase cutoff (total + suc k) total w'.db.sessions w.db.sessions
      (rw same (kept-delete_limited (is_expired cutoff) (suc n) w.db.sessions)) (omega (arith, mid))
      (rest (total + suc k) w') (ih (total + suc k) w' (omega (arith, mid)))

purge_rounds-Purges :
    (fuel : ℕ) (cutoff : Time) (n total : ℕ) (w : World)
    → length w.db.sessions < fuel
    → Purges cutoff total w.db.sessions (purge_rounds fuel cutoff (suc n) total w)
unfolding purge_rounds ◌>>=◌
purge_rounds-Purges zero cutoff n total w h = absurd (omega arith)
purge_rounds-Purges (suc fuel) cutoff n total w h =
    next_round-Purges fuel cutoff n total w (purge_rounds fuel cutoff (suc n))
      (purge_rounds-Purges fuel cutoff n) h (purge_round cutoff (suc n) w)
      (purge_round-Rounds cutoff n w)

-- With a batch size of at least one, `purge_expired_sessions` ends within its fuel: either a commit
-- failed, and every unexpired row is still there, or every expired row is deleted, no other is, the
-- deletion is committed, and the result is the number of deleted rows.
pub purge_expired_sessions-Purges :
    (batch_size : ℕ) (w : World)
    → 0 < batch_size
    → Purges
        (w.outside.time w.calls - session_retention)
        0
        w.db.sessions
        (purge_expired_sessions batch_size w)
unfolding purge_expired_sessions ◌>>=◌
purge_expired_sessions-Purges zero w h = absurd (omega arith)
purge_expired_sessions-Purges (suc n) w h =
    purge_rounds-Purges (suc (length w.db.sessions)) (w.outside.time w.calls - session_retention) n
      0 (record w { calls = now ∷ w.calls }) (omega arith)
