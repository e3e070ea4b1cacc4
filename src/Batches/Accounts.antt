-- ===== src/Batches/Accounts.antt =====
-- Every row of a file is queued or recorded as failed (services/batches_service.py).
use prompt_patrol.Common.{
  ℕ, suc, ◌+◌, ◌≡◌, refl, ap, ◌∙◌, Bool, true, false, List, [], ◌∷◌, arith, length, length-append,
  if◌then◌else◌, not,
}
use prompt_patrol.Models.{Db, Uuid}
use prompt_patrol.World.{
  World, Result, ok, err, Call, send_message, Outside, feed, ◌>>=◌, do_commit, Done, Payload, pure,
  raise_if, transport, CommitReply, committed, integrity_violation, connection_lost, answer_lost,
  finish_commit, commit,
}
use prompt_patrol.Aws.{enqueue_row}
use prompt_patrol.Batches.Parse.{Row, Failure}
use prompt_patrol.Batches.Service.{
  Upload, enqueue_rows, note_failed, payload_of, add_failure, add_failures, add_unqueued,
  queue_rows, commit_unqueued,
}

-- The messages that SQS has taken.
unfoldable pub sent : Outside → List Call → ℕ
sent o [] = 0
sent o (send_message p ∷ calls) = if o.sends calls then suc (sent o calls) else sent o calls
sent o (_ ∷ calls) = sent o calls

-- The failed rows on record and the rows on the queue.
abbrev pub failures : Db → ℕ
failures db = length db.row_failures

-- A step that changes the session's failed rows by `n`, and nothing else that is counted.
pub record Adds (n : ℕ) (w w' : World) : Type 0 where
  pub outside : w'.outside ≡ w.outside
  pub saved : w'.saved ≡ w.saved
  pub rows : failures w'.db ≡ failures w.db + n
  pub queued : sent w.outside w'.calls ≡ sent w.outside w.calls

pub add_failures-Adds :
    (i : Uuid) (fs : List Failure) (w : World)
    → ((add_failures i fs w).0 ≡ ok tt) × Adds (length fs) w (add_failures i fs w).1
unfolding add_failures add_failure ◌>>=◌ sent
add_failures-Adds i [] w =
    (refl, record { outside = refl; saved = refl; rows = omega arith; queued = refl })
add_failures-Adds i (f ∷ fs) w =
    let (done, a) = add_failures-Adds i fs _ in
    (
      done,
      record {
        outside = a.outside;
        saved = a.saved;
        rows = omega (arith, a.rows, length-append w.db.row_failures (_ ∷ []));
        queued = a.queued;
      },
    )

pub add_unqueued-Adds :
    (i : Uuid) (rs : List Row) (w : World)
    → ((add_unqueued i rs w).0 ≡ ok tt) × Adds (length rs) w (add_unqueued i rs w).1
unfolding add_unqueued add_failure ◌>>=◌ sent
add_unqueued-Adds i [] w =
    (refl, record { outside = refl; saved = refl; rows = omega arith; queued = refl })
add_unqueued-Adds i (r ∷ rs) w =
    let (done, a) = add_unqueued-Adds i rs _ in
    (
      done,
      record {
        outside = a.outside;
        saved = a.saved;
        rows = omega (arith, a.rows, length-append w.db.row_failures (_ ∷ []));
        queued = a.queued;
      },
    )

-- What the queue does not take of `n` rows is given back.
pub record Offers (n : ℕ) (w : World) (x : List Row × World) : Type 0 where
  pub outside : x.1.outside ≡ w.outside
  pub saved : x.1.saved ≡ w.saved
  pub db : x.1.db ≡ w.db
  pub queued : sent w.outside x.1.calls + length x.0 ≡ sent w.outside w.calls + n

-- One row, by what SQS answers, and the rest.
offered-Offers :
    (n : ℕ) (p : Payload) (r : Row) (rest : World → List Row × World) (w : World) (b : Bool)
    → w.outside.sends w.calls ≡ b
    → ((u : World) → Offers n u (rest u))
    → Offers (suc n) w (
        note_failed r rest
          (raise_if (not b) transport (record w { calls = send_message p ∷ w.calls })))
unfolding ◌>>=◌ sent
offered-Offers n p r rest w true e h =
    let o = h (record w { calls = send_message p ∷ w.calls }) in
    record { outside = o.outside; saved = o.saved; db = o.db; queued = ground (arith, o.queued) }
offered-Offers n p r rest w false e h =
    let o = h (record w { calls = send_message p ∷ w.calls }) in
    record { outside = o.outside; saved = o.saved; db = o.db; queued = ground (arith, o.queued) }

pub enqueue_rows-Offers :
    (up : Upload) (i : Uuid) (rs : List Row) (w : World)
    → Offers (length rs) w (enqueue_rows up i rs w)
unfolding enqueue_rows enqueue_row ◌>>=◌
enqueue_rows-Offers up i [] w = record { outside = refl; saved = refl; db = refl; queued = refl }
enqueue_rows-Offers up i (r ∷ rs) w =
    offered-Offers (length rs) (payload_of up i r) r (enqueue_rows up i rs) w
      (w.outside.sends w.calls) refl (enqueue_rows-Offers up i rs)

-- The failed rows on record, committed, with the rows on the queue.
unfoldable pub accounted : World → ℕ
accounted w = failures w.saved + sent w.outside w.calls

-- A result that accounts for `n` more rows.
abbrev pub AccountsFor : {A : Type 0} → ℕ → World → Result A × World → Type 0
AccountsFor n w (ok a, w') = accounted w' ≡ accounted w + n
AccountsFor n w (err e, w') = Unit

commit-AccountsFor :
    (n : ℕ) (w0 w2 : World) (m : ℕ)
    → failures w2.db ≡ failures w0.saved + m
    → sent w2.outside w2.calls + m ≡ sent w0.outside w0.calls + n
    → AccountsFor n w0 (do_commit w2)
unfolding do_commit accounted sent
commit-AccountsFor n w0 w2 m rows queued = by_reply (w2.outside.commits w2.calls)
  where
    by_reply :
        (r : CommitReply)
        → AccountsFor n w0 (finish_commit r (record w2 { calls = commit ∷ w2.calls }))
    by_reply committed = omega (arith, rows, queued)
    by_reply integrity_violation = tt
    by_reply connection_lost = tt
    by_reply answer_lost = tt

-- The queue after the offers, as the world after them sees it.
queued-after :
    (n : ℕ) (failed : List Row) (w0 w1 w2 : World)
    → Offers n w0 (failed, w1)
    → Adds (length failed) w1 w2
    → sent w2.outside w2.calls + length failed ≡ sent w0.outside w0.calls + n
queued-after n failed w0 w1 w2 o a =
    let q : sent w1.outside w2.calls ≡ sent w1.outside w1.calls = a.queued in
    let q' : sent w0.outside w2.calls ≡ sent w0.outside w1.calls = rw (← o.outside) q in
    rw (a.outside ∙ o.outside) (omega (arith, q', o.queued))

rows-after :
    (n : ℕ) (failed : List Row) (w0 w1 w2 : World)
    → failures w0.db ≡ failures w0.saved
    → Offers n w0 (failed, w1)
    → Adds (length failed) w1 w2
    → failures w2.db ≡ failures w0.saved + length failed
rows-after n failed w0 w1 w2 k o a = omega (arith, a.rows, ap failures o.db)

commit_unqueued-AccountsFor :
    (n : ℕ) (failed : List Row) (w0 w2 : World)
    → failures w0.db ≡ failures w0.saved
    → (w1 : World) → Offers n w0 (failed, w1)
    → Adds (length failed) w1 w2
    → AccountsFor n w0 (commit_unqueued failed w2)
unfolding pure accounted
commit_unqueued-AccountsFor n [] w0 w2 k w1 o a =
    omega (arith, queued-after n [] w0 w1 w2 o a, ap failures (a.saved ∙ o.saved))
commit_unqueued-AccountsFor n (r ∷ rs) w0 w2 k w1 o a =
    commit-AccountsFor _ w0 w2 _ (rows-after n (r ∷ rs) w0 w1 w2 k o a)
      (queued-after n (r ∷ rs) w0 w1 w2 o a)

pub queue_rows-AccountsFor :
    (up : Upload) (i : Uuid) (rs : List Row) (w : World)
    → failures w.db ≡ failures w.saved
    → AccountsFor (length rs) w (queue_rows up i rs w)
unfolding queue_rows ◌>>=◌
queue_rows-AccountsFor up i rs w k =
    unqueued (enqueue_rows up i rs w) (enqueue_rows-Offers up i rs w)
  where
    added :
        (failed : List Row) (w1 : World) (x : Result Done × World)
        → Offers (length rs) w (failed, w1)
        → (x.0 ≡ ok tt) × Adds (length failed) w1 x.1
        → AccountsFor (length rs) w (feed (λ _. commit_unqueued failed) x)
    added failed w1 (ok _, w2) o (done, a) =
        commit_unqueued-AccountsFor (length rs) failed w w2 k w1 o a
    added failed w1 (err e, w2) o (done, a) = tt

    unqueued :
        (y : List Row × World)
        → Offers (length rs) w y
        → AccountsFor (length rs) w (feed (λ _. commit_unqueued y.0) (add_unqueued i y.0 y.1))
    unqueued (failed, w1) o = added failed w1 _ o (add_unqueued-Adds i failed w1)
