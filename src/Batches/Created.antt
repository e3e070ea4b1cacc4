-- ===== src/Batches/Created.antt =====
-- `create_batch` accounts for every row of its file (services/batches_service.py).
use prompt_patrol.Common.{
  ◌⊎◌, Text, ℕ, ◌+◌, ◌≡◌, refl, ap, List, ◌∷◌, arith, length, Option-cases, inl, inr,
}
use prompt_patrol.Models.{Uuid, Strictness, Batch}
use prompt_patrol.World.{
  World, Result, ok, err, feed, ◌>>=◌, do_commit, Done, pure, CommitReply, committed,
  integrity_violation, connection_lost, answer_lost, ObjectReply, no_such_key, s3_failed, not_utf8,
  content, finish_commit, commit, uuid4, now, get_object,
}
use prompt_patrol.Aws.{download_object}
use prompt_patrol.Checks.{level_of}
use prompt_patrol.Batches.Parse.{Row, Parsed, parse_and_validate}
use prompt_patrol.Batches.Service.{
  Upload, queue_rows, store_batch, create_batch, batch_added, batch_of,
}
use prompt_patrol.Batches.Accounts.{
  sent, failures, accounted, AccountsFor, Adds, add_failures-Adds, queue_rows-AccountsFor,
}

-- What `create_batch` returns accounts for every row of the batch.
abbrev pub Accounts : World → Result Batch × World → Type 0
Accounts w (ok b, w') = accounted w' ≡ accounted w + b.row_total
Accounts w (err e, w') = Unit

feed-Accounts :
    {A : Type 0} (b : Batch) (n m : ℕ) (w w3 : World)
    → b.row_total ≡ n + m
    → accounted w3 ≡ accounted w + m
    → (x : Result A × World) → AccountsFor n w3 x
    → Accounts w (feed (λ _. pure b) x)
unfolding pure
feed-Accounts b n m w w3 t e (ok _, w4) h = omega (arith, t, e, h)
feed-Accounts b n m w w3 t e (err _, w4) h = tt

-- From the batch's own transaction to the queue.
stored-Accounts :
    (up : Upload) (i : Uuid) (b : Batch) (rs : List Row) (m : ℕ) (w w1 : World)
    → b.row_total ≡ length rs + m
    → failures w1.db ≡ failures w.saved + m
    → sent w1.outside w1.calls ≡ sent w.outside w.calls
    → Accounts w (feed (λ _ w3. feed (λ _. pure b) (queue_rows up i rs w3)) (do_commit w1))
unfolding do_commit accounted sent
stored-Accounts up i b rs m w w1 total rows queued = by_reply (w1.outside.commits w1.calls)
  where
    by_reply :
        (r : CommitReply)
        → Accounts w (
            feed
              (λ _ w3. feed (λ _. pure b) (queue_rows up i rs w3))
              (finish_commit r (record w1 { calls = commit ∷ w1.calls })))
    by_reply committed =
        let w3 : World = record w1 { saved = w1.db; calls = commit ∷ w1.calls } in
        feed-Accounts b (length rs) m w w3 total (omega (arith, rows, queued)) _
          (queue_rows-AccountsFor up i rs w3 refl)
    by_reply integrity_violation = tt
    by_reply connection_lost = tt
    by_reply answer_lost = tt

store_batch-Accounts :
    (up : Upload) (parsed : Parsed) (w : World)
    → failures w.db ≡ failures w.saved
    → Accounts w (store_batch up parsed w)
unfolding store_batch ◌>>=◌ sent
store_batch-Accounts up parsed w k = elim (Option-cases (level_of up.strictness)) [
  | inl e ↦ rw e tt
  | inr (level, e) ↦ rw e (added level _ (add_failures-Adds (w.outside.fresh w.calls) parsed.1 _))
]
  where
    started : Strictness → World
    started level = record w {
      db =
          batch_added
            (batch_of up (w.outside.fresh w.calls) level (w.outside.time (uuid4 ∷ w.calls)) parsed)
            w.db;
      calls = now ∷ uuid4 ∷ w.calls;
    }

    added :
        (level : Strictness) (x : Result Done × World)
        → (x.0 ≡ ok tt) × Adds (length parsed.1) (started level) x.1
        → Accounts w (
            feed
              (λ _ w1.
                feed
                  (λ _ w3.
                    feed
                      (λ _. pure (
                        batch_of up
                          (w.outside.fresh w.calls)
                          level
                          (w.outside.time (uuid4 ∷ w.calls))
                          parsed))
                      (queue_rows up (w.outside.fresh w.calls) parsed.0 w3))
                  (do_commit w1))
              x)
    added level (ok _, w1) (done, a) =
        stored-Accounts up (w.outside.fresh w.calls) _ parsed.0 (length parsed.1) w w1 refl
          (omega (arith, a.rows, k)) (rw a.outside a.queued)
    added level (err e, w1) (done, a) = tt

object-cases :
    (r : ObjectReply)
    → (r ≡ no_such_key)
      ⊎ ((r ≡ s3_failed) ⊎ ((r ≡ not_utf8) ⊎ ((body : Text) × (r ≡ content body))))
object-cases no_such_key = inl refl
object-cases s3_failed = inr (inl refl)
object-cases not_utf8 = inr (inr (inl refl))
object-cases (content body) = inr (inr (inr (body, refl)))

-- Where `create_batch` returns, the rows of the batch are all accounted for: as many are newly
-- recorded as failed, and committed, or newly taken by the queue, as the batch's `row_total` says,
-- whatever SQS refuses.
pub create_batch-Accounts :
    (up : Upload) (w : World) → w.db ≡ w.saved → Accounts w (create_batch up w)
unfolding create_batch download_object ◌>>=◌ accounted sent
create_batch-Accounts up w k = elim (object-cases (w.outside.object w.calls up.upload_key)) [
  | inl e ↦ rw e tt
  | inr (inl e) ↦ rw e tt
  | inr (inr (inl e)) ↦ rw e tt
  | inr (inr (inr (body, e))) ↦ elim (Option-cases (w.outside.csv body)) [
    | inl f ↦ rw (e, f) tt
    | inr (table, f) ↦
        rw (e, f)
          (store_batch-Accounts up
            (parse_and_validate table up.column_mapping up.requires_question_text)
            (record w { calls = get_object up.upload_key ∷ w.calls }) (ap failures k))
  ]
]
