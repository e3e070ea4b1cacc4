-- ===== src/Worker/Cancelled.antt =====
-- What the worker does with the rows of a cancelled batch (apps/worker/worker/main.py).
use prompt_patrol.Common.{
  ℕ, ◌≡◌, refl, ap, ◌∙◌, Bool, true, false, Option, some, List, [], ◌∷◌, ◌++◌, arith, Text, ◌==◌,
  length, select, Bool-cases, ==_iff, inl, inr, find,
}
use prompt_patrol.Models.{Db, Strictness, Uuid, Time, RowReason, Check, processing_failed}
use prompt_patrol.World.{
  World, Result, ok, err, Exec, ◌>>=◌, do_commit, in_session, rollback, Done, Body, not_json,
  foreign_json, short_row, row, Message, Queue, batches_queue, batches_dlq, Payload, modify,
  Settings, DetectorReply, timed_out, http_error, malformed, malformed_reply, scored, no_object,
  detector_timeout, detector_unavailable,
}
use prompt_patrol.Aws.{receive}
use prompt_patrol.Checks.{create_check, check_added, check_of, Score, score_result, Submission}
use prompt_patrol.Users.Tables.{completed_rows, is_of_batch}
use prompt_patrol.Batches.Service.{add_failure, failure_added, has_batch_id}
use prompt_patrol.Transactions.{
  Post, Holds, Keeps, Holds-bind, Holds-gets, Keeps-then, Keeps-gets, Keeps-do_commit, Keeps-modify,
  Keeps-pure, Keeps-raise, Holds-weaken, keeps_rules,
}
use prompt_patrol.Worker.Passes.{IsPreorder, Steady, poll_once-Steady}
use prompt_patrol.Aws.Laws.{receive-Silent, delete_received-Silent}
use prompt_patrol.Worker.{
  process_message, process_body, delete_if_done, record_body, poll_once, is_cancelled, checked,
  refused, refused_or_short, recorded, process_short_row, checked_or_refused, rolled_back_on_error,
  submission_of,
}

select-append_rejected :
    {A : Type 0} (p : A → Bool) (x : A) (xs : List A)
    → p x ≡ false
    → select p (xs ++ x ∷ []) ≡ select p xs
unfolding select
select-append_rejected p x [] e = rw e refl
select-append_rejected p x (y ∷ ys) e = ground (arith, select-append_rejected p x ys e)

-- The batch is cancelled, and has `n` checks.
pub record CancelledWith (b : Uuid) (n : ℕ) (db : Db) : Type 0 where
  pub cancelled : is_cancelled (find (has_batch_id b) db.batches) ≡ true
  pub checks : completed_rows db b ≡ n

module _ (b : Uuid) (n : ℕ) where
  abbrev I : Db → Type 0
  I = CancelledWith b n

  failure_added-Safe :
      (i k : Uuid) (t : Time) (m : ℕ) (ref : Option Text) (why : RowReason) (db : Db)
      → I db
      → I (failure_added i k t m ref why db)
  unfolding completed_rows
  failure_added-Safe i k t m ref why db c = record { cancelled = c.cancelled; checks = c.checks }

  add_failure-Keeps :
      (k : Uuid) (m : ℕ) (ref : Option Text) (why : RowReason) → Keeps I I (add_failure k m ref why)
  unfolding add_failure
  add_failure-Keeps k m ref why = search (keeps_rules, Keeps-modify, failure_added-Safe) depth 12

  refused-Keeps : (i : Uuid) (ref : Option Text) → Keeps I I (refused i ref)
  refused-Keeps i ref = Keeps-then (add_failure-Keeps _ _ _ _) (λ _. Keeps-do_commit (λ db c. c))

  check_added-Safe :
      (c : Check) (k : Uuid) (db : Db)
      → (k == b) ≡ false
      → c.batch_id ≡ some k
      → I db
      → I (check_added c db)
  unfolding completed_rows select
  check_added-Safe c k db d e i = record {
    cancelled = i.cancelled;
    checks =
        ap length (select-append_rejected (λ x. is_of_batch b x.batch_id) c db.checks (rw e d))
        ∙ i.checks;
  }

  check_of_another-Safe :
      (s : Submission) (k : Uuid)
      → (k == b) ≡ false
      → s.batch_id ≡ some k
      → (settings : Settings) (r : Score) (level : Strictness) (ms : ℕ) (i : Uuid) (now : Time)
      → Keeps I I (modify (check_added (check_of settings s r level ms i now)))
  unfolding check_of
  check_of_another-Safe s k d e settings r level ms i now =
      Keeps-modify _ (λ db c. check_added-Safe _ k db d e c)

  finished-Keeps : Keeps I I do_commit
  finished-Keeps = Keeps-do_commit (λ db c. c)

  score_result-Keeps : (r : DetectorReply) → Keeps I I (score_result r)
  score_result-Keeps timed_out = Keeps-raise detector_timeout
  score_result-Keeps http_error = Keeps-raise detector_unavailable
  score_result-Keeps malformed = Keeps-raise malformed_reply
  score_result-Keeps (scored s t) = Keeps-pure (record { raw_score = s; truncated = t })

  create_check-Keeps :
      (s : Submission) (k : Uuid)
      → (k == b) ≡ false
      → s.batch_id ≡ some k
      → Keeps I I (create_check s)
  unfolding create_check
  create_check-Keeps s k d e =
      search (keeps_rules, score_result-Keeps, check_of_another-Safe s k d e, finished-Keeps) depth
        30

  checked-Keeps : (p : Payload) → (p.batch_id == b) ≡ false → Keeps I I (checked p)
  checked-Keeps p d =
      Keeps-then (create_check-Keeps (submission_of p) p.batch_id d refl) (λ c. Keeps-pure tt)

  process_message-Keeps : (p : Payload) → Keeps I I (process_message p)
  unfolding process_message
  process_message-Keeps p = elim (Bool-cases (p.batch_id == b)) [
    | inl same ↦
        Holds-bind (Holds-gets _ (λ w i. (i, rw ((==_iff p.batch_id b).0 same) i.cancelled)))
          of_flag
    | inr other ↦ Keeps-then (Keeps-gets _) (of_another other)
  ]
    where
      of_flag :
          (flag : Bool) → Holds I (λ db. I db × (flag ≡ true)) (checked_or_refused p flag) (λ _. I)
      of_flag true = Holds-weaken (λ db h. h.0) (refused-Keeps p.batch_id (some p.external_ref))
      of_flag false = record { at = λ w h i. absurd (ground (arith, h.1)) }

      of_another : (p.batch_id == b) ≡ false → (flag : Bool) → Keeps I I (checked_or_refused p flag)
      of_another d true = refused-Keeps p.batch_id (some p.external_ref)
      of_another d false = checked-Keeps p d

  refused_or_short-Keeps :
      (i : Uuid) (ref : Option Text) (flag : Bool) → Keeps I I (refused_or_short i ref flag)
  refused_or_short-Keeps i ref true = refused-Keeps i ref
  refused_or_short-Keeps i ref false = Keeps-raise _

  process_short_row-Keeps : (i : Uuid) (ref : Option Text) → Keeps I I (process_short_row i ref)
  unfolding process_short_row
  process_short_row-Keeps i ref = Keeps-then (Keeps-gets _) (refused_or_short-Keeps i ref)

  -- Both the session and the committed database hold the batch as cancelled.
  abbrev StaysCancelled : World → World → Type 0
  StaysCancelled w w' = I w.db × I w.saved → I w'.db × I w'.saved

  StaysCancelled-IsPreorder : IsPreorder StaysCancelled
  StaysCancelled-IsPreorder = record { same = λ w h. h; trans = λ u v w r s h. s (r h) }

  closed-I : (x : Result Done × World) → Post I (λ _. I) x → I x.1.saved
  closed-I (ok a, w) h = h.1
  closed-I (err e, w) h = h

  process_body-StaysCancelled : (body : Body) → Steady StaysCancelled (process_body body)
  unfolding in_session rollback ◌>>=◌
  process_body-StaysCancelled not_json = record { at = λ w h. h }
  process_body-StaysCancelled no_object = record { at = λ w h. h }
  process_body-StaysCancelled foreign_json = record { at = λ w h. h }
  process_body-StaysCancelled (short_row i ref) = record {
    at = λ w h.
        let saved =
          closed-I (process_short_row i ref w) ((process_short_row-Keeps i ref).at w h.0 h.1) in
        (saved, saved);
  }
  process_body-StaysCancelled (row p) = record {
    at = λ w h.
        let saved = closed-I (process_message p w) ((process_message-Keeps p).at w h.0 h.1) in
        (saved, saved);
  }

  recorded-StaysCancelled : (i : Uuid) (ref : Option Text) → Steady StaysCancelled (recorded i ref)
  unfolding rollback ◌>>=◌
  recorded-StaysCancelled i ref = record {
    at = λ w h. by_result _ (
        (Keeps-then (add_failure-Keeps i 0 ref processing_failed) (λ _. finished-Keeps)).at w h.0
          h.1);
  }
    where
      by_result :
          (x : Result Done × World)
          → Post I (λ _. I) x
          → I (rolled_back_on_error x).1.db × I (rolled_back_on_error x).1.saved
      by_result (ok a, w) h = h
      by_result (err e, w) h = (h, h)

  record_body-StaysCancelled : (body : Body) → Steady StaysCancelled (record_body body)
  unfolding ◌>>=◌
  record_body-StaysCancelled not_json = record { at = λ w h. h }
  record_body-StaysCancelled no_object = record { at = λ w h. h }
  record_body-StaysCancelled foreign_json = record { at = λ w h. h }
  record_body-StaysCancelled (short_row i ref) = recorded-StaysCancelled i ref
  record_body-StaysCancelled (row p) = recorded-StaysCancelled p.batch_id (some p.external_ref)

  delete_if_done-db :
      (q : Queue) (m : Message) (x : Result Done × World)
      → ((delete_if_done q m x).1.db ≡ x.1.db) × ((delete_if_done q m x).1.saved ≡ x.1.saved)
  delete_if_done-db q m (ok a, w) =
      ((delete_received-Silent q m).db w, (delete_received-Silent q m).saved w)
  delete_if_done-db q m (err e, w) = (refl, refl)

  handled-StaysCancelled :
      (q : Queue) (m : Message) (f : Exec Done)
      → Steady StaysCancelled f
      → Steady StaysCancelled (λ w. delete_if_done q m (f w))
  handled-StaysCancelled q m f s = record {
    at = λ w h. (
      rw ((delete_if_done-db q m (f w)).0) (s.at w h).0,
      rw ((delete_if_done-db q m (f w)).1) (s.at w h).1,
    );
  }

  receive-StaysCancelled : (q : Queue) (k : ℕ) → Steady StaysCancelled (receive q k)
  receive-StaysCancelled q k = record {
    at = λ w h. (rw ((receive-Silent q k).db w) h.0, rw ((receive-Silent q k).saved w) h.1);
  }

  in_session-StaysCancelled :
      (m : Exec ℕ) → Steady StaysCancelled m → Steady StaysCancelled (in_session m)
  unfolding in_session rollback
  in_session-StaysCancelled m s = record { at = λ w h. ((s.at w h).1, (s.at w h).1) }

-- Once a batch is cancelled, no pass of the worker adds a check to it, whatever its messages are and
-- however often they are delivered: the committed number of its checks stays, and it stays cancelled.
pub poll_once-CancelledWith :
    (b : Uuid) (n : ℕ) (w : World)
    → w.db ≡ w.saved
    → CancelledWith b n w.saved
    → CancelledWith b n (poll_once w).1.saved
poll_once-CancelledWith b n w e c =
    ((poll_once-Steady (StaysCancelled b n) (StaysCancelled-IsPreorder b n)
        (receive-StaysCancelled b n)
        (λ m. handled-StaysCancelled b n batches_queue m _ (process_body-StaysCancelled b n m.body))
        (λ m. handled-StaysCancelled b n batches_dlq m _ (record_body-StaysCancelled b n m.body))
        (in_session-StaysCancelled b n)).at
      w (rw e c, c)).1
