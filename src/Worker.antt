-- ===== src/Worker.antt =====
-- apps/worker/worker/main.py: one pass over the queue of rows and one over its dead letters.
-- After a failed commit the session is rolled back, as SQLAlchemy does.
pub mod Passes
pub mod Books
pub mod Cancelled
use prompt_patrol.Common.{
  Text, ℕ, ◌+◌, Bool, true, false, Option, none, some, List, [], ◌∷◌, not, find, length,
}
use prompt_patrol.Models.{Uuid, Batch, batch_cancelled, processing_failed}
use prompt_patrol.World.{
  Exec, World, Result, ok, err, pure, raise, gets, ◌>>=◌, ◌>>◌, Done, do_commit, rollback,
  in_session, Body, not_json, no_object, foreign_json, short_row, row, Message, Payload, Queue,
  batches_queue, batches_dlq, key_error,
}
use prompt_patrol.Aws.{receive, delete_received}
use prompt_patrol.Checks.{create_check, Submission}
use prompt_patrol.Batches.Service.{add_failure, has_batch_id}

abbrev pub poll_max_messages : ℕ
poll_max_messages = 10

abbrev pub dlq_max_messages : ℕ
dlq_max_messages = 10

abbrev pub submission_of : Payload → Submission
submission_of p = record {
  actor_id = p.actor_id;
  answer_text = p.answer_text;
  question_text = p.question_text;
  external_ref = some p.external_ref;
  strictness = p.strictness;
  retain_answer = p.retain_answer;
  batch_id = some p.batch_id;
  batch_file_name = none;
}

-- `batches.cancelled_at`, of the batch of a row.
abbrev pub is_cancelled : Option Batch → Bool
is_cancelled none = false
is_cancelled (some b) = elim b.cancelled_at [ none ↦ false | some _ ↦ true ]

abbrev pub checked : Payload → Exec Done
checked p = do create_check (submission_of p); pure tt

abbrev pub refused : Uuid → Option Text → Exec Done
refused batch_id external_ref = do add_failure batch_id 0 external_ref batch_cancelled; do_commit

abbrev pub checked_or_refused : Payload → Bool → Exec Done
checked_or_refused p true = refused p.batch_id (some p.external_ref)
checked_or_refused p false = checked p

unfoldable pub process_message : Payload → Exec Done
unfolding add_failure create_check
process_message p = do
  cancelled ← gets (λ w. is_cancelled (find (has_batch_id p.batch_id) w.db.batches))
  checked_or_refused p cancelled

-- `process_message` of an object that has not all that a row has: of a cancelled batch it is recorded
-- as any row, else a key is missing.
abbrev pub refused_or_short : Uuid → Option Text → Bool → Exec Done
refused_or_short batch_id external_ref true = refused batch_id external_ref
refused_or_short batch_id external_ref false = raise key_error

unfoldable pub process_short_row : Uuid → Option Text → Exec Done
unfolding add_failure
process_short_row batch_id external_ref = do
  cancelled ← gets (λ w. is_cancelled (find (has_batch_id batch_id) w.db.batches))
  refused_or_short batch_id external_ref cancelled

-- A message in its own session.
abbrev pub process_body : Body → Exec Done
process_body (short_row i external_ref) = in_session (process_short_row i external_ref)
process_body (row p) = in_session (process_message p)
process_body _ = raise key_error

-- `except Exception`: the message is left on the queue; else it is deleted.
abbrev pub delete_if_done : Queue → Message → Result Done × World → Result Done × World
delete_if_done q m (ok _, w) = delete_received q m w
delete_if_done q m (err _, w) = (ok tt, w)

unfoldable pub process_messages : List Message → Exec Done
unfolding process_message process_short_row in_session
process_messages [] = pure tt
process_messages (m ∷ ms) = do
  λ w. delete_if_done batches_queue m (process_body m.body w)
  process_messages ms

abbrev pub rolled_back_on_error : Result Done × World → Result Done × World
rolled_back_on_error (ok a, w) = (ok a, w)
rolled_back_on_error (err e, w) = (err e, (rollback w).1)

-- The record of a dead letter.
abbrev pub recorded : Uuid → Option Text → Exec Done
recorded batch_id external_ref w =
    rolled_back_on_error ((do add_failure batch_id 0 external_ref processing_failed; do_commit) w)

abbrev pub record_body : Body → Exec Done
record_body (row p) = recorded p.batch_id (some p.external_ref)
record_body (short_row i external_ref) = recorded i external_ref
record_body _ = raise key_error

unfoldable pub record_messages : List Message → Exec Done
unfolding add_failure rollback
record_messages [] = pure tt
record_messages (m ∷ ms) = do
  λ w. delete_if_done batches_dlq m (record_body m.body w)
  record_messages ms

unfoldable pub drain_dlq_once : Exec ℕ
unfolding record_messages
drain_dlq_once = do
  messages ← receive batches_dlq dlq_max_messages
  record_messages messages
  pure (length messages)

unfoldable pub poll_once : Exec Done
unfolding process_messages drain_dlq_once in_session
poll_once = do
  messages ← receive batches_queue poll_max_messages
  process_messages messages
  in_session drain_dlq_once
  pure tt
