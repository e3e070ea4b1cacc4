-- ===== src/Batches/Service.antt =====
-- batches_service.py: creating a batch, its progress, and cancelling it.
use prompt_patrol.Common.{
  ℕ, ◌+◌, ◌-◌, Bool, Option, none, some, List, [], ◌∷◌, ◌++◌, Text, ◌==◌, ◌&&◌, not, find, length,
  select, sort_by, leb, update_where, if◌then◌else◌,
}
use prompt_patrol.Models.{
  Db, Uuid, Time, User, root_admin, role_eq, owns, Batch, BatchRowFailure, RowReason, not_queued,
  Strictness,
}
use prompt_patrol.World.{
  Exec, World, Result, ok, err, pure, gets, modify, or_raise, ◌>>=◌, ◌>>◌, Done, clock, new_id,
  do_commit, Payload, csv_error, value_error,
}
use prompt_patrol.Aws.{download_object, enqueue_row, purge_batch_messages}
use prompt_patrol.Checks.{level_of}
use prompt_patrol.Users.Tables.{completed_rows}
use prompt_patrol.Batches.Parse.{Fields, Row, Failure, Parsed, parse_and_validate}

-- What a batch is asked for with.
pub record Upload : Type 0 where
  pub actor_id : Uuid
  pub upload_key : Text
  pub file_name : Text
  pub strictness : Text
  pub retain_answer : Bool
  pub column_mapping : Option Fields
  pub requires_question_text : Bool

abbrev pub payload_of : Upload → Uuid → Row → Payload
payload_of up batch_id r = record {
  batch_id = batch_id;
  actor_id = up.actor_id;
  strictness = up.strictness;
  retain_answer = up.retain_answer;
  external_ref = r.external_ref;
  answer_text = r.answer_text;
  question_text = r.question_text;
}

-- `except Exception`: the row is one of those that failed, before those of the later rows.
abbrev pub note_failed : Row → (World → List Row × World) → Result Done × World → List Row × World
note_failed r rest (ok _, w) = rest w
note_failed r rest (err e, w) = let (failed, w') = rest w in (r ∷ failed, w')

-- `_enqueue_rows`: the rows that SQS did not take. It never raises.
unfoldable pub enqueue_rows : Upload → Uuid → List Row → World → List Row × World
unfolding enqueue_row
enqueue_rows up batch_id [] w = ([], w)
enqueue_rows up batch_id (r ∷ rs) w =
    note_failed r (enqueue_rows up batch_id rs) (enqueue_row (payload_of up batch_id r) w)

abbrev returning : {A : Type 0} → (World → A × World) → Exec A
returning f w = let (a, w') = f w in (ok a, w')

abbrev pub failure_added : Uuid → Uuid → Time → ℕ → Option Text → RowReason → Db → Db
failure_added i batch_id now row_number external_ref reason db = record db {
  row_failures =
      db.row_failures
      ++ record {
        id = i;
        batch_id = batch_id;
        row_number = row_number;
        external_ref = external_ref;
        reason = reason;
        created_at = now;
      }
        ∷ [];
}

-- `db.add(BatchRowFailure(...))`
unfoldable pub add_failure : Uuid → ℕ → Option Text → RowReason → Exec Done
add_failure batch_id row_number external_ref reason = do
  i ← new_id
  now ← clock
  modify (failure_added i batch_id now row_number external_ref reason)

unfoldable pub add_failures : Uuid → List Failure → Exec Done
unfolding add_failure
add_failures batch_id [] = pure tt
add_failures batch_id (f ∷ fs) = do
  add_failure batch_id f.row_number f.external_ref f.reason
  add_failures batch_id fs

unfoldable pub add_unqueued : Uuid → List Row → Exec Done
unfolding add_failure
add_unqueued batch_id [] = pure tt
add_unqueued batch_id (r ∷ rs) = do
  add_failure batch_id 0 (some r.external_ref) not_queued
  add_unqueued batch_id rs

-- `if failed_rows: ... await db.commit()`
abbrev pub commit_unqueued : List Row → Exec Done
commit_unqueued [] = pure tt
commit_unqueued (_ ∷ _) = do_commit

abbrev pub batch_of : Upload → Uuid → Strictness → Time → Parsed → Batch
batch_of up i level now parsed = record {
  id = i;
  actor_id = up.actor_id;
  batch_file_name = up.file_name;
  strictness = level;
  retain_answer = up.retain_answer;
  requires_question_text = up.requires_question_text;
  row_total = length parsed.0 + length parsed.1;
  created_at = now;
  cancelled_at = none;
}

abbrev pub batch_added : Batch → Db → Db
batch_added b db = record db { batches = db.batches ++ b ∷ [] }

-- The rows are queued, and those that SQS does not take are recorded.
unfoldable pub queue_rows : Upload → Uuid → List Row → Exec Done
unfolding enqueue_rows add_unqueued
queue_rows up batch_id rows = do
  failed ← returning (enqueue_rows up batch_id rows)
  add_unqueued batch_id failed
  commit_unqueued failed

-- From the rows of the file on: the batch with its failed rows, then the queue.
unfoldable pub store_batch : Upload → Parsed → Exec Batch
unfolding add_failures queue_rows
store_batch up parsed = do
  i ← new_id
  level ← or_raise (level_of up.strictness) value_error
  now ← clock
  modify (batch_added (batch_of up i level now parsed))
  add_failures i parsed.1
  do_commit
  queue_rows up i parsed.0
  pure (batch_of up i level now parsed)

unfoldable pub create_batch : Upload → Exec Batch
unfolding download_object parse_and_validate store_batch
create_batch up = do
  content ← download_object up.upload_key
  read ← gets (λ w. w.outside.csv content)
  table ← or_raise read csv_error
  store_batch up (parse_and_validate table up.column_mapping up.requires_question_text)

abbrev pub has_batch_id : Uuid → Batch → Bool
has_batch_id i b = b.id == i

-- The guard of reading and cancelling: none for no batch and for another's.
abbrev pub accessible : User → Option Batch → Option Batch
accessible actor none = none
accessible actor (some b) =
    if not (owns actor b.actor_id b.created_at) && not (role_eq actor.role root_admin)
    then none
    else some b

pub record Progress : Type 0 where
  pub batch : Batch
  pub row_total : ℕ
  pub completed : ℕ
  pub failed : ℕ
  pub pending : ℕ
  pub failures : List BatchRowFailure

abbrev pub failures_of : Db → Uuid → List BatchRowFailure
failures_of db i =
    sort_by (λ a b. leb a.created_at b.created_at) (select (λ f. f.batch_id == i) db.row_failures)

abbrev pub progress_of : Db → Batch → Progress
progress_of db b = record {
  batch = b;
  row_total = b.row_total;
  completed = completed_rows db b.id;
  failed = length (failures_of db b.id);
  pending = b.row_total - completed_rows db b.id - length (failures_of db b.id);
  failures = failures_of db b.id;
}

abbrev pub progress_or_none : Db → Option Batch → Option Progress
progress_or_none db none = none
progress_or_none db (some b) = some (progress_of db b)

unfoldable pub get_batch_progress : User → Uuid → Exec (Option Progress)
unfolding owns completed_rows
get_batch_progress actor batch_id =
    gets λ w. progress_or_none w.db (accessible actor (find (has_batch_id batch_id) w.db.batches))

abbrev pub cancelled_set : Uuid → Time → Db → Db
cancelled_set i now db = record db {
  batches = update_where (has_batch_id i) (λ b. record b { cancelled_at = some now }) db.batches;
}

abbrev pub cancel_if : Batch → Option Time → Exec Batch
cancel_if b (some _) = pure b
cancel_if b none = do
  now ← clock
  modify (cancelled_set b.id now)
  do_commit
  purge_batch_messages (b.id ∷ [])
  pure (record b { cancelled_at = some now })

abbrev pub cancel_found : Option Batch → Exec (Option Batch)
cancel_found none = pure none
cancel_found (some b) = do cancelled ← cancel_if b b.cancelled_at; pure (some cancelled)

unfoldable pub cancel_batch : User → Uuid → Exec (Option Batch)
unfolding owns purge_batch_messages
cancel_batch actor batch_id = do
  found ← gets (λ w. accessible actor (find (has_batch_id batch_id) w.db.batches))
  cancel_found found
