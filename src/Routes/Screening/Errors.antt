-- ===== src/Routes/Screening/Errors.antt =====
-- Which exceptions checks_service.py and batches_service.py raise.
use prompt_patrol.Common.{
  ℕ, zero, suc, ◌+◌, Bool, true, false, Option, none, some, List, [], ◌∷◌, Text, ◌≡◌, refl,
}
use prompt_patrol.Models.{Uuid, Time, User, Batch, RowReason, not_queued, is_none}
use prompt_patrol.World.{
  Exec, Error, integrity_error, database_error, key_error, value_error, csv_error, transport,
  detector_timeout, detector_unavailable, file_not_found, DetectorReply, timed_out, http_error,
  malformed, malformed_reply, attribute_error, scored, or_raise, Body, not_json, no_object,
  foreign_json, short_row, row, ObjectReply, no_such_key, s3_failed, not_utf8, content, Message,
  Queue, batches_queue,
}
use prompt_patrol.Transactions.Raises.{
  Raises, raises_rules, Raises-pure, Raises-raise, Raises-do_commit, Raises-bind,
}
use prompt_patrol.Aws.{
  downloaded, download_object, delete_received, purge_received, belongs, if_belongs, drain,
  drain_step, purge_batch_messages,
}
use prompt_patrol.Checks.{level_of, score_result, create_check, Submission}
use prompt_patrol.Batches.Parse.{Row, Failure, Parsed}
use prompt_patrol.Batches.Service.{
  Upload, add_failure, add_failures, add_unqueued, commit_unqueued, queue_rows, store_batch,
  create_batch, cancel_batch, cancel_if, cancel_found,
}

-- A failed commit or a refused row.
abbrev pub is_database_fault : Error → Bool
is_database_fault integrity_error = true
is_database_fault database_error = true
is_database_fault _ = false

abbrev pub check_may : Error → Bool
check_may detector_timeout = true
check_may detector_unavailable = true
check_may malformed_reply = true
check_may e = is_database_fault e

or_raise-known :
    {A : Type 0} {may : Error → Bool} (o : Option A) (e : Error)
    → is_none o ≡ false
    → Raises may (or_raise o e)
unfolding or_raise
or_raise-known none e h = cc
or_raise-known (some a) e h = Raises-pure a

score_result-Raises : (r : DetectorReply) → Raises check_may (score_result r)
score_result-Raises timed_out = Raises-raise _ refl
score_result-Raises http_error = Raises-raise _ refl
score_result-Raises malformed = Raises-raise _ refl
score_result-Raises (scored s t) = Raises-pure _

-- `THRESHOLDS[strictness]` finds what the endpoint has checked.
pub create_check-Raises :
    (s : Submission) → is_none (level_of s.strictness) ≡ false → Raises check_may (create_check s)
unfolding create_check
create_check-Raises s h =
    search (raises_rules, score_result-Raises, or_raise-known (level_of s.strictness) key_error h)
      depth 14

abbrev pub batch_may : Error → Bool
batch_may file_not_found = true
batch_may csv_error = true
batch_may transport = true
batch_may value_error = true
batch_may e = is_database_fault e

add_failure-Raises :
    (i : Uuid) (n : ℕ) (ref : Option Text) (reason : RowReason)
    → Raises batch_may (add_failure i n ref reason)
unfolding add_failure
add_failure-Raises i n ref reason = search (raises_rules) depth 6

add_failures-Raises : (i : Uuid) (fs : List Failure) → Raises batch_may (add_failures i fs)
unfolding add_failures
add_failures-Raises i [] = Raises-pure tt
add_failures-Raises i (f ∷ fs) =
    Raises-bind (add_failure-Raises i f.row_number f.external_ref f.reason)
      λ done. add_failures-Raises i fs

add_unqueued-Raises : (i : Uuid) (rs : List Row) → Raises batch_may (add_unqueued i rs)
unfolding add_unqueued
add_unqueued-Raises i [] = Raises-pure tt
add_unqueued-Raises i (r ∷ rs) =
    Raises-bind (add_failure-Raises i 0 (some r.external_ref) not_queued)
      λ done. add_unqueued-Raises i rs

commit_unqueued-Raises : (rs : List Row) → Raises batch_may (commit_unqueued rs)
commit_unqueued-Raises [] = Raises-pure tt
commit_unqueued-Raises (r ∷ rs) = Raises-do_commit refl refl

queue_rows-Raises : (up : Upload) (i : Uuid) (rs : List Row) → Raises batch_may (queue_rows up i rs)
unfolding queue_rows
queue_rows-Raises up i rs =
    Raises-bind (record { at = λ w. tt })
      λ failed. Raises-bind (add_unqueued-Raises i failed) λ done. commit_unqueued-Raises failed

store_batch-Raises :
    (up : Upload) (parsed : Parsed)
    → is_none (level_of up.strictness) ≡ false
    → Raises batch_may (store_batch up parsed)
unfolding store_batch
store_batch-Raises up parsed h =
    search
      (
        raises_rules,
        or_raise-known (level_of up.strictness) value_error h,
        add_failures-Raises,
        queue_rows-Raises,
      )
      depth 12

downloaded-Raises : (r : ObjectReply) → Raises batch_may (downloaded r)
downloaded-Raises no_such_key = Raises-raise _ refl
downloaded-Raises s3_failed = Raises-raise _ refl
downloaded-Raises not_utf8 = Raises-raise _ refl
downloaded-Raises (content text) = Raises-pure text

pub create_batch-Raises :
    (up : Upload) → is_none (level_of up.strictness) ≡ false → Raises batch_may (create_batch up)
unfolding create_batch download_object
create_batch-Raises up h =
    search (raises_rules, downloaded-Raises, λ (parsed : Parsed). store_batch-Raises up parsed h)
      depth 8

abbrev pub cancel_may : Error → Bool
cancel_may transport = true
cancel_may attribute_error = true
cancel_may e = is_database_fault e

delete_received-Raises : (q : Queue) (m : Message) → Raises cancel_may (delete_received q m)
delete_received-Raises q m = search (raises_rules) depth 4

belongs-Raises : (bs : List Uuid) (b : Body) → Raises cancel_may (belongs bs b)
belongs-Raises bs not_json = Raises-pure false
belongs-Raises bs no_object = Raises-raise _ refl
belongs-Raises bs foreign_json = Raises-pure false
belongs-Raises bs (short_row i ref) = Raises-pure _
belongs-Raises bs (row p) = Raises-pure _

if_belongs-Raises :
    (purge skip : Exec ℕ)
    → Raises cancel_may purge
    → Raises cancel_may skip
    → (b : Bool) → Raises cancel_may (if_belongs purge skip b)
if_belongs-Raises purge skip h k true = h
if_belongs-Raises purge skip h k false = k

purge_received-Raises :
    (bs : List Uuid) (ms : List Message) (n : ℕ) → Raises cancel_may (purge_received bs ms n)
unfolding purge_received
purge_received-Raises bs [] n = Raises-pure n
purge_received-Raises bs (m ∷ ms) n = Raises-bind (belongs-Raises bs m.body) (
    if_belongs-Raises _ _
      (Raises-bind (delete_received-Raises batches_queue m)
        λ done. purge_received-Raises bs ms (n + 1))
      (purge_received-Raises bs ms n))

drain_step-Raises :
    (bs : List Uuid) (rest : ℕ → Exec ℕ) (n : ℕ) (ms : List Message)
    → ((k : ℕ) → Raises cancel_may (rest k))
    → Raises cancel_may (drain_step bs rest n ms)
drain_step-Raises bs rest n [] h = Raises-pure n
drain_step-Raises bs rest n (m ∷ ms) h = Raises-bind (purge_received-Raises bs (m ∷ ms) n) h

drain-Raises : (k : ℕ) (bs : List Uuid) (n : ℕ) → Raises cancel_may (drain k bs n)
unfolding drain
drain-Raises zero bs n = Raises-pure n
drain-Raises (suc k) bs n =
    search
      (
        raises_rules,
        λ (ms : List Message). drain_step-Raises bs (drain k bs) n ms (drain-Raises k bs),
      )
      depth 6

cancel_if-Raises : (b : Batch) (o : Option Time) → Raises cancel_may (cancel_if b o)
unfolding purge_batch_messages
cancel_if-Raises b (some t) = Raises-pure b
cancel_if-Raises b none = search (raises_rules, drain-Raises) depth 10

cancel_found-Raises : (o : Option Batch) → Raises cancel_may (cancel_found o)
cancel_found-Raises none = Raises-pure none
cancel_found-Raises (some b) = search (raises_rules, cancel_if-Raises b b.cancelled_at) depth 4

pub cancel_batch-Raises : (actor : User) (i : Uuid) → Raises cancel_may (cancel_batch actor i)
unfolding cancel_batch
cancel_batch-Raises actor i = search (raises_rules, cancel_found-Raises) depth 4
