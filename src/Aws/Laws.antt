-- ===== src/Aws/Laws.antt =====
-- The calls of AWS touch neither the session nor the committed database.
use prompt_patrol.Common.{ℕ, Bool, true, false, zero, suc, ◌+◌, List, [], ◌∷◌, Text}
use prompt_patrol.Models.{Uuid}
use prompt_patrol.World.{
  Exec, Message, Payload, Queue, Body, not_json, no_object, foreign_json, short_row, row,
  ObjectReply, no_such_key, s3_failed, not_utf8, content, file_not_found, transport, value_error,
  attribute_error,
}
use prompt_patrol.Transactions.{Silent, silent_rules, Silent-bind, Silent-pure, Silent-raise}
use prompt_patrol.Aws.{
  receive, delete_received, downloaded, download_object, enqueue_row, belongs, if_belongs,
  purge_received, drain_step, drain, purge_batch_messages, drain_batch_size,
  max_cancel_drain_iterations,
}
use prompt_patrol.World.{batches_queue}

pub receive-Silent : (q : Queue) (n : ℕ) → Silent (receive q n)
receive-Silent q n = search silent_rules

pub delete_received-Silent : (q : Queue) (m : Message) → Silent (delete_received q m)
delete_received-Silent q m = search silent_rules

downloaded-Silent : (r : ObjectReply) → Silent (downloaded r)
downloaded-Silent no_such_key = Silent-raise file_not_found
downloaded-Silent s3_failed = Silent-raise transport
downloaded-Silent not_utf8 = Silent-raise value_error
downloaded-Silent (content text) = Silent-pure text

download_object-Silent : (key : Text) → Silent (download_object key)
unfolding download_object
download_object-Silent key = search (silent_rules, downloaded-Silent)

enqueue_row-Silent : (p : Payload) → Silent (enqueue_row p)
unfolding enqueue_row
enqueue_row-Silent p = search silent_rules

belongs-Silent : (ids : List Uuid) (b : Body) → Silent (belongs ids b)
belongs-Silent ids not_json = Silent-pure false
belongs-Silent ids no_object = Silent-raise attribute_error
belongs-Silent ids foreign_json = Silent-pure false
belongs-Silent ids (short_row i ref) = Silent-pure _
belongs-Silent ids (row p) = Silent-pure _

if_belongs-Silent :
    (purge skip : Exec ℕ)
    → Silent purge
    → Silent skip
    → (b : Bool) → Silent (if_belongs purge skip b)
if_belongs-Silent purge skip h k true = h
if_belongs-Silent purge skip h k false = k

purge_received-Silent :
    (ids : List Uuid) (ms : List Message) (k : ℕ) → Silent (purge_received ids ms k)
unfolding purge_received
purge_received-Silent ids [] k = search silent_rules
purge_received-Silent ids (m ∷ ms) k = Silent-bind (belongs-Silent ids m.body) (
    if_belongs-Silent _ _
      (Silent-bind (delete_received-Silent batches_queue m)
        (λ _. purge_received-Silent ids ms (k + 1)))
      (purge_received-Silent ids ms k))

drain_step-Silent :
    (ids : List Uuid) (rest : ℕ → Exec ℕ) (k : ℕ) (ms : List Message)
    → ((j : ℕ) → Silent (rest j))
    → Silent (drain_step ids rest k ms)
drain_step-Silent ids rest k [] f = search silent_rules
drain_step-Silent ids rest k (m ∷ ms) f = Silent-bind (purge_received-Silent ids (m ∷ ms) k) f

drain-Silent : (n : ℕ) (ids : List Uuid) (k : ℕ) → Silent (drain n ids k)
unfolding drain
drain-Silent zero ids k = search silent_rules
drain-Silent (suc n) ids k =
    Silent-bind (receive-Silent batches_queue drain_batch_size)
      λ ms. drain_step-Silent ids (drain n ids) k ms (drain-Silent n ids)

pub purge_batch_messages-Silent : (ids : List Uuid) → Silent (purge_batch_messages ids)
unfolding purge_batch_messages
purge_batch_messages-Silent ids = drain-Silent max_cancel_drain_iterations ids 0
