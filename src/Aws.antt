-- ===== src/Aws.antt =====
-- apps/api/app/services/aws_clients.py: S3 and SQS, over the outside world's replies. A refused
-- AWS call raises `transport`. `str(uuid)` is the identifier itself.
pub mod Laws
use prompt_patrol.Common.{
  ℕ, zero, suc, ◌+◌, Bool, true, false, Option, none, some, List, [], ◌∷◌, Text, any, ◌==◌,
  if◌then◌else◌,
}
use prompt_patrol.Models.{Uuid}
use prompt_patrol.World.{
  Exec, pure, raise, ask, or_raise, raise_if, ◌>>=◌, ◌>>◌, Done, Body, not_json, no_object,
  foreign_json, short_row, row, ObjectReply, no_such_key, not_utf8, s3_failed, content, value_error,
  attribute_error, Message, Payload, Queue, batches_queue, transport, file_not_found,
  receive_message, delete_message, send_message, get_object,
}
use prompt_patrol.Common.{not}

abbrev pub receive : Queue → ℕ → Exec (List Message)
receive q n = do
  reply ← ask (receive_message q n) (λ o calls. o.receives calls q n)
  or_raise reply transport

abbrev pub delete_received : Queue → Message → Exec Done
delete_received q m = do
  done ← ask (delete_message q m.receipt_handle) (λ o. o.deletes)
  raise_if (not done) transport

-- `NoSuchKey`, another error of S3, and the `UnicodeDecodeError` of `decode`, which is a `ValueError`.
abbrev pub downloaded : ObjectReply → Exec Text
downloaded no_such_key = raise file_not_found
downloaded s3_failed = raise transport
downloaded not_utf8 = raise value_error
downloaded (content text) = pure text

unfoldable pub download_object : Text → Exec Text
download_object key = do
  reply ← ask (get_object key) (λ o calls. o.object calls key)
  downloaded reply

unfoldable pub enqueue_row : Payload → Exec Done
enqueue_row payload = do
  sent ← ask (send_message payload) (λ o. o.sends)
  raise_if (not sent) transport

-- `payload.get("batch_id") in batch_ids`; a message that is no JSON is skipped, and JSON that is no
-- object has no `get`.
abbrev pub belongs : List Uuid → Body → Exec Bool
belongs batch_ids not_json = pure false
belongs batch_ids no_object = raise attribute_error
belongs batch_ids foreign_json = pure false
belongs batch_ids (short_row i external_ref) = pure (any (λ b. b == i) batch_ids)
belongs batch_ids (row p) = pure (any (λ b. b == p.batch_id) batch_ids)

abbrev pub if_belongs : Exec ℕ → Exec ℕ → Bool → Exec ℕ
if_belongs purge skip true = purge
if_belongs purge skip false = skip

unfoldable pub purge_received : List Uuid → List Message → ℕ → Exec ℕ
purge_received batch_ids [] removed = pure removed
purge_received batch_ids (m ∷ ms) removed =
    let next = purge_received batch_ids ms (removed + 1) in
    let skip = purge_received batch_ids ms removed in
    belongs batch_ids m.body >>= if_belongs (do delete_received batches_queue m; next) skip

abbrev pub drain_batch_size : ℕ
drain_batch_size = 10

abbrev pub max_cancel_drain_iterations : ℕ
max_cancel_drain_iterations = 200

-- One pass of the loop of `purge_batch_messages`: an empty reply ends it.
abbrev pub drain_step : List Uuid → (ℕ → Exec ℕ) → ℕ → List Message → Exec ℕ
drain_step batch_ids rest removed [] = pure removed
drain_step batch_ids rest removed (m ∷ ms) = do
  removed' ← purge_received batch_ids (m ∷ ms) removed
  rest removed'

unfoldable pub drain : ℕ → List Uuid → ℕ → Exec ℕ
unfolding purge_received
drain zero batch_ids removed = pure removed
drain (suc n) batch_ids removed = do
  messages ← receive batches_queue drain_batch_size
  drain_step batch_ids (drain n batch_ids) removed messages

unfoldable pub purge_batch_messages : List Uuid → Exec ℕ
unfolding drain
purge_batch_messages batch_ids = drain max_cancel_drain_iterations batch_ids 0
