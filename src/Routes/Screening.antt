-- ===== src/Routes/Screening.antt =====
-- The endpoints of routes/checks_routes.py and routes/batches_routes.py that submit or stop work.
pub mod Errors
pub mod Statuses
pub mod Uploads
use prompt_patrol.Common.{
  ℕ, Bool, true, false, Option, none, some, List, ◌∷◌, ◌++◌, Text, text, ltb, ◌||◌, not, length,
  if◌then◌else◌,
}
use prompt_patrol.Models.{Uuid, User, Check, Batch, is_none, teaching_assistant}
use prompt_patrol.World.{
  World, Exec, Result, ok, err, Error, ◌>>=◌, pure, detector_timeout, detector_unavailable,
  file_not_found, new_id,
}
use prompt_patrol.Cursors.Uuids.{uuid_text, starts_with}
use prompt_patrol.Checks.{level_of, Submission, create_check}
use prompt_patrol.Batches.Parse.{Fields}
use prompt_patrol.Batches.Service.{Upload, create_batch, Progress, get_batch_progress, cancel_batch}
use prompt_patrol.Routes.SignIn.{require_role, require_screening_access}
use prompt_patrol.Routes.Replies.{
  Reply, success, http_exception, validation_error, unhandled, Detail, plain, coded, behind,
}

-- `CheckCreateRequest`
pub record CheckCreateRequest : Type 0 where
  pub answer_text : Text
  pub question_text : Option Text
  pub external_ref : Option Text
  pub strictness : Text
  pub retain_answer : Bool

abbrev longer_than : ℕ → Option Text → Bool
longer_than n none = false
longer_than n (some s) = ltb n (length s)

-- The bounds that pydantic checks.
abbrev pub check_is_invalid : CheckCreateRequest → Bool
check_is_invalid body = longer_than 2000 body.question_text || longer_than 128 body.external_ref

abbrev pub submission_of : Uuid → CheckCreateRequest → Submission
submission_of actor_id body = record {
  actor_id = actor_id;
  answer_text = body.answer_text;
  question_text = body.question_text;
  external_ref = body.external_ref;
  strictness = body.strictness;
  retain_answer = body.retain_answer;
  batch_id = none;
  batch_file_name = none;
}

abbrev pub check_failure : Error → Reply Check
check_failure detector_timeout = http_exception 504 (coded (text "detector_timeout"))
check_failure detector_unavailable = http_exception 503 (coded (text "detector_unavailable"))
check_failure e = unhandled e

abbrev pub check_reply : Result Check × World → Reply Check × World
check_reply (ok c, w) = (success 201 c, w)
check_reply (err e, w) = (check_failure e, w)

unfoldable pub submit_check : CheckCreateRequest → User → World → Reply Check × World
submit_check body user w =
    if check_is_invalid body
    then (validation_error, w)
    else if is_none (level_of body.strictness)
    then (http_exception 400 (coded (text "invalid_request")), w)
    else if ltb 10000 (length body.answer_text)
    then (http_exception 413 (coded (text "payload_too_large")), w)
    else if ltb (length body.answer_text) 10
    then (http_exception 400 (coded (text "invalid_request")), w)
    else check_reply (create_check (submission_of user.id body) w)

-- `POST /checks`
unfoldable pub create_check_route : CheckCreateRequest → Option Text → World → Reply Check × World
create_check_route body cookie w = behind (submit_check body) (require_screening_access cookie w)

-- `f"batches/{actor_id}/"`
abbrev pub key_prefix : Uuid → Text
key_prefix actor_id = text "batches/" ++ (uuid_text actor_id ++ (b'/' ∷ text ""))

-- The guard on the key of a submitted batch.
unfoldable pub issued_to : Uuid → Text → Bool
issued_to actor_id upload_key = starts_with (key_prefix actor_id) upload_key

-- The key of `aws_clients.generate_upload_url`; the URL signed for it is the library's.
unfoldable pub generate_upload_url : Text → Uuid → Exec Text
generate_upload_url file_name actor_id = do
  fresh ← new_id
  pure (key_prefix actor_id ++ (uuid_text fresh ++ (b'-' ∷ file_name)))

abbrev pub url_reply : Result Text × World → Reply Text × World
url_reply (ok key, w) = (success 200 key, w)
url_reply (err e, w) = (unhandled e, w)

unfoldable pub get_upload_url : Text → User → World → Reply Text × World
get_upload_url file_name user w =
    if ltb 255 (length file_name)
    then (validation_error, w)
    else url_reply (generate_upload_url file_name user.id w)

-- `POST /batches/upload-url`
unfoldable pub get_upload_url_route : Text → Option Text → World → Reply Text × World
get_upload_url_route file_name cookie w =
    behind (get_upload_url file_name) (require_screening_access cookie w)

-- `BatchCreateRequest`
pub record BatchCreateRequest : Type 0 where
  pub upload_key : Text
  pub file_name : Text
  pub strictness : Text
  pub retain_answer : Bool
  pub column_mapping : Option Fields

-- `DETECTOR_CAPABILITIES["requires_question_text"]`
abbrev requires_question_text : Bool
requires_question_text = false

abbrev pub upload_of : Uuid → BatchCreateRequest → Upload
upload_of actor_id body = record {
  actor_id = actor_id;
  upload_key = body.upload_key;
  file_name = body.file_name;
  strictness = body.strictness;
  retain_answer = body.retain_answer;
  column_mapping = body.column_mapping;
  requires_question_text = requires_question_text;
}

abbrev pub batch_failure : Error → Reply Batch
batch_failure file_not_found = http_exception 400 plain
batch_failure e = unhandled e

abbrev pub batch_reply : Result Batch × World → Reply Batch × World
batch_reply (ok b, w) = (success 202 b, w)
batch_reply (err e, w) = (batch_failure e, w)

unfoldable pub submit_batch : BatchCreateRequest → User → World → Reply Batch × World
submit_batch body user w =
    if ltb 255 (length body.file_name)
    then (validation_error, w)
    else if is_none (level_of body.strictness)
    then (http_exception 400 plain, w)
    else if not (issued_to user.id body.upload_key)
    then (http_exception 400 plain, w)
    else batch_reply (create_batch (upload_of user.id body) w)

-- `POST /batches`
unfoldable pub create_batch_route : BatchCreateRequest → Option Text → World → Reply Batch × World
create_batch_route body cookie w = behind (submit_batch body) (require_screening_access cookie w)

abbrev pub progress_reply : Result (Option Progress) × World → Reply Progress × World
progress_reply (ok none, w) = (http_exception 404 plain, w)
progress_reply (ok (some p), w) = (success 200 p, w)
progress_reply (err e, w) = (unhandled e, w)

abbrev pub then_progress : User → Uuid → Result (Option Batch) × World → Reply Progress × World
then_progress user batch_id (ok none, w) = (http_exception 404 plain, w)
then_progress user batch_id (ok (some b), w) = progress_reply (get_batch_progress user batch_id w)
then_progress user batch_id (err e, w) = (unhandled e, w)

unfoldable pub stop_batch : Uuid → User → World → Reply Progress × World
stop_batch batch_id user w = then_progress user batch_id (cancel_batch user batch_id w)

-- `POST /batches/{batch_id}/cancel`
unfoldable pub cancel_batch_route : Uuid → Option Text → World → Reply Progress × World
cancel_batch_route batch_id cookie w =
    behind (stop_batch batch_id) (require_role teaching_assistant cookie w)
