-- ===== src/Routes/Screening/Statuses.antt =====
-- Which exceptions leave the endpoints of routes/checks_routes.py and batches_routes.py unhandled.
use prompt_patrol.Common.{
  Bool, true, false, Option, none, some, Text, ltb, length, not, if◌then◌else◌, ◌≡◌, refl, arith,
}
use prompt_patrol.Models.{Uuid, User, Check, Batch, is_none, teaching_assistant}
use prompt_patrol.World.{
  World, Result, ok, err, Error, integrity_error, database_error, csv_error, transport, value_error,
  malformed_reply, detector_timeout, detector_unavailable, file_not_found,
}
use prompt_patrol.Transactions.Raises.{Raises, Within, Raises-gets}
use prompt_patrol.Checks.{level_of}
use prompt_patrol.Batches.Service.{cancel_batch, get_batch_progress, Progress}
use prompt_patrol.Routes.SignIn.{Gate, pass, unauthorized, forbidden}
use prompt_patrol.Routes.SignIn.Errors.{require_role-Raises, require_screening_access-Raises}
use prompt_patrol.Routes.Replies.{
  Reply, success, http_exception, validation_error, unhandled, behind,
}
use prompt_patrol.Routes.Screening.{
  CheckCreateRequest, check_is_invalid, submission_of, check_failure, check_reply, submit_check,
  create_check_route, BatchCreateRequest, issued_to, upload_of, batch_failure, batch_reply,
  submit_batch, create_batch_route, progress_reply, then_progress, stop_batch, cancel_batch_route,
}
use prompt_patrol.Routes.Screening.Errors.{
  is_database_fault, check_may, batch_may, cancel_may, create_check-Raises, create_batch-Raises,
  cancel_batch-Raises,
}

-- Which exceptions may still leave an endpoint.
abbrev pub Leaves : {A : Type 0} → (Error → Bool) → Reply A → Type 0
Leaves may (success status a) = Unit
Leaves may (http_exception status detail) = Unit
Leaves may validation_error = Unit
Leaves may (unhandled e) = may e ≡ true

behind-Leaves :
    {A : Type 0} (may : Error → Bool) (f : User → World → Reply A × World)
    → ((u : User) (w : World) → Leaves may (f u w).0)
    → (x : Result (Gate User) × World) → Within may x
    → Leaves may (behind f x).0
behind-Leaves may f k (ok (pass user), w) h = k user w
behind-Leaves may f k (ok (unauthorized why), w) h = tt
behind-Leaves may f k (ok forbidden, w) h = tt
behind-Leaves may f k (err e, w) h = h

Leaves-if :
    {A : Type 0} (may : Error → Bool) (b : Bool) (x y : Reply A × World)
    → (b ≡ true → Leaves may x.0)
    → (b ≡ false → Leaves may y.0)
    → Leaves may (if◌then◌else◌ {A = Reply A × World} b x y).0
Leaves-if may true x y h k = h refl
Leaves-if may false x y h k = k refl

get_batch_progress-Raises :
    {may : Error → Bool} (u : User) (i : Uuid) → Raises may (get_batch_progress u i)
unfolding get_batch_progress
get_batch_progress-Raises u i = Raises-gets _

abbrev pub check_left : Error → Bool
check_left malformed_reply = true
check_left e = is_database_fault e

check_failure-Leaves : (e : Error) → check_may e ≡ true → Leaves check_left (check_failure e)
check_failure-Leaves detector_timeout h = tt
check_failure-Leaves detector_unavailable h = tt
check_failure-Leaves malformed_reply h = refl
check_failure-Leaves integrity_error h = refl
check_failure-Leaves database_error h = refl
check_failure-Leaves _ h = ground arith

check_reply-Leaves :
    (x : Result Check × World) → Within check_may x → Leaves check_left (check_reply x).0
check_reply-Leaves (ok c, w) h = tt
check_reply-Leaves (err e, w) h = check_failure-Leaves e h

submit_check-Leaves :
    (body : CheckCreateRequest) (u : User) (w : World) → Leaves check_left (submit_check body u w).0
unfolding submit_check
submit_check-Leaves body u w =
    Leaves-if _ (check_is_invalid body) _ _ (λ t. tt)
      λ valid.
        Leaves-if _ (is_none (level_of body.strictness)) _ _ (λ t. tt)
          λ known.
            Leaves-if _ (ltb 10000 (length body.answer_text)) _ _ (λ t. tt)
              λ short.
                Leaves-if _ (ltb (length body.answer_text) 10) _ _ (λ t. tt)
                  λ long.
                    check_reply-Leaves _
                      ((create_check-Raises (submission_of u.id body) known).at w)

abbrev pub batch_left : Error → Bool
batch_left csv_error = true
batch_left transport = true
batch_left value_error = true
batch_left e = is_database_fault e

batch_failure-Leaves : (e : Error) → batch_may e ≡ true → Leaves batch_left (batch_failure e)
batch_failure-Leaves file_not_found h = tt
batch_failure-Leaves csv_error h = refl
batch_failure-Leaves transport h = refl
batch_failure-Leaves value_error h = refl
batch_failure-Leaves integrity_error h = refl
batch_failure-Leaves database_error h = refl
batch_failure-Leaves _ h = ground arith

batch_reply-Leaves :
    (x : Result Batch × World) → Within batch_may x → Leaves batch_left (batch_reply x).0
batch_reply-Leaves (ok b, w) h = tt
batch_reply-Leaves (err e, w) h = batch_failure-Leaves e h

submit_batch-Leaves :
    (body : BatchCreateRequest) (u : User) (w : World) → Leaves batch_left (submit_batch body u w).0
unfolding submit_batch
submit_batch-Leaves body u w =
    Leaves-if _ (ltb 255 (length body.file_name)) _ _ (λ t. tt)
      λ short.
        Leaves-if _ (is_none (level_of body.strictness)) _ _ (λ t. tt)
          λ known.
            Leaves-if _ (not (issued_to u.id body.upload_key)) _ _ (λ t. tt)
              λ own. batch_reply-Leaves _ ((create_batch-Raises (upload_of u.id body) known).at w)

progress_reply-Leaves :
    (x : Result (Option Progress) × World)
    → Within cancel_may x
    → Leaves cancel_may (progress_reply x).0
progress_reply-Leaves (ok none, w) h = tt
progress_reply-Leaves (ok (some p), w) h = tt
progress_reply-Leaves (err e, w) h = h

stop_batch-Leaves : (i : Uuid) (u : User) (w : World) → Leaves cancel_may (stop_batch i u w).0
unfolding stop_batch
stop_batch-Leaves i u w = stopped (cancel_batch u i w) ((cancel_batch-Raises u i).at w)
  where
    stopped :
        (x : Result (Option Batch) × World)
        → Within cancel_may x
        → Leaves cancel_may (then_progress u i x).0
    stopped (ok none, w) h = tt
    stopped (ok (some b), w) h =
        progress_reply-Leaves (get_batch_progress u i w) ((get_batch_progress-Raises u i).at w)
    stopped (err e, w) h = h

-- What leaves an endpoint unhandled: on submitting a check, a fault of the database or a 200 of the
-- detector that is no score; on submitting a batch, a fault of the database, a failure of S3 other
-- than a missing object, or a file that is no UTF-8 or no CSV; on cancelling one, a fault of the
-- database, a failed call of SQS or a message on the queue that is JSON but no object.
pub screening_routes-Leave :
    (cookie : Option Text) (w : World) (check : CheckCreateRequest) (batch : BatchCreateRequest)
    (batch_id : Uuid)
    → Leaves check_left (create_check_route check cookie w).0
      × Leaves batch_left (create_batch_route batch cookie w).0
      × Leaves cancel_may (cancel_batch_route batch_id cookie w).0
unfolding create_check_route create_batch_route cancel_batch_route
screening_routes-Leave cookie w check batch batch_id = (
  behind-Leaves _ _ (submit_check-Leaves check) _
      ((require_screening_access-Raises check_left refl refl cookie).at w),
  behind-Leaves _ _ (submit_batch-Leaves batch) _
      ((require_screening_access-Raises batch_left refl refl cookie).at w),
  behind-Leaves _ _ (stop_batch-Leaves batch_id) _
      ((require_role-Raises cancel_may refl refl teaching_assistant cookie).at w),
)
