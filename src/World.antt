-- ===== src/World.antt =====
-- What a service call acts on: its database session, the committed database, and the outside
-- world (clocks, random identifiers, Auth0, the detector, S3 and SQS), which this repository does
-- not hold and which is a parameter: each reply is a function of the calls made so far.
-- A call returns or raises; what it wrote before it raised stays in the session until it is closed.
use prompt_patrol.Common.{ℕ, Bool, true, false, not, Option, none, some, List, ◌∷◌, Text}
use prompt_patrol.Models.{Db, Float, Time, Uuid}

-- The payload of a queued row (batches_service.`_enqueue_rows`), its identifiers already read.
pub record Payload : Type 0 where
  pub batch_id : Uuid
  pub actor_id : Uuid
  pub strictness : Text
  pub retain_answer : Bool
  pub external_ref : Text
  pub answer_text : Text
  pub question_text : Option Text

-- What a queue message holds: text that is no JSON, JSON that is no object, an object with
-- no batch's identifier, one with an identifier but not all that a row has, or a row.
pub data Body : Type 0 where
  not_json no_object foreign_json : Body
  short_row : Uuid → Option Text → Body
  row : Payload → Body

pub record Message : Type 0 where
  pub body : Body
  pub receipt_handle : ℕ

pub data Queue : Type 0 where
  batches_queue batches_dlq : Queue

-- The requests of auth/management.py to Auth0.
pub data Request : Type 0 where
  post_token : Request
  change_password : Text → Request
  create_credential : Text → Request
  users_by_email : Text → Request
  delete_credential : Text → Request

-- A user of the Auth0 tenant, and whether one of its identities is of the database connection.
pub record Match : Type 0 where
  pub user_id : Text
  pub in_connection : Bool

pub data Json : Type 0 where
  token : Text → ℕ → Json
  created_id : Text → Json
  matches : List Match → Json
  other_json : Json

-- `transport_error` is an `httpx.HTTPError` raised by the request itself.
pub data HttpReply : Type 0 where
  transport_error : HttpReply
  response : ℕ → Json → HttpReply

-- `malformed` is a 200 whose body is no JSON or lacks a key that is read.
pub data DetectorReply : Type 0 where
  timed_out http_error malformed : DetectorReply
  scored : Float → Bool → DetectorReply

-- Of one request for work to the database server: done, refused by a unique index (as a concurrent
-- request may cause), failed, or done without an answer that
-- arrives. That last is also what a failed `db.refresh` after a commit amounts to, which only
-- `create_check` tells apart.
pub data CommitReply : Type 0 where
  committed integrity_violation connection_lost answer_lost : CommitReply

-- Of S3: the object is not there, its bytes are no UTF-8, its text, or another failure.
pub data ObjectReply : Type 0 where
  no_such_key not_utf8 s3_failed : ObjectReply
  content : Text → ObjectReply

pub data Call : Type 0 where
  now monotonic uuid4 token_urlsafe commit flush refresh : Call
  http : Request → Call
  score : Text → Call
  get_object : Text → Call
  send_message : Payload → Call
  receive_message : Queue → ℕ → Call
  delete_message : Queue → ℕ → Call

-- What `csv.DictReader` reads of a text: the header, if there is one, and each row's values by
-- column. A value that the row lacks is none; values without a column are left out, as the code
-- does with them.
pub record Table : Type 0 where
  pub fieldnames : Option (List Text)
  pub records : List (List (Text × Option Text))

-- The environment variables that the services read, and `abs(a - b)` of two floats.
pub record Settings : Type 0 where
  pub detector_threshold : Option Float
  pub abstention_band : Option Float
  pub model_version : Text
  pub calibration_version : Option Text
  pub distance : Float → Float → Float

pub record Outside : Type 0 where
  pub time : List Call → Time
  pub ticks : List Call → ℕ
  pub fresh : List Call → Uuid
  pub secret : List Call → Text
  pub reply : List Call → Request → HttpReply
  pub scores : List Call → Text → DetectorReply
  pub commits : List Call → CommitReply
  pub refreshes : List Call → Bool
  pub object : List Call → Text → ObjectReply
  pub sends : List Call → Bool
  pub receives : List Call → Queue → ℕ → Option (List Message)
  pub deletes : List Call → Bool
  pub sha256 : Text → Text
  pub csv : Text → Option Table
  pub settings : Settings

-- `db` is the session's view, `saved` what is committed, `token` the cached Management API token.
pub record World : Type 0 where
  pub db : Db
  pub saved : Db
  pub cached_token : Option (Text × ℕ)
  pub calls : List Call
  pub outside : Outside

pub data Refusal : Type 0 where
  only_deleted : Refusal
  other_role not_active : Refusal

-- The exceptions that the services raise.
pub data Error : Type 0 where
  permission_error user_not_found invalid_transition invalid_supervisor : Error
  email_exists auth0_provisioning integrity_error database_error : Error
  invalid_cursor detector_timeout detector_unavailable file_not_found : Error
  key_error value_error csv_error transport malformed_reply attribute_error : Error
  cannot_add : Refusal → Error

pub data Result (A : Type 0) : Type 0 where
  ok : A → Result A
  err : Error → Result A

abbrev pub Exec : Type 0 → Type 0
Exec A = World → Result A × World

module _ {A : Type 0} where
  unfoldable pub pure : A → Exec A
  pure a w = (ok a, w)

  unfoldable pub raise : Error → Exec A
  raise e w = (err e, w)

  unfoldable pub gets : (World → A) → Exec A
  gets f w = (ok (f w), w)

  unfoldable pub or_raise : Option A → Error → Exec A
  unfolding pure raise
  or_raise none e = raise e
  or_raise (some a) e = pure a

abbrev pub Done : Type 0
Done = Unit {0}

unfoldable pub raise_if : Bool → Error → Exec Done
unfolding pure raise
raise_if true e = raise e
raise_if false e = pure tt

-- `if b: m`
unfoldable pub when : Bool → Exec Done → Exec Done
unfolding pure
when true m = m
when false m = pure tt

-- A statement of the session: it changes the session's view only.
unfoldable pub modify : (Db → Db) → Exec Done
modify f w = (ok tt, record w { db = f w.db })

unfoldable pub ask : {A : Type 0} → Call → (Outside → List Call → A) → Exec A
ask c f w = (ok (f w.outside w.calls), record w { calls = c ∷ w.calls })

-- `try: m` with a handler for `httpx.HTTPError`
unfoldable pub except_transport : {A : Type 0} → Exec A → Exec A → Exec A
except_transport m handler w =
    let (r, w') = m w in
    elim r [ ok a ↦ (ok a, w') | err transport ↦ handler w' | err e ↦ (err e, w') ]

-- The rest of a block, after a step that has returned or raised.
abbrev pub feed : {A B : Type 0} → (A → Exec B) → Result A × World → Result B × World
feed f (ok a, w) = f a w
feed f (err e, w) = (err e, w)

infixl 5 ◌>>=◌ ◌>>◌
-- Opening this opens the steps above too.
unfoldable pub ◌>>=◌ : {A B : Type 0} → Exec A → (A → Exec B) → Exec B
unfolding pure raise gets or_raise raise_if when modify ask except_transport
◌>>=◌ m f w = feed f (m w)

abbrev pub ◌>>◌ : {A B : Type 0} → Exec A → Exec B → Exec B
m >> k = m >>= λ _. k

-- `datetime.now(UTC)`, `uuid.uuid4()`
abbrev pub clock : Exec Time
clock = ask now (λ o. o.time)

abbrev pub new_id : Exec Uuid
new_id = ask uuid4 (λ o. o.fresh)

abbrev pub finish_commit : CommitReply → Exec Done
finish_commit committed w = (ok tt, record w { saved = w.db })
finish_commit integrity_violation w = (err integrity_error, w)
finish_commit connection_lost w = (err database_error, w)
finish_commit answer_lost w = (err database_error, record w { saved = w.db })

-- `db.commit()`
unfoldable pub do_commit : Exec Done
unfolding ◌>>=◌
do_commit = ask commit (λ o. o.commits) >>= finish_commit

abbrev pub finish_flush : CommitReply → Exec Done
finish_flush committed w = (ok tt, w)
finish_flush integrity_violation w = (err integrity_error, w)
finish_flush connection_lost w = (err database_error, w)
finish_flush answer_lost w = (err database_error, w)

-- `db.flush()`
unfoldable pub do_flush : Exec Done
unfolding ◌>>=◌
do_flush = ask flush (λ o. o.commits) >>= finish_flush

-- `db.refresh(row)`, of a row that was just committed
unfoldable pub do_refresh : Exec Done
unfolding ◌>>=◌
do_refresh = ask refresh (λ o. o.refreshes) >>= λ done. raise_if (not done) database_error

-- `db.rollback()`, and what closing the session does with what is not committed.
unfoldable pub rollback : Exec Done
rollback w = (ok tt, record w { db = w.saved })

-- One request: the handler, then the session's close (db.py `get_db`).
unfoldable pub in_session : {A : Type 0} → Exec A → Exec A
unfolding rollback
in_session m w = let (r, w') = m w in (r, (rollback w').1)
