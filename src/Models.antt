-- ===== src/Models.antt =====
-- The tables of apps/api/app/models: user.py, session.py, check.py and batch.py.
-- A UUID and a point in time (in microseconds) are natural numbers, which the code compares and
-- adds. A float is its IEEE bit pattern, so that a stored number is the stored number.
use prompt_patrol.Common.{
  ℕ, Bool, true, false, Option, none, some, List, [], Text, ◌==◌, leb, ◌&&◌, if◌then◌else◌,
}

abbrev pub Uuid : Type 0
Uuid = ℕ

abbrev pub Time : Type 0
Time = ℕ

abbrev pub Float : Type 0
Float = ℕ

pub data UserRole : Type 0 where
  root_admin instructor teaching_assistant : UserRole

pub data UserStatus : Type 0 where
  active deactivated deleted : UserStatus

abbrev pub role_eq : UserRole → UserRole → Bool
role_eq root_admin root_admin = true
role_eq instructor instructor = true
role_eq teaching_assistant teaching_assistant = true
role_eq _ _ = false

abbrev pub status_eq : UserStatus → UserStatus → Bool
status_eq active active = true
status_eq deactivated deactivated = true
status_eq deleted deleted = true
status_eq _ _ = false

-- `x is None`
abbrev pub is_none {ℓ} : {A : Type ℓ} → Option A → Bool
is_none none = true
is_none (some _) = false

pub record User : Type 0 where
  pub id : Uuid
  pub email : Text
  pub auth0_sub : Option Text
  pub display_name : Option Text
  pub role : UserRole
  pub status : UserStatus
  pub provisioned_by : Option Uuid
  pub created_at : Time
  pub first_login_at : Option Time
  pub reprovisioned_at : Option Time

-- `User.owns`
unfoldable pub owns : User → Uuid → Time → Bool
owns user actor_id created_at =
    if actor_id == user.id
    then elim user.reprovisioned_at [ none ↦ true | some since ↦ leb since created_at ]
    else false

-- `User.owned_by_clause`: the filter of a query, on a row's `actor_id` and `created_at`.
unfoldable pub owned_by_clause : User → Uuid → Time → Bool
owned_by_clause user actor_id created_at = elim user.reprovisioned_at [
  | none ↦ actor_id == user.id
  | some since ↦ actor_id == user.id && leb since created_at
]

pub record UserStatusEvent : Type 0 where
  pub user_id : Uuid
  pub actor_id : Option Uuid
  pub from_status : UserStatus
  pub to_status : UserStatus
  pub reason : Option Text

pub record UserRoleEvent : Type 0 where
  pub user_id : Uuid
  pub actor_id : Option Uuid
  pub from_role : UserRole
  pub to_role : UserRole

pub record Supervision : Type 0 where
  pub ta_id : Uuid
  pub instructor_id : Uuid
  pub created_by : Option Uuid
  pub ended_at : Option Time
  pub ended_by : Option Uuid

pub record UserSession : Type 0 where
  pub id : Uuid
  pub token_hash : Text
  pub user_id : Uuid
  pub created_at : Time
  pub last_active_at : Time
  pub absolute_expires_at : Time
  pub deleted_at : Option Time

pub data Verdict : Type 0 where
  ai_generated human_written uncertain : Verdict

pub data Strictness : Type 0 where
  lenient standard strict : Strictness

pub data AbstainReason : Type 0 where
  answer_too_short score_in_abstention_band : AbstainReason

pub record Check : Type 0 where
  pub id : Uuid
  pub actor_id : Uuid
  pub batch_id : Option Uuid
  pub batch_file_name : Option Text
  pub external_ref : Option Text
  pub verdict : Verdict
  pub raw_score : Float
  pub confidence : Option Float
  pub abstain_reason : Option AbstainReason
  pub truncated : Bool
  pub model_version : Text
  pub calibration_version : Option Text
  pub strictness_applied : Strictness
  pub threshold_applied : Float
  pub target_fpr : Option Float
  pub used_question_text : Bool
  pub answer_text : Option Text
  pub question_text : Option Text
  pub answer_char_len : ℕ
  pub retain_answer : Bool
  pub latency_ms : Option ℕ
  pub created_at : Time

pub record Batch : Type 0 where
  pub id : Uuid
  pub actor_id : Uuid
  pub batch_file_name : Text
  pub strictness : Strictness
  pub retain_answer : Bool
  pub requires_question_text : Bool
  pub row_total : ℕ
  pub created_at : Time
  pub cancelled_at : Option Time

-- The `reason` texts of a failed row, one constructor for each text that the code writes.
pub data RowReason : Type 0 where
  file_empty over_row_limit : RowReason
  missing_columns : List Text → RowReason
  ref_empty ref_too_long answer_empty answer_too_few answer_too_many : RowReason
  question_too_long question_required : RowReason
  not_queued batch_cancelled processing_failed : RowReason

pub record BatchRowFailure : Type 0 where
  pub id : Uuid
  pub batch_id : Uuid
  pub row_number : ℕ
  pub external_ref : Option Text
  pub reason : RowReason
  pub created_at : Time

-- The database: one list of rows for each table.
pub record Db : Type 0 where
  pub users : List User
  pub status_events : List UserStatusEvent
  pub role_events : List UserRoleEvent
  pub supervisions : List Supervision
  pub sessions : List UserSession
  pub checks : List Check
  pub batches : List Batch
  pub row_failures : List BatchRowFailure

abbrev pub empty_db : Db
empty_db = record {
  users = [];
  status_events = [];
  role_events = [];
  supervisions = [];
  sessions = [];
  checks = [];
  batches = [];
  row_failures = [];
}
