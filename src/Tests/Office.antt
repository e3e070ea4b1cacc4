-- ===== src/Tests/Office.antt =====
-- The accounts, rows and replies that the examples use.
use prompt_patrol.Common.{
  ℕ, ◌+◌, ◌-◌, true, false, Option, none, some, List, [], ◌∷◌, text, length, if◌then◌else◌, leb,
}
use prompt_patrol.Models.{
  Db, empty_db, Uuid, User, UserRole, root_admin, instructor, teaching_assistant, active,
  Supervision, UserSession, Check, ai_generated, standard, Batch,
}
use prompt_patrol.World.{
  World, Outside, Settings, Message, row, not_json, Queue, batches_queue, batches_dlq, response,
  other_json, scored, committed, content, Table,
}
use prompt_patrol.Batches.Parse.{Fields}

abbrev pub account : Uuid → UserRole → User
account i role = record {
  id = i;
  email = text "staff@school.edu";
  auth0_sub = none;
  display_name = none;
  role = role;
  status = active;
  provisioned_by = none;
  created_at = 0;
  first_login_at = none;
  reprovisioned_at = none;
}

abbrev pub admin : User
admin = account 1 root_admin

abbrev pub teacher : User
teacher = account 2 instructor

abbrev pub assistant : User
assistant = account 3 teaching_assistant

abbrev pub assistant_link : Supervision
assistant_link = record {
  ta_id = 3;
  instructor_id = 2;
  created_by = some 1;
  ended_at = none;
  ended_by = none;
}

abbrev pub assistant_session : UserSession
assistant_session = record {
  id = 30;
  token_hash = text "t";
  user_id = 3;
  created_at = 500;
  last_active_at = 500;
  absolute_expires_at = 14400000500;
  deleted_at = none;
}

abbrev pub scored_check : Uuid → Check
scored_check i = record {
  id = i;
  actor_id = 2;
  batch_id = some 70;
  batch_file_name = none;
  external_ref = some (text "s1");
  verdict = ai_generated;
  raw_score = 0x3FF0000000000000;
  confidence = none;
  abstain_reason = none;
  truncated = false;
  model_version = [];
  calibration_version = none;
  strictness_applied = standard;
  threshold_applied = 0x3FE0000000000000;
  target_fpr = none;
  used_question_text = false;
  answer_text = none;
  question_text = none;
  answer_char_len = 20;
  retain_answer = false;
  latency_ms = none;
  created_at = 600;
}

abbrev pub batch_at : Option ℕ → Batch
batch_at cancelled_at = record {
  id = 70;
  actor_id = 2;
  batch_file_name = text "week1.csv";
  strictness = standard;
  retain_answer = false;
  requires_question_text = false;
  row_total = 5;
  created_at = 550;
  cancelled_at = cancelled_at;
}

abbrev pub office : Option ℕ → Db
office cancelled_at = record empty_db {
  users = admin ∷ teacher ∷ assistant ∷ [];
  supervisions = assistant_link ∷ [];
  sessions = assistant_session ∷ [];
  checks = scored_check 41 ∷ scored_check 42 ∷ [];
  batches = batch_at cancelled_at ∷ [];
}

-- A row of the batch, as it stands on the queue.
abbrev pub queued_row : Message
queued_row = record {
  body = row (record {
    batch_id = 70;
    actor_id = 2;
    strictness = text "standard";
    retain_answer = false;
    external_ref = text "s3";
    answer_text = text "an answer";
    question_text = none;
  });
  receipt_handle = 9;
}

abbrev pub stray : Message
stray = record { body = not_json; receipt_handle = 10 }

abbrev pub queued : Queue → List Message
queued batches_queue = queued_row ∷ stray ∷ []
queued batches_dlq = queued_row ∷ []

-- A good row, one without an answer, and one that is too short.
abbrev pub upload_table : Table
upload_table = record {
  fieldnames = some (text "id" ∷ text "answer_text" ∷ []);
  records =
      ((text "id", some (text "s1"))
        ∷ (text "answer_text", some (text "a long enough answer"))
        ∷ [])
      ∷ ((text "id", some (text "s2")) ∷ (text "answer_text", none) ∷ [])
      ∷ ((text "id", some (text "s3")) ∷ (text "answer_text", some (text "short")) ∷ [])
      ∷ [];
}

abbrev pub upload_mapping : Option Fields
upload_mapping = some ((text "id", text "external_ref") ∷ [])

abbrev pub demo_settings : Settings
demo_settings = record {
  detector_threshold = none;
  abstention_band = none;
  model_version = text "v1";
  calibration_version = none;
  distance = λ a b. if leb a b then b - a else a - b;
}

abbrev pub demo_outside : Outside
demo_outside = record {
  time = λ calls. 1000;
  ticks = λ calls. length calls;
  fresh = λ calls. 100 + length calls;
  secret = λ calls. text "secret";
  reply = λ calls r. response 201 other_json;
  scores = λ calls s. scored 0x3FF0000000000000 false;
  commits = λ calls. committed;
  refreshes = λ calls. true;
  object = λ calls key. content (text "csv");
  sends = λ calls. true;
  receives = λ calls q n. some (queued q);
  deletes = λ calls. true;
  sha256 = λ s. s;
  csv = λ s. some upload_table;
  settings = demo_settings;
}

-- A world with nothing uncommitted.
abbrev pub at_rest : Db → World
at_rest db = record { db = db; saved = db; cached_token = none; calls = []; outside = demo_outside }

abbrev pub day : World
day = at_rest (office none)
