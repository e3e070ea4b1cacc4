-- ===== src/Tests/Batches.antt =====
-- Batches and the worker (services/batches_service.py and apps/worker/worker/main.py).
use prompt_patrol.Common.{
  ◌≡◌, refl, ◌≤◌, false, some, List, [], ◌∷◌, Text, text, text_eq, length, find, select, any, take,
  map, All,
}
use prompt_patrol.World.{World}
use prompt_patrol.Users.Tables.{completed_rows}
use prompt_patrol.Batches.Parse.{max_rows, or_else, row_of, fields_of, parse_and_validate}
use prompt_patrol.Batches.Rows.{
  IsGood, is_valid, Covers, parse_and_validate-exactly, parse_and_validate-IsGood,
  parse_and_validate-Covers,
}
use prompt_patrol.Batches.Service.{Upload, create_batch, cancel_batch}
use prompt_patrol.Models.{standard}
use prompt_patrol.Batches.Returned.{Returns, create_batch-Returns}
use prompt_patrol.Batches.Created.{Accounts, create_batch-Accounts}
use prompt_patrol.Batches.Cancel.{
  Settled, cancel_batch-Settled, AddsUp, progress_in, get_batch_progress-AddsUp,
}
use prompt_patrol.Worker.{poll_once}
use prompt_patrol.Worker.Books.{Balanced, poll_once-Balanced}
use prompt_patrol.Worker.Cancelled.{CancelledWith, poll_once-CancelledWith}
use prompt_patrol.Tests.Office.{teacher, day, office, at_rest, upload_table, upload_mapping}

abbrev upload : Upload
upload = record {
  actor_id = 2;
  upload_key = text "uploads/week1.csv";
  file_name = text "week1.csv";
  strictness = text "standard";
  retain_answer = false;
  column_mapping = upload_mapping;
  requires_question_text = false;
}

abbrev columns : List Text
columns = text "id" ∷ text "answer_text" ∷ []

parse_and_validate-exactly_example :
    (parse_and_validate upload_table upload_mapping false).0
    ≡ map
        (λ r. row_of (fields_of (or_else upload_mapping []) columns r))
        (select
          (is_valid (or_else upload_mapping []) columns false)
          (take max_rows upload_table.records))
unfolding select any text_eq
parse_and_validate-exactly_example =
    parse_and_validate-exactly upload_table columns upload_mapping false refl refl

parse_and_validate-IsGood_example :
    All (IsGood false) (parse_and_validate upload_table upload_mapping false).0
    × (length (parse_and_validate upload_table upload_mapping false).0 ≤ max_rows)
parse_and_validate-IsGood_example = parse_and_validate-IsGood upload_table upload_mapping false

parse_and_validate-Covers_example :
    Covers upload_mapping false upload_table (parse_and_validate upload_table upload_mapping false)
parse_and_validate-Covers_example = parse_and_validate-Covers upload_table upload_mapping false

create_batch-Accounts_example : Accounts day (create_batch upload day)
create_batch-Accounts_example = create_batch-Accounts upload day refl

cancel_batch-Settled_example : Settled teacher 70 (cancel_batch teacher 70 day)
cancel_batch-Settled_example = cancel_batch-Settled teacher 70 day

get_batch_progress-AddsUp_example : AddsUp day.db 70 (progress_in teacher 70 day)
get_batch_progress-AddsUp_example = get_batch_progress-AddsUp teacher 70 day

poll_once-Balanced_example : Balanced day (poll_once day).1
poll_once-Balanced_example = poll_once-Balanced day refl

-- The same day, after the batch was cancelled.
abbrev later : World
later = at_rest (office (some 700))

cancelled_office : CancelledWith 70 2 later.saved
unfolding find completed_rows select
cancelled_office = record { cancelled = refl; checks = refl }

poll_once-CancelledWith_example : CancelledWith 70 2 (poll_once later).1.saved
poll_once-CancelledWith_example = poll_once-CancelledWith 70 2 later refl cancelled_office

create_batch-Returns_example : Returns (create_batch upload day)
unfolding text_eq
create_batch-Returns_example =
    create_batch-Returns upload day (text "csv") upload_table standard refl refl refl
      (λ calls. refl)
