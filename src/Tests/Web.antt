-- ===== src/Tests/Web.antt =====
-- Cursors, upload keys and the routes (apps/api/app/routes, middleware.py).
use prompt_patrol.Common.{◌⊎◌, inr, true, none, some, ◌∷◌, ◌++◌, Text, text, ◌≡◌, ◌↔◌, refl, arith}
use prompt_patrol.Models.{Uuid}
use prompt_patrol.World.{◌>>=◌}
use prompt_patrol.Cursors.{encode_cursor, decode_cursor}
use prompt_patrol.Cursors.RoundTrip.{decode_cursor-encode_cursor}
use prompt_patrol.Cursors.Uuids.{uuid_text, hex_onto, hex_digit}
use prompt_patrol.Routes.Screening.{
  CheckCreateRequest, BatchCreateRequest, issued_to, generate_upload_url, key_prefix,
  create_check_route, create_batch_route, cancel_batch_route,
}
use prompt_patrol.Routes.Screening.Uploads.{issued_to_exactly}
use prompt_patrol.Routes.Screening.Errors.{cancel_may}
use prompt_patrol.Routes.Screening.Statuses.{screening_routes-Leave, Leaves, check_left, batch_left}
use prompt_patrol.Routes.Reading.Gates.{SameTables}
use prompt_patrol.Routes.App.{HttpRequest, post_cancel, is_safe, handle}
use prompt_patrol.Routes.App.Forged.{handle-SameTables, same}
use prompt_patrol.Tests.Office.{day}

uuid_text_test :
    uuid_text 0x0123456789abcdef0123456789abcdef ≡ text "01234567-89ab-cdef-0123-456789abcdef"
unfolding uuid_text hex_onto hex_digit
uuid_text_test = refl

decode_cursor-encode_cursor_example : decode_cursor (encode_cursor 41) ≡ some 41
decode_cursor-encode_cursor_example = decode_cursor-encode_cursor 41 (omega arith)

abbrev issued_key : Text
issued_key = key_prefix 9 ++ (uuid_text (day.outside.fresh day.calls) ++ (b'-' ∷ text "a.csv"))

issued_to_exactly_example :
    ((issued_to 7 (text "batches/x") ≡ true)
      ↔ ((rest : Text) × (text "batches/x" ≡ key_prefix 7 ++ rest)))
    × ((issued_to 7 issued_key ≡ true) ↔ (◌≡◌ {A = Uuid} 7 9))
unfolding generate_upload_url ◌>>=◌
issued_to_exactly_example =
    issued_to_exactly 7 9 (text "a.csv") issued_key (text "batches/x") day (omega arith)
      (omega arith) refl

-- A cancelling of the batch from a page of another site, in a browser that sends no mark.
abbrev forged_request : HttpRequest
forged_request = record {
  route = post_cancel 70;
  cookie = some (text "t");
  fetch_site = none;
  origin = some (text "https://evil.example");
}

handle-SameTables_example :
    ((is_safe forged_request.route ≡ true)
      ⊎ (handle (text "https://patrol.example") forged_request day ≡ (403, day)))
    × SameTables day.saved (handle (text "https://patrol.example") forged_request day).1.saved
handle-SameTables_example =
    handle-SameTables (text "https://patrol.example") forged_request day (same day.saved)
      (inr (refl, λ e. cc)) refl

abbrev sent_check : CheckCreateRequest
sent_check = record {
  answer_text = text "a queue is first in first out";
  question_text = none;
  external_ref = none;
  strictness = text "standard";
  retain_answer = true;
}

abbrev sent_batch : BatchCreateRequest
sent_batch = record {
  upload_key = key_prefix 3 ++ text "a.csv";
  file_name = text "a.csv";
  strictness = text "standard";
  retain_answer = true;
  column_mapping = none;
}

screening_routes-Leave_example :
    Leaves check_left (create_check_route sent_check (some (text "t")) day).0
    × Leaves batch_left (create_batch_route sent_batch (some (text "t")) day).0
    × Leaves cancel_may (cancel_batch_route 70 (some (text "t")) day).0
screening_routes-Leave_example =
    screening_routes-Leave (some (text "t")) day sent_check sent_batch 70
