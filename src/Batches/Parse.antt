-- ===== src/Batches/Parse.antt =====
-- batches_service.py: `_validate_row` and `parse_and_validate`, over what `csv.DictReader` reads.
use prompt_patrol.Common.{
  ℕ, ◌+◌, ◌-◌, Bool, true, false, Option, none, some, List, [], ◌∷◌, Text, text, text_eq, ltb, ◌&&◌,
  not, any, length, select, if◌then◌else◌,
}
use prompt_patrol.Models.{
  RowReason, file_empty, over_row_limit, missing_columns, ref_empty, ref_too_long, answer_empty,
  answer_too_few, answer_too_many, question_too_long, question_required, is_none,
}
use prompt_patrol.World.{Table}
use prompt_patrol.Users.Email.{strip}

abbrev pub max_rows : ℕ
max_rows = 500

abbrev pub answer_min_chars : ℕ
answer_min_chars = 10

abbrev pub answer_max_chars : ℕ
answer_max_chars = 10000

abbrev pub external_ref_max_chars : ℕ
external_ref_max_chars = 128

abbrev pub question_max_chars : ℕ
question_max_chars = 2000

-- `REQUIRED_FIELDS`, in the order in which the code sorts those that are missing.
abbrev pub required_fields : List Text
required_fields = text "answer_text" ∷ text "external_ref" ∷ []

-- A `dict` built from pairs: of two with one key the later counts.
abbrev pub Fields : Type 0
Fields = List (Text × Text)

abbrev pub or_else : {A : Type 0} → Option A → A → A
or_else none a = a
or_else (some b) a = b

-- `d.get(key)`
abbrev pub lookup : Text → Fields → Option Text
lookup key [] = none
lookup key ((k, v) ∷ d) =
    let later = lookup key d in if is_none later && text_eq k key then some v else later

-- `d.get(key, default)`
abbrev pub get : Fields → Text → Text → Text
get d key default = or_else (lookup key d) default

-- `fields.get(key, "").strip()`
abbrev pub stripped : Fields → Text → Text
stripped fields key = strip (get fields key [])

-- `not s`, of a text.
abbrev pub is_empty : Text → Bool
is_empty [] = true
is_empty (_ ∷ _) = false

-- `s or None`
abbrev pub non_empty : Text → Option Text
non_empty [] = none
non_empty (c ∷ s) = some (c ∷ s)

-- The rules of `_validate_row`, on the three stripped values.
unfoldable pub row_reason : Text → Text → Text → Bool → Option RowReason
row_reason external_ref answer_text question_text requires_question_text =
    if is_empty external_ref
    then some ref_empty
    else if ltb external_ref_max_chars (length external_ref)
    then some ref_too_long
    else if is_empty answer_text
    then some answer_empty
    else if ltb (length answer_text) answer_min_chars
    then some answer_too_few
    else if ltb answer_max_chars (length answer_text)
    then some answer_too_many
    else if not (is_empty question_text) && ltb question_max_chars (length question_text)
    then some question_too_long
    else if requires_question_text && is_empty question_text
    then some question_required
    else none

-- `_validate_row`
unfoldable pub validate_row : Fields → Bool → Option RowReason
unfolding row_reason strip
validate_row fields requires_question_text =
    row_reason (stripped fields (text "external_ref")) (stripped fields (text "answer_text"))
      (stripped fields (text "question_text")) requires_question_text

-- A row that is good, and one that is not.
pub record Row : Type 0 where
  pub external_ref : Text
  pub answer_text : Text
  pub question_text : Option Text

pub record Failure : Type 0 where
  pub row_number : ℕ
  pub external_ref : Option Text
  pub reason : RowReason

abbrev pub Parsed : Type 0
Parsed = List Row × List Failure

-- `{header_to_field[h]: (v or "") for h, v in raw_row.items() if h in header_to_field}`
abbrev pub fields_of : Fields → List Text → List (Text × Option Text) → Fields
fields_of mapping headers [] = []
fields_of mapping headers ((h, v) ∷ raw_row) =
    let rest = fields_of mapping headers raw_row in
    if any (text_eq h) headers then (get mapping h h, or_else v []) ∷ rest else rest

abbrev pub row_of : Fields → Row
row_of fields = record {
  external_ref = stripped fields (text "external_ref");
  answer_text = stripped fields (text "answer_text");
  question_text = non_empty (stripped fields (text "question_text"));
}

abbrev over_limit : ℕ → Failure
over_limit row_number = record {
  row_number = row_number;
  external_ref = none;
  reason = over_row_limit;
}

abbrev pub failure_of : ℕ → Fields → RowReason → Failure
failure_of row_number fields reason = record {
  row_number = row_number;
  external_ref = non_empty (stripped fields (text "external_ref"));
  reason = reason;
}

abbrev sorted_row : ℕ → Fields → Option RowReason → Parsed → Parsed
sorted_row row_number fields none rest = (row_of fields ∷ rest.0, rest.1)
sorted_row row_number fields (some reason) rest =
    (rest.0, failure_of row_number fields reason ∷ rest.1)

-- The loop over the rows. The first is row 2 of the file, below the header.
unfoldable pub parse_rows :
    Fields → List Text → Bool → ℕ → List (List (Text × Option Text)) → Parsed
unfolding validate_row
parse_rows mapping headers requires_question_text row_number [] = ([], [])
parse_rows mapping headers requires_question_text row_number (raw_row ∷ raw_rows) =
    let rest = parse_rows mapping headers requires_question_text (row_number + 1) raw_rows in
    let fields = fields_of mapping headers raw_row in
    if ltb max_rows (row_number - 1)
    then (rest.0, over_limit row_number ∷ rest.1)
    else sorted_row row_number fields (validate_row fields requires_question_text) rest

-- One failure for the whole file.
abbrev pub file_failure : RowReason → Parsed
file_failure reason = ([], record { row_number = 0; external_ref = none; reason = reason } ∷ [])

abbrev pub missing_of : Fields → List Text → List Text
missing_of mapping headers =
    select (λ f. not (any (λ h. text_eq (get mapping h h) f) headers)) required_fields

abbrev pub by_missing : List Text → Parsed → Parsed
by_missing [] parsed = parsed
by_missing (f ∷ fs) parsed = file_failure (missing_columns (f ∷ fs))

unfoldable pub parse_and_validate : Table → Option Fields → Bool → Parsed
unfolding parse_rows
parse_and_validate table column_mapping requires_question_text = elim table.fieldnames [
  | none ↦ file_failure file_empty
  | some headers ↦
      by_missing (missing_of (or_else column_mapping []) headers)
        (parse_rows (or_else column_mapping []) headers requires_question_text 2 table.records)
]
