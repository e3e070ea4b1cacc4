-- ===== src/Batches/Rows.antt =====
-- What `parse_and_validate` does with the rows of a file (services/batches_service.py).
use prompt_patrol.Common.{
  ℕ, zero, suc, ◌+◌, ◌-◌, ◌≤◌, ◌<◌, ◌≡◌, refl, ap, Bool, true, false, Option, none, some, List, [],
  ◌∷◌, arith, Text, ltb, All, length, take, map, select, Bool-cases, Option-cases, inl, inr, ◌⊎◌,
  length-take, ltb→lt, ◌≢◌, sym, ◌∙◌, text,
}
use prompt_patrol.Models.{over_row_limit, file_empty, missing_columns, is_none}
use prompt_patrol.World.{Table}
use prompt_patrol.Batches.Parse.{
  Fields, Row, Failure, Parsed, stripped, max_rows, answer_min_chars, answer_max_chars,
  external_ref_max_chars, question_max_chars, row_reason, validate_row, fields_of, row_of,
  parse_rows, parse_and_validate, by_missing, missing_of, file_failure, or_else, non_empty,
}

-- The bounds of a good row.
pub record IsGood (requires_question_text : Bool) (r : Row) : Type 0 where
  pub has_ref : 0 < length r.external_ref
  pub ref_fits : length r.external_ref ≤ external_ref_max_chars
  pub answer_long : answer_min_chars ≤ length r.answer_text
  pub answer_fits : length r.answer_text ≤ answer_max_chars
  pub question_fits : length (or_else r.question_text []) ≤ question_max_chars
  pub has_question : requires_question_text ≡ true → 0 < length (or_else r.question_text [])

row_reason-IsGood :
    (ref answer question : Text) (requires : Bool)
    → row_reason ref answer question requires ≡ none
    → IsGood requires
        (record { external_ref = ref; answer_text = answer; question_text = non_empty question })
unfolding row_reason
row_reason-IsGood ref answer question requires h = record {
  has_ref = ground arith;
  ref_fits = ground arith;
  answer_long = ground arith;
  answer_fits = ground arith;
  question_fits = ground arith;
  has_question = λ q. ground arith;
}

module _ (mapping : Fields) (headers : List Text) (requires : Bool) where
  abbrev pub is_valid : List (Text × Option Text) → Bool
  is_valid raw_row = is_none (validate_row (fields_of mapping headers raw_row) requires)

  abbrev parsed_from : ℕ → List (List (Text × Option Text)) → Parsed
  parsed_from = parse_rows mapping headers requires

  -- The rows left of the 500, at a row number.
  parse_rows-accepted :
      (room n : ℕ) (raw_rows : List (List (Text × Option Text)))
      → room ≡ suc (suc max_rows) - n
      → 0 < n
      → (parsed_from n raw_rows).0
        ≡ map (λ r. row_of (fields_of mapping headers r)) (select is_valid (take room raw_rows))
  unfolding parse_rows select
  parse_rows-accepted zero n [] e p = refl
  parse_rows-accepted (suc room) n [] e p = refl
  parse_rows-accepted zero n (r ∷ rs) e p =
      let over : ltb max_rows (n - 1) ≡ true = ground arith in
      rw over (parse_rows-accepted zero (n + 1) rs (omega arith) (omega arith))
  parse_rows-accepted (suc room) n (r ∷ rs) e p =
      let under : ltb max_rows (n - 1) ≡ false = ground arith in
      let rest = parse_rows-accepted room (n + 1) rs (omega arith) (omega arith) in
      elim (Option-cases (validate_row (fields_of mapping headers r) requires)) [
        | inl valid ↦ rw (under, valid) (ap (λ q. row_of (fields_of mapping headers r) ∷ q) rest)
        | inr (why, invalid) ↦ rw (under, invalid) rest
      ]

  -- Why a row is failed: it lies beyond the 500, or breaks a rule.
  abbrev pub HasCause : ℕ → List (Text × Option Text) → Failure → Type 0
  HasCause n raw_row f =
      ((max_rows < n - 1) × (f.reason ≡ over_row_limit) × (f.external_ref ≡ none))
      ⊎ ((n - 1 ≤ max_rows)
          × (validate_row (fields_of mapping headers raw_row) requires ≡ some f.reason)
          × (f.external_ref
              ≡ non_empty (stripped (fields_of mapping headers raw_row) (text "external_ref"))))

  -- The rows of a file from a row number on, each accepted once or failed once, in their order.
  pub data Dealt : ℕ → List (List (Text × Option Text)) → List Row → List Failure → Type 0 where
    no_rows : (n : ℕ) → Dealt n [] [] []
    one_accepted :
        (n : ℕ) (raw_row : List (Text × Option Text)) (raw_rows : List (List (Text × Option Text)))
        (rows : List Row) (failed : List Failure)
        → n - 1 ≤ max_rows
        → is_valid raw_row ≡ true
        → Dealt (n + 1) raw_rows rows failed
        → Dealt n (raw_row ∷ raw_rows) (row_of (fields_of mapping headers raw_row) ∷ rows) failed
    one_failed :
        (n : ℕ) (raw_row : List (Text × Option Text)) (raw_rows : List (List (Text × Option Text)))
        (rows : List Row) (failed : List Failure) (f : Failure)
        → f.row_number ≡ n
        → HasCause n raw_row f
        → Dealt (n + 1) raw_rows rows failed
        → Dealt n (raw_row ∷ raw_rows) rows (f ∷ failed)

  parse_rows-Dealt :
      (n : ℕ) (raw_rows : List (List (Text × Option Text)))
      → Dealt n raw_rows (parsed_from n raw_rows).0 (parsed_from n raw_rows).1
  unfolding parse_rows
  parse_rows-Dealt n [] = no_rows n
  parse_rows-Dealt n (r ∷ rs) =
      let rest = parse_rows-Dealt (n + 1) rs in
      elim (Bool-cases (ltb max_rows (n - 1))) [
        | inl over ↦ rw over (one_failed n r rs _ _ _ refl (inl (ltb→lt _ _ over, refl, refl)) rest)
        | inr under ↦
            let within : n - 1 ≤ max_rows = ground (arith, under) in
            elim (Option-cases (validate_row (fields_of mapping headers r) requires)) [
              | inl valid ↦ rw (under, valid) (one_accepted n r rs _ _ within (rw valid refl) rest)
              | inr (why, invalid) ↦
                  rw (under, invalid)
                    (one_failed n r rs _ _ _ refl (inr (within, invalid, refl)) rest)
            ]
      ]

  accepted-IsGood :
      (raw_rows : List (List (Text × Option Text)))
      → All
          (IsGood requires)
          (map (λ r. row_of (fields_of mapping headers r)) (select is_valid raw_rows))
  unfolding select validate_row
  accepted-IsGood [] = tt
  accepted-IsGood (r ∷ rs) =
      elim (Option-cases (validate_row (fields_of mapping headers r) requires)) [
        | inl valid ↦ rw valid (row_reason-IsGood _ _ _ requires valid, accepted-IsGood rs)
        | inr (why, invalid) ↦ rw invalid (accepted-IsGood rs)
      ]

  length-accepted :
      (raw_rows : List (List (Text × Option Text)))
      → length (map (λ r. row_of (fields_of mapping headers r)) (select is_valid raw_rows))
        ≤ length raw_rows
  unfolding select
  length-accepted [] = omega arith
  length-accepted (r ∷ rs) = elim (Bool-cases (is_valid r)) [
    | inl e ↦ rw e (omega (arith, length-accepted rs))
    | inr e ↦ rw e (omega (arith, length-accepted rs))
  ]

-- Where the header has every required column, the accepted rows are the good ones among the first
-- 500 rows of the file, in their order and with their values stripped, and no others.
pub parse_and_validate-exactly :
    (table : Table) (headers : List Text) (column_mapping : Option Fields) (requires : Bool)
    → table.fieldnames ≡ some headers
    → missing_of (or_else column_mapping []) headers ≡ []
    → (parse_and_validate table column_mapping requires).0
      ≡ map
          (λ r. row_of (fields_of (or_else column_mapping []) headers r))
          (select
            (is_valid (or_else column_mapping []) headers requires)
            (take max_rows table.records))
unfolding parse_and_validate
parse_and_validate-exactly table headers column_mapping requires f m =
    rw (f, m)
      (parse_rows-accepted (or_else column_mapping []) headers requires max_rows 2 table.records
        refl (omega arith))

-- Every row that `parse_and_validate` accepts has a reference of 1 to 128 characters, an answer of
-- 10 to 10,000, a question of at most 2,000, and a question if one is required; and it accepts at
-- most 500 rows.
pub parse_and_validate-IsGood :
    (table : Table) (column_mapping : Option Fields) (requires : Bool)
    → All (IsGood requires) (parse_and_validate table column_mapping requires).0
      × (length (parse_and_validate table column_mapping requires).0 ≤ max_rows)
unfolding parse_and_validate
parse_and_validate-IsGood table column_mapping requires = elim (Option-cases table.fieldnames) [
  | inl e ↦ rw e (tt, omega arith)
  | inr (headers, e) ↦ rw e (by_columns headers (missing_of (or_else column_mapping []) headers))
]
  where
    by_columns :
        (headers missing : List Text)
        → All
            (IsGood requires)
            (by_missing missing
              (parsed_from (or_else column_mapping []) headers requires 2 table.records)).0
          × (length
                (by_missing missing
                  (parsed_from (or_else column_mapping []) headers requires 2 table.records)).0
              ≤ max_rows)
    by_columns headers (f ∷ fs) = (tt, omega arith)
    by_columns headers [] =
        let mapping = or_else column_mapping [] in
        rw
          (parse_rows-accepted mapping headers requires max_rows 2 table.records refl (omega arith))
          (
            accepted-IsGood mapping headers requires (take max_rows table.records),
            omega (
              arith,
              length-accepted mapping headers requires (take max_rows table.records),
              length-take max_rows table.records,
            ),
          )

missing-cases : (fs : List Text) → (fs ≡ []) ⊎ ((g : Text) × (gs : List Text) × (fs ≡ g ∷ gs))
missing-cases [] = inl refl
missing-cases (g ∷ gs) = inr (g, gs, refl)

-- What a file comes to: without a header, or without a required column in it, one failure for the
-- file as a whole; else each of its rows once, accepted or failed.
abbrev pub Covers : Option Fields → Bool → Table → Parsed → Type 0
Covers column_mapping requires table (rows, failed) =
    ((table.fieldnames ≡ none) × ((rows, failed) ≡ file_failure file_empty))
    ⊎ ((headers : List Text) × ((table.fieldnames ≡ some headers)
          × (((missing_of (or_else column_mapping []) headers ≢ [])
                × ((rows, failed)
                    ≡ file_failure
                        (missing_columns (missing_of (or_else column_mapping []) headers))))
              ⊎ ((missing_of (or_else column_mapping []) headers ≡ [])
                  × Dealt (or_else column_mapping []) headers requires 2 table.records rows
                      failed))))

-- `parse_and_validate` gives a single failure for the whole file exactly where there is no header or
-- it lacks a required column; else it deals with every row of the file once, in order and under its
-- number in the file: it accepts a row that is valid and among the first 500, and fails any other,
-- with the rule that it breaks or for the limit.
pub parse_and_validate-Covers :
    (table : Table) (column_mapping : Option Fields) (requires : Bool)
    → Covers column_mapping requires table (parse_and_validate table column_mapping requires)
unfolding parse_and_validate
parse_and_validate-Covers table column_mapping requires = elim (Option-cases table.fieldnames) [
  | inl e ↦ inl (e, rw e refl)
  | inr (headers, e) ↦ elim (missing-cases (missing_of (or_else column_mapping []) headers)) [
    | inl m ↦ inr (
      headers,
      (
        e,
        inr (
          m,
          rw (e, m) (parse_rows-Dealt (or_else column_mapping []) headers requires 2 table.records),
        ),
      ),
    )
    | inr (f, fs, m) ↦
        inr (headers, (e, inl ((λ k. (let no : f ∷ fs ≡ [] = sym m ∙ k in cc)), rw (e, m) refl)))
  ]
]
