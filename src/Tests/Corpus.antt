-- ===== src/Tests/Corpus.antt =====
-- The corpus of the detector (apps/data-pipeline/app/corpus and harness).
use prompt_patrol.Common.{
  ℕ, suc, zero, Bool, true, false, any, take, List, [], ◌∷◌, Text, text, text_eq, length, ◌≤◌, ◌≡◌,
  refl, inl, inr, arith, In, NoRepeats, length-take, some,
}
use prompt_patrol.Pipeline.Split.{train, is_in}
use prompt_patrol.Pipeline.Split.Whole.{is_in-true}
use prompt_patrol.Pipeline.Attach.{CorpusRow}
use prompt_patrol.Pipeline.Capping.{cap_train_humans}
use prompt_patrol.Pipeline.Pools.{pick_student_answer}
use prompt_patrol.Pipeline.Pools.Slots.{pick_student_answer-apart}
use prompt_patrol.Pipeline.Capping.Even.{IsSample, IsCapped, cap_train_humans-IsCapped}

pub absent : (t : Text) (ts : List Text) → is_in t ts ≡ false → ¬ In t ts
absent t ts e i = (let f : is_in t ts ≡ true = is_in-true t ts i in cc)

-- A sample that is the first elements.
take-In : (x : Text) (k : ℕ) (xs : List Text) → In x (take k xs) → In x xs
take-In x zero xs h = absurd h
take-In x (suc k) [] h = absurd h
take-In x (suc k) (y ∷ ys) (inl e) = inl e
take-In x (suc k) (y ∷ ys) (inr h) = inr (take-In x k ys h)

take-NoRepeats : (k : ℕ) (xs : List Text) → NoRepeats xs → NoRepeats (take k xs)
take-NoRepeats zero xs d = tt
take-NoRepeats (suc k) [] d = tt
take-NoRepeats (suc k) (x ∷ xs) d = ((λ i. d.0 (take-In x k xs i)), take-NoRepeats k xs d.1)

abbrev first_ids : Text → List Text → ℕ → List Text
first_ids question_id xs k = take k xs

first_ids-IsSample :
    (q : Text) (xs : List Text) (k : ℕ)
    → NoRepeats xs
    → k ≤ length xs
    → IsSample (first_ids q xs k) xs k
first_ids-IsSample q xs k d h = record {
  apart = take-NoRepeats k xs d;
  within = λ x i. take-In x k xs i;
  count = omega (arith, length-take k xs, h);
}

abbrev train_row : Text → Bool → CorpusRow
train_row answer_id is_ai = record {
  answer = text "a stack is last in first out";
  is_ai = is_ai;
  partition = train;
  question_id = text "q1";
  answer_id = answer_id;
  generator = text "g";
  dataset = text "d";
  tier = text "t";
}

-- Two human answers and one of the AI.
abbrev three_rows : List CorpusRow
three_rows =
    train_row (text "h2") false ∷ train_row (text "h1") false ∷ train_row (text "a1") true ∷ []

cap_train_humans-IsCapped_example : IsCapped three_rows (cap_train_humans first_ids three_rows).0
unfolding any text_eq
cap_train_humans-IsCapped_example =
    cap_train_humans-IsCapped first_ids three_rows
      (
        absent (text "h2") (text "h1" ∷ text "a1" ∷ []) refl,
        (absent (text "h1") (text "a1" ∷ []) refl, (absent (text "a1") [] refl, tt)),
      )
      first_ids-IsSample

-- Two generators, two samples each, and four student answers.
abbrev four_answers : List Text
four_answers = text "s1" ∷ text "s2" ∷ text "s3" ∷ text "s4" ∷ []

pick_student_answer-apart_example :
    ((x : Text) × ((pick_student_answer four_answers 0 2 2 ≡ some x) × In x four_answers))
    × (pick_student_answer four_answers 0 2 2 ≡ pick_student_answer four_answers 1 2 1
        → (◌≡◌ {A = ℕ} 0 1) × (◌≡◌ {A = ℕ} 2 1))
unfolding any text_eq
pick_student_answer-apart_example =
    pick_student_answer-apart four_answers 2 2 0 2 1 1
      (
        absent (text "s1") (text "s2" ∷ text "s3" ∷ text "s4" ∷ []) refl,
        (
          absent (text "s2") (text "s3" ∷ text "s4" ∷ []) refl,
          (absent (text "s3") (text "s4" ∷ []) refl, (absent (text "s4") [] refl, tt)),
        ),
      )
      (omega arith) (omega arith, omega arith, omega arith) (omega arith, omega arith, omega arith)
