-- ===== src/Pipeline/Folds.antt =====
-- logo_folds.py: `leave_one_generator_out`.
pub mod HeldOut
use prompt_patrol.Common.{
  Bool, true, false, Option, none, some, List, [], ◌∷◌, ◌++◌, map, Text, text, text_eq, ◌&&◌, not,
  select, if◌then◌else◌,
}
use prompt_patrol.Pipeline.Split.{distinct_sorted}

pub record Answer : Type 0 where
  pub answer_id : Text
  pub generator : Text
  pub partition : Text

-- `HUMAN_LABEL`
abbrev pub human_label : Text
human_label = text "human"

abbrev pub is_human : Answer → Bool
is_human a = text_eq a.generator human_label

abbrev pub in_train : Answer → Bool
in_train a = text_eq a.partition (text "train")

unfoldable pub ai_generators : List Answer → List Text
ai_generators df =
    distinct_sorted (select (λ g. not (text_eq g human_label)) (map (λ a. a.generator) df))

pub record Fold : Type 0 where
  pub generator : Text
  pub train : List Answer
  pub test : List Answer

unfoldable pub fold_of : List Answer → Text → Fold
fold_of df generator =
    let human_rows = select is_human df in
    let held_out = select (λ a. text_eq a.generator generator) df in
    let other_ai = select (λ a. not (text_eq a.generator generator) && not (is_human a)) df in
    record {
      generator = generator;
      train = select in_train human_rows ++ other_ai;
      test = select (λ a. not (in_train a)) human_rows ++ held_out;
    }

abbrev pub folds_for : List Answer → List Text → Option (List Fold)
folds_for df [] = none
folds_for df (g ∷ gs) = some (map (fold_of df) (g ∷ gs))

-- None is the `ValueError` of a corpus without AI answers.
unfoldable pub leave_one_generator_out : List Answer → Option (List Fold)
leave_one_generator_out df = folds_for df (ai_generators df)
