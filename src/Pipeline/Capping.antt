-- ===== src/Pipeline/Capping.antt =====
-- corpus/build.py: `cap_train_humans`. The sample that `random.Random` draws for a question is a
-- parameter.
pub mod Even
use prompt_patrol.Common.{
  ℕ, Bool, not, ◌&&◌, List, [], map, Text, text_eq, ltb, length, select, sort_by, if◌then◌else◌,
}
use prompt_patrol.Pipeline.Groups.{text_lt, concat}
use prompt_patrol.Pipeline.Split.{train, is_in, distinct_sorted}
use prompt_patrol.Pipeline.Attach.{CorpusRow, partition_eq}

-- A row of `train_humans`; every label is the AI's or the human one.
abbrev pub is_train_human : CorpusRow → Bool
is_train_human r = not r.is_ai && partition_eq r.partition train

abbrev pub train_human_of : Text → CorpusRow → Bool
train_human_of question_id r = is_train_human r && text_eq r.question_id question_id

-- `ai_counts.get(question_id, 0)`
unfoldable pub ai_count : List CorpusRow → Text → ℕ
ai_count corpus question_id =
    length (select (λ r. r.is_ai && text_eq r.question_id question_id) corpus)

-- `sorted(group["answer_id"])`
unfoldable pub group_ids : List CorpusRow → Text → List Text
group_ids corpus question_id =
    sort_by text_lt (map (λ r. r.answer_id) (select (train_human_of question_id) corpus))

module _ (sample : Text → List Text → ℕ → List Text) (corpus : List CorpusRow) where
  -- `set(ids) - kept`, for a question over its limit.
  unfoldable pub dropped_of : Text → List Text
  dropped_of question_id =
      let ids = group_ids corpus question_id in
      let limit = ai_count corpus question_id in
      if ltb limit (length ids)
      then select (λ i. not (is_in i (sample question_id ids limit))) ids
      else []

  unfoldable pub dropped : List Text
  dropped =
      concat
        (map dropped_of (distinct_sorted (map (λ r. r.question_id) (select is_train_human corpus))))

  unfoldable pub cap_train_humans : List CorpusRow × ℕ
  cap_train_humans =
      (select (λ r. not (is_in r.answer_id dropped)) corpus, length (distinct_sorted dropped))
