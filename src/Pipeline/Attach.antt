-- ===== src/Pipeline/Attach.antt =====
-- corpus/attach_styles.py: `attach` and `check`. `clean_text` is a parameter.
pub mod Passes
use prompt_patrol.Common.{
  ℕ, ◌+◌, Bool, true, false, Option, none, some, List, [], ◌∷◌, ◌++◌, Text, text_eq, ltb, ◌&&◌,
  ◌||◌, not, any, find, if◌then◌else◌,
}
use prompt_patrol.Users.Email.{strip}
use prompt_patrol.Pipeline.Split.{Partition, train, val, test, is_in}
use prompt_patrol.Pipeline.Words.{count_words, min_words, is_blank}

-- A row of the corpus; `is_ai` is its label.
pub record CorpusRow : Type 0 where
  pub answer : Text
  pub is_ai : Bool
  pub partition : Partition
  pub question_id : Text
  pub answer_id : Text
  pub generator : Text
  pub dataset : Text
  pub tier : Text

-- A paraphrased or edited answer; `style` is what `spec["style"]` makes of the record.
pub record StyleRecord : Type 0 where
  pub answer_id : Text
  pub source_answer_id : Text
  pub question_id : Option Text
  pub answer : Text
  pub style : Text

pub record StyledRow : Type 0 where
  pub row : CorpusRow
  pub n_words : ℕ
  pub style : Text
  pub source_answer_id : Text

pub record Attached : Type 0 where
  pub rows : List StyledRow
  pub seen : List Text
  pub not_in_corpus : ℕ
  pub short : ℕ

-- What stops the attachment.
pub data AttachStop : Type 0 where
  duplicate_id other_question : Text → AttachStop

pub data Attachment : Type 0 where
  attached : Attached → Attachment
  refused : AttachStop → Attachment

abbrev pub is_source : Text → CorpusRow → Bool
is_source source_id r = r.is_ai && text_eq r.answer_id source_id

-- `record.get("question_id", source["question_id"]) != source["question_id"]`
abbrev pub of_other_question : Option Text → CorpusRow → Bool
of_other_question none source = false
of_other_question (some q) source = not (text_eq q source.question_id)

abbrev pub styled : StyleRecord → CorpusRow → Text → StyledRow
styled r source cleaned = record {
  row = record source { answer = cleaned; is_ai = true; answer_id = r.answer_id };
  n_words = count_words cleaned;
  style = r.style;
  source_answer_id = r.source_answer_id;
}

module _ (clean_text : Text → Text) (corpus : List CorpusRow) where
  abbrev pub with_source : StyleRecord → Option CorpusRow → Attached → Attachment
  with_source r none s = attached (record s { not_in_corpus = s.not_in_corpus + 1 })
  with_source r (some source) s =
      if of_other_question r.question_id source
      then refused (other_question r.answer_id)
      else attached (
          if ltb (count_words (clean_text r.answer)) min_words
          then record s { short = s.short + 1 }
          else record s { rows = s.rows ++ styled r source (clean_text r.answer) ∷ [] })

  abbrev pub attach_one : StyleRecord → Attached → Attachment
  attach_one r s =
      if is_in r.answer_id s.seen
      then refused (duplicate_id r.answer_id)
      else with_source r (find (is_source r.source_answer_id) corpus)
          (record s { seen = r.answer_id ∷ s.seen })

  abbrev pub then_attach : (Attached → Attachment) → Attachment → Attachment
  then_attach f (attached s) = f s
  then_attach f (refused why) = refused why

  unfoldable pub attach_from : List StyleRecord → Attached → Attachment
  attach_from [] s = attached s
  attach_from (r ∷ rs) s = then_attach (attach_from rs) (attach_one r s)

  unfoldable pub attach : List StyleRecord → Attachment
  attach records =
      attach_from records (record { rows = []; seen = []; not_in_corpus = 0; short = 0 })

abbrev pub partition_eq : Partition → Partition → Bool
partition_eq train train = true
partition_eq val val = true
partition_eq test test = true
partition_eq _ _ = false

abbrev pub is_partition : Option Partition → Partition → Bool
is_partition none p = false
is_partition (some q) p = partition_eq q p

-- `check`: false where it stops, on a row outside its question's partition or an empty answer.
unfoldable pub passes : (Text → Option Partition) → List StyledRow → Bool
passes question_partitions rows =
    not (any (λ r. not (is_partition (question_partitions r.row.question_id) r.row.partition)) rows)
    && not (any (λ r. is_blank (strip r.row.answer)) rows)
