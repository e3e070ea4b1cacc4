-- ===== src/Pipeline/Splice.antt =====
-- splicer/splice.py: `splice_at`, `ai_share` and the share that `band_candidates` picks by. A share is
-- the fraction of its two sums; the seeded draws are parameters of what calls these.
pub mod Shares
use prompt_patrol.Common.{
  ℕ, zero, suc, ◌+◌, ◌-◌, Bool, true, false, Option, none, some, List, [], ◌∷◌, Text, ◌==◌, ◌||◌,
  ◌&&◌, not, any, take, length, ltb, leb, if◌then◌else◌,
}
use prompt_patrol.Pipeline.Words.{count_words}

pub data Label : Type 0 where
  ai human : Label

pub record Sentence : Type 0 where
  pub label : Label
  pub words : Text

abbrev pub with_sentence : Label → Text → Option (List Sentence) → Option (List Sentence)
with_sentence l t none = none
with_sentence l t (some rest) = some (record { label = l; words = t } ∷ rest)

-- The sentences from position `i` on; none where the donor has run out.
unfoldable pub splice_from : ℕ → List ℕ → List Text → List Text → Option (List Sentence)
splice_from i chosen donor [] = some []
splice_from i chosen [] (s ∷ ss) =
    let rest = splice_from (suc i) chosen [] ss in
    if any (λ p. p == i) chosen then none else with_sentence human s rest
splice_from i chosen (d ∷ ds) (s ∷ ss) =
    let replaced = splice_from (suc i) chosen ds ss in
    let kept = splice_from (suc i) chosen (d ∷ ds) ss in
    if any (λ p. p == i) chosen then with_sentence ai d replaced else with_sentence human s kept

-- `splice_at`; the positions are those of a combination, which has none twice.
unfoldable pub splice_at : List Text → List Text → List ℕ → Option (List Sentence)
splice_at human_sentences ai_sentences positions =
    splice_from 0 positions (take (length positions) ai_sentences) human_sentences

abbrev pub is_ai : Sentence → Bool
is_ai s = elim s.label [ ai ↦ true | human ↦ false ]

unfoldable pub ai_words : List Sentence → ℕ
ai_words [] = 0
ai_words (s ∷ ss) = elim s.label [ ai ↦ count_words s.words + ai_words ss | human ↦ ai_words ss ]

unfoldable pub total_words : List Sentence → ℕ
total_words [] = 0
total_words (s ∷ ss) = count_words s.words + total_words ss

-- A fraction, 0 where its denominator is 0.
pub record Share : Type 0 where
  pub part : ℕ
  pub whole : ℕ

unfoldable pub ai_share : List Sentence → Share
ai_share labelled = record { part = ai_words labelled; whole = total_words labelled }

unfoldable pub sum_words : List Text → ℕ
sum_words [] = 0
sum_words (s ∷ ss) = count_words s + sum_words ss

abbrev pub sentence_at : List Text → ℕ → Text
sentence_at [] i = []
sentence_at (s ∷ ss) zero = s
sentence_at (s ∷ ss) (suc i) = sentence_at ss i

-- `sum(human_words[p] for p in positions)`
unfoldable pub replaced_words : List Text → List ℕ → ℕ
replaced_words ss [] = 0
replaced_words ss (p ∷ ps) = count_words (sentence_at ss p) + replaced_words ss ps

-- `share` of `band_candidates`, for `k` positions.
unfoldable pub candidate_share : List Text → List Text → List ℕ → Share
candidate_share base donor positions =
    let added = sum_words (take (length positions) donor) in
    record { part = added; whole = added + sum_words base - replaced_words base positions }
