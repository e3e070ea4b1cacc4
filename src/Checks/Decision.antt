-- ===== src/Checks/Decision.antt =====
-- What a verdict means (services/checks_service.py `_decide` and `create_check`).
use prompt_patrol.Common.{ℕ, ◌≡◌, ◌≢◌, ◌↔◌, ◌<◌, ◌≤◌, none, arith}
use prompt_patrol.Models.{Float, ai_generated, human_written, uncertain}
use prompt_patrol.World.{Settings}
use prompt_patrol.Checks.{decide, band_of, min_answer_words}

-- An answer is called AI-generated exactly if it has at least ten words, and its score is above the
-- threshold and further from it than the abstention band; human-written exactly if it has ten words
-- and its score is that far from the threshold and not above it; and uncertain otherwise. A reason
-- to abstain is given exactly if the verdict is uncertain.
pub decide_exactly :
    (s : Settings) (score threshold : Float) (words : ℕ)
    → let (v, why) = decide s score threshold words in
      ((v ≡ ai_generated) ↔ (
        (min_answer_words ≤ words)
        × (band_of s < s.distance score threshold)
        × (threshold < score)))
      × ((v ≡ human_written) ↔ (
          (min_answer_words ≤ words)
          × (band_of s < s.distance score threshold)
          × (score ≤ threshold)))
      × ((v ≡ uncertain) ↔ (why ≢ none))
unfolding decide
decide_exactly s score threshold words = ground arith

-- A higher score never turns an AI-generated verdict into another one, if a score further above the
-- threshold is no nearer to it.
pub decide_mono :
    (s : Settings) (a b threshold : Float) (words : ℕ)
    → (threshold ≤ a → a ≤ b → s.distance a threshold ≤ s.distance b threshold)
    → a ≤ b
    → (decide s a threshold words).0 ≡ ai_generated
    → (decide s b threshold words).0 ≡ ai_generated
unfolding decide
decide_mono s a b threshold words further h e = ground arith
