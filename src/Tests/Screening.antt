-- ===== src/Tests/Screening.antt =====
-- Checks (apps/api/app/services/checks_service.py).
use prompt_patrol.Common.{suc, ◌≡◌, ◌≢◌, refl, ◌↔◌, ◌<◌, ◌≤◌, none, some, arith, length, find, All}
use prompt_patrol.Models.{Check, ai_generated, human_written, uncertain}
use prompt_patrol.World.{Settings, ok}
use prompt_patrol.Checks.{
  Filters, decide, band_of, min_answer_words, listed, list_checks, get_check_by_id, has_check_id,
}
use prompt_patrol.Checks.Decision.{decide_exactly, decide_mono}
use prompt_patrol.Checks.Listing.{
  IsReadable, fetch_checks, served, follow-list_checks, list_checks-IsReadable,
  get_check_by_id_exactly,
}
use prompt_patrol.Paging.Follow.{follow}
use prompt_patrol.Tests.Office.{teacher, day, demo_settings, scored_check}

abbrev no_filter : Filters
no_filter = record {
  actor_id = none;
  verdict = none;
  batch_id = none;
  created_from = none;
  created_to = none;
}

decide_exactly_example :
    let (v, why) = decide demo_settings 0x3FF0000000000000 0x3FE0000000000000 12 in
    ((v ≡ ai_generated) ↔ (
      (min_answer_words ≤ 12)
      × (band_of demo_settings < demo_settings.distance 0x3FF0000000000000 0x3FE0000000000000)
      × (0x3FE0000000000000 < 0x3FF0000000000000)))
    × ((v ≡ human_written) ↔ (
        (min_answer_words ≤ 12)
        × (band_of demo_settings < demo_settings.distance 0x3FF0000000000000 0x3FE0000000000000)
        × (0x3FF0000000000000 ≤ 0x3FE0000000000000)))
    × ((v ≡ uncertain) ↔ (why ≢ none))
decide_exactly_example = decide_exactly demo_settings 0x3FF0000000000000 0x3FE0000000000000 12

-- Small numbers for scores, and a band of one.
abbrev near : Settings
near = record demo_settings { abstention_band = some 1 }

decide_mono_example : (decide near 9 2 12).0 ≡ ai_generated
unfolding decide
decide_mono_example = decide_mono near 7 9 2 12 (λ h k. omega arith) (omega arith) refl

follow-list_checks_example :
    follow
      (suc (length (listed teacher no_filter day.db)))
      (fetch_checks teacher no_filter 1 day)
      none
    ≡ listed teacher no_filter day.db
follow-list_checks_example =
    follow-list_checks teacher no_filter 1 day ((refl, tt), (tt, tt)) (omega arith)

list_checks-IsReadable_example :
    All (IsReadable teacher) (served (list_checks teacher no_filter 1 (some 42) day)).0
list_checks-IsReadable_example = list_checks-IsReadable teacher no_filter 1 (some 42) day

get_check_by_id_exactly_example :
    (((get_check_by_id teacher 41 day).0 ≡ ok (some (scored_check 41))) ↔ (
      (find (has_check_id 41) day.db.checks ≡ some (scored_check 41))
      × IsReadable teacher (scored_check 41)))
    × (((get_check_by_id teacher 41 day).0 ≡ ok none) ↔ (
        (d : Check) → ¬ ((find (has_check_id 41) day.db.checks ≡ some d) × IsReadable teacher d)))
    × ((get_check_by_id teacher 41 day).1 ≡ day)
get_check_by_id_exactly_example = get_check_by_id_exactly teacher 41 day (scored_check 41)
