-- ===== src/Checks.antt =====
-- apps/api/app/services/checks_service.py: one answer is scored and judged; checks are listed and
-- read. A cursor is the identifier that it encodes. The comparisons of floats are those of their bit
-- patterns, which is the order of the floats that are not negative.
pub mod Decision
pub mod Listing
use prompt_patrol.Common.{
  ℕ, zero, suc, ◌+◌, ◌-◌, Bool, true, false, Option, none, some, List, [], ◌∷◌, ◌++◌, Text, text,
  text_eq, ◌==◌, ltb, leb, ◌&&◌, ◌||◌, not, find, select, sort_by, take, length, if◌then◌else◌,
}
use prompt_patrol.Models.{
  Db, Uuid, Time, Float, User, root_admin, role_eq, owns, owned_by_clause, Check, Verdict,
  ai_generated, human_written, uncertain, Strictness, lenient, standard, strict, AbstainReason,
  answer_too_short, score_in_abstention_band,
}
use prompt_patrol.World.{
  Exec, World, Settings, pure, raise, gets, modify, ask, or_raise, ◌>>=◌, ◌>>◌, Done, clock, new_id,
  do_commit, score, DetectorReply, timed_out, http_error, malformed, scored, malformed_reply,
  do_refresh, detector_timeout, detector_unavailable, key_error, invalid_cursor, monotonic,
}
use prompt_patrol.Users.Email.{is_space}
use prompt_patrol.Users.Tables.{is_of_batch}
use prompt_patrol.Paging.{page, cut}

abbrev pub min_answer_words : ℕ
min_answer_words = 10

-- `THRESHOLDS`: 0.4, 0.5 and 0.65, unless the environment sets one for every level.
abbrev pub default_threshold : Strictness → Float
default_threshold lenient = 0x3FD999999999999A
default_threshold standard = 0x3FE0000000000000
default_threshold strict = 0x3FE4CCCCCCCCCCCD

abbrev threshold_of : Settings → Strictness → Float
threshold_of settings level = elim settings.detector_threshold [
  | none ↦ default_threshold level
  | some t ↦ t
]

-- `TARGET_FPR`: 0.05, 0.01 and 0.001.
abbrev target_fpr_of : Strictness → Float
target_fpr_of lenient = 0x3FA999999999999A
target_fpr_of standard = 0x3F847AE147AE147B
target_fpr_of strict = 0x3F50624DD2F1A9FC

-- `ABSTENTION_BAND`: 0.08 unless the environment sets it.
abbrev pub band_of : Settings → Float
band_of settings = elim settings.abstention_band [ none ↦ 0x3FB47AE147AE147B | some b ↦ b ]

-- `_decide`
unfoldable pub decide : Settings → Float → Float → ℕ → Verdict × Option AbstainReason
decide settings raw_score threshold word_count =
    if ltb word_count min_answer_words
    then (uncertain, some answer_too_short)
    else if leb (settings.distance raw_score threshold) (band_of settings)
    then (uncertain, some score_in_abstention_band)
    else (if ltb threshold raw_score then ai_generated else human_written, none)

-- `len(text.split())`: the maximal runs of code points that are not white space.
unfoldable words_from : Bool → Text → ℕ
unfolding is_space
words_from inside [] = 0
words_from inside (c ∷ s) =
    let next = words_from (not (is_space c)) s in
    if not inside && not (is_space c) then suc next else next

-- A key of `THRESHOLDS`.
abbrev pub level_of : Text → Option Strictness
level_of s =
    if text_eq s (text "lenient")
    then some lenient
    else if text_eq s (text "standard")
    then some standard
    else if text_eq s (text "strict")
    then some strict
    else none

pub record Score : Type 0 where
  pub raw_score : Float
  pub truncated : Bool

abbrev pub score_result : DetectorReply → Exec Score
score_result timed_out = raise detector_timeout
score_result http_error = raise detector_unavailable
score_result malformed = raise malformed_reply
score_result (scored s t) = pure (record { raw_score = s; truncated = t })

-- What a check is asked for with.
pub record Submission : Type 0 where
  pub actor_id : Uuid
  pub answer_text : Text
  pub question_text : Option Text
  pub external_ref : Option Text
  pub strictness : Text
  pub retain_answer : Bool
  pub batch_id : Option Uuid
  pub batch_file_name : Option Text

unfoldable pub check_of : Settings → Submission → Score → Strictness → ℕ → Uuid → Time → Check
unfolding decide words_from
check_of settings s result level latency_ms i now =
    let judged =
      decide settings result.raw_score (threshold_of settings level)
        (words_from false s.answer_text) in
    record {
      id = i;
      actor_id = s.actor_id;
      batch_id = s.batch_id;
      batch_file_name = s.batch_file_name;
      external_ref = s.external_ref;
      verdict = judged.0;
      raw_score = result.raw_score;
      confidence = none;
      abstain_reason = judged.1;
      truncated = result.truncated;
      model_version = settings.model_version;
      calibration_version = settings.calibration_version;
      strictness_applied = level;
      threshold_applied = threshold_of settings level;
      target_fpr = some (target_fpr_of level);
      used_question_text = false;
      answer_text = if s.retain_answer then some s.answer_text else none;
      question_text = s.question_text;
      answer_char_len = length s.answer_text;
      retain_answer = s.retain_answer;
      latency_ms = some latency_ms;
      created_at = now;
    }

abbrev pub check_added : Check → Db → Db
check_added c db = record db { checks = db.checks ++ c ∷ [] }

unfoldable pub create_check : Submission → Exec Check
unfolding check_of
create_check s = do
  start ← ask monotonic (λ o. o.ticks)
  reply ← ask (score s.answer_text) (λ o calls. o.scores calls s.answer_text)
  result ← score_result reply
  stop ← ask monotonic (λ o. o.ticks)
  level ← or_raise (level_of s.strictness) key_error
  settings ← gets (λ w. w.outside.settings)
  i ← new_id
  now ← clock
  modify (check_added (check_of settings s result level (stop - start) i now))
  do_commit
  do_refresh
  pure (check_of settings s result level (stop - start) i now)

-- `_may_read_any_check`
abbrev pub may_read_any_check : User → Bool
may_read_any_check actor = role_eq actor.role root_admin

-- The filters of a listing.
pub record Filters : Type 0 where
  pub actor_id : Option Uuid
  pub verdict : Option Verdict
  pub batch_id : Option Uuid
  pub created_from : Option Time
  pub created_to : Option Time

abbrev verdict_eq : Verdict → Verdict → Bool
verdict_eq ai_generated ai_generated = true
verdict_eq human_written human_written = true
verdict_eq uncertain uncertain = true
verdict_eq _ _ = false

-- A filter that is not given lets every row through.
abbrev if_given : {A : Type 0} → Option A → (A → Bool) → Bool
if_given none p = true
if_given (some a) p = p a

-- Whose checks the caller may list: `actor_id` is honoured for a root admin only.
unfoldable pub in_scope : User → Filters → Check → Bool
in_scope actor f c =
    if not (may_read_any_check actor)
    then owned_by_clause actor c.actor_id c.created_at
    else if_given f.actor_id (λ i. c.actor_id == i)

unfoldable pub matches_filters : Filters → Check → Bool
matches_filters f c =
    if_given f.verdict (λ v. verdict_eq c.verdict v)
    && if_given f.batch_id (λ b. is_of_batch b c.batch_id)
    && if_given f.created_from (λ t. leb t c.created_at)
    && if_given f.created_to (λ t. leb c.created_at t)

-- `ORDER BY created_at DESC, id DESC`; after an anchor come the rows that it precedes.
abbrev pub check_before : Check → Check → Bool
check_before a b = ltb b.created_at a.created_at || (b.created_at == a.created_at && ltb b.id a.id)

abbrev pub has_check_id : Uuid → Check → Bool
has_check_id i c = c.id == i

unfoldable pub listed : User → Filters → Db → List Check
unfolding in_scope matches_filters
listed actor f db =
    sort_by check_before (select (λ c. in_scope actor f c && matches_filters f c) db.checks)

unfoldable pub listed_after : User → Filters → Check → Db → List Check
unfolding in_scope matches_filters
listed_after actor f anchor db = sort_by check_before (
    select (check_before anchor)
      (select (λ c. in_scope actor f c && matches_filters f c) db.checks))

abbrev list_from : User → Filters → ℕ → Option Uuid → Exec (List Check × Option Uuid)
list_from actor f limit none = gets (λ w. page (λ c. c.id) limit (listed actor f w.db))
list_from actor f limit (some anchor_id) = do
  found ← gets (λ w. find (has_check_id anchor_id) w.db.checks)
  anchor ← or_raise found invalid_cursor
  gets (λ w. page (λ c. c.id) limit (listed_after actor f anchor w.db))

unfoldable pub list_checks : User → Filters → ℕ → Option Uuid → Exec (List Check × Option Uuid)
unfolding listed listed_after page
list_checks actor f limit cursor = list_from actor f limit cursor

abbrev pub readable : User → Option Check → Option Check
readable actor none = none
readable actor (some c) =
    if not (may_read_any_check actor) && not (owns actor c.actor_id c.created_at)
    then none
    else some c

unfoldable pub get_check_by_id : User → Uuid → Exec (Option Check)
unfolding owns
get_check_by_id actor check_id =
    gets (λ w. readable actor (find (has_check_id check_id) w.db.checks))
