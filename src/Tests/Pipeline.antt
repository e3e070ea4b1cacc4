-- ===== src/Tests/Pipeline.antt =====
-- The data pipeline (apps/data-pipeline/app).
use prompt_patrol.Common.{
  NoRepeats, ℕ, ◌+◌, any, find, select, true, Option, some, List, [], ◌∷◌, Text, text, text_eq,
  length, ◌≡◌, ◌↔◌, refl, arith, All, inl, inr,
}
use prompt_patrol.Pipeline.Groups.{
  Questions, group_key, question_groups, has_unknown, names, root_of, join_all, root, file_under,
  filed, get_list, least, text_lt,
}
use prompt_patrol.Pipeline.Groups.Connected.{
  Connected, same_text, are_twins, onward, group_key_exactly,
}
use prompt_patrol.Pipeline.Split.{
  Partition, train, val, test, done, assign_partitions, distinct_sorted, insert_new, partition_of,
  all_assigned,
}
use prompt_patrol.Pipeline.Split.Whole.{assign_partitions-done, assign_partitions-together}
use prompt_patrol.Pipeline.Runs.Once.{ids}
use prompt_patrol.Pipeline.Runs.{
  RunState, GenerationResult, paraphrase_run, simulate_run, paraphrase_id, paraphrase_calls,
  edit_id,
}
use prompt_patrol.Pipeline.Runs.Report.{AddsUp, IsNew, paraphrase_run-New}
use prompt_patrol.Pipeline.Runs.Draws.{with_draws, simulate_run-IsNew}
use prompt_patrol.Pipeline.Folds.{Answer, leave_one_generator_out, ai_generators, fold_of}
use prompt_patrol.Pipeline.Folds.HeldOut.{IsHeldOut, leave_one_generator_out-IsHeldOut}
use prompt_patrol.Pipeline.Attach.{
  CorpusRow, StyleRecord, Attached, attach, attach_from, styled, passes,
}
use prompt_patrol.Pipeline.Words.{count_words, words_in, is_separator}
use prompt_patrol.Tests.Corpus.{absent}
use prompt_patrol.Users.Email.{is_space}
use prompt_patrol.Pipeline.Attach.Passes.{Matched, attach-Matched, attach-passes}
use prompt_patrol.Pipeline.Splice.{Sentence, splice_at, ai_share, candidate_share}
use prompt_patrol.Pipeline.Splice.Shares.{splice_at-share}

-- Two questions with one text, a twin of the second, and another.
abbrev four_questions : Questions
four_questions =
    (text "q1", text "what is a stack")
    ∷ (text "q2", text "what is a stack")
    ∷ (text "q3", text "explain stacks")
    ∷ (text "q4", text "what is a heap")
    ∷ (text "q5", text "what is a tree")
    ∷ []

abbrev stack_twins : List (List Text)
stack_twins = (text "q2" ∷ text "q3" ∷ []) ∷ []

group_key_exactly_example :
    (group_key four_questions stack_twins (text "q1")
      ≡ group_key four_questions stack_twins (text "q3"))
    ↔ Connected four_questions stack_twins (text "q1") (text "q3")
group_key_exactly_example =
    group_key_exactly four_questions stack_twins (text "q1") (text "q3") (text "what is a stack")
      (text "explain stacks") (inl refl) (inr (inr (inl refl)))

abbrev generation : ℕ → Text × Text → Option GenerationResult
generation n c =
    some (record { answer = text "reworded"; prompt_tokens = 9; completion_tokens = 7 })

abbrev one_each : ℕ → ℕ
one_each n = 1

assign_partitions-done_example :
    (ps : List (Text × Partition)) × (assign_partitions
        (λ xs. xs)
        one_each
        one_each
        four_questions
        stack_twins
      ≡ done ps)
unfolding has_unknown any text_eq distinct_sorted insert_new group_key names root_of join_all root
    file_under filed get_list least text_lt
assign_partitions-done_example =
    assign_partitions-done (λ xs. xs) one_each one_each four_questions stack_twins (λ x xs i. i)
      refl (omega arith)

abbrev four_partitions : List (Text × Partition)
four_partitions =
    (text "q1", test)
    ∷ (text "q2", test)
    ∷ (text "q3", test)
    ∷ (text "q4", val)
    ∷ (text "q5", train)
    ∷ []

assign_partitions-together_example : ◌≡◌ {A = Partition} test test
unfolding assign_partitions question_groups partition_of all_assigned has_unknown any text_eq
    distinct_sorted insert_new group_key names root_of join_all root file_under filed get_list least
    text_lt
assign_partitions-together_example =
    assign_partitions-together (λ xs. xs) one_each one_each four_questions stack_twins
      four_partitions (text "q1") (text "q3") test test refl (inl refl) (inr (inr (inl refl)))
      (onward (same_text (text "what is a stack") (inl refl) (inr (inl refl)))
        (are_twins (text "q2" ∷ text "q3" ∷ []) (inl refl) (inl refl) (inr (inl refl))))

abbrev two_sources : List Text
two_sources = text "a1" ∷ text "a2" ∷ []

-- A run that resumes after the first call.
abbrev resumed : RunState (Text × Text)
resumed = paraphrase_run generation (text "a1/para-light" ∷ []) two_sources (text "light" ∷ [])

paraphrase_run-New_example :
    NoRepeats (ids paraphrase_id resumed.written)
    × All
        (IsNew paraphrase_id generation
          (text "a1/para-light" ∷ [])
          (paraphrase_calls two_sources (text "light" ∷ [])))
        resumed.written
unfolding any text_eq
paraphrase_run-New_example =
    paraphrase_run-New generation (text "a1/para-light" ∷ []) two_sources (text "light" ∷ []) (
      absent (text "a1/para-light") (text "a2/para-light" ∷ []) refl,
      (absent (text "a2/para-light") [] refl, tt),
    )

abbrev next_number : ℕ → ℕ × ℕ
next_number n = (n, n + 1)

abbrev edited : ℕ → Text × ℕ → Option GenerationResult
edited n c = some (record { answer = text "edited"; prompt_tokens = 9; completion_tokens = 7 })

simulate_run-IsNew_example :
    AddsUp 2 (
      simulate_run next_number edited
        (text "a1/edit-simulated" ∷ [])
        (text "a1" ∷ text "a2" ∷ [])
        5)
    × All
        (IsNew
          (edit_id next_number edited (text "a1/edit-simulated" ∷ []))
          edited
          (text "a1/edit-simulated" ∷ [])
          (with_draws next_number (text "a1" ∷ text "a2" ∷ []) 5))
        (simulate_run next_number edited
          (text "a1/edit-simulated" ∷ [])
          (text "a1" ∷ text "a2" ∷ [])
          5).written
simulate_run-IsNew_example =
    simulate_run-IsNew next_number edited (text "a1/edit-simulated" ∷ [])
      (text "a1" ∷ text "a2" ∷ []) 5

abbrev two_answers : List Answer
two_answers =
    record { answer_id = text "h1"; generator = text "human"; partition = text "val" }
    ∷ record { answer_id = text "g1"; generator = text "gpt"; partition = text "train" }
    ∷ []

leave_one_generator_out-IsHeldOut_example :
    All (IsHeldOut two_answers) (fold_of two_answers (text "gpt") ∷ [])
unfolding leave_one_generator_out ai_generators select text_eq distinct_sorted insert_new
leave_one_generator_out-IsHeldOut_example =
    leave_one_generator_out-IsHeldOut two_answers (fold_of two_answers (text "gpt") ∷ []) refl

abbrev source_row : CorpusRow
source_row = record {
  answer = text "a stack is last in first out";
  is_ai = true;
  partition = val;
  question_id = text "q1";
  answer_id = text "a1";
  generator = text "gpt";
  dataset = text "mohler";
  tier = text "good";
}

abbrev style_record : StyleRecord
style_record = record {
  answer_id = text "p1";
  source_answer_id = text "a1";
  question_id = some (text "q1");
  answer = text "last in comes out first";
  style = text "paraphrased-light";
}

abbrev attached_state : Attached
attached_state = record {
  rows = styled style_record source_row (text "last in comes out first") ∷ [];
  seen = text "p1" ∷ [];
  not_in_corpus = 0;
  short = 0;
}

attach-Matched_example : Matched (λ s. s) (source_row ∷ []) (style_record ∷ []) 1 attached_state
unfolding attach attach_from find any text_eq count_words words_in is_separator is_space
attach-Matched_example =
    attach-Matched (λ s. s) (source_row ∷ []) (style_record ∷ []) attached_state refl

attach-passes_example : passes (λ q. some val) attached_state.rows ≡ true
unfolding attach attach_from find any text_eq count_words words_in is_separator is_space
attach-passes_example =
    attach-passes (λ s. s) (source_row ∷ []) (λ q. some val) (style_record ∷ []) attached_state
      (refl, tt) refl

splice_at-share_example :
    (out : List Sentence) × ((splice_at
          (text "One." ∷ text "Two two." ∷ [])
          (text "Three." ∷ [])
          (1 ∷ [])
        ≡ some out)
      × (length out ≡ 2)
      × (ai_share out
          ≡ candidate_share (text "One." ∷ text "Two two." ∷ []) (text "Three." ∷ []) (1 ∷ [])))
splice_at-share_example =
    splice_at-share (text "One." ∷ text "Two two." ∷ []) (text "Three." ∷ []) (1 ∷ [])
      (omega arith, omega arith, tt) (omega arith)
