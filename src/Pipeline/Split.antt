-- ===== src/Pipeline/Split.antt =====
-- corpus/build.py: `assign_partitions`. The seeded shuffle of the groups and `round(n * ratio)` are
-- parameters.
pub mod Whole
use prompt_patrol.Common.{
  ℕ, ◌+◌, Bool, true, false, Option, none, some, List, [], ◌∷◌, map, Text, text_eq, ltb, any, take,
  drop, length, if◌then◌else◌,
}
use prompt_patrol.Pipeline.Groups.{Questions, question_groups, group_key, text_lt}

pub data Partition : Type 0 where
  train val test : Partition

-- Why a build stops: each is a `SystemExit` but the last.
pub data Stop : Type 0 where
  unknown_twins too_few_questions key_error : Stop

pub data Build (A : Type 0) : Type 0 where
  done : A → Build A
  stopped : Stop → Build A

-- `sorted(set(xs))`
unfoldable pub insert_new : Text → List Text → List Text
insert_new t [] = t ∷ []
insert_new t (u ∷ us) =
    if text_eq t u then u ∷ us else if text_lt t u then t ∷ u ∷ us else u ∷ insert_new t us

unfoldable pub distinct_sorted : List Text → List Text
distinct_sorted [] = []
distinct_sorted (t ∷ ts) = insert_new t (distinct_sorted ts)

abbrev pub is_in : Text → List Text → Bool
is_in t ts = any (text_eq t) ts

-- `max(1, n)`
abbrev pub at_least_one : ℕ → ℕ
at_least_one n = if ltb n 1 then 1 else n

-- The `partition` dictionary: where two slices name one group, the later counts.
unfoldable pub partition_of : ℕ → ℕ → List Text → Text → Option Partition
partition_of n_test n_val groups key =
    if is_in key (drop (n_test + n_val) groups)
    then some train
    else if is_in key (take n_val (drop n_test groups))
    then some val
    else if is_in key (take n_test groups)
    then some test
    else none

abbrev pub and_assigned :
    Text → Option Partition → Build (List (Text × Partition)) → Build (List (Text × Partition))
and_assigned q none rest = stopped key_error
and_assigned q (some p) (done ps) = done ((q, p) ∷ ps)
and_assigned q (some p) (stopped why) = stopped why

unfoldable pub all_assigned :
    (Text → Option Partition) → List (Text × Text) → Build (List (Text × Partition))
all_assigned f [] = done []
all_assigned f ((q, key) ∷ keys) = and_assigned q (f key) (all_assigned f keys)

module _ (shuffle : List Text → List Text) (test_share val_share : ℕ → ℕ) where
  abbrev pub assign_groups : List (Text × Text) → List Text → Build (List (Text × Partition))
  assign_groups keys groups =
      if ltb (length groups) 3
      then stopped too_few_questions
      else all_assigned
          (partition_of (at_least_one (test_share (length groups)))
            (at_least_one (val_share (length groups))) (shuffle groups))
          keys

  abbrev pub assign_keys : Option (List (Text × Text)) → Build (List (Text × Partition))
  assign_keys none = stopped unknown_twins
  assign_keys (some keys) = assign_groups keys (distinct_sorted (map (λ k. k.1) keys))

  unfoldable pub assign_partitions : Questions → List (List Text) → Build (List (Text × Partition))
  assign_partitions questions twins = assign_keys (question_groups questions twins)
