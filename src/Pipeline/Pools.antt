-- ===== src/Pipeline/Pools.antt =====
-- harness/generate.py: `pick_student_answer`, the student's answer that a rewrite call polishes.
pub mod Slots
use Prim.Native.Nat.{◌%◌}
use prompt_patrol.Common.{
  ℕ, zero, suc, ◌+◌, ◌-◌, ◌*◌, Option, none, some, List, [], ◌∷◌, ◌==◌, length, if◌then◌else◌,
}

module _ {A : Type 0} where
  -- `pool[i]` of an index that is not negative.
  abbrev pub get_elem? : List A → ℕ → Option A
  get_elem? [] i = none
  get_elem? (x ∷ xs) zero = some x
  get_elem? (x ∷ xs) (suc i) = get_elem? xs i

  -- The slot of a call, whose `seq` is at least 1.
  unfoldable pub slot : List A → ℕ → ℕ → ℕ → ℕ
  slot pool position count seq = (position * count + seq - 1) % length pool

  -- None is the `ZeroDivisionError` of an empty pool.
  unfoldable pub pick_student_answer : List A → ℕ → ℕ → ℕ → Option A
  pick_student_answer pool position count seq =
      if length pool == 0 then none else get_elem? pool (slot pool position count seq)
