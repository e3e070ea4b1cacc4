-- ===== src/Pipeline/Split/Whole.antt =====
-- Connected questions land in one partition, and every question in one (corpus/build.py
-- `assign_partitions`).
use mathlib.Core.Path.{subst}
use prompt_patrol.Common.{
  ℕ, ◌+◌, ◌≤◌, Bool, true, false, Option, none, some, List, [], ◌∷◌, map, Text, text_eq,
  text_eq_iff, ltb, any, take, drop, length, take-append-drop, drop-drop, ◌≡◌, ◌⊎◌, refl, ap, sym,
  ◌∙◌, inl, inr, arith, Bool-cases, In, In-map, In-map_from, In-append, if◌then◌else◌,
}
use prompt_patrol.Pipeline.Groups.{Questions, question_groups, group_key, text_lt, has_unknown}
use prompt_patrol.Pipeline.Groups.Connected.{Connected, group_key_exactly}
use prompt_patrol.Pipeline.Split.{
  Partition, train, val, test, Stop, Build, done, stopped, insert_new, distinct_sorted, is_in,
  partition_of, and_assigned, all_assigned, assign_partitions, at_least_one,
}

done_inj : {A : Type 0} {a b : A} → done a ≡ done b → a ≡ b
done_inj e = cc

and_assigned-done :
    (q : Text) (o : Option Partition) (rest : Build (List (Text × Partition)))
    {ps : List (Text × Partition)}
    → and_assigned q o rest ≡ done ps
    → (p : Partition) × (qs : List (Text × Partition)) × ((o ≡ some p)
        × (rest ≡ done qs)
        × (ps ≡ (q, p) ∷ qs))
and_assigned-done q none rest e = cc
and_assigned-done q (some p) (done qs) e = (p, qs, (refl, refl, sym (done_inj e)))
and_assigned-done q (some p) (stopped why) e = cc

absurd_stop : {A B : Type 0} {why : Stop} {a : A} → stopped why ≡ done a → B
absurd_stop e = cc

some_inj : {A : Type 0} {a b : A} → some a ≡ some b → a ≡ b
some_inj e = cc

-- What is assigned is what the key's partition says.
all_assigned-In :
    (f : Text → Option Partition) (keys : List (Text × Text)) (ps : List (Text × Partition))
    (q : Text) (p : Partition)
    → all_assigned f keys ≡ done ps
    → In (q, p) ps
    → (key : Text) × (In (q, key) keys × (f key ≡ some p))
unfolding all_assigned
all_assigned-In f [] ps q p e h = absurd (subst (In (q, p)) (sym (done_inj e)) h)
all_assigned-In f ((r, key) ∷ keys) ps q p e h =
    let (a, qs, i) = and_assigned-done r (f key) (all_assigned f keys) e in
    elim (subst (In (q, p)) i.2 h) [
      | inl new ↦ (
        key,
        (inl (λ t. ((new t).0, key)), i.0 ∙ ap some (sym (ap (λ (x : Text × Partition). x.1) new))),
      )
      | inr old ↦ let (k, j) = all_assigned-In f keys qs q p i.1 old in (k, (inr j.0, j.1))
    ]

all_assigned-done :
    (f : Text → Option Partition) (keys : List (Text × Text))
    → ((q key : Text) → In (q, key) keys → (p : Partition) × (f key ≡ some p))
    → (ps : List (Text × Partition)) × (all_assigned f keys ≡ done ps)
unfolding all_assigned
all_assigned-done f [] h = ([], refl)
all_assigned-done f ((r, key) ∷ keys) h =
    let (p, e) = h r key (inl refl) in
    let (ps, d) = all_assigned-done f keys (λ q k i. h q k (inr i)) in ((r, p) ∷ ps, rw (e, d) refl)

pub is_in-true : (t : Text) (ts : List Text) → In t ts → is_in t ts ≡ true
unfolding any
is_in-true t [] h = absurd h
is_in-true t (u ∷ us) (inl e) = rw ((text_eq_iff t u).1 e) refl
is_in-true t (u ∷ us) (inr h) = ground (arith, is_in-true t us h)

insert_new_self : (t : Text) (ts : List Text) → In t (insert_new t ts)
unfolding insert_new
insert_new_self t [] = inl refl
insert_new_self t (u ∷ us) = elim (Bool-cases (text_eq t u)) [
  | inl e ↦ rw e (inl ((text_eq_iff t u).0 e))
  | inr f ↦ elim (Bool-cases (text_lt t u)) [
    | inl l ↦ rw (f, l) (inl refl)
    | inr m ↦ rw (f, m) (inr (insert_new_self t us))
  ]
]

insert_new-kept : (t x : Text) (ts : List Text) → In x ts → In x (insert_new t ts)
unfolding insert_new
insert_new-kept t x [] h = absurd h
insert_new-kept t x (u ∷ us) h = elim (Bool-cases (text_eq t u)) [
  | inl e ↦ rw e h
  | inr f ↦ elim (Bool-cases (text_lt t u)) [
    | inl l ↦ rw (f, l) (inr h)
    | inr m ↦ rw (f, m) (elim h [ inl e ↦ inl e | inr i ↦ inr (insert_new-kept t x us i) ])
  ]
]

pub distinct_sorted-In : (x : Text) (ts : List Text) → In x ts → In x (distinct_sorted ts)
unfolding distinct_sorted
distinct_sorted-In x [] h = absurd h
distinct_sorted-In x (t ∷ ts) (inl e) =
    subst (λ u. In x (insert_new u (distinct_sorted ts))) e (insert_new_self x (distinct_sorted ts))
distinct_sorted-In x (t ∷ ts) (inr h) =
    insert_new-kept t x (distinct_sorted ts) (distinct_sorted-In x ts h)

In-slices : (n : ℕ) (x : Text) (xs : List Text) → In x xs → In x (take n xs) ⊎ In x (drop n xs)
In-slices n x xs h =
    In-append x (take n xs) (drop n xs) (subst (In x) (sym (take-append-drop n xs)) h)

sliced : Bool → Bool → Bool → Option Partition
sliced a b c = if a then some train else if b then some val else if c then some test else none

sliced-some :
    (a b c : Bool)
    → (a ≡ true) ⊎ ((b ≡ true) ⊎ (c ≡ true))
    → (p : Partition) × (sliced a b c ≡ some p)
unfolding sliced
sliced-some true b c h = (train, refl)
sliced-some false true c h = (val, refl)
sliced-some false false true h = (test, refl)
sliced-some false false false (inl e) = cc
sliced-some false false false (inr (inl e)) = cc
sliced-some false false false (inr (inr e)) = cc

-- A group that the shuffle has not lost is in one of the three slices.
partition_of-some :
    (n m : ℕ) (groups : List Text) (key : Text)
    → In key groups
    → (p : Partition) × (partition_of n m groups key ≡ some p)
unfolding partition_of sliced
partition_of-some n m groups key h =
    sliced-some (is_in key (drop (n + m) groups)) (is_in key (take m (drop n groups)))
      (is_in key (take n groups)) (slice_of (In-slices n key groups h))
  where
    within :
        In key (take m (drop n groups)) ⊎ In key (drop m (drop n groups))
        → (is_in key (drop (n + m) groups) ≡ true)
          ⊎ ((is_in key (take m (drop n groups)) ≡ true) ⊎ (is_in key (take n groups) ≡ true))
    within (inl j) = inr (inl (is_in-true key _ j))
    within (inr j) = inl (is_in-true key _ (subst (In key) (drop-drop n m groups) j))

    slice_of :
        In key (take n groups) ⊎ In key (drop n groups)
        → (is_in key (drop (n + m) groups) ≡ true)
          ⊎ ((is_in key (take m (drop n groups)) ≡ true) ⊎ (is_in key (take n groups) ≡ true))
    slice_of (inl i) = inr (inr (is_in-true key _ i))
    slice_of (inr i) = within (In-slices m key (drop n groups) i)

module _ (shuffle : List Text → List Text) (test_share val_share : ℕ → ℕ) (questions : Questions)
    (twins : List (List Text)) where
  abbrev keyed : List (Text × Text)
  keyed = map (λ q. (q.0, group_key questions twins q.0)) questions

  abbrev groups : List Text
  groups = distinct_sorted (map (λ k. k.1) keyed)

  abbrev slices : Text → Option Partition
  slices =
      partition_of (at_least_one (test_share (length groups)))
        (at_least_one (val_share (length groups))) (shuffle groups)

  -- With known twins, three groups or more and a shuffle that loses no group, the split is made.
  pub assign_partitions-done :
      ((x : Text) (xs : List Text) → In x xs → In x (shuffle xs))
      → has_unknown questions twins ≡ false
      → 3 ≤ length groups
      → (ps : List (Text × Partition)) × (assign_partitions shuffle test_share val_share questions
            twins
          ≡ done ps)
  unfolding assign_partitions question_groups
  assign_partitions-done keep known enough =
      let few : ltb (length groups) 3 ≡ false = ground (arith, enough) in
      let (ps, e) = all_assigned-done slices keyed (λ q key i.
        partition_of-some _ _ (shuffle groups) key (
          keep key groups
            (distinct_sorted-In key _ (In-map (λ (k : Text × Text). k.1) (q, key) keyed i)))) in
      (ps, rw (known, few) e)

  keyed-In :
      (q key : Text)
      → In (q, key) keyed
      → (t : Text) × (In (q, t) questions × (key ≡ group_key questions twins q))
  keyed-In q key h =
      let (x, j) =
        In-map_from (λ (x : Text × Text). (x.0, group_key questions twins x.0)) (q, key) questions
          h in
      let same_id : q ≡ x.0 = ap (λ (y : Text × Text). y.0) j.1 in
      (
        x.1,
        (
          subst (λ z. In (z, x.1) questions) (sym same_id) j.0,
          ap (λ (y : Text × Text). y.1) j.1 ∙ ap (group_key questions twins) (sym same_id),
        ),
      )

  -- What a question is assigned is the slice of its key.
  assigned_slice :
      (ps : List (Text × Partition)) (q : Text) (p : Partition)
      → assign_partitions shuffle test_share val_share questions twins ≡ done ps
      → In (q, p) ps
      → (t : Text) × (In (q, t) questions × (slices (group_key questions twins q) ≡ some p))
  unfolding assign_partitions question_groups
  assigned_slice ps q p e h = elim (Bool-cases (has_unknown questions twins)) [
    | inl u ↦ absurd_stop (rw u at e)
    | inr k ↦ elim (Bool-cases (ltb (length groups) 3)) [
      | inl few ↦ absurd_stop (rw (k, few) at e)
      | inr enough ↦
          let (key, i) = all_assigned-In slices keyed ps q p (rw (k, enough) at e) h in
          let (t, j) = keyed-In q key i.0 in (t, (j.0, ap slices (sym j.1) ∙ i.1))
    ]
  ]

  -- Where the split is made, questions that a chain of shared texts and twins connects are assigned
  -- one partition.
  pub assign_partitions-together :
      (ps : List (Text × Partition)) (p q : Text) (a b : Partition)
      → assign_partitions shuffle test_share val_share questions twins ≡ done ps
      → In (p, a) ps
      → In (q, b) ps
      → Connected questions twins p q
      → a ≡ b
  assign_partitions-together ps p q a b e h k c =
      let (s, i) = assigned_slice ps p a e h in
      let (t, j) = assigned_slice ps q b e k in
      let one_key : group_key questions twins p ≡ group_key questions twins q =
        (group_key_exactly questions twins p q s t i.0 j.0).1 c in
      some_inj (sym i.1 ∙ ap slices one_key ∙ j.1)
