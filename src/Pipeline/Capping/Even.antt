-- ===== src/Pipeline/Capping/Even.antt =====
-- What is capped is even: a training question keeps as many human answers as it has AI answers.
use mathlib.Core.Path.{subst}
use prompt_patrol.Common.{
  ℕ, suc, ◌≤◌, min, true, false, not, List, [], ◌∷◌, map, Text, text_eq, text_eq_iff, ltb, any,
  length, select, ◌≡◌, refl, ap, sym, ◌∙◌, inl, inr, arith, Bool-cases, if◌then◌else◌, In,
  In-append, In-append_left, In-append_right, In-select, In-select_of, In-map, In-map_from,
  NoRepeats, SameMembers, length_same, sort_by-Members, sort_by-NoRepeats, map-select-NoRepeats,
  one_row,
}
use prompt_patrol.Pipeline.Groups.{text_lt, concat}
use prompt_patrol.Pipeline.Split.{is_in}
use prompt_patrol.Pipeline.Split.Whole.{is_in-true, distinct_sorted-In}
use prompt_patrol.Pipeline.Attach.{CorpusRow}
use prompt_patrol.Pipeline.Capping.{
  is_train_human, train_human_of, ai_count, group_ids, dropped_of, dropped, cap_train_humans,
}

-- `random.sample`: as many elements as asked for, none at two places.
pub record IsSample (drawn xs : List Text) (k : ℕ) : Type 0 where
  pub apart : NoRepeats drawn
  pub within : (x : Text) → In x drawn → In x xs
  pub count : length drawn ≡ k

-- What a capped corpus keeps of a corpus.
pub record IsCapped (corpus capped : List CorpusRow) : Type 0 where
  pub within : (r : CorpusRow) → In r capped → In r corpus
  pub others : (r : CorpusRow) → In r corpus → is_train_human r ≡ false → In r capped
  pub counts :
      (q : Text)
      → length (select (train_human_of q) capped)
        ≡ min (length (select (train_human_of q) corpus)) (ai_count corpus q)

length-map : {A B : Type 0} (f : A → B) (xs : List A) → length (map f xs) ≡ length xs
length-map f [] = refl
length-map f (x ∷ xs) = ap suc (length-map f xs)

abbrev id_of : CorpusRow → Text
id_of r = r.answer_id

is_in-In : (t : Text) (ts : List Text) → is_in t ts ≡ true → In t ts
unfolding any
is_in-In t [] h = cc
is_in-In t (u ∷ us) h = elim (Bool-cases (text_eq t u)) [
  | inl e ↦ inl ((text_eq_iff t u).0 e)
  | inr e ↦ inr (is_in-In t us (rw e at h))
]

not-In : (t : Text) (ts : List Text) → ¬ In t ts → not (is_in t ts) ≡ true
not-In t ts h = elim (Bool-cases (is_in t ts)) [
  | inl e ↦ absurd (h (is_in-In t ts e))
  | inr e ↦ rw e refl
]

not-In_of : (t : Text) (ts : List Text) → not (is_in t ts) ≡ true → ¬ In t ts
not-In_of t ts h i =
    (let e : is_in t ts ≡ true = is_in-true t ts i in let no : not true ≡ true = rw e at h in cc)

In-concat-map :
    (f : Text → List Text) (x : Text) (qs : List Text)
    → In x (concat (map f qs))
    → (q : Text) × In x (f q)
In-concat-map f x [] h = absurd h
In-concat-map f x (q ∷ qs) h = elim (In-append x (f q) (concat (map f qs)) h) [
  | inl i ↦ (q, i)
  | inr i ↦ In-concat-map f x qs i
]

In-concat-map_of :
    (f : Text → List Text) (x q : Text) (qs : List Text)
    → In q qs
    → In x (f q)
    → In x (concat (map f qs))
In-concat-map_of f x q [] h i = absurd h
In-concat-map_of f x q (p ∷ qs) (inl e) i =
    In-append_left x (f p) (concat (map f qs)) (subst (λ p. In x (f p)) e i)
In-concat-map_of f x q (p ∷ qs) (inr h) i =
    In-append_right x (f p) (concat (map f qs)) (In-concat-map_of f x q qs h i)

train_human_of-question :
    (q : Text) (r : CorpusRow)
    → train_human_of q r ≡ true
    → (is_train_human r ≡ true) × (r.question_id ≡ q)
train_human_of-question q r h = elim (Bool-cases (is_train_human r)) [
  | inl e ↦ (e, (text_eq_iff r.question_id q).0 (rw e at h))
  | inr e ↦ (let no : false ≡ true = rw e at h in cc)
]

module _ (sample : Text → List Text → ℕ → List Text) (corpus : List CorpusRow)
    (unique : NoRepeats (map id_of corpus))
    (draws : (q : Text) (xs : List Text) (k : ℕ)
      → NoRepeats xs
      → k ≤ length xs
      → IsSample (sample q xs k) xs k) where
  group-In :
      (q i : Text)
      → In i (group_ids corpus q)
      → (r : CorpusRow) × (In r corpus × (train_human_of q r ≡ true) × (i ≡ r.answer_id))
  unfolding group_ids
  group-In q i h =
      let (r, j) =
        In-map_from id_of i (select (train_human_of q) corpus)
          ((sort_by-Members text_lt (map id_of (select (train_human_of q) corpus)) i).0 h) in
      let k = In-select (train_human_of q) r corpus j.0 in (r, (k.0, k.1, j.1))

  group-In_of :
      (q : Text) (r : CorpusRow)
      → In r corpus
      → train_human_of q r ≡ true
      → In r.answer_id (group_ids corpus q)
  unfolding group_ids
  group-In_of q r h t =
      (sort_by-Members text_lt (map id_of (select (train_human_of q) corpus)) r.answer_id).1
        (In-map id_of r _ (In-select_of (train_human_of q) r corpus h t))

  group-NoRepeats : (q : Text) → NoRepeats (group_ids corpus q)
  unfolding group_ids
  group-NoRepeats q =
      sort_by-NoRepeats text_lt _ (map-select-NoRepeats id_of (train_human_of q) corpus unique)

  -- The identifiers that a question keeps.
  abbrev kept : Text → List Text
  kept q =
      if ltb (ai_count corpus q) (length (group_ids corpus q))
      then sample q (group_ids corpus q) (ai_count corpus q)
      else group_ids corpus q

  kept-IsSample :
      (q : Text)
      → IsSample
          (kept q)
          (group_ids corpus q)
          (min (length (group_ids corpus q)) (ai_count corpus q))
  kept-IsSample q = elim (Bool-cases (ltb (ai_count corpus q) (length (group_ids corpus q)))) [
    | inl e ↦
        let below : ai_count corpus q ≤ length (group_ids corpus q) = ground (arith, e) in
        let least : min (length (group_ids corpus q)) (ai_count corpus q) ≡ ai_count corpus q =
          omega (arith, below) in
        rw (e, least) (draws q (group_ids corpus q) (ai_count corpus q) (group-NoRepeats q) below)
    | inr e ↦
        let below : length (group_ids corpus q) ≤ ai_count corpus q = ground (arith, e) in
        let least : min (length (group_ids corpus q)) (ai_count corpus q)
            ≡ length (group_ids corpus q) =
          omega (arith, below) in
        rw (e, least) (record { apart = group-NoRepeats q; within = λ x i. i; count = refl })
  ]

  dropped_of-In :
      (q i : Text) → In i (dropped_of sample corpus q) → In i (group_ids corpus q) × ¬ In i (kept q)
  unfolding dropped_of
  dropped_of-In q i h = elim (Bool-cases (ltb (ai_count corpus q) (length (group_ids corpus q)))) [
    | inl e ↦
        let (j, k) = In-select _ i (group_ids corpus q) (rw e at h) in rw e (j, not-In_of i _ k)
    | inr e ↦ absurd (rw e at h)
  ]

  kept-In :
      (q i : Text) → In i (group_ids corpus q) → ¬ In i (dropped_of sample corpus q) → In i (kept q)
  unfolding dropped_of
  kept-In q i h d = elim (Bool-cases (ltb (ai_count corpus q) (length (group_ids corpus q)))) [
    | inl e ↦
        rw e (elim (Bool-cases (is_in i (sample q (group_ids corpus q) (ai_count corpus q)))) [
          | inl k ↦ is_in-In i _ k
          | inr k ↦ absurd (d (rw e (In-select_of _ i (group_ids corpus q) h (rw k refl))))
        ])
    | inr e ↦ rw e h
  ]

  -- A row of the corpus whose identifier is dropped is a human training answer of its question.
  dropped-row :
      (r : CorpusRow)
      → In r corpus
      → In r.answer_id (dropped sample corpus)
      → (is_train_human r ≡ true) × In r.answer_id (dropped_of sample corpus r.question_id)
  unfolding dropped
  dropped-row r h d =
      let (q, i) = In-concat-map (dropped_of sample corpus) r.answer_id _ d in
      let (s, j) = group-In q r.answer_id (dropped_of-In q r.answer_id i).0 in
      let same : r ≡ s = one_row id_of corpus unique r s h j.0 j.2 in
      let t = train_human_of-question q r (ap (train_human_of q) same ∙ j.1) in
      (t.0, subst (λ p. In r.answer_id (dropped_of sample corpus p)) (sym t.1) i)

  dropped-In :
      (q : Text) (r : CorpusRow)
      → In r corpus
      → train_human_of q r ≡ true
      → In r.answer_id (dropped_of sample corpus q)
      → In r.answer_id (dropped sample corpus)
  unfolding dropped
  dropped-In q r h t d =
      let (trains, same) = train_human_of-question q r t in
      In-concat-map_of (dropped_of sample corpus) r.answer_id q _
        (distinct_sorted-In q _ (
          subst (λ p. In p (map (λ r. r.question_id) (select is_train_human corpus))) same
            (In-map (λ r. r.question_id) r _ (In-select_of is_train_human r corpus h trains))))
        d

  abbrev capped : List CorpusRow
  capped = (cap_train_humans sample corpus).0

  capped-In : (r : CorpusRow) → In r capped → In r corpus × ¬ In r.answer_id (dropped sample corpus)
  unfolding cap_train_humans
  capped-In r h = let (i, k) = In-select _ r corpus h in (i, not-In_of r.answer_id _ k)

  capped-In_of :
      (r : CorpusRow) → In r corpus → ¬ In r.answer_id (dropped sample corpus) → In r capped
  unfolding cap_train_humans
  capped-In_of r h d = In-select_of _ r corpus h (not-In r.answer_id _ d)

  -- The identifiers of a question's human training answers in the capped corpus.
  abbrev left : Text → List Text
  left q = map id_of (select (train_human_of q) capped)

  left-NoRepeats : (q : Text) → NoRepeats (left q)
  unfolding cap_train_humans
  left-NoRepeats q =
      map-select-NoRepeats id_of (train_human_of q) capped
        (map-select-NoRepeats id_of _ corpus unique)

  left-Members : (q : Text) → SameMembers (left q) (kept q)
  left-Members q i = (there, back)
    where
      there : In i (left q) → In i (kept q)
      there h =
          let (r, j) = In-map_from id_of i (select (train_human_of q) capped) h in
          let (c, t) = In-select (train_human_of q) r capped j.0 in
          let (k, d) = capped-In r c in
          subst (λ x. In x (kept q)) (sym j.1)
            (kept-In q r.answer_id (group-In_of q r k t) (λ e. d (dropped-In q r k t e)))

      back : In i (kept q) → In i (left q)
      back h =
          let (r, j) = group-In q i ((kept-IsSample q).within i h) in
          let stays : ¬ In r.answer_id (dropped sample corpus) = λ d.
            let same = (train_human_of-question q r j.1).1 in
            let e : In r.answer_id (dropped_of sample corpus q) =
              subst (λ p. In r.answer_id (dropped_of sample corpus p)) same
                (dropped-row r j.0 d).1 in
            (dropped_of-In q r.answer_id e).1 (subst (λ x. In x (kept q)) j.2 h) in
          subst (λ x. In x (left q)) (sym j.2)
            (In-map id_of r _
              (In-select_of (train_human_of q) r capped (capped-In_of r j.0 stays) j.1))

  length-group_ids :
      (q : Text) → length (group_ids corpus q) ≡ length (select (train_human_of q) corpus)
  unfolding group_ids
  length-group_ids q =
      length_same (group_ids corpus q) (map id_of (select (train_human_of q) corpus))
        (group-NoRepeats q) (map-select-NoRepeats id_of (train_human_of q) corpus unique)
        (sort_by-Members text_lt _)
      ∙ length-map id_of (select (train_human_of q) corpus)

  -- With one row for each identifier, and samples of as many elements as asked for without repeats,
  -- capping leaves every question as many human training answers as it has AI answers, or all of
  -- them where it has no more; it adds no row, and drops none but such answers.
  pub cap_train_humans-IsCapped : IsCapped corpus (cap_train_humans sample corpus).0
  cap_train_humans-IsCapped = record {
    within = λ r h. (capped-In r h).0;
    others = λ r h t. capped-In_of r h (λ d. let (e, _) = dropped-row r h d in cc);
    counts = λ q.
        sym (length-map id_of (select (train_human_of q) capped))
        ∙ length_same (left q) (kept q) (left-NoRepeats q) (kept-IsSample q).apart (left-Members q)
        ∙ (kept-IsSample q).count
        ∙ ap (λ n. min n (ai_count corpus q)) (length-group_ids q);
  }
