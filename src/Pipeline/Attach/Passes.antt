-- ===== src/Pipeline/Attach/Passes.antt =====
-- What attachment gives, and that it passes its own check (corpus/attach_styles.py).
use mathlib.Core.Path.{subst}
use prompt_patrol.Common.{
  ℕ, ◌+◌, ◌≤◌, Bool, true, false, Option, none, some, List, [], ◌∷◌, Text, text_eq, text_eq_iff,
  ltb, ◌&&◌, not, any, find, length, length-append, ◌≡◌, refl, sym, ◌∙◌, arith, inl, inr, All,
  All-append, All-map, In, Bool-cases,
}
use prompt_patrol.Pipeline.Split.{Partition, train, val, test, is_in}
use prompt_patrol.Pipeline.Words.{count_words, min_words}
use prompt_patrol.Pipeline.Words.Blank.{not_blank}
use prompt_patrol.Pipeline.Attach.{
  CorpusRow, StyleRecord, StyledRow, Attached, Attachment, attached, refused, is_source,
  of_other_question, styled, with_source, attach_one, then_attach, attach_from, attach,
  partition_eq, is_partition, passes,
}

some_inj : {A : Type 0} {a b : A} → some a ≡ some b → a ≡ b
some_inj e = cc

-- A row made from a record and from the AI answer of the corpus that the record names: its text is
-- the record's, cleaned, its identifier and style are the record's, the other columns its source's;
-- and the text has the words that the corpus asks for.
pub record FromSource (clean_text : Text → Text) (corpus : List CorpusRow)
    (records : List StyleRecord) (x : StyledRow) : Type 0 where
  pub made_from : StyleRecord
  pub from_records : In made_from records
  pub text : x.row.answer ≡ clean_text made_from.answer
  pub id : x.row.answer_id ≡ made_from.answer_id
  pub style : x.style ≡ made_from.style
  pub source : CorpusRow
  pub from_corpus : In source corpus
  pub of_ai : source.is_ai ≡ true
  pub named : source.answer_id ≡ made_from.source_answer_id
  pub of_id : source.answer_id ≡ x.source_answer_id
  pub same_question : (q : Text) → made_from.question_id ≡ some q → source.question_id ≡ q
  pub label : x.row.is_ai ≡ true
  pub partition : x.row.partition ≡ source.partition
  pub question : x.row.question_id ≡ source.question_id
  pub generator : x.row.generator ≡ source.generator
  pub dataset : x.row.dataset ≡ source.dataset
  pub tier : x.row.tier ≡ source.tier
  pub counted : x.n_words ≡ count_words x.row.answer
  pub words : min_words ≤ count_words x.row.answer

own_question :
    (o : Option Text) (x : CorpusRow)
    → of_other_question o x ≡ false
    → (q : Text) → o ≡ some q
    → x.question_id ≡ q
own_question none x h q e = cc
own_question (some p) x h q e = elim (Bool-cases (text_eq p x.question_id)) [
  | inl t ↦ sym ((text_eq_iff p x.question_id).0 t) ∙ some_inj e
  | inr f ↦ (let no : true ≡ false = rw f at h in cc)
]

find-In :
    (p : CorpusRow → Bool) (xs : List CorpusRow) (x : CorpusRow)
    → find p xs ≡ some x
    → In x xs × (p x ≡ true)
unfolding find
find-In p [] x h = cc
find-In p (y ∷ ys) x h = elim (Bool-cases (p y)) [
  | inl t ↦
      let same : y ≡ x = some_inj (rw t at h) in (inl (sym same), subst (λ z. p z ≡ true) same t)
  | inr f ↦ let (i, t) = find-In p ys x (rw f at h) in (inr i, t)
]

both_true : (b c : Bool) → (b && c) ≡ true → (b ≡ true) × (c ≡ true)
both_true b c h = ground arith

module _ (clean_text : Text → Text) (corpus : List CorpusRow) (records : List StyleRecord) where
  -- After `n` records.
  pub record Matched (n : ℕ) (s : Attached) : Type 0 where
    pub sources : All (FromSource clean_text corpus records) s.rows
    pub counts : n ≡ length s.rows + s.short + s.not_in_corpus

  abbrev MatchedIf : ℕ → Attachment → Type 0
  MatchedIf n (attached s) = Matched n s
  MatchedIf n (refused why) = Unit

  styled-FromSource :
      (r : StyleRecord) (x : CorpusRow)
      → In r records
      → find (is_source r.source_answer_id) corpus ≡ some x
      → of_other_question r.question_id x ≡ false
      → ltb (count_words (clean_text r.answer)) min_words ≡ false
      → FromSource clean_text corpus records (styled r x (clean_text r.answer))
  styled-FromSource r x m h own w =
      let (i, t) = find-In (is_source r.source_answer_id) corpus x h in
      let (ai, same_id) = both_true x.is_ai (text_eq x.answer_id r.source_answer_id) t in
      record {
        made_from = r;
        from_records = m;
        text = refl;
        id = refl;
        style = refl;
        source = x;
        from_corpus = i;
        of_ai = ai;
        named = (text_eq_iff x.answer_id r.source_answer_id).0 same_id;
        of_id = (text_eq_iff x.answer_id r.source_answer_id).0 same_id;
        same_question = own_question r.question_id x own;
        label = refl;
        partition = refl;
        question = refl;
        generator = refl;
        dataset = refl;
        tier = refl;
        counted = refl;
        words = ground (arith, w);
      }

  with_source-Matched :
      (n : ℕ) (r : StyleRecord) (o : Option CorpusRow) (s : Attached)
      → In r records
      → find (is_source r.source_answer_id) corpus ≡ o
      → Matched n s
      → MatchedIf (n + 1) (with_source clean_text corpus r o s)
  with_source-Matched n r none s i h m = record { sources = m.sources; counts = omega (arith, m) }
  with_source-Matched n r (some x) s i h m = elim (Bool-cases (of_other_question r.question_id x)) [
    | inl other ↦ rw other tt
    | inr own ↦ elim (Bool-cases (ltb (count_words (clean_text r.answer)) min_words)) [
      | inl few ↦ rw (own, few) (record { sources = m.sources; counts = omega (arith, m) })
      | inr enough ↦
          rw (own, enough)
            (record {
              sources =
                  All-append (FromSource clean_text corpus records) s.rows
                    (styled r x (clean_text r.answer) ∷ []) m.sources
                    (styled-FromSource r x i h own enough, tt);
              counts =
                  omega (arith, m, length-append s.rows (styled r x (clean_text r.answer) ∷ []));
            })
    ]
  ]

  attach_one-Matched :
      (n : ℕ) (r : StyleRecord) (s : Attached)
      → In r records
      → Matched n s
      → MatchedIf (n + 1) (attach_one clean_text corpus r s)
  attach_one-Matched n r s i m = elim (Bool-cases (is_in r.answer_id s.seen)) [
    | inl twice ↦ rw twice tt
    | inr new ↦ rw new (
        with_source-Matched n r (find (is_source r.source_answer_id) corpus) _ i refl
          (record { sources = m.sources; counts = m.counts }))
  ]

  attach_from-Matched :
      (n : ℕ) (rs : List StyleRecord) (s : Attached)
      → ((r : StyleRecord) → In r rs → In r records)
      → Matched n s
      → MatchedIf (n + length rs) (attach_from clean_text corpus rs s)
  unfolding attach_from
  attach_from-Matched n [] s sub m = rw (let e : n + 0 ≡ n = omega arith in e) m
  attach_from-Matched n (r ∷ rs) s sub m =
      let e : n + length (r ∷ rs) ≡ n + 1 + length rs = omega arith in
      rw e (
        onwards (attach_one clean_text corpus r s) (attach_one-Matched n r s (sub r (inl refl)) m)
          (λ t. attach_from-Matched (n + 1) rs t (λ x i. sub x (inr i))))
    where
      onwards :
          (x : Attachment)
          → MatchedIf (n + 1) x
          → ((t : Attached)
              → Matched (n + 1) t
              → MatchedIf (n + 1 + length rs) (attach_from clean_text corpus rs t))
          → MatchedIf
              (n + 1 + length rs)
              (then_attach clean_text corpus (attach_from clean_text corpus rs) x)
      onwards (attached t) h k = k t h
      onwards (refused why) h k = tt

  -- Where attachment does not stop, each row is made from a record and from the AI answer of the corpus
  -- that the record names: the text is the record's, cleaned, and at least as long as the corpus asks,
  -- identifier and style are the record's, and partition, question, generator, dataset and tier the
  -- source's; and the rows, the records that are too short and those without a source are together as
  -- many as the records.
  pub attach-Matched :
      (s : Attached) → attach clean_text corpus records ≡ attached s → Matched (length records) s
  unfolding attach
  attach-Matched s h =
      let e : 0 + length records ≡ length records = omega arith in
      subst (MatchedIf (length records)) h (
        subst (λ n. MatchedIf n (attach clean_text corpus records)) e
          (attach_from-Matched 0 records _ (λ r i. i)
            (record { sources = tt; counts = omega arith })))

module _ (clean_text : Text → Text) (corpus : List CorpusRow) where
  partition_eq_refl : (p : Partition) → partition_eq p p ≡ true
  partition_eq_refl train = refl
  partition_eq_refl val = refl
  partition_eq_refl test = refl

  All-In : (P : CorpusRow → Type 0) (x : CorpusRow) (xs : List CorpusRow) → All P xs → In x xs → P x
  All-In P x [] h i = absurd i
  All-In P x (y ∷ ys) h (inl e) = subst P (sym e) h.0
  All-In P x (y ∷ ys) h (inr i) = All-In P x ys h.1 i

  any-none :
      (p : StyledRow → Bool) (xs : List StyledRow) → All (λ x. p x ≡ false) xs → any p xs ≡ false
  unfolding any
  any-none p [] h = refl
  any-none p (x ∷ xs) h = rw (h.0, any-none p xs h.1) refl

  -- Where the corpus holds every answer in the partition of its question and attachment does not
  -- stop, the attached rows pass the check.
  pub attach-passes :
      (question_partitions : Text → Option Partition) (records : List StyleRecord) (s : Attached)
      → All (λ r. question_partitions r.question_id ≡ some r.partition) corpus
      → attach clean_text corpus records ≡ attached s
      → passes question_partitions s.rows ≡ true
  unfolding passes
  attach-passes question_partitions records s manifest h =
      let rows : All (FromSource clean_text corpus records) s.rows =
        (attach-Matched clean_text corpus records s h).sources in
      rw
        (
          any-none _ s.rows (All-map (FromSource clean_text corpus records) _ placed s.rows rows),
          any-none _ s.rows (
              All-map (FromSource clean_text corpus records) _
                (λ x f. not_blank x.row.answer f.words) s.rows rows),
        )
        refl
    where
      placed :
          (x : StyledRow)
          → FromSource clean_text corpus records x
          → not (is_partition (question_partitions x.row.question_id) x.row.partition) ≡ false
      placed x f =
          rw
            (
              f.question,
              f.partition,
              All-In (λ r. question_partitions r.question_id ≡ some r.partition) f.source corpus
                  manifest f.from_corpus,
            )
            (rw (partition_eq_refl f.source.partition) refl)
