-- ===== src/Pipeline/Splice/Shares.antt =====
-- The share that a candidate is picked by is the share of its splice (splicer/splice.py).
use mathlib.Core.Path.{subst}
use prompt_patrol.Common.{
  ℕ, suc, ◌+◌, ◌-◌, ◌≤◌, ◌<◌, false, Option, some, List, [], ◌∷◌, Text, ◌==◌, ==_iff, any, take,
  length, ◌≡◌, refl, sym, arith, Bool-cases, inl, inr, length-take,
}
use prompt_patrol.Pipeline.Words.{count_words}
use prompt_patrol.Pipeline.Splice.{
  ai, human, Sentence, with_sentence, splice_from, splice_at, ai_words, total_words, ai_share,
  sum_words, sentence_at, replaced_words, candidate_share,
}

-- Positions in increasing order, from `i` on and below `n`.
abbrev pub Increasing : ℕ → ℕ → List ℕ → Type 0
Increasing i n [] = Unit
Increasing i n (p ∷ ps) = (i ≤ p) × (p < n) × Increasing (suc p) n ps

-- Of the sentences from position `i` on.
replaced_from : ℕ → List Text → List ℕ → ℕ
replaced_from i ss [] = 0
replaced_from i ss (p ∷ ps) = count_words (sentence_at ss (p - i)) + replaced_from i ss ps

record IsSplice (i : ℕ) (ss donor : List Text) (ps : List ℕ) (o : Option (List Sentence))
    : Type 0 where
  out : List Sentence
  done : o ≡ some out
  whole_length : length out ≡ length ss
  from_donor : ai_words out ≡ sum_words donor
  balance : total_words out + replaced_from i ss ps ≡ sum_words ss + sum_words donor

any-passed : (i k n : ℕ) (ps : List ℕ) → i < k → Increasing k n ps → any (λ p. p == i) ps ≡ false
unfolding any
any-passed i k n [] l h = refl
any-passed i k n (p ∷ ps) l (a, b, c) =
    ground (arith, l, a, any-passed i (suc p) n ps (omega (arith, l, a)) c)

-- A position that is passed no longer counts.
splice_from-passed :
    (p j : ℕ) (ps : List ℕ) (donor ss : List Text)
    → p < j
    → splice_from j (p ∷ ps) donor ss ≡ splice_from j ps donor ss
unfolding splice_from any
splice_from-passed p j ps donor [] l = refl
splice_from-passed p j ps [] (s ∷ ss) l =
    let off : (p == j) ≡ false = ground (arith, l) in
    rw (off, splice_from-passed p (suc j) ps [] ss (omega (arith, l))) refl
splice_from-passed p j ps (d ∷ ds) (s ∷ ss) l =
    let off : (p == j) ≡ false = ground (arith, l) in
    rw
      (
        off,
        splice_from-passed p (suc j) ps ds ss (omega (arith, l)),
        splice_from-passed p (suc j) ps (d ∷ ds) ss (omega (arith, l)),
      )
      refl

Increasing-weaken : (k m n : ℕ) (ps : List ℕ) → k ≤ m → Increasing m n ps → Increasing k n ps
Increasing-weaken k m n [] l h = tt
Increasing-weaken k m n (p ∷ ps) l (a, b, c) = (omega (arith, a, l), b, c)

replaced_from-cons :
    (i n : ℕ) (s : Text) (ss : List Text) (ps : List ℕ)
    → Increasing (suc i) n ps
    → replaced_from i (s ∷ ss) ps ≡ replaced_from (suc i) ss ps
unfolding replaced_from
replaced_from-cons i n s ss [] h = refl
replaced_from-cons i n s ss (p ∷ ps) (a, b, c) =
    rw
      (
        (let e : p - i ≡ suc (p - suc i) = omega (arith, a) in e),
        replaced_from-cons i n s ss ps
            (Increasing-weaken (suc i) (suc p) n ps (omega (arith, a)) c),
      )
      refl

human_first :
    (i : ℕ) (s : Text) (ss donor : List Text) (ps : List ℕ) (o : Option (List Sentence))
    → replaced_from i (s ∷ ss) ps ≡ replaced_from (suc i) ss ps
    → IsSplice (suc i) ss donor ps o
    → IsSplice i (s ∷ ss) donor ps (with_sentence human s o)
unfolding ai_words total_words sum_words
human_first i s ss donor ps o e h = record {
  out = record { label = human; words = s } ∷ h.out;
  done = rw h.done refl;
  whole_length = omega (arith, h.whole_length);
  from_donor = h.from_donor;
  balance = omega (arith, h.balance, e);
}

ai_first :
    (i n : ℕ) (s d : Text) (ss ds : List Text) (ps : List ℕ) (o : Option (List Sentence))
    → Increasing (suc i) n ps
    → IsSplice (suc i) ss ds ps o
    → IsSplice i (s ∷ ss) (d ∷ ds) (i ∷ ps) (with_sentence ai d o)
unfolding ai_words total_words sum_words replaced_from
ai_first i n s d ss ds ps o k h =
    let first : count_words (sentence_at (s ∷ ss) (i - i)) ≡ count_words s =
      rw (let e : i - i ≡ 0 = omega arith in e) refl in
    record {
      out = record { label = ai; words = d } ∷ h.out;
      done = rw h.done refl;
      whole_length = omega (arith, h.whole_length);
      from_donor = omega (arith, h.from_donor);
      balance = omega (arith, h.balance, first, replaced_from-cons i n s ss ps k);
    }

splice_from-IsSplice :
    (i n : ℕ) (ss donor : List Text) (ps : List ℕ)
    → n ≡ i + length ss
    → length donor ≡ length ps
    → Increasing i n ps
    → IsSplice i ss donor ps (splice_from i ps donor ss)
unfolding splice_from any replaced_from ai_words total_words sum_words
splice_from-IsSplice i n [] [] [] e l h = record {
  out = [];
  done = refl;
  whole_length = refl;
  from_donor = refl;
  balance = refl;
}
splice_from-IsSplice i n [] (d ∷ ds) [] e l h = absurd (omega (arith, l))
splice_from-IsSplice i n [] donor (p ∷ ps) e l (a, b, c) = absurd (omega (arith, e, a, b))
splice_from-IsSplice i n (s ∷ ss) [] [] e l h =
    human_first i s ss [] [] _ refl
      (splice_from-IsSplice (suc i) n ss [] [] (omega (arith, e)) refl tt)
splice_from-IsSplice i n (s ∷ ss) (d ∷ ds) [] e l h = absurd (omega (arith, l))
splice_from-IsSplice i n (s ∷ ss) [] (p ∷ ps) e l h = absurd (omega (arith, l))
splice_from-IsSplice i n (s ∷ ss) (d ∷ ds) (p ∷ ps) e l (a, b, c) = elim (Bool-cases (p == i)) [
  | inl here ↦
      let same : p ≡ i = (==_iff p i).0 here in
      let rest : Increasing (suc i) n ps =
        Increasing-weaken (suc i) (suc p) n ps (omega (arith, a)) c in
      subst (λ q. IsSplice i (s ∷ ss) (d ∷ ds) (q ∷ ps) (splice_from i (q ∷ ps) (d ∷ ds) (s ∷ ss)))
        (sym same)
        (rw ((==_iff i i).1 refl, splice_from-passed i (suc i) ps ds ss (omega arith))
          (ai_first i n s d ss ds ps _ rest
            (splice_from-IsSplice (suc i) n ss ds ps (omega (arith, e)) (omega (arith, l)) rest)))
  | inr ahead ↦
      let later : Increasing (suc i) n (p ∷ ps) = (ground (arith, a, ahead), b, c) in
      rw (ahead, any-passed i (suc p) n ps (omega (arith, a)) c)
        (human_first i s ss (d ∷ ds) (p ∷ ps) _ (replaced_from-cons i n s ss (p ∷ ps) later)
          (splice_from-IsSplice (suc i) n ss (d ∷ ds) (p ∷ ps) (omega (arith, e)) l later))
]

replaced_from-zero : (ss : List Text) (ps : List ℕ) → replaced_from 0 ss ps ≡ replaced_words ss ps
unfolding replaced_from replaced_words
replaced_from-zero ss [] = refl
replaced_from-zero ss (p ∷ ps) =
    rw ((let e : p - 0 ≡ p = omega arith in e), replaced_from-zero ss ps) refl

-- For positions in increasing order inside the answer, and no more of them than the donor has
-- sentences, the splice exists and is as long as the answer, and the share that the candidate is
-- picked by is the share of AI words in the splice.
pub splice_at-share :
    (base donor : List Text) (positions : List ℕ)
    → Increasing 0 (length base) positions
    → length positions ≤ length donor
    → (out : List Sentence) × ((splice_at base donor positions ≡ some out)
        × (length out ≡ length base)
        × (ai_share out ≡ candidate_share base donor positions))
unfolding splice_at ai_share candidate_share
splice_at-share base donor positions h l =
    let k : ℕ = length positions in
    let taken : length (take k donor) ≡ k = omega (arith, length-take k donor, l) in
    let x =
      splice_from-IsSplice 0 (length base) base (take k donor) positions (omega arith) taken h in
    let whole : total_words x.out
        ≡ sum_words (take k donor) + sum_words base - replaced_words base positions =
      omega (arith, x.balance, replaced_from-zero base positions) in
    (x.out, (x.done, x.whole_length, rw (x.from_donor, whole) refl))
