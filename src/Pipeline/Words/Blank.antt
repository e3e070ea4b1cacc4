-- ===== src/Pipeline/Words/Blank.antt =====
-- A text with words is not blank.
use mathlib.Core.List.{reverse_aux}
use prompt_patrol.Common.{
  ℕ, ◌≤◌, Bool, true, false, [], ◌∷◌, Text, ◌&&◌, not, ◌≡◌, ◌≢◌, refl, arith, inl, inr, ◌⊎◌, In,
  Bool-cases, if◌then◌else◌,
}
use prompt_patrol.Users.Email.{is_space, strip, strip_left}
use prompt_patrol.Pipeline.Words.{is_separator, words_in, count_words, min_words, is_blank}

In-reverse_aux : (c : ℕ) (s r : Text) → In c s ⊎ In c r → In c (reverse_aux s r)
In-reverse_aux c [] r (inl h) = absurd h
In-reverse_aux c [] r (inr h) = h
In-reverse_aux c (d ∷ s) r (inl (inl e)) = In-reverse_aux c s (d ∷ r) (inr (inl e))
In-reverse_aux c (d ∷ s) r (inl (inr h)) = In-reverse_aux c s (d ∷ r) (inl h)
In-reverse_aux c (d ∷ s) r (inr h) = In-reverse_aux c s (d ∷ r) (inr (inr h))

In-strip_left : (c : ℕ) (s : Text) → is_space c ≡ false → In c s → In c (strip_left s)
unfolding strip_left
In-strip_left c [] n h = absurd h
In-strip_left c (d ∷ s) n (inl e) = rw (← e) (rw n (inl refl))
In-strip_left c (d ∷ s) n (inr h) = elim (Bool-cases (is_space d)) [
  | inl t ↦ rw t (In-strip_left c s n h)
  | inr f ↦ rw f (inr h)
]

In-strip : (c : ℕ) (s : Text) → is_space c ≡ false → In c s → In c (strip s)
unfolding strip
In-strip c s n h =
    In-reverse_aux c _ []
      (inl (In-strip_left c _ n (In-reverse_aux c _ [] (inl (In-strip_left c s n h)))))

separator-space : (c : ℕ) → is_separator c ≡ false → is_space c ≡ false
unfolding is_separator
separator-space c h = ground arith

no_start : (b : Bool) → (if◌then◌else◌ {A = ℕ} (not b && false) 1 0) ≡ 0
no_start true = refl
no_start false = refl

-- A text with a word has a character that is no space.
words_in-char : (b : Bool) (s : Text) → words_in b s ≢ 0 → (c : ℕ) × (In c s × (is_space c ≡ false))
unfolding words_in
words_in-char b [] h = absurd (h refl)
words_in-char b (d ∷ s) h = elim (Bool-cases (is_separator d)) [
  | inl t ↦
      let (c, p) = words_in-char false s (λ e. h (rw (t, e) (no_start b))) in (c, (inr p.0, p.1))
  | inr f ↦ (d, (inl refl, separator-space d f))
]

is_blank-In : (c : ℕ) (s : Text) → In c s → is_blank s ≡ false
is_blank-In c [] h = absurd h
is_blank-In c (d ∷ s) h = refl

pub not_blank : (s : Text) → min_words ≤ count_words s → is_blank (strip s) ≡ false
unfolding count_words
not_blank s h =
    let (c, p) = words_in-char false s (λ e. absurd (omega (arith, h, e))) in
    is_blank-In c (strip s) (In-strip c s p.1 p.0)
