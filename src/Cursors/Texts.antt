-- ===== src/Cursors/Texts.antt =====
-- Texts of hexadecimal digits and dashes: what the reader of a UUID leaves alone.
use prompt_patrol.Common.{
  ℕ, zero, suc, Bool, true, false, not, List, [], ◌∷◌, ◌++◌, Text, leb, ◌==◌, ◌&&◌, ◌||◌, ◌≡◌, refl,
  ap, arith, All, All-append, All-take, All-map, take, drop, select, take-append-drop,
  slice-append-drop, Bool-cases, inl, inr,
}
use prompt_patrol.Users.Email.{is_space}
use prompt_patrol.Cursors.Uuids.{
  remove_from, strip_start, strip_end, dashed, skip_prefix, skip_plus, is_brace,
}

abbrev pub is_hex : ℕ → Bool
is_hex c = (leb b'0' c && leb c b'9') || (leb b'a' c && leb c b'f')

abbrev pub IsHex : ℕ → Type 0
IsHex c = is_hex c ≡ true

abbrev pub IsPlain : ℕ → Type 0
IsPlain c = (is_hex c || c == b'-') ≡ true

module _ {ℓ} {A : Type ℓ} where
  pub All-drop {κ} : (P : A → Type κ) (n : ℕ) (xs : List A) → All P xs → All P (drop n xs)
  All-drop P zero xs h = h
  All-drop P (suc n) [] h = tt
  All-drop P (suc n) (x ∷ xs) h = All-drop P n xs h.1

  pub select-append :
      (p : A → Bool) (xs ys : List A) → select p (xs ++ ys) ≡ select p xs ++ select p ys
  unfolding select
  select-append p [] ys = refl
  select-append p (x ∷ xs) ys = elim (Bool-cases (p x)) [
    | inl e ↦ rw e (ap (λ zs. x ∷ zs) (select-append p xs ys))
    | inr e ↦ rw e (select-append p xs ys)
  ]

  pub select-All : (p : A → Bool) (xs : List A) → All (λ x. p x ≡ true) xs → select p xs ≡ xs
  unfolding select
  select-All p [] h = refl
  select-All p (x ∷ xs) h = rw h.0 (ap (λ zs. x ∷ zs) (select-All p xs h.1))

-- A text without the pattern's first character.
pub remove_from-none :
    (c : ℕ) (p s : Text) → All (λ d. (c == d) ≡ false) s → remove_from 0 (c ∷ p) s ≡ s
unfolding remove_from
remove_from-none c p [] h = refl
remove_from-none c p (d ∷ s) h =
    rw (remove_from, h.0) (ap (λ t. d ∷ t) (remove_from-none c p s h.1))

pub strip_start-none : (p : ℕ → Bool) (s : Text) → All (λ c. p c ≡ false) s → strip_start p s ≡ s
unfolding strip_start
strip_start-none p [] h = refl
strip_start-none p (c ∷ s) h = rw h.0 refl

pub strip_end-none : (p : ℕ → Bool) (s : Text) → All (λ c. p c ≡ false) s → strip_end p s ≡ s
unfolding strip_end
strip_end-none p [] h = refl
strip_end-none p (c ∷ []) h = rw h.0 refl
strip_end-none p (c ∷ d ∷ s) h = rw (strip_end-none p (d ∷ s) h.1) refl

pub skip_plus-hex : (s : Text) → All IsHex s → skip_plus s ≡ s
skip_plus-hex [] h = refl
skip_plus-hex (c ∷ s) h = ground (arith, h.0)

pub skip_prefix-hex : (s : Text) → All IsHex s → skip_prefix s ≡ s
skip_prefix-hex [] h = refl
skip_prefix-hex (c ∷ []) h = refl
skip_prefix-hex (c ∷ d ∷ s) h = ground (arith, h.1.0)

pub hex-not_space : (s : Text) → All IsHex s → All (λ c. is_space c ≡ false) s
unfolding is_space
hex-not_space = All-map IsHex (λ c. is_space c ≡ false) (λ c h. ground arith)

pub plain-not :
    (d : ℕ)
    → is_hex d ≡ false
    → (d == b'-') ≡ false
    → (s : Text) → All IsPlain s
    → All (λ c. (d == c) ≡ false) s
plain-not d h k = All-map IsPlain (λ c. (d == c) ≡ false) (λ c p. ground arith)

pub plain-not_brace : (s : Text) → All IsPlain s → All (λ c. is_brace c ≡ false) s
plain-not_brace = All-map IsPlain (λ c. is_brace c ≡ false) (λ c p. ground arith)

pub hex-IsPlain : (s : Text) → All IsHex s → All IsPlain s
hex-IsPlain = All-map IsHex IsPlain (λ c h. ground arith)

pub dashed-IsPlain : (s : Text) → All IsHex s → All IsPlain (dashed s)
dashed-IsPlain s h =
    let part : (n m : ℕ) → All IsPlain (take n (drop m s)) =
      λ n m. hex-IsPlain _ (All-take IsHex n (drop m s) (All-drop IsHex m s h)) in
    All-append IsPlain (take 8 s) _ (part 8 0) (
      refl,
      All-append IsPlain (take 4 (drop 8 s)) _ (part 4 8) (
        refl,
        All-append IsPlain (take 4 (drop 12 s)) _ (part 4 12) (
          refl,
          All-append IsPlain (take 4 (drop 16 s)) _ (part 4 16)
              (refl, hex-IsPlain _ (All-drop IsHex 20 s h)),
        ),
      ),
    )

abbrev pub not_dash : ℕ → Bool
not_dash c = not (c == b'-')

select-hex : (s : Text) → All IsHex s → select not_dash s ≡ s
select-hex s h =
    select-All not_dash s (All-map IsHex (λ c. not_dash c ≡ true) (λ c p. ground arith) s h)

select-up_to_dash :
    (s t : Text) → All IsHex s → select not_dash (s ++ (b'-' ∷ t)) ≡ s ++ select not_dash t
unfolding select
select-up_to_dash s t h = rw (select-append not_dash s (b'-' ∷ t), select-hex s h) (refl)

-- Without its dashes, a UUID's text is its digits.
pub select-dashed : (s : Text) → All IsHex s → select not_dash (dashed s) ≡ s
select-dashed s h =
    let hex : (n m : ℕ) → All IsHex (take n (drop m s)) =
      λ n m. All-take IsHex n (drop m s) (All-drop IsHex m s h) in
    rw
      (
        select-up_to_dash (take 8 s) _ (hex 8 0),
        select-up_to_dash (take 4 (drop 8 s)) _ (hex 4 8),
        select-up_to_dash (take 4 (drop 12 s)) _ (hex 4 12),
        select-up_to_dash (take 4 (drop 16 s)) _ (hex 4 16),
        select-hex (drop 20 s) (All-drop IsHex 20 s h),
        slice-append-drop 4 16 s,
        slice-append-drop 4 12 s,
        slice-append-drop 4 8 s,
      )
      (take-append-drop 8 s)
