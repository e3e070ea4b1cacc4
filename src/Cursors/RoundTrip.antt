-- ===== src/Cursors/RoundTrip.antt =====
-- What a cursor decodes to.
use Prim.Native.Nat.{◌/◌, ◌%◌, ◌^◌}
use native.Mathlib.Nat.{pow-succ'}
use prompt_patrol.Common.{
  ℕ, zero, suc, ◌+◌, ◌*◌, ◌<◌, Bool, true, false, some, [], ◌∷◌, Text, text, ◌≡◌, refl, ap, ◌∙◌,
  arith, All, All-map, length, ltb, select,
}
use prompt_patrol.Models.{Uuid}
use prompt_patrol.Users.Email.{is_space}
use prompt_patrol.Cursors.{encode_cursor, decode_cursor, ascii}
use prompt_patrol.Cursors.Base64.{decode-encode, IsByte}
use prompt_patrol.Cursors.Uuids.{
  hex_digit, hex_onto, uuid_text, digits, int_16, read_uuid, is_brace, hex_value,
}
use prompt_patrol.Cursors.Texts.{
  not_dash, IsHex, IsPlain, dashed-IsPlain, select-dashed, remove_from-none, strip_start-none,
  strip_end-none, skip_plus-hex, skip_prefix-hex, hex-not_space, plain-not, plain-not_brace,
}

hex_digit-IsHex : (v : ℕ) → v < 16 → IsHex (hex_digit v)
unfolding hex_digit
hex_digit-IsHex v h = ground arith

hex_value-digit : (v : ℕ) → v < 16 → hex_value (hex_digit v) ≡ some v
unfolding hex_digit
hex_value-digit v h = ground arith

pub hex_onto-IsHex : (k n : ℕ) (s : Text) → All IsHex s → All IsHex (hex_onto k n s)
unfolding hex_onto
hex_onto-IsHex zero n s h = h
hex_onto-IsHex (suc k) n s h =
    hex_onto-IsHex k (n / 16) _ (hex_digit-IsHex (n % 16) (omega arith), h)

pub length-hex_onto : (k n : ℕ) (s : Text) → length (hex_onto k n s) ≡ k + length s
unfolding hex_onto
length-hex_onto zero n s = omega arith
length-hex_onto (suc k) n s = omega (arith, length-hex_onto k (n / 16) (hex_digit (n % 16) ∷ s))

digits-digit :
    (p : Bool) (acc v : ℕ) (s : Text)
    → v < 16
    → digits p acc (hex_digit v ∷ s) ≡ digits true (acc * 16 + v) s
unfolding digits
digits-digit p acc v s h = rw (digits, hex_value-digit v h) refl

pow_suc : (k : ℕ) → 16 ^ suc k ≡ 16 * 16 ^ k
pow_suc k = pow-succ' 16 k

-- Reading the digits of a number, and one more.
digits-hex_onto :
    (k : ℕ) (p : Bool) (n v : ℕ) (s : Text)
    → n < 16 ^ k
    → v < 16
    → digits p 0 (hex_onto k n (hex_digit v ∷ s)) ≡ digits true (n * 16 + v) s
unfolding hex_onto
digits-hex_onto zero p n v s h k =
    rw (let e : n ≡ 0 = omega (arith, h) in e) (digits-digit p 0 v s k)
digits-hex_onto (suc k) p n v s h l =
    digits-hex_onto k p (n / 16) (n % 16) (hex_digit v ∷ s)
      (let e : 16 ^ suc k ≡ 16 * 16 ^ k = pow_suc k in omega (arith, e, h)) (omega arith)
    ∙ rw (let e : n / 16 * 16 + n % 16 ≡ n = omega arith in e) (digits-digit true n v s l)

uuid_text-IsPlain : (i : Uuid) → All IsPlain (uuid_text i)
unfolding uuid_text
uuid_text-IsPlain i = dashed-IsPlain (hex_onto 32 i []) (hex_onto-IsHex 32 i [] tt)

digits-hex : (k i : ℕ) → i < 16 ^ suc k → digits false 0 (hex_onto (suc k) i []) ≡ some i
unfolding hex_onto digits
digits-hex k i h =
    digits-hex_onto k false (i / 16) (i % 16) []
      (let e : 16 ^ suc k ≡ 16 * 16 ^ k = pow_suc k in omega (arith, e, h)) (omega arith)
    ∙ ap some (let e : i / 16 * 16 + i % 16 ≡ i = omega arith in e)

select-uuid_text : (i : Uuid) → select not_dash (uuid_text i) ≡ hex_onto 32 i []
unfolding uuid_text
select-uuid_text i = select-dashed (hex_onto 32 i []) (hex_onto-IsHex 32 i [] tt)

int_16-hex_onto : (i : ℕ) → i < 2 ^ 128 → int_16 (hex_onto 32 i []) ≡ some i
unfolding int_16
int_16-hex_onto i h =
    let s : Text = hex_onto 32 i [] in
    let hex : All IsHex s = hex_onto-IsHex 32 i [] tt in
    rw
      (
        strip_start-none is_space s (hex-not_space s hex),
        strip_end-none is_space s (hex-not_space s hex),
        skip_plus-hex s hex,
        skip_prefix-hex s hex,
      )
      (digits-hex 31 i h)

-- `uuid.UUID(str(u))` is `u`.
pub read_uuid-uuid_text : (i : Uuid) → i < 2 ^ 128 → read_uuid (uuid_text i) ≡ some i
unfolding read_uuid
read_uuid-uuid_text i h =
    let s : Text = uuid_text i in
    let plain : All IsPlain s = uuid_text-IsPlain i in
    rw
      (
        remove_from-none b'u' (text "rn:") s (plain-not b'u' refl refl s plain),
        remove_from-none b'u' (text "uid:") s (plain-not b'u' refl refl s plain),
        strip_start-none is_brace s (plain-not_brace s plain),
        strip_end-none is_brace s (plain-not_brace s plain),
      )
      (rw (select-uuid_text i, length-hex_onto 32 i []) (int_16-hex_onto i h))

ascii-plain : (s : Text) → All IsPlain s → ascii s ≡ some s
unfolding ascii
ascii-plain [] h = refl
ascii-plain (c ∷ s) h =
    let below : ltb c 128 ≡ true = ground (arith, h.0) in rw (ascii, below, ascii-plain s h.1) refl

-- The cursor of an identifier of 128 bits decodes to that identifier.
pub decode_cursor-encode_cursor :
    (i : Uuid) → i < 2 ^ 128 → decode_cursor (encode_cursor i) ≡ some i
unfolding decode_cursor encode_cursor
decode_cursor-encode_cursor i h =
    let plain : All IsPlain (uuid_text i) = uuid_text-IsPlain i in
    rw
      (
        decode-encode (uuid_text i)
            (All-map IsPlain IsByte (λ c p. ground arith) (uuid_text i) plain),
        ascii-plain (uuid_text i) plain,
      )
      (read_uuid-uuid_text i h)
