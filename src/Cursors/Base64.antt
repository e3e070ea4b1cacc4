-- ===== src/Cursors/Base64.antt =====
-- `base64.urlsafe_b64encode` and `base64.urlsafe_b64decode`, with the reader's leniency: characters
-- outside both alphabets are skipped, and padding that completes a group of four ends the text.
use Prim.Native.Nat.{◌/◌, ◌%◌}
use prompt_patrol.Common.{
  ℕ, ◌+◌, ◌-◌, ◌*◌, ◌<◌, Option, none, some, List, [], ◌∷◌, Text, ltb, leb, ◌==◌, ◌&&◌, ◌||◌,
  if◌then◌else◌, ◌≡◌, refl, arith, All,
}

unfoldable pub symbol : ℕ → ℕ
symbol v =
    if ltb v 26
    then v + 65
    else if ltb v 52
    then v + 71
    else if ltb v 62
    then v - 4
    else if v == 62
    then b'-'
    else b'_'

-- Of both alphabets: the URL-safe characters are translated to the others first.
unfoldable pub value_of : ℕ → Option ℕ
value_of c =
    if leb b'A' c && leb c b'Z'
    then some (c - 65)
    else if leb b'a' c && leb c b'z'
    then some (c - 71)
    else if leb b'0' c && leb c b'9'
    then some (c + 4)
    else if c == b'-' || c == b'+'
    then some 62
    else if c == b'_' || c == b'/'
    then some 63
    else none

unfoldable pub urlsafe_b64encode : List ℕ → Text
urlsafe_b64encode [] = []
urlsafe_b64encode (a ∷ []) = symbol (a / 4) ∷ symbol (a % 4 * 16) ∷ b'=' ∷ b'=' ∷ []
urlsafe_b64encode (a ∷ b ∷ []) =
    symbol (a / 4) ∷ symbol (a % 4 * 16 + b / 16) ∷ symbol (b % 16 * 4) ∷ b'=' ∷ []
urlsafe_b64encode (a ∷ b ∷ c ∷ rest) =
    symbol (a / 4)
    ∷ symbol (a % 4 * 16 + b / 16)
    ∷ symbol (b % 16 * 4 + c / 64)
    ∷ symbol (c % 64)
    ∷ urlsafe_b64encode rest

-- How many characters of a group of four are read, and the bits that are left over of them.
pub data Quad : Type 0 where
  none_read : Quad
  one_read two_read three_read : ℕ → Quad

abbrev pub emit : ℕ → Option (List ℕ) → Option (List ℕ)
emit b none = none
emit b (some bs) = some (b ∷ bs)

-- The reader's state, and whether a character ends the text, is skipped or gives six bits.
pub data Seen : Type 0 where
  end_of_text skipped : Seen
  padding : ℕ → Seen
  sextet : ℕ → Seen

abbrev pub padded : Quad → ℕ → Seen
padded none_read pads = padding pads
padded (one_read l) pads = padding pads
padded (two_read l) pads = if leb 1 pads then end_of_text else padding (pads + 1)
padded (three_read l) pads = end_of_text

abbrev pub six_bits : Option ℕ → Seen
six_bits none = skipped
six_bits (some v) = sextet v

unfoldable pub seen : Quad → ℕ → ℕ → Seen
unfolding value_of
seen q pads c = if c == b'=' then padded q pads else six_bits (value_of c)

abbrev pub next_quad : Quad → ℕ → Quad
next_quad none_read v = one_read v
next_quad (one_read l) v = two_read (v % 16)
next_quad (two_read l) v = three_read (v % 4)
next_quad (three_read l) v = none_read

abbrev pub with_byte : Quad → ℕ → Option (List ℕ) → Option (List ℕ)
with_byte none_read v rest = rest
with_byte (one_read l) v rest = emit (l * 4 + v / 16) rest
with_byte (two_read l) v rest = emit (l * 16 + v / 4) rest
with_byte (three_read l) v rest = emit (l * 64 + v) rest

abbrev pub ended : Quad → Option (List ℕ)
ended none_read = some []
ended _ = none

unfoldable pub scan : Quad → ℕ → Text → Option (List ℕ)
scan q pads [] = ended q
scan q pads (c ∷ s) = elim (seen q pads c) [
  | end_of_text ↦ some []
  | skipped ↦ scan q pads s
  | padding pads' ↦ scan q pads' s
  | sextet v ↦ with_byte q v (scan (next_quad q v) 0 s)
]

-- None is a `binascii.Error`.
unfoldable pub urlsafe_b64decode : Text → Option (List ℕ)
urlsafe_b64decode s = scan none_read 0 s

abbrev pub IsByte : ℕ → Type 0
IsByte b = b < 256

seen-symbol : (q : Quad) (pads v : ℕ) → v < 64 → seen q pads (symbol v) ≡ sextet v
unfolding symbol seen
seen-symbol q pads v h = ground arith

scan-symbol :
    (q : Quad) (pads v : ℕ) (s : Text)
    → v < 64
    → scan q pads (symbol v ∷ s) ≡ with_byte q v (scan (next_quad q v) 0 s)
unfolding scan
scan-symbol q pads v s h = rw (scan, seen-symbol q pads v h)

padding_two : (l : ℕ) → scan (two_read l) 0 (b'=' ∷ b'=' ∷ []) ≡ some []
unfolding scan seen
padding_two l = refl

padding_three : (l : ℕ) → scan (three_read l) 0 (b'=' ∷ []) ≡ some []
unfolding scan seen
padding_three l = refl

scan_end : scan none_read 0 [] ≡ some []
unfolding scan
scan_end = refl

-- The first two characters of a group.
scan_two :
    (a b : ℕ) (s : Text)
    → a < 256
    → b < 256
    → scan none_read 0 (symbol (a / 4) ∷ symbol (a % 4 * 16 + b / 16) ∷ s)
      ≡ emit a (scan (two_read (b / 16)) 0 s)
scan_two a b s h k = rw (
  scan-symbol none_read 0 (a / 4) (symbol (a % 4 * 16 + b / 16) ∷ s) (omega arith),
  scan-symbol (one_read (a / 4)) 0 (a % 4 * 16 + b / 16) s (omega arith),
  (let e : a / 4 * 4 + (a % 4 * 16 + b / 16) / 16 ≡ a = omega arith in e),
  (let e : (a % 4 * 16 + b / 16) % 16 ≡ b / 16 = omega arith in e),
)

-- Whatever bytes are encoded, decoding gives them back.
pub decode-encode :
    (bs : List ℕ) → All IsByte bs → urlsafe_b64decode (urlsafe_b64encode bs) ≡ some bs
unfolding urlsafe_b64decode urlsafe_b64encode
decode-encode [] h = scan_end
decode-encode (a ∷ []) h = rw (
  (let e : a % 4 * 16 ≡ a % 4 * 16 + 0 / 16 = omega arith in e),
  scan_two a 0 (b'=' ∷ b'=' ∷ []) h.0 (omega arith),
  padding_two (0 / 16),
)
decode-encode (a ∷ b ∷ []) h = rw (
  scan_two a b (symbol (b % 16 * 4) ∷ b'=' ∷ []) h.0 h.1.0,
  scan-symbol (two_read (b / 16)) 0 (b % 16 * 4) (b'=' ∷ []) (omega arith),
  padding_three (b % 16 * 4 % 4),
  (let e : b / 16 * 16 + b % 16 * 4 / 4 ≡ b = omega arith in e),
)
decode-encode (a ∷ b ∷ c ∷ bs) h = rw (
  scan_two a b (symbol (b % 16 * 4 + c / 64) ∷ symbol (c % 64) ∷ urlsafe_b64encode bs) h.0 h.1.0,
  scan-symbol (two_read (b / 16)) 0 (b % 16 * 4 + c / 64) (symbol (c % 64) ∷ urlsafe_b64encode bs)
      (omega arith),
  scan-symbol (three_read ((b % 16 * 4 + c / 64) % 4)) 0 (c % 64) (urlsafe_b64encode bs)
      (omega arith),
  decode-encode bs h.1.1.1,
  (let e : b / 16 * 16 + (b % 16 * 4 + c / 64) / 4 ≡ b = omega arith in e),
  (let e : (b % 16 * 4 + c / 64) % 4 * 64 + c % 64 ≡ c = omega arith in e),
)
