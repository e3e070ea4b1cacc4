-- ===== src/Cursors/Uuids.antt =====
-- `str(uuid)` and `uuid.UUID(text)`: a UUID is the number of its 128 bits.
use Prim.Native.Nat.{◌/◌, ◌%◌}
use prompt_patrol.Common.{
  ℕ, zero, suc, ◌+◌, ◌-◌, ◌*◌, Bool, true, false, Option, none, some, [], ◌∷◌, ◌++◌, Text, text,
  ltb, leb, ◌==◌, ◌&&◌, ◌||◌, not, if◌then◌else◌, take, drop, length, select,
}
use prompt_patrol.Models.{Uuid}
use prompt_patrol.Users.Email.{is_space}

unfoldable pub hex_digit : ℕ → ℕ
hex_digit v = if ltb v 10 then v + 48 else v + 87

-- The last `k` hexadecimal digits of a number, in front of a text.
unfoldable pub hex_onto : ℕ → ℕ → Text → Text
hex_onto zero n s = s
hex_onto (suc k) n s = hex_onto k (n / 16) (hex_digit (n % 16) ∷ s)

abbrev pub dashed : Text → Text
dashed h =
    take 8 h
    ++ (b'-'
        ∷ (take 4 (drop 8 h)
            ++ (b'-'
                ∷ (take 4 (drop 12 h) ++ (b'-' ∷ (take 4 (drop 16 h) ++ (b'-' ∷ drop 20 h)))))))

-- `str(uuid)`
unfoldable pub uuid_text : Uuid → Text
uuid_text u = dashed (hex_onto 32 u [])

abbrev pub starts_with : Text → Text → Bool
starts_with [] s = true
starts_with (c ∷ p) [] = false
starts_with (c ∷ p) (d ∷ s) = c == d && starts_with p s

-- `s.replace(p, "")`; the first argument counts the characters of a match that are left to skip.
unfoldable pub remove_from : ℕ → Text → Text → Text
remove_from skip p [] = []
remove_from (suc k) p (c ∷ s) = remove_from k p s
remove_from zero p (c ∷ s) = elim (starts_with p (c ∷ s)) [
  | true ↦ remove_from (length p - 1) p s
  | false ↦ c ∷ remove_from zero p s
]

unfoldable pub strip_start : (ℕ → Bool) → Text → Text
strip_start p [] = []
strip_start p (c ∷ s) = if p c then strip_start p s else c ∷ s

abbrev keep_end : (ℕ → Bool) → ℕ → Text → Text
keep_end p c [] = if p c then [] else c ∷ []
keep_end p c (d ∷ s) = c ∷ d ∷ s

unfoldable pub strip_end : (ℕ → Bool) → Text → Text
strip_end p [] = []
strip_end p (c ∷ s) = keep_end p c (strip_end p s)

abbrev pub is_brace : ℕ → Bool
is_brace c = c == b'{' || c == b'}'

abbrev pub hex_value : ℕ → Option ℕ
hex_value c =
    if leb b'0' c && leb c b'9'
    then some (c - 48)
    else if leb b'a' c && leb c b'f'
    then some (c - 87)
    else if leb b'A' c && leb c b'F'
    then some (c - 55)
    else none

-- Whether a digit was just read, the number so far, and what is left: digits with single
-- underscores between them.
unfoldable pub digits : Bool → ℕ → Text → Option ℕ
digits after_digit acc [] = if after_digit then some acc else none
digits after_digit acc (c ∷ s) = elim (hex_value c) [
  | some v ↦ digits true (acc * 16 + v) s
  | none ↦ if c == b'_' && after_digit then digits false acc s else none
]

abbrev pub skip_underscore : Text → Text
skip_underscore [] = []
skip_underscore (c ∷ s) = if c == b'_' then s else c ∷ s

abbrev pub skip_prefix : Text → Text
skip_prefix [] = []
skip_prefix (c ∷ []) = c ∷ []
skip_prefix (c ∷ d ∷ s) =
    if c == b'0' && (d == b'x' || d == b'X') then skip_underscore s else c ∷ d ∷ s

abbrev pub skip_plus : Text → Text
skip_plus [] = []
skip_plus (c ∷ s) = if c == b'+' then s else c ∷ s

-- `int(s, 16)` of a text without `-`.
unfoldable pub int_16 : Text → Option ℕ
int_16 s = digits false 0 (skip_prefix (skip_plus (strip_end is_space (strip_start is_space s))))

-- `uuid.UUID(s)`; none is a `ValueError`.
unfoldable pub read_uuid : Text → Option Uuid
read_uuid s =
    let bare = remove_from 0 (text "uuid:") (remove_from 0 (text "urn:") s) in
    let hex = select (λ c. not (c == b'-')) (strip_end is_brace (strip_start is_brace bare)) in
    if length hex == 32 then int_16 hex else none
