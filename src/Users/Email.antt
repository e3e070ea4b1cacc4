-- ===== src/Users/Email.antt =====
-- users_service.`normalize_email`: Python's `strip` and `lower` on a text of code points.
-- `lower` is written for ASCII letters; an address with other capitals is outside the model.
use mathlib.Core.List.{reverse}
use prompt_patrol.Common.{ℕ, ◌+◌, Bool, [], ◌∷◌, Text, ◌==◌, leb, ◌&&◌, ◌||◌, map, if◌then◌else◌}

-- `str.isspace` of one code point.
unfoldable pub is_space : ℕ → Bool
is_space c =
    (leb 9 c && leb c 13)
    || (leb 28 c && leb c 32)
    || (c == 133)
    || (c == 160)
    || (c == 5760)
    || (leb 8192 c && leb c 8202)
    || (c == 8232)
    || (c == 8233)
    || (c == 8239)
    || (c == 8287)
    || (c == 12288)

unfoldable pub strip_left : Text → Text
unfolding is_space
strip_left [] = []
strip_left (c ∷ s) = if is_space c then strip_left s else c ∷ s

unfoldable pub strip : Text → Text
unfolding strip_left
strip s = reverse (strip_left (reverse (strip_left s)))

unfoldable lower_char : ℕ → ℕ
lower_char c = if leb b'A' c && leb c b'Z' then c + 32 else c

unfoldable pub normalize_email : Text → Text
unfolding strip lower_char
normalize_email email = map lower_char (strip email)
