-- ===== src/Pipeline/Words.antt =====
-- harness/generate.py: `count_words`, the matches of `[^\s,;<>]+`.
pub mod Blank
use prompt_patrol.Common.{
  ℕ, suc, Bool, true, false, [], ◌∷◌, Text, ◌==◌, ◌||◌, ◌&&◌, not, if◌then◌else◌,
}
use prompt_patrol.Users.Email.{is_space}

unfoldable pub is_separator : ℕ → Bool
is_separator c = is_space c || c == b',' || c == b';' || c == b'<' || c == b'>'

-- Whether a word is being read, and the words that start in the rest.
unfoldable pub words_in : Bool → Text → ℕ
words_in inside [] = 0
words_in inside (c ∷ s) =
    let next = words_in (not (is_separator c)) s in
    if not inside && not (is_separator c) then suc next else next

unfoldable pub count_words : Text → ℕ
unfolding words_in
count_words s = words_in false s

-- `MIN_TARGET_WORDS`
abbrev pub min_words : ℕ
min_words = 3

-- `s == ""`
abbrev pub is_blank : Text → Bool
is_blank [] = true
is_blank (_ ∷ _) = false
