-- ===== src/Pipeline/Groups.antt =====
-- corpus/build.py: `question_groups`. `parent` is a function that starts as the identity; a walk to
-- the root takes at most one step for each join made so far, which is its fuel.
pub mod Roots
pub mod Filing
pub mod Connected
use prompt_patrol.Common.{
  ℕ, zero, suc, ◌+◌, Bool, true, false, Option, none, some, List, [], ◌∷◌, ◌++◌, map, Text, text_eq,
  ltb, ◌==◌, ◌&&◌, ◌||◌, not, any, if◌then◌else◌,
}

-- A question's identifier and its text, in the order of the `dict`.
abbrev pub Questions : Type 0
Questions = List (Text × Text)

abbrev pub Parents : Type 0
Parents = Text → Text

-- `root`
unfoldable pub root : ℕ → Parents → Text → Text
root zero parent q = q
root (suc fuel) parent q =
    let above = root fuel parent (parent q) in if text_eq (parent q) q then q else above

-- `d.setdefault(key, []).append(value)`
unfoldable pub file_under : {V : Type 0} → Text → V → List (Text × List V) → List (Text × List V)
file_under k v [] = (k, v ∷ []) ∷ []
file_under k v ((j, vs) ∷ d) =
    if text_eq j k then (j, vs ++ v ∷ []) ∷ d else (j, vs) ∷ file_under k v d

unfoldable pub filed : {V : Type 0} → List (Text × V) → List (Text × List V) → List (Text × List V)
filed [] d = d
filed ((k, v) ∷ kvs) d = filed kvs (file_under k v d)

unfoldable pub get_list : {V : Type 0} → Text → List (Text × List V) → List V
get_list k [] = []
get_list k ((j, vs) ∷ d) = if text_eq j k then vs else get_list k d

-- `by_text`
abbrev pub by_text : Questions → List (Text × List Text)
by_text questions = filed (map (λ q. (q.1, q.0)) questions) []

-- What is joined: each further member of a list with the first.
abbrev pub with_first : Text → List Text → List (Text × Text)
with_first first others = map (λ other. (first, other)) others

abbrev pub joins_of : List Text → List (Text × Text)
joins_of [] = []
joins_of (first ∷ others) = with_first first others

abbrev pub concat : {A : Type 0} → List (List A) → List A
concat [] = []
concat (xs ∷ xss) = xs ++ concat xss

abbrev pub joins : Questions → List (List Text) → List (Text × Text)
joins questions twins = concat (map joins_of (map (λ d. d.1) (by_text questions) ++ twins))

-- `parent[root(other)] = root(first)`, after `fuel` joins.
abbrev pub joined : ℕ → Parents → Text × Text → Parents
joined fuel parent (first, other) q =
    if text_eq q (root fuel parent other) then root fuel parent first else parent q

unfoldable pub join_all : List (Text × Text) → ℕ → Parents → ℕ × Parents
join_all [] fuel parent = (fuel, parent)
join_all (j ∷ js) fuel parent = join_all js (suc fuel) (joined fuel parent j)

unfoldable pub root_of : Questions → List (List Text) → Text → Text
root_of questions twins q =
    let (fuel, parent) = join_all (joins questions twins) 0 (λ p. p) in root fuel parent q

unfoldable pub text_lt : Text → Text → Bool
text_lt [] [] = false
text_lt [] (_ ∷ _) = true
text_lt (_ ∷ _) [] = false
text_lt (a ∷ s) (b ∷ t) = ltb a b || (a == b && text_lt s t)

-- `min`, of a list that is not empty.
unfoldable pub least : List Text → Text
least [] = []
least (t ∷ []) = t
least (t ∷ u ∷ ts) = let rest = least (u ∷ ts) in if text_lt rest t then rest else t

-- `names`
unfoldable pub names : Questions → List (List Text) → List (Text × List Text)
names questions twins = filed (map (λ q. (root_of questions twins q.0, q.1)) questions) []

unfoldable pub group_key : Questions → List (List Text) → Text → Text
group_key questions twins q = least (get_list (root_of questions twins q) (names questions twins))

abbrev pub is_question : Questions → Text → Bool
is_question questions q = any (λ p. text_eq p.0 q) questions

unfoldable pub has_unknown : Questions → List (List Text) → Bool
has_unknown questions twins = any (λ pair. any (λ q. not (is_question questions q)) pair) twins

-- None is the `SystemExit` on unknown twins; otherwise each question with its key.
unfoldable pub question_groups : Questions → List (List Text) → Option (List (Text × Text))
question_groups questions twins =
    if has_unknown questions twins
    then none
    else some (map (λ q. (q.0, group_key questions twins q.0)) questions)
