-- ===== src/Pipeline/Groups/Connected.antt =====
-- Two questions have one group key exactly if shared texts and twins connect them
-- (corpus/build.py `question_groups`).
use mathlib.Core.Path.{subst}
use prompt_patrol.Common.{
  Bool, true, false, List, [], ◌∷◌, ◌++◌, map, Text, ◌≡◌, ◌↔◌, refl, ap, sym, inl, inr,
  if◌then◌else◌, In, In-append, In-append_left, In-append_right, In-map, In-map_from,
}
use prompt_patrol.Pipeline.Groups.{
  Questions, text_lt, root_of, by_text, joins, joins_of, with_first, concat, names, group_key,
  least, get_list,
}
use prompt_patrol.Pipeline.Groups.Filing.{
  Entry, filed-Entry, filed-In, get_list-filed, get_list-listed,
}
use prompt_patrol.Pipeline.Groups.Roots.{Joined, join, same, back, chain, join_all-exactly}

-- A chain of questions with one text and of twins.
pub data Connected (questions : Questions) (twins : List (List Text)) : Text → Text → Type 0 where
  same_text :
      {p q : Text} (t : Text)
      → In (p, t) questions
      → In (q, t) questions
      → Connected questions twins p q
  are_twins :
      {p q : Text} (members : List Text)
      → In members twins
      → In p members
      → In q members
      → Connected questions twins p q
  itself : {p : Text} → Connected questions twins p p
  turned : {p q : Text} → Connected questions twins p q → Connected questions twins q p
  onward :
      {p q r : Text}
      → Connected questions twins p q
      → Connected questions twins q r
      → Connected questions twins p r

In-concat :
    {A : Type 0} (x : A) (xss : List (List A))
    → In x (concat xss)
    → (xs : List A) × (In xs xss × In x xs)
In-concat x [] h = absurd h
In-concat x (xs ∷ xss) h = elim (In-append x xs (concat xss) h) [
  | inl l ↦ (xs, (inl refl, l))
  | inr r ↦ let (ys, p) = In-concat x xss r in (ys, (inr p.0, p.1))
]

concat-In :
    {A : Type 0} (x : A) (xs : List A) (xss : List (List A))
    → In xs xss
    → In x xs
    → In x (concat xss)
concat-In x xs [] i h = absurd i
concat-In x xs (ys ∷ xss) (inl e) h = In-append_left x ys (concat xss) (subst (In x) e h)
concat-In x xs (ys ∷ xss) (inr i) h = In-append_right x ys (concat xss) (concat-In x xs xss i h)

-- A join is of two members of one list.
joins_of-members : (a b : Text) (ms : List Text) → In (a, b) (joins_of ms) → In a ms × In b ms
joins_of-members a b [] h = absurd h
joins_of-members a b (m ∷ ms) h =
    let (other, p) = In-map_from (λ o. (m, o)) (a, b) ms h in
    (
      inl (ap (λ (j : Text × Text). j.0) p.1),
      inr (subst (λ o. In o ms) (sym (ap (λ (j : Text × Text). j.1) p.1)) p.0),
    )

one_of : (b : Bool) (x y : Text) (ts : List Text) → In x ts → In (if b then x else y) (y ∷ ts)
one_of true x y ts h = inr h
one_of false x y ts h = inl refl

least_of : (t : Text) (ts : List Text) → In (least (t ∷ ts)) (t ∷ ts)
unfolding least
least_of t [] = inl refl
least_of t (u ∷ ts) = one_of (text_lt (least (u ∷ ts)) t) _ t (u ∷ ts) (least_of u ts)

least-In : (t : Text) (ts : List Text) → In t ts → In (least ts) ts
least-In t [] h = absurd h
least-In t (u ∷ ts) h = least_of u ts

same_root-key :
    (questions : Questions) (twins : List (List Text)) (p q : Text)
    → root_of questions twins p ≡ root_of questions twins q
    → group_key questions twins p ≡ group_key questions twins q
unfolding group_key
same_root-key questions twins p q e = ap (λ r. least (get_list r (names questions twins))) e

module _ (questions : Questions) (twins : List (List Text)) where
  abbrev lists : List (List Text)
  lists = map (λ d. d.1) (by_text questions) ++ twins

  -- The members of a list are joined with its first, and so with one another.
  first-Joined :
      (m : Text) (ms : List Text) (p : Text)
      → In (m ∷ ms) lists
      → In p (m ∷ ms)
      → Joined (joins questions twins) m p
  first-Joined m ms p i (inl e) = subst (Joined (joins questions twins) m) (sym e) same
  first-Joined m ms p i (inr h) = join (
      concat-In (m, p) (with_first m ms) (map joins_of lists) (In-map joins_of (m ∷ ms) lists i)
        (In-map (λ o. (m, o)) p ms h))

  members-Joined :
      (ms : List Text) (p q : Text)
      → In ms lists
      → In p ms
      → In q ms
      → Joined (joins questions twins) p q
  members-Joined [] p q i h k = absurd h
  members-Joined (m ∷ ms) p q i h k =
      chain (back (first-Joined m ms p i h)) (first-Joined m ms q i k)

  abbrev filed_pairs : List (Text × Text)
  filed_pairs = map (λ q. (q.1, q.0)) questions

  filed_pair : (p t : Text) → In (p, t) questions → In (t, p) filed_pairs
  filed_pair p t h = In-map (λ (q : Text × Text). (q.1, q.0)) (p, t) questions h

  filed_pair_from : (p t : Text) → In (t, p) filed_pairs → In (p, t) questions
  filed_pair_from p t h =
      let (q, i) = In-map_from (λ (q : Text × Text). (q.1, q.0)) (t, p) questions h in
      subst (λ (r : Text × Text). In (r.1, r.0) questions) (sym i.1) i.0

  Connected-Joined :
      {p q : Text} → Connected questions twins p q → Joined (joins questions twins) p q
  Connected-Joined (same_text {p} {q} t h k) =
      let m : In p (get_list t (by_text questions)) =
        filed-In t p filed_pairs [] (filed_pair p t h) in
      members-Joined (get_list t (by_text questions)) p q
        (In-append_left _ _ twins (get_list-listed t p (by_text questions) m)) m
        (filed-In t q filed_pairs [] (filed_pair q t k))
  Connected-Joined (are_twins members i h k) =
      members-Joined _ _ _
        (In-append_right _ (map (λ (d : Text × List Text). d.1) (by_text questions)) twins i) h k
  Connected-Joined itself = same
  Connected-Joined (turned c) = back (Connected-Joined c)
  Connected-Joined (onward c d) = chain (Connected-Joined c) (Connected-Joined d)

  of_list : (t p : Text) → Entry t p (by_text questions) → In (p, t) questions
  of_list t p e = elim (filed-Entry t p filed_pairs [] e) [
    | inl given ↦ filed_pair_from p t given
    | inr (vs, (none_left, _)) ↦ absurd none_left
  ]

  list-Connected :
      (ms : List Text) (p q : Text)
      → In ms lists
      → In p ms
      → In q ms
      → Connected questions twins p q
  list-Connected ms p q i h k = elim (In-append ms (map (λ d. d.1) (by_text questions)) twins i) [
    | inl l ↦
        let (e, j) = In-map_from (λ (d : Text × List Text). d.1) ms (by_text questions) l in
        same_text e.0 (of_list e.0 p (e.1, (j.0, subst (In p) j.1 h)))
          (of_list e.0 q (e.1, (j.0, subst (In q) j.1 k)))
    | inr t ↦ are_twins ms t h k
  ]

  Joined-Connected :
      {p q : Text} → Joined (joins questions twins) p q → Connected questions twins p q
  Joined-Connected (join {a} {b} h) =
      let (js, i) = In-concat (a, b) (map joins_of lists) h in
      let (ms, j) = In-map_from joins_of js lists i.0 in
      let both : In a ms × In b ms = joins_of-members a b ms (subst (In (a, b)) j.1 i.1) in
      list-Connected ms a b j.0 both.0 both.1
  Joined-Connected same = itself
  Joined-Connected (back c) = turned (Joined-Connected c)
  Joined-Connected (chain c d) = onward (Joined-Connected c) (Joined-Connected d)

  roots-Connected :
      (p q : Text)
      → (root_of questions twins p ≡ root_of questions twins q) ↔ Connected questions twins p q
  unfolding root_of
  roots-Connected p q =
      let g = join_all-exactly (joins questions twins) in
      ((λ e. Joined-Connected (g.meet p q e)), (λ c. g.met p q (Connected-Joined c)))

  -- A question's key is the text of a question with the same root.
  key_of_root :
      (p t : Text)
      → In (p, t) questions
      → (q : Text) × (In (q, group_key questions twins p) questions
          × (root_of questions twins p ≡ root_of questions twins q))
  unfolding group_key names
  key_of_root p t h =
      let rooted : Text × Text → Text × Text = λ q. (root_of questions twins q.0, q.1) in
      let m : In t (get_list (root_of questions twins p) (names questions twins)) =
        filed-In (root_of questions twins p) t (map rooted questions) []
          (In-map rooted (p, t) questions h) in
      let k : In (root_of questions twins p, group_key questions twins p) (map rooted questions) =
        get_list-filed (root_of questions twins p) (group_key questions twins p)
          (map rooted questions) (least-In t _ m) in
      let (q, i) = In-map_from rooted _ questions k in
      (
        q.0,
        (
          subst (λ u. In (q.0, u) questions) (sym (ap (λ (r : Text × Text). r.1) i.1)) i.0,
          ap (λ (r : Text × Text). r.0) i.1,
        ),
      )

-- Two questions of the corpus have one key exactly if a chain of shared texts and twins connects
-- them.
pub group_key_exactly :
    (questions : Questions) (twins : List (List Text)) (p q s t : Text)
    → In (p, s) questions
    → In (q, t) questions
    → (group_key questions twins p ≡ group_key questions twins q) ↔ Connected questions twins p q
group_key_exactly questions twins p q s t h k = (by_key, by_chain)
  where
    by_key :
        group_key questions twins p ≡ group_key questions twins q → Connected questions twins p q
    by_key e =
        let (p', ip) = key_of_root questions twins p s h in
        let (q', iq) = key_of_root questions twins q t k in
        onward ((roots-Connected questions twins p p').0 ip.1) (
          onward
            (same_text (group_key questions twins p) ip.0
              (subst (λ u. In (q', u) questions) (sym e) iq.0))
            (turned ((roots-Connected questions twins q q').0 iq.1)))

    by_chain :
        Connected questions twins p q → group_key questions twins p ≡ group_key questions twins q
    by_chain c = same_root-key questions twins p q ((roots-Connected questions twins p q).1 c)
