-- ===== src/Pipeline/Groups/Roots.antt =====
-- The walk to a root ends, and a join merges two groups (corpus/build.py `question_groups`).
use mathlib.Core.Path.{subst}
use mathlib.Core.List.{append_assoc, append-nil}
use prompt_patrol.Common.{
  ℕ, zero, suc, true, false, List, [], ◌∷◌, Text, text_eq, text_eq_iff, ◌≡◌, refl, ap, sym, ◌∙◌,
  ◌++◌, In, In-append, In-append_left, In-append_right, arith, Bool-cases, inl, inr, if◌then◌else◌,
  ◌≢◌,
}
use prompt_patrol.Pipeline.Groups.{Parents, root, joined, join_all}

-- Every walk of `fuel` steps ends at a root.
abbrev pub Forest : ℕ → Parents → Type 0
Forest fuel parent = (q : Text) → parent (root fuel parent q) ≡ root fuel parent q

root-fixed : (k : ℕ) (parent : Parents) (q : Text) → parent q ≡ q → root k parent q ≡ q
unfolding root
root-fixed zero parent q h = refl
root-fixed (suc k) parent q h = rw ((text_eq_iff (parent q) q).1 h) refl

-- The root after a join.
abbrev pub redirected : Text → Text → Text → Text
redirected r s t = if text_eq t s then r else t

abbrev pub linked : Parents → Text → Text → Parents
linked parent r s q = if text_eq q s then r else parent q

text_eq-false : (s t : Text) → text_eq s t ≡ false → s ≢ t
text_eq-false s t h e = ground (arith, text_eq_iff s t)

root-top :
    (parent : Parents) (q : Text) (k : ℕ) → text_eq (parent q) q ≡ true → root (suc k) parent q ≡ q
unfolding root
root-top parent q k e = rw e refl

root-above :
    (parent : Parents) (q : Text) (k : ℕ)
    → text_eq (parent q) q ≡ false
    → root (suc k) parent q ≡ root k parent (parent q)
unfolding root
root-above parent q k e = rw e refl

-- A walk of which the first step ends at a root.
root-step :
    (k : ℕ) (parent : Parents) (q r : Text)
    → parent q ≡ r
    → parent r ≡ r
    → root (suc k) parent q ≡ r
root-step k parent q r h e = elim (Bool-cases (text_eq (parent q) q)) [
  | inl t ↦ root-top parent q k t ∙ sym ((text_eq_iff (parent q) q).0 t) ∙ h
  | inr f ↦ root-above parent q k f ∙ rw h (root-fixed k parent r e)
]

module _ (parent : Parents) (r s : Text) (hr : parent r ≡ r) (hs : parent s ≡ s) where
  -- The two ends of a join are roots after it.
  linked-root : (t : Text) → parent t ≡ t → linked parent r s (redirected r s t) ≡ redirected r s t
  linked-root t h = ground (arith, text_eq_iff t s, text_eq_iff r s, hr, h)

  -- What is no root keeps its parent.
  linked-other : (q : Text) → text_eq (parent q) q ≡ false → linked parent r s q ≡ parent q
  linked-other q h = ground (arith, text_eq_iff q s, text_eq_iff (parent q) q, hs, h)

  linked-at_root :
      (k : ℕ) (q : Text) → parent q ≡ q → root (suc k) (linked parent r s) q ≡ redirected r s q
  linked-at_root k q h =
      root-step k (linked parent r s) q (redirected r s q) (rw h refl) (linked-root q h)

  root-linked :
      (k : ℕ) (q : Text)
      → parent (root k parent q) ≡ root k parent q
      → root (suc k) (linked parent r s) q ≡ redirected r s (root k parent q)
  unfolding root
  root-linked zero q h = linked-at_root zero q h
  root-linked (suc k) q h = elim (Bool-cases (text_eq (parent q) q)) [
    | inl e ↦ rw (root-top parent q k e) (linked-at_root (suc k) q ((text_eq_iff (parent q) q).0 e))
    | inr e ↦ rw (root-above parent q k e) (
        root-above (linked parent r s) q (suc k) (rw (linked-other q e) e)
        ∙ rw (linked-other q e) (root-linked k (parent q) (rw (← root-above parent q k e) h)))
  ]

module _ (k : ℕ) (parent : Parents) (f : Forest k parent) (a b : Text) where
  root-joined :
      (q : Text)
      → root (suc k) (joined k parent (a, b)) q
        ≡ redirected (root k parent a) (root k parent b) (root k parent q)
  root-joined q = root-linked parent (root k parent a) (root k parent b) (f a) (f b) k q (f q)

  joined-Forest : Forest (suc k) (joined k parent (a, b))
  joined-Forest q =
      ap (joined k parent (a, b)) (root-joined q)
      ∙ linked-root parent (root k parent a) (root k parent b) (f a) (f b) (root k parent q) (f q)
      ∙ sym (root-joined q)

-- A chain of joins, in either direction.
pub data Joined (js : List (Text × Text)) : Text → Text → Type 0 where
  join : {a b : Text} → In (a, b) js → Joined js a b
  same : {a : Text} → Joined js a a
  back : {a b : Text} → Joined js a b → Joined js b a
  chain : {a b c : Text} → Joined js a b → Joined js b c → Joined js a c

-- The walks end, and two walks end at one root exactly if a chain connects their starts.
pub record Groups (js : List (Text × Text)) (k : ℕ) (parent : Parents) : Type 0 where
  pub forest : Forest k parent
  pub meet : (p q : Text) → root k parent p ≡ root k parent q → Joined js p q
  pub met : (p q : Text) → Joined js p q → root k parent p ≡ root k parent q

Joined-mono :
    (js ks : List (Text × Text)) {p q : Text}
    → ((j : Text × Text) → In j js → In j ks)
    → Joined js p q
    → Joined ks p q
Joined-mono js ks f (join h) = join (f _ h)
Joined-mono js ks f same = same
Joined-mono js ks f (back c) = back (Joined-mono js ks f c)
Joined-mono js ks f (chain c d) = chain (Joined-mono js ks f c) (Joined-mono js ks f d)

redirected-at : (r s t : Text) → text_eq t s ≡ true → redirected r s t ≡ r
redirected-at r s t e = rw e refl

redirected-off : (r s t : Text) → text_eq t s ≡ false → redirected r s t ≡ t
redirected-off r s t e = rw e refl

redirected_ends : (r s : Text) → redirected r s r ≡ redirected r s s
redirected_ends r s = ground (arith, text_eq_iff r s, text_eq_iff s s)

module _ (js : List (Text × Text)) (k : ℕ) (parent : Parents) (g : Groups js k parent)
    (a b : Text) where
  abbrev further : List (Text × Text)
  further = js ++ (a, b) ∷ []

  weaker : {p q : Text} → Joined js p q → Joined further p q
  weaker = Joined-mono js further λ j h. In-append_left j js ((a, b) ∷ []) h

  new_join : Joined further a b
  new_join = join (In-append_right (a, b) js ((a, b) ∷ []) (inl refl))

  Joined-meet :
      (p q : Text)
      → redirected (root k parent a) (root k parent b) (root k parent p)
        ≡ redirected (root k parent a) (root k parent b) (root k parent q)
      → Joined further p q
  Joined-meet p q h =
      let ra : Text = root k parent a in
      let rb : Text = root k parent b in
      elim (Bool-cases (text_eq (root k parent p) rb)) [
        | inl ep ↦
            let to_b : Joined further p b = weaker (g.meet p b ((text_eq_iff _ _).0 ep)) in
            elim (Bool-cases (text_eq (root k parent q) rb)) [
              | inl eq ↦ chain to_b (back (weaker (g.meet q b ((text_eq_iff _ _).0 eq))))
              | inr fq ↦ chain to_b (
                  chain (back new_join) (
                    weaker (
                      g.meet a q (sym (redirected-at ra rb _ ep) ∙ h ∙ redirected-off ra rb _ fq))))
            ]
        | inr fp ↦ elim (Bool-cases (text_eq (root k parent q) rb)) [
          | inl eq ↦
              chain
                (weaker
                  (g.meet p a (sym (redirected-off ra rb _ fp) ∙ h ∙ redirected-at ra rb _ eq)))
                (chain new_join (back (weaker (g.meet q b ((text_eq_iff _ _).0 eq)))))
          | inr fq ↦
              weaker (g.meet p q (sym (redirected-off ra rb _ fp) ∙ h ∙ redirected-off ra rb _ fq))
        ]
      ]

  ends-meet :
      redirected (root k parent a) (root k parent b) (root k parent a)
      ≡ redirected (root k parent a) (root k parent b) (root k parent b)
  ends-meet = redirected_ends (root k parent a) (root k parent b)

  Joined-met :
      (p q : Text)
      → Joined further p q
      → redirected (root k parent a) (root k parent b) (root k parent p)
        ≡ redirected (root k parent a) (root k parent b) (root k parent q)
  Joined-met p q (join i) = elim (In-append (p, q) js ((a, b) ∷ []) i) [
    | inl old ↦ ap (redirected (root k parent a) (root k parent b)) (g.met p q (join old))
    | inr new ↦ elim new [
      | inl e ↦ rw (ap (λ (j : Text × Text). j.0) e, ap (λ (j : Text × Text). j.1) e) ends-meet
      | inr none_left ↦ absurd none_left
    ]
  ]
  Joined-met p q same = refl
  Joined-met p q (back c) = sym (Joined-met _ _ c)
  Joined-met p q (chain c d) = Joined-met _ _ c ∙ Joined-met _ _ d

  joined-Groups : Groups further (suc k) (joined k parent (a, b))
  joined-Groups = record {
    forest = joined-Forest k parent g.forest a b;
    meet = λ p q h.
        Joined-meet p q
          (sym (root-joined k parent g.forest a b p) ∙ h ∙ root-joined k parent g.forest a b q);
    met = λ p q c.
        root-joined k parent g.forest a b p
        ∙ Joined-met p q c
        ∙ sym (root-joined k parent g.forest a b q);
  }

join_all-Groups :
    (done js : List (Text × Text)) (k : ℕ) (parent : Parents)
    → Groups done k parent
    → Groups (done ++ js) (join_all js k parent).0 (join_all js k parent).1
unfolding join_all
join_all-Groups done [] k parent g = rw (append-nil done) g
join_all-Groups done ((a, b) ∷ js) k parent g = rw (← append_assoc done ((a, b) ∷ []) js) (
    join_all-Groups (done ++ (a, b) ∷ []) js (suc k) (joined k parent (a, b))
      (joined-Groups done k parent g a b))

none-Joined : {p q : Text} → Joined [] p q → p ≡ q
none-Joined (join h) = absurd h
none-Joined same = refl
none-Joined (back c) = sym (none-Joined c)
none-Joined (chain c d) = none-Joined c ∙ none-Joined d

no_joins-Groups : Groups [] 0 (λ q. q)
unfolding root
no_joins-Groups = record {
  forest = λ q. refl;
  meet = λ p q h. subst (λ r. Joined [] p r) h same;
  met = λ p q c. none-Joined c;
}

-- After all joins the walks end, and meet exactly along chains of joins.
pub join_all-exactly :
    (js : List (Text × Text)) → Groups js (join_all js 0 (λ q. q)).0 (join_all js 0 (λ q. q)).1
join_all-exactly js = join_all-Groups [] js 0 (λ q. q) no_joins-Groups
