-- ===== src/Pipeline/Pools/Slots.antt =====
-- No two rewrite calls polish one student's answer while the pool is large enough.
use Prim.Native.Nat.{◌%◌}
use mathlib.Core.Path.{subst}
use prompt_patrol.Common.{
  ℕ, zero, suc, ◌+◌, ◌-◌, ◌*◌, ◌≤◌, ◌<◌, ◌==◌, some, false, List, [], ◌∷◌, length, ◌≡◌, refl, ap,
  sym, ◌∙◌, inl, inr, arith, In, NoRepeats, ltb, ltb→lt, Bool-cases,
}
use prompt_patrol.Pipeline.Pools.{get_elem?, slot, pick_student_answer}

-- A call's place: `position` of its generator, and `seq` of its `count` samples.
abbrev pub IsPlace : ℕ → ℕ → ℕ × ℕ → Type 0
IsPlace generators count (position, seq) = (position < generators) × (1 ≤ seq) × (seq ≤ count)

abbrev place_index : ℕ → ℕ → ℕ → ℕ
place_index count position seq = position * count + seq - 1

row_below : (count p q : ℕ) → p < q → p * count + count ≤ q * count
row_below count p q h = grind arith

place_below :
    (generators count p s : ℕ)
    → p < generators
    → 1 ≤ s
    → s ≤ count
    → place_index count p s < generators * count
place_below generators count p s hp hl hs = omega (arith, row_below count p generators hp, hl, hs)

place_before :
    (count p s q t : ℕ)
    → p < q
    → 1 ≤ s
    → s ≤ count
    → 1 ≤ t
    → place_index count p s < place_index count q t
place_before count p s q t h hl hs ht = omega (arith, row_below count p q h, hl, hs, ht)

places_apart :
    (count p s q t : ℕ)
    → 1 ≤ s
    → s ≤ count
    → 1 ≤ t
    → t ≤ count
    → place_index count p s ≡ place_index count q t
    → (p ≡ q) × (s ≡ t)
places_apart count p s q t hl hs kl ks e = elim (Bool-cases (ltb p q)) [
  | inl below ↦ omega (arith, e, place_before count p s q t (ltb→lt p q below) hl hs kl)
  | inr above ↦ elim (Bool-cases (ltb q p)) [
    | inl below ↦ omega (arith, e, place_before count q t p s (ltb→lt q p below) kl ks hl)
    | inr beneath ↦
        let same : p ≡ q = ground (arith, above, beneath) in
        let rows : p * count ≡ q * count = ap (λ n. n * count) same in
        (same, omega (arith, e, rows, hl, kl))
  ]
]

mod_below : (x n : ℕ) → x < n → x % n ≡ x
mod_below x n h = grind (arith, h)

module _ {A : Type 0} where
  get_elem?-some :
      (xs : List A) (i : ℕ) → i < length xs → (x : A) × ((get_elem? xs i ≡ some x) × In x xs)
  get_elem?-some [] i h = absurd (let none_below : ⊥ = omega (arith, h) in none_below)
  get_elem?-some (x ∷ xs) zero h = (x, (refl, inl refl))
  get_elem?-some (x ∷ xs) (suc i) h =
      let (y, e) = get_elem?-some xs i (omega (arith, h)) in (y, (e.0, inr e.1))

  get_elem?-In : (xs : List A) (i : ℕ) (x : A) → get_elem? xs i ≡ some x → In x xs
  get_elem?-In [] i x e = cc
  get_elem?-In (y ∷ ys) zero x e = inl (some_inj (sym e))
    where
      some_inj : some x ≡ some y → x ≡ y
      some_inj k = cc
  get_elem?-In (y ∷ ys) (suc i) x e = inr (get_elem?-In ys i x e)

  -- In a list without repeats an element stands at one index.
  get_elem?-apart :
      (xs : List A) (i j : ℕ) (x : A)
      → NoRepeats xs
      → get_elem? xs i ≡ some x
      → get_elem? xs j ≡ some x
      → i ≡ j
  get_elem?-apart [] i j x d e f = cc
  get_elem?-apart (y ∷ ys) zero zero x d e f = refl
  get_elem?-apart (y ∷ ys) (suc i) (suc j) x d e f = ap suc (get_elem?-apart ys i j x d.1 e f)
  get_elem?-apart (y ∷ ys) zero (suc j) x d e f =
      (let same : x ≡ y = (let k : some y ≡ some x = e in cc) in
        absurd (d.0 (subst (λ z. In z ys) same (get_elem?-In ys j x f))))
  get_elem?-apart (y ∷ ys) (suc i) zero x d e f =
      (let same : x ≡ y = (let k : some y ≡ some x = f in cc) in
        absurd (d.0 (subst (λ z. In z ys) same (get_elem?-In ys i x e))))

  slot_within :
      (pool : List A) (generators count p s : ℕ)
      → IsPlace generators count (p, s)
      → generators * count ≤ length pool
      → (slot pool p count s ≡ place_index count p s) × (place_index count p s < length pool)
  unfolding slot
  slot_within pool generators count p s h enough =
      let below : place_index count p s < generators * count =
        place_below generators count p s h.0 h.1 h.2 in
      let inside : place_index count p s < length pool = omega (arith, below, enough) in
      (mod_below (place_index count p s) (length pool) inside, inside)

  -- With a slot for every sample of every generator, every call picks one of the pool's answers, and
  -- two calls that pick one answer are the same call, where the pool repeats none.
  pub pick_student_answer-apart :
      (pool : List A) (generators count p s q t : ℕ)
      → NoRepeats pool
      → generators * count ≤ length pool
      → IsPlace generators count (p, s)
      → IsPlace generators count (q, t)
      → ((x : A) × ((pick_student_answer pool p count s ≡ some x) × In x pool))
        × (pick_student_answer pool p count s ≡ pick_student_answer pool q count t
            → (p ≡ q) × (s ≡ t))
  unfolding pick_student_answer
  pick_student_answer-apart pool generators count p s q t d enough h k =
      let (se, si) = slot_within pool generators count p s h enough in
      let (te, ti) = slot_within pool generators count q t k enough in
      let filled : (length pool == 0) ≡ false = ground (arith, si) in
      let (x, xe) = get_elem?-some pool (place_index count p s) si in
      rw (filled, se, te)
        (
          (x, xe),
          (λ e.
              places_apart count p s q t h.1 h.2 k.1 k.2
                (get_elem?-apart pool _ _ x d xe.0 (sym e ∙ xe.0))),
        )
