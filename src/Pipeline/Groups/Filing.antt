-- ===== src/Pipeline/Groups/Filing.antt =====
-- What `setdefault(key, []).append(value)` files where.
use mathlib.Core.Path.{subst}
use prompt_patrol.Common.{
  List, [], ◌∷◌, ◌++◌, map, Text, text_eq, text_eq_iff, ◌≡◌, refl, ap, sym, ◌∙◌, ◌⊎◌, inl, inr,
  arith, Bool-cases, In, In-append, In-append_left, In-append_right, if◌then◌else◌,
}
use prompt_patrol.Pipeline.Groups.{file_under, filed, get_list}

module _ {V : Type 0} where
  -- A list under the key holds the value.
  abbrev pub Entry : Text → V → List (Text × List V) → Type 0
  Entry k v d = (vs : List V) × (In (k, vs) d × In v vs)

  later :
      (k : Text) (v : V) (e : Text × List V) (d : List (Text × List V))
      → Entry k v d
      → Entry k v (e ∷ d)
  later k v e d (vs, h) = (vs, (inr h.0, h.1))

  first_entry :
      (k : Text) (v : V) (i : Text) (us : List V) (d : List (Text × List V))
      → k ≡ i
      → In v us
      → Entry k v ((i, us) ∷ d)
  first_entry k v i us d e m = (us, (inl (λ t. (e t, us)), m))

  Entry-cons :
      (k : Text) (v : V) (i : Text) (us : List V) (d : List (Text × List V))
      → Entry k v ((i, us) ∷ d)
      → ((k ≡ i) × In v us) ⊎ Entry k v d
  Entry-cons k v i us d (vs, (inl e, m)) =
      inl (ap (λ (p : Text × List V). p.0) e, subst (In v) (ap (λ (p : Text × List V). p.1) e) m)
  Entry-cons k v i us d (vs, (inr h, m)) = inr (vs, (h, m))

  file_under-Entry :
      (j : Text) (w : V) (k : Text) (v : V) (d : List (Text × List V))
      → Entry k v (file_under j w d)
      → ((k ≡ j) × (v ≡ w)) ⊎ Entry k v d
  unfolding file_under
  file_under-Entry j w k v [] h = elim (Entry-cons k v j (w ∷ []) [] h) [
    | inl (same_key, inl same_value) ↦ inl (same_key, same_value)
    | inl (same_key, inr none_left) ↦ absurd none_left
    | inr (vs, (none_left, m)) ↦ absurd none_left
  ]
  file_under-Entry j w k v ((i, us) ∷ d) h = elim (Bool-cases (text_eq i j)) [
    | inl e ↦ elim (Entry-cons k v i (us ++ w ∷ []) d (rw e at h)) [
      | inl (same_key, m) ↦ elim (In-append v us (w ∷ []) m) [
        | inl old ↦ inr (first_entry k v i us d same_key old)
        | inr (inl same_value) ↦ inl (same_key ∙ (text_eq_iff i j).0 e, same_value)
        | inr (inr none_left) ↦ absurd none_left
      ]
      | inr rest ↦ inr (later k v (i, us) d rest)
    ]
    | inr f ↦ elim (Entry-cons k v i us (file_under j w d) (rw f at h)) [
      | inl (same_key, m) ↦ inr (first_entry k v i us d same_key m)
      | inr rest ↦ elim (file_under-Entry j w k v d rest) [
        | inl new ↦ inl new
        | inr old ↦ inr (later k v (i, us) d old)
      ]
    ]
  ]

  get_list-file_under :
      (j : Text) (w : V) (k : Text) (d : List (Text × List V))
      → get_list k (file_under j w d)
        ≡ (if text_eq j k then get_list k d ++ w ∷ [] else get_list k d)
  unfolding file_under get_list
  get_list-file_under j w k [] = ground arith
  get_list-file_under j w k ((i, us) ∷ d) =
      ground (arith, text_eq_iff i j, text_eq_iff i k, text_eq_iff j k, get_list-file_under j w k d)

  -- What is filed under a key was given with it, or was there before.
  pub filed-Entry :
      (k : Text) (v : V) (kvs : List (Text × V)) (d : List (Text × List V))
      → Entry k v (filed kvs d)
      → In (k, v) kvs ⊎ Entry k v d
  unfolding filed
  filed-Entry k v [] d h = inr h
  filed-Entry k v ((j, w) ∷ kvs) d h = elim (filed-Entry k v kvs (file_under j w d) h) [
    | inl given ↦ inl (inr given)
    | inr entry ↦ elim (file_under-Entry j w k v d entry) [
      | inl (same_key, same_value) ↦ inl (inl (λ t. (same_key t, same_value t)))
      | inr old ↦ inr old
    ]
  ]

  get_list-Entry : (k : Text) (v : V) (d : List (Text × List V)) → In v (get_list k d) → Entry k v d
  unfolding get_list
  get_list-Entry k v [] m = absurd m
  get_list-Entry k v ((i, us) ∷ d) m = elim (Bool-cases (text_eq i k)) [
    | inl e ↦ first_entry k v i us d (sym ((text_eq_iff i k).0 e)) (rw e at m)
    | inr f ↦ later k v (i, us) d (get_list-Entry k v d (rw f at m))
  ]

  file_under-kept :
      (j : Text) (w : V) (k : Text) (v : V) (d : List (Text × List V))
      → In v (get_list k d)
      → In v (get_list k (file_under j w d))
  file_under-kept j w k v d m = rw (get_list-file_under j w k d) (elim (Bool-cases (text_eq j k)) [
    | inl e ↦ rw e (In-append_left v (get_list k d) (w ∷ []) m)
    | inr f ↦ rw f m
  ])

  filed-kept :
      (k : Text) (v : V) (kvs : List (Text × V)) (d : List (Text × List V))
      → In v (get_list k d)
      → In v (get_list k (filed kvs d))
  unfolding filed
  filed-kept k v [] d m = m
  filed-kept k v ((j, w) ∷ kvs) d m =
      filed-kept k v kvs (file_under j w d) (file_under-kept j w k v d m)

  file_under-In :
      (j : Text) (w : V) (d : List (Text × List V)) → In w (get_list j (file_under j w d))
  file_under-In j w d =
      rw (get_list-file_under j w j d, (text_eq_iff j j).1 refl)
        (In-append_right w (get_list j d) (w ∷ []) (inl refl))

  -- What is given with a key is filed under it.
  pub filed-In :
      (k : Text) (v : V) (kvs : List (Text × V)) (d : List (Text × List V))
      → In (k, v) kvs
      → In v (get_list k (filed kvs d))
  unfolding filed
  filed-In k v [] d h = absurd h
  filed-In k v ((j, w) ∷ kvs) d (inl e) =
      rw (ap (λ (p : Text × V). p.0) e, ap (λ (p : Text × V). p.1) e)
        (filed-kept j w kvs (file_under j w d) (file_under-In j w d))
  filed-In k v ((j, w) ∷ kvs) d (inr h) = filed-In k v kvs (file_under j w d) h

  pub get_list-filed :
      (k : Text) (v : V) (kvs : List (Text × V)) → In v (get_list k (filed kvs [])) → In (k, v) kvs
  get_list-filed k v kvs m = elim (filed-Entry k v kvs [] (get_list-Entry k v _ m)) [
    | inl given ↦ given
    | inr (vs, (none_left, _)) ↦ absurd none_left
  ]

  -- A list that is not empty is one of the dictionary's.
  pub get_list-listed :
      (k : Text) (v : V) (d : List (Text × List V))
      → In v (get_list k d)
      → In (get_list k d) (map (λ e. e.1) d)
  unfolding get_list
  get_list-listed k v [] m = absurd m
  get_list-listed k v ((i, us) ∷ d) m = elim (Bool-cases (text_eq i k)) [
    | inl e ↦ let found : get_list k ((i, us) ∷ d) ≡ us = rw e refl in inl found
    | inr f ↦
        let passed : get_list k ((i, us) ∷ d) ≡ get_list k d = rw f refl in
        inr (
          subst (λ r. In r (map (λ (e : Text × List V). e.1) d)) (sym passed)
            (get_list-listed k v d (rw f at m)))
  ]
