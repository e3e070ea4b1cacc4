-- ===== src/Checks/Listing.antt =====
-- Reading and listing checks (services/checks_service.py): who sees what, and what the pages give.
use prompt_patrol.Common.{
  ℕ, suc, ◌<◌, ◌≡◌, ◌⊎◌, inl, inr, refl, sym, ap, ◌∙◌, Bool, true, false, Option, none, some, List,
  [], ◌∷◌, ◌++◌, ◌==◌, ◌||◌, ltb, ◌&&◌, arith, All, All-map, All-select, All-selected, All-take,
  select, take, Option-cases, if◌then◌else◌, ◌↔◌, find, length,
}
use prompt_patrol.Models.{Db, Uuid, Time, User, Check, owns, owned_by_clause, root_admin}
use prompt_patrol.World.{World, Result, ok, err, ◌>>=◌}
use prompt_patrol.Paging.{page, last_id}
use prompt_patrol.Paging.Order.{
  IsKeyOrder, IsSorted, Distinct, sort_by-IsSorted, All-sort_by, Distinct-select, select-sort_by,
  select-after,
}
use prompt_patrol.Paging.Follow.{follow, follow-rows}
use prompt_patrol.Checks.{
  Filters, listed, listed_after, list_checks, get_check_by_id, check_before, has_check_id, in_scope,
  matches_filters, readable,
}

-- The row test and the query filter of models/user.py agree.
owned_by_clause-owns :
    (u : User) (actor_id : Uuid) (created_at : Time)
    → owned_by_clause u actor_id created_at ≡ owns u actor_id created_at
unfolding owned_by_clause owns
owned_by_clause-owns u actor_id created_at = ground arith

-- A check that the caller may read.
abbrev pub IsReadable : User → Check → Type 0
IsReadable actor c = (actor.role ≡ root_admin) ⊎ (owns actor c.actor_id c.created_at ≡ true)

in_scope-IsReadable :
    (actor : User) (f : Filters) (c : Check) → in_scope actor f c ≡ true → IsReadable actor c
unfolding in_scope
in_scope-IsReadable actor f c h = ground (arith, owned_by_clause-owns actor c.actor_id c.created_at)

check_before-IsKeyOrder : IsKeyOrder check_before
check_before-IsKeyOrder = record { trans = λ a b c p q. ground arith; asym = λ a b p. ground arith }

-- The primary key: no two checks have one identifier.
abbrev IdsDistinct : List Check → Type 0
IdsDistinct [] = Unit
IdsDistinct (c ∷ cs) = All (λ d. (d.id == c.id) ≡ false) cs × IdsDistinct cs

IdsDistinct-Distinct : (cs : List Check) → IdsDistinct cs → Distinct check_before cs
IdsDistinct-Distinct [] d = tt
IdsDistinct-Distinct (c ∷ cs) d = (
  All-map (λ e. (e.id == c.id) ≡ false) (λ e. (check_before c e || check_before e c) ≡ true)
      (λ e k. ground arith) cs d.0,
  IdsDistinct-Distinct cs d.1,
)

-- By its identifier a check is found, and no other.
IdsDistinct-find :
    (cs : List Check) → IdsDistinct cs → All (λ c. find (has_check_id c.id) cs ≡ some c) cs
unfolding find
IdsDistinct-find [] d = tt
IdsDistinct-find (c ∷ cs) d = (
  ground arith,
  All-map (λ e. ((e.id == c.id) ≡ false) × (find (has_check_id e.id) cs ≡ some e))
      (λ e. find (has_check_id e.id) (c ∷ cs) ≡ some e) (λ e k. ground arith) cs
      (both cs d.0 (IdsDistinct-find cs d.1)),
)
  where
    both :
        (ds : List Check)
        → All (λ e. (e.id == c.id) ≡ false) ds
        → All (λ e. find (has_check_id e.id) cs ≡ some e) ds
        → All (λ e. ((e.id == c.id) ≡ false) × (find (has_check_id e.id) cs ≡ some e)) ds
    both [] p q = tt
    both (e ∷ ds) p q = ((p.0, q.0), both ds p.1 q.1)

All-middle :
    (P : Check → Type 0) (pre : List Check) (x : Check) (post rows : List Check)
    → pre ++ x ∷ post ≡ rows
    → All P rows
    → P x
All-middle P pre x post rows e h = go pre (rw e h)
  where
    go : (pre : List Check) → All P (pre ++ x ∷ post) → P x
    go [] k = k.0
    go (y ∷ pre) k = go pre k.1

-- The page of the service, or none where it raises.
abbrev pub served : Result (List Check × Option Uuid) × World → List Check × Option Uuid
served (ok p, w) = p
served (err e, w) = ([], none)

abbrev pub fetch_checks : User → Filters → ℕ → World → Option Uuid → List Check × Option Uuid
fetch_checks actor f limit w cursor = served (list_checks actor f limit cursor w)

module _ (actor : User) (f : Filters) (w : World) (d : IdsDistinct w.db.checks) where
  abbrev matching : List Check
  matching = select (λ c. in_scope actor f c && matches_filters f c) w.db.checks

  matching-Distinct : Distinct check_before matching
  matching-Distinct =
      Distinct-select check_before check_before-IsKeyOrder _ w.db.checks
        (IdsDistinct-Distinct w.db.checks d)

  listed-IsSorted : IsSorted check_before (listed actor f w.db)
  unfolding listed
  listed-IsSorted = sort_by-IsSorted check_before check_before-IsKeyOrder matching matching-Distinct

  listed-found : All (λ c. find (has_check_id c.id) w.db.checks ≡ some c) (listed actor f w.db)
  unfolding listed
  listed-found = All-sort_by check_before check_before-IsKeyOrder _ matching (
      All-select (λ c. find (has_check_id c.id) w.db.checks ≡ some c) _ w.db.checks
        (IdsDistinct-find w.db.checks d))

  -- The query of a cursor gives what is listed after its row.
  listed_after-rest :
      (pre : List Check) (x : Check) (post : List Check)
      → pre ++ x ∷ post ≡ listed actor f w.db
      → listed_after actor f x w.db ≡ post
  unfolding listed listed_after
  listed_after-rest pre x post e =
      sym (
        select-sort_by check_before check_before-IsKeyOrder (check_before x) matching
          matching-Distinct)
      ∙ ap (select (check_before x)) (sym e)
      ∙ select-after check_before check_before-IsKeyOrder pre x post (rw e listed-IsSorted)

  fetch-after :
      (limit : ℕ) (pre : List Check) (x : Check) (post : List Check)
      → pre ++ x ∷ post ≡ listed actor f w.db
      → fetch_checks actor f limit w (some x.id) ≡ page (λ c. c.id) limit post
  unfolding list_checks ◌>>=◌
  fetch-after limit pre x post e =
      rw
        (All-middle (λ c. find (has_check_id c.id) w.db.checks ≡ some c) pre x post
          (listed actor f w.db) e listed-found)
        (ap (page (λ c. c.id) limit) (listed_after-rest pre x post e))

-- A client that follows the cursors of `list_checks` from the first page, with a page limit of at
-- least one and no write in between, is given every check in scope that matches the filters once,
-- the newest first, if no two checks have one identifier.
pub follow-list_checks :
    (actor : User) (f : Filters) (limit : ℕ) (w : World)
    → IdsDistinct w.db.checks
    → 0 < limit
    → follow (suc (length (listed actor f w.db))) (fetch_checks actor f limit w) none
      ≡ listed actor f w.db
unfolding list_checks ◌>>=◌
follow-list_checks actor f limit w d pos =
    follow-rows (λ c. c.id) check_before check_before-IsKeyOrder limit pos (listed actor f w.db)
      (listed-IsSorted actor f w d) (fetch_checks actor f limit w) (fetch-after actor f w d limit)
      (suc (length (listed actor f w.db))) [] (listed actor f w.db) none refl refl (omega arith)

module _ (actor : User) (f : Filters) (db : Db) where
  matching-IsReadable :
      All (IsReadable actor) (select (λ c. in_scope actor f c && matches_filters f c) db.checks)
  matching-IsReadable =
      All-map (λ c. (in_scope actor f c && matches_filters f c) ≡ true) (IsReadable actor)
        (λ c e. in_scope-IsReadable actor f c (ground arith)) _
        (All-selected (λ c. in_scope actor f c && matches_filters f c) db.checks)

  listed-IsReadable : All (IsReadable actor) (listed actor f db)
  unfolding listed
  listed-IsReadable =
      All-sort_by check_before check_before-IsKeyOrder (IsReadable actor) _ matching-IsReadable

  listed_after-IsReadable : (x : Check) → All (IsReadable actor) (listed_after actor f x db)
  unfolding listed_after
  listed_after-IsReadable x =
      All-sort_by check_before check_before-IsKeyOrder (IsReadable actor) _
        (All-select (IsReadable actor) (check_before x) _ matching-IsReadable)

page-All :
    (P : Check → Type 0) (limit : ℕ) (rows : List Check)
    → All P rows
    → All P (page (λ c. c.id) limit rows).0
unfolding page
page-All P limit rows h = by_test (ltb limit (length (take (suc limit) rows)))
  where
    by_test :
        (b : Bool)
        → All P
            (if◌then◌else◌ {A = List Check × Option Uuid} b
              (
                take limit (take (suc limit) rows),
                last_id (λ c. c.id) (take limit (take (suc limit) rows)),
              )
              (take (suc limit) rows, none)).0
    by_test true = All-take P limit (take (suc limit) rows) (All-take P (suc limit) rows h)
    by_test false = All-take P (suc limit) rows h

-- Every check that `list_checks` gives, on whatever page and with whatever filters, is the caller's
-- own, made since the account was last provisioned, or the caller is a root admin.
pub list_checks-IsReadable :
    (actor : User) (f : Filters) (limit : ℕ) (cursor : Option Uuid) (w : World)
    → All (IsReadable actor) (served (list_checks actor f limit cursor w)).0
unfolding list_checks ◌>>=◌
list_checks-IsReadable actor f limit none w =
    page-All (IsReadable actor) limit (listed actor f w.db) (listed-IsReadable actor f w.db)
list_checks-IsReadable actor f limit (some i) w =
    elim (Option-cases (find (has_check_id i) w.db.checks)) [
      | inl e ↦ rw e tt
      | inr (x, e) ↦ rw e (
          page-All (IsReadable actor) limit (listed_after actor f x w.db)
            (listed_after-IsReadable actor f w.db x))
    ]

readable_exactly :
    (actor : User) (c : Check) (found : Option Check)
    → (ok (readable actor found) ≡ ok (some c)) ↔ ((found ≡ some c) × IsReadable actor c)
readable_exactly actor c none = ground arith
readable_exactly actor c (some d) = ground arith

readable-none :
    (actor : User) (found : Option Check)
    → (ok (readable actor found) ≡ ok none)
      ↔ ((d : Check) → ¬ ((found ≡ some d) × IsReadable actor d))
readable-none actor found = elim (Option-cases (readable actor found)) [
  | inl e ↦ (
    (λ h d k.
        (let given : ok (readable actor found) ≡ ok (some d) =
            (readable_exactly actor d found).1 k in
          let no : ok none ≡ ok (some d) = sym h ∙ given in cc)),
    (λ h. ap ok e),
  )
  | inr (d, e) ↦ (
    (λ h. (let no : ok (some d) ≡ ok none = ap ok (sym e) ∙ h in cc)),
    (λ h. absurd (h d ((readable_exactly actor d found).0 (ap ok e)))),
  )
]

-- A check is given by its identifier exactly if there is one and the caller may read it; in every
-- other case, of an absent check as of another's, the answer is that there is none, and not an
-- exception; and nothing changes in either.
pub get_check_by_id_exactly :
    (actor : User) (i : Uuid) (w : World) (c : Check)
    → (((get_check_by_id actor i w).0 ≡ ok (some c))
        ↔ ((find (has_check_id i) w.db.checks ≡ some c) × IsReadable actor c))
      × (((get_check_by_id actor i w).0 ≡ ok none)
          ↔ ((d : Check) → ¬ ((find (has_check_id i) w.db.checks ≡ some d) × IsReadable actor d)))
      × ((get_check_by_id actor i w).1 ≡ w)
unfolding get_check_by_id ◌>>=◌
get_check_by_id_exactly actor i w c = (
  readable_exactly actor c (find (has_check_id i) w.db.checks),
  readable-none actor (find (has_check_id i) w.db.checks),
  refl,
)
