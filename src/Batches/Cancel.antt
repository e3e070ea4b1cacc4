-- ===== src/Batches/Cancel.antt =====
-- Cancelling a batch twice, and the numbers of its progress (services/batches_service.py).
use prompt_patrol.Common.{
  ℕ, suc, ◌+◌, ◌≤◌, ◌≡◌, refl, ap, ◌∙◌, Bool, true, false, Option, none, some, List, [], ◌∷◌, arith,
  length, find, update_where, sort_by, insert_by, Bool-cases, Option-cases, inl, inr, ◌⊎◌, not,
  ◌&&◌, if◌then◌else◌, leb,
}
use prompt_patrol.Models.{Db, Uuid, Time, User, Batch, owns, role_eq, root_admin}
use prompt_patrol.World.{
  World, Result, ok, err, feed, ◌>>=◌, pure, do_commit, CommitReply, committed, integrity_violation,
  connection_lost, answer_lost, finish_commit, commit, now,
}
use prompt_patrol.Aws.{purge_batch_messages}
use prompt_patrol.Aws.Laws.{purge_batch_messages-Silent}
use prompt_patrol.Users.Tables.{completed_rows, failed_rows}
use prompt_patrol.Batches.Service.{
  has_batch_id, accessible, cancelled_set, cancel_if, cancel_batch, Progress, failures_of,
  progress_of, progress_or_none, get_batch_progress,
}

abbrev mapped : {A : Type 0} → (A → A) → Option A → Option A
mapped f none = none
mapped f (some x) = some (f x)

-- An update of the rows that a query finds, by one that it still finds them by.
find-update_where :
    {A : Type 0} (p : A → Bool) (f : A → A) (xs : List A)
    → ((y : A) → p (f y) ≡ p y)
    → find p (update_where p f xs) ≡ mapped f (find p xs)
unfolding find update_where
find-update_where p f [] h = refl
find-update_where p f (y ∷ ys) h = elim (Bool-cases (p y)) [
  | inl t ↦ rw t (rw (h y ∙ t) refl)
  | inr n ↦ rw n (rw n (find-update_where p f ys h))
]

-- A second call returns what the first did, and changes nothing.
abbrev pub Settled : User → Uuid → Result (Option Batch) × World → Type 0
Settled actor i (ok r, w') = cancel_batch actor i w' ≡ (ok r, w')
Settled actor i (err e, w') = Unit

length-insert_by :
    {A : Type 0} (before : A → A → Bool) (x : A) (xs : List A)
    → length (insert_by before x xs) ≡ suc (length xs)
length-insert_by before x [] = refl
length-insert_by before x (y ∷ ys) = ground (arith, length-insert_by before x ys)

length-sort_by :
    {A : Type 0} (before : A → A → Bool) (xs : List A) → length (sort_by before xs) ≡ length xs
unfolding sort_by
length-sort_by before [] = refl
length-sort_by before (x ∷ xs) =
    length-insert_by before x (sort_by before xs) ∙ ap suc (length-sort_by before xs)

-- The numbers of a progress report add up.
abbrev pub AddsUp : Db → Uuid → Option Progress → Type 0
AddsUp db i none = Unit
AddsUp db i (some p) =
    (p.completed ≡ completed_rows db i)
    × (p.failed ≡ failed_rows db i)
    × (length p.failures ≡ failed_rows db i)
    × (p.row_total ≤ p.completed + p.failed + p.pending)
    × (p.completed + p.failed ≤ p.row_total → p.completed + p.failed + p.pending ≡ p.row_total)

abbrev pub progress_in : User → Uuid → World → Option Progress
progress_in actor i w = elim (get_batch_progress actor i w).0 [ ok p ↦ p | err e ↦ none ]

has-found_id :
    (i : Uuid) (bs : List Batch) (b : Batch) → find (has_batch_id i) bs ≡ some b → b.id ≡ i
unfolding find
has-found_id i [] b e = ground arith
has-found_id i (c ∷ bs) b e = ground (arith, has-found_id i bs b)

progress_of-AddsUp : (db : Db) (b : Batch) → AddsUp db b.id (some (progress_of db b))
unfolding failed_rows
progress_of-AddsUp db b =
    let counted : length (failures_of db b.id) ≡ failed_rows db b.id =
      length-sort_by (λ f g. leb f.created_at g.created_at) _ in
    (refl, counted, counted, omega arith, λ h. omega (arith, h))

-- The report of `get_batch_progress` counts the batch's checks and failed rows, and its completed,
-- failed and pending rows add up to the batch's total, unless more rows than that are recorded.
pub get_batch_progress-AddsUp :
    (actor : User) (i : Uuid) (w : World) → AddsUp w.db i (progress_in actor i w)
unfolding get_batch_progress ◌>>=◌
get_batch_progress-AddsUp actor i w = elim (Option-cases (find (has_batch_id i) w.db.batches)) [
  | inl e ↦ rw e tt
  | inr (b, e) ↦ rw e (
      rw (← has-found_id i w.db.batches b e) (
        by_guard b
          (not (owns actor b.actor_id b.created_at) && not (role_eq actor.role root_admin))))
]
  where
    by_guard :
        (b : Batch) (g : Bool)
        → AddsUp w.db b.id
            (progress_or_none w.db (if◌then◌else◌ {A = Option Batch} g none (some b)))
    by_guard b true = tt
    by_guard b false = progress_of-AddsUp w.db b

-- The guard of `cancel_batch`.
abbrev is_refused : User → Batch → Bool
is_refused actor b = not (owns actor b.actor_id b.created_at) && not (role_eq actor.role root_admin)

cancel-again :
    (actor : User) (i : Uuid) (w : World) (b : Batch) (t : Time)
    → find (has_batch_id i) w.db.batches ≡ some b
    → is_refused actor b ≡ false
    → b.cancelled_at ≡ some t
    → cancel_batch actor i w ≡ (ok (some b), w)
unfolding cancel_batch ◌>>=◌ pure
cancel-again actor i w b t e g c = rw e (rw g (rw c refl))

abbrev cancelled_by : Time → Batch → Batch
cancelled_by t b = record b { cancelled_at = some t }

-- A world that holds the batch as cancelled.
after_cancel :
    (actor : User) (i : Uuid) (w w' : World) (b : Batch) (t : Time)
    → find (has_batch_id i) w.db.batches ≡ some b
    → b.id ≡ i
    → is_refused actor b ≡ false
    → w'.db ≡ cancelled_set b.id t w.db
    → cancel_batch actor i w' ≡ (ok (some (cancelled_by t b)), w')
after_cancel actor i w w' b t e h g d =
    cancel-again actor i w' (cancelled_by t b) t
      (rw (d ∙ ap (λ j. cancelled_set j t w.db) h) (
        find-update_where (has_batch_id i) (cancelled_by t) w.db.batches (λ y. refl)
        ∙ ap (mapped (cancelled_by t)) e))
      g refl

-- The first cancelling of a batch: the commit, then the purge.
fresh_cancel-Settled :
    (actor : User) (i : Uuid) (w : World) (b : Batch)
    → find (has_batch_id i) w.db.batches ≡ some b
    → b.id ≡ i
    → is_refused actor b ≡ false
    → Settled actor i (feed (λ c. pure (some c)) (cancel_if b none w))
unfolding ◌>>=◌ do_commit pure
fresh_cancel-Settled actor i w b e h g = by_reply (w.outside.commits (now ∷ w.calls))
  where
    t : Time
    t = w.outside.time w.calls

    purged :
        (x : Result ℕ × World)
        → x.1.db ≡ cancelled_set b.id t w.db
        → Settled actor i (feed (λ c. pure (some c)) (feed (λ n. pure (cancelled_by t b)) x))
    purged (ok n, w') d = after_cancel actor i w w' b t e h g d
    purged (err r, w') d = tt

    by_reply :
        (r : CommitReply)
        → Settled actor i (
            feed
              (λ c. pure (some c))
              (feed
                (λ _ w1. feed (λ n. pure (cancelled_by t b)) (purge_batch_messages (b.id ∷ []) w1))
                (finish_commit r
                  (record w { db = cancelled_set b.id t w.db; calls = commit ∷ now ∷ w.calls }))))
    by_reply committed = purged _ ((purge_batch_messages-Silent (b.id ∷ [])).db _)
    by_reply integrity_violation = tt
    by_reply connection_lost = tt
    by_reply answer_lost = tt

refused-again :
    (actor : User) (i : Uuid) (w : World)
    → accessible actor (find (has_batch_id i) w.db.batches) ≡ none
    → cancel_batch actor i w ≡ (ok none, w)
unfolding cancel_batch ◌>>=◌ pure
refused-again actor i w e = rw e refl

accessible_found :
    (actor : User) (o : Option Batch) (b : Batch)
    → accessible actor o ≡ some b
    → (o ≡ some b) × (is_refused actor b ≡ false)
accessible_found actor none b e = ground arith
accessible_found actor (some c) b e = ground arith

found-Settled :
    (actor : User) (i : Uuid) (w : World) (b : Batch)
    → accessible actor (find (has_batch_id i) w.db.batches) ≡ some b
    → (b.cancelled_at ≡ none) ⊎ ((t : Time) × (b.cancelled_at ≡ some t))
    → Settled actor i (cancel_batch actor i w)
unfolding cancel_batch ◌>>=◌
found-Settled actor i w b e (inl c) =
    let (f, g) = accessible_found actor _ b e in
    rw e (rw c (fresh_cancel-Settled actor i w b f (has-found_id i w.db.batches b f) g))
found-Settled actor i w b e (inr (t, c)) =
    let (f, g) = accessible_found actor _ b e in
    rw (cancel-again actor i w b t f g c) (cancel-again actor i w b t f g c)

-- `cancel_batch` is idempotent: where it returns, a second call by the same actor returns the same
-- and changes nothing, in the database or outside.
pub cancel_batch-Settled :
    (actor : User) (i : Uuid) (w : World) → Settled actor i (cancel_batch actor i w)
cancel_batch-Settled actor i w =
    elim (Option-cases (accessible actor (find (has_batch_id i) w.db.batches))) [
      | inl e ↦ rw (refused-again actor i w e) (refused-again actor i w e)
      | inr (b, e) ↦ found-Settled actor i w b e (Option-cases b.cancelled_at)
    ]
