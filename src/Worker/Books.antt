-- ===== src/Worker/Books.antt =====
-- The worker's books: the rows that it has committed against the messages that it has deleted
-- (apps/worker/worker/main.py).
use prompt_patrol.Common.{
  Text, ℕ, suc, ◌+◌, ◌≡◌, refl, ap, Bool, true, false, Option, none, some, List, [], ◌∷◌, arith,
  length, length-append, Option-cases, inl, inr, ◌⊎◌, find, not, Bool-cases, ◌∙◌,
}
use prompt_patrol.Models.{Db, Float, Uuid}
use prompt_patrol.World.{
  World, Result, ok, err, Exec, Call, delete_message, receive_message, or_raise, feed, ◌>>=◌,
  do_commit, in_session, rollback, raise_if, transport, Done, Body, not_json, foreign_json,
  short_row, row, Message, Queue, batches_queue, batches_dlq, Payload, pure, CommitReply, committed,
  integrity_violation, connection_lost, answer_lost, Outside, commit, refresh, do_refresh,
  malformed, no_object, finish_commit, DetectorReply, timed_out, http_error, scored, monotonic,
}
use prompt_patrol.Aws.{receive}
use prompt_patrol.Checks.{create_check, level_of}
use prompt_patrol.Batches.Service.{add_failure, has_batch_id}
use prompt_patrol.Worker.Passes.{IsPreorder, Steady, poll_once-Steady}
use prompt_patrol.Worker.{
  process_message, process_body, delete_if_done, record_body, poll_once, is_cancelled, checked,
  refused, refused_or_short, recorded, process_short_row, checked_or_refused, rolled_back_on_error,
}

-- The committed rows of a file: checked, or failed.
pub rows_recorded : Db → ℕ
rows_recorded db = length db.checks + length db.row_failures

-- The messages that the calls so far ask SQS to delete.
pub deletions : List Call → ℕ
deletions [] = 0
deletions (delete_message q handle ∷ calls) = suc (deletions calls)
deletions (_ ∷ calls) = deletions calls

abbrev lost : CommitReply → ℕ → ℕ
lost answer_lost n = suc n
lost _ n = n

abbrev unread : Bool → ℕ → ℕ
unread true n = n
unread false n = suc n

-- The commits so far that took effect without the worker's knowing: their answer was lost, or the
-- refresh after them failed.
pub unheard : Outside → List Call → ℕ
unheard o [] = 0
unheard o (commit ∷ calls) = lost (o.commits calls) (unheard o calls)
unheard o (refresh ∷ calls) = unread (o.refreshes calls) (unheard o calls)
unheard o (_ ∷ calls) = unheard o calls

-- The same outside world, and the same messages deleted.
abbrev Beside : World → World → Type 0
Beside w w' = (w'.outside ≡ w.outside) × (deletions w'.calls ≡ deletions w.calls)

-- One message: if it is done its row is committed, else nothing is, or unheard.
abbrev Records : {A : Type 0} → World → Result A × World → Type 0
Records w (ok a, w') =
    (rows_recorded w'.saved ≡ suc (rows_recorded w.saved))
    × (unheard w'.outside w'.calls ≡ unheard w.outside w.calls)
    × Beside w w'
Records w (err e, w') =
    (rows_recorded w'.saved + unheard w.outside w.calls
      ≡ rows_recorded w.saved + unheard w'.outside w'.calls)
    × Beside w w'

commit-cases :
    (r : CommitReply)
    → (r ≡ committed) ⊎ ((r ≡ integrity_violation) ⊎ ((r ≡ connection_lost) ⊎ (r ≡ answer_lost)))
commit-cases committed = inl refl
commit-cases integrity_violation = inr (inl refl)
commit-cases connection_lost = inr (inr (inl refl))
commit-cases answer_lost = inr (inr (inr refl))

module _ (w : World) where
  -- The last commit of a message.
  committed-Records :
      (db' : Db) (calls' : List Call)
      → rows_recorded db' ≡ suc (rows_recorded w.saved)
      → deletions calls' ≡ deletions w.calls
      → unheard w.outside calls' ≡ unheard w.outside w.calls
      → Records w (
          finish_commit (w.outside.commits calls') (record w { db = db'; calls = commit ∷ calls' }))
  unfolding unheard deletions
  committed-Records db' calls' e d u =
      let known : (r : CommitReply)
          → w.outside.commits calls' ≡ r
          → unheard w.outside (commit ∷ calls') ≡ lost r (unheard w.outside calls') =
        λ r e. ap (λ x. lost x (unheard w.outside calls')) e in
      elim (commit-cases (w.outside.commits calls')) [
        | inl r ↦ rw r (e, known committed r ∙ u, (refl, d))
        | inr (inl r) ↦ rw r (omega (arith, u, known integrity_violation r), (refl, d))
        | inr (inr (inl r)) ↦ rw r (omega (arith, u, known connection_lost r), (refl, d))
        | inr (inr (inr r)) ↦ rw r (omega (arith, u, e, known answer_lost r), (refl, d))
      ]

  feed-Records :
      {A : Type 0} {B : Type 0} (a : A) (x : Result B × World)
      → Records w x
      → Records w (feed (λ _. pure a) x)
  unfolding pure
  feed-Records a (ok b, w') h = h
  feed-Records a (err e, w') h = h

  -- The refresh of the row that was committed.
  refreshed-Records :
      {A : Type 0} (a : A) (x : Result Done × World)
      → Records w x
      → Records w (feed (λ _. do_refresh >>= λ _. pure a) x)
  unfolding do_refresh ◌>>=◌ unheard deletions
  refreshed-Records a (err e, w') h = h
  refreshed-Records a (ok b, w') (e, u, (o, d)) =
      elim (Bool-cases (w'.outside.refreshes w'.calls)) [
        | inl r ↦ rw r (e, ap (λ x. unread x (unheard w'.outside w'.calls)) r ∙ u, (o, d))
        | inr r ↦
            rw r (omega (arith, e, u, ap (λ x. unread x (unheard w'.outside w'.calls)) r), (o, d))
      ]

refused-Records :
    (i : Uuid) (ref : Option Text) (w : World) → w.db ≡ w.saved → Records w (refused i ref w)
unfolding add_failure do_commit rows_recorded deletions unheard
refused-Records i ref w e =
    committed-Records w _ _
      (omega (arith, length-append w.db.row_failures (_ ∷ []), ap rows_recorded e)) refl refl

reply-cases :
    (r : DetectorReply)
    → (r ≡ timed_out)
      ⊎ ((r ≡ http_error) ⊎ ((r ≡ malformed) ⊎ ((s : Float) × (b : Bool) × (r ≡ scored s b))))
reply-cases timed_out = inl refl
reply-cases http_error = inr (inl refl)
reply-cases malformed = inr (inr (inl refl))
reply-cases (scored s b) = inr (inr (inr (s, b, refl)))

checked-Records : (p : Payload) (w : World) → w.db ≡ w.saved → Records w (checked p w)
unfolding create_check do_commit rows_recorded deletions unheard
checked-Records p w e = elim (reply-cases (w.outside.scores (monotonic ∷ w.calls) p.answer_text)) [
  | inl t ↦ rw t (refl, (refl, refl))
  | inr (inl h) ↦ rw h (refl, (refl, refl))
  | inr (inr (inl h)) ↦ rw h (refl, (refl, refl))
  | inr (inr (inr (s, b, h))) ↦ elim (Option-cases (level_of p.strictness)) [
    | inl l ↦ rw (h, l) (refl, (refl, refl))
    | inr (v, l) ↦
        rw (h, l)
          (feed-Records w tt _ (
            refreshed-Records w _ _ (
              committed-Records w _ _
                (omega (arith, length-append w.db.checks (_ ∷ []), ap rows_recorded e)) refl refl)))
  ]
]

process_message-Records :
    (p : Payload) (w : World) → w.db ≡ w.saved → Records w (process_message p w)
unfolding process_message ◌>>=◌
process_message-Records p w e = by_flag (is_cancelled (find (has_batch_id p.batch_id) w.db.batches))
  where
    by_flag : (b : Bool) → Records w (checked_or_refused p b w)
    by_flag true = refused-Records p.batch_id (some p.external_ref) w e
    by_flag false = checked-Records p w e

process_short_row-Records :
    (i : Uuid) (ref : Option Text) (w : World)
    → w.db ≡ w.saved
    → Records w (process_short_row i ref w)
unfolding process_short_row ◌>>=◌
process_short_row-Records i ref w e = by_flag (is_cancelled (find (has_batch_id i) w.db.batches))
  where
    by_flag : (b : Bool) → Records w (refused_or_short i ref b w)
    by_flag true = refused-Records i ref w e
    by_flag false = (refl, (refl, refl))

-- Books that balance: as many rows newly committed as messages deleted and commits unheard together,
-- and nothing left uncommitted.
abbrev pub Balanced : World → World → Type 0
Balanced w w' =
    (w'.db ≡ w'.saved)
    × (w'.outside ≡ w.outside)
    × (rows_recorded w'.saved + deletions w.calls + unheard w.outside w.calls
        ≡ rows_recorded w.saved + deletions w'.calls + unheard w'.outside w'.calls)

-- A message handled, its session closed.
abbrev Closed : World → Result Done × World → Type 0
Closed w x = Records w x × (x.1.db ≡ x.1.saved)

in_session-Closed :
    (w : World) (x : Result Done × World) → Records w x → Closed w (x.0, (rollback x.1).1)
unfolding rollback
in_session-Closed w (ok a, w') h = (h, refl)
in_session-Closed w (err r, w') h = (h, refl)

process_body-Closed : (b : Body) (w : World) → w.db ≡ w.saved → Closed w (process_body b w)
unfolding in_session rollback ◌>>=◌
process_body-Closed not_json w e = ((refl, (refl, refl)), e)
process_body-Closed no_object w e = ((refl, (refl, refl)), e)
process_body-Closed foreign_json w e = ((refl, (refl, refl)), e)
process_body-Closed (short_row i ref) w e =
    in_session-Closed w (process_short_row i ref w) (process_short_row-Records i ref w e)
process_body-Closed (row p) w e =
    in_session-Closed w (process_message p w) (process_message-Records p w e)

recorded-Closed :
    (i : Uuid) (ref : Option Text) (w : World) → w.db ≡ w.saved → Closed w (recorded i ref w)
unfolding add_failure do_commit rollback rows_recorded deletions unheard
recorded-Closed i ref w e =
    by_reply _ _ (omega (arith, length-append w.db.row_failures (_ ∷ []), ap rows_recorded e)) refl
      refl
  where
    by_reply :
        (db' : Db) (calls' : List Call)
        → rows_recorded db' ≡ suc (rows_recorded w.saved)
        → deletions calls' ≡ deletions w.calls
        → unheard w.outside calls' ≡ unheard w.outside w.calls
        → Closed w (
            rolled_back_on_error (
              finish_commit
                (w.outside.commits calls')
                (record w { db = db'; calls = commit ∷ calls' })))
    by_reply db' calls' k d u =
        let known : (r : CommitReply)
            → w.outside.commits calls' ≡ r
            → unheard w.outside (commit ∷ calls') ≡ lost r (unheard w.outside calls') =
          λ r e. ap (λ x. lost x (unheard w.outside calls')) e in
        elim (commit-cases (w.outside.commits calls')) [
          | inl r ↦ rw r ((k, known committed r ∙ u, (refl, d)), refl)
          | inr (inl r) ↦ rw r ((omega (arith, u, known integrity_violation r), (refl, d)), refl)
          | inr (inr (inl r)) ↦ rw r ((omega (arith, u, known connection_lost r), (refl, d)), refl)
          | inr (inr (inr r)) ↦ rw r ((omega (arith, u, k, known answer_lost r), (refl, d)), refl)
        ]

record_body-Closed : (b : Body) (w : World) → w.db ≡ w.saved → Closed w (record_body b w)
unfolding ◌>>=◌
record_body-Closed not_json w e = ((refl, (refl, refl)), e)
record_body-Closed no_object w e = ((refl, (refl, refl)), e)
record_body-Closed foreign_json w e = ((refl, (refl, refl)), e)
record_body-Closed (short_row i ref) w e = recorded-Closed i ref w e
record_body-Closed (row p) w e = recorded-Closed p.batch_id (some p.external_ref) w e

delete_if_done-Balanced :
    (q : Queue) (m : Message) (w : World) (x : Result Done × World)
    → Closed w x
    → Balanced w (delete_if_done q m x).1
unfolding ◌>>=◌ deletions unheard
delete_if_done-Balanced q m w (ok a, w') ((k, u, (o, d)), c) =
    by_reply (w'.outside.deletes w'.calls)
  where
    by_reply :
        (b : Bool)
        → Balanced w
            (raise_if
              (not b)
              transport
              (record w' { calls = delete_message q m.receipt_handle ∷ w'.calls })).1
    by_reply true = (c, o, omega (arith, k, d, u))
    by_reply false = (c, o, omega (arith, k, d, u))
delete_if_done-Balanced q m w (err e, w') ((k, (o, d)), c) = (c, o, omega (arith, k, d))

-- The books stay balanced from a world with nothing uncommitted.
abbrev KeepsBooks : World → World → Type 0
KeepsBooks w w' = w.db ≡ w.saved → Balanced w w'

KeepsBooks-IsPreorder : IsPreorder KeepsBooks
KeepsBooks-IsPreorder = record {
  same = λ w e. (e, refl, refl);
  trans = λ u v w r s e.
      let (d, o, k) = r e in let (d', o', k') = s d in (d', o' ∙ o, omega (arith, k, k'));
}

handled-KeepsBooks :
    (q : Queue) (m : Message) (f : Exec Done)
    → ((w : World) → w.db ≡ w.saved → Closed w (f w))
    → Steady KeepsBooks (λ w. delete_if_done q m (f w))
handled-KeepsBooks q m f h = record { at = λ w e. delete_if_done-Balanced q m w (f w) (h w e) }

receive-KeepsBooks : (q : Queue) (n : ℕ) → Steady KeepsBooks (receive q n)
unfolding ◌>>=◌ deletions unheard
receive-KeepsBooks q n = record { at = λ w e. received (w.outside.receives w.calls q n) w e }
  where
    received :
        (reply : Option (List Message)) (w : World)
        → w.db ≡ w.saved
        → Balanced w
            (or_raise reply transport (record w { calls = receive_message q n ∷ w.calls })).1
    received none w e = (e, refl, refl)
    received (some ms) w e = (e, refl, refl)

in_session-KeepsBooks : (m : Exec ℕ) → Steady KeepsBooks m → Steady KeepsBooks (in_session m)
unfolding in_session rollback
in_session-KeepsBooks m s = record { at = λ w e. (refl, (s.at w e).1, (s.at w e).2) }

-- In every run of `poll_once` that starts with nothing uncommitted, whatever the queues, the
-- detector and the database answer and also where it raises, the rows that it commits (a check or a
-- failed row each) are as many as the messages that it asks SQS to delete, from the queue and from
-- the dead letters, and the commits together of which it never learns that they took effect (the
-- answer is lost, or the refresh after it fails); and nothing is left uncommitted.
pub poll_once-Balanced : (w : World) → w.db ≡ w.saved → Balanced w (poll_once w).1
poll_once-Balanced =
    (poll_once-Steady KeepsBooks KeepsBooks-IsPreorder receive-KeepsBooks
      (λ m. handled-KeepsBooks batches_queue m _ (process_body-Closed m.body))
      (λ m. handled-KeepsBooks batches_dlq m _ (record_body-Closed m.body))
      in_session-KeepsBooks).at
