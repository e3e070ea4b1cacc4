-- ===== src/Batches/Returned.antt =====
-- `create_batch` succeeds if the file, the database and the strictness are good, whatever SQS does
-- (services/batches_service.py).
use prompt_patrol.Common.{◌≡◌, some, List, [], ◌∷◌, arith, length, Text}
use prompt_patrol.Models.{Uuid, Strictness, Batch}
use prompt_patrol.World.{
  World, Call, Result, ok, err, feed, ◌>>=◌, do_commit, Done, pure, committed, uuid4, now, commit,
  get_object, Table, content,
}
use prompt_patrol.Aws.{download_object}
use prompt_patrol.Checks.{level_of}
use prompt_patrol.Batches.Parse.{Row, Parsed, parse_and_validate}
use prompt_patrol.Batches.Service.{
  Upload, enqueue_rows, add_unqueued, commit_unqueued, queue_rows, store_batch, create_batch,
  batch_added, batch_of,
}
use prompt_patrol.Batches.Accounts.{
  Offers, enqueue_rows-Offers, add_unqueued-Adds, Adds, add_failures-Adds,
}

-- The database does what it is asked.
abbrev pub Commits : World → Type 0
Commits w = (calls : List Call) → w.outside.commits calls ≡ committed

abbrev pub Returns : {A : Type 0} → Result A × World → Type 0
Returns (ok a, w) = Unit
Returns (err e, w) = ⊥

feed-Returns :
    {A B : Type 0} (b : B) (x : Result A × World) → Returns x → Returns (feed (λ _. pure b) x)
unfolding pure
feed-Returns b (ok a, w) r = tt
feed-Returns b (err e, w) r = r

commit_unqueued-Returns :
    (failed : List Row) (w : World) → Commits w → Returns (commit_unqueued failed w)
unfolding do_commit pure
commit_unqueued-Returns [] w c = tt
commit_unqueued-Returns (r ∷ rs) w c = rw (c w.calls) tt

queue_rows-Returns :
    (up : Upload) (i : Uuid) (rs : List Row) (w : World)
    → Commits w
    → Returns (queue_rows up i rs w)
unfolding queue_rows ◌>>=◌
queue_rows-Returns up i rs w c = unqueued (enqueue_rows up i rs w) (enqueue_rows-Offers up i rs w)
  where
    added :
        (failed : List Row) (w1 : World) (x : Result Done × World)
        → Commits w1
        → (x.0 ≡ ok tt) × Adds (length failed) w1 x.1
        → Returns (feed (λ _. commit_unqueued failed) x)
    added failed w1 (ok _, w2) k (done, a) = commit_unqueued-Returns failed w2 (rw a.outside k)
    added failed w1 (err e, w2) k (done, a) = ground (arith, done)

    unqueued :
        (y : List Row × World)
        → Offers (length rs) w y
        → Returns (feed (λ _. commit_unqueued y.0) (add_unqueued i y.0 y.1))
    unqueued (failed, w1) o = added failed w1 _ (rw o.outside c) (add_unqueued-Adds i failed w1)

store_batch-Returns :
    (up : Upload) (parsed : Parsed) (w : World) (level : Strictness)
    → level_of up.strictness ≡ some level
    → Commits w
    → Returns (store_batch up parsed w)
unfolding store_batch ◌>>=◌ do_commit
store_batch-Returns up parsed w level e c =
    rw e (added _ (add_failures-Adds (w.outside.fresh w.calls) parsed.1 _))
  where
    i : Uuid
    i = w.outside.fresh w.calls

    b : Batch
    b = batch_of up i level (w.outside.time (uuid4 ∷ w.calls)) parsed

    started : World
    started = record w { db = batch_added b w.db; calls = now ∷ uuid4 ∷ w.calls }

    added :
        (x : Result Done × World)
        → (x.0 ≡ ok tt) × Adds (length parsed.1) started x.1
        → Returns (
            feed
              (λ _ w1.
                feed (λ _ w3. feed (λ _. pure b) (queue_rows up i parsed.0 w3)) (do_commit w1))
              x)
    added (ok _, w1) (done, a) =
        let k : Commits w1 = rw a.outside c in
        rw (k w1.calls) (
          feed-Returns b _ (
            queue_rows-Returns up i parsed.0
              (record w1 { saved = w1.db; calls = commit ∷ w1.calls }) k))
    added (err e, w1) (done, a) = ground (arith, done)

-- `create_batch` returns a batch if the uploaded object is there and can be read as CSV, the
-- strictness is one of the three and the database does what it is asked, whatever SQS refuses.
pub create_batch-Returns :
    (up : Upload) (w : World) (body : Text) (table : Table) (level : Strictness)
    → w.outside.object w.calls up.upload_key ≡ content body
    → w.outside.csv body ≡ some table
    → level_of up.strictness ≡ some level
    → Commits w
    → Returns (create_batch up w)
unfolding create_batch download_object ◌>>=◌
create_batch-Returns up w body table level e f l c =
    rw (e, f)
      (store_batch-Returns up (parse_and_validate table up.column_mapping up.requires_question_text)
        (record w { calls = get_object up.upload_key ∷ w.calls }) level l c)
