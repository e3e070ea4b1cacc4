-- ===== src/Transactions.antt =====
-- Reasoning about one request's transaction: what a call leaves in the session and what it commits.
mod Calls
pub mod Raises
pub use Calls.*
use prompt_patrol.Common.{Bool, true, false, not, Option, none, some, List, ◌∷◌, ◌≡◌, refl, arith}
use Calls.{Silent}
use prompt_patrol.Models.{Db}
use prompt_patrol.World.{
  Exec, World, Result, ok, err, Error, Outside, Call, pure, raise, gets, or_raise, raise_if, when,
  modify, ask, feed, ◌>>=◌, Done, do_commit, do_flush, CommitReply, committed, integrity_violation,
  connection_lost, answer_lost, do_refresh, finish_commit, finish_flush, commit, flush, refresh,
  database_error,
}

-- After a call: its result fits the session's rows, and what is committed satisfies `I`.
abbrev pub Post : {A : Type 0} → (Db → Type 0) → (A → Db → Type 0) → Result A × World → Type 0
Post I Q (ok a, w) = Q a w.db × I w.saved
Post I Q (err e, w) = I w.saved

-- From a session where `P` holds, `m` commits only what satisfies `I`, and if it returns, `Q` holds.
pub record Holds {A : Type 0} (I P : Db → Type 0) (m : Exec A) (Q : A → Db → Type 0) : Type 0 where
  pub at : (w : World) → P w.db → I w.saved → Post I Q (m w)

-- What stays the same from the start of a step to its end.
abbrev pub Keeps : {A : Type 0} → (Db → Type 0) → (Db → Type 0) → Exec A → Type 0
Keeps I P m = Holds I P m (λ _. P)

module _ {A : Type 0} {I P : Db → Type 0} where
  Holds-pure : {Q : A → Db → Type 0} (a : A) → ((db : Db) → P db → Q a db) → Holds I P (pure a) Q
  unfolding pure
  Holds-pure a f = record { at = λ w p i. (f w.db p, i) }

  Holds-raise : (Q : A → Db → Type 0) (e : Error) → Holds I P (raise {A = A} e) Q
  unfolding raise
  Holds-raise Q e = record { at = λ w p i. i }

  pub Holds-gets :
      {Q : A → Db → Type 0} (f : World → A)
      → ((w : World) → P w.db → Q (f w) w.db)
      → Holds I P (gets f) Q
  unfolding gets
  Holds-gets f g = record { at = λ w p i. (g w p, i) }

  Holds-or_raise :
      (o : Option A) (e : Error) → Holds I P (or_raise o e) (λ a db. P db × (o ≡ some a))
  unfolding or_raise
  Holds-or_raise none e = record { at = λ w p i. i }
  Holds-or_raise (some a) e = record { at = λ w p i. ((p, refl), i) }

  pub Keeps-pure : (a : A) → Keeps I P (pure a)
  unfolding pure
  Keeps-pure a = record { at = λ w p i. (p, i) }

  pub Keeps-raise : (e : Error) → Keeps I P (raise {A = A} e)
  unfolding raise
  Keeps-raise e = record { at = λ w p i. i }

  pub Keeps-gets : (f : World → A) → Keeps I P (gets f)
  unfolding gets
  Keeps-gets f = record { at = λ w p i. (p, i) }

  pub Keeps-or_raise : (o : Option A) (e : Error) → Keeps I P (or_raise o e)
  unfolding or_raise
  Keeps-or_raise none e = record { at = λ w p i. i }
  Keeps-or_raise (some a) e = record { at = λ w p i. (p, i) }

  pub Keeps-ask : (c : Call) (f : Outside → List Call → A) → Keeps I P (ask c f)
  unfolding ask
  Keeps-ask c f = record { at = λ w p i. (p, i) }

module _ {I P : Db → Type 0} where
  Holds-raise_if : (b : Bool) (e : Error) → Holds I P (raise_if b e) (λ _ db. P db × (b ≡ false))
  unfolding raise_if
  Holds-raise_if true e = record { at = λ w p i. i }
  Holds-raise_if false e = record { at = λ w p i. ((p, refl), i) }

  pub Keeps-raise_if : (b : Bool) (e : Error) → Keeps I P (raise_if b e)
  unfolding raise_if
  Keeps-raise_if true e = record { at = λ w p i. i }
  Keeps-raise_if false e = record { at = λ w p i. (p, i) }

  pub Holds-modify :
      {Q : Db → Type 0} (f : Db → Db)
      → ((db : Db) → P db → Q (f db))
      → Holds I P (modify f) (λ _. Q)
  unfolding modify
  Holds-modify f g = record { at = λ w p i. (g w.db p, i) }

  Holds-when :
      {Q : Db → Type 0} (b : Bool) (m : Exec Done)
      → (b ≡ true → Holds I P m (λ _. Q))
      → (b ≡ false → (db : Db) → P db → Q db)
      → Holds I P (when b m) (λ _. Q)
  unfolding when
  Holds-when true m f g = f refl
  Holds-when false m f g = record { at = λ w p i. (g refl w.db p, i) }

  pub Keeps-modify : (f : Db → Db) → ((db : Db) → P db → P (f db)) → Keeps I P (modify f)
  unfolding modify
  Keeps-modify f g = record { at = λ w p i. (g w.db p, i) }

  pub Keeps-when : (b : Bool) (m : Exec Done) → Keeps I P m → Keeps I P (when b m)
  unfolding when
  Keeps-when true m k = k
  Keeps-when false m k = record { at = λ w p i. (p, i) }

  pub Keeps-do_commit : ((db : Db) → P db → I db) → Keeps I P do_commit
  unfolding do_commit
  Keeps-do_commit f = record {
    at = λ w p i. commits (record w { calls = commit ∷ w.calls }) (w.outside.commits w.calls) p i;
  }
    where
      commits :
          (w : World) (r : CommitReply) → P w.db → I w.saved → Post I (λ _. P) (finish_commit r w)
      commits w committed p i = (p, f w.db p)
      commits w integrity_violation p i = i
      commits w connection_lost p i = i
      commits w answer_lost p i = f w.db p

  pub Keeps-do_flush : Keeps I P do_flush
  unfolding do_flush
  Keeps-do_flush = record {
    at = λ w p i. flushes (record w { calls = flush ∷ w.calls }) (w.outside.commits w.calls) p i;
  }
    where
      flushes :
          (w : World) (r : CommitReply) → P w.db → I w.saved → Post I (λ _. P) (finish_flush r w)
      flushes w committed p i = (p, i)
      flushes w integrity_violation p i = i
      flushes w connection_lost p i = i
      flushes w answer_lost p i = i

module _ {A B : Type 0} {I : Db → Type 0} where
  Post-feed :
      {R : A → Db → Type 0} (Q : B → Db → Type 0) (f : A → Exec B)
      → ((a : A) → Holds I (R a) (f a) Q)
      → (x : Result A × World) → Post I R x
      → Post I Q (feed f x)
  Post-feed Q f kf (ok a, w) p = (kf a).at w p.0 p.1
  Post-feed Q f kf (err e, w) p = p

module _ {A B : Type 0} {I P : Db → Type 0} where
  pub Holds-bind :
      {R : A → Db → Type 0} {Q : B → Db → Type 0} {m : Exec A} {f : A → Exec B}
      → Holds I P m R
      → ((a : A) → Holds I (R a) (f a) Q)
      → Holds I P (m >>= f) Q
  unfolding ◌>>=◌
  Holds-bind {Q} {m} {f} km kf = record { at = λ w p i. Post-feed Q f kf (m w) (km.at w p i) }

  -- A step after which the same is known as before it.
  pub Keeps-then :
      {Q : B → Db → Type 0} {m : Exec A} {f : A → Exec B}
      → Keeps I P m
      → ((a : A) → Holds I P (f a) Q)
      → Holds I P (m >>= f) Q
  Keeps-then km kf = Holds-bind km kf

module _ {A : Type 0} {I P : Db → Type 0} where
  pub Holds-weaken :
      {P' : Db → Type 0} {Q : A → Db → Type 0} {m : Exec A}
      → ((db : Db) → P db → P' db)
      → Holds I P' m Q
      → Holds I P m Q
  Holds-weaken f k = record { at = λ w p i. k.at w (f w.db p) i }

  -- A call of the outside world alone keeps what is known of the session.
  pub Keeps-Silent : {m : Exec A} → Silent m → Keeps I P m
  Keeps-Silent {m} k = record { at = λ w p i. by_parts (m w) w (k.db w) (k.saved w) p i }
    where
      by_parts :
          (x : Result A × World) (w : World)
          → x.1.db ≡ w.db
          → x.1.saved ≡ w.saved
          → P w.db
          → I w.saved
          → Post I (λ _. P) x
      by_parts (ok a, w') w d s p i = (rw d p, rw s i)
      by_parts (err e, w') w d s p i = rw s i

module _ {I P : Db → Type 0} where
  pub Keeps-do_refresh : Keeps I P do_refresh
  unfolding do_refresh
  Keeps-do_refresh =
      Keeps-then {A = Bool} (Keeps-ask refresh (λ o. o.refreshes))
        (λ done. Keeps-raise_if (not done) database_error)

-- What needs no knowledge of the rows.
pub ruleset keeps_rules = (
  Keeps-pure, Keeps-raise, Keeps-gets, Keeps-or_raise, Keeps-ask, Keeps-raise_if, Keeps-when,
  Keeps-do_flush, Keeps-do_refresh, Keeps-then,
)
