-- ===== src/Transactions/Raises.antt =====
-- Which exceptions a call may raise.
use prompt_patrol.Common.{
  arith, Bool, true, false, not, Option, none, some, List, ◌∷◌, ◌≡◌, if◌then◌else◌,
}
use prompt_patrol.World.{
  Exec, World, Result, ok, err, Error, Outside, Call, Done, pure, raise, gets, or_raise, raise_if,
  when, modify, ask, feed, ◌>>=◌, do_commit, do_flush, do_refresh, finish_commit, finish_flush,
  CommitReply, committed, integrity_violation, connection_lost, answer_lost, integrity_error,
  database_error, commit, flush, refresh, except_transport, transport,
}
use prompt_patrol.Models.{Db}

abbrev pub Within : {A : Type 0} → (Error → Bool) → Result A × World → Type 0
Within may (ok a, w) = Unit
Within may (err e, w) = may e ≡ true

pub record Raises {A : Type 0} (may : Error → Bool) (m : Exec A) : Type 0 where
  pub at : (w : World) → Within may (m w)

module _ {A : Type 0} {may : Error → Bool} where
  pub Raises-pure : (a : A) → Raises may (pure a)
  unfolding pure
  Raises-pure a = record { at = λ w. tt }

  pub Raises-raise : (e : Error) → may e ≡ true → Raises may (raise {A = A} e)
  unfolding raise
  Raises-raise e h = record { at = λ w. h }

  pub Raises-gets : (f : World → A) → Raises may (gets f)
  unfolding gets
  Raises-gets f = record { at = λ w. tt }

  pub Raises-or_raise : (o : Option A) (e : Error) → may e ≡ true → Raises may (or_raise o e)
  unfolding or_raise
  Raises-or_raise none e h = Raises-raise e h
  Raises-or_raise (some a) e h = Raises-pure a

  pub Raises-ask : (c : Call) (f : Outside → List Call → A) → Raises may (ask c f)
  unfolding ask
  Raises-ask c f = record { at = λ w. tt }

  pub Raises-if :
      (b : Bool) (m n : Exec A) → Raises may m → Raises may n → Raises may (if b then m else n)
  Raises-if true m n k l = k
  Raises-if false m n k l = l

module _ {may : Error → Bool} where
  pub Raises-raise_if : (b : Bool) (e : Error) → may e ≡ true → Raises may (raise_if b e)
  unfolding raise_if
  Raises-raise_if true e h = Raises-raise e h
  Raises-raise_if false e h = Raises-pure tt

  pub Raises-modify : (f : Db → Db) → Raises may (modify f)
  unfolding modify
  Raises-modify f = record { at = λ w. tt }

  pub Raises-when : (b : Bool) (m : Exec Done) → Raises may m → Raises may (when b m)
  unfolding when
  Raises-when true m k = k
  Raises-when false m k = Raises-pure tt

  pub Raises-do_commit :
      may integrity_error ≡ true → may database_error ≡ true → Raises may do_commit
  unfolding do_commit
  Raises-do_commit i d = record {
    at = λ w. by_reply (w.outside.commits w.calls) (record w { calls = commit ∷ w.calls });
  }
    where
      by_reply : (r : CommitReply) (w : World) → Within may (finish_commit r w)
      by_reply committed w = tt
      by_reply integrity_violation w = i
      by_reply connection_lost w = d
      by_reply answer_lost w = d

  pub Raises-do_flush : may integrity_error ≡ true → may database_error ≡ true → Raises may do_flush
  unfolding do_flush
  Raises-do_flush i d = record {
    at = λ w. by_reply (w.outside.commits w.calls) (record w { calls = flush ∷ w.calls });
  }
    where
      by_reply : (r : CommitReply) (w : World) → Within may (finish_flush r w)
      by_reply committed w = tt
      by_reply integrity_violation w = i
      by_reply connection_lost w = d
      by_reply answer_lost w = d

pub Raises-bind :
    {A B : Type 0} {may : Error → Bool} {m : Exec A} {f : A → Exec B}
    → Raises may m
    → ((a : A) → Raises may (f a))
    → Raises may (m >>= f)
unfolding ◌>>=◌
Raises-bind {A} {may} {m} {f} k l = record { at = λ w. after (m w) (k.at w) }
  where
    after : (x : Result A × World) → Within may x → Within may (feed f x)
    after (ok a, w) h = (l a).at w
    after (err e, w) h = h

pub Raises-do_refresh : {may : Error → Bool} → may database_error ≡ true → Raises may do_refresh
unfolding do_refresh
Raises-do_refresh d =
    Raises-bind {A = Bool} (Raises-ask refresh (λ o. o.refreshes))
      (λ done. Raises-raise_if (not done) database_error d)

pub ruleset raises_rules = (
  Raises-pure, Raises-raise, Raises-gets, Raises-or_raise, Raises-ask, Raises-if, Raises-raise_if,
  Raises-modify, Raises-when, Raises-do_commit, Raises-do_flush, Raises-do_refresh, Raises-bind,
)

-- What is allowed inside a `try` that handles `httpx.HTTPError`.
abbrev pub or_transport : (Error → Bool) → Error → Bool
or_transport may transport = true
or_transport may e = may e

pub Raises-except_transport :
    {A : Type 0} {may : Error → Bool} (m n : Exec A)
    → Raises (or_transport may) m
    → Raises may n
    → Raises may (except_transport m n)
unfolding except_transport
Raises-except_transport {A} {may} m n k l = record {
  at = λ w. ground (arith, k.at w, l.at (m w).1);
}
