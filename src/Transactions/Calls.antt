-- ===== src/Transactions/Calls.antt =====
-- Calls of the outside world alone: they leave the session and the committed database as they are.
use prompt_patrol.Common.{
  Bool, true, false, Option, none, some, List, ◌≡◌, refl, ◌∙◌, arith, if◌then◌else◌,
}
use prompt_patrol.World.{
  Exec, World, Result, ok, err, Error, Outside, Call, pure, raise, gets, or_raise, raise_if, ask,
  feed, ◌>>=◌, except_transport,
}

pub record Silent {A : Type 0} (m : Exec A) : Type 0 where
  pub db : (w : World) → (m w).1.db ≡ w.db
  pub saved : (w : World) → (m w).1.saved ≡ w.saved

module _ {A : Type 0} where
  pub Silent-pure : (a : A) → Silent (pure a)
  unfolding pure
  Silent-pure a = record { db = λ w. refl; saved = λ w. refl }

  pub Silent-raise : (e : Error) → Silent (raise {A = A} e)
  unfolding raise
  Silent-raise e = record { db = λ w. refl; saved = λ w. refl }

  pub Silent-gets : (f : World → A) → Silent (gets f)
  unfolding gets
  Silent-gets f = record { db = λ w. refl; saved = λ w. refl }

  pub Silent-or_raise : (o : Option A) (e : Error) → Silent (or_raise o e)
  unfolding or_raise
  Silent-or_raise none e = Silent-raise e
  Silent-or_raise (some a) e = Silent-pure a

  pub Silent-ask : (c : Call) (f : Outside → List Call → A) → Silent (ask c f)
  unfolding ask
  Silent-ask c f = record { db = λ w. refl; saved = λ w. refl }

  pub Silent-if : (b : Bool) (m n : Exec A) → Silent m → Silent n → Silent (if b then m else n)
  Silent-if true m n km kn = km
  Silent-if false m n km kn = kn

  pub Silent-except_transport : (m n : Exec A) → Silent m → Silent n → Silent (except_transport m n)
  unfolding except_transport
  Silent-except_transport m n km kn = record {
    db = λ w. ground (arith, km.db w, kn.db (m w).1);
    saved = λ w. ground (arith, km.saved w, kn.saved (m w).1);
  }

pub Silent-raise_if : (b : Bool) (e : Error) → Silent (raise_if b e)
unfolding raise_if
Silent-raise_if true e = Silent-raise e
Silent-raise_if false e = Silent-pure tt

module _ {A B : Type 0} where
  pub Silent-bind :
      {m : Exec A} {f : A → Exec B} → Silent m → ((a : A) → Silent (f a)) → Silent (m >>= f)
  unfolding ◌>>=◌
  Silent-bind {m} {f} km kf = record {
    db = λ w. db-feed (m w) ∙ km.db w;
    saved = λ w. saved-feed (m w) ∙ km.saved w;
  }
    where
      db-feed : (x : Result A × World) → (feed f x).1.db ≡ x.1.db
      db-feed (ok a, w) = (kf a).db w
      db-feed (err e, w) = refl

      saved-feed : (x : Result A × World) → (feed f x).1.saved ≡ x.1.saved
      saved-feed (ok a, w) = (kf a).saved w
      saved-feed (err e, w) = refl

pub ruleset silent_rules = (
  Silent-pure, Silent-raise, Silent-gets, Silent-or_raise, Silent-ask, Silent-if,
  Silent-except_transport, Silent-raise_if, Silent-bind,
)
