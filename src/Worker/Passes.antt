-- ===== src/Worker/Passes.antt =====
-- A relation between the worlds before and after, through every step of one `poll_once`
-- (apps/worker/worker/main.py).
use prompt_patrol.Common.{ℕ, List, [], ◌∷◌, length}
use prompt_patrol.World.{
  World, Result, ok, err, Exec, feed, ◌>>=◌, in_session, Message, Queue, batches_queue, batches_dlq,
  pure,
}
use prompt_patrol.Aws.{receive}
use prompt_patrol.Worker.{
  process_body, process_messages, delete_if_done, record_body, record_messages, drain_dlq_once,
  poll_once, poll_max_messages, dlq_max_messages,
}

pub record IsPreorder (R : World → World → Type 0) : Type 0 where
  pub same : (w : World) → R w w
  pub trans : (u v w : World) → R u v → R v w → R u w

-- A step that relates the world before it to the world after it.
pub record Steady {A : Type 0} (R : World → World → Type 0) (m : Exec A) : Type 0 where
  pub at : (w : World) → R w (m w).1

module _ (R : World → World → Type 0) (o : IsPreorder R) where
  Steady-pure : {A : Type 0} (a : A) → Steady R (pure a)
  unfolding pure
  Steady-pure a = record { at = λ w. o.same w }

  Steady-bind :
      {A B : Type 0} {m : Exec A} {f : A → Exec B}
      → Steady R m
      → ((a : A) → Steady R (f a))
      → Steady R (m >>= f)
  unfolding ◌>>=◌
  Steady-bind {A} {m} {f} s t = record { at = λ w. after (m w) w (s.at w) }
    where
      after : (x : Result A × World) (w : World) → R w x.1 → R w (feed f x).1
      after (ok a, w') w r = o.trans w w' _ r ((t a).at w')
      after (err e, w') w r = r

  module _ (received : (q : Queue) (n : ℕ) → Steady R (receive q n))
      (processed : (m : Message)
        → Steady R (λ w. delete_if_done batches_queue m (process_body m.body w)))
      (recorded : (m : Message)
        → Steady R (λ w. delete_if_done batches_dlq m (record_body m.body w)))
      (closed : (m : Exec ℕ) → Steady R m → Steady R (in_session m)) where
    process_messages-Steady : (ms : List Message) → Steady R (process_messages ms)
    unfolding process_messages
    process_messages-Steady [] = Steady-pure tt
    process_messages-Steady (m ∷ ms) = Steady-bind (processed m) (λ _. process_messages-Steady ms)

    record_messages-Steady : (ms : List Message) → Steady R (record_messages ms)
    unfolding record_messages
    record_messages-Steady [] = Steady-pure tt
    record_messages-Steady (m ∷ ms) = Steady-bind (recorded m) (λ _. record_messages-Steady ms)

    drain_dlq_once-Steady : Steady R drain_dlq_once
    unfolding drain_dlq_once
    drain_dlq_once-Steady =
        Steady-bind (received batches_dlq dlq_max_messages)
          λ ms. Steady-bind (record_messages-Steady ms) (λ _. Steady-pure (length ms))

    pub poll_once-Steady : Steady R poll_once
    unfolding poll_once
    poll_once-Steady = Steady-bind (received batches_queue poll_max_messages) λ ms.
        Steady-bind (process_messages-Steady ms)
          λ _. Steady-bind (closed drain_dlq_once drain_dlq_once-Steady) (λ _. Steady-pure tt)
