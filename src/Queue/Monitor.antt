-- ===== src/Queue/Monitor.antt =====
-- The calls of many threads on one queue: the mutex, the condition variables `conde` and `condf`,
-- and the signal that each call sends after it has released the mutex. A step is what one thread
-- does while it holds the mutex, the delivery of one signal, or a spurious wake-up.
pub mod Wakeup
use janken.Base.{
  ℕ, suc, ◌+◌, ◌-◌, ◌≤◌, ◌<◌, ◌≡◌, ◌≢◌, refl, Bool, true, false, Option, none, some, List, arith,
  length, ◌==◌, if◌then◌else◌,
}
use janken.Queue.{
  Queue, Outcome, waits, returns, qok, qfull, qempty, QueueErr, queue_create, insert, queue_add,
  remove, queue_take,
}

module _ (A : Type 0) where
  -- The queue, and on each side (adding, taking) the threads that sleep on its condition, those that
  -- were woken and must test again, and the signals that are on their way to it.
  pub record Monitor : Type 0 where
    pub queue : Queue A
    pub asleep_add : ℕ
    pub woken_add : ℕ
    pub signals_add : ℕ
    pub asleep_take : ℕ
    pub woken_take : ℕ
    pub signals_take : ℕ

module _ {A : Type 0} where
  -- A blocking call of `queue_add` reaches its test: it sleeps on `conde`, or it returns and will
  -- signal `condf`.
  unfoldable pub after_add : Monitor A → Outcome (Queue A) → Monitor A
  after_add m waits = record m { asleep_add = suc m.asleep_add }
  after_add m (returns r q) = record m { queue = q; signals_take = suc m.signals_take }

  unfoldable pub after_take : Monitor A → Outcome (Option A × Queue A) → Monitor A
  after_take m waits = record m { asleep_take = suc m.asleep_take }
  after_take m (returns r (out, q)) = record m { queue = q; signals_add = suc m.signals_add }

  -- `pthread_cond_signal(&condf)`: a sleeping thread is woken, if there is one.
  unfoldable pub deliver_take : Monitor A → Monitor A
  deliver_take m =
      if m.asleep_take == 0 then record m { signals_take = m.signals_take - 1 } else record m {
        signals_take = m.signals_take - 1;
        asleep_take = m.asleep_take - 1;
        woken_take = suc m.woken_take;
      }

  unfoldable pub deliver_add : Monitor A → Monitor A
  deliver_add m =
      if m.asleep_add == 0 then record m { signals_add = m.signals_add - 1 } else record m {
        signals_add = m.signals_add - 1;
        asleep_add = m.asleep_add - 1;
        woken_add = suc m.woken_add;
      }

  pub data Step (m : Monitor A) (n : Monitor A) : Type 0 where
    add : (e : A) (block : Bool) → n ≡ after_add m (queue_add m.queue e block) → Step m n
    take : (block : Bool) → n ≡ after_take m (queue_take m.queue block) → Step m n
    add_again :
        (e : A)
        → 0 < m.woken_add
        → n ≡ after_add (record m { woken_add = m.woken_add - 1 }) (queue_add m.queue e true)
        → Step m n
    take_again :
        0 < m.woken_take
        → n ≡ after_take (record m { woken_take = m.woken_take - 1 }) (queue_take m.queue true)
        → Step m n
    signal_take : 0 < m.signals_take → n ≡ deliver_take m → Step m n
    signal_add : 0 < m.signals_add → n ≡ deliver_add m → Step m n
    spurious_take :
        0 < m.asleep_take
        → n ≡ record m { asleep_take = m.asleep_take - 1; woken_take = suc m.woken_take }
        → Step m n
    spurious_add :
        0 < m.asleep_add
        → n ≡ record m { asleep_add = m.asleep_add - 1; woken_add = suc m.woken_add }
        → Step m n

  pub data Reach (m : Monitor A) : Monitor A → Type 0 where
    here : Reach m m
    next : {n o : Monitor A} → Reach m n → Step n o → Reach m o

  -- The start: a new queue, and no thread.
  unfoldable pub start : (cap : ℕ) (storage : List A) → Monitor A
  unfolding queue_create
  start cap storage = record {
    queue = queue_create cap storage;
    asleep_add = 0;
    woken_add = 0;
    signals_add = 0;
    asleep_take = 0;
    woken_take = 0;
    signals_take = 0;
  }
