-- ===== src/Queue/Monitor/Wakeup.antt =====
-- No wake-up is lost: the signals of lib/queue.c suffice, although `pthread_cond_signal` wakes one
-- thread only and is sent outside the mutex.
use janken.Base.{ℕ, ◌+◌, ◌≤◌, ◌<◌, ◌≡◌, List, arith}
use janken.Queue.{queue_create, insert, queue_add, remove, queue_take}
use janken.Queue.Monitor.{
  Monitor, Step, add, take, add_again, take_again, signal_take, signal_add, spurious_take,
  spurious_add, Reach, here, next, after_add, after_take, deliver_take, deliver_add, start,
}

module _ {A : Type 0} where
  -- While a thread sleeps for an entry, every entry has a signal on its way or a woken thread; and
  -- the same for the free cells on the other side.
  pub record Inv (m : Monitor A) : Type 0 where
    pub fits : m.queue.sz ≤ m.queue.cap
    pub takers : 0 < m.asleep_take → m.queue.sz ≤ m.signals_take + m.woken_take
    pub adders : 0 < m.asleep_add → m.queue.cap ≤ m.queue.sz + m.signals_add + m.woken_add

  start-Inv : (cap : ℕ) (storage : List A) → Inv (start cap storage)
  unfolding start queue_create
  start-Inv cap storage = omega arith

  Step-Inv : {m n : Monitor A} → Step m n → Inv m → Inv n
  unfolding after_add after_take deliver_take deliver_add queue_add queue_take insert remove
  Step-Inv (add e block p) v = rw p (ground arith)
  Step-Inv (take block p) v = rw p (ground arith)
  Step-Inv (add_again e h p) v = rw p (ground arith)
  Step-Inv (take_again h p) v = rw p (ground arith)
  Step-Inv (signal_take h p) v = rw p (ground arith)
  Step-Inv (signal_add h p) v = rw p (ground arith)
  Step-Inv (spurious_take h p) v = rw p (ground arith)
  Step-Inv (spurious_add h p) v = rw p (ground arith)

  Reach-Inv : {m n : Monitor A} → Inv m → Reach m n → Inv n
  Reach-Inv v here = v
  Reach-Inv v (next r st) = Step-Inv st (Reach-Inv v r)

  -- In every state that the threads can reach from a new queue and in which all signals are delivered
  -- and every woken thread has tested again, threads sleep on `condf` only while the queue is empty,
  -- and on `conde` only while it is full.
  pub no_lost_wakeup :
      (cap : ℕ) (storage : List A) {m : Monitor A}
      → Reach (start cap storage) m
      → m.signals_take + m.woken_take ≡ 0
      → m.signals_add + m.woken_add ≡ 0
      → (0 < m.asleep_take → m.queue.sz ≡ 0) × (0 < m.asleep_add → m.queue.sz ≡ m.queue.cap)
  no_lost_wakeup cap storage {m} r st sa =
      let v = Reach-Inv (start-Inv cap storage) r in
      (λ h. omega (arith, v.takers h), λ h. omega (arith, v.adders h, v.fits))
