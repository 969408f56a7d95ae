-- ===== src/Queue.antt =====
-- lib/queue.c: the bounded queue between the receiving threads and the packet handler.
-- One call of `queue_add` or `queue_take` is what it does while it holds the mutex. A call that has
-- to wait (`pthread_cond_wait` releases the mutex) is the outcome `waits`; it changes nothing and
-- tests again when it is woken, which `Queue.Monitor` models thread by thread.
pub mod Refine
pub mod Run
pub mod Monitor
pub mod Tests
use janken.Base.{
  ℕ, zero, ◌+◌, ◌-◌, ◌%◌, Bool, Option, none, some, List, set, get_elem?, ◌==◌, if◌then◌else◌,
}

-- `queue_err_t`
pub data QueueErr : Type 0 where
  qok qmem qfull qempty : QueueErr

-- `queue_t`. The entries are pointers, which are only moved.
pub record Queue (A : Type 0) : Type 0 where
  pub cap : ℕ
  pub lo : ℕ
  pub hi : ℕ
  pub sz : ℕ
  pub cells : List A

-- How a call leaves the mutex: by waiting on a condition, or by returning.
pub data Outcome (R : Type 0) : Type 0 where
  waits : Outcome R
  returns : QueueErr → R → Outcome R

module _ {A : Type 0} where
  -- The array comes from `malloc`: `storage` is what it happens to hold.
  unfoldable pub queue_create : (cap : ℕ) (storage : List A) → Queue A
  queue_create cap storage = record { cap = cap; lo = 0; hi = 0; sz = 0; cells = storage }

  -- The write, the new `hi` and the new size, where there is room.
  unfoldable pub insert : Queue A → A → Queue A
  insert q e = record q { cells = set q.cells q.hi e; hi = (q.hi + 1) % q.cap; sz = q.sz + 1 }

  unfoldable pub queue_add : Queue A → A → (block : Bool) → Outcome (Queue A)
  unfolding insert
  queue_add q e block =
      if q.cap == q.sz then (if block then waits else returns qfull q) else returns qok (insert q e)

  -- The new `lo` and the new size, where there is an entry.
  unfoldable pub remove : Queue A → Queue A
  remove q = record q { lo = (q.lo + 1) % q.cap; sz = q.sz - 1 }

  -- What goes through `*p` is an option: `none` where nothing is written to it.
  unfoldable pub queue_take : Queue A → (block : Bool) → Outcome (Option A × Queue A)
  unfolding remove
  queue_take q block =
      if q.sz == 0
      then (if block then waits else returns qempty (none, q))
      else returns qok (get_elem? q.cells q.lo, remove q)
