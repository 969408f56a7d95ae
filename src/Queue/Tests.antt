-- ===== src/Queue/Tests.antt =====
-- Runs of the queue, and its theorems at them.
use janken.Base.{ℕ, ◌+◌, ◌-◌, ◌<◌, ◌≡◌, refl, true, List, [], ◌∷◌, ltb→lt}
use janken.Queue.{Queue, queue_create, queue_add, queue_take, insert, remove}
use janken.Queue.Refine.{queue_create-Holds}
use janken.Queue.Run.{adds, takes, run, run_fifo, Call, run-Holds}
use janken.Queue.Monitor.{
  Monitor, Reach, here, next, add, take, take_again, signal_take, signal_add, start, after_add,
  after_take, deliver_take, deliver_add,
}
use janken.Queue.Monitor.Wakeup.{no_lost_wakeup}

-- A queue with two cells, filled, found full, emptied beyond the end of its array, found empty.
abbrev calls : List (Call ℕ)
calls = adds 1 ∷ adds 2 ∷ adds 3 ∷ takes ∷ adds 4 ∷ takes ∷ takes ∷ takes ∷ []

abbrev new_queue : Queue ℕ
new_queue = queue_create 2 (8 ∷ 9 ∷ [])

run-Holds_example : run new_queue calls ≡ run_fifo new_queue.cap [] calls
run-Holds_example =
    run-Holds calls new_queue []
      (queue_create-Holds 2 (8 ∷ 9 ∷ []) (ltb→lt _ _ refl) (ltb→lt _ _ refl))

-- A thread waits for an entry, another adds one, the first is woken and takes it, and then it waits
-- once more.
abbrev at_start : Monitor ℕ
at_start = start 2 (8 ∷ 9 ∷ [])

abbrev waiting : Monitor ℕ
waiting = after_take at_start (queue_take at_start.queue true)

abbrev added : Monitor ℕ
added = after_add waiting (queue_add waiting.queue 1 true)

abbrev woken : Monitor ℕ
woken = deliver_take added

abbrev taken : Monitor ℕ
taken =
    after_take (record woken { woken_take = woken.woken_take - 1 }) (queue_take woken.queue true)

abbrev told : Monitor ℕ
told = deliver_add taken

abbrev waiting_again : Monitor ℕ
waiting_again = after_take told (queue_take told.queue true)

-- It is a way that the threads can go, and it ends with no signal on its way.
way :
    (Reach at_start waiting_again)
    × (waiting_again.signals_take + waiting_again.woken_take ≡ 0)
    × (waiting_again.signals_add + waiting_again.woken_add ≡ 0)
unfolding start queue_create queue_take queue_add insert remove after_take after_add deliver_take
    deliver_add
way = (
  next
      (next
        (next
          (next (next (next here (take true refl)) (add 1 true refl))
            (signal_take (ltb→lt _ _ refl) refl))
          (take_again (ltb→lt _ _ refl) refl))
        (signal_add (ltb→lt _ _ refl) refl))
      (take true refl),
  refl,
  refl,
)

no_lost_wakeup_example :
    (0 < waiting_again.asleep_take → waiting_again.queue.sz ≡ 0)
    × (0 < waiting_again.asleep_add → waiting_again.queue.sz ≡ waiting_again.queue.cap)
no_lost_wakeup_example = no_lost_wakeup 2 (8 ∷ 9 ∷ []) way.0 way.1 way.2
