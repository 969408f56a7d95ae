-- ===== src/Queue/Run.antt =====
-- Sequences of calls that do not block: the array queue against a list of at most `cap` entries.
use janken.Base.{
  ℕ, ◌≡◌, refl, ap, inl, inr, false, Option, none, some, List, [], ◌∷◌, ◌++◌, arith, length, ltb,
  if◌then◌else◌,
}
use janken.Queue.{
  Queue, waits, returns, QueueErr, qok, qfull, qempty, insert, queue_add, remove, queue_take,
}
use janken.Queue.Refine.{Holds, queue_add-Holds, queue_take-Holds}

-- A call with `block` false.
pub data Call (A : Type 0) : Type 0 where
  adds : A → Call A
  takes : Call A

abbrev pub Reply : Type 0 → Type 0
Reply A = QueueErr × Option A

module _ {A : Type 0} where
  -- A call that waits would end the sequence.
  pub run : Queue A → List (Call A) → List (Reply A)
  run q [] = []
  run q (adds e ∷ cs) = elim (queue_add q e false) [
    | waits ↦ []
    | returns r q' ↦ (r, none) ∷ run q' cs
  ]
  run q (takes ∷ cs) = elim (queue_take q false) [
    | waits ↦ []
    | returns r (out, q') ↦ (r, out) ∷ run q' cs
  ]

  -- The list that the queue stands for.
  pub run_fifo : (cap : ℕ) → List A → List (Call A) → List (Reply A)
  run_fifo cap xs [] = []
  run_fifo cap xs (adds e ∷ cs) =
      if ltb (length xs) cap
      then (qok, none) ∷ run_fifo cap (xs ++ e ∷ []) cs
      else (qfull, none) ∷ run_fifo cap xs cs
  run_fifo cap [] (takes ∷ cs) = (qempty, none) ∷ run_fifo cap [] cs
  run_fifo cap (x ∷ xs) (takes ∷ cs) = (qok, some x) ∷ run_fifo cap xs cs

  -- No sequence of calls that do not block tells a queue that holds `xs` from the bounded list `xs`.
  pub run-Holds :
      (cs : List (Call A)) (q : Queue A) (xs : List A)
      → Holds q xs
      → run q cs ≡ run_fifo q.cap xs cs
  unfolding run run_fifo insert remove
  run-Holds [] q xs v = refl
  run-Holds (adds e ∷ cs) q xs v = elim (queue_add-Holds q xs e false v) [
    | inl (h, r, v') ↦ ground (arith, h, r, run-Holds cs (insert q e) (xs ++ e ∷ []) v')
    | inr (h, r) ↦ ground (arith, h, r, run-Holds cs q xs v)
  ]
  run-Holds (takes ∷ cs) q xs v = elim (queue_take-Holds q xs false v) [
    | inl (x, ys, e, r, v') ↦
        rw (e, r, run) (ap (◌∷◌ (qok, some x)) (run-Holds cs (remove q) ys v'))
    | inr (e, r) ↦ rw (e, r, run) (ap (◌∷◌ (qempty, none)) (rw (← e) (run-Holds cs q xs v)))
  ]
