-- ===== src/Queue/Refine.antt =====
-- The queue against a FIFO: what an array with two indices holds is a list, oldest first.
use janken.Base.{
  ℕ, zero, suc, ◌+◌, ◌-◌, ◌%◌, ◌≤◌, ◌<◌, ◌≡◌, ◌≢◌, refl, sym, ◌∙◌, ap, Bool, none, some, List, [],
  ◌∷◌, ◌++◌, arith, length, get_elem?, set, length-set, get_elem?-set_self, get_elem?-set_ne,
  length-append, if◌then◌else◌, ◌⊎◌, inl, inr,
}
use native.Mathlib.Nat.{add-zero, mod-add-mod, mod-eq_of_lt, mod-eq-sub-mod}
use native.Mathlib.Decide.{dec_lt}
use janken.Queue.{
  Queue, waits, returns, qok, qfull, qempty, queue_create, insert, queue_add, remove, queue_take,
}

module _ {A : Type 0} where
  -- `q` is a sound queue whose entries, oldest first, are `xs`.
  pub record Holds (q : Queue A) (xs : List A) : Type 0 where
    pub room : 0 < q.cap
    pub storage : q.cap ≤ length q.cells
    pub lo_in : q.lo < q.cap
    pub size : q.sz ≡ length xs
    pub fits : q.sz ≤ q.cap
    pub hi_at : q.hi ≡ (q.lo + q.sz) % q.cap
    pub slot : (i : ℕ) → i < q.sz → get_elem? q.cells ((q.lo + i) % q.cap) ≡ get_elem? xs i

  pub get_elem?-append_left :
      (xs ys : List A) (i : ℕ) → i < length xs → get_elem? (xs ++ ys) i ≡ get_elem? xs i
  get_elem?-append_left [] ys i h = absurd (omega arith)
  get_elem?-append_left (x ∷ xs) ys zero h = refl
  get_elem?-append_left (x ∷ xs) ys (suc i) h = get_elem?-append_left xs ys i (omega arith)

  pub get_elem?-append_end : (xs : List A) (e : A) → get_elem? (xs ++ e ∷ []) (length xs) ≡ some e
  get_elem?-append_end [] e = refl
  get_elem?-append_end (x ∷ xs) e = get_elem?-append_end xs e

-- An index that has gone at most once round the array.
pub wrap_cases :
    (cap lo k : ℕ)
    → lo < cap
    → k ≤ cap
    → ((lo + k) % cap ≡ lo + k) × (lo + k < cap) ⊎ ((lo + k) % cap + cap ≡ lo + k)
wrap_cases cap lo k hl hk = elim (dec_lt (lo + k) cap) [
  | yes p ↦ inl (mod-eq_of_lt p, p)
  | no p ↦ inr (
      omega (
        arith,
        mod-eq-sub-mod {n = lo + k} {m = cap} (omega arith),
        mod-eq_of_lt {n = lo + k - cap} {m = cap} (omega arith),
      ))
]

-- Two offsets below the capacity reach different cells.
offset-ne : (cap lo i j : ℕ) → lo < cap → i < j → j < cap → (lo + j) % cap ≢ (lo + i) % cap
offset-ne cap lo i j hl hi hj =
    omega (arith, wrap_cases cap lo i hl (omega arith), wrap_cases cap lo j hl (omega arith))

next_offset : (cap lo i : ℕ) → ((lo + 1) % cap + i) % cap ≡ (lo + suc i) % cap
next_offset cap lo i = rw mod-add-mod (ap (λ k. k % cap) (omega arith))

module _ {A : Type 0} where
  -- A new queue is empty.
  pub queue_create-Holds :
      (cap : ℕ) (storage : List A)
      → 0 < cap
      → cap ≤ length storage
      → Holds (queue_create cap storage) []
  unfolding queue_create
  queue_create-Holds cap storage h r = record {
    room = h;
    storage = r;
    lo_in = h;
    size = refl;
    fits = omega arith;
    hi_at = sym (mod-eq_of_lt h);
    slot = λ i hi. absurd (omega arith);
  }

  last_slot :
      (cells xs : List A) (e : A) (h i j : ℕ)
      → h < length cells
      → j ≡ h
      → i ≡ length xs
      → get_elem? (set cells h e) j ≡ get_elem? (xs ++ e ∷ []) i
  last_slot cells xs e h i j lt ej ei =
      rw (ej, ei) (get_elem?-set_self cells h e lt ∙ sym (get_elem?-append_end xs e))

  insert-slot :
      (q : Queue A) (xs : List A) (e : A)
      → Holds q xs
      → q.sz < q.cap
      → (i : ℕ) → i < q.sz + 1
      → get_elem? (set q.cells q.hi e) ((q.lo + i) % q.cap) ≡ get_elem? (xs ++ e ∷ []) i
  insert-slot q xs e v h i hi = elim (dec_lt i q.sz) [
    | yes p ↦
        get_elem?-set_ne q.cells q.hi ((q.lo + i) % q.cap) e
          (λ eq. offset-ne q.cap q.lo i q.sz v.lo_in p h (sym v.hi_at ∙ eq))
        ∙ v.slot i p
        ∙ sym (get_elem?-append_left xs (e ∷ []) i (omega (arith, v.size)))
    | no p ↦
        let last : i ≡ q.sz = omega arith in
        last_slot q.cells xs e q.hi i ((q.lo + i) % q.cap)
          (omega (arith, v.hi_at, v.storage, v.room)) (rw last (sym v.hi_at)) (last ∙ v.size)
  ]

  insert-Holds :
      (q : Queue A) (xs : List A) (e : A)
      → Holds q xs
      → q.sz < q.cap
      → Holds (insert q e) (xs ++ e ∷ [])
  unfolding insert
  insert-Holds q xs e v h = record {
    room = v.room;
    storage = omega (arith, length-set q.cells q.hi e, v.storage);
    lo_in = v.lo_in;
    size = omega (arith, length-append xs (e ∷ []), v.size);
    fits = omega arith;
    hi_at = rw v.hi_at (mod-add-mod (q.lo + q.sz) q.cap 1 ∙ ap (λ k. k % q.cap) (omega arith));
    slot = insert-slot q xs e v h;
  }

  remove-Holds : (q : Queue A) (x : A) (xs : List A) → Holds q (x ∷ xs) → Holds (remove q) xs
  unfolding remove
  remove-Holds q x xs v = record {
    room = v.room;
    storage = v.storage;
    lo_in = omega (arith, v.room);
    size = omega (arith, v.size);
    fits = omega (arith, v.fits);
    hi_at =
        v.hi_at
        ∙ sym
            (mod-add-mod (q.lo + 1) q.cap (q.sz - 1) ∙ ap (λ k. k % q.cap) (omega (arith, v.size)));
    slot = λ i hi. rw (next_offset q.cap q.lo i) (v.slot (suc i) (omega (arith, v.size)));
  }

  head_slot :
      (q : Queue A) (x : A) (ys : List A) → Holds q (x ∷ ys) → get_elem? q.cells q.lo ≡ some x
  head_slot q x ys v =
      let at : (q.lo + 0) % q.cap ≡ q.lo = rw (add-zero q.lo) (mod-eq_of_lt v.lo_in) in
      rw at at (v.slot 0 (omega (arith, v.size)))

  -- `queue_add` on a queue that holds `xs` puts its entry behind them where there is room, and
  -- otherwise waits if it may block and leaves the queue as it was with QFULL if not.
  pub queue_add-Holds :
      (q : Queue A) (xs : List A) (e : A) (block : Bool)
      → Holds q xs
      → ((length xs < q.cap)
          × (queue_add q e block ≡ returns qok (insert q e))
          × Holds (insert q e) (xs ++ e ∷ []))
        ⊎ ((length xs ≡ q.cap) × (queue_add q e block ≡ (if block then waits else returns qfull q)))
  unfolding queue_add
  queue_add-Holds q xs e block v = elim (dec_lt q.sz q.cap) [
    | yes p ↦ inl (omega (arith, v.size), ground arith, insert-Holds q xs e v p)
    | no p ↦ inr (omega (arith, v.size, v.fits), ground (arith, v.fits))
  ]

  -- `queue_take` on a queue that holds `xs` gives the oldest of them and leaves the rest; on an
  -- empty queue it waits if it may block, and gives QEMPTY and writes nothing if not.
  pub queue_take-Holds :
      (q : Queue A) (xs : List A) (block : Bool)
      → Holds q xs
      → ((x : A) × (ys : List A) × (xs ≡ x ∷ ys)
          × (queue_take q block ≡ returns qok (some x, remove q))
          × Holds (remove q) ys)
        ⊎ ((xs ≡ []) × (queue_take q block ≡ (if block then waits else returns qempty (none, q))))
  unfolding queue_take
  queue_take-Holds q [] block v = inr (refl, ground (arith, v.size))
  queue_take-Holds q (x ∷ ys) block v =
      inl (x, ys, refl, ground (arith, v.size, head_slot q x ys v), remove-Holds q x ys v)
