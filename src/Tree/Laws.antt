-- ===== src/Tree/Laws.antt =====
-- What the server relies on in its search trees: lookup after insertion and removal, membership,
-- order and size.
mod Order
use janken.Base.{
  ℕ, suc, ◌+◌, compare, Ordering, ◌≡◌, refl, ◌⊎◌, Bool, true, false, not, ◌&&◌, ◌||◌, Option, none,
  some, List, [], ◌∷◌, arith, ◌==◌, if◌then◌else◌, length, ==_refl, subst, sym,
}
use janken.Tree.{tfind, tsearch, tdelete}
pub use Order.{IsOrder, compare-IsOrder, eqb}

abbrev pub mem : ℕ → List ℕ → Bool
mem p [] = false
mem p (q ∷ t) = p == q || mem p t

module _ {K : Type 0} (cmp : K → K → Ordering) (key : ℕ → K) where
  abbrev pub Below : K → List ℕ → Type 0
  Below k [] = Unit {0}
  Below k (q ∷ t) = (cmp k (key q) ≡ Ordering.lt) × Below k t

  -- The keys grow strictly along the tree.
  abbrev pub Sorted : List ℕ → Type 0
  Sorted [] = Unit {0}
  Sorted (p ∷ t) = Below (key p) t × Sorted t

module _ {K : Type 0} {cmp : K → K → Ordering} (o : IsOrder cmp) (key : ℕ → K) where
  pub Below-trans :
      (a b : K) (t : List ℕ) → cmp a b ≡ Ordering.lt → Below cmp key b t → Below cmp key a t
  Below-trans a b [] h s = tt
  Below-trans a b (q ∷ t) h s = (o.trans a b (key q) h s.0, Below-trans a b t h s.1)

  Below-eq : (a b : K) (t : List ℕ) → cmp a b ≡ Ordering.eq → Below cmp key b t → Below cmp key a t
  Below-eq a b [] h s = tt
  Below-eq a b (q ∷ t) h s = (ground (arith, o.eq_left a b (key q)), Below-eq a b t h s.1)

  pub tfind-Below : (k : K) (t : List ℕ) → Below cmp key k t → tfind cmp key k t ≡ none
  unfolding tfind
  tfind-Below k [] s = refl
  tfind-Below k (q ∷ t) s = ground arith

  Below-mem :
      (k : K) (p : ℕ) (t : List ℕ)
      → Below cmp key k t
      → mem p t ≡ true
      → cmp k (key p) ≡ Ordering.lt
  Below-mem k p [] s h = ground arith
  Below-mem k p (q ∷ t) s h = ground (arith, Below-mem k p t s.1)

  -- A pointer's own key is not below its tree twice.
  not_mem-Below : (p : ℕ) (t : List ℕ) → Below cmp key (key p) t → mem p t ≡ false
  not_mem-Below p t s = ground (arith, Below-mem (key p) p t s, o.reflexive (key p))

  pub tfind-mem :
      (p : ℕ) (t : List ℕ) → Sorted cmp key t → mem p t ≡ true → tfind cmp key (key p) t ≡ some p
  unfolding tfind
  tfind-mem p [] s h = ground arith
  tfind-mem p (q ∷ t) s h = ground (
    arith,
    o.reflexive (key p),
    Below-mem (key q) p t s.0,
    o.flip_lt (key q) (key p),
    tfind-mem p t s.1,
  )

  pub tfind_sound :
      (k : K) (t : List ℕ) (p : ℕ)
      → tfind cmp key k t ≡ some p
      → (mem p t ≡ true) × (cmp k (key p) ≡ Ordering.eq)
  unfolding tfind
  tfind_sound k [] p h = ground arith
  tfind_sound k (q ∷ t) p h = ground (arith, tfind_sound k t p)

  tsearch-Below :
      (k : K) (p : ℕ) (t : List ℕ)
      → cmp k (key p) ≡ Ordering.lt
      → Below cmp key k t
      → Below cmp key k (tsearch cmp key p t).1
  unfolding tsearch
  tsearch-Below k p [] h s = (h, tt)
  tsearch-Below k p (q ∷ t) h s = ground (arith, tsearch-Below k p t h)

  pub tsearch-Sorted :
      (p : ℕ) (t : List ℕ) → Sorted cmp key t → Sorted cmp key (tsearch cmp key p t).1
  unfolding tsearch
  tsearch-Sorted p [] s = (tt, tt)
  tsearch-Sorted p (q ∷ t) s = ground (
    arith,
    tsearch-Sorted p t s.1,
    Below-trans (key p) (key q) t,
    tsearch-Below (key q) p t,
    o.flip_gt (key p) (key q),
  )

  -- A key that is there already stays with its node.
  pub tsearch-found :
      (p : ℕ) (t : List ℕ) (q : ℕ) → tfind cmp key (key p) t ≡ some q → tsearch cmp key p t ≡ (q, t)
  unfolding tsearch tfind
  tsearch-found p [] q h = ground arith
  tsearch-found p (r ∷ t) q h = ground (arith, tsearch-found p t q)

  -- A new key gets a node of its own.
  pub tsearch-new :
      (p : ℕ) (t : List ℕ)
      → tfind cmp key (key p) t ≡ none
      → ((tsearch cmp key p t).0 ≡ p) × (length (tsearch cmp key p t).1 ≡ suc (length t))
  unfolding tsearch tfind
  tsearch-new p [] h = (refl, refl)
  tsearch-new p (r ∷ t) h = ground (arith, tsearch-new p t)

  pub mem-tsearch :
      (p q : ℕ) (t : List ℕ)
      → tfind cmp key (key p) t ≡ none
      → mem q (tsearch cmp key p t).1 ≡ (q == p || mem q t)
  unfolding tsearch tfind
  mem-tsearch p q [] h = refl
  mem-tsearch p q (r ∷ t) h = ground (arith, mem-tsearch p q t)

  pub tdelete-Below :
      (k k' : K) (t : List ℕ) → Below cmp key k t → Below cmp key k (tdelete cmp key k' t).1
  unfolding tdelete
  tdelete-Below k k' [] s = tt
  tdelete-Below k k' (q ∷ t) s = ground (arith, tdelete-Below k k' t)

  pub tdelete-Sorted :
      (k : K) (t : List ℕ) → Sorted cmp key t → Sorted cmp key (tdelete cmp key k t).1
  unfolding tdelete
  tdelete-Sorted k [] s = tt
  tdelete-Sorted k (q ∷ t) s = ground (arith, tdelete-Sorted k t, tdelete-Below (key q) k t)

  pub tdelete-none :
      (k : K) (t : List ℕ) → tfind cmp key k t ≡ none → tdelete cmp key k t ≡ (false, t)
  unfolding tdelete tfind
  tdelete-none k [] h = refl
  tdelete-none k (q ∷ t) h = ground (arith, tdelete-none k t)

  pub tdelete-found :
      (k : K) (t : List ℕ) (p : ℕ)
      → tfind cmp key k t ≡ some p
      → ((tdelete cmp key k t).0 ≡ true) × (suc (length (tdelete cmp key k t).1) ≡ length t)
  unfolding tdelete tfind
  tdelete-found k [] p h = ground arith
  tdelete-found k (q ∷ t) p h = ground (arith, tdelete-found k t p)

  -- Removing the key of `p` takes out `p` alone.
  pub mem-tdelete :
      (k : K) (t : List ℕ) (p q : ℕ)
      → Sorted cmp key t
      → tfind cmp key k t ≡ some p
      → mem q (tdelete cmp key k t).1 ≡ (not (q == p) && mem q t)
  unfolding tdelete tfind
  mem-tdelete k [] p q s h = ground arith
  mem-tdelete k (r ∷ t) p q s h =
      ground (arith, not_mem-Below r t s.0, tfind_sound k t p, mem-tdelete k t p q s.1)

  -- Lookup after an insertion.
  pub tfind-tsearch :
      (p : ℕ) (t : List ℕ) (k : K)
      → Sorted cmp key t
      → tfind cmp key (key p) t ≡ none
      → tfind cmp key k (tsearch cmp key p t).1
        ≡ (if eqb (cmp k (key p)) then some p else tfind cmp key k t)
  unfolding tsearch tfind
  tfind-tsearch p [] k s h = ground arith
  tfind-tsearch p (q ∷ t) k s h = ground (
    arith,
    tfind-tsearch p t k s.1,
    tfind-Below (key p) t,
    o.flip_gt (key p) (key q),
    o.flip_lt (key p) (key q),
    o.trans k (key p) (key q),
    o.eq_left k (key p) (key q),
  )

  -- Lookup after a removal.
  pub tfind-tdelete :
      (k : K) (t : List ℕ) (p : ℕ) (k' : K)
      → Sorted cmp key t
      → tfind cmp key k t ≡ some p
      → tfind cmp key k' (tdelete cmp key k t).1
        ≡ (if eqb (cmp k' (key p)) then none else tfind cmp key k' t)
  unfolding tdelete tfind
  tfind-tdelete k [] p k' s h = ground arith
  tfind-tdelete k (q ∷ t) p k' s h = ground (
    arith,
    tfind-tdelete k t p k' s.1,
    tfind-Below k' t,
    Below-trans k' (key q) t,
    Below-eq k' (key q) t,
    tfind_sound k t p,
    Below-mem (key q) p t s.0,
    o.eq_left k' (key q) (key p),
    o.trans k' (key q) (key p),
  )

module _ {K : Type 0} (cmp : K → K → Ordering) (key key' : ℕ → K) where
  Below-agree :
      (k : K) (t : List ℕ)
      → ((q : ℕ) → mem q t ≡ true → key' q ≡ key q)
      → Below cmp key k t
      → Below cmp key' k t
  Below-agree k [] e s = tt
  Below-agree k (q ∷ t) e s =
      (rw (e q (ground (arith, ==_refl q))) s.0, Below-agree k t (λ r h. e r (ground arith)) s.1)

  -- The order of a tree is that of its own pointers' keys.
  pub Sorted-agree :
      (t : List ℕ)
      → ((q : ℕ) → mem q t ≡ true → key' q ≡ key q)
      → Sorted cmp key t
      → Sorted cmp key' t
  Sorted-agree [] e s = tt
  Sorted-agree (q ∷ t) e s = (
    rw (e q (ground (arith, ==_refl q))) (Below-agree (key q) t (λ r h. e r (ground arith)) s.0),
    Sorted-agree t (λ r h. e r (ground arith)) s.1,
  )

  -- So is the way of a search.
  pub tfind_agree :
      (k : K) (t : List ℕ)
      → ((q : ℕ) → mem q t ≡ true → key' q ≡ key q)
      → tfind cmp key' k t ≡ tfind cmp key k t
  unfolding tfind
  tfind_agree k [] e = refl
  tfind_agree k (q ∷ t) e =
      ground (arith, e q (ground (arith, ==_refl q)), tfind_agree k t (λ r h. e r (ground arith)))

pub Sorted-eq :
    {K : Type 0} (cmp : K → K → Ordering) {key key' : ℕ → K} {t t' : List ℕ}
    → key' ≡ key
    → t' ≡ t
    → Sorted cmp key t
    → Sorted cmp key' t'
Sorted-eq cmp {key' = key'} {t = t} e f s =
    subst (Sorted cmp key') (sym f) (subst (λ k. Sorted cmp k t) (sym e) s)
