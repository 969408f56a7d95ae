-- ===== src/Tree.antt =====
-- The search trees of <search.h> that lib and server keep (`tsearch`, `tfind`, `tdelete`,
-- `twalk_r`). A tree is the list of its pointers in the order of the comparison: what a binary
-- search meets on its way is decided by that order alone, and a walk that acts at `postorder` and
-- `leaf` visits a subtree's root between its two sides, so in this order.
-- `key` reads from memory what the comparison looks at.
pub mod Laws
use janken.Base.{ℕ, Ordering, Bool, true, false, Option, none, some, List, [], ◌∷◌}

module _ {K : Type 0} (cmp : K → K → Ordering) (key : ℕ → K) where
  unfoldable pub tfind : K → List ℕ → Option ℕ
  tfind k [] = none
  tfind k (p ∷ t) = elim (cmp k (key p)) [
    | Ordering.lt ↦ none
    | Ordering.eq ↦ some p
    | Ordering.gt ↦ tfind k t
  ]

  -- What stands at the node that `tsearch` returns, and the tree after it.
  unfoldable pub tsearch : ℕ → List ℕ → ℕ × List ℕ
  tsearch p [] = (p, p ∷ [])
  tsearch p (q ∷ t) = elim (cmp (key p) (key q)) [
    | Ordering.lt ↦ (p, p ∷ q ∷ t)
    | Ordering.eq ↦ (q, q ∷ t)
    | Ordering.gt ↦ (let (r, t') = tsearch p t in (r, q ∷ t'))
  ]

  -- Whether `tdelete` returns a node (it returns NULL if there is no such key), and the tree.
  unfoldable pub tdelete : K → List ℕ → Bool × List ℕ
  tdelete k [] = (false, [])
  tdelete k (p ∷ t) = elim (cmp k (key p)) [
    | Ordering.lt ↦ (false, p ∷ t)
    | Ordering.eq ↦ (true, t)
    | Ordering.gt ↦ (let (r, t') = tdelete k t in (r, p ∷ t'))
  ]
