-- ===== src/Tree/Laws/Order.antt =====
-- What a comparison has to satisfy for a search tree, and that of the ids does.
use janken.Base.{compare, Ordering, ◌≡◌, Bool, true, false, arith}

pub record IsOrder {K : Type 0} (cmp : K → K → Ordering) : Type 0 where
  pub reflexive : (a : K) → cmp a a ≡ Ordering.eq
  pub flip_gt : (a b : K) → cmp a b ≡ Ordering.gt → cmp b a ≡ Ordering.lt
  pub flip_lt : (a b : K) → cmp a b ≡ Ordering.lt → cmp b a ≡ Ordering.gt
  pub trans : (a b c : K) → cmp a b ≡ Ordering.lt → cmp b c ≡ Ordering.lt → cmp a c ≡ Ordering.lt
  pub eq_left : (a b c : K) → cmp a b ≡ Ordering.eq → cmp a c ≡ cmp b c
  pub eq_right : (a b c : K) → cmp a b ≡ Ordering.eq → cmp c a ≡ cmp c b

abbrev pub eqb : Ordering → Bool
eqb Ordering.lt = false
eqb Ordering.eq = true
eqb Ordering.gt = false

pub compare-IsOrder : IsOrder compare
compare-IsOrder = record {
  reflexive = λ a. ground arith;
  flip_gt = λ a b h. ground arith;
  flip_lt = λ a b h. ground arith;
  trans = λ a b c h g. ground arith;
  eq_left = λ a b c h. ground arith;
  eq_right = λ a b c h. ground arith;
}
