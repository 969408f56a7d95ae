-- ===== src/Client/Menu/Sort.antt =====
-- `cmp_item_for_sort` on scores whose differences fit an `int32_t`: it is an order.
use janken.Base.{
  ℕ, ◌+◌, ◌%◌, ◌^◌, ◌<◌, ◌≤◌, ◌≡◌, ◌⊎◌, inl, inr, ◌*◌, ap, compare, Ordering, arith, sub32,
}
use janken.Text.{nick_cmp}
use janken.Text.Order.{nick_cmp-IsOrder}
use janken.Tree.Laws.{IsOrder, compare-IsOrder}
use janken.Client.{SortBy, by_name, by_score}
use janken.Client.Menu.{Item, sign, or_else, cmp_name, cmp_item_for_sort}

-- An `int32_t` from -2 ^ 30 to 2 ^ 30 - 1, by its pattern.
abbrev pub Small : ℕ → Type 0
Small n = (n < 2 ^ 30) ⊎ ((3 * 2 ^ 30 ≤ n) × (n < 2 ^ 32))

-- The number that is an `int32_t`'s value and 2 ^ 31.
abbrev pub biased : ℕ → ℕ
biased n = (n + 2 ^ 31) % 2 ^ 32

-- The order that is meant: higher scores first.
abbrev pub score_order : Item → Item → Ordering
score_order i j = compare (biased j.chl_score) (biased i.chl_score)

unfoldable pub item_order : SortBy → Item → Item → Ordering
item_order by_name i j = or_else (nick_cmp i.chl_user_name j.chl_user_name) (score_order i j)
item_order by_score i j = or_else (score_order i j) (nick_cmp i.chl_user_name j.chl_user_name)

sign-sub32 : (a b : ℕ) → Small a → Small b → sign (sub32 a b) ≡ compare (biased a) (biased b)
sign-sub32 a b (inl h) (inl g) = ground arith
sign-sub32 a b (inl h) (inr g) = ground arith
sign-sub32 a b (inr h) (inl g) = ground arith
sign-sub32 a b (inr h) (inr g) = ground arith

cmp_item_for_sort_lem :
    (sb : SortBy) (i j : Item)
    → Small i.chl_score
    → Small j.chl_score
    → cmp_item_for_sort sb i j ≡ item_order sb i j
unfolding cmp_item_for_sort item_order nick_cmp
cmp_item_for_sort_lem by_name i j h g =
    ap (or_else (cmp_name i j)) (sign-sub32 j.chl_score i.chl_score g h)
cmp_item_for_sort_lem by_score i j h g =
    ap (λ o. or_else o (cmp_name i j)) (sign-sub32 j.chl_score i.chl_score g h)

-- Orders are made of orders: by a key, turned around, and one after the other.
module _ {K L : Type 0} (f : K → L) {cmp : L → L → Ordering} (o : IsOrder cmp) where
  by_key-IsOrder : IsOrder (λ i j. cmp (f i) (f j))
  by_key-IsOrder = record {
    reflexive = λ a. o.reflexive (f a);
    flip_gt = λ a b. o.flip_gt (f a) (f b);
    flip_lt = λ a b. o.flip_lt (f a) (f b);
    trans = λ a b c. o.trans (f a) (f b) (f c);
    eq_left = λ a b c. o.eq_left (f a) (f b) (f c);
    eq_right = λ a b c. o.eq_right (f a) (f b) (f c);
  }

module _ {K : Type 0} {cmp : K → K → Ordering} (o : IsOrder cmp) where
  flip_eq : (a b : K) → cmp b a ≡ Ordering.eq → cmp a b ≡ Ordering.eq
  flip_eq a b h = ground (arith, o.flip_gt a b, o.flip_lt a b)

  turned-IsOrder : IsOrder (λ i j. cmp j i)
  turned-IsOrder = record {
    reflexive = o.reflexive;
    flip_gt = λ a b. o.flip_gt b a;
    flip_lt = λ a b. o.flip_lt b a;
    trans = λ a b c h g. o.trans c b a g h;
    eq_left = λ a b c h. o.eq_right a b c (flip_eq a b h);
    eq_right = λ a b c h. o.eq_left a b c (flip_eq a b h);
  }

module _ {K : Type 0} {f g : K → K → Ordering} (o : IsOrder f) (q : IsOrder g) where
  or_else-IsOrder : IsOrder (λ i j. or_else (f i j) (g i j))
  or_else-IsOrder = record {
    reflexive = λ a. ground (arith, o.reflexive a, q.reflexive a);
    flip_gt = λ a b h. ground (arith, o.flip_gt a b, q.flip_gt a b, flip_eq o b a);
    flip_lt = λ a b h. ground (arith, o.flip_lt a b, q.flip_lt a b, flip_eq o b a);
    trans = λ a b c h k.
        ground (arith, o.trans a b c, q.trans a b c, o.eq_left a b c, o.eq_right b c a);
    eq_left = λ a b c h. ground (arith, o.eq_left a b c, q.eq_left a b c);
    eq_right = λ a b c h. ground (arith, o.eq_right a b c, q.eq_right a b c);
  }

item_order-IsOrder : (sb : SortBy) → IsOrder (item_order sb)
unfolding item_order
item_order-IsOrder by_name =
    or_else-IsOrder (by_key-IsOrder (λ i. i.chl_user_name) nick_cmp-IsOrder)
      (by_key-IsOrder (λ i. biased i.chl_score) (turned-IsOrder compare-IsOrder))
item_order-IsOrder by_score =
    or_else-IsOrder (by_key-IsOrder (λ i. biased i.chl_score) (turned-IsOrder compare-IsOrder))
      (by_key-IsOrder (λ i. i.chl_user_name) nick_cmp-IsOrder)

-- On users whose scores lie between -2 ^ 30 and 2 ^ 30, `cmp_item_for_sort` is a total preorder of all
-- items: by the nickname up to letter case and then the higher score first, or by both the other way.
pub cmp_item_for_sort-IsOrder :
    (sb : SortBy) (i j : Item)
    → Small i.chl_score
    → Small j.chl_score
    → (cmp_item_for_sort sb i j ≡ item_order sb i j) × IsOrder (item_order sb)
cmp_item_for_sort-IsOrder sb i j h g = (cmp_item_for_sort_lem sb i j h g, item_order-IsOrder sb)
