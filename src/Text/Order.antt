-- ===== src/Text/Order.antt =====
-- `nick_cmp` is a total preorder, as the search tree over the nicknames wants.
use janken.Base.{ℕ, zero, suc, Ordering, ◌≡◌, refl, List, arith}
use janken.Text.{strncasecmp, nick_cmp, other_chars, nickname_len}
use janken.Tree.Laws.{IsOrder}

strncasecmp_refl : (s : List ℕ) (n : ℕ) → strncasecmp s s n ≡ Ordering.eq
unfolding strncasecmp
strncasecmp_refl s zero = refl
strncasecmp_refl s (suc n) = ground (arith, strncasecmp_refl (other_chars s) n)

strncasecmp_flip_gt :
    (s t : List ℕ) (n : ℕ) → strncasecmp s t n ≡ Ordering.gt → strncasecmp t s n ≡ Ordering.lt
unfolding strncasecmp
strncasecmp_flip_gt s t zero h = ground arith
strncasecmp_flip_gt s t (suc n) h =
    ground (arith, strncasecmp_flip_gt (other_chars s) (other_chars t) n)

strncasecmp_flip_lt :
    (s t : List ℕ) (n : ℕ) → strncasecmp s t n ≡ Ordering.lt → strncasecmp t s n ≡ Ordering.gt
unfolding strncasecmp
strncasecmp_flip_lt s t zero h = ground arith
strncasecmp_flip_lt s t (suc n) h =
    ground (arith, strncasecmp_flip_lt (other_chars s) (other_chars t) n)

strncasecmp_trans :
    (s t u : List ℕ) (n : ℕ)
    → strncasecmp s t n ≡ Ordering.lt
    → strncasecmp t u n ≡ Ordering.lt
    → strncasecmp s u n ≡ Ordering.lt
unfolding strncasecmp
strncasecmp_trans s t u zero h g = ground arith
strncasecmp_trans s t u (suc n) h g =
    ground (arith, strncasecmp_trans (other_chars s) (other_chars t) (other_chars u) n)

pub strncasecmp_eq_left :
    (s t u : List ℕ) (n : ℕ)
    → strncasecmp s t n ≡ Ordering.eq
    → strncasecmp s u n ≡ strncasecmp t u n
unfolding strncasecmp
strncasecmp_eq_left s t u zero h = refl
strncasecmp_eq_left s t u (suc n) h =
    ground (arith, strncasecmp_eq_left (other_chars s) (other_chars t) (other_chars u) n)

strncasecmp_eq_right :
    (s t u : List ℕ) (n : ℕ)
    → strncasecmp s t n ≡ Ordering.eq
    → strncasecmp u s n ≡ strncasecmp u t n
unfolding strncasecmp
strncasecmp_eq_right s t u zero h = refl
strncasecmp_eq_right s t u (suc n) h =
    ground (arith, strncasecmp_eq_right (other_chars s) (other_chars t) (other_chars u) n)

-- `nick_cmp` orders the nicknames: the two results of unequal names are opposite, the order is
-- transitive, and equal names compare alike with every other.
pub nick_cmp-IsOrder : IsOrder nick_cmp
unfolding nick_cmp
nick_cmp-IsOrder = record {
  reflexive = λ s. strncasecmp_refl s nickname_len;
  flip_gt = λ s t. strncasecmp_flip_gt s t nickname_len;
  flip_lt = λ s t. strncasecmp_flip_lt s t nickname_len;
  trans = λ s t u. strncasecmp_trans s t u nickname_len;
  eq_left = λ s t u. strncasecmp_eq_left s t u nickname_len;
  eq_right = λ s t u. strncasecmp_eq_right s t u nickname_len;
}
