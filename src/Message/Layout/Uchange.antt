-- ===== src/Message/Layout/Uchange.antt =====
-- The conversion of UCHANGE, whose loop reads its bound from the packet.
use janken.Base.{
  ℕ, zero, suc, ◌+◌, ◌-◌, ◌*◌, min, ◌≤◌, ◌<◌, ◌≡◌, refl, sym, ◌∙◌, ap, Bool, true, false, arith,
}
use janken.Message.{uchange_max_ucnt}
use janken.Message.Layout.{Memory, Field, conv, convs, user_at, user_fields, conv_uchange, u32_at}
use janken.Message.Layout.Swap.{
  conv-conv, apart, apart_all, disjoint, convs-conv, convs-convs, Alike, conv-Alike,
}

-- A member before the users' ones.
pub user_fields-apart :
    (f : Field) (i n : ℕ) → f.0 + f.1 ≤ user_at i + 32 → apart_all f (user_fields i n) ≡ true
unfolding user_fields apart_all apart
user_fields-apart f i zero h = refl
user_fields-apart f i (suc n) h = ground (arith, user_fields-apart f (i + 1) n (omega arith))

user_fields-disjoint : (i n : ℕ) → disjoint (user_fields i n) ≡ true
unfolding user_fields disjoint apart_all apart
user_fields-disjoint i zero = refl
user_fields-disjoint i (suc n) = ground (
  arith,
  user_fields-disjoint (i + 1) n,
  user_fields-apart (user_at i + 32, 2) (i + 1) n (omega arith),
  user_fields-apart (user_at i + 34, 2) (i + 1) n (omega arith),
)

-- What stands before a user's id is left alone.
pub user_fields-before :
    (little : Bool) (i n : ℕ) (m : Memory) (j : ℕ)
    → j < user_at i + 32
    → convs little (user_fields i n) m j ≡ m j
unfolding user_fields convs conv
user_fields-before little i zero m j h = refl
user_fields-before little i (suc n) m j h =
    user_fields-before little (i + 1) n _ j (omega arith) ∙ ground arith

-- The loop over more users is the loop over the first ones and then over the others.
pub user_fields-split :
    (little : Bool) (i n k : ℕ) (m : Memory)
    → convs little (user_fields i (n + k)) m
      ≡ convs little (user_fields (i + n) k) (convs little (user_fields i n) m)
unfolding user_fields convs
user_fields-split little i zero k m =
    ap (λ n. convs little (user_fields i n) m) (add_0 k)
    ∙ ap (λ j. convs little (user_fields j k) m) (omega arith)
  where
    add_0 : (n : ℕ) → 0 + n ≡ n
    add_0 n = omega arith
user_fields-split little i (suc n) k m =
    ap (λ l. convs little (user_fields i l) m) (suc_add n k)
    ∙ user_fields-split little (i + 1) n k _
    ∙ ap
        (λ j. convs little (user_fields j k) (
          convs little (user_fields (i + 1) n)
            (conv little (user_at i + 34, 2) (conv little (user_at i + 32, 2) m))))
        (shift i n)
  where
    suc_add : (a b : ℕ) → suc a + b ≡ suc (a + b)
    suc_add a b = omega arith

    shift : (a b : ℕ) → a + 1 + b ≡ a + suc b
    shift a b = omega arith

pub user_fields-Alike :
    (little : Bool) (i k b : ℕ) (m n : Memory)
    → user_at (i + k) ≤ b
    → Alike b m n
    → Alike b (convs little (user_fields i k) m) (convs little (user_fields i k) n)
unfolding user_fields convs
user_fields-Alike little i zero b m n h a = a
user_fields-Alike little i (suc k) b m n h a =
    user_fields-Alike little (i + 1) k b _ _ (omega arith)
      (conv-Alike little _ b _ _ (omega arith) (conv-Alike little _ b _ _ (omega arith) a))

-- The loop over `c` users after the loop over more of them.
fewer :
    (little : Bool) (c k : ℕ) (m : Memory)
    → Alike (user_at c) (convs little (user_fields 0 c) (convs little (user_fields 0 (c + k)) m)) m
fewer little c k m j h =
    user_fields-Alike little 0 c (user_at c) _ _ (omega arith) first j h
    ∙ ap (λ x. x j) (convs-convs little (user_fields 0 c) m (user_fields-disjoint 0 c))
  where
    first :
        Alike
          (user_at c)
          (convs little (user_fields 0 (c + k)) m)
          (convs little (user_fields 0 c) m)
    first i lt =
        ap (λ x. x i) (user_fields-split little 0 c k m)
        ∙ user_fields-before little (0 + c) k _ i (omega arith)

-- The number of users that the loop converts, on a packet with `count` in host order.
abbrev pub converted : Bool → Memory → ℕ
converted little m = min (u32_at little (conv little (4, 4) m) 4) uchange_max_ucnt

swapped :
    (a b c d : ℕ)
    → a + b * 256 + c * 65536 + d * 16777216 ≤ 16
    → a + b * 256 + c * 65536 + d * 16777216 ≤ min (d + c * 256 + b * 65536 + a * 16777216) 16
swapped a b c d h = ground arith

at_least : (n : ℕ) → n ≤ 16 → n ≤ min n 16
at_least n h = ground arith

at_most : (n : ℕ) → n ≤ 16 → min n 16 ≡ n
at_most n h = ground arith

pub converted-ge :
    (little : Bool) (m : Memory)
    → u32_at little m 4 ≤ uchange_max_ucnt
    → u32_at little m 4 ≤ converted little m
unfolding conv
converted-ge true m h = swapped (m 4) (m 5) (m 6) (m 7) h
converted-ge false m h = at_least (u32_at false m 4) h

-- A user list of at most 16 users that is converted to network order and back has the same bytes up
-- to the end of its last user, on both byte orders.
pub conv_uchange-twice :
    (little : Bool) (m : Memory) (j : ℕ)
    → u32_at little m 4 ≤ uchange_max_ucnt
    → j < user_at (u32_at little m 4)
    → conv_uchange little (conv_uchange little m) j ≡ m j
unfolding conv_uchange
conv_uchange-twice little m j h lt =
    let c = u32_at little m 4 in
    let k = converted little m in
    ap (λ x. convs little (user_fields 0 (min (u32_at little x 4) uchange_max_ucnt)) x j) (back k)
    ∙ ap (λ n. convs little (user_fields 0 n) (convs little (user_fields 0 k) m) j)
        (ap (λ n. min n uchange_max_ucnt) (count_kept k) ∙ at_most c h)
    ∙ ap (λ n. convs little (user_fields 0 c) (convs little (user_fields 0 n) m) j)
        (sym (rest c k (converted-ge little m h)))
    ∙ fewer little c (k - c) m j lt
  where
    back :
        (k : ℕ)
        → conv little (4, 4) (convs little (user_fields 0 k) (conv little (4, 4) m))
          ≡ convs little (user_fields 0 k) m
    back k =
        sym (
          convs-conv little (4, 4) (user_fields 0 k) _ (user_fields-apart (4, 4) 0 k (omega arith)))
        ∙ ap (convs little (user_fields 0 k)) (conv-conv little (4, 4) m)

    count_kept : (k : ℕ) → u32_at little (convs little (user_fields 0 k) m) 4 ≡ u32_at little m 4
    count_kept k = rw (
      user_fields-before little 0 k m 4 (omega arith),
      user_fields-before little 0 k m 5 (omega arith),
      user_fields-before little 0 k m 6 (omega arith),
      user_fields-before little 0 k m 7 (omega arith),
    )

    rest : (a b : ℕ) → a ≤ b → a + (b - a) ≡ b
    rest a b g = omega arith
