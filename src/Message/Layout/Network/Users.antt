-- ===== src/Message/Layout/Network/Users.antt =====
-- What is on the network of a user list.
use janken.Base.{
  ℕ, zero, suc, ◌+◌, ◌-◌, ◌≤◌, ◌<◌, ◌≡◌, refl, ◌∙◌, ap, Bool, true, false, List, [], ◌∷◌, arith,
  if◌then◌else◌,
}
use janken.Message.{uchange_max_ucnt}
use janken.Message.Layout.{Memory, Field, bytes, conv, convs, user_at, user_fields, conv_uchange}
use native.Mathlib.Nat.{lt_of_lt_of_le}
use janken.Message.Layout.Uchange.{
  converted as users_in_loop, converted-ge, user_fields-before, user_fields-split,
}
use janken.Message.Layout.Network.{Member, text, number, value, Same}

-- What stands after the users is left alone.
user_fields-after :
    (little : Bool) (i n : ℕ) (m : Memory) (j : ℕ)
    → user_at (i + n) ≤ j
    → convs little (user_fields i n) m j ≡ m j
unfolding user_fields convs conv
user_fields-after little i zero m j h = refl
user_fields-after little i (suc n) m j h =
    user_fields-after little (i + 1) n _ j (omega arith) ∙ ground arith

-- Two memories that are alike from `b` on.
abbrev Above : ℕ → Memory → Memory → Type 0
Above b m n = (j : ℕ) → b ≤ j → m j ≡ n j

conv-Above :
    (little : Bool) (f : Field) (b : ℕ) (m n : Memory)
    → b ≤ f.0
    → Above b m n
    → Above b (conv little f m) (conv little f n)
unfolding conv
conv-Above little (o, l) b m n h a j le = ground (arith, a j, a (o + o + l - 1 - j))

-- The two numbers of a user.
abbrev user_conv : Bool → ℕ → Memory → Memory
user_conv little i m = conv little (user_at i + 34, 2) (conv little (user_at i + 32, 2) m)

one_of :
    (little : Bool) (i r : ℕ) (m : Memory) (j : ℕ)
    → user_at i ≤ j
    → j < user_at i + 40
    → convs little (user_fields 0 (i + suc r)) m j ≡ user_conv little i m j
unfolding convs user_fields
one_of little i r m j h lt =
    ap (λ x. x j) (user_fields-split little 0 i (suc r) m)
    ∙ ap (λ k. convs little (user_fields k (suc r)) (convs little (user_fields 0 i) m) j) (add_0 i)
    ∙ user_fields-before little (i + 1) r _ j (omega arith)
    ∙ conv-Above little (user_at i + 34, 2) (user_at i) _ _ (omega arith)
        (conv-Above little (user_at i + 32, 2) (user_at i) _ _ (omega arith)
          λ t le. user_fields-after little 0 i m t (omega arith))
        j h
  where
    add_0 : (n : ℕ) → 0 + n ≡ n
    add_0 n = omega arith

-- The members of a user. The score is not converted: its bytes stay.
abbrev pub user_members : List Member
user_members = text 32 ∷ number 2 ∷ number 2 ∷ text 4 ∷ []

bytes-Alike :
    (m n : Memory) (off size : ℕ)
    → ((j : ℕ) → off ≤ j → j < off + size → n j ≡ m j)
    → bytes n off size ≡ bytes m off size
unfolding bytes
bytes-Alike m n off zero h = refl
bytes-Alike m n off (suc k) h = λ i.
    h off (omega arith) (omega arith) i
    ∷ bytes-Alike m n (off + 1) k (λ j l g. h j (omega arith) (omega arith)) i

-- A number of two bytes that is converted.
value-two :
    (little : Bool) (m n : Memory) (p : ℕ)
    → n p ≡ (if little then m (p + 1) else m p)
    → n (p + 1) ≡ (if little then m p else m (p + 1))
    → (value false n p 2 ≡ value little m p 2) × (value little n p 2 ≡ value false m p 2)
unfolding value
value-two true m n p h k =
    (ground (arith, h, k, ap n (add_0 p)), ground (arith, h, k, ap m (add_0 p)))
  where
    add_0 : (x : ℕ) → x + 0 ≡ x
    add_0 x = omega arith
value-two false m n p h k =
    (ground (arith, h, k, at_0 n, at_0 m), ground (arith, h, k, at_0 n, at_0 m))
  where
    at_0 : (x : Memory) → x (p + 0) ≡ x p
    at_0 x = ap x (omega arith)

-- A user whose two numbers are converted, in a memory `n` that is so there.
user-Same :
    (little : Bool) (m n : Memory) (o : ℕ)
    → ((j : ℕ) → o ≤ j → j < o + 40 → n j ≡ conv little (o + 34, 2) (conv little (o + 32, 2) m) j)
    → Same little false m n o user_members × Same false little m n o user_members
unfolding conv
user-Same little m n o h =
    let name = bytes-Alike m n o 32 λ j l g. h j l (omega arith) ∙ ground arith in
    let id =
      value-two little m n (o + 32) (h (o + 32) (omega arith) (omega arith) ∙ ground arith)
        (h (o + 32 + 1) (omega arith) (omega arith) ∙ ground arith) in
    let state =
      value-two little m n (o + 32 + 2) (h (o + 32 + 2) (omega arith) (omega arith) ∙ ground arith)
        (h (o + 32 + 2 + 1) (omega arith) (omega arith) ∙ ground arith) in
    let score =
      bytes-Alike m n (o + 32 + 2 + 2) 4 λ j l g. h j (omega arith) (omega arith) ∙ ground arith in
    ((name, (id.0, (state.0, (score, tt)))), (name, (id.1, (state.1, (score, tt)))))

conv-kept : (little : Bool) (m : Memory) (j : ℕ) → 8 ≤ j → conv little (4, 4) m j ≡ m j
unfolding conv
conv-kept little m j h = ground arith

-- A user in a list that is converted: their id and their state, and nothing else.
user_converted :
    (little : Bool) (m : Memory) (i : ℕ)
    → i < users_in_loop little m
    → Same little false m (conv_uchange little m) (user_at i) user_members
      × Same false little m (conv_uchange little m) (user_at i) user_members
unfolding conv_uchange
user_converted little m i h = user-Same little m _ (user_at i) λ j l g.
    ap (λ k. convs little (user_fields 0 k) (conv little (4, 4) m) j)
      (rest i (users_in_loop little m) h)
    ∙ one_of little i (users_in_loop little m - i - 1) _ j l g
    ∙ conv-Above little (user_at i + 34, 2) 8 _ _ (omega arith)
        (conv-Above little (user_at i + 32, 2) 8 _ _ (omega arith) kept) j (omega arith)
  where
    rest : (a b : ℕ) → a < b → b ≡ a + suc (b - a - 1)
    rest a b g = omega arith

    kept : Above 8 (conv little (4, 4) m) m
    kept j l = conv-kept little m j l

-- The number of users.
conv_uchange-count :
    (little : Bool) (m : Memory) (j : ℕ) → j < 8 → conv_uchange little m j ≡ conv little (4, 4) m j
unfolding conv_uchange
conv_uchange-count little m j h =
    user_fields-before little 0 (users_in_loop little m) _ j (omega arith)

value-Alike :
    (little : Bool) (x y : Memory)
    → ((j : ℕ) → j < 8 → x j ≡ y j)
    → value little x 4 4 ≡ value little y 4 4
unfolding value
value-Alike true x y h =
    rw (h 4 (omega arith), h 5 (omega arith), h 6 (omega arith), h 7 (omega arith))
value-Alike false x y h =
    rw (h 4 (omega arith), h 5 (omega arith), h 6 (omega arith), h 7 (omega arith))

count_converted :
    (little : Bool) (m : Memory)
    → (value false (conv little (4, 4) m) 4 4 ≡ value little m 4 4)
      × (value little (conv little (4, 4) m) 4 4 ≡ value false m 4 4)
unfolding value conv
count_converted true m = (refl, refl)
count_converted false m = (refl, refl)

count-Same :
    (little : Bool) (m : Memory)
    → (value false (conv_uchange little m) 4 4 ≡ value little m 4 4)
      × (value little (conv_uchange little m) 4 4 ≡ value false m 4 4)
count-Same little m = (
  value-Alike false _ _ (conv_uchange-count little m) ∙ (count_converted little m).0,
  value-Alike little _ _ (conv_uchange-count little m) ∙ (count_converted little m).1,
)

-- The byte order from which a body is converted, and that to which it is: a packet that is sent goes
-- from the host's to the network's.
abbrev pub from : (little sending : Bool) → Bool
from little sending = if sending then little else false

abbrev pub to : (little sending : Bool) → Bool
to little sending = if sending then false else little

-- Every user of a list is in the loop.
in_loop :
    (little sending : Bool) (m : Memory)
    → value (from little sending) m 4 4 ≤ uchange_max_ucnt
    → value (from little sending) m 4 4 ≤ users_in_loop little m
unfolding value conv
in_loop true true m h = ground (arith, converted-ge true m)
in_loop false true m h = ground (arith, converted-ge false m)
in_loop true false m h = ground arith
in_loop false false m h = ground arith

-- A user list of at most 16 users, on both byte orders and in both directions: its number of users and
-- each user's id and state are converted, and their nickname and the bytes of their score are as before.
pub conv_uchange-Same :
    (little sending : Bool) (m : Memory) (i : ℕ)
    → value (from little sending) m 4 4 ≤ uchange_max_ucnt
    → i < value (from little sending) m 4 4
    → (value (to little sending) (conv_uchange little m) 4 4 ≡ value (from little sending) m 4 4)
      × Same
          (from little sending)
          (to little sending)
          m
          (conv_uchange little m)
          (user_at i)
          user_members
conv_uchange-Same little true m i h lt = (
  (count-Same little m).0,
  (user_converted little m i (lt_of_lt_of_le lt (in_loop little true m h))).0,
)
conv_uchange-Same little false m i h lt = (
  (count-Same little m).1,
  (user_converted little m i (lt_of_lt_of_le lt (in_loop little false m h))).1,
)
