-- ===== src/Message/Wire/Parts.antt =====
-- The parts of a packet's way from `msg_send` to `msg_recv`: its bytes, its form, its head.
use janken.Base.{
  ℕ, zero, suc, ◌+◌, ◌≤◌, ◌<◌, ◌≡◌, refl, sym, ◌∙◌, ap, Bool, true, false, ◌&&◌, ◌||◌, ◌∷◌, ◌++◌,
  arith, leb, ltb, ◌==◌, if◌then◌else◌, length, if-true, Bool-cases, inl, inr, ==_iff,
}
use janken.Text.{null_terminated, nickname_len}
use janken.Message.Kind
use janken.Message.{msg_body_size, uchange_max_ucnt, text_len}
use janken.Message.Layout.{
  Memory, bytes, kind_at, body_len_at, u32_at, user_at, msg_head_conv, check_users, check_body,
  msg_check_form, convs, conv, head_fields,
}
use janken.Message.Layout.Swap.{Alike, conv-Alike, convs-convs, disjoint, apart, apart_all}
use janken.Message.Layout.Local.{extent, for_kinds}
use janken.Message.Wire.{store}
use janken.Message.Wire.Receive.{store-before}

pub length-bytes : (m : Memory) (p n : ℕ) → length (bytes m p n) ≡ n
unfolding bytes
length-bytes m p zero = refl
length-bytes m p (suc n) = ap suc (length-bytes m (p + 1) n)

pub bytes-append : (m : Memory) (p n k : ℕ) → bytes m p (n + k) ≡ bytes m p n ++ bytes m (p + n) k
unfolding bytes
bytes-append m p zero k = ap (bytes m p) (add_0 k) ∙ ap (λ q. bytes m q k) (omega arith)
  where
    add_0 : (n : ℕ) → 0 + n ≡ n
    add_0 n = omega arith
bytes-append m p (suc n) k =
    ap (bytes m p) (suc_add n k)
    ∙ ap (◌∷◌ (m p))
        (bytes-append m (p + 1) n k ∙ ap (λ q. bytes m (p + 1) n ++ bytes m q k) (shift p n))
  where
    suc_add : (a b : ℕ) → suc a + b ≡ suc (a + b)
    suc_add a b = omega arith

    shift : (a b : ℕ) → a + 1 + b ≡ a + suc b
    shift a b = omega arith

-- Bytes that are read from one memory and stored in another.
store-bytes : (m c : Memory) (p n : ℕ) (i : ℕ) → p ≤ i → i < p + n → store m p (bytes c p n) i ≡ c i
unfolding store bytes
store-bytes m c p zero i h lt = absurd (omega arith)
store-bytes m c p (suc n) i h lt = elim (Bool-cases (i == p)) [
  | inl e ↦
      store-before (λ j. if j == p then c p else m j) (p + 1) (bytes c (p + 1) n) i (ground arith)
      ∙ if-true (c p) (m i) e
      ∙ ap c (sym ((==_iff i p).0 e))
  | inr e ↦
      store-bytes (λ j. if j == p then c p else m j) c (p + 1) n i (ground arith) (omega arith)
]

bytes-Alike : (m n : Memory) (b p k : ℕ) → p + k ≤ b → Alike b m n → bytes m p k ≡ bytes n p k
unfolding bytes
bytes-Alike m n b p zero h a = refl
bytes-Alike m n b p (suc k) h a =
    rw (a p (omega arith), bytes-Alike m n b (p + 1) k (omega arith) a)

check_users-Alike :
    (m n : Memory) (b i k : ℕ)
    → user_at (i + k) ≤ b
    → Alike b m n
    → check_users m i k ≡ check_users n i k
unfolding check_users
check_users-Alike m n b i zero h a = refl
check_users-Alike m n b i (suc k) h a = λ t.
    null_terminated (bytes-Alike m n b (user_at i) nickname_len (omega arith) a t) nickname_len
    && check_users-Alike m n b (i + 1) k (omega arith) a t

guards :
    (bad : Bool) (a b : ℕ) (c : Bool)
    → (if bad then false else if a == b then c else false) ≡ true
    → (bad ≡ false) × (a ≡ b) × (c ≡ true)
guards bad a b c h = ground arith

bounded_if :
    (n : ℕ) (b : Bool) → (if ltb uchange_max_ucnt n then false else b) ≡ true → n ≤ uchange_max_ucnt
bounded_if n b h = ground arith

-- A packet as `msg_check_form` wants it.
module _ (little : Bool) (m : Memory) (form : msg_check_form little m ≡ true) where
  pub form-kind : (kind_at little m == 0 || leb Kind.msg_max (kind_at little m)) ≡ false
  unfolding msg_check_form
  form-kind = (guards _ (body_len_at little m) (msg_body_size (kind_at little m)) _ form).0

  pub form-body_len : body_len_at little m ≡ msg_body_size (kind_at little m)
  unfolding msg_check_form
  form-body_len = (guards _ (body_len_at little m) (msg_body_size (kind_at little m)) _ form).1

  form-check_body : check_body little (kind_at little m) m ≡ true
  unfolding msg_check_form
  form-check_body = (guards _ (body_len_at little m) (msg_body_size (kind_at little m)) _ form).2

  bounded : check_body little Kind.uchange m ≡ true → u32_at little m 4 ≤ uchange_max_ucnt
  unfolding check_body
  bounded c = bounded_if (u32_at little m 4) (check_users m 0 (u32_at little m 4)) c

  pub form-count : kind_at little m ≡ Kind.uchange → u32_at little m 4 ≤ uchange_max_ucnt
  form-count e = bounded (ap (λ k. check_body little k m) (sym e) ∙ form-check_body)

-- The form depends on the head and on the bytes of the extent alone.
module _ (little : Bool) (m n : Memory) where
  check_users-same :
      Alike (user_at (u32_at little m 4)) n m
      → check_body little Kind.uchange n ≡ check_body little Kind.uchange m
  unfolding check_body
  check_users-same a =
      ap (λ c. if ltb uchange_max_ucnt c then false else check_users n 0 c) same ∙ (λ t.
        if ltb uchange_max_ucnt (u32_at little m 4)
        then false
        else check_users-Alike n m (user_at (u32_at little m 4)) 0 (u32_at little m 4) (omega arith)
            a t)
    where
      same : u32_at little n 4 ≡ u32_at little m 4
      same = rw (a 4 (omega arith), a 5 (omega arith), a 6 (omega arith), a 7 (omega arith))

  check_body-same :
      (kind : ℕ)
      → (kind == 0 || leb Kind.msg_max kind) ≡ false
      → Alike (extent little kind m) n m
      → check_body little kind n ≡ check_body little kind m
  unfolding check_body msg_body_size
  check_body-same kind h =
      for_kinds (λ k. Alike (extent little k m) n m → check_body little k n ≡ check_body little k m)
        kind h
        (λ a t. null_terminated (bytes-Alike n m 36 4 nickname_len (omega arith) a t) nickname_len)
        (λ a t. null_terminated (bytes-Alike n m 44 4 nickname_len (omega arith) a t) nickname_len)
        (λ a. refl) check_users-same (λ a. refl) (λ a. refl) (λ a. refl) (λ a. refl)
        (λ a t. null_terminated (bytes-Alike n m 138 10 text_len (omega arith) a t) text_len)

  pub kind-same : Alike 4 n m → kind_at little n ≡ kind_at little m
  kind-same h = rw (h 0 (omega arith), h 1 (omega arith))

  pub body_len-same : Alike 4 n m → body_len_at little n ≡ body_len_at little m
  body_len-same h = rw (h 2 (omega arith), h 3 (omega arith))

  pub form-same :
      Alike 4 n m
      → Alike (extent little (kind_at little m) m) n m
      → msg_check_form little m ≡ true
      → msg_check_form little n ≡ true
  unfolding msg_check_form
  form-same h a form = ground (
    arith,
    kind-same h,
    body_len-same h,
    check_body-same (kind_at little m) (form-kind little m form) a,
    form,
  )

pub msg_body_size-positive :
    (kind : ℕ) → (kind == 0 || leb Kind.msg_max kind) ≡ false → 0 < msg_body_size kind
unfolding msg_body_size
msg_body_size-positive kind h =
    for_kinds (λ k. 0 < msg_body_size k) kind h (omega arith) (omega arith) (omega arith)
      (omega arith) (omega arith) (omega arith) (omega arith) (omega arith) (omega arith)

module _ (little : Bool) where
  head-twice : (m : Memory) → msg_head_conv little (msg_head_conv little m) ≡ m
  unfolding msg_head_conv disjoint apart_all apart
  head-twice m = convs-convs little head_fields m refl

  head-local :
      (m n : Memory) → Alike 4 m n → Alike 4 (msg_head_conv little m) (msg_head_conv little n)
  unfolding msg_head_conv convs
  head-local m n a =
      conv-Alike little (2, 2) 4 (conv little (0, 2) m) (conv little (0, 2) n) (omega arith)
        (conv-Alike little (0, 2) 4 m n (omega arith) a)

  head-after : (m : Memory) (j : ℕ) → 4 ≤ j → msg_head_conv little m j ≡ m j
  unfolding msg_head_conv convs conv
  head-after m j h = ground arith

  -- The bytes of `c` arrive in a memory in two parts, and the head is converted between them.
  pub arrived :
      (buf c : Memory) (n : ℕ)
      → Alike
          (4 + n)
          (store
            (msg_head_conv little (store buf 0 (bytes (msg_head_conv little c) 0 4)))
            4
            (bytes (msg_head_conv little c) 4 n))
          c
  arrived buf c n j lt = elim (Bool-cases (ltb j 4)) [
    | inl e ↦
        store-before (msg_head_conv little (store buf 0 (bytes (msg_head_conv little c) 0 4))) 4
          (bytes (msg_head_conv little c) 4 n) j (ground arith)
        ∙ arrived_head buf c j (ground arith)
    | inr e ↦
        store-bytes (msg_head_conv little (store buf 0 (bytes (msg_head_conv little c) 0 4)))
          (msg_head_conv little c) 4 n j (ground arith) lt
        ∙ head-after c j (ground arith)
  ]
    where
      arrived_head :
          (buf c : Memory)
          → Alike 4 (msg_head_conv little (store buf 0 (bytes (msg_head_conv little c) 0 4))) c
      arrived_head buf c j lt =
          head-local _ (msg_head_conv little c)
            (λ i h. store-bytes buf (msg_head_conv little c) 0 4 i (omega arith) h) j lt
          ∙ ap (λ m. m j) (head-twice c)
