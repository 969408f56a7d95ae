-- ===== src/Message/Wire/RoundTrip.antt =====
-- A packet that `msg_send` sends is received by `msg_recv`.
use native.Mathlib.Nat.{lt_of_lt_of_le}
use janken.Base.{
  ℕ, ◌+◌, ◌≤◌, ◌<◌, ◌≡◌, sym, subst, ◌∙◌, ap, Bool, true, false, ◌||◌, none, some, List, ◌∷◌, ◌++◌,
  arith, leb, ◌==◌, if◌then◌else◌, length, if-true, if-false, ==_refl,
}
use janken.Message.Kind
use janken.Message.{msg_body_size, uchange_max_ucnt}
use janken.Message.Layout.{
  Memory, bytes, kind_at, body_len_at, u32_at, user_at, msg_head_conv, msg_body_conv,
  msg_check_form,
}
use janken.Message.Layout.Swap.{Alike}
use janken.Message.Layout.Local.{Conversion, conversion, extent}
use janken.Message.Wire.{store, recv_count, head_received, body_received, msg_recv, copy, msg_send}
use janken.Message.Wire.Receive.{store-before, recv_count-whole}
use janken.Message.Wire.Parts.{
  form-kind, form-body_len, form-count, kind-same, body_len-same, form-same, msg_body_size-positive,
  arrived, bytes-append, length-bytes,
}

-- What `msg_recv` does with a head and a body that arrive in one call of `recv` each.
module _ (little : Bool) (head body : List ℕ) (rs : List (List ℕ)) (buf : Memory) where
  abbrev headed : Memory
  headed = msg_head_conv little (store buf 0 head)

  abbrev filled : Memory
  filled = store headed 4 body

  received :
      (kind n : ℕ) (m : Memory)
      → length head ≡ 4
      → length body ≡ n
      → 0 < n
      → kind_at little headed ≡ kind
      → body_len_at little headed ≡ n
      → n ≡ msg_body_size kind
      → (kind == 0 || leb Kind.msg_max kind) ≡ false
      → msg_body_conv little kind filled ≡ some m
      → msg_recv little (head ∷ body ∷ rs) buf ≡ some (msg_check_form little m, m, rs)
  unfolding msg_recv head_received body_received
  received kind n m h b pos ek en es valid e =
      ap (head_received little) (recv_count-whole 0 (body ∷ rs) buf 4 head h (omega arith))
      ∙ if-false _ _ (ap (λ k. k == 0 || leb Kind.msg_max k) ek ∙ valid)
      ∙ if-true _ _ (
          (λ i. en i == msg_body_size (ek i))
          ∙ (λ i. es i == msg_body_size kind)
          ∙ ==_refl (msg_body_size kind))
      ∙ (λ i. body_received little (ek i) (recv_count 4 (en i) (body ∷ rs) headed))
      ∙ ap (body_received little kind) (recv_count-whole 4 rs headed n body b pos)
      ∙ (λ i. elim (e i) [ none ↦ none | some m' ↦ some (msg_check_form little m', m', rs) ])

copy-Alike : (sz : ℕ) (buf orig : Memory) → Alike sz (copy sz buf orig) orig
copy-Alike sz buf orig j lt = ground arith

extent-bound :
    (little : Bool) (kind : ℕ) (m : Memory)
    → (kind ≡ Kind.uchange → u32_at little m 4 ≤ uchange_max_ucnt)
    → extent little kind m ≤ 4 + msg_body_size kind
unfolding msg_body_size
extent-bound little kind m h = ground (arith, h)

extent-Alike :
    (little : Bool) (kind : ℕ) (m n : Memory)
    → Alike (4 + msg_body_size kind) n m
    → extent little kind n ≡ extent little kind m
unfolding msg_body_size
extent-Alike little kind m n a = ground (arith, a 4, a 5, a 6, a 7)

count-same :
    (little : Bool) (kind : ℕ) (m n : Memory)
    → kind ≡ Kind.uchange
    → extent little kind m ≡ extent little kind n
    → u32_at little n 4 ≤ uchange_max_ucnt
    → u32_at little m 4 ≤ uchange_max_ucnt
count-same little kind m n e same h =
    subst (λ k. k ≤ uchange_max_ucnt)
      (sym (
        if_eq (kind == Kind.uchange) (u32_at little m 4) (u32_at little n 4)
          (4 + msg_body_size kind) same (ground arith)))
      h
  where
    if_eq :
        (b : Bool) (p q r : ℕ)
        → (if b then user_at p else r) ≡ (if b then user_at q else r)
        → b ≡ true
        → p ≡ q
    if_eq b p q r f t = ground arith

-- The state of the two buffers on the way.
module _ (little : Bool) (orig buf buf' : Memory) where
  abbrev outgoing : ℕ → (Memory → Memory) → Memory
  outgoing n g = msg_head_conv little (g (copy (4 + n) buf orig))

  abbrev incoming : ℕ → (Memory → Memory) → Memory
  incoming n g = msg_head_conv little (store buf' 0 (bytes (outgoing n g) 0 4))

  abbrev complete : ℕ → (Memory → Memory) → Memory
  complete n g = store (incoming n g) 4 (bytes (outgoing n g) 4 n)

  module _ (kind : ℕ) (g : Memory → Memory) (v : Conversion little kind g) where
    headed-Alike : (n : ℕ) → Alike 4 (incoming n g) orig
    headed-Alike n j lt =
        sym (store-before (incoming n g) 4 (bytes (outgoing n g) 4 n) j lt)
        ∙ arrived little buf' (g (copy (4 + n) buf orig)) n j (omega arith)
        ∙ v.head (copy (4 + n) buf orig) j lt
        ∙ copy-Alike (4 + n) buf orig j (omega arith)

    headed-kept : (n : ℕ) → Alike 4 (g (complete n g)) orig
    headed-kept n j lt =
        v.head (complete n g) j lt
        ∙ store-before (incoming n g) 4 (bytes (outgoing n g) 4 n) j lt
        ∙ headed-Alike n j lt

    -- With the body whole the packet is again what it was.
    filled-Alike :
        (kind ≡ Kind.uchange → u32_at little orig 4 ≤ uchange_max_ucnt)
        → Alike (extent little kind orig) (g (complete (msg_body_size kind) g)) orig
    filled-Alike count j lt =
        let n = msg_body_size kind in
        let c = copy (4 + n) buf orig in
        let same = extent-Alike little kind orig c (copy-Alike (4 + n) buf orig) in
        v.local (complete n g) (g c) (arrived little buf' (g c) n) j
          (lt_of_lt_of_le lt (extent-bound little kind orig count))
        ∙ v.back c (λ e. count-same little kind c orig e same (count e)) j
            (subst (λ e. j < e) (sym same) lt)
        ∙ copy-Alike (4 + n) buf orig j (lt_of_lt_of_le lt (extent-bound little kind orig count))

module _ (little : Bool) (orig buf buf' : Memory) (rs : List (List ℕ)) where
  -- A well-formed packet is sent, and when its head and its body arrive in one call of `recv` each,
  -- it is received: `msg_recv` returns 0 and leaves every byte of the packet as it was, on both byte
  -- orders (of a user list, every byte up to the end of its last user).
  pub msg_recv-msg_send :
      msg_check_form little orig ≡ true
      → (head : List ℕ) × (body : List ℕ) × (m : Memory) × (msg_send little buf orig
          ≡ some (head ++ body))
        × (length head ≡ 4)
        × (msg_recv little (head ∷ body ∷ rs) buf' ≡ some (true, m, rs))
        × ((j : ℕ) → j < extent little (kind_at little orig) orig → m j ≡ orig j)
        × ((j : ℕ) → j < 4 → m j ≡ orig j)
  unfolding msg_send
  msg_recv-msg_send form =
      let kind = kind_at little orig in
      let n = body_len_at little orig in
      let valid = form-kind little orig form in
      let es = form-body_len little orig form in
      let (g, v) = conversion little kind valid in
      let c = copy (4 + n) buf orig in
      let w = msg_head_conv little (g c) in
      let head = bytes w 0 4 in
      let body = bytes w 4 n in
      let m2 = msg_head_conv little (store buf' 0 head) in
      let m3 = store m2 4 body in
      let at_head = headed-Alike little orig buf buf' kind g v n in
      let at_body =
        subst (λ k. Alike (extent little kind orig) (g (complete little orig buf buf' k g)) orig)
          (sym es) (filled-Alike little orig buf buf' kind g v (form-count little orig form)) in
      (
        head,
        body,
        g m3,
        if-false _ _ valid
            ∙ (λ i. elim (v.runs c i) [
              | none ↦ none
              | some m ↦ some (bytes (msg_head_conv little m) 0 (4 + n))
            ])
            ∙ ap some (bytes-append w 0 4 n),
        length-bytes w 0 4,
        received little head body rs buf' kind n (g m3) (length-bytes w 0 4) (length-bytes w 4 n)
              (subst (λ k. 0 < k) (sym es) (msg_body_size-positive kind valid))
              (kind-same little orig m2 at_head) (body_len-same little orig m2 at_head) es valid
              (v.runs m3)
            ∙ (λ i. some (
              form-same little orig (g m3) (headed-kept little orig buf buf' kind g v n) at_body
                  form i,
              g m3,
              rs,
            )),
        at_body,
        headed-kept little orig buf buf' kind g v n,
      )
