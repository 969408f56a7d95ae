-- ===== src/Message/Wire/Dup.antt =====
-- `msg_dup` of lib/messages.c, and that the copy is sent like the packet.
use mathlib.Core.Path.{fun_ext}
use janken.Base.{
  ℕ, ◌+◌, ◌≤◌, ◌<◌, ◌≡◌, refl, ◌∙◌, ap, min, Bool, true, false, Option, none, some, List, arith,
  leb, ltb, ltb→lt, ◌==◌, ◌||◌, if◌then◌else◌, if-true,
}
use janken.Message.Kind
use janken.Message.Layout.{Memory, bytes, kind_at, body_len_at, msg_head_conv, msg_body_conv}
use janken.Message.Wire.{copy, msg_send}

-- `sizeof(message_t)`: the head and the body of UCHANGE, the longest.
abbrev pub message_size : ℕ
message_size = 4 + 644

-- `make_msg_buf` is all zero but for the head, which is copied over.
unfoldable pub msg_dup : Bool → Memory → Memory
msg_dup little orig = copy (min (4 + body_len_at little orig) message_size) (λ i. 0) orig

msg_dup-same :
    (little : Bool) (orig : Memory) (i : ℕ)
    → i < 4 + body_len_at little orig
    → i < message_size
    → msg_dup little orig i ≡ orig i
unfolding msg_dup
msg_dup-same little orig i h g = if-true _ _ (below (4 + body_len_at little orig) h)
  where
    below : (n : ℕ) → i < n → ltb i (min n message_size) ≡ true
    below n h = ground arith

module _ (little : Bool) (buf orig : Memory) where
  -- `msg_send` from what it reads of the head and what it copies.
  abbrev send_of : ℕ → ℕ → Memory → Option (List ℕ)
  send_of kind sz m =
      if kind == 0 || leb Kind.msg_max kind then none else elim (msg_body_conv little kind m) [
        | none ↦ none
        | some m' ↦ some (bytes (msg_head_conv little m') 0 sz)
      ]

  head-same : (i : ℕ) → i < 4 → msg_dup little orig i ≡ orig i
  head-same i h = msg_dup-same little orig i (omega (arith, h)) (omega (arith, h))

  kind_same : kind_at little (msg_dup little orig) ≡ kind_at little orig
  kind_same = rw (head-same 0 (omega arith), head-same 1 (omega arith)) refl

  body_len_same : body_len_at little (msg_dup little orig) ≡ body_len_at little orig
  body_len_same = rw (head-same 2 (omega arith), head-same 3 (omega arith)) refl

  copy_same :
      4 + body_len_at little orig ≤ message_size
      → copy (4 + body_len_at little orig) buf (msg_dup little orig)
        ≡ copy (4 + body_len_at little orig) buf orig
  copy_same h = fun_ext λ i. same i (ltb i (4 + body_len_at little orig)) refl
    where
      same :
          (i : ℕ) (b : Bool)
          → ltb i (4 + body_len_at little orig) ≡ b
          → (if b then msg_dup little orig i else buf i) ≡ (if b then orig i else buf i)
      same i true e = msg_dup-same little orig i (ltb→lt _ _ e) (omega (arith, h, ltb→lt _ _ e))
      same i false e = refl

  -- A packet of a size that fits in `message_t` and its copy by `msg_dup` are sent as the same bytes,
  -- whatever the buffer of `msg_send` holds.
  pub msg_send-msg_dup :
      4 + body_len_at little orig ≤ message_size
      → msg_send little buf (msg_dup little orig) ≡ msg_send little buf orig
  unfolding msg_send
  msg_send-msg_dup h =
      (λ i.
        send_of (kind_same i) (4 + body_len_same i)
          (copy (4 + body_len_same i) buf (msg_dup little orig)))
      ∙ ap (send_of (kind_at little orig) (4 + body_len_at little orig)) (copy_same h)
