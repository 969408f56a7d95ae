-- ===== src/Message/Wire.antt =====
-- `recv_count` of lib/common.c, `msg_recv` and `msg_send` of lib/messages.c. What the calls of
-- `recv` give is a list: the bytes of each call, none where it fails or the connection is closed. A
-- call gives no more bytes than it was asked for.
pub mod Receive
pub mod Parts
pub mod RoundTrip
pub mod Dup
use janken.Base.{
  ℕ, zero, suc, ◌+◌, ◌-◌, Bool, true, false, ◌&&◌, ◌||◌, Option, none, some, List, [], ◌∷◌, leb,
  ltb, ◌==◌, if◌then◌else◌, length,
}
use janken.Message.Kind
use janken.Message.{msg_body_size}
use janken.Message.Layout.{
  Memory, bytes, msg_head_conv, msg_body_conv, kind_at, body_len_at, msg_check_form,
}

-- The bytes that `recv` writes at `p`.
unfoldable pub store : Memory → (p : ℕ) → List ℕ → Memory
store m p [] = m
store m p (b ∷ bs) = store (λ i. if i == p then b else m i) (p + 1) bs

-- Whether it returns 0, the memory, and the calls of `recv` that remain. The pointer `p` stays where
-- it is.
unfoldable pub recv_count : (p len : ℕ) → List (List ℕ) → Memory → Bool × Memory × List (List ℕ)
unfolding store
recv_count p len [] m = (len == 0, m, [])
recv_count p len (r ∷ rs) m =
    let rest = recv_count p (len - length r) rs (store m p r) in
    if len == 0 then (true, m, r ∷ rs) else if length r == 0 then (false, m, rs) else rest

-- `msg_recv`: whether it returns 0, its buffer, and the calls of `recv` that remain; `none` where an
-- assertion fails. First what follows the receipt of the body, then what follows that of the head.
unfoldable pub body_received :
    Bool → (kind : ℕ) → Bool × Memory × List (List ℕ) → Option (Bool × Memory × List (List ℕ))
unfolding msg_body_conv msg_check_form
body_received little kind (false, m, rs) = some (false, m, rs)
body_received little kind (true, m, rs) = elim (msg_body_conv little kind m) [
  | none ↦ none
  | some m' ↦ some (msg_check_form little m', m', rs)
]

unfoldable pub head_received :
    Bool → Bool × Memory × List (List ℕ) → Option (Bool × Memory × List (List ℕ))
unfolding msg_head_conv msg_body_size recv_count body_received
head_received little (false, m, rs) = some (false, m, rs)
head_received little (true, m, rs) =
    let m' = msg_head_conv little m in
    if kind_at little m' == 0 || leb Kind.msg_max (kind_at little m')
    then some (false, m', rs)
    else if body_len_at little m' == msg_body_size (kind_at little m')
    then body_received little (kind_at little m') (recv_count 4 (body_len_at little m') rs m')
    else some (false, m', rs)

unfoldable pub msg_recv : Bool → List (List ℕ) → Memory → Option (Bool × Memory × List (List ℕ))
unfolding recv_count head_received
msg_recv little rs buf = head_received little (recv_count 0 4 rs buf)

-- `memcpy(&buf, orig, sz)`
abbrev pub copy : (sz : ℕ) → Memory → Memory → Memory
copy sz buf orig i = if ltb i sz then orig i else buf i

-- The bytes that `msg_send` hands to `send`, or `none` where it returns -1 before. `buf` is what its
-- local buffer happens to hold. The assertion in the conversion cannot fail on the kinds that pass.
unfoldable pub msg_send : Bool → (buf orig : Memory) → Option (List ℕ)
unfolding bytes msg_head_conv msg_body_conv
msg_send little buf orig =
    let kind = kind_at little orig in
    let sz = 4 + body_len_at little orig in
    if kind == 0 || leb Kind.msg_max kind
    then none
    else elim (msg_body_conv little kind (copy sz buf orig)) [
      | none ↦ none
      | some m ↦ some (bytes (msg_head_conv little m) 0 sz)
    ]
