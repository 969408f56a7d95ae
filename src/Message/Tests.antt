-- ===== src/Message/Tests.antt =====
-- The theorems of the packets at examples.
use janken.Base.{
  ℕ, ◌<◌, ◌≤◌, ◌≡◌, ◌≢◌, refl, true, false, some, List, [], ◌∷◌, ◌++◌, arith, length, ltb→lt,
}
use janken.Message.Kind
use janken.Message.{msg_body_size, uchange_max_ucnt}
use janken.Message.Layout.{
  Memory, bytes, kind_at, msg_check_form, check_body, user_at, convs, conv_uchange, msg_body_conv,
  body_fields,
}
use janken.Message.Layout.Network.{Converted, msg_body_conv-Converted, value, Same}
use janken.Message.Layout.Network.Users.{user_members, conv_uchange-Same}
use janken.Message.Layout.Local.{extent}
use janken.Message.Wire.{store, recv_count, msg_recv, msg_send}
use janken.Message.Wire.Receive.{recv_count-parts}
use janken.Message.Wire.RoundTrip.{msg_recv-msg_send}

abbrev zeros : Memory
zeros i = 0

-- QUIT of user 258 with key 1 on a little-endian host: the head, the key, the id.
abbrev quit_packet : Memory
quit_packet = store zeros 0 (3 ∷ 0 ∷ 6 ∷ 0 ∷ 1 ∷ 0 ∷ 0 ∷ 0 ∷ 2 ∷ 1 ∷ [])

quit_form : msg_check_form true quit_packet ≡ true
unfolding msg_check_form check_body store msg_body_size
quit_form = refl

msg_recv-msg_send_example :
    (head : List ℕ) × (body : List ℕ) × (m : Memory) × (msg_send true zeros quit_packet
      ≡ some (head ++ body))
    × (length head ≡ 4)
    × (msg_recv true (head ∷ body ∷ []) zeros ≡ some (true, m, []))
    × ((j : ℕ) → j < extent true (kind_at true quit_packet) quit_packet → m j ≡ quit_packet j)
    × ((j : ℕ) → j < 4 → m j ≡ quit_packet j)
msg_recv-msg_send_example = msg_recv-msg_send true quit_packet zeros zeros [] quit_form

abbrev quit_converted : Memory
quit_converted = convs true ((8, 2) ∷ (4, 4) ∷ []) quit_packet

quit_conv : msg_body_conv true Kind.quit quit_packet ≡ some quit_converted
unfolding msg_body_conv body_fields convs
quit_conv = refl

quit_other : Kind.quit ≢ Kind.uchange
quit_other h = omega arith

msg_body_conv-Converted_example : Converted true Kind.quit quit_packet
msg_body_conv-Converted_example = msg_body_conv-Converted true Kind.quit quit_packet refl quit_other

-- A user list with one user, whose id is 5.
abbrev one_user : Memory
one_user = store (store zeros 0 (4 ∷ 0 ∷ 132 ∷ 2 ∷ 1 ∷ [])) 40 (5 ∷ 0 ∷ 1 ∷ [])

one_user_lem : (value true one_user 4 4 ≤ uchange_max_ucnt) × (0 < value true one_user 4 4)
unfolding store value
one_user_lem = (omega arith, omega arith)

conv_uchange-Same_example :
    (value false (conv_uchange true one_user) 4 4 ≡ value true one_user 4 4)
    × Same true false one_user (conv_uchange true one_user) (user_at 0) user_members
conv_uchange-Same_example = conv_uchange-Same true true one_user 0 one_user_lem.0 one_user_lem.1

-- The head of that packet in two parts of two bytes.
recv_count-parts_example :
    (m : Memory) × (recv_count 0 4 ((3 ∷ 0 ∷ []) ∷ (6 ∷ 0 ∷ []) ∷ []) zeros ≡ (true, m, []))
    × (bytes m 0 2 ≡ 6 ∷ 0 ∷ [])
    × ((i : ℕ) → 2 ≤ i → 2 ≤ i → m i ≡ 0)
recv_count-parts_example =
    recv_count-parts 0 [] zeros (3 ∷ 0 ∷ []) (6 ∷ 0 ∷ []) (ltb→lt _ _ refl) (ltb→lt _ _ refl)
