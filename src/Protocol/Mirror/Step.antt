-- ===== src/Protocol/Mirror/Step.antt =====
-- A client in step with the server: what the server sends while it handles an entry, received.
use janken.Base.{
  ℕ, ◌≡◌, refl, sym, ◌∙◌, ap, Bool, true, false, ◌||◌, Bool-cases, Option, inl, inr, ◌⊎◌, List, [],
  ◌∷◌, ◌++◌, arith, map, take,
}
use janken.Tree.Laws.{mem}
use janken.Message.{
  Message, Body, join, join_r, quit, uchange, challenge, challenge_r, turn, turn_r, sendmsg,
  MsgSendmsg, MsgTurnR, MsgChallenge, MsgChallengeR,
}
use janken.Server.{Server, Ptr, done, fds}
use janken.Server.Ensures.{Ensures-of_eq}
use janken.Server.Handlers.{Entry, handle_entry}
use janken.Server.Index
use janken.Client.{Client, goes, leaves, ◌>>=◌}
use janken.Client.Receive.{
  um_recv, handle_sendmsg, handle_turn_r, handle_challenge, handle_challenge_r, begin_battle,
  print_last_turn, handle_uchange, handle_body, handle_ui_msg, receive,
}
use janken.Client.Users.{Info, Inv, lookup}
use janken.Client.Users.Change.{known}
use janken.Client.Users.Packet.{dismisses, apply_changes_lem, apply_changes-leaves}
use janken.Client.Loop.Sound.{
  Same, Same-Inv, handle_sendmsg-Same, handle_turn_r-Same, handle_challenge-Same,
  handle_challenge_r-Same,
}
use janken.Protocol.Roster.{server_info}
use janken.Protocol.Mirror.{said, heard, heard_agree, to_fd, Told}
use janken.Protocol.Mirror.Informs.{Listens}
use janken.Protocol.Mirror.Entries.{joins_on, handle_entry-Told}

-- Whether a packet says that the user with this id is offline.
pub says_offline : Body → ℕ → Bool
says_offline (uchange m) id = dismisses (take m.count m.users) id
says_offline (join m) id = false
says_offline (join_r m) id = false
says_offline (quit m) id = false
says_offline (challenge m) id = false
says_offline (challenge_r m) id = false
says_offline (turn m) id = false
says_offline (turn_r m) id = false
says_offline (sendmsg m) id = false

pub any_offline : List Message → ℕ → Bool
any_offline [] id = false
any_offline (msg ∷ l) id = says_offline msg.body id || any_offline l id

-- What a client makes of one packet.
abbrev Heard : Client → Body → Client → Type 0
Heard c b d = Inv d × (d.gs.id ≡ c.gs.id) × ((k : ℕ) → known d k ≡ said b (known c) k)

-- What says nothing of the users.
plain :
    (c d : Client)
    → Same c d
    → d.gs.id ≡ c.gs.id
    → Inv c
    → Inv d × (d.gs.id ≡ c.gs.id) × ((k : ℕ) → known d k ≡ known c k)
plain c d s i v = (Same-Inv c d s v, i, λ k. ap (λ r. lookup r.0 r.2 k) s)

handle_turn_r_id : (m : MsgTurnR) (c : Client) → (handle_turn_r m c).gs.id ≡ c.gs.id
unfolding handle_turn_r print_last_turn
handle_turn_r_id m c = ground arith

handle_challenge_id : (m : MsgChallenge) (c : Client) → (handle_challenge m c).gs.id ≡ c.gs.id
unfolding handle_challenge
handle_challenge_id m c = ground arith

handle_challenge_r_id : (m : MsgChallengeR) (c : Client) → (handle_challenge_r m c).gs.id ≡ c.gs.id
unfolding handle_challenge_r begin_battle
handle_challenge_r_id m c = ground arith

handle_sendmsg_id : (m : MsgSendmsg) (c : Client) → (handle_sendmsg m c).gs.id ≡ c.gs.id
unfolding handle_sendmsg
handle_sendmsg_id m c = refl

handle_body-Heard :
    (b : Body) (c : Client)
    → Inv c
    → says_offline b c.gs.id ≡ false
    → (d : Client) × (handle_body b c ≡ goes d) × Heard c b d
unfolding handle_body handle_uchange says_offline
handle_body-Heard (uchange m) c v h =
    let (d, e, w, i, u) = apply_changes_lem (take m.count m.users) c v h in (d, e, (w, i, u))
handle_body-Heard (sendmsg m) c v h = (
  handle_sendmsg m c,
  refl,
  plain c (handle_sendmsg m c) (handle_sendmsg-Same m c) (handle_sendmsg_id m c) v,
)
handle_body-Heard (turn_r m) c v h = (
  handle_turn_r m c,
  refl,
  plain c (handle_turn_r m c) (handle_turn_r-Same m c) (handle_turn_r_id m c) v,
)
handle_body-Heard (challenge m) c v h = (
  handle_challenge m c,
  refl,
  plain c (handle_challenge m c) (handle_challenge-Same m c) (handle_challenge_id m c) v,
)
handle_body-Heard (challenge_r m) c v h = (
  handle_challenge_r m c,
  refl,
  plain c (handle_challenge_r m c) (handle_challenge_r-Same m c) (handle_challenge_r_id m c) v,
)
handle_body-Heard (join m) c v h = (c, refl, (v, refl, λ k. refl))
handle_body-Heard (join_r m) c v h = (c, refl, (v, refl, λ k. refl))
handle_body-Heard (quit m) c v h = (c, refl, (v, refl, λ k. refl))
handle_body-Heard (turn m) c v h = (c, refl, (v, refl, λ k. refl))

handle_body-leaves :
    (b : Body) (c : Client)
    → Inv c
    → says_offline b c.gs.id ≡ true
    → (d : Client) × (handle_body b c ≡ leaves d)
unfolding handle_body handle_uchange says_offline
handle_body-leaves (uchange m) c v h = apply_changes-leaves (take m.count m.users) c v h
handle_body-leaves (sendmsg m) c v h = cc
handle_body-leaves (turn_r m) c v h = cc
handle_body-leaves (challenge m) c v h = cc
handle_body-leaves (challenge_r m) c v h = cc
handle_body-leaves (join m) c v h = cc
handle_body-leaves (join_r m) c v h = cc
handle_body-leaves (quit m) c v h = cc
handle_body-leaves (turn m) c v h = cc

-- Packets one after the other, on both branches.
abbrev pub Received : List Message → Client → (ℕ → Option Info) → Type 0
Received l c g =
    ((any_offline l c.gs.id ≡ true) × ((d : Client) × (receive (map um_recv l) c ≡ leaves d)))
    ⊎ ((any_offline l c.gs.id ≡ false)
        × ((d : Client) × (receive (map um_recv l) c ≡ goes d)
            × Inv d
            × ((k : ℕ) → known d k ≡ g k)))

receive_lem : (l : List Message) (c : Client) → Inv c → Received l c (heard l (known c))
unfolding receive handle_ui_msg any_offline ◌>>=◌
receive_lem [] c v = inr (refl, (c, refl, v, λ k. refl))
receive_lem (msg ∷ l) c v = elim (Bool-cases (says_offline msg.body c.gs.id)) [
  | inl h ↦
      let (d, e) = handle_body-leaves msg.body c v h in
      inl (ap (λ b. b || any_offline l c.gs.id) h, (d, ap (λ f. f >>= receive (map um_recv l)) e))
  | inr h ↦
      let (d, e, (w, i, u)) = handle_body-Heard msg.body c v h in
      elim (receive_lem l d w) [
        | inl (h2, (d2, e2)) ↦ inl (
          ap (λ b. b || any_offline l c.gs.id) h ∙ ap (any_offline l) (sym i) ∙ h2,
          (d2, ap (λ f. f >>= receive (map um_recv l)) e ∙ e2),
        )
        | inr (h2, (d2, e2, w2, u2)) ↦ inr (
          ap (λ b. b || any_offline l c.gs.id) h ∙ ap (any_offline l) (sym i) ∙ h2,
          (
            d2,
            ap (λ f. f >>= receive (map um_recv l)) e ∙ e2,
            w2,
            λ k. u2 k ∙ heard_agree l (known d) _ k u,
          ),
        )
      ]
]

-- A client in step with the server, on the fd of one of its users: whatever entry the server handles to
-- the end, but a JOIN on this fd, what is sent to this fd meanwhile, received in order, either says that
-- the client's own user is offline, and the client leaves the loop; or it does not, no assertion fails,
-- and the client is in step again: it knows exactly the server's users, with their nicknames, states
-- and scores.
pub handle_entry-Received :
    (f : ℕ) (e : Entry) (s t : Server) (q : Ptr) (c : Client)
    → Index.Inv s
    → mem q s.by_id ≡ true
    → fds s q ≡ f
    → joins_on e f ≡ false
    → handle_entry e s ≡ done t
    → Inv c
    → ((k : ℕ) → known c k ≡ server_info s k)
    → (l : List (ℕ × Message)) × (t.sent ≡ s.sent ++ l) × Received (to_fd f l) c (server_info t)
handle_entry-Received f e s t q c v m i n r w k =
    let told = Ensures-of_eq (handle_entry-Told f e s n v listens) r in
    (told.packets, told.grows, in_step told (receive_lem (to_fd f told.packets) c w))
  where
    listens : Listens f s
    listens = record { order = v.id_order; user = q; inside = m; fd = i }

    in_step :
        (told : Told f s t)
        → Received (to_fd f told.packets) c (heard (to_fd f told.packets) (known c))
        → Received (to_fd f told.packets) c (server_info t)
    in_step told (inl h) = inl h
    in_step told (inr (h, (d, e1, w1, u))) = inr (
      h,
      (
        d,
        e1,
        w1,
        λ j.
            u j ∙ heard_agree (to_fd f told.packets) (known c) (server_info s) j k ∙ told.follows j,
      ),
    )
