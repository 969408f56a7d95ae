-- ===== src/Protocol/Mirror.antt =====
-- Following the server's users by the packets that it sends to one connection.
pub mod Broadcast
pub mod Informs
pub mod Battle
pub mod Invite
pub mod Leave
pub mod Join
pub mod Entries
pub mod Step
use janken.Base.{
  ℕ, ◌≡◌, refl, sym, ◌∙◌, ap, Bool, true, false, Bool-cases, Option, none, some, inl, inr, List, [],
  ◌∷◌, ◌++◌, append-nil, append_assoc, arith, take, ◌==◌, if◌then◌else◌, if-true, if-false, ◌⊎◌,
}
use janken.Message.{
  Message, Body, join, join_r, quit, uchange, challenge, challenge_r, turn, turn_r, sendmsg,
  UserEntry,
}
use janken.Server.{Server, Ptr, msg_send, find_id}
use janken.Client.Users.{Info, said_info}
use janken.Client.Users.Packet.{after, after_agree}
use janken.Protocol.Roster.{server_info}

-- What a packet says of the users, entered into a map.
abbrev pub said : Body → (ℕ → Option Info) → ℕ → Option Info
said (uchange m) g k = after (take m.count m.users) g k
said (join m) g k = g k
said (join_r m) g k = g k
said (quit m) g k = g k
said (challenge m) g k = g k
said (challenge_r m) g k = g k
said (turn m) g k = g k
said (turn_r m) g k = g k
said (sendmsg m) g k = g k

abbrev pub heard : List Message → (ℕ → Option Info) → ℕ → Option Info
heard [] g k = g k
heard (msg ∷ l) g k = heard l (said msg.body g) k

-- What is sent to one fd.
abbrev pub to_fd : ℕ → List (ℕ × Message) → List Message
to_fd f [] = []
to_fd f ((fd, msg) ∷ l) = if fd == f then msg ∷ to_fd f l else to_fd f l

said_agree :
    (b : Body) (g h : ℕ → Option Info) (k : ℕ) → ((j : ℕ) → g j ≡ h j) → said b g k ≡ said b h k
said_agree (uchange m) g h k e = after_agree (take m.count m.users) g h k e
said_agree (join m) g h k e = e k
said_agree (join_r m) g h k e = e k
said_agree (quit m) g h k e = e k
said_agree (challenge m) g h k e = e k
said_agree (challenge_r m) g h k e = e k
said_agree (turn m) g h k e = e k
said_agree (turn_r m) g h k e = e k
said_agree (sendmsg m) g h k e = e k

pub heard_agree :
    (l : List Message) (g h : ℕ → Option Info) (k : ℕ)
    → ((j : ℕ) → g j ≡ h j)
    → heard l g k ≡ heard l h k
heard_agree [] g h k e = e k
heard_agree (msg ∷ l) g h k e = heard_agree l _ _ k λ j. said_agree msg.body g h j e

heard-append :
    (l r : List Message) (g : ℕ → Option Info) (k : ℕ) → heard (l ++ r) g k ≡ heard r (heard l g) k
heard-append [] r g k = refl
heard-append (msg ∷ l) r g k = heard-append l r (said msg.body g) k

pub to_fd-append : (f : ℕ) (l r : List (ℕ × Message)) → to_fd f (l ++ r) ≡ to_fd f l ++ to_fd f r
to_fd-append f [] r = refl
to_fd-append f ((fd, msg) ∷ l) r = elim (Bool-cases (fd == f)) [
  | inl e ↦ rw e (ap (◌∷◌ msg) (to_fd-append f l r))
  | inr e ↦ rw e (to_fd-append f l r)
]

-- Entries at one id: what was there before counts, or not.
after-cases :
    (es : List UserEntry) (k : ℕ)
    → ((g : ℕ → Option Info) → after es g k ≡ g k)
      ⊎ ((o : Option Info) × ((g : ℕ → Option Info) → after es g k ≡ o))
unfolding after
after-cases [] k = inl λ g. refl
after-cases (e ∷ es) k = elim (after-cases es k) [
  | inr (o, h) ↦ inr (o, λ g. h _)
  | inl h ↦ elim (Bool-cases (k == e.id)) [
    | inl b ↦ inr (said_info e, λ g. h _ ∙ if-true _ _ b)
    | inr b ↦ inl λ g. h _ ∙ if-false _ _ b
  ]
]

-- A packet says the same a second time.
pub said-twice : (b : Body) (g : ℕ → Option Info) (k : ℕ) → said b (said b g) k ≡ said b g k
said-twice (uchange m) g k = elim (after-cases (take m.count m.users) k) [
  | inl h ↦ h _
  | inr (o, h) ↦ h _ ∙ sym (h g)
]
said-twice (join m) g k = refl
said-twice (join_r m) g k = refl
said-twice (quit m) g k = refl
said-twice (challenge m) g k = refl
said-twice (challenge_r m) g k = refl
said-twice (turn m) g k = refl
said-twice (turn_r m) g k = refl
said-twice (sendmsg m) g k = refl

-- From `s` to `t` more was sent, and who knew the users of `s` and follows what was sent to `f` knows
-- the users of `t`.
pub record Told (f : ℕ) (s t : Server) : Type 0 where
  pub packets : List (ℕ × Message)
  pub grows : t.sent ≡ s.sent ++ packets
  pub follows : (k : ℕ) → heard (to_fd f packets) (server_info s) k ≡ server_info t k

pub Told-trans : {f : ℕ} {s t u : Server} → Told f s t → Told f t u → Told f s u
Told-trans {f} {s} a b = record {
  packets = a.packets ++ b.packets;
  grows = b.grows ∙ ap (λ x. x ++ b.packets) a.grows ∙ append_assoc s.sent a.packets b.packets;
  follows = λ k.
      ap (λ x. heard x (server_info s) k) (to_fd-append f a.packets b.packets)
      ∙ heard-append (to_fd f a.packets) (to_fd f b.packets) (server_info s) k
      ∙ heard_agree (to_fd f b.packets) _ _ k a.follows
      ∙ b.follows k;
}

-- Nothing is sent and no user is changed.
pub Told-quiet :
    (f : ℕ) (s t : Server)
    → t.sent ≡ s.sent
    → ((k : ℕ) → server_info s k ≡ server_info t k)
    → Told f s t
Told-quiet f s t e h = record { packets = []; grows = e ∙ sym (append-nil s.sent); follows = h }

-- One packet is sent that says nothing of the users.
pub Told-send :
    (f : ℕ) (s : Server) (fd : ℕ) (msg : Message)
    → ((g : ℕ → Option Info) (k : ℕ) → said msg.body g k ≡ g k)
    → Told f s (msg_send s fd msg)
unfolding find_id
Told-send f s fd msg h = record {
  packets = (fd, msg) ∷ [];
  grows = refl;
  follows =
      λ k. elim (Bool-cases (fd == f)) [ inl e ↦ rw e (h (server_info s) k) | inr e ↦ rw e refl ];
}
