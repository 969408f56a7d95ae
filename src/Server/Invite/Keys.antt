-- ===== src/Server/Invite/Keys.antt =====
-- Who may do what by a CHALLENGE packet.
use janken.Base.{
  ℕ, ◌≡◌, ◌∙◌, ap, sym, subst, Option-cases, refl, zero, suc, ◌≢◌, ◌⊎◌, inl, inr, Bool-cases,
  if-false, Option, none, some, ==_refl, arith, ◌==◌, if◌then◌else◌, if-true,
}
use janken.Message.{MsgChallenge, MsgErr, nxid, ickey, invarg}
use janken.Server.{Server, Ptr, Run, done, if_null, find_id, msg_send}
use janken.Server.Ensures.{if_null-some, if_null-none}
use janken.Server.Invite.{reply, wanted_key, handle_action, handle_verified, handle_challenge}

-- The error that a packet meets before anything is changed.
abbrev pub first_error : Server → MsgChallenge → Option MsgErr
first_error s m = elim (find_id s m.id1) [
  | none ↦ some nxid
  | some usr1 ↦ elim (find_id s m.id2) [
    | none ↦ some nxid
    | some usr2 ↦ elim (wanted_key m.action (s.users usr1) (s.users usr2)) [
      | none ↦ some invarg
      | some key ↦ if key == m.key then none else some ickey
    ]
  ]
]

-- `handle_challenge` checks both users, the action and the key before all else: if one fails, the
-- only effect is one CHALLENGE_R with that error to the sender (NXID, then INVARG, then ICKEY).
pub handle_challenge_unauthorized :
    (fd : ℕ) (m : MsgChallenge) (s : Server) (e : MsgErr)
    → first_error s m ≡ some e
    → handle_challenge fd m s ≡ done (msg_send s fd (reply m e 0))
unfolding handle_challenge handle_verified if_null
handle_challenge_unauthorized fd m s e h = ground arith

-- With two users whom it names, and the key of the first for C_START and C_CANCEL, of the second for
-- C_ACCEPT and C_REJECT, the packet's action is performed.
pub handle_challenge_authorized :
    (fd : ℕ) (m : MsgChallenge) (s : Server) (p q : Ptr)
    → find_id s m.id1 ≡ some p
    → find_id s m.id2 ≡ some q
    → wanted_key m.action (s.users p) (s.users q) ≡ some m.key
    → handle_challenge fd m s ≡ handle_action fd m p q s
unfolding handle_challenge handle_verified
handle_challenge_authorized fd m s p q e1 e2 k =
    if_null-some _ _ p e1
    ∙ if_null-some _ _ q e2
    ∙ if_null-some _ _ m.key k
    ∙ if-true _ _ (==_refl m.key)

-- Who sends a packet of each action: of the two users that it names, the first one starts (0) and
-- cancels (3), and the second one rejects (1) and accepts (2).
abbrev pub sender : (action : ℕ) → (first second : Ptr) → Option Ptr
sender zero p q = some p
sender (suc zero) p q = some q
sender (suc (suc zero)) p q = some q
sender (suc (suc (suc zero))) p q = some p
sender (suc (suc (suc (suc n)))) p q = none

wanted_key-sender :
    (s : Server) (a : ℕ) (p q : Ptr)
    → wanted_key a (s.users p) (s.users q)
      ≡ elim (sender a p q) [ none ↦ none | some u ↦ some (s.users u).key ]
unfolding wanted_key
wanted_key-sender s zero p q = refl
wanted_key-sender s (suc zero) p q = refl
wanted_key-sender s (suc (suc zero)) p q = refl
wanted_key-sender s (suc (suc (suc zero))) p q = refl
wanted_key-sender s (suc (suc (suc (suc n)))) p q = ground arith

-- What becomes of a packet, `r`, by its users, its action and its key.
abbrev pub Answered : (fd : ℕ) → MsgChallenge → Server → MsgErr → Run Server → Type 0
Answered fd m s e r = r ≡ done (msg_send s fd (reply m e 0))

abbrev pub Verified : (fd : ℕ) → MsgChallenge → (p q : Ptr) → Server → Run Server → Type 0
Verified fd m p q s r =
    (sender m.action p q ≡ none) × Answered fd m s invarg r
    ⊎ ((u : Ptr) × (sender m.action p q ≡ some u)
        × (((s.users u).key ≢ m.key) × Answered fd m s ickey r
            ⊎ ((s.users u).key ≡ m.key) × (r ≡ handle_action fd m p q s)))

abbrev pub Checks : (fd : ℕ) → MsgChallenge → Server → Run Server → Type 0
Checks fd m s r =
    ((find_id s m.id1 ≡ none) ⊎ (find_id s m.id2 ≡ none)) × Answered fd m s nxid r
    ⊎ ((p : Ptr) × (q : Ptr) × (find_id s m.id1 ≡ some p)
        × (find_id s m.id2 ≡ some q)
        × Verified fd m p q s r)

handle_verified-Verified :
    (fd : ℕ) (m : MsgChallenge) (p q : Ptr) (s : Server)
    → Verified fd m p q s (handle_verified fd m p q s)
unfolding handle_verified
handle_verified-Verified fd m p q s = elim (Option-cases (sender m.action p q)) [
  | inl e ↦ inl (e, if_null-none _ _ (wanted_key-sender s m.action p q ∙ ap key_of e))
  | inr (u, e) ↦
      (let wanted =
          if_null-some _ _ (s.users u).key (wanted_key-sender s m.action p q ∙ ap key_of e) in
        elim (Bool-cases ((s.users u).key == m.key)) [
          | inl k ↦ inr (u, e, inr (ground arith, wanted ∙ if-true _ _ k))
          | inr k ↦ inr (u, e, inl (ground arith, wanted ∙ if-false _ _ k))
        ])
]
  where
    key_of : Option Ptr → Option ℕ
    key_of o = elim o [ none ↦ none | some u ↦ some (s.users u).key ]

-- A CHALLENGE on every branch of its checks: with a user whom the server does not know the only effect
-- is one reply NXID; else, with an action that is none of the four, one reply INVARG; else, with a key
-- that is not the sender's, one reply ICKEY; and with the sender's key its action is performed. The
-- sender is the first of the two users for C_START and C_CANCEL, the second for C_ACCEPT and C_REJECT.
pub handle_challenge_keys :
    (fd : ℕ) (m : MsgChallenge) (s : Server) → Checks fd m s (handle_challenge fd m s)
unfolding handle_challenge
handle_challenge_keys fd m s = elim (Option-cases (find_id s m.id1)) [
  | inl e1 ↦ inl (inl e1, if_null-none _ _ e1)
  | inr (p, e1) ↦ elim (Option-cases (find_id s m.id2)) [
    | inl e2 ↦ inl (inr e2, if_null-some _ _ p e1 ∙ if_null-none _ _ e2)
    | inr (q, e2) ↦ inr (
      p,
      q,
      e1,
      e2,
      subst (Verified fd m p q s) (sym (if_null-some _ _ p e1 ∙ if_null-some _ _ q e2))
          (handle_verified-Verified fd m p q s),
    )
  ]
]
