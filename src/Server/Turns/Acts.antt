-- ===== src/Server/Turns/Acts.antt =====
-- Who can change what a user has chosen in a turn.
use janken.Base.{
  ℕ, ◌≡◌, refl, sym, subst, ◌∙◌, ap, false, not, ◌&&◌, Option, none, some, Bool-cases, inl, inr,
  arith, ◌==◌, ==_iff, if◌then◌else◌, if_cases, ◌⊎◌,
}
use janken.Message.{MsgTurn}
use janken.Server.{
  Server, Ptr, Challenge, Run, done, crash, ◌>>=◌, deref, if_null, find_id, find_ch, set_challenge,
}
use janken.Server.Notify.{broadcast_user_changes}
use janken.Server.Broadcast.{msg_to_all_lem}
use janken.Server.Battle.{
  next_turn, strike, judged, verdict, judge_round, settle, leave_battle, gain_score, lose_score,
  finish, draws, conclude, judge_turn, act, judge_if_both, handle_turn,
}

broadcast-challenges :
    (p q : Ptr) (s : Server) → (broadcast_user_changes p (some q) s).challenges ≡ s.challenges
unfolding broadcast_user_changes
broadcast-challenges p q s = ap (λ t. t.challenges) (msg_to_all_lem none _ s s.by_id)

settle-challenges : (p q : Ptr) (w : ℕ) (s : Server) → (settle p q w s).challenges ≡ s.challenges
unfolding settle leave_battle gain_score lose_score
settle-challenges p q w s =
    if_cases (λ (t : Server). t.challenges ≡ s.challenges) ((s.users p).id == w) (λ _. refl)
      (λ _. refl)

conclude-challenges :
    (c : Ptr) (w : Option ℕ) (p q : Ptr) (s : Server)
    → (conclude c w p q s).challenges ≡ s.challenges
unfolding conclude finish
conclude-challenges c none p q s = refl
conclude-challenges c (some w) p q s = broadcast-challenges p q _ ∙ settle-challenges p q w _

judged-acts :
    (ch : Challenge) (r : ℕ) → ((judged ch r).act1 ≡ ch.act1) × ((judged ch r).act2 ≡ ch.act2)
unfolding judged next_turn strike
judged-acts ch r = ground arith

judge_round-acts :
    (c k : Ptr) (s : Server)
    → (((judge_round c s).challenges k).act1 ≡ (s.challenges k).act1)
      × (((judge_round c s).challenges k).act2 ≡ (s.challenges k).act2)
unfolding judge_round
judge_round-acts c k s =
    if_cases
      (λ (ch : Challenge). (ch.act1 ≡ (s.challenges k).act1) × (ch.act2 ≡ (s.challenges k).act2))
      (k == c)
      (λ e.
        let same = (==_iff k c).0 e in
        (
          (judged-acts (s.challenges c) (s.randoms 0)).0
              ∙ ap (λ q. (s.challenges q).act1) (sym same),
          (judged-acts (s.challenges c) (s.randoms 0)).1
              ∙ ap (λ q. (s.challenges q).act2) (sym same),
        ))
      (λ e.
        if_cases
          (λ (t : Server).
            ((t.challenges k).act1 ≡ (s.challenges k).act1)
            × ((t.challenges k).act2 ≡ (s.challenges k).act2))
          (draws (s.challenges c)) (λ _. (refl, refl)) (λ _. (refl, refl)))

-- What was chosen stays.
abbrev Keeps : Server → Ptr → Run Server → Type 0
Keeps s k (done t) =
    ((t.challenges k).act1 ≡ (s.challenges k).act1)
    × ((t.challenges k).act2 ≡ (s.challenges k).act2)
Keeps s k crash = Unit

judge_turn-Keeps : (c k : Ptr) (force : Option ℕ) (s : Server) → Keeps s k (judge_turn c force s)
unfolding judge_turn deref ◌>>=◌
judge_turn-Keeps c k force s = found (find_id s1 ch.user1) (find_id s1 ch.user2)
  where
    s1 : Server
    s1 = judge_round c s

    ch : Challenge
    ch = s1.challenges c

    found :
        (o1 o2 : Option Ptr)
        → Keeps s k (
            deref o1 >>= λ user1.
            deref o2 >>= λ user2. done (conclude c (verdict force ch) user1 user2 s1))
    found none o2 = tt
    found (some p) none = tt
    found (some p) (some q) =
        let e = conclude-challenges c (verdict force ch) p q s1 in
        let (a, b) = judge_round-acts c k s in
        (ap (λ m. (m k).act1) e ∙ a, ap (λ m. (m k).act2) e ∙ b)

judge_if_both-Keeps : (c k : Ptr) (s : Server) → Keeps s k (judge_if_both c s)
unfolding judge_if_both
judge_if_both-Keeps c k s =
    if_cases (Keeps s k) ((s.challenges c).acted1 && (s.challenges c).acted2)
      (λ _. judge_turn-Keeps c k none s) (λ _. (refl, refl))

-- An act is entered for the first user, or is not.
module _ (turn : MsgTurn) (ch : Challenge) where
  act-act1 :
      ((act turn ch).act1 ≡ ch.act1)
      ⊎ ((turn.user ≡ ch.user1) × (ch.acted1 ≡ false) × ((act turn ch).act1 ≡ turn.action))
  unfolding act
  act-act1 = elim (Bool-cases (turn.user == ch.user1 && not ch.acted1)) [
    | inl e ↦ inr (ground arith, ground arith, ground arith)
    | inr e ↦ inl (ground arith)
  ]

  act-act2 :
      ((act turn ch).act2 ≡ ch.act2)
      ⊎ ((turn.user ≡ ch.user2) × (ch.acted2 ≡ false) × ((act turn ch).act2 ≡ turn.action))
  unfolding act
  act-act2 = elim (Bool-cases (turn.user == ch.user1 && not ch.acted1)) [
    | inl e ↦ inl (ground arith)
    | inr e ↦ elim (Bool-cases (turn.user == ch.user2 && not ch.acted2)) [
      | inl f ↦ inr (ground arith, ground arith, ground arith)
      | inr f ↦ inl (ground arith)
    ]
  ]

-- The sender is a user whose key the packet has.
abbrev pub Known : MsgTurn → Server → Type 0
Known turn s = (p : Ptr) × (find_id s turn.user ≡ some p) × ((s.users p).key ≡ turn.key)

-- The choice of the first user of a challenge, and of the second, before and after a TURN: the same, or
-- made by that very user for the first time in the turn.
abbrev pub Chosen1 : MsgTurn → Server → Challenge → Challenge → Type 0
Chosen1 turn s old new =
    (new.act1 ≡ old.act1)
    ⊎ (Known turn s × (turn.user ≡ old.user1) × (old.acted1 ≡ false) × (new.act1 ≡ turn.action))

abbrev pub Chosen2 : MsgTurn → Server → Challenge → Challenge → Type 0
Chosen2 turn s old new =
    (new.act2 ≡ old.act2)
    ⊎ (Known turn s × (turn.user ≡ old.user2) × (old.acted2 ≡ false) × (new.act2 ≡ turn.action))

module _ (turn : MsgTurn) (s : Server) (k : Ptr) where
  abbrev Guarded : Run Server → Type 0
  Guarded (done t) =
      Chosen1 turn s (s.challenges k) (t.challenges k)
      × Chosen2 turn s (s.challenges k) (t.challenges k)
  Guarded crash = Unit

  unchanged : Guarded (done s)
  unchanged = (inl refl, inl refl)

  abbrev entered : Ptr → Server
  entered c = set_challenge s c (act turn (s.challenges c))

  act-Chosen :
      Known turn s
      → Chosen1 turn s (s.challenges k) (act turn (s.challenges k))
        × Chosen2 turn s (s.challenges k) (act turn (s.challenges k))
  act-Chosen w = (
    elim (act-act1 turn (s.challenges k)) [ inl e ↦ inl e | inr (a, b, e) ↦ inr (w, a, b, e) ],
    elim (act-act2 turn (s.challenges k)) [ inl e ↦ inl e | inr (a, b, e) ↦ inr (w, a, b, e) ],
  )

  entered-Guarded : (c : Ptr) → Known turn s → Guarded (done (entered c))
  entered-Guarded c w =
      if_cases
        (λ (ch : Challenge).
          Chosen1 turn s (s.challenges k) ch × Chosen2 turn s (s.challenges k) ch)
        (k == c)
        (λ e.
          subst
            (λ q.
              Chosen1 turn s (s.challenges k) (act turn (s.challenges q))
              × Chosen2 turn s (s.challenges k) (act turn (s.challenges q)))
            ((==_iff k c).0 e) (act-Chosen w))
        (λ e. (inl refl, inl refl))

  judged-Guarded : (s1 : Server) (r : Run Server) → Guarded (done s1) → Keeps s1 k r → Guarded r
  judged-Guarded s1 (done t) (g1, g2) (e1, e2) = (
    elim g1 [ inl a ↦ inl (e1 ∙ a) | inr (w, a, b, d) ↦ inr (w, a, b, e1 ∙ d) ],
    elim g2 [ inl a ↦ inl (e2 ∙ a) | inr (w, a, b, d) ↦ inr (w, a, b, e2 ∙ d) ],
  )
  judged-Guarded s1 crash g h = tt

  handle_turn-Guarded : Guarded (handle_turn turn s)
  unfolding handle_turn if_null
  handle_turn-Guarded = found (find_ch s turn.chid) (find_id s turn.user) refl
    where
      found :
          (oc op : Option Ptr)
          → find_id s turn.user ≡ op
          → Guarded (
              if_null oc (done s) λ c. if_null op (done s) λ user.
                if (s.users user).key == turn.key then judge_if_both c (entered c) else done s)
      found none op e = unchanged
      found (some c) none e = unchanged
      found (some c) (some p) e =
          if_cases Guarded ((s.users p).key == turn.key)
            (λ d.
              judged-Guarded (entered c) (judge_if_both c (entered c))
                (entered-Guarded c (p, e, (==_iff _ _).0 d)) (judge_if_both-Keeps c k (entered c)))
            (λ d. unchanged)

-- No one acts for another, or twice in a turn: where TURN is handled to the end, then in every
-- challenge the choice of each of the two users is what it was, or the packet comes from that user, with
-- the user's key, the user had not acted yet, and the choice is the packet's.
pub handle_turn_guards :
    (turn : MsgTurn) (s t : Server) (k : Ptr)
    → handle_turn turn s ≡ done t
    → Chosen1 turn s (s.challenges k) (t.challenges k)
      × Chosen2 turn s (s.challenges k) (t.challenges k)
handle_turn_guards turn s t k e = subst (Guarded turn s k) e (handle_turn-Guarded turn s k)
