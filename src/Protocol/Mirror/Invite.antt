-- ===== src/Protocol/Mirror/Invite.antt =====
-- CHALLENGE packets, for one who follows the users.
use janken.Message.Action
use janken.Base.{ℕ, zero, suc, ◌&&◌, ◌==◌, ==_refl, ◌≡◌, refl, true, none, some, [], ◌∷◌, arith}
use janken.Tree.Laws.{mem}
use janken.Message.{MsgChallenge, MsgErr, init_msg_buf}
use janken.Server.{Server, Ptr, started, Run, msg_send, set_challenge}
use janken.Server.Ensures.{
  Ensures, returns, crashes, Ensures-bind, Ensures-check, Ensures-if_null, Ensures-if,
}
use janken.Server.Frame.{set_user-Frame, set_challenge-Frame}
use janken.Server.Invite.{
  reply, enter_challenge, challenge_rounds, add_challenge, fill_challenge, relay, begin_challenge,
  handle_start, withdraw, handle_cancel, enter_battle, announce_battle, begin_battle, handle_accept,
  is_online, is_started, handle_reject, handle_answer, handle_action, handle_verified,
  handle_challenge,
}
use janken.Server.Invite.Frame.{allocate-Frame}
use janken.Protocol.Mirror.Informs.{
  Informs, Informs-trans, Informs-quiet, Informs-refl, Informs-rest, Informs-send, Informs-set_user,
  Informs-if, Informs-if_null, Informs-after, Alters, Alters-trans, Alters-set_user,
  Informs-broadcast,
}
use janken.Protocol.Mirror.Battle.{found_inside, judge_turn-Informs}

-- `Informs` for an operation that also gives an address.
abbrev Gives : ℕ → Server → Ptr × Server → Type 0
Gives f s (c, t) = Informs f s t

after_Gives :
    {f : ℕ} {s t : Server} {m : Run (Ptr × Server)}
    → Informs f s t
    → Ensures (Gives f t) m
    → Ensures (Gives f s) m
after_Gives h (returns k) = returns (Informs-trans h k)
after_Gives h crashes = crashes

reply-Informs :
    {f : ℕ} (s : Server) (fd : ℕ) (m : MsgChallenge) (e : MsgErr) (n : ℕ)
    → Informs f s (msg_send s fd (reply m e n))
unfolding reply init_msg_buf
reply-Informs s fd m e n = Informs-send s fd _ λ g k. refl

enter_challenge-Informs : {f : ℕ} (c : Ptr) (s : Server) → Ensures (Gives f s) (enter_challenge c s)
unfolding enter_challenge
enter_challenge-Informs c s = Ensures-check _ _ λ _. returns (Informs-rest s _ _ _)

challenge_rounds-Informs :
    {f : ℕ} (n : ℕ) (c : Ptr) (s : Server) → Ensures (Gives f s) (challenge_rounds n c s)
unfolding challenge_rounds
challenge_rounds-Informs zero c s = crashes
challenge_rounds-Informs (suc n) c s =
    Ensures-if_null _ _ _ (λ _. after_Gives (Informs-rest s _ _ _) (enter_challenge-Informs c _))
      (λ d _. after_Gives (Informs-rest s _ _ _) (challenge_rounds-Informs n c _))

add_challenge-Informs : {f : ℕ} (s : Server) → Ensures (Gives f s) (add_challenge s)
unfolding add_challenge
add_challenge-Informs s =
    after_Gives (Informs-quiet (allocate-Frame s _) refl λ p. refl)
      (challenge_rounds-Informs 16 s.next _)

begin_challenge-Informs :
    {f : ℕ} (m : MsgChallenge) (p q : Ptr) (s : Server)
    → Ensures (Informs f s) (begin_challenge m p q s)
unfolding begin_challenge fill_challenge relay init_msg_buf
begin_challenge-Informs m p q s =
    Ensures-bind (add_challenge s) _ (add_challenge-Informs s) λ (c, t) _ h. returns (
      Informs-trans h (
        Informs-trans
          (Informs-trans (Informs-rest t _ _ _)
            (Informs-set_user _ p _ (set_user-Frame _ p _ refl refl refl) refl))
          (Informs-send _ _ _ λ g k. refl)))

handle_start-Informs :
    {f : ℕ} (fd : ℕ) (m : MsgChallenge) (p q : Ptr) (s : Server)
    → Ensures (Informs f s) (handle_start fd m p q s)
unfolding handle_start
handle_start-Informs fd m p q s =
    Ensures-if_null _ _ _ (λ _. begin_challenge-Informs m p q s)
      λ e _. returns (reply-Informs s fd m _ _)

withdraw-Informs :
    {f : ℕ} (m : MsgChallenge) (p c : Ptr) (s : Server) → Informs f s (withdraw m p c s)
unfolding withdraw
withdraw-Informs m p c s =
    Informs-trans
      (Informs-trans (Informs-set_user s p _ (set_user-Frame s p _ refl refl refl) refl)
        (Informs-rest _ _ _ _))
      (Informs-if_null _ _ (Informs-refl _) λ q. reply-Informs _ _ m _ _)

handle_cancel-Informs :
    {f : ℕ} (m : MsgChallenge) (p : Ptr) (s : Server) → Informs f s (handle_cancel m p s)
unfolding handle_cancel
handle_cancel-Informs m p s = Informs-if _ (Informs-refl s) (
    Informs-if_null _ _ (Informs-refl s)
      λ c. Informs-if _ (withdraw-Informs m p c s) (Informs-refl s))

enter_battle-Alters : (p q c : Ptr) (s : Server) → Alters (p ∷ q ∷ []) s (enter_battle p q c s)
unfolding enter_battle
enter_battle-Alters p q c s =
    Alters-trans
      (Alters-trans
        (Alters-trans
          (Alters-trans began (Alters-set_user _ q _ (set_user-Frame _ q _ refl refl refl) second))
          (Alters-set_user _ p _ (set_user-Frame _ p _ refl refl refl) first))
        (Alters-set_user _ q _ (set_user-Frame _ q _ refl refl refl) second))
      (Alters-set_user _ p _ (set_user-Frame _ p _ refl refl refl) first)
  where
    began : Alters (p ∷ q ∷ []) s (set_challenge s c (record (s.challenges c) { state = started }))
    began = record { frame = set_challenge-Frame s c _; sent = refl; others = λ r i. refl }

    first : mem p (p ∷ q ∷ []) ≡ true
    first = ground (arith, ==_refl p)

    second : mem q (p ∷ q ∷ []) ≡ true
    second = ground (arith, ==_refl q)

begin_battle-Informs :
    {f : ℕ} (m : MsgChallenge) (p q c : Ptr) (s : Server)
    → mem p s.by_id ≡ true
    → mem q s.by_id ≡ true
    → Ensures (Informs f s) (begin_battle m p q c s)
unfolding begin_battle announce_battle
begin_battle-Informs m p q c s hp hq =
    Informs-after
      (Informs-trans
        (Informs-trans
          (Informs-trans
            (Informs-broadcast p (some q) s (enter_battle p q c s) (enter_battle-Alters p q c s)
              (hp, (hq, tt)))
            (reply-Informs _ _ m _ _))
          (reply-Informs _ _ m _ _))
        (Informs-rest _ _ _ _))
      (judge_turn-Informs c none _)

handle_reject-Informs :
    {f : ℕ} (m : MsgChallenge) (p q c : Ptr) (s : Server) → Informs f s (handle_reject m p q c s)
unfolding handle_reject
handle_reject-Informs m p q c s =
    Informs-if _ (Informs-trans (reply-Informs s _ m _ _) (Informs-rest _ _ _ _)) (Informs-refl s)

handle_answer-Informs :
    {f : ℕ} (fd : ℕ) (m : MsgChallenge) (p q : Ptr) (s : Server)
    → mem p s.by_id ≡ true
    → mem q s.by_id ≡ true
    → Ensures (Informs f s) (handle_answer fd m p q s)
unfolding handle_answer handle_accept
handle_answer-Informs fd m p q s hp hq =
    Ensures-if_null _ _ _ (λ _. returns (reply-Informs s fd m _ _))
      λ c _.
        Ensures-if (is_started (s.challenges c).state) _ _ (λ _. returns (Informs-refl s))
          λ _.
            Ensures-if (m.action == Action.accept) _ _
              (λ _.
                Ensures-if (is_online (s.users p).state && is_online (s.users q).state) _ _
                  (λ _. begin_battle-Informs m p q c s hp hq)
                  (λ _. returns (reply-Informs s fd m _ _)))
              (λ _. returns (handle_reject-Informs m p q c s))

handle_verified-Informs :
    {f : ℕ} (fd : ℕ) (m : MsgChallenge) (p q : Ptr) (s : Server)
    → mem p s.by_id ≡ true
    → mem q s.by_id ≡ true
    → Ensures (Informs f s) (handle_verified fd m p q s)
unfolding handle_verified handle_action
handle_verified-Informs fd m p q s hp hq =
    Ensures-if_null _ _ _ (λ _. returns (reply-Informs s fd m _ _))
      λ key _.
        Ensures-if (key == m.key) _ _
          (λ _.
            Ensures-if (m.action == Action.start) _ _ (λ _. handle_start-Informs fd m p q s)
              λ _.
                Ensures-if (m.action == Action.cancel) _ _
                  (λ _. returns (handle_cancel-Informs m p s))
                  λ _. handle_answer-Informs fd m p q s hp hq)
          (λ _. returns (reply-Informs s fd m _ _))

pub handle_challenge-Informs :
    {f : ℕ} (fd : ℕ) (m : MsgChallenge) (s : Server)
    → Ensures (Informs f s) (handle_challenge fd m s)
unfolding handle_challenge
handle_challenge-Informs fd m s =
    Ensures-if_null _ _ _ (λ _. returns (reply-Informs s fd m _ _))
      λ p e.
        Ensures-if_null _ _ _ (λ _. returns (reply-Informs s fd m _ _))
          λ q d. handle_verified-Informs fd m p q s (found_inside s _ p e) (found_inside s _ q d)
