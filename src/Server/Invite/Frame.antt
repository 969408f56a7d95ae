-- ===== src/Server/Invite/Frame.antt =====
-- CHALLENGE packets leave the users' trees and their order alone.
use janken.Message.Action
use janken.Base.{ℕ, zero, suc, ◌&&◌, ◌==◌, refl, none, some, arith}
use janken.Message.{MsgChallenge}
use janken.Server.{Server, Ptr, Challenge, Run}
use janken.Server.Ensures.{
  Ensures, returns, crashes, Ensures-bind, Ensures-check, Ensures-if_null, Ensures-if,
}
use janken.Server.Frame.{
  Frame, Frame-refl, Frame-trans, Frame-after, set_user-Frame, set_challenge-Frame, rest-Frame,
  send-Frame, unlist-Frame, if-Frame, if_null-Frame, broadcast-Frame, judge_turn-Frame,
}
use janken.Server.Invite.{
  enter_challenge, challenge_rounds, add_challenge, fill_challenge, relay, begin_challenge,
  handle_start, withdraw, handle_cancel, enter_battle, announce_battle, begin_battle, handle_accept,
  is_online, is_started, handle_reject, handle_answer, handle_action, handle_verified,
  handle_challenge,
}

-- `Frame` for an operation that also gives an address.
abbrev Framed : Server → Ptr × Server → Type 0
Framed s (c, t) = Frame s t

enter_challenge-Frame : (c : Ptr) (s : Server) → Ensures (Framed s) (enter_challenge c s)
unfolding enter_challenge
enter_challenge-Frame c s = Ensures-check _ _ λ _. returns (unlist-Frame s _)

after_Framed :
    {s t : Server} {m : Run (Ptr × Server)}
    → Frame s t
    → Ensures (Framed t) m
    → Ensures (Framed s) m
after_Framed f (returns g) = returns (Frame-trans f g)
after_Framed f crashes = crashes

challenge_rounds-Frame :
    (n : ℕ) (c : Ptr) (s : Server) → Ensures (Framed s) (challenge_rounds n c s)
unfolding challenge_rounds
challenge_rounds-Frame zero c s = crashes
challenge_rounds-Frame (suc n) c s =
    Ensures-if_null _ _ _ (λ _. after_Framed (rest-Frame s _ _ _ _) (enter_challenge-Frame c _))
      (λ d _. after_Framed (rest-Frame s _ _ _ _) (challenge_rounds-Frame n c _))

pub allocate-Frame :
    (s : Server) (m : Ptr → Challenge) → Frame s (record s { next = suc s.next; challenges = m })
allocate-Frame s m = record {
  by_id = refl;
  by_fd = refl;
  by_nick = refl;
  user_cnt = refl;
  next = omega arith;
  ids_kept = refl;
  fds_kept = refl;
  nicks_kept = refl;
}

add_challenge-Frame : (s : Server) → Ensures (Framed s) (add_challenge s)
unfolding add_challenge
add_challenge-Frame s = after_Framed (allocate-Frame s _) (challenge_rounds-Frame 16 s.next _)

fill_challenge-Frame :
    (m : MsgChallenge) (p c : Ptr) (s : Server) → Frame s (fill_challenge m p c s)
unfolding fill_challenge
fill_challenge-Frame m p c s =
    Frame-trans (set_challenge-Frame s c _) (set_user-Frame _ p _ refl refl refl)

relay-Frame : (m : MsgChallenge) (p c : Ptr) (s : Server) → Frame s (relay m p c s)
unfolding relay
relay-Frame m p c s = send-Frame s _ _

begin_challenge-Frame :
    (m : MsgChallenge) (p q : Ptr) (s : Server) → Ensures (Frame s) (begin_challenge m p q s)
unfolding begin_challenge
begin_challenge-Frame m p q s =
    Ensures-bind (add_challenge s) _ (add_challenge-Frame s) λ (c, t) _ f.
      returns (Frame-trans f (Frame-trans (fill_challenge-Frame m p c t) (relay-Frame m q c _)))

handle_start-Frame :
    (fd : ℕ) (m : MsgChallenge) (p q : Ptr) (s : Server)
    → Ensures (Frame s) (handle_start fd m p q s)
unfolding handle_start
handle_start-Frame fd m p q s =
    Ensures-if_null _ _ _ (λ _. begin_challenge-Frame m p q s) λ e _. returns (send-Frame s fd _)

withdraw-Frame : (m : MsgChallenge) (p c : Ptr) (s : Server) → Frame s (withdraw m p c s)
unfolding withdraw
withdraw-Frame m p c s =
    Frame-trans (Frame-trans (set_user-Frame s p _ refl refl refl) (unlist-Frame _ _))
      (if_null-Frame _ _ _ _ (Frame-refl _) λ q. send-Frame _ _ _)

handle_cancel-Frame : (m : MsgChallenge) (p : Ptr) (s : Server) → Frame s (handle_cancel m p s)
unfolding handle_cancel
handle_cancel-Frame m p s = if-Frame s _ _ _ (Frame-refl s) (
    if_null-Frame s _ _ _ (Frame-refl s)
      λ c. if-Frame s _ _ _ (withdraw-Frame m p c s) (Frame-refl s))

pub enter_battle-Frame : (p q c : Ptr) (s : Server) → Frame s (enter_battle p q c s)
unfolding enter_battle
enter_battle-Frame p q c s =
    Frame-trans
      (Frame-trans
        (Frame-trans (Frame-trans (set_challenge-Frame s c _) (set_user-Frame _ q _ refl refl refl))
          (set_user-Frame _ p _ refl refl refl))
        (set_user-Frame _ q _ refl refl refl))
      (set_user-Frame _ p _ refl refl refl)

pub announce_battle-Frame :
    (m : MsgChallenge) (p q : Ptr) (s : Server) → Frame s (announce_battle m p q s)
unfolding announce_battle
announce_battle-Frame m p q s =
    Frame-trans (Frame-trans (broadcast-Frame p (some q) s) (send-Frame _ _ _)) (send-Frame _ _ _)

begin_battle-Frame :
    (m : MsgChallenge) (p q c : Ptr) (s : Server) → Ensures (Frame s) (begin_battle m p q c s)
unfolding begin_battle
begin_battle-Frame m p q c s =
    Frame-after
      (Frame-trans (Frame-trans (enter_battle-Frame p q c s) (announce_battle-Frame m p q _))
        (set_challenge-Frame _ c _))
      (judge_turn-Frame c none _)

handle_reject-Frame :
    (m : MsgChallenge) (p q c : Ptr) (s : Server) → Frame s (handle_reject m p q c s)
unfolding handle_reject
handle_reject-Frame m p q c s =
    if-Frame s _ _ _ (Frame-trans (send-Frame s _ _) (unlist-Frame _ _)) (Frame-refl s)

handle_answer-Frame :
    (fd : ℕ) (m : MsgChallenge) (p q : Ptr) (s : Server)
    → Ensures (Frame s) (handle_answer fd m p q s)
unfolding handle_answer handle_accept
handle_answer-Frame fd m p q s =
    Ensures-if_null _ _ _ (λ _. returns (send-Frame s fd _))
      λ c _.
        Ensures-if (is_started (s.challenges c).state) _ _ (λ _. returns (Frame-refl s))
          λ _.
            Ensures-if (m.action == Action.accept) _ _
              (λ _.
                Ensures-if (is_online (s.users p).state && is_online (s.users q).state) _ _
                  (λ _. begin_battle-Frame m p q c s) (λ _. returns (send-Frame s fd _)))
              (λ _. returns (handle_reject-Frame m p q c s))

handle_verified-Frame :
    (fd : ℕ) (m : MsgChallenge) (p q : Ptr) (s : Server)
    → Ensures (Frame s) (handle_verified fd m p q s)
unfolding handle_verified handle_action
handle_verified-Frame fd m p q s =
    Ensures-if_null _ _ _ (λ _. returns (send-Frame s fd _))
      λ key _.
        Ensures-if (key == m.key) _ _
          (λ _.
            Ensures-if (m.action == Action.start) _ _ (λ _. handle_start-Frame fd m p q s)
              λ _.
                Ensures-if (m.action == Action.cancel) _ _
                  (λ _. returns (handle_cancel-Frame m p s)) λ _. handle_answer-Frame fd m p q s)
          (λ _. returns (send-Frame s fd _))

pub handle_challenge-Frame :
    (fd : ℕ) (m : MsgChallenge) (s : Server) → Ensures (Frame s) (handle_challenge fd m s)
unfolding handle_challenge
handle_challenge-Frame fd m s =
    Ensures-if_null _ _ _ (λ _. returns (send-Frame s fd _))
      λ p _.
        Ensures-if_null _ _ _ (λ _. returns (send-Frame s fd _))
          λ q _. handle_verified-Frame fd m p q s
