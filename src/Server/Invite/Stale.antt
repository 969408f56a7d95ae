-- ===== src/Server/Invite/Stale.antt =====
-- Accepting a challenge whose users have changed: `handle_challenge` compares the challenge with the
-- packet's users nowhere.
use janken.Base.{
  ℕ, ◌≡◌, ◌∙◌, ap, true, false, ◌&&◌, none, some, ◌⊎◌, inl, inr, ◌==◌, if-true, if-false,
}
use janken.Message.Action
use janken.Message.{MsgChallenge}
use janken.Server.{Server, Ptr, crash, find_id, find_ch, set_challenge, started}
use janken.Server.Ensures.{if_null-some, update_self}
use janken.Server.Frame.{Frame, Frame-trans, find_id-Frame, set_challenge-Frame}
use janken.Server.Notify.{broadcast_user_changes}
use janken.Server.Broadcast.{msg_to_all_lem}
use janken.Server.Turns.{judge_turn-crash}
use janken.Server.Invite.{
  wanted_key, is_online, is_started, enter_battle, announce_battle, begin_battle, handle_accept,
  handle_answer, handle_action, handle_challenge,
}
use janken.Server.Invite.Frame.{enter_battle-Frame, announce_battle-Frame}
use janken.Server.Invite.Keys.{handle_challenge_authorized}

module _ (m : MsgChallenge) (p q c : Ptr) (s : Server) where
  abbrev announced : Server
  announced = announce_battle m p q (enter_battle p q c s)

  abbrev ready : Server
  ready = set_challenge announced c (record (announced.challenges c) { turn_no = 0 })

  ready-Frame : Frame s ready
  ready-Frame =
      Frame-trans (Frame-trans (enter_battle-Frame p q c s) (announce_battle-Frame m p q _))
        (set_challenge-Frame announced c _)

  announced-challenges : announced.challenges ≡ (enter_battle p q c s).challenges
  unfolding announce_battle broadcast_user_changes
  announced-challenges =
      ap (λ t. t.challenges)
        (msg_to_all_lem none _ (enter_battle p q c s) (enter_battle p q c s).by_id)

  entered : (enter_battle p q c s).challenges c ≡ record (s.challenges c) { state = started }
  unfolding enter_battle
  entered = update_self s.challenges c _

  -- The challenge's users are not written.
  ready_users : (ready.challenges c) ≡ record (s.challenges c) { state = started; turn_no = 0 }
  ready_users =
      update_self announced.challenges c _
      ∙ (λ i. record (announced-challenges i c) { turn_no = 0 })
      ∙ (λ i. record (entered i) { turn_no = 0 })

  begin_battle-crash :
      (find_id s (s.challenges c).user1 ≡ none) ⊎ (find_id s (s.challenges c).user2 ≡ none)
      → begin_battle m p q c s ≡ crash
  unfolding begin_battle
  begin_battle-crash (inl e) =
      judge_turn-crash c none ready
        (inl (find_id-Frame ready-Frame _ ∙ ap (λ ch. find_id s ch.user1) ready_users ∙ e))
  begin_battle-crash (inr e) =
      judge_turn-crash c none ready
        (inr (find_id-Frame ready-Frame _ ∙ ap (λ ch. find_id s ch.user2) ready_users ∙ e))

-- The flaw: a C_ACCEPT that names two users who are online, with the key of the second, and a
-- challenge that nobody has accepted, ends the process where one of that challenge's own users is no
-- user any more.
pub handle_challenge_crashes :
    (fd : ℕ) (m : MsgChallenge) (s : Server) (p q c : Ptr)
    → find_id s m.id1 ≡ some p
    → find_id s m.id2 ≡ some q
    → m.action ≡ Action.accept
    → (s.users q).key ≡ m.key
    → find_ch s m.chid ≡ some c
    → is_started (s.challenges c).state ≡ false
    → (is_online (s.users p).state && is_online (s.users q).state) ≡ true
    → (find_id s (s.challenges c).user1 ≡ none) ⊎ (find_id s (s.challenges c).user2 ≡ none)
    → handle_challenge fd m s ≡ crash
unfolding handle_action handle_answer handle_accept wanted_key
handle_challenge_crashes fd m s p q c e1 e2 ea ek ec fresh online gone =
    handle_challenge_authorized fd m s p q e1 e2
      (ap (λ a. wanted_key a (s.users p) (s.users q)) ea ∙ ap some ek)
    ∙ if-false _ _ (ap (λ a. a == Action.start) ea)
    ∙ if-false _ _ (ap (λ a. a == Action.cancel) ea)
    ∙ if_null-some _ _ c ec
    ∙ if-false _ _ fresh
    ∙ if-true _ _ (ap (λ a. a == Action.accept) ea)
    ∙ if-true _ _ online
    ∙ begin_battle-crash m p q c s gone
