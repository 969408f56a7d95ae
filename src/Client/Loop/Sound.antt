-- ===== src/Client/Loop/Sound.antt =====
-- The loop of `ui_main` as a whole: no assertion of it fails, and the user list stays sound.
use janken.Base.{
  ℕ, ◌<◌, compare, ◌≡◌, refl, sym, subst, Bool, true, false, ◌&&◌, Option, none, some, inl, inr,
  List, [], ◌∷◌, arith, ◌==◌, if_cases, length,
}
use janken.Tree.Laws.{mem, Sorted}
use janken.Message.{
  Body, join, join_r, quit, uchange, challenge, challenge_r, turn, turn_r, sendmsg, MsgSendmsg,
  MsgTurnR, MsgChallenge, MsgChallengeR,
}
use janken.Client.{
  Ptr, UserInfo, Client, Flow, goes, leaves, crash, ◌>>=◌, WaitingFor, w_none, w_cancel, w_accept,
}
use janken.Client.Receive.{
  UiMsg, um_disconn, um_recv, handle_sendmsg, handle_turn_r, handle_challenge, handle_challenge_r,
  begin_battle, print_last_turn, handle_body, handle_ui_msg, receive,
}
use janken.Client.Input.{
  UserCmd, uc_chl_user, uc_battle_act, uc_sort, uc_quit, uc_sendmsg, uc_max, key_cancel, key_accept,
  challenge_user, battle_act, send_message, handle_cmd, key_free, key_waiting, handle_key,
}
use janken.Client.Users.{Inv}
use janken.Client.Users.Packet.{handle_uchange_lem}
use janken.Client.Loop.{Key, handle_keys}

-- No assertion failed, and where the loop goes on the user list is sound.
abbrev pub Fine : Flow → Type 0
Fine (goes c) = Inv c
Fine (leaves c) = Unit
Fine crash = ⊥

pub bind-Fine :
    (f : Flow) (g : Client → Flow) → Fine f → ((c : Client) → Inv c → Fine (g c)) → Fine (f >>= g)
unfolding ◌>>=◌
bind-Fine (goes c) g h k = k c h
bind-Fine (leaves c) g h k = tt
bind-Fine crash g h k = elim h [ ]

-- What only prints, sends and changes the game's state keeps the user list and the
-- focus.
abbrev pub roster : Client → (Ptr → UserInfo) × Ptr × List Ptr × ℕ × ℕ
roster c = (c.users, c.next, c.by_id, c.user_cnt, c.focus_idx)

abbrev pub Same : Client → Client → Type 0
Same c c' = roster c' ≡ roster c

pub Same-Inv : (c c' : Client) → Same c c' → Inv c → Inv c'
Same-Inv c c' s v = record {
  order = subst (λ r. Sorted compare (λ p. (r.0 p).id) r.2) (sym s) v.order;
  count = subst (λ r. r.3 ≡ length r.2) (sym s) v.count;
  older = subst (λ r. (p : Ptr) → mem p r.2 ≡ true → p < r.1) (sym s) v.older;
}

-- A move of the focus.
pub moved-Inv : (idx : ℕ) (c : Client) → Inv c → Inv (record c { focus_idx = idx })
moved-Inv idx c v = record { order = v.order; count = v.count; older = v.older }

pub handle_sendmsg-Same : (m : MsgSendmsg) (c : Client) → Same c (handle_sendmsg m c)
unfolding handle_sendmsg
handle_sendmsg-Same m c = refl

pub handle_turn_r-Same : (m : MsgTurnR) (c : Client) → Same c (handle_turn_r m c)
unfolding handle_turn_r print_last_turn
handle_turn_r-Same m c = ground arith

pub handle_challenge-Same : (m : MsgChallenge) (c : Client) → Same c (handle_challenge m c)
unfolding handle_challenge
handle_challenge-Same m c = ground arith

pub handle_challenge_r-Same : (m : MsgChallengeR) (c : Client) → Same c (handle_challenge_r m c)
unfolding handle_challenge_r begin_battle
handle_challenge_r-Same m c = ground arith

pub key_cancel-Same : (c : Client) → Same c (key_cancel c)
unfolding key_cancel
key_cancel-Same c = refl

pub key_accept-Same : (key : ℕ) (c : Client) → Same c (key_accept key c)
unfolding key_accept
key_accept-Same key c = ground arith

pub challenge_user-Same : (id : ℕ) (name : List ℕ) (c : Client) → Same c (challenge_user id name c)
unfolding challenge_user
challenge_user-Same id name c = ground arith

pub battle_act-Same : (act : ℕ) (c : Client) → Same c (battle_act act c)
unfolding battle_act
battle_act-Same act c = ground arith

goes-Fine : (c c' : Client) → Same c c' → Inv c → Fine (goes c')
goes-Fine c c' s v = Same-Inv c c' s v

handle_body-Fine : (b : Body) (c : Client) → Inv c → Fine (handle_body b c)
unfolding handle_body
handle_body-Fine (sendmsg m) c v = Same-Inv c _ (handle_sendmsg-Same m c) v
handle_body-Fine (turn_r m) c v = Same-Inv c _ (handle_turn_r-Same m c) v
handle_body-Fine (challenge m) c v = Same-Inv c _ (handle_challenge-Same m c) v
handle_body-Fine (challenge_r m) c v = Same-Inv c _ (handle_challenge_r-Same m c) v
handle_body-Fine (uchange m) c v = elim (handle_uchange_lem m c v) [
  | inl (h, (c', e)) ↦ subst Fine (sym e) tt
  | inr (h, (c', e, w, k)) ↦ subst Fine (sym e) w
]
handle_body-Fine (join m) c v = v
handle_body-Fine (join_r m) c v = v
handle_body-Fine (quit m) c v = v
handle_body-Fine (turn m) c v = v

pub receive-Fine : (ums : List UiMsg) (c : Client) → Inv c → Fine (receive ums c)
unfolding receive handle_ui_msg ◌>>=◌
receive-Fine [] c v = v
receive-Fine (um_disconn err ∷ ums) c v = tt
receive-Fine (um_recv msg ∷ ums) c v =
    bind-Fine (handle_body msg.body c) (receive ums) (handle_body-Fine msg.body c v)
      (receive-Fine ums)

-- The commands that the menus and the form hold.
unfoldable pub is_command : Option UserCmd → Bool
is_command none = true
is_command (some (uc_chl_user id score name)) = true
is_command (some (uc_battle_act act)) = true
is_command (some (uc_sort s)) = true
is_command (some uc_quit) = true
is_command (some (uc_sendmsg field)) = true
is_command (some uc_max) = false

unfoldable pub are_commands : List Key → Bool
unfolding is_command
are_commands [] = true
are_commands ((key, cmd) ∷ ks) = is_command cmd && are_commands ks

pub handle_cmd-Fine :
    (u : UserCmd) (c : Client) → is_command (some u) ≡ true → Inv c → Fine (handle_cmd u c)
unfolding handle_cmd is_command send_message
handle_cmd-Fine (uc_chl_user id score name) c h v = Same-Inv c _ (challenge_user-Same id name c) v
handle_cmd-Fine (uc_battle_act act) c h v = Same-Inv c _ (battle_act-Same act c) v
handle_cmd-Fine (uc_sort s) c h v = Same-Inv c _ refl v
handle_cmd-Fine (uc_sendmsg field) c h v = Same-Inv c _ refl v
handle_cmd-Fine uc_quit c h v = tt
handle_cmd-Fine uc_max c h v = cc

key_free-Fine :
    (btab key : ℕ) (cmd : Option UserCmd) (c : Client)
    → is_command cmd ≡ true
    → Inv c
    → Fine (key_free btab key cmd c)
unfolding key_free is_command
key_free-Fine btab key none c h v =
    if_cases Fine (key == 9) (λ e. moved-Inv _ c v)
      (λ e. if_cases Fine (key == btab) (λ f. moved-Inv _ c v) (λ f. v))
key_free-Fine btab key (some u) c h v =
    if_cases Fine (key == 9) (λ e. moved-Inv _ c v)
      (λ e. if_cases Fine (key == btab) (λ f. moved-Inv _ c v) (λ f. handle_cmd-Fine u c h v))

key_waiting-Fine :
    (w : WaitingFor) (btab key : ℕ) (cmd : Option UserCmd) (c : Client)
    → is_command cmd ≡ true
    → Inv c
    → Fine (key_waiting w btab key cmd c)
unfolding key_waiting
key_waiting-Fine w_cancel btab key cmd c h v = Same-Inv c _ (key_cancel-Same c) v
key_waiting-Fine w_accept btab key cmd c h v = Same-Inv c _ (key_accept-Same key c) v
key_waiting-Fine w_none btab key cmd c h v = key_free-Fine btab key cmd c h v

pub handle_keys-Fine :
    (btab : ℕ) (ks : List Key) (c : Client)
    → are_commands ks ≡ true
    → Inv c
    → Fine (handle_keys btab ks c)
unfolding handle_keys handle_key are_commands
handle_keys-Fine btab [] c h v = v
handle_keys-Fine btab ((key, cmd) ∷ ks) c h v =
    bind-Fine (handle_key btab key cmd c) (handle_keys btab ks)
      (key_waiting-Fine c.waiting_for btab key cmd c (ground arith) v)
      (λ c1 v1. handle_keys-Fine btab ks c1 (ground arith) v1)
