-- ===== src/Client/Focus/Index.antt =====
-- The index of what has the focus: only TAB and BTAB change it.
use janken.Base.{
  ℕ, ◌≡◌, ◌∙◌, ap, Bool, true, false, Option, none, some, List, [], ◌∷◌, not, ◌==◌, if_cases, take,
}
use janken.Message.{
  Body, join, join_r, quit, uchange, challenge, challenge_r, turn, turn_r, sendmsg, UserEntry,
}
use janken.Client.{Ptr, Client, Flow, goes, leaves, crash, ◌>>=◌, check}
use janken.Client.Receive.{
  UiMsg, um_disconn, um_recv, change_self, change_opponent, remove_user, insert_user, change_user,
  change_list, update_list, apply_change, apply_changes, handle_uchange, handle_body, handle_ui_msg,
  receive, handle_sendmsg, handle_turn_r, handle_challenge, handle_challenge_r,
}
use janken.Client.Input.{
  UserCmd, uc_chl_user, uc_battle_act, uc_sort, uc_quit, uc_sendmsg, uc_max, send_message,
  handle_cmd, challenge_user, battle_act,
}
use janken.Client.Loop.Sound.{
  Same, handle_sendmsg-Same, handle_turn_r-Same, handle_challenge-Same, handle_challenge_r-Same,
  challenge_user-Same, battle_act-Same,
}

abbrev pub At : ℕ → Flow → Type 0
At idx (goes c) = c.focus_idx ≡ idx
At idx (leaves c) = Unit
At idx crash = Unit

bind-At :
    (idx : ℕ) (f : Flow) (g : Client → Flow)
    → At idx f
    → ((c : Client) → c.focus_idx ≡ idx → At idx (g c))
    → At idx (f >>= g)
unfolding ◌>>=◌
bind-At idx (goes c) g h k = k c h
bind-At idx (leaves c) g h k = tt
bind-At idx crash g h k = tt

check-At : (idx : ℕ) (b : Bool) (f : Flow) → At idx f → At idx (check b f)
unfolding check
check-At idx true f h = h
check-At idx false f h = tt

pub Same-At : (idx : ℕ) (c c' : Client) → Same c c' → c.focus_idx ≡ idx → c'.focus_idx ≡ idx
Same-At idx c c' s h = ap (λ r. r.4) s ∙ h

change_list-At :
    (idx : ℕ) (p : Ptr) (e : UserEntry) (node : Option Ptr) (c : Client)
    → c.focus_idx ≡ idx
    → At idx (change_list p e node c)
unfolding change_list remove_user insert_user change_user
change_list-At idx p e none c h =
    if_cases (At idx) (e.state == 0) (λ f. h) (λ f. check-At idx _ _ h)
change_list-At idx p e (some q) c h =
    if_cases (At idx) (e.state == 0) (λ f. check-At idx _ _ h) (λ f. h)

apply_change-At :
    (idx : ℕ) (e : UserEntry) (c : Client) → c.focus_idx ≡ idx → At idx (apply_change e c)
unfolding apply_change update_list change_self change_opponent
apply_change-At idx e c h = bind-At idx (change_self e c) _ (self c h) λ c1 h1.
    bind-At idx (change_list _ e _ _) _ (change_list-At idx _ e _ _ (opponent c1 h1)) λ c2 h2. h2
  where
    self : (c : Client) → c.focus_idx ≡ idx → At idx (change_self e c)
    self c h =
        if_cases (At idx) (not (e.id == c.gs.id)) (λ f. h)
          (λ f. if_cases (At idx) (e.state == 0) (λ k. tt) (λ k. h))

    opponent : (c : Client) → c.focus_idx ≡ idx → (change_opponent e c).focus_idx ≡ idx
    opponent c h =
        if_cases (λ (c' : Client). c'.focus_idx ≡ idx) (e.id == c.gs.opponent_id) (λ f. h) (λ f. h)

apply_changes-At :
    (idx : ℕ) (es : List UserEntry) (c : Client) → c.focus_idx ≡ idx → At idx (apply_changes es c)
unfolding apply_changes
apply_changes-At idx [] c h = h
apply_changes-At idx (e ∷ es) c h =
    bind-At idx (apply_change e c) _ (apply_change-At idx e c h) (apply_changes-At idx es)

handle_body-At : (idx : ℕ) (b : Body) (c : Client) → c.focus_idx ≡ idx → At idx (handle_body b c)
unfolding handle_body handle_uchange
handle_body-At idx (sendmsg m) c h = Same-At idx c (handle_sendmsg m c) (handle_sendmsg-Same m c) h
handle_body-At idx (turn_r m) c h = Same-At idx c (handle_turn_r m c) (handle_turn_r-Same m c) h
handle_body-At idx (challenge m) c h =
    Same-At idx c (handle_challenge m c) (handle_challenge-Same m c) h
handle_body-At idx (challenge_r m) c h =
    Same-At idx c (handle_challenge_r m c) (handle_challenge_r-Same m c) h
handle_body-At idx (uchange m) c h = apply_changes-At idx (take m.count m.users) c h
handle_body-At idx (join m) c h = h
handle_body-At idx (join_r m) c h = h
handle_body-At idx (quit m) c h = h
handle_body-At idx (turn m) c h = h

pub receive-At :
    (idx : ℕ) (ums : List UiMsg) (c : Client) → c.focus_idx ≡ idx → At idx (receive ums c)
unfolding receive handle_ui_msg
receive-At idx [] c h = h
receive-At idx (um_disconn err ∷ ums) c h =
    bind-At idx (leaves c) (receive ums) tt (receive-At idx ums)
receive-At idx (um_recv msg ∷ ums) c h =
    bind-At idx (handle_body msg.body c) (receive ums) (handle_body-At idx msg.body c h)
      (receive-At idx ums)

pub handle_cmd-At :
    (idx : ℕ) (u : UserCmd) (c : Client) → c.focus_idx ≡ idx → At idx (handle_cmd u c)
unfolding handle_cmd send_message
handle_cmd-At idx (uc_chl_user id score name) c h =
    Same-At idx c (challenge_user id name c) (challenge_user-Same id name c) h
handle_cmd-At idx (uc_battle_act act) c h =
    Same-At idx c (battle_act act c) (battle_act-Same act c) h
handle_cmd-At idx (uc_sort s) c h = h
handle_cmd-At idx (uc_sendmsg field) c h = h
handle_cmd-At idx uc_quit c h = tt
handle_cmd-At idx uc_max c h = tt
