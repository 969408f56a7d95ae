-- ===== src/Client/Input.antt =====
-- The loop of `ui_main` over the keys. The menus and the form of ncurses are not modelled: a key comes
-- with the command that the focused one gives for it.
pub mod Once
pub mod Trim
use janken.Base.{
  ℕ, zero, suc, ◌+◌, ◌-◌, ◌%◌, Bool, true, false, not, ◌&&◌, ◌||◌, Option, none, some, List, [],
  ◌∷◌, ◌++◌, leb, ◌==◌, if◌then◌else◌, take, drop, length, set,
}
use janken.Text.{c_str, snprintf}
use janken.Message.Action
use janken.Message.{
  Message, challenge, turn, sendmsg, quit, MsgChallenge, zero_text, text_len, init_msg_buf,
}
use janken.Client.{
  GameState, WaitingFor, w_none, w_cancel, w_accept, SortBy, inviting, yourself, not_in_battle,
  already_acted, chosen, Client, Flow, goes, leaves, crash, print, enqueue,
}

-- `user_cmd_t`: its `kind` and the members in use with it. `uc_sendmsg` has the field's text.
pub data UserCmd : Type 0 where
  uc_chl_user : (id score : ℕ) → (name : List ℕ) → UserCmd
  uc_battle_act : (act : ℕ) → UserCmd
  uc_sort : SortBy → UserCmd
  uc_quit : UserCmd
  uc_sendmsg : (field : List ℕ) → UserCmd
  uc_max : UserCmd

-- What is sent of a challenge by its two sides.
abbrev pub own_challenge : GameState → (id2 action : ℕ) → Message
own_challenge gs id2 action =
    init_msg_buf
      (challenge (record { id1 = gs.id; id2 = id2; key = gs.key; chid = 0; action = action }))

abbrev pub answer : GameState → (action : ℕ) → Message
answer gs action = init_msg_buf (
    challenge
      (record { id1 = gs.opponent_id; id2 = gs.id; key = gs.key; chid = gs.chid; action = action }))

-- A key while the user waits for the other's answer,
unfoldable pub key_cancel : Client → Client
key_cancel c = record (enqueue c (own_challenge c.gs c.gs.opponent_id Action.cancel)) {
  waiting_for = w_none;
}

-- and while the user is asked.
unfoldable pub key_accept : (key : ℕ) → Client → Client
key_accept key c =
    if key == b'y' || key == b'Y'
    then record (enqueue c (answer c.gs Action.accept)) { waiting_for = w_none }
    else if key == b'n' || key == b'N'
    then record (enqueue c (answer c.gs Action.reject)) { waiting_for = w_none }
    else c

unfoldable pub challenge_user : (id : ℕ) → List ℕ → Client → Client
challenge_user id name c =
    if id == c.gs.id
    then print c yourself
    else record (print (enqueue c (own_challenge c.gs id Action.start)) (inviting name)) {
      waiting_for = w_cancel;
    }

unfoldable pub battle_act : (act : ℕ) → Client → Client
battle_act act c =
    if not (c.gs.state == 2)
    then print c not_in_battle
    else if c.gs.acted
    then print c already_acted
    else print
        (record (enqueue c (
          init_msg_buf (
            turn (record {
              user = c.gs.id;
              chid = c.gs.chid;
              key = c.gs.key;
              turn_no = c.gs.turn_no;
              action = act;
            })))) { gs = record c.gs { acted = true } })
        (chosen act)

-- `isspace`
abbrev pub isspace : ℕ → Bool
isspace c = c == 32 || (leb 9 c && leb c 13)

-- `text[sz - 1]`
abbrev pub last_char : List ℕ → ℕ → ℕ
last_char text zero = 0
last_char [] (suc sz) = 0
last_char (x ∷ text) (suc zero) = x
last_char (x ∷ text) (suc (suc sz)) = last_char text (suc sz)

-- The loop that overwrites spaces at the end by NUL: `sz` characters are left of the text.
unfoldable pub trim : ℕ → List ℕ → List ℕ
trim zero text = text
trim (suc sz) text =
    let rest = trim sz (set text sz 0) in if isspace (last_char text (suc sz)) then rest else text

-- What the packet's text becomes. `snprintf` returns the length of the field's string.
unfoldable pub message_text : List ℕ → List ℕ
unfolding snprintf trim
message_text field = trim (length (c_str field)) (snprintf zero_text text_len field)

unfoldable pub send_message : List ℕ → Client → Client
unfolding message_text
send_message field c =
    enqueue c
      (init_msg_buf (sendmsg (record { id = c.gs.id; key = c.gs.key; text = message_text field })))

unfoldable pub handle_cmd : UserCmd → Client → Flow
unfolding challenge_user battle_act send_message
handle_cmd (uc_chl_user id score name) c = goes (challenge_user id name c)
handle_cmd (uc_battle_act act) c = goes (battle_act act c)
handle_cmd (uc_sort sort_by) c = goes (record c { sort_by = sort_by; list_updated = true })
handle_cmd (uc_sendmsg field) c = goes (send_message field c)
handle_cmd uc_quit c = leaves c
handle_cmd uc_max c = crash

-- `focus_cnt`
abbrev pub focus_cnt : ℕ
focus_cnt = 4

-- A key while the user is free: it changes the focus, or gives a command. `btab` is `KEY_BTAB`.
unfoldable pub key_free : (btab key : ℕ) → Option UserCmd → Client → Flow
unfolding handle_cmd
key_free btab key cmd c =
    if key == 9
    then goes (record c { focus_idx = (c.focus_idx + 1) % focus_cnt })
    else if key == btab
    then goes (record c { focus_idx = (c.focus_idx + focus_cnt - 1) % focus_cnt })
    else elim cmd [ none ↦ goes c | some u ↦ handle_cmd u c ]

unfoldable pub key_waiting : WaitingFor → (btab key : ℕ) → Option UserCmd → Client → Flow
unfolding key_free key_cancel key_accept
key_waiting w_cancel btab key cmd c = goes (key_cancel c)
key_waiting w_accept btab key cmd c = goes (key_accept key c)
key_waiting w_none btab key cmd c = key_free btab key cmd c

unfoldable pub handle_key : (btab key : ℕ) → Option UserCmd → Client → Flow
unfolding key_waiting
handle_key btab key cmd c = key_waiting c.waiting_for btab key cmd c

-- `done`: the QUIT that is sent on the way out.
unfoldable pub send_quit : Client → Client
send_quit c = enqueue c (init_msg_buf (quit (record { key = c.gs.key; id = c.gs.id })))
