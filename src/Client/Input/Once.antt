-- ===== src/Client/Input/Once.antt =====
-- A user acts once a turn: what keys can send between two packets of the server.
use janken.Base.{
  ℕ, suc, ◌+◌, ◌≤◌, ◌≡◌, refl, Bool, true, false, not, ◌||◌, Option, none, some, List, [], ◌∷◌,
  ◌++◌, arith, ◌==◌, if◌then◌else◌, if_cases, if-true, if-false,
}
use janken.Message.{
  Message, Body, join, join_r, quit, uchange, challenge, challenge_r, turn, turn_r, sendmsg,
  init_msg_buf,
}
use janken.Client.{Client, Flow, goes, leaves, crash, ◌>>=◌, WaitingFor, w_none, w_cancel, w_accept}
use janken.Client.Input.{
  UserCmd, uc_chl_user, uc_battle_act, uc_sort, uc_quit, uc_sendmsg, uc_max, key_cancel, key_accept,
  challenge_user, battle_act, send_message, handle_cmd, key_free, key_waiting, handle_key,
}
use janken.Client.Loop.{Key, handle_keys}

abbrev pub is_turn : Body → Bool
is_turn (turn m) = true
is_turn (join m) = false
is_turn (join_r m) = false
is_turn (quit m) = false
is_turn (uchange m) = false
is_turn (challenge m) = false
is_turn (challenge_r m) = false
is_turn (turn_r m) = false
is_turn (sendmsg m) = false

-- How many TURN packets are among those sent.
unfoldable pub turns : List Message → ℕ
turns [] = 0
turns (msg ∷ sent) = if is_turn msg.body then suc (turns sent) else turns sent

turns-plain :
    (sent : List Message) (msg : Message)
    → is_turn msg.body ≡ false
    → turns (sent ++ msg ∷ []) ≡ turns sent
unfolding turns
turns-plain [] msg h = if-false _ _ h
turns-plain (m ∷ sent) msg h = ground (arith, turns-plain sent msg h)

turns-turn :
    (sent : List Message) (msg : Message)
    → is_turn msg.body ≡ true
    → turns (sent ++ msg ∷ []) ≡ suc (turns sent)
unfolding turns
turns-turn [] msg h = if-true _ _ h
turns-turn (m ∷ sent) msg h = ground (arith, turns-turn sent msg h)

-- How many there may be until the next turn.
abbrev pub budget : Client → ℕ
budget c = turns c.sent + (if c.gs.acted then 0 else 1)

abbrev pub Within : ℕ → Flow → Type 0
Within n (goes c) = budget c ≤ n
Within n (leaves c) = budget c ≤ n
Within n crash = Unit

-- Any other packet may be sent.
plain :
    (c : Client) (msg : Message)
    → is_turn msg.body ≡ false
    → turns (c.sent ++ msg ∷ []) + (if c.gs.acted then 0 else 1) ≤ budget c
plain c msg h = omega (arith, turns-plain c.sent msg h)

abbrev Less : Client → Client → Type 0
Less c d = budget d ≤ budget c

same : (c : Client) → Less c c
same c = omega arith

key_cancel-Less : (c : Client) → Less c (key_cancel c)
unfolding key_cancel init_msg_buf
key_cancel-Less c = plain c _ refl

key_accept-Less : (key : ℕ) (c : Client) → Less c (key_accept key c)
unfolding key_accept init_msg_buf
key_accept-Less key c =
    if_cases (Less c) (key == b'y' || key == b'Y') (λ _. plain c _ refl)
      λ _. if_cases (Less c) (key == b'n' || key == b'N') (λ _. plain c _ refl) λ _. same c

challenge_user-Less : (id : ℕ) (name : List ℕ) (c : Client) → Less c (challenge_user id name c)
unfolding challenge_user init_msg_buf
challenge_user-Less id name c =
    if_cases (Less c) (id == c.gs.id) (λ _. same c) (λ _. plain c _ refl)

battle_act-Less : (act : ℕ) (c : Client) → Less c (battle_act act c)
unfolding battle_act init_msg_buf
battle_act-Less act c =
    if_cases (Less c) (not (c.gs.state == 2)) (λ _. same c)
      λ _.
        if_cases (Less c) c.gs.acted (λ _. same c)
          λ e. omega (
            arith,
            turns-turn c.sent
                (init_msg_buf (
                  turn (record {
                    user = c.gs.id;
                    chid = c.gs.chid;
                    key = c.gs.key;
                    turn_no = c.gs.turn_no;
                    action = act;
                  })))
                refl,
            if-false {A = ℕ} {b = c.gs.acted} 0 1 e,
          )

send_message-Less : (field : List ℕ) (c : Client) → Less c (send_message field c)
unfolding send_message init_msg_buf
send_message-Less field c = plain c _ refl

handle_cmd-Within : (u : UserCmd) (c : Client) → Within (budget c) (handle_cmd u c)
unfolding handle_cmd
handle_cmd-Within (uc_chl_user id score name) c = challenge_user-Less id name c
handle_cmd-Within (uc_battle_act act) c = battle_act-Less act c
handle_cmd-Within (uc_sort s) c = same c
handle_cmd-Within (uc_sendmsg field) c = send_message-Less field c
handle_cmd-Within uc_quit c = same c
handle_cmd-Within uc_max c = tt

key_free-Within :
    (btab key : ℕ) (cmd : Option UserCmd) (c : Client) → Within (budget c) (key_free btab key cmd c)
unfolding key_free
key_free-Within btab key none c =
    if_cases (Within (budget c)) (key == 9) (λ _. same c)
      λ _. if_cases (Within (budget c)) (key == btab) (λ _. same c) (λ _. same c)
key_free-Within btab key (some u) c =
    if_cases (Within (budget c)) (key == 9) (λ _. same c)
      λ _. if_cases (Within (budget c)) (key == btab) (λ _. same c) (λ _. handle_cmd-Within u c)

key_waiting-Within :
    (w : WaitingFor) (btab key : ℕ) (cmd : Option UserCmd) (c : Client)
    → Within (budget c) (key_waiting w btab key cmd c)
unfolding key_waiting
key_waiting-Within w_cancel btab key cmd c = key_cancel-Less c
key_waiting-Within w_accept btab key cmd c = key_accept-Less key c
key_waiting-Within w_none btab key cmd c = key_free-Within btab key cmd c

bind-Within :
    (n : ℕ) (f : Flow) (g : Client → Flow)
    → Within n f
    → ((c : Client) → Within (budget c) (g c))
    → Within n (f >>= g)
unfolding ◌>>=◌
bind-Within n (goes c) g h k = more (g c) (k c) h
  where
    more : (f : Flow) → Within (budget c) f → budget c ≤ n → Within n f
    more (goes d) i h = omega arith
    more (leaves d) i h = omega arith
    more crash i h = tt
bind-Within n (leaves c) g h k = h
bind-Within n crash g h k = tt

-- Whatever keys are pressed between two rounds of packets, no more TURN packets are sent than one, and
-- none at all where the user has acted on this turn.
pub handle_keys-Within :
    (btab : ℕ) (ks : List Key) (c : Client)
    → Within (turns c.sent + (if c.gs.acted then 0 else 1)) (handle_keys btab ks c)
unfolding handle_keys handle_key
handle_keys-Within btab [] c = same c
handle_keys-Within btab ((key, cmd) ∷ ks) c =
    bind-Within (budget c) (handle_key btab key cmd c) (handle_keys btab ks)
      (key_waiting-Within c.waiting_for btab key cmd c) (handle_keys-Within btab ks)
