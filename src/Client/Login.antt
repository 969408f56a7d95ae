-- ===== src/Client/Login.antt =====
-- `ui_login` of client/client.c: a state machine over the keys, the results of `do_connect` and the
-- messages of the receiving thread. The keys of ncurses are parameters.
pub mod Nickname
pub mod Connected
pub mod Joined
use janken.Base.{
  ℕ, zero, suc, ◌+◌, ◌-◌, ◌%◌, Bool, true, false, not, ◌||◌, Option, none, some, List, [], ◌∷◌,
  ◌++◌, leb, ◌==◌, if◌then◌else◌, set, replicate,
}
use janken.Text.{nickname_len, is_nickchar, is_nickstr}
use janken.Message.{
  Message, Body, join, join_r, quit, uchange, challenge, challenge_r, turn, turn_r, sendmsg,
  MsgJoinR, make_join,
}
use janken.Client.Receive.{UiMsg, um_disconn, um_recv}

pub record Keys : Type 0 where
  pub backspace : ℕ
  pub down : ℕ
  pub up : ℕ
  pub left : ℕ
  pub right : ℕ

pub data LoginState : Type 0 where
  wait_input to_connect send_join wait_msg success : LoginState

-- The text in `info`.
pub data LoginInfo : Type 0 where
  no_info connecting illegal_nickname too_long connect_failed waiting joined : LoginInfo
  not_allowed : (key : ℕ) → LoginInfo
  disconnected : (err : ℕ) → LoginInfo
  cannot_join : (error : ℕ) → LoginInfo
  whats_this : (kind : ℕ) → LoginInfo

-- `fd` is `none` for -1.
pub record Login : Type 0 where
  pub state : LoginState
  pub info : LoginInfo
  pub nick_buf : List ℕ
  pub nick_len : ℕ
  pub connected : Bool
  pub fd : Option ℕ
  pub done : Bool
  pub sent : List Message
  pub join_msg : Option Message

-- What a round reads: each state reads one of the three.
pub record Inputs : Type 0 where
  pub key : ℕ
  pub connect : Option ℕ
  pub message : UiMsg

-- The beginning of `ui_login`; `fd` is not set there.
unfoldable pub ui_login_begin : Option ℕ → Login
ui_login_begin fd = record {
  state = wait_input;
  info = no_info;
  nick_buf = replicate nickname_len 0;
  nick_len = 0;
  connected = false;
  fd = fd;
  done = false;
  sent = [];
  join_msg = none;
}

abbrev pub is_bksp : Keys → ℕ → Bool
is_bksp k c = c == k.backspace || c == 8 || c == 127

abbrev pub is_arrow : Keys → ℕ → Bool
is_arrow k c = c == k.down || c == k.up || c == k.left || c == k.right

unfoldable pub erase : Login → Login
erase l =
    if leb 1 l.nick_len
    then record l {
      info = no_info;
      nick_buf = set l.nick_buf (l.nick_len - 1) 0;
      nick_len = l.nick_len - 1;
    }
    else record l { info = no_info }

-- A character goes through a `char`.
unfoldable pub type_char : ℕ → Login → Login
unfolding is_nickchar
type_char c l =
    if not (is_nickchar (c % 256))
    then record l { info = not_allowed c }
    else if leb nickname_len (l.nick_len + 1)
    then record l { info = too_long }
    else record l {
      info = no_info;
      nick_buf = set (set l.nick_buf l.nick_len (c % 256)) (l.nick_len + 1) 0;
      nick_len = l.nick_len + 1;
    }

unfoldable pub enter : Login → Login
unfolding is_nickstr
enter l =
    if is_nickstr l.nick_buf
    then record l { info = connecting; state = to_connect }
    else record l { info = illegal_nickname }

-- WAIT_INPUT
unfoldable pub handle_input : Keys → ℕ → Login → Login
unfolding erase type_char enter
handle_input k c l =
    if c == 10
    then enter l
    else if is_bksp k c
    then erase l
    else if is_arrow k c
    then record l { info = no_info }
    else type_char c l

-- TO_CONNECT
unfoldable pub handle_connect : Option ℕ → Login → Login
handle_connect fd l = if l.connected then record l { state = send_join } else elim fd [
  | none ↦ record l { fd = none; info = connect_failed; state = wait_input }
  | some n ↦ record l { fd = some n; connected = true; state = send_join }
]

-- SEND_JOIN; `none` where its assertion fails.
unfoldable pub handle_send : Login → Option Login
unfolding make_join
handle_send l =
    if l.connected
    then some
        (record l { sent = l.sent ++ make_join l.nick_buf ∷ []; info = waiting; state = wait_msg })
    else none

-- WAIT_MSG
unfoldable pub handle_reply : Message → MsgJoinR → Login → Login
handle_reply msg r l =
    if r.error == 0
    then record l { info = joined; join_msg = some msg; state = success }
    else record l { info = cannot_join r.error; state = wait_input }

unfoldable pub handle_packet : Message → Body → Login → Login
unfolding handle_reply
handle_packet msg (join_r r) l = handle_reply msg r l
handle_packet msg (join m) l = record l { info = whats_this msg.kind }
handle_packet msg (quit m) l = record l { info = whats_this msg.kind }
handle_packet msg (uchange m) l = record l { info = whats_this msg.kind }
handle_packet msg (challenge m) l = record l { info = whats_this msg.kind }
handle_packet msg (challenge_r m) l = record l { info = whats_this msg.kind }
handle_packet msg (turn m) l = record l { info = whats_this msg.kind }
handle_packet msg (turn_r m) l = record l { info = whats_this msg.kind }
handle_packet msg (sendmsg m) l = record l { info = whats_this msg.kind }

unfoldable pub handle_message : UiMsg → Login → Login
unfolding handle_packet
handle_message (um_disconn err) l = record l {
  info = disconnected err;
  fd = none;
  connected = false;
}
handle_message (um_recv msg) l = handle_packet msg msg.body l

-- One round of the loop, by its state.
unfoldable pub step_in : Keys → LoginState → Inputs → Login → Option Login
unfolding handle_input handle_connect handle_send handle_message
step_in k wait_input i l = some (handle_input k i.key (record l { info = no_info }))
step_in k to_connect i l = some (handle_connect i.connect l)
step_in k send_join i l = handle_send l
step_in k wait_msg i l = some (handle_message i.message l)
step_in k success i l = some (record l { done = true })

unfoldable pub step : Keys → Inputs → Login → Option Login
unfolding step_in
step k i l = step_in k l.state i l

-- The loop, over what its rounds read, while it is not done.
unfoldable pub ui_login : Keys → List Inputs → Login → Option Login
unfolding step
ui_login k [] l = some l
ui_login k (i ∷ is) l =
    if l.done then some l else elim (step k i l) [ none ↦ none | some l' ↦ ui_login k is l' ]
