-- ===== src/Message.antt =====
-- The packets: the structs of lib/common.h, and their making and checking in lib/messages.c.
-- A number stands for what its field holds; an `int32_t` is its bit pattern. The
-- union of the bodies is a data type: a body has the members of one kind.
pub mod Error
pub mod Kind
pub mod Action
pub mod Filled
pub mod Layout
pub mod Wire
pub mod Tests
use janken.Base.{
  ℕ, zero, suc, ◌+◌, ◌%◌, ◌^◌, ◌≡◌, Bool, true, false, not, ◌&&◌, ◌||◌, Option, none, some, List,
  [], ◌∷◌, ltb, leb, ◌==◌, if◌then◌else◌, set, get_elem?, replicate,
}
use janken.Text.{nickname_len, null_terminated, snprintf}

abbrev pub u16 : ℕ → ℕ
u16 n = n % 2 ^ 16

abbrev pub uchange_max_ucnt : ℕ
uchange_max_ucnt = 16

abbrev pub text_len : ℕ
text_len = 128

-- `user_state_t`
pub data UserState : Type 0 where
  uoffline uonline ubattling : UserState

abbrev pub state_code : UserState → ℕ
state_code uoffline = 0
state_code uonline = 1
state_code ubattling = 2

-- `msg_err_t`
pub data MsgErr : Type 0 where
  me_ok dupnick nxnick illnick nxid ickey nxchid toomanyuser jointwice engaged : MsgErr
  chlself invarg rejected cancelled me_other : MsgErr

abbrev pub err_code : MsgErr → ℕ
err_code me_ok = 0
err_code dupnick = 1
err_code nxnick = 2
err_code illnick = 3
err_code nxid = 4
err_code ickey = 5
err_code nxchid = 6
err_code toomanyuser = 7
err_code jointwice = 8
err_code engaged = 9
err_code chlself = 10
err_code invarg = 11
err_code rejected = 12
err_code cancelled = 13
err_code me_other = 14

pub record MsgJoin : Type 0 where
  pub nickname : List ℕ

pub record MsgJoinR : Type 0 where
  pub nickname : List ℕ
  pub error : ℕ
  pub id : ℕ
  pub key : ℕ

pub record MsgQuit : Type 0 where
  pub key : ℕ
  pub id : ℕ

-- One of the `users` of `msg_uchange_t`.
pub record UserEntry : Type 0 where
  pub nickname : List ℕ
  pub id : ℕ
  pub state : ℕ
  pub score : ℕ

pub record MsgUchange : Type 0 where
  pub count : ℕ
  pub users : List UserEntry

pub record MsgChallenge : Type 0 where
  pub id1 : ℕ
  pub id2 : ℕ
  pub key : ℕ
  pub chid : ℕ
  pub action : ℕ

pub record MsgChallengeR : Type 0 where
  pub error : ℕ
  pub id1 : ℕ
  pub id2 : ℕ
  pub chid : ℕ
  pub is_id1 : ℕ

pub record MsgTurn : Type 0 where
  pub user : ℕ
  pub chid : ℕ
  pub key : ℕ
  pub turn_no : ℕ
  pub action : ℕ

pub record MsgTurnR : Type 0 where
  pub chid : ℕ
  pub turn_no : ℕ
  pub action1 : ℕ
  pub action2 : ℕ
  pub winner : ℕ
  pub hp1 : ℕ
  pub hp2 : ℕ
  pub maxhp1 : ℕ
  pub maxhp2 : ℕ
  pub fin : ℕ

pub record MsgSendmsg : Type 0 where
  pub id : ℕ
  pub key : ℕ
  pub text : List ℕ

-- `msg_body_t`
pub data Body : Type 0 where
  join : MsgJoin → Body
  join_r : MsgJoinR → Body
  quit : MsgQuit → Body
  uchange : MsgUchange → Body
  challenge : MsgChallenge → Body
  challenge_r : MsgChallengeR → Body
  turn : MsgTurn → Body
  turn_r : MsgTurnR → Body
  sendmsg : MsgSendmsg → Body

-- `message_t`, with the two fields of its head.
pub record Message : Type 0 where
  pub kind : ℕ
  pub body_len : ℕ
  pub body : Body

abbrev pub kind_of : Body → ℕ
kind_of (join _) = Kind.join
kind_of (join_r _) = Kind.join_r
kind_of (quit _) = Kind.quit
kind_of (uchange _) = Kind.uchange
kind_of (challenge _) = Kind.challenge
kind_of (challenge_r _) = Kind.challenge_r
kind_of (turn _) = Kind.turn
kind_of (turn_r _) = Kind.turn_r
kind_of (sendmsg _) = Kind.sendmsg

-- `msg_body_size`: the sizes of the packed structs. An unknown kind is logged and gives 0.
unfoldable pub msg_body_size : ℕ → ℕ
msg_body_size kind =
    if kind == Kind.join
    then nickname_len
    else if kind == Kind.join_r
    then nickname_len + 8
    else if kind == Kind.quit
    then 6
    else if kind == Kind.uchange
    then 644
    else if kind == Kind.challenge
    then 12
    else if kind == Kind.challenge_r
    then 9
    else if kind == Kind.turn
    then 12
    else if kind == Kind.turn_r
    then 27
    else if kind == Kind.sendmsg
    then 6 + text_len
    else 0

abbrev pub zero_name : List ℕ
zero_name = replicate nickname_len 0

abbrev pub zero_entry : UserEntry
zero_entry = record { nickname = zero_name; id = 0; state = 0; score = 0 }

abbrev pub zero_text : List ℕ
zero_text = replicate text_len 0

-- The bodies after `memset(msg, 0, sizeof(*msg))`.
abbrev pub zero_join : MsgJoin
zero_join = record { nickname = zero_name }

abbrev pub zero_join_r : MsgJoinR
zero_join_r = record { nickname = zero_name; error = 0; id = 0; key = 0 }

abbrev pub zero_uchange : MsgUchange
zero_uchange = record { count = 0; users = replicate uchange_max_ucnt zero_entry }

abbrev pub zero_challenge : MsgChallenge
zero_challenge = record { id1 = 0; id2 = 0; key = 0; chid = 0; action = 0 }

abbrev pub zero_challenge_r : MsgChallengeR
zero_challenge_r = record { error = 0; id1 = 0; id2 = 0; chid = 0; is_id1 = 0 }

-- `init_msg_buf(msg, kind)`, with the body in which it is used next: the head, before any member is
-- written.
unfoldable pub init_msg_buf : Body → Message
unfolding msg_body_size
init_msg_buf b = record { kind = kind_of b; body_len = msg_body_size (kind_of b); body = b }

unfoldable pub make_join : List ℕ → Message
unfolding snprintf init_msg_buf
make_join nickname =
    init_msg_buf (join (record { nickname = snprintf zero_name nickname_len nickname }))

unfoldable pub make_join_r : List ℕ → (error id key : ℕ) → Message
unfolding snprintf init_msg_buf
make_join_r nickname error id key = init_msg_buf (
    join_r (record {
      nickname = snprintf zero_name nickname_len nickname;
      error = error;
      id = id;
      key = key;
    }))

-- What `uchange_add_or_create` writes to `users[cnt]`.
unfoldable pub fill_entry : UserEntry → List ℕ → (id : ℕ) → UserState → (score : ℕ) → UserEntry
unfolding snprintf
fill_entry old nickname id state score = record {
  nickname = snprintf old.nickname nickname_len nickname;
  id = id;
  state = state_code state;
  score = score;
}

-- `make_uchange`, by its body; the head of the packet is that of `init_msg_buf`.
abbrev pub make_uchange : MsgUchange
make_uchange = zero_uchange

entry_at : List UserEntry → ℕ → UserEntry
entry_at users cnt = elim (get_elem? users cnt) [ none ↦ zero_entry | some e ↦ e ]

-- The branch of `uchange_add_or_create` that finds room.
unfoldable pub uchange_add : MsgUchange → List ℕ → (id : ℕ) → UserState → (score : ℕ) → MsgUchange
unfolding fill_entry entry_at
uchange_add msg nickname id state score = record {
  count = (msg.count + 1) % 2 ^ 32;
  users =
      set msg.users msg.count (fill_entry (entry_at msg.users msg.count) nickname id state score);
}

-- `uchange_add_or_create`: its result, `msg` after it, and `*newmsg`, which is written only where
-- there was no room and `newmsg` is no NULL (`create`).
unfoldable pub uchange_add_or_create :
    (create : Bool)
    → MsgUchange
    → List ℕ
    → (id : ℕ) → UserState
    → (score : ℕ) → Bool × MsgUchange × Option MsgUchange
unfolding uchange_add
uchange_add_or_create create msg nickname id state score =
    if leb uchange_max_ucnt msg.count
    then (
      false,
      msg,
      (if create then some (uchange_add make_uchange nickname id state score) else none),
    )
    else (true, uchange_add msg nickname id state score, none)
