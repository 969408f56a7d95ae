-- ===== src/Server/Handlers.antt =====
-- The other packets, and the loop of `pkt_handler` over the queue's entries.
use janken.Base.{ℕ, Bool, true, false, Option, none, some, List, [], ◌∷◌, ◌==◌, if◌then◌else◌}
use janken.Message.{
  Message, Body, join, join_r, quit, uchange, challenge, challenge_r, turn, turn_r, sendmsg,
  UserState, uoffline, uonline, ubattling, MsgJoin, MsgQuit, MsgSendmsg, MsgErr, me_ok, err_code,
  make_join_r,
}
use janken.Server.{
  Server, Ptr, Run, done, ◌>>=◌, deref, if_null, set_user, find_id, find_fd, find_ch, msg_send,
}
use janken.Server.Notify.{msg_to_all, send_all_info, send_new_info, broadcast_user_changes}
use janken.Server.Users.{user_add, user_del_and_destroy}
use janken.Server.Battle.{judge_turn, handle_turn}
use janken.Server.Invite.{handle_challenge}

-- The reply of `handle_join`, and what follows it.
unfoldable pub answer_join : (fd : ℕ) → MsgJoin → Option Ptr × MsgErr × Server → Run Server
answer_join fd m (user, me_ok, s) = deref user >>= λ p.
    let s1 =
      msg_send s fd (make_join_r m.nickname (err_code me_ok) (s.users p).id (s.users p).key) in
    done (send_new_info fd p (send_all_info fd s1))
answer_join fd m (user, err, s) = done (msg_send s fd (make_join_r m.nickname (err_code err) 0 0))

unfoldable pub handle_join : (fd : ℕ) → MsgJoin → Server → Run Server
handle_join fd m s = user_add fd m.nickname s >>= answer_join fd m

abbrev pub is_battling : UserState → Bool
is_battling uoffline = false
is_battling uonline = false
is_battling ubattling = true

-- The first part of `quit_user`: a user who leaves in a battle loses it.
unfoldable pub forfeit : Ptr → Server → Run Server
forfeit user s =
    if is_battling (s.users user).state
    then if_null (find_ch s (s.users user).chid) (done s)
        (λ c. judge_turn c (some (s.users user).id) s)
    else done s

unfoldable pub go_offline : Ptr → Server → Run Server
go_offline user s =
    let s1 = set_user s user (record (s.users user) { state = uoffline }) in
    user_del_and_destroy user (broadcast_user_changes user none s1)

-- `quit_user`; its `assert(user_by_id)` holds where a user was found.
unfoldable pub quit_user : Ptr → Server → Run Server
quit_user user s = forfeit user s >>= go_offline user

unfoldable pub handle_disconnect : (fd : ℕ) → Server → Run Server
handle_disconnect fd s = if_null (find_fd s fd) (done s) λ user. quit_user user s

unfoldable pub handle_quit : MsgQuit → Server → Run Server
handle_quit m s =
    if_null (find_id s m.id) (done s)
      λ user. if (s.users user).key == m.key then quit_user user s else done s

-- The broadcast packet is the one that came, with its key wiped out.
abbrev pub wiped : Message → MsgSendmsg → Message
wiped msg m = record msg { body = sendmsg (record m { key = 0 }) }

unfoldable pub handle_sendmsg : Message → MsgSendmsg → Server → Server
handle_sendmsg msg m s =
    if_null (find_id s m.id) s
      λ user. if (s.users user).key == m.key then msg_to_all none (wiped msg m) s s.by_id else s

-- `queue_entry_t`
pub data Entry : Type 0 where
  emsg : (fd : ℕ) → Message → Entry
  edisconn : (fd : ℕ) → Entry

-- The switch of `pkt_handler` over a packet's kind.
unfoldable pub handle_body : (fd : ℕ) → Message → Body → Server → Run Server
handle_body fd msg (join m) s = handle_join fd m s
handle_body fd msg (quit m) s = handle_quit m s
handle_body fd msg (challenge m) s = handle_challenge fd m s
handle_body fd msg (turn m) s = handle_turn m s
handle_body fd msg (sendmsg m) s = done (handle_sendmsg msg m s)
handle_body fd msg (join_r m) s = done s
handle_body fd msg (uchange m) s = done s
handle_body fd msg (challenge_r m) s = done s
handle_body fd msg (turn_r m) s = done s

unfoldable pub handle_entry : Entry → Server → Run Server
handle_entry (emsg fd msg) s = handle_body fd msg msg.body s
handle_entry (edisconn fd) s = handle_disconnect fd s

-- `pkt_handler` over the entries that it takes.
unfoldable pub pkt_handler : List Entry → Server → Run Server
pkt_handler [] s = done s
pkt_handler (e ∷ es) s = handle_entry e s >>= pkt_handler es
