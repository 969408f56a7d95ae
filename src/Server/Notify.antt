-- ===== src/Server/Notify.antt =====
-- `send_user_info` under `twalk_r`, and `broadcast_user_changes`.
use janken.Base.{ℕ, Bool, true, false, Option, none, some, List, [], ◌∷◌, ◌==◌, if◌then◌else◌}
use janken.Message.{
  Message, MsgUchange, uchange, make_uchange, uchange_add, uchange_add_or_create, init_msg_buf,
}
use janken.Server.{Server, User, Ptr, msg_send, if_null}

-- The test of `MSG_TO_ALL`; `except_fd` is `none` for -1.
abbrev pub excepted : Option ℕ → ℕ → Bool
excepted none fd = false
excepted (some e) fd = fd == e

-- `MSG_TO_ALL`: the visit of one user.
unfoldable pub msg_to_one : Option ℕ → Message → Server → Ptr → Server
msg_to_one except msg s p =
    if excepted except (s.users p).fd then s else msg_send s (s.users p).fd msg

-- `twalk_r(user_by_id, send_user_info, &arg)` at `MSG_TO_ALL`, over the tree's pointers.
unfoldable pub msg_to_all : Option ℕ → Message → Server → List Ptr → Server
msg_to_all except msg s [] = s
msg_to_all except msg s (p ∷ t) = msg_to_all except msg (msg_to_one except msg s p) t

abbrev pub add_user : MsgUchange → User → MsgUchange
add_user msg u = uchange_add msg u.nickname u.id u.state u.score

-- A packet that had no room for the user is sent, and the new one kept.
unfoldable pub keep_or_flush :
    ℕ → Server → (fits : Bool) → MsgUchange → Option MsgUchange → Server × Option MsgUchange
keep_or_flush fd s true m new = (s, some m)
keep_or_flush fd s false m new = (msg_send s fd (init_msg_buf (uchange m)), new)

abbrev pub or_new : Option MsgUchange → MsgUchange
or_new none = make_uchange
or_new (some m) = m

-- `ALL_TO_ONE`: the visit of one user. `arg->msg` is `msg`, `none` for NULL.
-- `assert(user->fd >= 0)` holds of every fd, which is a natural number.
unfoldable pub info_of_one : ℕ → Server × Option MsgUchange → Ptr → Server × Option MsgUchange
info_of_one fd (s, msg) p =
    let u = s.users p in
    let (fits, m, new) = uchange_add_or_create true (or_new msg) u.nickname u.id u.state u.score in
    keep_or_flush fd s fits m new

unfoldable pub info_of_all : ℕ → Server × Option MsgUchange → List Ptr → Server × Option MsgUchange
info_of_all fd st [] = st
info_of_all fd st (p ∷ t) = info_of_all fd (info_of_one fd st p) t

-- The two loops of `handle_join` that tell a new user of all, and all of a new user.
unfoldable pub send_all_info : ℕ → Server → Server
send_all_info fd s =
    let (s', msg) = info_of_all fd (s, none) s.by_id in
    if_null msg s' λ m. msg_send s' fd (init_msg_buf (uchange m))

unfoldable pub send_new_info : ℕ → Ptr → Server → Server
send_new_info fd p s =
    msg_to_all (some fd) (init_msg_buf (uchange (add_user make_uchange (s.users p)))) s s.by_id

-- The `uchange` of `broadcast_user_changes`; `usr2` may be NULL (and `usr1` is none).
unfoldable pub changes_of : Server → Ptr → Option Ptr → MsgUchange
changes_of s usr1 none = add_user make_uchange (s.users usr1)
changes_of s usr1 (some usr2) = add_user (add_user make_uchange (s.users usr1)) (s.users usr2)

unfoldable pub broadcast_user_changes : Ptr → Option Ptr → Server → Server
broadcast_user_changes usr1 usr2 s =
    msg_to_all none (init_msg_buf (uchange (changes_of s usr1 usr2))) s s.by_id
