-- ===== src/Server/Tests.antt =====
-- Runs of the packet handler, and the theorems of the server at them.
pub mod Stale
pub mod Battle
use janken.Base.{
  replicate, ℕ, ◌+◌, ◌-◌, ◌%◌, ◌<◌, ◌≤◌, ◌≡◌, ◌≢◌, refl, sym, subst, ◌∙◌, true, false, ◌&&◌, none,
  some, List, [], ◌∷◌, inl, inr, leb, ltb→lt, ◌==◌, if◌then◌else◌, ◌⊎◌,
}
use janken.Tree.Laws.{eqb}
use janken.Tree.{tfind, tsearch}
use janken.Text.{strncasecmp, nick_cmp, snprintf}
use janken.Message.{
  sendmsg, MsgSendmsg, Message, init_msg_buf, init_msg_buf, make_join, make_join_r, uchange_add,
  uchange_add_or_create, fill_entry, me_ok, dupnick, nxid, toomanyuser, MsgChallenge, MsgQuit,
  zero_name, uoffline,
}
use janken.Server.{
  Server, User, Ptr, Challenge, asking, started, Run, done, crash, ◌>>=◌, model_init, find_id,
  find_fd, find_nick, msg_send, if_null, ◌>>=◌, check, deref, max_user_count, uint16_max,
}
use janken.Server.Broadcast.{copies, fds_of, sends, handle_sendmsg_lem}
use janken.Server.Broadcast.Chunks.{Sent, send_all_info_lem}
use janken.Server.Index.{Inv}
use janken.Server.Index.Handlers.{pkt_handler-Inv}
use janken.Server.Handlers.{
  handle_sendmsg, wiped, answer_join, handle_join, handle_disconnect, handle_quit, handle_body,
  handle_entry, pkt_handler, Entry, emsg,
}
use janken.Server.Notify.{
  msg_to_one, msg_to_all, keep_or_flush, info_of_one, info_of_all, send_all_info, send_new_info,
}
use janken.Server.Users.{random_key, fresh_user, user_create, enter_user, add_rounds, user_add}
use janken.Server.Battle.{beats, get_turn_result, judged, verdict, tr_win, tr_even, tr_lose}
use janken.Server.Turns.{opposite, damage, get_turn_result_lem, judged-verdict}
use janken.Server.Login.{stored_nick, user_add_succeeds, user_add_crashes, user_add_refuses}
use janken.Server.Logout.{Gone, CanForfeit, handle_quit_lem, handle_disconnect_lem}
use janken.Server.Invite.{reply, handle_challenge}
use janken.Server.Invite.Keys.{Checks, handle_challenge_keys}

-- What the memory holds before anything is written to it, and the numbers that `random` gives.
abbrev pub blank_user : User
blank_user = record {
  nickname = zero_name;
  id = 7;
  score = 7;
  state = uoffline;
  fd = 9999;
  key = 7;
  chid = 7;
}

abbrev pub blank_challenge : Challenge
blank_challenge = record {
  id = 0;
  user1 = 0;
  user2 = 0;
  turn_no = 0;
  acted1 = false;
  acted2 = false;
  act1 = 0;
  act2 = 0;
  hp1 = 0;
  hp2 = 0;
  maxhp1 = 0;
  maxhp2 = 0;
  state = asking;
}

abbrev pub ann : List ℕ
ann = b'A' ∷ b'n' ∷ b'n' ∷ []

abbrev pub bob : List ℕ
bob = b'b' ∷ b'o' ∷ b'b' ∷ []

abbrev pub state_of : Run Server → Server
state_of (done s) = s
state_of crash = model_init (λ p. blank_user) (λ c. blank_challenge) (λ n. n)

abbrev pub initial : Server
initial = model_init (λ p. blank_user) (λ c. blank_challenge) (λ n. n + 1)

-- Two clients join.
abbrev pub both_join : List Entry
both_join = emsg 5 (make_join ann) ∷ emsg 6 (make_join bob) ∷ []

abbrev pub two_users : Server
two_users = state_of (pkt_handler both_join initial)

two_users_lem : pkt_handler both_join initial ≡ done two_users
unfolding answer_join handle_join handle_entry handle_body pkt_handler send_new_info send_all_info
    info_of_one info_of_all keep_or_flush msg_to_all msg_to_one user_add user_create random_key
    fresh_user enter_user add_rounds snprintf tsearch tfind find_id find_fd find_nick nick_cmp
    strncasecmp if_null ◌>>=◌ check deref init_msg_buf make_join make_join_r uchange_add fill_entry
    model_init uchange_add_or_create
two_users_lem = refl

abbrev pub cat : List ℕ
cat = b'c' ∷ b'a' ∷ b't' ∷ []

abbrev loud_ann : List ℕ
loud_ann = b'A' ∷ b'N' ∷ b'N' ∷ []

-- A challenge to an id that no user has.
abbrev to_nobody : MsgChallenge
to_nobody = record { id1 = 5; id2 = 99; key = 4294967294; chid = 0; action = 0 }

-- What is found in that state.
lookups :
    (find_id two_users 5 ≡ some 0)
    × (find_fd two_users 6 ≡ some 1)
    × (CanForfeit two_users 0)
    × (CanForfeit two_users 1)
    × (two_users.user_cnt < max_user_count)
    × (find_fd two_users (two_users.users two_users.next).fd ≡ none)
    × (find_nick two_users (stored_nick two_users cat) ≡ none)
    × (find_id two_users 0 ≡ none)
    × (find_id two_users (7 % uint16_max) ≡ none)
    × (find_fd two_users 7 ≡ none)
    × (find_fd two_users 5 ≡ some 0)
    × (find_nick two_users (stored_nick two_users loud_ann) ≡ some 0)
unfolding answer_join handle_join handle_entry handle_body pkt_handler send_new_info send_all_info
    info_of_one info_of_all keep_or_flush msg_to_all msg_to_one user_add user_create random_key
    fresh_user enter_user add_rounds snprintf tsearch tfind find_id find_fd find_nick nick_cmp
    strncasecmp if_null ◌>>=◌ check deref init_msg_buf make_join make_join_r uchange_add fill_entry
    model_init uchange_add_or_create
lookups =
    (refl, refl, inl refl, inl refl, ltb→lt _ _ refl, refl, refl, refl, refl, refl, refl, refl)

some_inj : {p q : Ptr} → some p ≡ some q → p ≡ q
some_inj e = cc

pkt_handler-Inv_example : Inv two_users
pkt_handler-Inv_example =
    pkt_handler-Inv (λ p. blank_user) (λ c. blank_challenge) (λ n. n + 1) both_join two_users_lem

pub two_users-Inv : Inv two_users
two_users-Inv =
    pkt_handler-Inv (λ p. blank_user) (λ c. blank_challenge) (λ n. n + 1) both_join two_users_lem

free_by_id : (p : Ptr) → find_id two_users 5 ≡ some p → CanForfeit two_users p
free_by_id p e = subst (CanForfeit two_users) (some_inj (sym lookups.0 ∙ e)) lookups.2

free_by_fd : (p : Ptr) → find_fd two_users 6 ≡ some p → CanForfeit two_users p
free_by_fd p e = subst (CanForfeit two_users) (some_inj (sym lookups.1 ∙ e)) lookups.3

abbrev quit_of_ann : MsgQuit
quit_of_ann = record { key = 4294967294; id = 5 }

handle_quit_lem_example :
    ((find_id two_users 5 ≡ none) × (handle_quit quit_of_ann two_users ≡ done two_users))
    ⊎ ((p : Ptr) × (find_id two_users 5 ≡ some p)
        × (((two_users.users p).key ≢ 4294967294)
              × (handle_quit quit_of_ann two_users ≡ done two_users)
            ⊎ ((two_users.users p).key ≡ 4294967294)
              × ((t : Server) × (handle_quit quit_of_ann two_users ≡ done t) × Gone two_users p t)))
handle_quit_lem_example = handle_quit_lem quit_of_ann two_users two_users-Inv free_by_id

handle_disconnect_lem_example :
    ((find_fd two_users 6 ≡ none) × (handle_disconnect 6 two_users ≡ done two_users))
    ⊎ ((p : Ptr) × (find_fd two_users 6 ≡ some p)
        × ((t : Server) × (handle_disconnect 6 two_users ≡ done t) × Gone two_users p t))
handle_disconnect_lem_example = handle_disconnect_lem 6 two_users two_users-Inv free_by_fd

user_add_succeeds_example :
    (t : Server) × (user_add 7 cat two_users ≡ done (some two_users.next, me_ok, t))
    × ((k : ℕ)
        → find_id t k ≡ (if k == 7 % uint16_max then some two_users.next else find_id two_users k))
    × ((k : ℕ) → find_fd t k ≡ (if k == 7 then some two_users.next else find_fd two_users k))
    × ((k : List ℕ)
        → find_nick t k ≡ (
            if eqb (nick_cmp k (stored_nick two_users cat))
            then some two_users.next
            else find_nick two_users k))
    × (t.user_cnt ≡ two_users.user_cnt + 1)
user_add_succeeds_example =
    user_add_succeeds two_users-Inv cat 7 lookups.4 lookups.5 lookups.6 lookups.7 lookups.8
      lookups.9

user_add_refuses_example :
    (t : Server) × (user_add 8 loud_ann two_users
      ≡ done (none, (if leb max_user_count two_users.user_cnt then toomanyuser else dupnick), t))
    × ((k : ℕ) → find_id t k ≡ find_id two_users k)
    × ((k : ℕ) → find_fd t k ≡ find_fd two_users k)
    × ((k : List ℕ) → find_nick t k ≡ find_nick two_users k)
    × (t.user_cnt ≡ two_users.user_cnt)
user_add_refuses_example = user_add_refuses two_users-Inv loud_ann 8 0 lookups.5 lookups.11

-- Ann's client joins once more.
user_add_crashes_example : user_add 5 cat two_users ≡ crash
user_add_crashes_example =
    user_add_crashes two_users-Inv cat 5 0 lookups.4 lookups.5 lookups.6 lookups.7 (inr lookups.10)

-- Rock against scissors, and the loser has two points.
abbrev last_turn : Challenge
last_turn = record {
  id = 3;
  user1 = 5;
  user2 = 6;
  turn_no = 2;
  acted1 = true;
  acted2 = true;
  act1 = 0;
  act2 = 2;
  hp1 = 10;
  hp2 = 2;
  maxhp1 = 10;
  maxhp2 = 10;
  state = started;
}

judged-verdict_example :
    (verdict none (judged last_turn 8) ≡ (
      if beats 0 2 && leb 2 (damage 8)
      then some 5
      else if beats 2 0 && leb 10 (damage 8)
      then some 6
      else none))
    × (0 < damage 8)
    × (damage 8 ≤ 5)
judged-verdict_example =
    judged-verdict last_turn 8 (ltb→lt _ _ refl) refl refl (ltb→lt _ _ refl) (ltb→lt _ _ refl)
      (ltb→lt _ _ refl) (ltb→lt _ _ refl)

handle_challenge_keys_example :
    Checks 5 to_nobody two_users (handle_challenge 5 to_nobody two_users)
handle_challenge_keys_example = handle_challenge_keys 5 to_nobody two_users

-- Ann says "hi".
abbrev hi : MsgSendmsg
hi = record { id = 5; key = 4294967294; text = b'h' ∷ b'i' ∷ replicate 126 0 }

abbrev hi_packet : Message
hi_packet = init_msg_buf (sendmsg hi)

handle_sendmsg_lem_example :
    ((find_id two_users 5 ≡ none) × (handle_sendmsg hi_packet hi two_users ≡ two_users))
    ⊎ ((p : Ptr) × (find_id two_users 5 ≡ some p)
        × (((two_users.users p).key ≢ 4294967294)
              × (handle_sendmsg hi_packet hi two_users ≡ two_users)
            ⊎ ((two_users.users p).key ≡ 4294967294)
              × (handle_sendmsg hi_packet hi two_users
                  ≡ sends two_users
                      (copies none (wiped hi_packet hi) (fds_of two_users two_users.by_id)))))
handle_sendmsg_lem_example = handle_sendmsg_lem hi_packet hi two_users

send_all_info_lem_example : Sent 6 two_users
send_all_info_lem_example = send_all_info_lem 6 two_users
