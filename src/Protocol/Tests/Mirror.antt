-- ===== src/Protocol/Tests/Mirror.antt =====
-- Bob's client while ann leaves the server.
use janken.Base.{
  ℕ, compare, Ordering, Option, ◌≡◌, refl, none, some, List, [], ◌∷◌, ◌++◌, ◌==◌, if◌then◌else◌,
  arith, true,
}
use janken.Text.{strncasecmp, nick_cmp, snprintf}
use janken.Tree.{tfind, tsearch, tdelete}
use janken.Tree.Laws.{mem}
use janken.Message.{
  Message, init_msg_buf, make_join, make_join_r, uchange_add, uchange_add_or_create, fill_entry,
}
use janken.Server.{
  Server, Ptr, fds, done, ◌>>=◌, if_null, check, deref, model_init, find_id, find_fd, find_nick,
}
use janken.Server.Notify.{
  msg_to_one, msg_to_all, keep_or_flush, info_of_one, info_of_all, send_all_info, send_new_info,
  changes_of, broadcast_user_changes,
}
use janken.Server.Users.{
  random_key, fresh_user, user_create, enter_user, add_rounds, user_add, remove_user,
  user_del_and_destroy,
}
use janken.Server.Handlers.{
  edisconn, answer_join, handle_join, forfeit, go_offline, quit_user, handle_disconnect,
  handle_body, handle_entry, pkt_handler,
}
use janken.Server.Tests.{two_users, two_users-Inv, state_of}
use janken.Client.{Client, ui_main_begin}
use janken.Client.Users.{Info, info_of, Inv, lookup}
use janken.Client.Users.Change.{known}
use janken.Protocol.Roster.{user_info, server_info}
use janken.Protocol.Mirror.{to_fd}
use janken.Protocol.Mirror.Step.{Received, handle_entry-Received}
use janken.Protocol.Tests.{bob_client}

abbrev bob_in_step : Client
bob_in_step = record bob_client {
  users = λ p.
      if p == 0
      then record { nickname = b'A' ∷ b'n' ∷ b'n' ∷ 0 ∷ []; id = 5; state = 1; score = 0 }
      else record { nickname = b'b' ∷ b'o' ∷ b'b' ∷ 0 ∷ []; id = 6; state = 1; score = 0 };
  next = 2;
  by_id = 0 ∷ 1 ∷ [];
  user_cnt = 2;
}

bob_in_step-Inv : Inv bob_in_step
bob_in_step-Inv = record {
  order = ((refl, tt), (tt, tt));
  count = refl;
  older = λ p h. ground arith;
}

in_step : (k : ℕ) → known bob_in_step k ≡ server_info two_users k
unfolding answer_join handle_join handle_entry handle_body pkt_handler send_new_info send_all_info
    info_of_one info_of_all keep_or_flush msg_to_all msg_to_one user_add user_create random_key
    fresh_user enter_user add_rounds snprintf tsearch tfind find_id find_fd find_nick nick_cmp
    strncasecmp if_null ◌>>=◌ check deref init_msg_buf make_join make_join_r uchange_add fill_entry
    model_init uchange_add_or_create lookup ui_main_begin
in_step k = split (compare k 5) (compare k 6)
  where
    found : Ordering → Ordering → Option Ptr
    found a b = elim a [
      | Ordering.lt ↦ none
      | Ordering.eq ↦ some 0
      | Ordering.gt ↦ elim b [ Ordering.lt ↦ none | Ordering.eq ↦ some 1 | Ordering.gt ↦ none ]
    ]

    split :
        (a b : Ordering)
        → ◌≡◌ {A = Option Info}
            (elim (found a b) [ none ↦ none | some p ↦ some (info_of (bob_in_step.users p)) ])
            (elim (found a b) [ none ↦ none | some p ↦ user_info (two_users.users p) ])
    split Ordering.lt b = refl
    split Ordering.eq b = refl
    split Ordering.gt Ordering.lt = refl
    split Ordering.gt Ordering.eq = refl
    split Ordering.gt Ordering.gt = refl

abbrev ann_gone : Server
ann_gone = state_of (handle_entry (edisconn 5) two_users)

bob_connected :
    (mem 1 two_users.by_id ≡ true)
    × (fds two_users 1 ≡ 6)
    × (handle_entry (edisconn 5) two_users ≡ done ann_gone)
unfolding answer_join handle_join handle_entry handle_body pkt_handler send_new_info send_all_info
    info_of_one info_of_all keep_or_flush msg_to_all msg_to_one user_add user_create random_key
    fresh_user enter_user add_rounds snprintf tsearch tfind find_id find_fd find_nick nick_cmp
    strncasecmp if_null ◌>>=◌ check deref init_msg_buf make_join make_join_r uchange_add fill_entry
    model_init uchange_add_or_create handle_disconnect quit_user forfeit go_offline
    user_del_and_destroy remove_user tdelete broadcast_user_changes changes_of
bob_connected = (refl, refl, refl)

handle_entry-Received_example :
    (l : List (ℕ × Message)) × (ann_gone.sent ≡ two_users.sent ++ l)
    × Received (to_fd 6 l) bob_in_step (server_info ann_gone)
handle_entry-Received_example =
    handle_entry-Received 6 (edisconn 5) two_users ann_gone 1 bob_in_step two_users-Inv
      bob_connected.0 bob_connected.1 refl bob_connected.2 bob_in_step-Inv in_step
