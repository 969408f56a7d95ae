-- ===== src/Server/Tests/Stale.antt =====
-- A challenge whose challenger has left is accepted for another user.
use janken.Base.{◌+◌, ◌≡◌, refl, true, false, ◌&&◌, none, some, List, [], ◌∷◌, inl}
use janken.Message.Action
use janken.Server.Handlers.{
  answer_join, handle_join, handle_entry, handle_body, pkt_handler, handle_disconnect, quit_user,
  forfeit, go_offline, Entry, emsg, edisconn,
}
use janken.Server.Notify.{
  send_new_info, send_all_info, info_of_one, info_of_all, keep_or_flush, msg_to_all, msg_to_one,
  broadcast_user_changes, changes_of,
}
use janken.Server.Users.{
  user_add, user_create, random_key, fresh_user, enter_user, add_rounds, user_del_and_destroy,
  remove_user,
}
use janken.Text.{snprintf, nick_cmp, strncasecmp}
use janken.Tree.{tsearch, tfind, tdelete}
use janken.Server.{
  find_id, find_fd, find_nick, if_null, ◌>>=◌, check, deref, model_init, find_ch, Server, crash,
  done,
}
use janken.Message.{
  init_msg_buf, make_join, make_join_r, uchange_add, fill_entry, uchange_add_or_create,
  MsgChallenge, challenge,
}
use janken.Server.Invite.{
  handle_challenge, handle_verified, handle_action, handle_start, start_error, begin_challenge,
  add_challenge, challenge_rounds, enter_challenge, fill_challenge, relay, wanted_key, is_started,
  is_online,
}
use janken.Server.Invite.Stale.{handle_challenge_crashes}
use janken.Server.Tests.{ann, bob, cat, initial, state_of, blank_user, blank_challenge}
use janken.Client.Worker.{Received, packet, failed, serve}
use janken.Server.Connections.{of_fd}
use janken.Server.Connections.Closed.{is_lost, serve-pkt_handler}

abbrev cat_challenges : MsgChallenge
cat_challenges = record { id1 = 7; id2 = 5; key = 4294967290; chid = 0; action = Action.start }

-- Cat challenges Ann and loses the connection.
abbrev cat_left : List Entry
cat_left =
    emsg 5 (make_join ann)
    ∷ emsg 6 (make_join bob)
    ∷ emsg 7 (make_join cat)
    ∷ emsg 7 (init_msg_buf (challenge cat_challenges))
    ∷ edisconn 7
    ∷ []

abbrev stale : Server
stale = state_of (pkt_handler cat_left initial)

-- Ann accepts it as if Bob had sent it.
abbrev ann_accepts : MsgChallenge
ann_accepts = record { id1 = 6; id2 = 5; key = 4294967294; chid = 7; action = Action.accept }

stale_lookups :
    (find_id stale 6 ≡ some 1)
    × (find_id stale 5 ≡ some 0)
    × ((stale.users 0).key ≡ 4294967294)
    × (find_ch stale 7 ≡ some 3)
    × (is_started (stale.challenges 3).state ≡ false)
    × ((is_online (stale.users 1).state && is_online (stale.users 0).state) ≡ true)
    × (find_id stale (stale.challenges 3).user1 ≡ none)
unfolding answer_join handle_join handle_entry handle_body pkt_handler send_new_info send_all_info
    info_of_one info_of_all keep_or_flush msg_to_all msg_to_one user_add user_create random_key
    fresh_user enter_user add_rounds snprintf tsearch tfind find_id find_fd find_nick nick_cmp
    strncasecmp if_null ◌>>=◌ check deref init_msg_buf make_join make_join_r uchange_add fill_entry
    model_init uchange_add_or_create handle_challenge handle_verified handle_action handle_start
    start_error begin_challenge add_challenge challenge_rounds enter_challenge fill_challenge relay
    wanted_key find_ch handle_disconnect quit_user forfeit go_offline user_del_and_destroy
    remove_user tdelete broadcast_user_changes changes_of
stale_lookups = (refl, refl, refl, refl, refl, refl, refl)

handle_challenge_crashes_example : handle_challenge 5 ann_accepts stale ≡ crash
handle_challenge_crashes_example =
    handle_challenge_crashes 5 ann_accepts stale 1 0 3 stale_lookups.0 stale_lookups.1 refl
      stale_lookups.2 stale_lookups.3 stale_lookups.4 stale_lookups.5 (inl stale_lookups.6)

-- What cat's thread received, with a call that would have blocked.
abbrev from_cat : List Received
from_cat =
    packet (make_join cat)
    ∷ failed true
    ∷ packet (init_msg_buf (challenge cat_challenges))
    ∷ failed false
    ∷ []

cat_left_lem :
    (pkt_handler cat_left initial ≡ done stale)
    × (is_lost from_cat ≡ true)
    × (of_fd 7 cat_left ≡ serve 7 from_cat)
unfolding answer_join handle_join handle_entry handle_body pkt_handler send_new_info send_all_info
    info_of_one info_of_all keep_or_flush msg_to_all msg_to_one user_add user_create random_key
    fresh_user enter_user add_rounds snprintf tsearch tfind find_id find_fd find_nick nick_cmp
    strncasecmp if_null ◌>>=◌ check deref init_msg_buf make_join make_join_r uchange_add fill_entry
    model_init uchange_add_or_create handle_challenge handle_verified handle_action handle_start
    start_error begin_challenge add_challenge challenge_rounds enter_challenge fill_challenge relay
    wanted_key find_ch handle_disconnect quit_user forfeit go_offline user_del_and_destroy
    remove_user tdelete broadcast_user_changes changes_of is_lost of_fd serve
cat_left_lem = (refl, refl, refl)

serve-pkt_handler_example : find_fd stale 7 ≡ none
serve-pkt_handler_example =
    serve-pkt_handler (λ p. blank_user) (λ c. blank_challenge) (λ n. n + 1) 7 from_cat cat_left
      cat_left_lem.1 cat_left_lem.2 cat_left_lem.0
