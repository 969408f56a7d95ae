-- ===== src/Protocol/Tests.antt =====
-- The packets between client and server at an example: ann (id 5) and bob (id 6).
pub mod Mirror
use janken.Base.{
  ℕ, compare, ◌≢◌, map, List, ◌≡◌, refl, ◌==◌, true, false, none, some, [], ◌∷◌, ◌++◌, arith,
}
use janken.Tree.{tfind}
use janken.Tree.Laws.{Sorted}
use janken.Message.Action
use janken.Message.{
  Message, state_code, uonline, challenge, MsgChallenge, MsgJoinR, init_msg_buf, nxid, u16,
}
use janken.Server.Notify.{send_all_info}
use janken.Server.Broadcast.{sends}
use janken.Client.Users.{Inv, lookup}
use janken.Client.Users.Change.{known}
use janken.Client.Loop.Rounds.{begin-Inv}
use janken.Protocol.Roster.{server_info, receive-send_all_info}
use janken.Server.{Server, Ptr, ids, User, Challenge, started, asking, done, find_id, msg_send}
use janken.Server.Battle.{turn_msg, get_turn_result}
use janken.Server.Turns.{opposite}
use janken.Server.Invite.{reply, handle_challenge}
use janken.Client.{Client, goes, ui_main_begin}
use janken.Client.Receive
use janken.Client.Receive.{um_recv, receive, handle_body}
use janken.Client.Input.{challenge_user, handle_key}
use janken.Client.Tests.{memory, blank}
use janken.Protocol.Challenge.{cancel_fails}
use janken.Protocol.Turn.{points, points_of_other, shown_turn, turn_msg-handle_body}

abbrev user : (id key fd : ℕ) → User
user id key fd = record {
  nickname = b'A' ∷ 0 ∷ [];
  id = id;
  score = 0;
  state = uonline;
  fd = fd;
  key = key;
  chid = 0;
}

abbrev ch : Challenge
ch = record {
  id = 3;
  user1 = 5;
  user2 = 6;
  turn_no = 2;
  acted1 = false;
  acted2 = false;
  act1 = 0;
  act2 = 2;
  hp1 = 10;
  hp2 = 7;
  maxhp1 = 10;
  maxhp2 = 10;
  state = started;
}

abbrev server : Server
server = record {
  users = λ p. elim (p == 0) [ true ↦ user 5 99 11 | false ↦ user 6 98 12 ];
  challenges = λ c. ch;
  next = 3;
  by_id = 0 ∷ 1 ∷ [];
  by_fd = 0 ∷ 1 ∷ [];
  by_nick = [];
  ch_by_id = 2 ∷ [];
  user_cnt = 2;
  randoms = λ n. n;
  sent = [];
}

finds : (find_id server 5 ≡ some 0) × (find_id server 6 ≡ some 1) × (find_id server 0 ≡ none)
unfolding find_id tfind
finds = (refl, refl, refl)

abbrev bob_joins : MsgJoinR
bob_joins = record { nickname = b'b' ∷ b'o' ∷ b'b' ∷ 0 ∷ []; error = 0; id = 6; key = 98 }

abbrev pub bob_client : Client
bob_client = ui_main_begin memory blank bob_joins

abbrev from_ann : MsgChallenge
from_ann = record { id1 = 5; id2 = 6; key = 99; chid = 3; action = 0 }

-- The challenge is still open.
abbrev asking_server : Server
asking_server = record server { challenges = λ c. record ch { state = asking } }

cancel_fails_example :
    (m : MsgChallenge) × (c' : Client) × (handle_key 353 32 none (challenge_user 5 [] bob_client)
      ≡ goes c')
    × (c'.sent ≡ (challenge_user 5 [] bob_client).sent ++ init_msg_buf (challenge m) ∷ [])
    × (m.action ≡ Action.cancel)
    × (m.id2 ≡ bob_client.gs.opponent_id)
    × (handle_challenge 12 m server ≡ done (msg_send server 12 (reply m nxid 0)))
unfolding ui_main_begin
cancel_fails_example =
    cancel_fails bob_client 5 [] 353 32 none 12 server 1 (λ e. ground arith) finds.1 finds.2

abbrev first_client : Client
first_client = record bob_client {
  gs = record bob_client.gs { id = 5; is_user1 = true; state = 2 };
}

abbrev second_client : Client
second_client = record bob_client { gs = record bob_client.gs { is_user1 = false; state = 2 } }

turn_msg-handle_body_example :
    (d1 : Client) × (d2 : Client) × (handle_body (turn_msg ch none).body first_client ≡ goes d1)
    × (handle_body (turn_msg ch none).body second_client ≡ goes d2)
    × (points d1 ≡ (10, 10, 7, 10))
    × (points d2 ≡ points_of_other d1)
    × (d1.gs.acted ≡ false)
    × (d2.gs.acted ≡ false)
    × (d1.gs.turn_no ≡ 2)
    × (d2.gs.turn_no ≡ 2)
    × (d1.printed ≡ first_client.printed ++ shown_turn 2 (u16 0) (u16 2))
    × (d2.printed ≡ second_client.printed ++ shown_turn 2 (u16 2) (u16 0))
    × (get_turn_result (u16 2) (u16 0) ≡ opposite (get_turn_result (u16 0) (u16 2)))
turn_msg-handle_body_example = turn_msg-handle_body ch first_client second_client refl refl

server_order : Sorted compare (ids server) server.by_id
server_order = ((refl, tt), (tt, tt))

nothing_known : (k : ℕ) → known bob_client k ≡ none
unfolding lookup tfind ui_main_begin
nothing_known k = refl

server_online : (p : Ptr) → state_code (server.users p).state ≢ 0
server_online p = ground arith

receive-send_all_info_example :
    (l : List Message) × (send_all_info 12 server ≡ sends server (map (λ msg. (12, msg)) l))
    × ((c' : Client) × (receive (map um_recv l) bob_client ≡ goes c')
        × Inv c'
        × ((k : ℕ) → known c' k ≡ server_info server k))
receive-send_all_info_example =
    receive-send_all_info 12 server bob_client server_order (begin-Inv memory blank bob_joins)
      nothing_known (λ p h e. server_online p)
