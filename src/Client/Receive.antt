-- ===== src/Client/Receive.antt =====
-- The loop of `ui_main` over the messages of the receiving thread: the switch over a packet's kind.
use janken.Base.{
  ℕ, suc, ◌+◌, ◌-◌, compare, Bool, true, false, not, Option, none, some, List, [], ◌∷◌, ltb, ◌==◌,
  if◌then◌else◌, take,
}
use janken.Text.{nickname_len, snprintf, c_str}
use janken.Tree.{tsearch, tdelete}
use janken.Message.Action
use janken.Message.{
  Message, Body, join, join_r, quit, uchange, challenge, challenge_r, turn, turn_r, sendmsg,
  UserEntry, MsgUchange, MsgChallenge, MsgChallengeR, MsgTurnR, MsgSendmsg, init_msg_buf,
}
use janken.Server.Battle.{get_turn_result}
use janken.Client.{
  Ptr, UserInfo, GameState, WaitingFor, w_none, w_cancel, w_accept, said, joined, went_offline,
  battle_ended, last_turn, choose_action, challenged_by, starting, not_started, Client, Flow, goes,
  leaves, ◌>>=◌, check, print, enqueue, ids, find_user, update, name_of,
}

-- SENDMSG
unfoldable pub handle_sendmsg : MsgSendmsg → Client → Client
unfolding name_of
handle_sendmsg m c = print c (said (name_of c m.id) (m.id == c.gs.id) (c_str m.text))

-- TURN_R: the hit points, from the side of this user,
unfoldable pub take_points : MsgTurnR → GameState → GameState
take_points r gs =
    if gs.is_user1
    then record gs {
      hp = r.hp1;
      max_hp = r.maxhp1;
      opponent_hp = r.hp2;
      opponent_max_hp = r.maxhp2;
    }
    else record gs {
      hp = r.hp2;
      max_hp = r.maxhp2;
      opponent_hp = r.hp1;
      opponent_max_hp = r.maxhp1;
    }

-- the actions of the turn before, which there are from the second turn on,
unfoldable pub print_last_turn : MsgTurnR → Client → Client
unfolding get_turn_result
print_last_turn r c =
    let a = if c.gs.is_user1 then r.action1 else r.action2 in
    let b = if c.gs.is_user1 then r.action2 else r.action1 in
    if ltb 1 r.turn_no then print c (last_turn a b (get_turn_result a b)) else c

-- and the end of the battle or the next turn.
unfoldable pub handle_turn_r : MsgTurnR → Client → Client
unfolding take_points print_last_turn
handle_turn_r r c =
    let c1 = record c { gs = take_points r c.gs } in
    let c2 =
      if not (r.fin == 0)
      then (let d = print c1 (battle_ended (c1.gs.id == r.winner)) in
          record d { gs = record d.gs { acted = true } })
      else (let d = print (print_last_turn r c1) (choose_action r.turn_no) in
          record d { gs = record d.gs { turn_no = r.turn_no; acted = false } }) in
    record c2 { state_updated = true }

-- CHALLENGE: the first is shown to the user, one that comes while the user is asked or asks is
-- rejected at once.
abbrev pub is_w_none : WaitingFor → Bool
is_w_none w_none = true
is_w_none w_cancel = false
is_w_none w_accept = false

unfoldable pub handle_challenge : MsgChallenge → Client → Client
unfolding name_of init_msg_buf
handle_challenge m c =
    if not (m.action == Action.start)
    then c
    else if is_w_none c.waiting_for
    then record (print c (challenged_by (name_of c m.id1))) {
      waiting_for = w_accept;
      gs = record c.gs { chid = m.chid; opponent_id = m.id1 };
    }
    else enqueue c (
        init_msg_buf (
          challenge (record {
            id1 = m.id1;
            id2 = m.id2;
            key = c.gs.key;
            chid = m.chid;
            action = Action.reject;
          })))

-- CHALLENGE_R: the battle begins, or there is none.
abbrev pub opponent_of : MsgChallengeR → ℕ
opponent_of m = if not (m.is_id1 == 0) then m.id2 else m.id1

abbrev pub or_dash : Option (List ℕ) → List ℕ
or_dash none = b'-' ∷ []
or_dash (some name) = name

unfoldable pub begin_battle : MsgChallengeR → Client → Client
unfolding name_of snprintf
begin_battle m c =
    let op = opponent_of m in
    let gs = record c.gs {
      is_user1 = not (m.is_id1 == 0);
      acted = true;
      opponent_id = op;
      chid = m.chid;
      state = 2;
      opponent_name = snprintf c.gs.opponent_name nickname_len (or_dash (name_of c op));
    } in
    print (record c { waiting_for = w_none; gs = gs }) (starting gs.opponent_name)

unfoldable pub handle_challenge_r : MsgChallengeR → Client → Client
unfolding begin_battle
handle_challenge_r m c =
    let c1 =
      if m.error == 0
      then begin_battle m c
      else record (print c (not_started m.error)) { waiting_for = w_none } in
    record c1 { state_updated = true }

-- UCHANGE, one of its users: what it says of this user,
unfoldable pub change_self : UserEntry → Client → Flow
unfolding snprintf
change_self e c =
    if not (e.id == c.gs.id)
    then goes c
    else if e.state == 0
    then leaves c
    else goes (record c {
      gs = record c.gs {
        nickname = snprintf c.gs.nickname nickname_len e.nickname;
        state = e.state;
      };
      state_updated = true;
    })

-- of the opponent,
unfoldable pub change_opponent : UserEntry → Client → Client
unfolding snprintf
change_opponent e c =
    if e.id == c.gs.opponent_id
    then record c {
      gs = record c.gs { opponent_name = snprintf c.gs.opponent_name nickname_len e.nickname };
      state_updated = true;
    }
    else c

-- `user_create`, in memory that held `old`.
unfoldable pub user_create : UserInfo → List ℕ → (id state score : ℕ) → UserInfo
unfolding snprintf
user_create old nickname id state score = record {
  nickname = snprintf old.nickname nickname_len nickname;
  id = id;
  state = state;
  score = score;
}

-- and of the user list: a user goes offline, is changed, or is new. `p` is the new object.
unfoldable pub remove_user : Ptr → Client → Flow
remove_user q c = check (not (c.user_cnt == 0)) (
    goes (record c {
      by_id = (tdelete compare (ids c) (ids c q) c.by_id).1;
      user_cnt = c.user_cnt - 1;
    }))

unfoldable pub change_user : Ptr → Ptr → Client → Client
unfolding snprintf
change_user p q c = record c {
  users = update c.users q (record (c.users q) {
    nickname = snprintf (c.users q).nickname nickname_len (c.users p).nickname;
    score = (c.users p).score;
    state = (c.users p).state;
  });
}

unfoldable pub insert_user : Ptr → Client → Flow
insert_user p c =
    let (r, t) = tsearch compare (ids c) p c.by_id in
    check (r == p) (goes (record c { by_id = t; user_cnt = c.user_cnt + 1 }))

unfoldable pub change_list : Ptr → UserEntry → Option Ptr → Client → Flow
unfolding remove_user change_user insert_user
change_list p e node c =
    if e.state == 0
    then (let c1 = print c (went_offline e.nickname) in
        elim node [ none ↦ goes c1 | some q ↦ remove_user q c1 ])
    else elim node [
      | none ↦ insert_user p (print c (joined e.nickname))
      | some q ↦ goes (change_user p q c)
    ]

unfoldable pub update_list : UserEntry → Client → Flow
unfolding user_create change_list find_user
update_list e c =
    let p = c.next in
    let c1 = record c {
      next = suc p;
      users = update c.users p (user_create (c.users p) e.nickname e.id e.state e.score);
    } in
    change_list p e (find_user c1 e.id) c1 >>= λ c2. goes (record c2 { list_updated = true })

unfoldable pub apply_change : UserEntry → Client → Flow
unfolding change_self change_opponent update_list
apply_change e c = change_self e c >>= λ c1. update_list e (change_opponent e c1)

unfoldable pub apply_changes : List UserEntry → Client → Flow
unfolding apply_change
apply_changes [] c = goes c
apply_changes (e ∷ es) c = apply_change e c >>= apply_changes es

-- A well-formed packet has no more users than its array.
unfoldable pub handle_uchange : MsgUchange → Client → Flow
unfolding apply_changes
handle_uchange m c = apply_changes (take m.count m.users) c

unfoldable pub handle_body : Body → Client → Flow
unfolding handle_sendmsg handle_turn_r handle_challenge handle_challenge_r handle_uchange
handle_body (sendmsg m) c = goes (handle_sendmsg m c)
handle_body (turn_r m) c = goes (handle_turn_r m c)
handle_body (challenge m) c = goes (handle_challenge m c)
handle_body (challenge_r m) c = goes (handle_challenge_r m c)
handle_body (uchange m) c = handle_uchange m c
handle_body (join m) c = goes c
handle_body (join_r m) c = goes c
handle_body (quit m) c = goes c
handle_body (turn m) c = goes c

-- `ui_msg_t`: a packet, or a thread's notice that the connection is lost, with its `errno`.
pub data UiMsg : Type 0 where
  um_disconn : (err : ℕ) → UiMsg
  um_recv : Message → UiMsg

unfoldable pub handle_ui_msg : UiMsg → Client → Flow
unfolding handle_body
handle_ui_msg (um_disconn err) c = leaves c
handle_ui_msg (um_recv msg) c = handle_body msg.body c

-- The loop over what the queue holds.
unfoldable pub receive : List UiMsg → Client → Flow
unfolding handle_ui_msg
receive [] c = goes c
receive (um ∷ ums) c = handle_ui_msg um c >>= receive ums
