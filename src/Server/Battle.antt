-- ===== src/Server/Battle.antt =====
-- A battle's turns: `get_turn_result` of lib/common.h, `judge_turn` and `handle_turn`.
use janken.Base.{
  ℕ, ◌+◌, ◌%◌, compare, Bool, true, false, ◌&&◌, ◌||◌, Option, none, some, not, add32, sub32,
  nonpositive, ◌==◌, if◌then◌else◌,
}
use janken.Tree.{tdelete}
use janken.Message.{
  Message, UserState, uoffline, uonline, ubattling, MsgTurn, turn_r, init_msg_buf, u16,
}
use janken.Server.{
  Server, Ptr, Challenge, Run, done, ◌>>=◌, deref, if_null, random_rest, set_user, set_challenge,
  chids, find_id, find_ch, msg_send,
}
use janken.Server.Notify.{broadcast_user_changes}

-- `battle_act_t`, as the numbers that packets hold.
abbrev pub b_rock : ℕ
b_rock = 0

abbrev pub b_paper : ℕ
b_paper = 1

abbrev pub b_scissors : ℕ
b_scissors = 2

pub data TurnResult : Type 0 where
  tr_win tr_lose tr_even : TurnResult

-- The condition of `get_turn_result` under which its first argument wins.
unfoldable pub beats : ℕ → ℕ → Bool
beats a b =
    (a == b_rock && b == b_scissors)
    || (a == b_paper && b == b_rock)
    || (a == b_scissors && b == b_paper)

unfoldable pub get_turn_result : ℕ → ℕ → TurnResult
get_turn_result a b = if beats a b then tr_win else if beats b a then tr_lose else tr_even

-- The turn's number: at 0 the battle begins. `turn_no` is a `uint16_t`.
unfoldable pub next_turn : Challenge → Challenge
next_turn ch =
    if ch.turn_no == 0
    then record ch { acted1 = false; acted2 = false; turn_no = 1 }
    else record ch { turn_no = u16 (ch.turn_no + 1) }

-- What both users lose at one number of `random()`.
unfoldable pub damages : Challenge → ℕ → ℕ × ℕ
damages ch r = elim (get_turn_result ch.act1 ch.act2) [
  | tr_win ↦ (0, r % 5 + 1)
  | tr_lose ↦ (r % 5 + 1, 0)
  | tr_even ↦ (0, 0)
]

-- Both have acted: the hit points fall. A number is drawn.
unfoldable pub strike : Challenge → ℕ → Challenge
strike ch r =
    let (d1, d2) = damages ch r in record ch { hp1 = sub32 ch.hp1 d1; hp2 = sub32 ch.hp2 d2 }

-- The first part of `judge_turn`: the challenge after it.
unfoldable pub judged : Challenge → ℕ → Challenge
judged ch r =
    let c = next_turn ch in
    record (if c.acted1 && c.acted2 then strike c r else c) { acted1 = false; acted2 = false }

-- Whether that part draws a number.
unfoldable pub draws : Challenge → Bool
draws ch = (next_turn ch).acted1 && (next_turn ch).acted2

abbrev pub is_id : Option ℕ → ℕ → Bool
is_id none id = false
is_id (some f) id = f == id

-- `fin` and `winner`: the winner, if the battle ends. `force` is `none` for a `force_lose_id` of -1.
unfoldable pub verdict : Option ℕ → Challenge → Option ℕ
verdict force ch =
    if is_id force ch.user1
    then some ch.user2
    else if is_id force ch.user2
    then some ch.user1
    else if nonpositive ch.hp1
    then some ch.user2
    else if nonpositive ch.hp2
    then some ch.user1
    else none

-- The TURN_R. The initializer names neither `chid` nor (unless the battle ends) `winner`: they are 0.
unfoldable pub turn_msg : Challenge → Option ℕ → Message
turn_msg ch w = init_msg_buf (
    turn_r (record {
      chid = 0;
      turn_no = ch.turn_no;
      action1 = u16 ch.act1;
      action2 = u16 ch.act2;
      winner = elim w [ none ↦ 0 | some id ↦ id ];
      hp1 = ch.hp1;
      hp2 = ch.hp2;
      maxhp1 = ch.maxhp1;
      maxhp2 = ch.maxhp2;
      fin = elim w [ none ↦ 0 | some id ↦ 1 ];
    }))

-- `score += n` and `score -= n` through a pointer.
unfoldable pub gain_score : Ptr → ℕ → Server → Server
gain_score p n s = set_user s p (record (s.users p) { score = add32 (s.users p).score n })

unfoldable pub lose_score : Ptr → ℕ → Server → Server
lose_score p n s = set_user s p (record (s.users p) { score = sub32 (s.users p).score n })

abbrev pub leave_state : UserState → UserState
leave_state uoffline = uoffline
leave_state uonline = uonline
leave_state ubattling = uonline

-- `if (user->state == UBATTLING) user->state = UONLINE;`
unfoldable pub leave_battle : Ptr → Server → Server
leave_battle p s = set_user s p (record (s.users p) { state = leave_state (s.users p).state })

-- Scores and states at the end of a battle. Two numbers are drawn.
unfoldable pub settle : Ptr → Ptr → (winner : ℕ) → Server → Server
settle user1 user2 winner s =
    let bonus = s.randoms 0 % 4 + 1 in
    let penalty = s.randoms 1 % 4 in
    let s1 = random_rest (random_rest s) in
    let s2 =
      if (s1.users user1).id == winner
      then lose_score user2 penalty (gain_score user1 bonus s1)
      else lose_score user1 penalty (gain_score user2 bonus s1) in
    leave_battle user2 (leave_battle user1 s2)

-- The branch of `judge_turn` where the battle ends: the users are told, and the challenge is deleted.
unfoldable pub finish : Ptr → Ptr → Ptr → (winner : ℕ) → Server → Server
finish c user1 user2 winner s =
    let s' = broadcast_user_changes user1 (some user2) (settle user1 user2 winner s) in
    record s' { ch_by_id = (tdelete compare (chids s') (chids s' c) s'.ch_by_id).1 }

-- The first part of `judge_turn`, at the challenge's address.
unfoldable pub judge_round : Ptr → Server → Server
judge_round c s =
    set_challenge (if draws (s.challenges c) then random_rest s else s) c
      (judged (s.challenges c) (s.randoms 0))

-- Its two calls of `msg_send`, and what follows them.
unfoldable pub conclude : Ptr → Option ℕ → Ptr → Ptr → Server → Server
conclude c w user1 user2 s =
    let msg = turn_msg (s.challenges c) w in
    let s1 = msg_send s (s.users user1).fd msg in
    let s2 = msg_send s1 (s1.users user2).fd msg in
    elim w [ none ↦ s2 | some winner ↦ finish c user1 user2 winner s2 ]

-- `judge_turn(ch, force_lose_id)`. A user who is not found is a NULL that the calls follow.
unfoldable pub judge_turn : Ptr → Option ℕ → Server → Run Server
judge_turn c force s =
    let s1 = judge_round c s in
    let ch = s1.challenges c in
    deref (find_id s1 ch.user1) >>= λ user1.
    deref (find_id s1 ch.user2) >>= λ user2. done (conclude c (verdict force ch) user1 user2 s1)

-- What `handle_turn` writes to the challenge.
unfoldable pub act : MsgTurn → Challenge → Challenge
act turn ch =
    if turn.user == ch.user1 && not ch.acted1
    then record ch { act1 = turn.action; acted1 = true }
    else if turn.user == ch.user2 && not ch.acted2
    then record ch { act2 = turn.action; acted2 = true }
    else ch

-- The end of `handle_turn`.
unfoldable pub judge_if_both : Ptr → Server → Run Server
judge_if_both c s =
    if (s.challenges c).acted1 && (s.challenges c).acted2 then judge_turn c none s else done s

unfoldable pub handle_turn : MsgTurn → Server → Run Server
handle_turn turn s = if_null (find_ch s turn.chid) (done s) λ c.
    if_null (find_id s turn.user) (done s) λ user.
      if (s.users user).key == turn.key
      then judge_if_both c (set_challenge s c (act turn (s.challenges c)))
      else done s
