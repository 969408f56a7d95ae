-- ===== src/Server/Invite.antt =====
-- CHALLENGE packets: `add_challenge` and `handle_challenge`, a function for each part that returns.
pub mod Frame
pub mod Keys
pub mod Stale
use janken.Base.{
  ℕ, zero, suc, ◌+◌, ◌-◌, ◌%◌, ◌^◌, compare, ◌≡◌, Bool, true, false, ◌&&◌, ◌||◌, not, Option, none,
  some, ◌==◌, if◌then◌else◌,
}
use janken.Tree.{tfind, tsearch, tdelete}
use janken.Message.{
  Message, UserState, uoffline, uonline, ubattling, MsgChallenge, challenge, challenge_r, MsgErr,
  me_ok, nxid, ickey, nxchid, engaged, chlself, invarg, rejected, cancelled, err_code, init_msg_buf,
}
use janken.Message.Action
use janken.Server.{
  Server, User, Ptr, Challenge, ChallengeState, asking, started, Run, done, crash, ◌>>=◌, check,
  if_null, random_rest, set_user, set_challenge, chids, find_id, find_ch, msg_send, maxhp,
  uint16_max,
}
use janken.Server.Notify.{broadcast_user_changes}
use janken.Server.Battle.{judge_turn}

-- The CHALLENGE_R of `handle_challenge`, with its error.
unfoldable pub reply : MsgChallenge → MsgErr → (is_id1 : ℕ) → Message
reply m err is_id1 = init_msg_buf (
    challenge_r
      (record { error = err_code err; id1 = m.id1; id2 = m.id2; chid = m.chid; is_id1 = is_id1 }))

abbrev pub is_online : UserState → Bool
is_online uoffline = false
is_online uonline = true
is_online ubattling = false

abbrev pub is_started : ChallengeState → Bool
is_started asking = false
is_started started = true

abbrev pub zero_challenge : Challenge
zero_challenge = record {
  id = 0;
  user1 = 0;
  user2 = 0;
  turn_no = 0;
  acted1 = false;
  acted2 = false;
  act1 = 0;
  act2 = 0;
  hp1 = 0;
  hp2 = 0;
  maxhp1 = 0;
  maxhp2 = 0;
  state = asking;
}

-- The id of one round: `random() % UINT16_MAX`, and 1 in place of 0.
abbrev pub round_id : ℕ → ℕ
round_id r = if r % uint16_max == 0 then 1 else r % uint16_max

unfoldable pub enter_challenge : Ptr → Server → Run (Ptr × Server)
enter_challenge c s =
    let (r, t) = tsearch compare (chids s) c s.ch_by_id in
    check (r == c) (done (c, record s { ch_by_id = t }))

-- The loop of `add_challenge`, and its `assert(0)`.
unfoldable pub challenge_rounds : ℕ → Ptr → Server → Run (Ptr × Server)
challenge_rounds zero c s = crash
challenge_rounds (suc n) c s =
    let s1 =
      set_challenge (random_rest s) c (record (s.challenges c) { id = round_id (s.randoms 0) }) in
    let again = challenge_rounds n c s1 in
    if_null (find_ch s1 (chids s1 c)) (enter_challenge c s1) λ _. again

unfoldable pub add_challenge : Server → Run (Ptr × Server)
add_challenge s =
    let c = s.next in
    challenge_rounds 16 c (set_challenge (record s { next = suc c }) c zero_challenge)

-- The guards of C_START: the error, if one fails.
unfoldable pub start_error : User → User → Option MsgErr
start_error usr1 usr2 =
    if not (is_online usr1.state) || not (is_online usr2.state)
    then some engaged
    else if usr1.id == usr2.id
    then some chlself
    else none

-- C_START past its guards: what is written to the new challenge and to the challenger,
unfoldable pub fill_challenge : MsgChallenge → Ptr → Ptr → Server → Server
fill_challenge m usr1 c s =
    let s1 = set_challenge s c (record (s.challenges c) {
      state = asking;
      user1 = m.id1;
      user2 = m.id2;
      hp1 = maxhp;
      hp2 = maxhp;
      maxhp1 = maxhp;
      maxhp2 = maxhp;
    }) in
    set_user s1 usr1 (record (s1.users usr1) { chid = chids s1 c })

-- and the packet that is relayed: the challenger's, with the new id.
unfoldable pub relay : MsgChallenge → Ptr → Ptr → Server → Server
relay m usr2 c s =
    msg_send s (s.users usr2).fd (init_msg_buf (challenge (record m { chid = chids s c })))

unfoldable pub begin_challenge : MsgChallenge → Ptr → Ptr → Server → Run Server
begin_challenge m usr1 usr2 s =
    add_challenge s >>= λ (c, s1). done (relay m usr2 c (fill_challenge m usr1 c s1))

unfoldable pub handle_start : (fd : ℕ) → MsgChallenge → Ptr → Ptr → Server → Run Server
handle_start fd m usr1 usr2 s =
    if_null (start_error (s.users usr1) (s.users usr2)) (begin_challenge m usr1 usr2 s)
      λ e. done (msg_send s fd (reply m e 0))

-- The part of C_CANCEL that withdraws the challenge.
unfoldable pub withdraw : MsgChallenge → Ptr → Ptr → Server → Server
withdraw m usr1 c s =
    let s1 = set_user s usr1 (record (s.users usr1) { chid = 0 }) in
    let s2 = record s1 { ch_by_id = (tdelete compare (chids s1) (chids s1 c) s1.ch_by_id).1 } in
    if_null (find_id s2 (s2.challenges c).user2) s2
      λ user2. msg_send s2 (s2.users user2).fd (reply m cancelled 0)

unfoldable pub handle_cancel : MsgChallenge → Ptr → Server → Server
handle_cancel m usr1 s =
    if not (is_online (s.users usr1).state)
    then s
    else if_null (find_ch s (s.users usr1).chid) s λ c.
      if not (is_started (s.challenges c).state) && (s.challenges c).user1 == (s.users usr1).id
      then withdraw m usr1 c s
      else s

-- C_ACCEPT past its guard: the states and the challenge id of both users,
unfoldable pub enter_battle : Ptr → Ptr → Ptr → Server → Server
enter_battle usr1 usr2 c s =
    let s1 = set_challenge s c (record (s.challenges c) { state = started }) in
    let s2 = set_user s1 usr2 (record (s1.users usr2) { state = ubattling }) in
    let s3 = set_user s2 usr1 (record (s2.users usr1) { state = ubattling }) in
    let s4 = set_user s3 usr2 (record (s3.users usr2) { chid = chids s3 c }) in
    set_user s4 usr1 (record (s4.users usr1) { chid = chids s4 c })

-- what is sent of it,
unfoldable pub announce_battle : MsgChallenge → Ptr → Ptr → Server → Server
announce_battle m usr1 usr2 s =
    let s1 = broadcast_user_changes usr1 (some usr2) s in
    let s2 = msg_send s1 (s1.users usr1).fd (reply m me_ok 1) in
    msg_send s2 (s2.users usr2).fd (reply m me_ok 0)

-- and the first turn.
unfoldable pub begin_battle : MsgChallenge → Ptr → Ptr → Ptr → Server → Run Server
begin_battle m usr1 usr2 c s =
    let s1 = announce_battle m usr1 usr2 (enter_battle usr1 usr2 c s) in
    judge_turn c none (set_challenge s1 c (record (s1.challenges c) { turn_no = 0 }))

unfoldable pub handle_accept : (fd : ℕ) → MsgChallenge → Ptr → Ptr → Ptr → Server → Run Server
handle_accept fd m usr1 usr2 c s =
    if is_online (s.users usr1).state && is_online (s.users usr2).state
    then begin_battle m usr1 usr2 c s
    else done (msg_send s fd (reply m engaged 0))

unfoldable pub handle_reject : MsgChallenge → Ptr → Ptr → Ptr → Server → Server
handle_reject m usr1 usr2 c s =
    if not (is_started (s.challenges c).state) && (s.challenges c).user2 == (s.users usr2).id
    then (let s1 = msg_send s (s.users usr1).fd (reply m rejected 0) in
        record s1 { ch_by_id = (tdelete compare (chids s1) (chids s1 c) s1.ch_by_id).1 })
    else s

-- C_ACCEPT and C_REJECT: the challenge that the packet names.
unfoldable pub handle_answer : (fd : ℕ) → MsgChallenge → Ptr → Ptr → Server → Run Server
handle_answer fd m usr1 usr2 s =
    if_null (find_ch s m.chid) (done (msg_send s fd (reply m nxchid 0))) λ c.
      if is_started (s.challenges c).state
      then done s
      else if m.action == Action.accept
      then handle_accept fd m usr1 usr2 c s
      else done (handle_reject m usr1 usr2 c s)

-- The key that a packet's action wants, from its two users; `none` for an unknown action.
unfoldable pub wanted_key : ℕ → User → User → Option ℕ
wanted_key action usr1 usr2 =
    if action == Action.start || action == Action.cancel
    then some usr1.key
    else if action == Action.accept || action == Action.reject
    then some usr2.key
    else none

-- `handle_challenge` from the check of the key on.
unfoldable pub handle_action : (fd : ℕ) → MsgChallenge → Ptr → Ptr → Server → Run Server
handle_action fd m usr1 usr2 s =
    if m.action == Action.start
    then handle_start fd m usr1 usr2 s
    else if m.action == Action.cancel
    then done (handle_cancel m usr1 s)
    else handle_answer fd m usr1 usr2 s

unfoldable pub handle_verified : (fd : ℕ) → MsgChallenge → Ptr → Ptr → Server → Run Server
handle_verified fd m usr1 usr2 s =
    if_null (wanted_key m.action (s.users usr1) (s.users usr2))
      (done (msg_send s fd (reply m invarg 0)))
      λ key.
        if key == m.key
        then handle_action fd m usr1 usr2 s
        else done (msg_send s fd (reply m ickey 0))

unfoldable pub handle_challenge : (fd : ℕ) → MsgChallenge → Server → Run Server
handle_challenge fd m s = if_null (find_id s m.id1) (done (msg_send s fd (reply m nxid 0))) λ usr1.
    if_null (find_id s m.id2) (done (msg_send s fd (reply m nxid 0)))
      λ usr2. handle_verified fd m usr1 usr2 s
