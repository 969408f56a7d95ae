-- ===== src/Server/Tests/Battle.antt =====
-- The theorems on battles at examples.
use janken.Base.{
  ℕ, ◌≤◌, ◌≡◌, ◌≢◌, refl, true, false, some, List, [], ◌∷◌, arith, ◌==◌, if◌then◌else◌, ◌⊎◌, add32,
  sub32, replicate,
}
use janken.Tree.{tfind}
use janken.Message.{uonline, ubattling, MsgTurn}
use janken.Server.{Server, User, Challenge, started, done, find_id, find_ch, if_null, set_challenge}
use janken.Server.Battle.{beats, settle, leave_state, act, judge_if_both, handle_turn}
use janken.Server.Turns.Ends.{Turn, fight, decisive, Alive, fight_ends}
use janken.Server.Turns.Scores.{settled, bonus, penalty, settle_lem}
use janken.Server.Turns.Acts.{Chosen1, Chosen2, handle_turn_guards}

abbrev battle : Challenge
battle = record {
  id = 3;
  user1 = 5;
  user2 = 6;
  turn_no = 1;
  acted1 = false;
  acted2 = false;
  act1 = 0;
  act2 = 0;
  hp1 = 10;
  hp2 = 10;
  maxhp1 = 10;
  maxhp2 = 10;
  state = started;
}

-- Rock against scissors and back, with the least damage.
abbrev turns : List Turn
turns =
    (0, 2, 0)
    ∷ (2, 0, 0)
    ∷ (0, 2, 0)
    ∷ (2, 0, 0)
    ∷ (0, 2, 0)
    ∷ (2, 0, 0)
    ∷ (0, 2, 0)
    ∷ (2, 0, 0)
    ∷ (0, 2, 0)
    ∷ (2, 0, 0)
    ∷ replicate 9 (1, 0, 0)

turns_decide : decisive turns ≡ true
unfolding beats
turns_decide = refl

battle-Alive : Alive battle
battle-Alive = record {
  begun = omega arith;
  some1 = omega arith;
  less1 = omega arith;
  some2 = omega arith;
  less2 = omega arith;
}

fight_ends_example : (w : ℕ) × (fight battle turns ≡ some w) × ((w ≡ 5) ⊎ (w ≡ 6))
fight_ends_example = fight_ends battle turns battle-Alive (omega arith) turns_decide (omega arith)

abbrev user : (id key fd : ℕ) → User
user id key fd = record {
  nickname = b'A' ∷ 0 ∷ [];
  id = id;
  score = 2;
  state = ubattling;
  fd = fd;
  key = key;
  chid = 3;
}

abbrev server : Server
server = record {
  users = λ p. elim (p == 0) [ true ↦ user 5 99 11 | false ↦ user 6 98 12 ];
  challenges = λ c. battle;
  next = 3;
  by_id = 0 ∷ 1 ∷ [];
  by_fd = 0 ∷ 1 ∷ [];
  by_nick = [];
  ch_by_id = 2 ∷ [];
  user_cnt = 2;
  randoms = λ n. n;
  sent = [];
}

other_pointers : ◌≢◌ {A = ℕ} 0 1
other_pointers e = cc

settle_lem_example :
    ((settle 0 1 6 server).users 1 ≡ (
      if 1 == 0
      then settled
          (user 5 99 11)
          (if 5 == 6 then add32 2 (bonus server) else sub32 2 (penalty server))
      else if 1 == 1
      then settled
          (user 6 98 12)
          (if 5 == 6 then sub32 2 (penalty server) else add32 2 (bonus server))
      else user 6 98 12))
    × (1 ≤ bonus server)
    × (bonus server ≤ 4)
    × (penalty server ≤ 3)
    × (leave_state ubattling ≡ uonline)
settle_lem_example = settle_lem 0 1 6 server other_pointers 1

-- The second user acts.
abbrev paper : MsgTurn
paper = record { user = 6; chid = 3; key = 98; turn_no = 1; action = 1 }

abbrev acted : Server
acted = set_challenge server 2 (record battle { act2 = 1; acted2 = true })

paper_is_entered : handle_turn paper server ≡ done acted
unfolding handle_turn find_ch find_id tfind if_null judge_if_both act
paper_is_entered = refl

handle_turn_guards_example :
    Chosen1 paper server battle (acted.challenges 2)
    × Chosen2 paper server battle (acted.challenges 2)
handle_turn_guards_example = handle_turn_guards paper server acted 2 paper_is_entered
