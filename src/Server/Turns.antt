-- ===== src/Server/Turns.antt =====
-- `get_turn_result` and `judge_turn`: who wins a turn, what it costs, when a battle ends, and where
-- the judge ends the process.
pub mod Ends
pub mod Acts
pub mod Scores
use janken.Base.{
  ℕ, zero, suc, ◌+◌, ◌-◌, ◌%◌, ◌^◌, ◌≤◌, ◌<◌, ◌≡◌, refl, ◌∙◌, true, false, ◌&&◌, Option, none, some,
  Option-cases, inl, inr, arith, ◌==◌, if◌then◌else◌, leb, ◌⊎◌, sub32, nonpositive,
}
use janken.Server.{Server, Ptr, Challenge, done, crash, find_id}
use janken.Server.Ensures.{deref-some, deref-none, update_self}
use janken.Server.Frame.{find_id-Frame, judge_round-Frame}
use janken.Server.Battle.{
  TurnResult, tr_win, tr_lose, tr_even, beats, get_turn_result, next_turn, damages, strike, judged,
  verdict, judge_round, conclude, judge_turn,
}

abbrev pub opposite : TurnResult → TurnResult
opposite tr_win = tr_lose
opposite tr_lose = tr_win
opposite tr_even = tr_even

pub beats_asymmetric : (a b : ℕ) → beats a b ≡ true → beats b a ≡ false
unfolding beats
beats_asymmetric a b h = ground arith

circle :
    (a b : ℕ)
    → a < 3
    → b < 3
    → get_turn_result a b
      ≡ (if (a + 3 - b) % 3 == 0 then tr_even else if (a + 3 - b) % 3 == 1 then tr_win else tr_lose)
unfolding get_turn_result beats
circle zero zero h g = refl
circle zero (suc zero) h g = refl
circle zero (suc (suc zero)) h g = refl
circle (suc zero) zero h g = refl
circle (suc zero) (suc zero) h g = refl
circle (suc zero) (suc (suc zero)) h g = refl
circle (suc (suc zero)) zero h g = refl
circle (suc (suc zero)) (suc zero) h g = refl
circle (suc (suc zero)) (suc (suc zero)) h g = refl
circle (suc (suc (suc a))) b h g = absurd (omega arith)
circle a (suc (suc (suc b))) h g = absurd (omega arith)

-- Each act wins against the act before it in the circle rock, paper, scissors: for the three acts the
-- result depends on (a - b) mod 3. It is the opposite of the result with the users swapped, also for
-- numbers that are no act.
pub get_turn_result_lem :
    (a b : ℕ)
    → (get_turn_result b a ≡ opposite (get_turn_result a b))
      × (a < 3
          → b < 3
          → get_turn_result a b ≡ (
              if (a + 3 - b) % 3 == 0
              then tr_even
              else if (a + 3 - b) % 3 == 1
              then tr_win
              else tr_lose))
unfolding get_turn_result
get_turn_result_lem a b = (ground (arith, beats_asymmetric a b), circle a b)

abbrev pub damage : ℕ → ℕ
damage r = r % 5 + 1

module _ (ch : Challenge) (r : ℕ) where
  pub strike-hp1 :
      ch.hp1 < 2 ^ 31
      → (strike ch r).hp1 ≡ (if beats ch.act2 ch.act1 then sub32 ch.hp1 (damage r) else ch.hp1)
  unfolding strike damages get_turn_result
  strike-hp1 h = ground (arith, beats_asymmetric ch.act1 ch.act2)

  pub strike-hp2 :
      ch.hp2 < 2 ^ 31
      → (strike ch r).hp2 ≡ (if beats ch.act1 ch.act2 then sub32 ch.hp2 (damage r) else ch.hp2)
  unfolding strike damages get_turn_result
  strike-hp2 h = ground (arith, beats_asymmetric ch.act1 ch.act2)

  -- A hit takes the points to zero or below exactly if there were no more than it costs.
  pub hit_is_fatal : (hp : ℕ) → hp < 2 ^ 31 → nonpositive (sub32 hp (damage r)) ≡ leb hp (damage r)
  hit_is_fatal hp h = ground arith

  pub judged-struck :
      0 < ch.turn_no
      → ch.acted1 ≡ true
      → ch.acted2 ≡ true
      → ((judged ch r).hp1 ≡ (strike ch r).hp1) × ((judged ch r).hp2 ≡ (strike ch r).hp2)
  unfolding judged next_turn strike damages
  judged-struck t a1 a2 = ground arith

  pub judged-users : ((judged ch r).user1 ≡ ch.user1) × ((judged ch r).user2 ≡ ch.user2)
  unfolding judged next_turn strike
  judged-users = ground arith

  -- The judge's round on a turn after the first (`turn_no` above 0) of a battle in which both have acted,
  -- with points from 1 to 2^31 - 1 for both before it: the battle ends exactly if one act beats the other and the loser has no more points than the damage,
  -- a number from 1 to 5, and the winner is then the one whose act beats the other's.
  pub judged-verdict :
      0 < ch.turn_no
      → ch.acted1 ≡ true
      → ch.acted2 ≡ true
      → 0 < ch.hp1
      → ch.hp1 < 2 ^ 31
      → 0 < ch.hp2
      → ch.hp2 < 2 ^ 31
      → (verdict none (judged ch r) ≡ (
          if beats ch.act1 ch.act2 && leb ch.hp2 (damage r)
          then some ch.user1
          else if beats ch.act2 ch.act1 && leb ch.hp1 (damage r)
          then some ch.user2
          else none))
        × (0 < damage r)
        × (damage r ≤ 5)
  unfolding verdict
  judged-verdict t a1 a2 p1 q1 p2 q2 = (
    ground (
      arith,
      judged-users,
      judged-struck t a1 a2,
      strike-hp1 q1,
      strike-hp2 q2,
      hit_is_fatal ch.hp1 q1,
      hit_is_fatal ch.hp2 q2,
      beats_asymmetric ch.act1 ch.act2,
    ),
    omega arith,
    omega arith,
  )

-- The users whom `judge_turn` looks up.
round-users :
    (c : Ptr) (s : Server)
    → (((judge_round c s).challenges c).user1 ≡ (s.challenges c).user1)
      × (((judge_round c s).challenges c).user2 ≡ (s.challenges c).user2)
unfolding judge_round
round-users c s =
    let e = update_self s.challenges c (judged (s.challenges c) (s.randoms 0)) in
    let u = judged-users (s.challenges c) (s.randoms 0) in ground (arith, e, u)

module _ (c : Ptr) (force : Option ℕ) (s : Server) where
  lookup1 :
      find_id (judge_round c s) ((judge_round c s).challenges c).user1
      ≡ find_id s (s.challenges c).user1
  lookup1 = rw (round-users c s).0 (find_id-Frame (judge_round-Frame c s) (s.challenges c).user1)

  lookup2 :
      find_id (judge_round c s) ((judge_round c s).challenges c).user2
      ≡ find_id s (s.challenges c).user2
  lookup2 = rw (round-users c s).1 (find_id-Frame (judge_round-Frame c s) (s.challenges c).user2)

  -- With both users of the challenge in the id tree the judge comes to its end.
  pub judge_turn-done :
      (q1 q2 : Ptr)
      → find_id s (s.challenges c).user1 ≡ some q1
      → find_id s (s.challenges c).user2 ≡ some q2
      → judge_turn c force s
        ≡ done (conclude c (verdict force ((judge_round c s).challenges c)) q1 q2 (judge_round c s))
  unfolding judge_turn
  judge_turn-done q1 q2 e1 e2 = deref-some _ q1 (lookup1 ∙ e1) ∙ deref-some _ q2 (lookup2 ∙ e2)

  -- Without one of them it follows a NULL.
  pub judge_turn-crash :
      (find_id s (s.challenges c).user1 ≡ none) ⊎ (find_id s (s.challenges c).user2 ≡ none)
      → judge_turn c force s ≡ crash
  unfolding judge_turn
  judge_turn-crash (inl e) = deref-none _ (lookup1 ∙ e)
  judge_turn-crash (inr e) = elim (Option-cases (find_id s (s.challenges c).user1)) [
    | inl e' ↦ deref-none _ (lookup1 ∙ e')
    | inr (q, e') ↦ deref-some _ q (lookup1 ∙ e') ∙ deref-none _ (lookup2 ∙ e)
  ]
