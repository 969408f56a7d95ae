-- ===== src/Protocol/Turn.antt =====
-- A turn between the server's `judge_turn` and the two clients of the battle (client/client.c).
use janken.Base.{
  ℕ, ◌≡◌, refl, sym, ◌∙◌, ap, Bool, true, false, none, List, [], ◌∷◌, ◌++◌, if◌then◌else◌, if-true,
  if-false, if_cases, Bool-cases, inl, inr, ltb, append_assoc,
}
use janken.Message.{MsgTurnR, u16}
use janken.Server.{Challenge}
use janken.Server.Battle.{turn_msg, get_turn_result}
use janken.Server.Turns.{opposite, get_turn_result_lem}
use janken.Client.{Client, GameState, goes, Output, last_turn, choose_action}
use janken.Client.Receive.{take_points, print_last_turn, handle_turn_r, handle_body}

-- What a client shows of the points: its own, the other's, and their bounds.
abbrev pub points : Client → ℕ × ℕ × ℕ × ℕ
points c = (c.gs.hp, c.gs.max_hp, c.gs.opponent_hp, c.gs.opponent_max_hp)

abbrev pub points_of_other : Client → ℕ × ℕ × ℕ × ℕ
points_of_other c = (c.gs.opponent_hp, c.gs.opponent_max_hp, c.gs.hp, c.gs.max_hp)

-- What is printed of a turn from the side of the one who did `a` against `b`.
abbrev pub shown_turn : (turn_no a b : ℕ) → List Output
shown_turn n a b =
    if ltb 1 n
    then last_turn a b (get_turn_result a b) ∷ choose_action n ∷ []
    else choose_action n ∷ []

-- A TURN_R of a battle that goes on, on the client of the first and of the second user.
module _ (r : MsgTurnR) (c : Client) where
  take_points-first :
      c.gs.is_user1 ≡ true
      → take_points r c.gs ≡ record c.gs {
        hp = r.hp1;
        max_hp = r.maxhp1;
        opponent_hp = r.hp2;
        opponent_max_hp = r.maxhp2;
      }
  unfolding take_points
  take_points-first h = if-true _ _ h

  take_points-second :
      c.gs.is_user1 ≡ false
      → take_points r c.gs ≡ record c.gs {
        hp = r.hp2;
        max_hp = r.maxhp2;
        opponent_hp = r.hp1;
        opponent_max_hp = r.maxhp1;
      }
  unfolding take_points
  take_points-second h = if-false _ _ h

  print_last_turn-printed :
      (print_last_turn r c).printed ++ choose_action r.turn_no ∷ []
      ≡ c.printed
        ++ shown_turn r.turn_no
            (if c.gs.is_user1 then r.action1 else r.action2)
            (if c.gs.is_user1 then r.action2 else r.action1)
  unfolding print_last_turn
  print_last_turn-printed = elim (Bool-cases (ltb 1 r.turn_no)) [
    | inl e ↦ rw e (append_assoc c.printed _ _)
    | inr e ↦ rw e refl
  ]

  print_last_turn-gs : (print_last_turn r c).gs ≡ c.gs
  unfolding print_last_turn
  print_last_turn-gs =
      if_cases (λ (d : Client). d.gs ≡ c.gs) (ltb 1 r.turn_no) (λ _. refl) (λ _. refl)

-- The server's packet on a turn after which the battle goes on, as a client gets it.
abbrev going_on : Challenge → MsgTurnR
going_on ch = record {
  chid = 0;
  turn_no = ch.turn_no;
  action1 = u16 ch.act1;
  action2 = u16 ch.act2;
  winner = 0;
  hp1 = ch.hp1;
  hp2 = ch.hp2;
  maxhp1 = ch.maxhp1;
  maxhp2 = ch.maxhp2;
  fin = 0;
}

abbrev four : GameState → ℕ × ℕ × ℕ × ℕ
four gs = (gs.hp, gs.max_hp, gs.opponent_hp, gs.opponent_max_hp)

module _ (ch : Challenge) (c : Client) where
  abbrev pointed : Client
  pointed = record c { gs = take_points (going_on ch) c.gs }

  taken : points (handle_turn_r (going_on ch) c) ≡ four (take_points (going_on ch) c.gs)
  unfolding handle_turn_r
  taken = ap four (print_last_turn-gs (going_on ch) pointed)

  keeps_side : (take_points (going_on ch) c.gs).is_user1 ≡ c.gs.is_user1
  unfolding take_points
  keeps_side =
      if_cases (λ (g : GameState). g.is_user1 ≡ c.gs.is_user1) c.gs.is_user1 (λ _. refl) (λ _. refl)

  told :
      (handle_turn_r (going_on ch) c).printed
      ≡ c.printed
        ++ shown_turn ch.turn_no
            (if c.gs.is_user1 then u16 ch.act1 else u16 ch.act2)
            (if c.gs.is_user1 then u16 ch.act2 else u16 ch.act1)
  unfolding handle_turn_r
  told =
      print_last_turn-printed (going_on ch) pointed
      ∙ ap
          (λ b.
            c.printed
            ++ shown_turn ch.turn_no (if b then u16 ch.act1 else u16 ch.act2)
                (if b then u16 ch.act2 else u16 ch.act1))
          keeps_side

-- The server's packet about a turn, on the two clients of the battle, where it goes on: each has the
-- points that the server has for it, and they agree on them; both may act, on the same turn; and both
-- are shown the acts, each from its side, with opposite results.
pub turn_msg-handle_body :
    (ch : Challenge) (c1 c2 : Client)
    → c1.gs.is_user1 ≡ true
    → c2.gs.is_user1 ≡ false
    → (d1 : Client) × (d2 : Client) × (handle_body (turn_msg ch none).body c1 ≡ goes d1)
      × (handle_body (turn_msg ch none).body c2 ≡ goes d2)
      × (points d1 ≡ (ch.hp1, ch.maxhp1, ch.hp2, ch.maxhp2))
      × (points d2 ≡ points_of_other d1)
      × (d1.gs.acted ≡ false)
      × (d2.gs.acted ≡ false)
      × (d1.gs.turn_no ≡ ch.turn_no)
      × (d2.gs.turn_no ≡ ch.turn_no)
      × (d1.printed ≡ c1.printed ++ shown_turn ch.turn_no (u16 ch.act1) (u16 ch.act2))
      × (d2.printed ≡ c2.printed ++ shown_turn ch.turn_no (u16 ch.act2) (u16 ch.act1))
      × (get_turn_result (u16 ch.act2) (u16 ch.act1)
          ≡ opposite (get_turn_result (u16 ch.act1) (u16 ch.act2)))
unfolding handle_body turn_msg
turn_msg-handle_body ch c1 c2 h1 h2 = (
  handle_turn_r (going_on ch) c1,
  handle_turn_r (going_on ch) c2,
  refl,
  refl,
  first,
  taken ch c2
      ∙ ap four (take_points-second (going_on ch) c2 h2)
      ∙ ap (λ (a, b, c, d). (c, d, a, b)) (sym first),
  refl,
  refl,
  refl,
  refl,
  told ch c1 ∙ ap (side c1) h1,
  told ch c2 ∙ ap (side c2) h2,
  (get_turn_result_lem (u16 ch.act1) (u16 ch.act2)).0,
)
  where
    first : points (handle_turn_r (going_on ch) c1) ≡ (ch.hp1, ch.maxhp1, ch.hp2, ch.maxhp2)
    first = taken ch c1 ∙ ap four (take_points-first (going_on ch) c1 h1)

    side : Client → Bool → List Output
    side c b =
        c.printed
        ++ shown_turn ch.turn_no (if b then u16 ch.act1 else u16 ch.act2)
            (if b then u16 ch.act2 else u16 ch.act1)
