-- ===== src/Server/Turns/Ends.antt =====
-- How long a battle lasts.
use janken.Base.{
  ℕ, ◌+◌, ◌^◌, ◌≤◌, ◌<◌, ◌≡◌, refl, sym, ◌∙◌, ap, Bool, true, false, ◌&&◌, ◌||◌, Option, none, some,
  Option-cases, List, [], ◌∷◌, Option-cases, inl, inr, arith, if◌then◌else◌, leb, ◌⊎◌, sub32,
  length,
}
use janken.Server.{Challenge}
use janken.Server.Battle.{beats, next_turn, strike, damages, judged, verdict}
use janken.Server.Turns.{
  damage, beats_asymmetric, strike-hp1, strike-hp2, judged-struck, judged-users, judged-verdict,
}

-- A turn: the acts of the two users, and the number that is drawn.
abbrev pub Turn : Type 0
Turn = ℕ × ℕ × ℕ

abbrev pub acted : Challenge → Turn → Challenge
acted ch (a, b, r) = record ch { act1 = a; act2 = b; acted1 = true; acted2 = true }

-- The challenge after a turn on which both have acted.
abbrev pub after_turn : Challenge → Turn → Challenge
after_turn ch t = judged (acted ch t) t.2

-- The winner of the first turn that ends the battle.
unfoldable pub fight : Challenge → List Turn → Option ℕ
fight ch [] = none
fight ch (t ∷ ts) =
    let rest = fight (after_turn ch t) ts in
    elim (verdict none (after_turn ch t)) [ none ↦ rest | some w ↦ some w ]

-- One act beats the other on each turn.
abbrev pub decisive : List Turn → Bool
decisive [] = true
decisive ((a, b, r) ∷ ts) = (beats a b || beats b a) && decisive ts

-- A battle that goes on.
pub record Alive (ch : Challenge) : Type 0 where
  pub begun : 0 < ch.turn_no
  pub some1 : 0 < ch.hp1
  pub less1 : ch.hp1 < 2 ^ 31
  pub some2 : 0 < ch.hp2
  pub less2 : ch.hp2 < 2 ^ 31

-- The points of the two after a turn that does not end the battle.
numbers :
    (w1 w2 : Bool) (hp1 hp2 r u1 u2 : ℕ)
    → 0 < hp1
    → hp1 < 2 ^ 31
    → 0 < hp2
    → hp2 < 2 ^ 31
    → (w1 || w2) ≡ true
    → (w1 ≡ true → w2 ≡ false)
    → (if w1 && leb hp2 (damage r)
        then some u1
        else if w2 && leb hp1 (damage r)
        then some u2
        else none)
      ≡ none
    → (0 < (if w2 then sub32 hp1 (damage r) else hp1))
      × ((if w2 then sub32 hp1 (damage r) else hp1) ≤ hp1)
      × (0 < (if w1 then sub32 hp2 (damage r) else hp2))
      × ((if w1 then sub32 hp2 (damage r) else hp2) ≤ hp2)
      × ((if w2 then sub32 hp1 (damage r) else hp1) + (if w1 then sub32 hp2 (damage r) else hp2)
          < hp1 + hp2)
numbers true true hp1 hp2 r u1 u2 a b c d e f g = cc (f refl)
numbers true false hp1 hp2 r u1 u2 a b c d e f g = ground arith
numbers false true hp1 hp2 r u1 u2 a b c d e f g = ground arith
numbers false false hp1 hp2 r u1 u2 a b c d e f g = cc

module _ (ch : Challenge) (t : Turn) (v : Alive ch) where
  abbrev c : Challenge
  c = acted ch t

  points1 : (after_turn ch t).hp1 ≡ (if beats t.1 t.0 then sub32 ch.hp1 (damage t.2) else ch.hp1)
  points1 = (judged-struck c t.2 v.begun refl refl).0 ∙ strike-hp1 c t.2 v.less1

  points2 : (after_turn ch t).hp2 ≡ (if beats t.0 t.1 then sub32 ch.hp2 (damage t.2) else ch.hp2)
  points2 = (judged-struck c t.2 v.begun refl refl).1 ∙ strike-hp2 c t.2 v.less2

  verdict_lem : verdict none (after_turn ch t) ≡ (
      if beats t.0 t.1 && leb ch.hp2 (damage t.2)
      then some ch.user1
      else if beats t.1 t.0 && leb ch.hp1 (damage t.2)
      then some ch.user2
      else none)
  verdict_lem = (judged-verdict c t.2 v.begun refl refl v.some1 v.less1 v.some2 v.less2).0

  turn_no_lem : ch.turn_no + 1 < 2 ^ 16 → (after_turn ch t).turn_no ≡ ch.turn_no + 1
  unfolding judged next_turn strike damages
  turn_no_lem h = ground arith

  -- A turn that does not end the battle leaves both alive, with fewer points together.
  goes_on :
      ch.turn_no + 1 < 2 ^ 16
      → (beats t.0 t.1 || beats t.1 t.0) ≡ true
      → verdict none (after_turn ch t) ≡ none
      → Alive (after_turn ch t) × ((after_turn ch t).hp1 + (after_turn ch t).hp2 < ch.hp1 + ch.hp2)
  goes_on h d e =
      let f =
        numbers (beats t.0 t.1) (beats t.1 t.0) ch.hp1 ch.hp2 t.2 ch.user1 ch.user2 v.some1 v.less1
          v.some2 v.less2 d (beats_asymmetric t.0 t.1) (sym verdict_lem ∙ e) in
      (
        record {
          begun = omega (arith, turn_no_lem h);
          some1 = omega (arith, points1, f.0);
          less1 = omega (arith, points1, f.1, v.less1);
          some2 = omega (arith, points2, f.2);
          less2 = omega (arith, points2, f.3, v.less2);
        },
        omega (arith, points1, points2, f.4),
      )

wins :
    (x y : Bool) (u1 u2 w : ℕ)
    → (if x then some u1 else if y then some u2 else none) ≡ some w
    → (w ≡ u1) ⊎ (w ≡ u2)
wins true y u1 u2 w h = inl cc
wins false true u1 u2 w h = inr cc
wins false false u1 u2 w h = cc

-- A battle that goes on, on which each turn is decided, ends after fewer turns than both users have
-- points together, and one of the two wins it. (The turns are counted by an uint16_t.)
pub fight_ends :
    (ch : Challenge) (ts : List Turn)
    → Alive ch
    → ch.turn_no + length ts < 2 ^ 16
    → decisive ts ≡ true
    → ch.hp1 + ch.hp2 ≤ length ts + 1
    → (w : ℕ) × (fight ch ts ≡ some w) × ((w ≡ ch.user1) ⊎ (w ≡ ch.user2))
unfolding fight
fight_ends ch [] v h d n = elim (few v.some1 v.some2 n) [ ]
  where
    few : 0 < ch.hp1 → 0 < ch.hp2 → ch.hp1 + ch.hp2 ≤ 1 → ⊥
    few x y z = omega arith
fight_ends ch (t ∷ ts) v h d n = elim (Option-cases (verdict none (after_turn ch t))) [
  | inl e ↦
      (let (v', less) = goes_on ch t v (omega (arith, h)) (ground arith) e in
        let (w, f, o) =
          fight_ends (after_turn ch t) ts v'
            (omega (arith, h, turn_no_lem ch t v (omega (arith, h)))) (ground arith)
            (omega (arith, n, less)) in
        let (u1, u2) = judged-users (acted ch t) t.2 in
        (
          w,
          ap (λ r. elim r [ none ↦ fight (after_turn ch t) ts | some x ↦ some x ]) e ∙ f,
          elim o [ inl q ↦ inl (q ∙ u1) | inr q ↦ inr (q ∙ u2) ],
        ))
  | inr (w, e) ↦ (
    w,
    ap (λ r. elim r [ none ↦ fight (after_turn ch t) ts | some x ↦ some x ]) e,
    wins (beats t.0 t.1 && leb ch.hp2 (damage t.2)) (beats t.1 t.0 && leb ch.hp1 (damage t.2))
        ch.user1 ch.user2 w (sym (verdict_lem ch t v) ∙ e),
  )
]
