-- ===== src/Server/Turns/Scores.antt =====
-- What the end of a battle does to the users.
use janken.Base.{
  ℕ, ◌+◌, ◌%◌, ◌≤◌, ◌≡◌, ◌≢◌, refl, sym, ◌∙◌, ap, Bool, true, false, arith, ◌==◌, ==_refl,
  if◌then◌else◌, add32, sub32, Bool-cases, inl, inr, if-true, if-false,
}
use janken.Message.{uonline, ubattling}
use janken.Server.{Server, Ptr, User}
use janken.Server.Battle.{gain_score, lose_score, leave_state, leave_battle, settle}

-- What a battle's end writes to one of its two users.
abbrev pub settled : User → (score : ℕ) → User
settled u score = record u { score = score; state = leave_state u.state }

abbrev pub bonus : Server → ℕ
bonus s = s.randoms 0 % 4 + 1

abbrev pub penalty : Server → ℕ
penalty s = s.randoms 1 % 4

-- A write to one object that depends on what it held.
abbrev modify : {A : Type 0} → (Ptr → A) → Ptr → (A → A) → Ptr → A
modify m p f q = if q == p then f (m p) else m q

-- Two objects, each written twice.
module _ {A : Type 0} (m : Ptr → A) (q1 q2 : Ptr) (ne : q1 ≢ q2) (f g h : A → A) where
  apart : ((q1 == q2) ≡ false) × ((q2 == q1) ≡ false)
  apart = (ground arith, ground arith)

  other : (p : Ptr) → (p == q1) ≡ true → (p == q2) ≡ false
  other p e = ground (arith, ne, e)

  abbrev twice : Ptr → A
  twice p = if p == q1 then h (f (m q1)) else if p == q2 then h (g (m q2)) else m p

  modify_first : (p : Ptr) → modify (modify (modify (modify m q1 f) q2 g) q1 h) q2 h p ≡ twice p
  modify_first p =
      rw (apart.0, apart.1, ==_refl q1, ==_refl q2)
        (elim (Bool-cases (p == q1)) [
          | inl e ↦ rw (e, other p e) refl
          | inr e ↦ elim (Bool-cases (p == q2)) [ inl d ↦ rw (e, d) refl | inr d ↦ rw (e, d) refl ]
        ])

  modify_second : (p : Ptr) → modify (modify (modify (modify m q2 g) q1 f) q1 h) q2 h p ≡ twice p
  modify_second p =
      rw (apart.0, apart.1, ==_refl q1, ==_refl q2)
        (elim (Bool-cases (p == q1)) [
          | inl e ↦ rw (e, other p e) refl
          | inr e ↦ elim (Bool-cases (p == q2)) [ inl d ↦ rw (e, d) refl | inr d ↦ rw (e, d) refl ]
        ])

module _ (q1 q2 : Ptr) (winner : ℕ) (s : Server) (ne : q1 ≢ q2) where
  abbrev u1 : User
  u1 = s.users q1

  abbrev u2 : User
  u2 = s.users q2

  abbrev gains : ℕ → User → User
  gains n u = record u { score = add32 u.score n }

  abbrev loses : ℕ → User → User
  loses n u = record u { score = sub32 u.score n }

  abbrev leaves : User → User
  leaves u = record u { state = leave_state u.state }

  -- The end of a battle changes the score and the state of its two users and nothing else of any user:
  -- the winner gains 1 to 4 points, the other loses at most 3 (as int32_t), and no one who was battling
  -- still is.
  pub settle_lem :
      (p : Ptr)
      → ((settle q1 q2 winner s).users p ≡ (
          if p == q1
          then settled u1
              (if u1.id == winner then add32 u1.score (bonus s) else sub32 u1.score (penalty s))
          else if p == q2
          then settled u2
              (if u1.id == winner then sub32 u2.score (penalty s) else add32 u2.score (bonus s))
          else s.users p))
        × (1 ≤ bonus s)
        × (bonus s ≤ 4)
        × (penalty s ≤ 3)
        × (leave_state ubattling ≡ uonline)
  unfolding settle leave_battle gain_score lose_score
  settle_lem p = (
    elim (Bool-cases (u1.id == winner)) [
      | inl e ↦
          ap (λ d. (leave_battle q2 (leave_battle q1 d)).users p) (if-true _ _ e)
          ∙ modify_first s.users q1 q2 ne (gains (bonus s)) (loses (penalty s)) leaves p
          ∙ ap goal (sym e)
      | inr e ↦
          ap (λ d. (leave_battle q2 (leave_battle q1 d)).users p) (if-false _ _ e)
          ∙ modify_second s.users q1 q2 ne (loses (penalty s)) (gains (bonus s)) leaves p
          ∙ ap goal (sym e)
    ],
    omega arith,
    omega arith,
    omega arith,
    refl,
  )
    where
      goal : Bool → User
      goal b =
          if p == q1
          then settled u1 (if b then add32 u1.score (bonus s) else sub32 u1.score (penalty s))
          else if p == q2
          then settled u2 (if b then sub32 u2.score (penalty s) else add32 u2.score (bonus s))
          else s.users p
