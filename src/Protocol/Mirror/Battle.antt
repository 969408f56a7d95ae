-- ===== src/Protocol/Mirror/Battle.antt =====
-- Turns and the end of a battle, for one who follows the users.
use janken.Base.{
  ℕ, ◌≡◌, refl, Bool, true, false, ◌==◌, ==_refl, Option, none, some, List, [], ◌∷◌, if◌then◌else◌,
  arith,
}
use janken.Tree.Laws.{mem, tfind_sound, compare-IsOrder}
use janken.Message.{MsgTurn, init_msg_buf}
use janken.Server.{Server, Ptr, ids, find_id, random_rest}
use janken.Server.Ensures.{Ensures, returns, Ensures-deref, Ensures-if_null, Ensures-if}
use janken.Server.Frame.{rest-Frame, gain-Frame, lose-Frame, leave-Frame}
use janken.Server.Battle.{
  turn_msg, gain_score, lose_score, leave_battle, settle, finish, draws, judge_round, conclude,
  judge_turn, judge_if_both, handle_turn,
}
use janken.Protocol.Mirror.Informs.{
  Informs, Informs-trans, Informs-refl, Informs-rest, Informs-send, Informs-if, Informs-after,
  Alters, Alters-trans, Alters-set_user, Informs-broadcast,
}

pub found_inside : (s : Server) (k : ℕ) (p : Ptr) → find_id s k ≡ some p → mem p s.by_id ≡ true
unfolding find_id
found_inside s k p e = (tfind_sound compare-IsOrder (ids s) k s.by_id p e).0

Alters-if :
    {ps : List Ptr} {s t u : Server} (b : Bool)
    → Alters ps s t
    → Alters ps s u
    → Alters ps s (if b then t else u)
Alters-if true h k = h
Alters-if false h k = k

settle-Alters : (p q : Ptr) (w : ℕ) (s : Server) → Alters (p ∷ q ∷ []) s (settle p q w s)
unfolding settle gain_score lose_score leave_battle
settle-Alters p q w s =
    Alters-trans
      (Alters-trans
        (Alters-trans drawn (
          Alters-if ((s.users p).id == w)
            (Alters-trans (Alters-set_user _ p _ (gain-Frame p _ _) first)
              (Alters-set_user _ q _ (lose-Frame q _ _) second))
            (Alters-trans (Alters-set_user _ q _ (gain-Frame q _ _) second)
              (Alters-set_user _ p _ (lose-Frame p _ _) first))))
        (Alters-set_user _ p _ (leave-Frame p _) first))
      (Alters-set_user _ q _ (leave-Frame q _) second)
  where
    drawn : Alters (p ∷ q ∷ []) s (random_rest (random_rest s))
    drawn = record {
      frame = rest-Frame s s.challenges s.ch_by_id _ s.sent;
      sent = refl;
      others = λ r i. refl;
    }

    first : mem p (p ∷ q ∷ []) ≡ true
    first = ground (arith, ==_refl p)

    second : mem q (p ∷ q ∷ []) ≡ true
    second = ground (arith, ==_refl q)

finish-Informs :
    {f : ℕ} (c p q : Ptr) (w : ℕ) (s : Server)
    → mem p s.by_id ≡ true
    → mem q s.by_id ≡ true
    → Informs f s (finish c p q w s)
unfolding finish
finish-Informs c p q w s hp hq =
    Informs-trans
      (Informs-broadcast p (some q) s (settle p q w s) (settle-Alters p q w s) (hp, (hq, tt)))
      (Informs-rest _ _ _ _)

conclude-Informs :
    {f : ℕ} (c : Ptr) (w : Option ℕ) (p q : Ptr) (s : Server)
    → mem p s.by_id ≡ true
    → mem q s.by_id ≡ true
    → Informs f s (conclude c w p q s)
unfolding conclude turn_msg init_msg_buf
conclude-Informs c none p q s hp hq =
    Informs-trans (Informs-send s _ _ λ g k. refl) (Informs-send _ _ _ λ g k. refl)
conclude-Informs c (some w) p q s hp hq =
    Informs-trans (Informs-trans (Informs-send s _ _ λ g k. refl) (Informs-send _ _ _ λ g k. refl))
      (finish-Informs c p q w _ hp hq)

judge_round-Informs : {f : ℕ} (c : Ptr) (s : Server) → Informs f s (judge_round c s)
unfolding judge_round
judge_round-Informs c s =
    Informs-trans (Informs-if (draws (s.challenges c)) (Informs-rest s _ _ _) (Informs-refl s))
      (Informs-rest _ _ _ _)

pub judge_turn-Informs :
    {f : ℕ} (c : Ptr) (force : Option ℕ) (s : Server) → Ensures (Informs f s) (judge_turn c force s)
unfolding judge_turn
judge_turn-Informs c force s = Ensures-deref _ _ λ p e. Ensures-deref _ _ λ q d. returns (
    Informs-trans (judge_round-Informs c s)
      (conclude-Informs c _ p q _ (found_inside _ _ p e) (found_inside _ _ q d)))

judge_if_both-Informs : {f : ℕ} (c : Ptr) (s : Server) → Ensures (Informs f s) (judge_if_both c s)
unfolding judge_if_both
judge_if_both-Informs c s =
    Ensures-if _ _ _ (λ _. judge_turn-Informs c none s) λ _. returns (Informs-refl s)

pub handle_turn-Informs :
    {f : ℕ} (m : MsgTurn) (s : Server) → Ensures (Informs f s) (handle_turn m s)
unfolding handle_turn
handle_turn-Informs m s =
    Ensures-if_null _ _ _ (λ _. returns (Informs-refl s))
      λ c _.
        Ensures-if_null _ _ _ (λ _. returns (Informs-refl s))
          λ user _.
            Ensures-if ((s.users user).key == m.key) _ _
              (λ _. Informs-after (Informs-rest s _ _ _) (judge_if_both-Informs c _))
              (λ _. returns (Informs-refl s))
