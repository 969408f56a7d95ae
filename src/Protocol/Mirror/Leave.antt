-- ===== src/Protocol/Mirror/Leave.antt =====
-- A user who leaves, for one who follows the users.
use janken.Base.{
  ℕ, compare, ◌≡◌, refl, sym, ◌∙◌, ap, true, false, Bool-cases, ==_refl, Option, none, some, inl,
  inr, arith, ◌==◌, if◌then◌else◌, if-true, if-false, ◌⊎◌,
}
use janken.Tree.{tfind, tdelete}
use janken.Tree.Laws.{mem, Sorted, eqb, tfind-mem, tfind_sound, tfind-tdelete, compare-IsOrder}
use janken.Message.{uoffline, MsgQuit}
use janken.Server.{Server, Ptr, Run, ids, fds, find_id, find_fd, set_user}
use janken.Server.Ensures.{
  Ensures, returns, crashes, Ensures-bind, Ensures-check, Ensures-if_null, Ensures-if, update_self,
}
use janken.Server.Frame.{set_user-Frame}
use janken.Server.Notify.{broadcast_user_changes}
use janken.Server.Broadcast.{msg_to_all_lem}
use janken.Server.Users.{remove_user, user_del_and_destroy}
use janken.Server.Handlers.{
  is_battling, forfeit, go_offline, quit_user, handle_disconnect, handle_quit,
}
use janken.Server.Index.{Inv}
use janken.Client.Users.{Info}
use janken.Protocol.Roster.{user_info}
use janken.Protocol.Mirror.{Told, Told-trans, Told-quiet}
use janken.Protocol.Mirror.Informs.{
  Listens, Listens-Frame, Informs, Informs-refl, Alters-set_user, Informs-broadcast,
}
use janken.Protocol.Mirror.Battle.{found_inside, judge_turn-Informs}

pub after_Told :
    {f : ℕ} {s t : Server} {m : Run Server}
    → Told f s t
    → Ensures (Told f t) m
    → Ensures (Told f s) m
after_Told h (returns k) = returns (Told-trans h k)
after_Told h crashes = crashes

pub Informs-Told :
    {f : ℕ} {s : Server} {m : Run Server}
    → Listens f s
    → Ensures (Informs f s) m
    → Ensures (Told f s) m
Informs-Told l (returns h) = returns (h.told l)
Informs-Told l crashes = crashes

eq_of_eqb : (a b : ℕ) → eqb (compare a b) ≡ true → a ≡ b
eq_of_eqb a b h = ground arith

-- Who is offline in the tree is not known, so taking the user out of it changes nothing.
del-Told :
    (f : ℕ) (p : Ptr) (s : Server)
    → Sorted compare (ids s) s.by_id
    → mem p s.by_id ≡ true
    → user_info (s.users p) ≡ none
    → Ensures (Told f s) (user_del_and_destroy p s)
unfolding user_del_and_destroy remove_user find_id
del-Told f p s o m h =
    Ensures-if_null _ _ _ (λ _. returns (Told-quiet f s s refl λ k. refl))
      λ q e.
        Ensures-check _ _
          λ _. Ensures-check _ _ λ _. returns (Told-quiet f s _ refl λ k. unlisted k q (same q e))
  where
    -- The node that was found is the user's.
    same : (q : Ptr) → tfind compare (ids s) (ids s p) s.by_id ≡ some q → q ≡ p
    same q e = some_eq (sym e ∙ tfind-mem compare-IsOrder (ids s) p s.by_id o m)
      where
        some_eq : {a b : Ptr} → some a ≡ some b → a ≡ b
        some_eq i = cc

    info : Option Ptr → Option Info
    info r = elim r [ none ↦ none | some j ↦ user_info (s.users j) ]

    unlisted :
        (k : ℕ) (q : Ptr)
        → q ≡ p
        → info (tfind compare (ids s) k s.by_id)
          ≡ info (tfind compare (ids s) k (tdelete compare (ids s) (ids s q) s.by_id).1)
    unlisted k q i =
        cases (Bool-cases (eqb (compare k (ids s q))))
        ∙ ap info (sym (tfind-tdelete compare-IsOrder (ids s) (ids s q) s.by_id q k o found))
      where
        found : tfind compare (ids s) (ids s q) s.by_id ≡ some q
        found = tfind-mem compare-IsOrder (ids s) q s.by_id o (ap (λ r. mem r s.by_id) i ∙ m)

        cases :
            (eqb (compare k (ids s q)) ≡ true) ⊎ (eqb (compare k (ids s q)) ≡ false)
            → info (tfind compare (ids s) k s.by_id)
              ≡ info (if eqb (compare k (ids s q)) then none else tfind compare (ids s) k s.by_id)
        cases (inl b) =
            ap (λ j. info (tfind compare (ids s) j s.by_id)) (eq_of_eqb k (ids s q) b)
            ∙ ap info found
            ∙ ap (λ j. user_info (s.users j)) i
            ∙ h
            ∙ ap info (sym (if-true none (tfind compare (ids s) k s.by_id) b))
        cases (inr b) = ap info (sym (if-false none (tfind compare (ids s) k s.by_id) b))

go_offline-Told :
    (f : ℕ) (p : Ptr) (s : Server)
    → Listens f s
    → mem p s.by_id ≡ true
    → Ensures (Told f s) (go_offline p s)
unfolding go_offline broadcast_user_changes
go_offline-Told f p s l m =
    after_Told (step.told l) (del-Told f p _ l'.order (ap (mem p) step.frame.by_id ∙ m) gone)
  where
    s1 : Server
    s1 = set_user s p (record (s.users p) { state = uoffline })

    step : Informs f s (broadcast_user_changes p none s1)
    step =
        Informs-broadcast p none s s1
          (Alters-set_user s p _ (set_user-Frame s p _ refl refl refl) (ground (arith, ==_refl p)))
          (m, tt)

    l' : Listens f (broadcast_user_changes p none s1)
    l' = Listens-Frame step.frame l

    gone : user_info ((broadcast_user_changes p none s1).users p) ≡ none
    gone =
        ap (λ z. user_info (z.users p)) (msg_to_all_lem none _ s1 s1.by_id)
        ∙ ap user_info (update_self s.users p (record (s.users p) { state = uoffline }))

forfeit-Informs : {f : ℕ} (p : Ptr) (s : Server) → Ensures (Informs f s) (forfeit p s)
unfolding forfeit
forfeit-Informs p s =
    Ensures-if (is_battling (s.users p).state) _ _
      (λ _. Ensures-if_null _ _ _ (λ _. returns (Informs-refl s)) λ c _. judge_turn-Informs c _ s)
      (λ _. returns (Informs-refl s))

quit_user-Told :
    (f : ℕ) (p : Ptr) (s : Server)
    → Listens f s
    → mem p s.by_id ≡ true
    → Ensures (Told f s) (quit_user p s)
unfolding quit_user
quit_user-Told f p s l m = Ensures-bind _ _ (forfeit-Informs p s) λ t _ h.
    after_Told (h.told l)
      (go_offline-Told f p t (Listens-Frame h.frame l) (ap (mem p) h.frame.by_id ∙ m))

pub handle_quit-Told :
    (f : ℕ) (m : MsgQuit) (s : Server) → Listens f s → Ensures (Told f s) (handle_quit m s)
unfolding handle_quit
handle_quit-Told f m s l =
    Ensures-if_null _ _ _ (λ _. returns (Told-quiet f s s refl λ k. refl))
      λ p e.
        Ensures-if ((s.users p).key == m.key) _ _
          (λ _. quit_user-Told f p s l (found_inside s _ p e))
          (λ _. returns (Told-quiet f s s refl λ k. refl))

pub handle_disconnect-Told :
    (f : ℕ) (fd : ℕ) (s : Server)
    → Inv s
    → Listens f s
    → Ensures (Told f s) (handle_disconnect fd s)
unfolding handle_disconnect find_fd
handle_disconnect-Told f fd s v l =
    Ensures-if_null _ _ _ (λ _. returns (Told-quiet f s s refl λ k. refl))
      λ p e.
        quit_user-Told f p s l
          (sym (v.same_fd p) ∙ (tfind_sound compare-IsOrder (fds s) fd s.by_fd p (found e)).0)
  where
    found : {p : Ptr} → find_fd s fd ≡ some p → tfind compare (fds s) fd s.by_fd ≡ some p
    found e = e
