-- ===== src/Server/Logout.antt =====
-- What `quit_user` leaves behind, and what QUIT and a lost connection do.
use janken.Base.{
  ℕ, ◌+◌, ◌-◌, compare, ◌≡◌, ◌≢◌, refl, sym, ◌∙◌, ap, true, false, Option, none, some, ==_iff,
  Bool-cases, Option-cases, inl, inr, List, arith, ◌==◌, if◌then◌else◌, ◌⊎◌, if-true, if-false,
}
use janken.Text.{nick_cmp}
use janken.Text.Order.{nick_cmp-IsOrder}
use janken.Tree.{tfind, tdelete}
use janken.Tree.Laws.{
  compare-IsOrder, mem, eqb, tfind_sound, tfind-mem, tfind-tdelete, tdelete-found,
}
use janken.Message.{MsgQuit, uoffline}
use janken.Server.{
  Server, Ptr, done, set_user, ids, fds, nicks, find_id, find_fd, find_nick, find_ch,
}
use janken.Server.Ensures.{if_null-none, if_null-some, check-true, >>=-done}
use janken.Server.Frame.{
  Frame, Frame-refl, Frame-trans, find_id-Frame, find_fd-Frame, find_nick-Frame, set_user-Frame,
  broadcast-Frame, judge_round-Frame, conclude-Frame,
}
use janken.Server.Turns.{judge_turn-done}
use janken.Server.Index.{Inv, Inv-Frame}
use janken.Server.Notify.{broadcast_user_changes}
use janken.Server.Users.{remove_user, user_del_and_destroy}
use janken.Server.Handlers.{
  is_battling, forfeit, go_offline, quit_user, handle_disconnect, handle_quit,
}

-- A lookup in the trees of `s` that skips the user at `p`.
module _ (s : Server) (p : Ptr) where
  abbrev pub without_id : ℕ → Option Ptr
  without_id k = if k == (s.users p).id then none else find_id s k

  abbrev pub without_fd : ℕ → Option Ptr
  without_fd k = if k == (s.users p).fd then none else find_fd s k

  abbrev pub without_nick : List ℕ → Option Ptr
  without_nick k = if eqb (nick_cmp k (s.users p).nickname) then none else find_nick s k

  -- The state `t` is `s` without the user at `p`, as far as lookups and the count go.
  pub record Gone (t : Server) : Type 0 where
    pub by_id : (k : ℕ) → find_id t k ≡ without_id k
    pub by_fd : (k : ℕ) → find_fd t k ≡ without_fd k
    pub by_nick : (k : List ℕ) → find_nick t k ≡ without_nick k
    pub count : t.user_cnt + 1 ≡ s.user_cnt

module _ (s : Server) (p : Ptr) (v : Inv s) (inside : mem p s.by_id ≡ true) where
  in_id : tfind compare (ids s) (s.users p).id s.by_id ≡ some p
  in_id = tfind-mem compare-IsOrder (ids s) p s.by_id v.id_order inside

  in_fd : tfind compare (fds s) (s.users p).fd s.by_fd ≡ some p
  in_fd = tfind-mem compare-IsOrder (fds s) p s.by_fd v.fd_order (v.same_fd p ∙ inside)

  in_nick : tfind nick_cmp (nicks s) (s.users p).nickname s.by_nick ≡ some p
  in_nick = tfind-mem nick_cmp-IsOrder (nicks s) p s.by_nick v.nick_order (v.same_nick p ∙ inside)

  abbrev removed : Server
  removed = record s {
    by_id = (tdelete compare (ids s) (s.users p).id s.by_id).1;
    by_nick = (tdelete nick_cmp (nicks s) (s.users p).nickname s.by_nick).1;
    by_fd = (tdelete compare (fds s) (s.users p).fd s.by_fd).1;
    user_cnt = s.user_cnt - 1;
  }

  removed-Gone : Gone s p removed
  unfolding find_id find_fd find_nick
  removed-Gone = record {
    by_id = λ k.
        ground (
          arith,
          tfind-tdelete compare-IsOrder (ids s) (s.users p).id s.by_id p k v.id_order in_id,
        );
    by_fd = λ k.
        ground (
          arith,
          tfind-tdelete compare-IsOrder (fds s) (s.users p).fd s.by_fd p k v.fd_order in_fd,
        );
    by_nick = λ k.
        tfind-tdelete nick_cmp-IsOrder (nicks s) (s.users p).nickname s.by_nick p k v.nick_order
          in_nick;
    count =
        omega (
          arith,
          v.count,
          (tdelete-found compare-IsOrder (ids s) (s.users p).id s.by_id p in_id).1,
        );
  }

  del-Gone : (t : Server) × (user_del_and_destroy p s ≡ done t) × Gone s p t
  unfolding user_del_and_destroy remove_user find_id
  del-Gone = (
    removed,
    if_null-some _ _ p in_id
        ∙ check-true _ ((tdelete-found compare-IsOrder (ids s) (s.users p).id s.by_id p in_id).0)
        ∙ check-true _
            ((tdelete-found nick_cmp-IsOrder (nicks s) (s.users p).nickname s.by_nick p in_nick).0),
    removed-Gone,
  )

-- A user gone from a state is gone from every one with the same trees and keys.
pub Gone-Frame : {s t u : Server} (p : Ptr) → Frame s t → Gone t p u → Gone s p u
Gone-Frame {s} p f g = record {
  by_id = λ k. g.by_id k ∙ (λ i. if k == f.ids_kept i p then none else find_id-Frame f k i);
  by_fd = λ k. g.by_fd k ∙ (λ i. if k == f.fds_kept i p then none else find_fd-Frame f k i);
  by_nick = λ k.
      g.by_nick k
      ∙ (λ i. if eqb (nick_cmp k (f.nicks_kept i p)) then none else find_nick-Frame f k i);
  count = omega (arith, g.count, f.user_cnt);
}

pub mem-Frame : {s t : Server} (p : Ptr) → Frame s t → mem p s.by_id ≡ true → mem p t.by_id ≡ true
mem-Frame p f h = ap (mem p) f.by_id ∙ h

module _ (s : Server) (p : Ptr) (v : Inv s) (inside : mem p s.by_id ≡ true) where
  pub go_offline-Gone : (t : Server) × (go_offline p s ≡ done t) × Gone s p t
  unfolding go_offline
  go_offline-Gone =
      let s1 = set_user s p (record (s.users p) { state = uoffline }) in
      let s2 = broadcast_user_changes p none s1 in
      let f = Frame-trans (set_user-Frame s p _ refl refl refl) (broadcast-Frame p none s1) in
      let (t, e, g) = del-Gone s2 p (Inv-Frame f v) (mem-Frame p f inside) in
      (t, e, Gone-Frame p f g)

-- A user is free to leave: in no battle, or in one whose two users are still there.
abbrev pub CanForfeit : Server → Ptr → Type 0
CanForfeit s p =
    (is_battling (s.users p).state ≡ false)
    ⊎ ((find_ch s (s.users p).chid ≡ none)
        ⊎ ((c : Ptr) × (q1 : Ptr) × (q2 : Ptr) × (find_ch s (s.users p).chid ≡ some c)
            × (find_id s (s.challenges c).user1 ≡ some q1)
            × (find_id s (s.challenges c).user2 ≡ some q2)))

module _ (s : Server) (p : Ptr) where
  forfeit-done : CanForfeit s p → (t : Server) × (forfeit p s ≡ done t) × Frame s t
  unfolding forfeit
  forfeit-done (inl e) = (s, if-false _ _ e, Frame-refl s)
  forfeit-done (inr (inl e)) = elim (Bool-cases (is_battling (s.users p).state)) [
    | inl b ↦ (s, if-true _ _ b ∙ if_null-none _ _ e, Frame-refl s)
    | inr b ↦ (s, if-false _ _ b, Frame-refl s)
  ]
  forfeit-done (inr (inr (c, q1, q2, e, e1, e2))) =
      elim (Bool-cases (is_battling (s.users p).state)) [
        | inl b ↦ (
          _,
          if-true _ _ b
              ∙ if_null-some _ _ c e
              ∙ judge_turn-done c (some (s.users p).id) s q1 q2 e1 e2,
          Frame-trans (judge_round-Frame c s) (conclude-Frame c _ q1 q2 _),
        )
        | inr b ↦ (s, if-false _ _ b, Frame-refl s)
      ]

  -- A user who leaves, and whose battle (if any) still has both of its users, is gone from all three
  -- trees and from the count, while all other users are still found; the server does not crash.
  pub quit_user-Gone :
      Inv s
      → mem p s.by_id ≡ true
      → CanForfeit s p
      → (t : Server) × (quit_user p s ≡ done t) × Gone s p t
  unfolding quit_user
  quit_user-Gone v inside free =
      let (s1, e1, f) = forfeit-done free in
      let (t, e2, g) = go_offline-Gone s1 p (Inv-Frame f v) (mem-Frame p f inside) in
      (t, >>=-done _ s1 e1 ∙ e2, Gone-Frame p f g)

pub found_inside : (s : Server) (k : ℕ) (p : Ptr) → find_id s k ≡ some p → mem p s.by_id ≡ true
unfolding find_id
found_inside s k p e = (tfind_sound compare-IsOrder (ids s) k s.by_id p e).0

pub found_fd_inside : (s : Server) (k : ℕ) (p : Ptr) → find_fd s k ≡ some p → mem p s.by_fd ≡ true
unfolding find_fd
found_fd_inside s k p e = (tfind_sound compare-IsOrder (fds s) k s.by_fd p e).0

-- QUIT, on every branch, in a server whose trees agree: with an id that no user has, or a key that is not that user's, nothing
-- changes and nothing is sent; otherwise the user, if free to leave, is gone, and no other.
pub handle_quit_lem :
    (m : MsgQuit) (s : Server)
    → Inv s
    → ((p : Ptr) → find_id s m.id ≡ some p → CanForfeit s p)
    → ((find_id s m.id ≡ none) × (handle_quit m s ≡ done s))
      ⊎ ((p : Ptr) × (find_id s m.id ≡ some p)
          × (((s.users p).key ≢ m.key) × (handle_quit m s ≡ done s)
              ⊎ ((s.users p).key ≡ m.key)
                × ((t : Server) × (handle_quit m s ≡ done t) × Gone s p t)))
unfolding handle_quit
handle_quit_lem m s v free = elim (Option-cases (find_id s m.id)) [
  | inl e ↦ inl (e, if_null-none _ _ e)
  | inr (p, e) ↦ inr (p, e, known p e)
]
  where
    known :
        (p : Ptr)
        → find_id s m.id ≡ some p
        → ((s.users p).key ≢ m.key) × (handle_quit m s ≡ done s)
          ⊎ ((s.users p).key ≡ m.key) × ((t : Server) × (handle_quit m s ≡ done t) × Gone s p t)
    known p e = elim (Bool-cases ((s.users p).key == m.key)) [
      | inl k ↦
          (let (t, e', g) = quit_user-Gone s p v (found_inside s m.id p e) (free p e) in
            inr ((==_iff _ _).0 k, (t, if_null-some _ _ p e ∙ if-true _ _ k ∙ e', g)))
      | inr k ↦ inl (ground arith, if_null-some _ _ p e ∙ if-false _ _ k)
    ]

-- A lost connection, on both branches, in a server whose trees agree: where no user has the fd nothing changes and nothing is sent;
-- otherwise its user, if free to leave, is gone, and no other.
pub handle_disconnect_lem :
    (fd : ℕ) (s : Server)
    → Inv s
    → ((p : Ptr) → find_fd s fd ≡ some p → CanForfeit s p)
    → ((find_fd s fd ≡ none) × (handle_disconnect fd s ≡ done s))
      ⊎ ((p : Ptr) × (find_fd s fd ≡ some p)
          × ((t : Server) × (handle_disconnect fd s ≡ done t) × Gone s p t))
unfolding handle_disconnect
handle_disconnect_lem fd s v free = elim (Option-cases (find_fd s fd)) [
  | inl e ↦ inl (e, if_null-none _ _ e)
  | inr (p, e) ↦
      (let (t, e', g) =
          quit_user-Gone s p v (sym (v.same_fd p) ∙ found_fd_inside s fd p e) (free p e) in
        inr (p, e, (t, if_null-some _ _ p e ∙ e', g)))
]
