-- ===== src/Server/Login/Enter.antt =====
-- `enter_user`, the part of `user_add` that enters a new user into the three trees: when its assertions
-- hold, and what is found afterwards.
use native.Mathlib.Nat.{le_refl}
use janken.Base.{
  ℕ, ◌+◌, compare, Ordering, ◌≡◌, sym, ◌∙◌, ap, true, false, none, some, ==_refl, List, arith, ◌==◌,
  if◌then◌else◌,
}
use janken.Text.{nick_cmp}
use janken.Text.Order.{nick_cmp-IsOrder}
use janken.Tree.{tfind, tsearch}
use janken.Tree.Laws.{
  IsOrder, compare-IsOrder, mem, eqb, tfind_agree, tfind_sound, tfind-tsearch, tsearch-found,
  tsearch-new,
}
use janken.Server.{Server, Ptr, done, crash, set_user, ids, fds, nicks, find_id, find_fd, find_nick}
use janken.Server.Ensures.{check-true, check-false, update_self}
use janken.Server.Index.{Inv, kept_outside, ne_of_mem, write_outside-Inv}
use janken.Server.Users.{enter_user}

-- The state in which `enter_user` searches the trees, and the one that it leaves.
abbrev pub named : Ptr → (fd id : ℕ) → Server → Server
named p fd id s = set_user s p (record (s.users p) { id = id; fd = fd })

abbrev pub entered : Ptr → (fd id : ℕ) → Server → Server
entered p fd id s =
    let t = named p fd id s in
    record t {
      by_id = (tsearch compare (ids t) p t.by_id).1;
      by_fd = (tsearch compare (fds t) p t.by_fd).1;
      by_nick = (tsearch nick_cmp (nicks t) p t.by_nick).1;
      user_cnt = t.user_cnt + 1;
    }

module _ {K : Type 0} {cmp : K → K → Ordering} (o : IsOrder cmp) (key : Ptr → K) (p : Ptr)
    (t : List Ptr) where
  lost :
      (q : Ptr)
      → tfind cmp key (key p) t ≡ some q
      → (q == p) ≡ false
      → ((tsearch cmp key p t).0 == p) ≡ false
  lost q e ne = rw (tsearch-found o key p t q e) ne

  won : tfind cmp key (key p) t ≡ none → ((tsearch cmp key p t).0 == p) ≡ true
  won e = rw ((tsearch-new o key p t e).0) (==_refl p)

module _ {s : Server} (v : Inv s) (p : Ptr) (out : mem p s.by_id ≡ false) (fd id : ℕ) where
  id_key : ids (named p fd id s) p ≡ id
  id_key = ap (λ u. u.id) (update_self s.users p (record (s.users p) { id = id; fd = fd }))

  pub fd_key : fds (named p fd id s) p ≡ fd
  fd_key = ap (λ u. u.fd) (update_self s.users p (record (s.users p) { id = id; fd = fd }))

  nick_key : nicks (named p fd id s) p ≡ (s.users p).nickname
  nick_key = ap (λ u. u.nickname) (update_self s.users p (record (s.users p) { id = id; fd = fd }))

  find_id-named : (k : ℕ) → tfind compare (ids (named p fd id s)) k s.by_id ≡ find_id s k
  unfolding find_id
  find_id-named k =
      tfind_agree compare (ids s) _ k s.by_id λ q m. kept_outside s p _ (λ w. w.id) q out m

  pub find_fd-named : (k : ℕ) → tfind compare (fds (named p fd id s)) k s.by_fd ≡ find_fd s k
  unfolding find_fd
  find_fd-named k =
      tfind_agree compare (fds s) _ k s.by_fd
        λ q m. kept_outside s p _ (λ w. w.fd) q out (sym (v.same_fd q) ∙ m)

  find_nick-named :
      (k : List ℕ) → tfind nick_cmp (nicks (named p fd id s)) k s.by_nick ≡ find_nick s k
  unfolding find_nick
  find_nick-named k =
      tfind_agree nick_cmp (nicks s) _ k s.by_nick
        λ q m. kept_outside s p _ (λ w. w.nickname) q out (sym (v.same_nick q) ∙ m)

  -- A user who is found is another than `p`.
  found-ne : (k q : ℕ) → find_id s k ≡ some q → (q == p) ≡ false
  unfolding find_id
  found-ne k q e = ne_of_mem p q s.by_id out (tfind_sound compare-IsOrder (ids s) k s.by_id q e).0

  found_fd-ne : (k q : ℕ) → find_fd s k ≡ some q → (q == p) ≡ false
  unfolding find_fd
  found_fd-ne k q e =
      ne_of_mem p q s.by_fd (v.same_fd p ∙ out)
        (tfind_sound compare-IsOrder (fds s) k s.by_fd q e).0

  new_id : tfind compare (ids (named p fd id s)) (ids (named p fd id s) p) s.by_id ≡ find_id s id
  new_id = ap (λ k. tfind compare (ids (named p fd id s)) k s.by_id) id_key ∙ find_id-named id

  new_fd : tfind compare (fds (named p fd id s)) (fds (named p fd id s) p) s.by_fd ≡ find_fd s fd
  new_fd = ap (λ k. tfind compare (fds (named p fd id s)) k s.by_fd) fd_key ∙ find_fd-named fd

  new_nick :
      tfind nick_cmp (nicks (named p fd id s)) (nicks (named p fd id s) p) s.by_nick
      ≡ find_nick s (s.users p).nickname
  new_nick =
      ap (λ k. tfind nick_cmp (nicks (named p fd id s)) k s.by_nick) nick_key
      ∙ find_nick-named (s.users p).nickname

  -- The id is taken: the first assertion fails.
  pub enter_user-taken_id : (q : Ptr) → find_id s id ≡ some q → enter_user p fd id s ≡ crash
  unfolding enter_user
  enter_user-taken_id q e =
      check-false _
        (lost compare-IsOrder (ids (named p fd id s)) p s.by_id q (new_id ∙ e) (found-ne id q e))

  -- The fd is taken: the second assertion fails, if the first does not.
  pub enter_user-taken_fd :
      (q : Ptr) → find_id s id ≡ none → find_fd s fd ≡ some q → enter_user p fd id s ≡ crash
  unfolding enter_user
  enter_user-taken_fd q e1 e2 =
      check-true _ (won compare-IsOrder (ids (named p fd id s)) p s.by_id (new_id ∙ e1))
      ∙ check-false _ (
          lost compare-IsOrder (fds (named p fd id s)) p s.by_fd q (new_fd ∙ e2)
            (found_fd-ne fd q e2))

  pub enter_user-free :
      find_id s id ≡ none
      → find_fd s fd ≡ none
      → find_nick s (s.users p).nickname ≡ none
      → enter_user p fd id s ≡ done (entered p fd id s)
  unfolding enter_user
  enter_user-free e1 e2 e3 =
      check-true _ (won compare-IsOrder (ids (named p fd id s)) p s.by_id (new_id ∙ e1))
      ∙ check-true _ (won compare-IsOrder (fds (named p fd id s)) p s.by_fd (new_fd ∙ e2))
      ∙ check-true _ (won nick_cmp-IsOrder (nicks (named p fd id s)) p s.by_nick (new_nick ∙ e3))

  pub named-Inv : Inv (named p fd id s)
  named-Inv = write_outside-Inv p _ s.next s.randoms v out (le_refl s.next)

  -- The lookups afterwards.
  pub find_id-entered :
      (k : ℕ)
      → find_id s id ≡ none
      → find_id (entered p fd id s) k ≡ (if k == id then some p else find_id s k)
  unfolding find_id
  find_id-entered k e = ground (
    arith,
    id_key,
    find_id-named k,
    tfind-tsearch compare-IsOrder (ids (named p fd id s)) p s.by_id k named-Inv.id_order
        (new_id ∙ e),
  )

  pub find_fd-entered :
      (k : ℕ)
      → find_fd s fd ≡ none
      → find_fd (entered p fd id s) k ≡ (if k == fd then some p else find_fd s k)
  unfolding find_fd
  find_fd-entered k e = ground (
    arith,
    fd_key,
    find_fd-named k,
    tfind-tsearch compare-IsOrder (fds (named p fd id s)) p s.by_fd k named-Inv.fd_order
        (new_fd ∙ e),
  )

  pub find_nick-entered :
      (k : List ℕ)
      → find_nick s (s.users p).nickname ≡ none
      → find_nick (entered p fd id s) k
        ≡ (if eqb (nick_cmp k (s.users p).nickname) then some p else find_nick s k)
  unfolding find_nick
  find_nick-entered k e = ground (
    arith,
    nick_key,
    find_nick-named k,
    tfind-tsearch nick_cmp-IsOrder (nicks (named p fd id s)) p s.by_nick k named-Inv.nick_order
        (new_nick ∙ e),
  )
