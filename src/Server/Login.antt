-- ===== src/Server/Login.antt =====
-- What `user_add` answers, and where it ends the process.
pub mod Enter
use native.Mathlib.Nat.{le_refl}
use janken.Base.{
  ℕ, suc, ◌+◌, ◌%◌, ◌<◌, compare, Ordering, ◌≡◌, refl, sym, ◌∙◌, ap, true, false, Option, none,
  some, ==_refl, inl, inr, List, arith, ◌==◌, if◌then◌else◌, leb, ◌⊎◌, if-false, leb-false,
}
use janken.Text.{nick_cmp, nickname_len, snprintf}
use janken.Text.Order.{nick_cmp-IsOrder}
use janken.Tree.{tfind, tsearch}
use janken.Tree.Laws.{
  IsOrder, compare-IsOrder, mem, eqb, tfind_agree, tfind_sound, tfind-tsearch, tsearch-found,
  tsearch-new,
}
use janken.Message.{me_ok, toomanyuser, dupnick}
use janken.Server.{
  Server, Ptr, Run, done, crash, ◌>>=◌, set_user, ids, fds, nicks, find_id, find_fd, find_nick,
  max_user_count, uint16_max,
}
use janken.Server.Ensures.{
  if_null-none, if_null-some, check-true, check-false, >>=-done, >>=-crash, update_self,
}
use janken.Server.Index.{Inv, kept_outside, fresh_outside, ne_of_mem, write_outside-Inv}
use janken.Server.Users.{fresh_user, random_key, user_create, enter_user, add_rounds, user_add}
use janken.Server.Login.Enter.{
  named, entered, enter_user-taken_id, enter_user-taken_fd, enter_user-free, find_id-entered,
  find_fd-entered, find_nick-entered,
}

-- The nickname as it stands in the new user's memory.
abbrev pub stored_nick : Server → List ℕ → List ℕ
stored_nick s nickname = snprintf (s.users s.next).nickname nickname_len nickname

module _ {s : Server} (v : Inv s) (nickname : List ℕ) where
  abbrev created : Server
  created = (user_create nickname s).1

  find_id-created : (k : ℕ) → find_id created k ≡ find_id s k
  unfolding find_id user_create
  find_id-created k =
      tfind_agree compare (ids s) _ k s.by_id
        λ q m. kept_outside s s.next _ (λ w. w.id) q (fresh_outside v) m

  find_fd-created : (k : ℕ) → find_fd created k ≡ find_fd s k
  unfolding find_fd user_create
  find_fd-created k =
      tfind_agree compare (fds s) _ k s.by_fd
        λ q m. kept_outside s s.next _ (λ w. w.fd) q (fresh_outside v) (sym (v.same_fd q) ∙ m)

  find_nick-created : (k : List ℕ) → find_nick created k ≡ find_nick s k
  unfolding find_nick user_create
  find_nick-created k =
      tfind_agree nick_cmp (nicks s) _ k s.by_nick λ q m.
        kept_outside s s.next _ (λ w. w.nickname) q (fresh_outside v) (sym (v.same_nick q) ∙ m)

  created-user : created.users s.next ≡ fresh_user (s.users s.next) nickname (random_key s.randoms)
  unfolding user_create
  created-user = rw (==_refl s.next)

  created-Inv : Inv created
  unfolding user_create
  created-Inv = write_outside-Inv s.next _ (suc s.next) _ v (fresh_outside v) (omega arith)

  created-outside : mem s.next created.by_id ≡ false
  unfolding user_create
  created-outside = fresh_outside v

  nick-created : (created.users s.next).nickname ≡ stored_nick s nickname
  unfolding fresh_user
  nick-created = ap (λ u. u.nickname) created-user

  -- What is looked up in the nickname tree and in the id tree before the new user is entered.
  nick_free :
      find_nick s (stored_nick s nickname) ≡ none
      → find_nick created (created.users s.next).nickname ≡ none
  nick_free e = rw (nick-created, find_nick-created) e

  fd_free : find_fd s (s.users s.next).fd ≡ none → find_fd created (created.users s.next).fd ≡ none
  unfolding fresh_user
  fd_free e = rw (created-user, find_fd-created) e

  abbrev enter : ℕ → Run Server
  enter fd = enter_user s.next fd (fd % uint16_max) created

  first_round :
      (n fd id : ℕ)
      → find_id s 0 ≡ none
      → add_rounds (suc n) s.next fd id created
        ≡ (enter_user s.next fd id created >>= λ t. done (some s.next, me_ok, t))
  unfolding add_rounds fresh_user
  first_round n fd id e = if_null-none _ _ (rw (created-user, find_id-created) e)

  -- Past its guards `user_add` is `enter_user`: its loop ends in the first round, whose test looks
  -- for the id 0.
  user_add-enter :
      (fd : ℕ)
      → s.user_cnt < max_user_count
      → find_fd s (s.users s.next).fd ≡ none
      → find_nick s (stored_nick s nickname) ≡ none
      → find_id s 0 ≡ none
      → user_add fd nickname s ≡ (enter fd >>= λ t. done (some s.next, me_ok, t))
  unfolding user_add user_create fresh_user
  user_add-enter fd h e1 e2 e3 =
      if-false _ _ (leb-false max_user_count s.user_cnt h)
      ∙ if_null-none _ _ (fd_free e1)
      ∙ if_null-none _ _ (nick_free e2)
      ∙ first_round 15 fd _ e3

  abbrev welcomed : ℕ → Server
  welcomed fd = entered s.next fd (fd % uint16_max) created

  -- In a server whose trees agree and that is below its limit of users: where
  -- the fd that the new memory happens to hold is no user's, and 0 is no user's id, a nickname that
  -- is free up to the case of its letters, with an id `fd % UINT16_MAX` and an fd that no user has,
  -- is entered. The new user is found by that id, by the fd and by the nickname; every other lookup
  -- stays as it was, and the user count grows by one.
  pub user_add_succeeds :
      (fd : ℕ)
      → s.user_cnt < max_user_count
      → find_fd s (s.users s.next).fd ≡ none
      → find_nick s (stored_nick s nickname) ≡ none
      → find_id s 0 ≡ none
      → find_id s (fd % uint16_max) ≡ none
      → find_fd s fd ≡ none
      → (t : Server) × (user_add fd nickname s ≡ done (some s.next, me_ok, t))
        × ((k : ℕ) → find_id t k ≡ (if k == fd % uint16_max then some s.next else find_id s k))
        × ((k : ℕ) → find_fd t k ≡ (if k == fd then some s.next else find_fd s k))
        × ((k : List ℕ)
            → find_nick t k
              ≡ (if eqb (nick_cmp k (stored_nick s nickname)) then some s.next else find_nick s k))
        × (t.user_cnt ≡ s.user_cnt + 1)
  unfolding user_create
  user_add_succeeds fd h e1 e2 e3 e4 e5 =
      let f4 = find_id-created (fd % uint16_max) ∙ e4 in
      let f5 = find_fd-created fd ∙ e5 in
      let f2 = nick_free e2 in
      let free = enter_user-free created-Inv s.next created-outside fd (fd % uint16_max) f4 f5 f2 in
      (
        welcomed fd,
        user_add-enter fd h e1 e2 e3 ∙ >>=-done _ (welcomed fd) free,
        λ k.
            find_id-entered created-Inv s.next created-outside fd (fd % uint16_max) k f4
            ∙ rw (find_id-created k) refl,
        λ k.
            find_fd-entered created-Inv s.next created-outside fd (fd % uint16_max) k f5
            ∙ rw (find_fd-created k) refl,
        λ k.
            find_nick-entered created-Inv s.next created-outside fd (fd % uint16_max) k f2
            ∙ rw (nick-created, find_nick-created k) refl,
        refl,
      )

  -- The flaw: in a server whose trees agree and that is below its limit of users, where the fd that
  -- the new memory happens to hold is no user's, 0 is no user's id and the nickname is free, the
  -- process ends if the id `fd % UINT16_MAX` or the fd itself is already a user's.
  pub user_add_crashes :
      (fd : ℕ) (q : Ptr)
      → s.user_cnt < max_user_count
      → find_fd s (s.users s.next).fd ≡ none
      → find_nick s (stored_nick s nickname) ≡ none
      → find_id s 0 ≡ none
      → (find_id s (fd % uint16_max) ≡ some q) ⊎ (find_fd s fd ≡ some q)
      → user_add fd nickname s ≡ crash
  user_add_crashes fd q h e1 e2 e3 (inl e) =
      user_add-enter fd h e1 e2 e3
      ∙ >>=-crash _ (
          enter_user-taken_id created-Inv s.next created-outside fd (fd % uint16_max) q
            (find_id-created (fd % uint16_max) ∙ e))
  user_add_crashes fd q h e1 e2 e3 (inr e) =
      user_add-enter fd h e1 e2 e3 ∙ >>=-crash _ (taken (find_id s (fd % uint16_max)) refl)
    where
      taken : (o : Option Ptr) → find_id s (fd % uint16_max) ≡ o → enter fd ≡ crash
      taken none e' =
          enter_user-taken_fd created-Inv s.next created-outside fd (fd % uint16_max) q
            (find_id-created (fd % uint16_max) ∙ e') (find_fd-created fd ∙ e)
      taken (some r) e' =
          enter_user-taken_id created-Inv s.next created-outside fd (fd % uint16_max) r
            (find_id-created (fd % uint16_max) ∙ e')

  refused :
      (fd : ℕ) (q : Ptr)
      → find_fd s (s.users s.next).fd ≡ none
      → find_nick s (stored_nick s nickname) ≡ some q
      → user_add fd nickname s ≡ (
          if leb max_user_count s.user_cnt
          then done (none, toomanyuser, created)
          else done (none, dupnick, created))
  unfolding user_add user_create fresh_user
  refused fd q e1 e2 =
      ap (λ r. if leb max_user_count s.user_cnt then done (none, toomanyuser, created) else r)
        (if_null-none _ _ (fd_free e1)
          ∙ if_null-some _ _ q (rw (nick-created, find_nick-created) e2))

  -- In a server whose trees agree, where the fd that the new memory happens to hold is no user's, a
  -- nickname that a user has, up to the case of its letters, is refused: with TOOMANYUSER on a
  -- server that has its 1024 users, with DUPNICK on any other.
  -- No lookup changes, nor does the user count.
  pub user_add_refuses :
      (fd : ℕ) (q : Ptr)
      → find_fd s (s.users s.next).fd ≡ none
      → find_nick s (stored_nick s nickname) ≡ some q
      → (t : Server) × (user_add fd nickname s
          ≡ done (none, (if leb max_user_count s.user_cnt then toomanyuser else dupnick), t))
        × ((k : ℕ) → find_id t k ≡ find_id s k)
        × ((k : ℕ) → find_fd t k ≡ find_fd s k)
        × ((k : List ℕ) → find_nick t k ≡ find_nick s k)
        × (t.user_cnt ≡ s.user_cnt)
  unfolding user_create
  user_add_refuses fd q e1 e2 = (
    created,
    refused fd q e1 e2 ∙ ground arith,
    find_id-created,
    find_fd-created,
    find_nick-created,
    refl,
  )
