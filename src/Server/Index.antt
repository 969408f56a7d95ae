-- ===== src/Server/Index.antt =====
-- The three trees over the users agree: they hold the same users, each ordered by its own member.
pub mod Handlers
use native.Mathlib.Nat.{le_trans, le_refl}
use janken.Base.{
  ℕ, zero, suc, ◌+◌, ◌-◌, ◌%◌, ◌≤◌, ◌<◌, compare, Ordering, ◌≡◌, ◌≢◌, refl, sym, ◌∙◌, ap, subst,
  Bool, true, false, not, ◌&&◌, ◌||◌, Option, none, some, Option-cases, Bool-cases, ==_iff, inl,
  inr, List, [], ◌∷◌, arith, ◌==◌, if◌then◌else◌, length, leb,
}
use janken.Text.{nick_cmp}
use janken.Text.Order.{nick_cmp-IsOrder}
use janken.Tree.{tfind, tsearch, tdelete}
use janken.Tree.Laws.{
  IsOrder, compare-IsOrder, mem, Sorted, Sorted-agree, Sorted-eq, tfind-mem, tfind_sound,
  tsearch-Sorted, tsearch-found, tsearch-new, mem-tsearch, tdelete-Sorted, tdelete-found,
  mem-tdelete,
}
use janken.Message.{MsgErr}
use janken.Server.{
  Server, User, Ptr, Run, done, crash, ◌>>=◌, check, if_null, set_user, ids, fds, nicks, find_id,
  update, random_rest, max_user_count, uint16_max, model_init, Challenge,
}
use janken.Server.Ensures.{
  Ensures, returns, crashes, Ensures-bind, Ensures-check, Ensures-if_null, Ensures-if,
}
use janken.Server.Frame.{Frame}
use janken.Server.Users.{
  user_create, enter_user, add_rounds, user_add, remove_user, user_del_and_destroy,
}

pub record Inv (s : Server) : Type 0 where
  pub id_order : Sorted compare (ids s) s.by_id
  pub fd_order : Sorted compare (fds s) s.by_fd
  pub nick_order : Sorted nick_cmp (nicks s) s.by_nick
  pub same_fd : (p : Ptr) → mem p s.by_fd ≡ mem p s.by_id
  pub same_nick : (p : Ptr) → mem p s.by_nick ≡ mem p s.by_id
  pub count : s.user_cnt ≡ length s.by_id
  pub older : (p : Ptr) → mem p s.by_id ≡ true → p < s.next

-- The empty server.
pub model_init-Inv :
    (users : Ptr → User) (chs : Ptr → Challenge) (r : ℕ → ℕ) → Inv (model_init users chs r)
unfolding model_init
model_init-Inv users chs r = record {
  id_order = tt;
  fd_order = tt;
  nick_order = tt;
  same_fd = λ p. refl;
  same_nick = λ p. refl;
  count = refl;
  older = λ p h. cc;
}

pub Inv-Frame : {s s' : Server} → Frame s s' → Inv s → Inv s'
Inv-Frame f v = record {
  id_order = Sorted-eq compare f.ids_kept f.by_id v.id_order;
  fd_order = Sorted-eq compare f.fds_kept f.by_fd v.fd_order;
  nick_order = Sorted-eq nick_cmp f.nicks_kept f.by_nick v.nick_order;
  same_fd = λ p. ap (mem p) f.by_fd ∙ v.same_fd p ∙ sym (ap (mem p) f.by_id);
  same_nick = λ p. ap (mem p) f.by_nick ∙ v.same_nick p ∙ sym (ap (mem p) f.by_id);
  count = f.user_cnt ∙ v.count ∙ sym (ap length f.by_id);
  older = λ p h. le_trans (v.older p (sym (ap (mem p) f.by_id) ∙ h)) f.next;
}

-- A pointer that a tree holds is not one that it does not hold.
pub ne_of_mem : (p q : Ptr) (t : List Ptr) → mem p t ≡ false → mem q t ≡ true → (q == p) ≡ false
ne_of_mem p q t out h = elim (Bool-cases (q == p)) [
  | inl e ↦ let m = sym out ∙ ap (λ r. mem r t) (sym ((==_iff q p).0 e)) ∙ h in cc
  | inr e ↦ e
]

pub kept_outside :
    {A : Type 0} (s : Server) (p : Ptr) (u : User) (f : User → A) (q : Ptr)
    → mem p s.by_id ≡ false
    → mem q s.by_id ≡ true
    → f (update s.users p u q) ≡ f (s.users q)
kept_outside s p u f q out h = rw (ne_of_mem p q s.by_id out h)

-- A write to a user that no tree holds, and more memory given out.
pub write_outside-Inv :
    {s : Server} (p : Ptr) (u : User) (n : ℕ) (r : ℕ → ℕ)
    → Inv s
    → mem p s.by_id ≡ false
    → s.next ≤ n
    → Inv (set_user (record s { next = n; randoms = r }) p u)
write_outside-Inv {s} p u n r v out h = record {
  id_order =
      Sorted-agree compare (ids s) _ s.by_id (λ q m. kept_outside s p u (λ w. w.id) q out m)
        v.id_order;
  fd_order =
      Sorted-agree compare (fds s) _ s.by_fd
        (λ q m. kept_outside s p u (λ w. w.fd) q out (sym (v.same_fd q) ∙ m)) v.fd_order;
  nick_order =
      Sorted-agree nick_cmp (nicks s) _ s.by_nick
        (λ q m. kept_outside s p u (λ w. w.nickname) q out (sym (v.same_nick q) ∙ m)) v.nick_order;
  same_fd = v.same_fd;
  same_nick = v.same_nick;
  count = v.count;
  older = λ q m. le_trans (v.older q m) h;
}

-- A pointer that is not below the next address is in no tree.
pub fresh_outside : {s : Server} → Inv s → mem s.next s.by_id ≡ false
fresh_outside {s} v = elim (Bool-cases (mem s.next s.by_id)) [
  | inl e ↦ absurd (omega (arith, v.older s.next e))
  | inr e ↦ e
]

-- Where `tsearch` comes back with a pointer that was not in the tree, its key was not there.
pub tfind_of_tsearch :
    {K : Type 0} {cmp : K → K → Ordering} (o : IsOrder cmp) (key : Ptr → K) (p : Ptr) (t : List Ptr)
    → mem p t ≡ false
    → ((tsearch cmp key p t).0 == p) ≡ true
    → tfind cmp key (key p) t ≡ none
tfind_of_tsearch {cmp = cmp} o key p t out h = elim (Option-cases (tfind cmp key (key p) t)) [
  | inl e ↦ e
  | inr (q, e) ↦ ground (arith, tsearch-found o key p t q e, tfind_sound o key (key p) t q e)
]

module _ (s : Server) (p : Ptr) (v : Inv s) (out : mem p s.by_id ≡ false) (old : p < s.next) where
  -- The three insertions keep the trees in agreement.
  entered-Inv :
      (tsearch compare (ids s) p s.by_id).0 == p ≡ true
      → (tsearch compare (fds s) p s.by_fd).0 == p ≡ true
      → (tsearch nick_cmp (nicks s) p s.by_nick).0 == p ≡ true
      → Inv (record s {
        by_id = (tsearch compare (ids s) p s.by_id).1;
        by_fd = (tsearch compare (fds s) p s.by_fd).1;
        by_nick = (tsearch nick_cmp (nicks s) p s.by_nick).1;
        user_cnt = s.user_cnt + 1;
      })
  entered-Inv h1 h2 h3 =
      let f1 = tfind_of_tsearch compare-IsOrder (ids s) p s.by_id out h1 in
      let f2 = tfind_of_tsearch compare-IsOrder (fds s) p s.by_fd (v.same_fd p ∙ out) h2 in
      let f3 = tfind_of_tsearch nick_cmp-IsOrder (nicks s) p s.by_nick (v.same_nick p ∙ out) h3 in
      record {
        id_order = tsearch-Sorted compare-IsOrder (ids s) p s.by_id v.id_order;
        fd_order = tsearch-Sorted compare-IsOrder (fds s) p s.by_fd v.fd_order;
        nick_order = tsearch-Sorted nick_cmp-IsOrder (nicks s) p s.by_nick v.nick_order;
        same_fd = λ q. rw (
          mem-tsearch compare-IsOrder (fds s) p q s.by_fd f2,
          mem-tsearch compare-IsOrder (ids s) p q s.by_id f1,
          v.same_fd q,
        );
        same_nick = λ q. rw (
          mem-tsearch nick_cmp-IsOrder (nicks s) p q s.by_nick f3,
          mem-tsearch compare-IsOrder (ids s) p q s.by_id f1,
          v.same_nick q,
        );
        count = omega (arith, v.count, (tsearch-new compare-IsOrder (ids s) p s.by_id f1).1);
        older = λ q m. elim (Bool-cases (q == p)) [
          | inl e ↦ omega (arith, (==_iff q p).0 e)
          | inr e ↦ v.older q (ground (arith, mem-tsearch compare-IsOrder (ids s) p q s.by_id f1))
        ];
      }

pub write_randoms : {s : Server} {r : ℕ → ℕ} → Inv s → Inv (record s { randoms = r })
write_randoms v = record {
  id_order = v.id_order;
  fd_order = v.fd_order;
  nick_order = v.nick_order;
  same_fd = v.same_fd;
  same_nick = v.same_nick;
  count = v.count;
  older = v.older;
}

enter_user-Inv :
    (p : Ptr) (fd id : ℕ) (s : Server)
    → Inv s
    → mem p s.by_id ≡ false
    → p < s.next
    → Ensures Inv (enter_user p fd id s)
unfolding enter_user
enter_user-Inv p fd id s v out old = Ensures-check _ _ λ h1. Ensures-check _ _ λ h2.
    Ensures-check _ _ λ h3. returns (
      entered-Inv _ p (write_outside-Inv p _ s.next s.randoms v out (le_refl s.next)) out old h1 h2
        h3)

abbrev AddedInv : Option Ptr × MsgErr × Server → Type 0
AddedInv (p, e, s) = Inv s

add_rounds-Inv :
    (n : ℕ) (p : Ptr) (fd id : ℕ) (s : Server)
    → Inv s
    → mem p s.by_id ≡ false
    → p < s.next
    → Ensures AddedInv (add_rounds n p fd id s)
unfolding add_rounds
add_rounds-Inv zero p fd id s v out old = returns v
add_rounds-Inv (suc n) p fd id s v out old =
    Ensures-if_null _ _ _
      (λ _. Ensures-bind _ _ (enter_user-Inv p fd id s v out old) λ s' _ v'. returns v')
      (λ q _. add_rounds-Inv n p fd _ _ (write_randoms v) out old)

-- `user_add` keeps the trees in agreement, whatever it answers.
pub user_add-Inv :
    (fd : ℕ) (nickname : List ℕ) (s : Server) → Inv s → Ensures AddedInv (user_add fd nickname s)
unfolding user_add user_create
user_add-Inv fd nickname s v =
    let v' = write_outside-Inv s.next _ (suc s.next) _ v (fresh_outside v) (omega arith) in
    Ensures-if (leb max_user_count s.user_cnt) _ _ (λ _. returns v')
      λ _.
        Ensures-if_null _ _ _
          (λ _.
            Ensures-if_null _ _ _
              (λ _. add_rounds-Inv 16 s.next fd _ _ v' (fresh_outside v) (omega arith))
              λ q _. returns v')
          λ q _. returns v'

-- What `remove_user` does to the tree ordered by one member, where another tree shows that the
-- pointer is in it.
module _ (s : Server) (p : Ptr) (v : Inv s) (inside : mem p s.by_id ≡ true) where
  pub removed-Inv : Inv (record s {
    by_id = (tdelete compare (ids s) (s.users p).id s.by_id).1;
    by_nick = (tdelete nick_cmp (nicks s) (s.users p).nickname s.by_nick).1;
    by_fd = (tdelete compare (fds s) (s.users p).fd s.by_fd).1;
    user_cnt = s.user_cnt - 1;
  })
  removed-Inv =
      let f1 = tfind-mem compare-IsOrder (ids s) p s.by_id v.id_order inside in
      let f2 = tfind-mem compare-IsOrder (fds s) p s.by_fd v.fd_order (v.same_fd p ∙ inside) in
      let f3 =
        tfind-mem nick_cmp-IsOrder (nicks s) p s.by_nick v.nick_order (v.same_nick p ∙ inside) in
      let gone =
        λ (q : Ptr). mem-tdelete compare-IsOrder (ids s) (s.users p).id s.by_id p q v.id_order f1 in
      record {
        id_order = tdelete-Sorted compare-IsOrder (ids s) _ s.by_id v.id_order;
        fd_order = tdelete-Sorted compare-IsOrder (fds s) _ s.by_fd v.fd_order;
        nick_order = tdelete-Sorted nick_cmp-IsOrder (nicks s) _ s.by_nick v.nick_order;
        same_fd = λ q.
            mem-tdelete compare-IsOrder (fds s) (s.users p).fd s.by_fd p q v.fd_order f2
            ∙ ap (◌&&◌ (not (q == p))) (v.same_fd q)
            ∙ sym (gone q);
        same_nick = λ q.
            mem-tdelete nick_cmp-IsOrder (nicks s) (s.users p).nickname s.by_nick p q v.nick_order
              f3
            ∙ ap (◌&&◌ (not (q == p))) (v.same_nick q)
            ∙ sym (gone q);
        count =
            omega (
              arith,
              v.count,
              (tdelete-found compare-IsOrder (ids s) (s.users p).id s.by_id p f1).1,
            );
        older = λ q m. v.older q (ground (arith, gone q));
      }

-- `user_del_and_destroy` keeps the trees in agreement.
pub del-Inv : (p : Ptr) (s : Server) → Inv s → Ensures Inv (user_del_and_destroy p s)
unfolding user_del_and_destroy remove_user find_id
del-Inv p s v =
    Ensures-if_null _ _ _ (λ _. returns v)
      λ q e. Ensures-check _ _ λ _.
        Ensures-check _ _
          λ _. returns (removed-Inv s q v (tfind_sound compare-IsOrder (ids s) _ s.by_id q e).0)
