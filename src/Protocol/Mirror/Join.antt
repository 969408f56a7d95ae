-- ===== src/Protocol/Mirror/Join.antt =====
-- A user who joins on another connection, for one who follows the users.
use janken.Base.{
  ℕ, zero, suc, compare, ◌≡◌, refl, sym, ◌∙◌, ap, subst, true, false, ◌||◌, ==_refl, Option, none,
  some, List, [], ◌++◌, append-nil, arith, leb, ◌==◌, if-false,
}
use janken.Tree.{tfind, tsearch}
use janken.Tree.Laws.{
  mem, Sorted, Sorted-agree, eqb, tfind_agree, tfind-tsearch, tsearch-Sorted, mem-tsearch,
  compare-IsOrder,
}
use janken.Server.{Server, User, Ptr, Run, ids, find_id, max_user_count}
use janken.Server.Ensures.{
  Ensures, returns, crashes, Ensures-bind, Ensures-check, Ensures-if_null, Ensures-if,
}
use janken.Server.Index.{
  Inv, write_outside-Inv, write_randoms, fresh_outside, tfind_of_tsearch, ne_of_mem,
}
use janken.Server.Login.Enter.{named}
use janken.Server.Users.{user_create, enter_user, add_rounds, user_add}
use janken.Message.{Message, MsgErr, me_ok}
use janken.Client.Users.{Info}
use janken.Protocol.Roster.{user_info, server_info}
use janken.Protocol.Mirror.{heard, to_fd, heard_agree, Told, Told-trans, Told-quiet}
use janken.Protocol.Mirror.Informs.{Listens}
use janken.Protocol.Mirror.Battle.{found_inside}

-- The same tree, over the same users, and nothing sent: another object may have been written.
pub record Agree (s t : Server) : Type 0 where
  pub by_id : t.by_id ≡ s.by_id
  pub sent : t.sent ≡ s.sent
  pub users : (q : Ptr) → mem q s.by_id ≡ true → t.users q ≡ s.users q

module _ {s t : Server} (a : Agree s t) where
  Agree-find : (k : ℕ) → find_id t k ≡ find_id s k
  unfolding find_id
  Agree-find k =
      ap (tfind compare (ids t) k) a.by_id
      ∙ tfind_agree compare (ids s) (ids t) k s.by_id λ q m. ap (λ u. u.id) (a.users q m)

  pub Agree-info : (k : ℕ) → server_info s k ≡ server_info t k
  Agree-info k = go (find_id s k) refl
    where
      info : (Ptr → User) → Option Ptr → Option Info
      info users o = elim o [ none ↦ none | some p ↦ user_info (users p) ]

      go : (o : Option Ptr) → find_id s k ≡ o → server_info s k ≡ server_info t k
      go none e = ap (info s.users) e ∙ sym (ap (info t.users) (Agree-find k ∙ e))
      go (some q) e =
          ap (info s.users) e
          ∙ ap user_info (sym (a.users q (found_mem e)))
          ∙ sym (ap (info t.users) (Agree-find k ∙ e))
        where
          found_mem : find_id s k ≡ some q → mem q s.by_id ≡ true
          found_mem d = found_inside s k q d

  pub Agree-Listens : {f : ℕ} → Listens f s → Listens f t
  Agree-Listens l = record {
    order = subst (Sorted compare (ids t)) (sym a.by_id) (
        Sorted-agree compare (ids s) (ids t) s.by_id (λ q m. ap (λ u. u.id) (a.users q m)) l.order);
    user = l.user;
    inside = ap (mem l.user) a.by_id ∙ l.inside;
    fd = ap (λ u. u.fd) (a.users l.user l.inside) ∙ l.fd;
  }

-- All is told but of the user at `p`, who is in the tree.
pub record Owes (f : ℕ) (p : Ptr) (s t : Server) : Type 0 where
  pub packets : List (ℕ × Message)
  pub grows : t.sent ≡ s.sent ++ packets
  pub others :
      (k : ℕ) → (k == ids t p) ≡ false → heard (to_fd f packets) (server_info s) k ≡ server_info t k
  pub inside : mem p t.by_id ≡ true
  pub listens : Listens f t

-- What `user_add` leaves.
abbrev pub Added : ℕ → Server → Option Ptr × MsgErr × Server → Type 0
Added f s (none, me_ok, t) = Unit
Added f s (some p, me_ok, t) = Owes f p s t
Added f s (o, e, t) = Told f s t

Added-before :
    (f : ℕ) {s s' : Server} (r : Option Ptr × MsgErr × Server)
    → Agree s s'
    → Added f s' r
    → Added f s r
Added-before f {s} {s'} (none, me_ok, t) a h = tt
Added-before f {s} {s'} (some p, me_ok, t) a h = record {
  packets = h.packets;
  grows = h.grows ∙ ap (λ l. l ++ h.packets) a.sent;
  others = λ k n. heard_agree (to_fd f h.packets) _ _ k (Agree-info a) ∙ h.others k n;
  inside = h.inside;
  listens = h.listens;
}
Added-before f {s} {s'} (o, e, t) a h = Told-trans (Told-quiet f s s' a.sent (Agree-info a)) h

before :
    {f : ℕ} {s s' : Server} {m : Run (Option Ptr × MsgErr × Server)}
    → Agree s s'
    → Ensures (Added f s') m
    → Ensures (Added f s) m
before {f} a (returns {a = r} h) = returns (Added-before f r a h)
before a crashes = crashes

-- The new user in the id tree.
module _ (s : Server) (p : Ptr) (o : Sorted compare (ids s) s.by_id)
    (absent : tfind compare (ids s) (ids s p) s.by_id ≡ none) (by_fd by_nick : List Ptr)
    (n : ℕ) where
  abbrev listed : Server
  listed = record s {
    by_id = (tsearch compare (ids s) p s.by_id).1;
    by_fd = by_fd;
    by_nick = by_nick;
    user_cnt = n;
  }

  listed_info : (k : ℕ) → (k == ids s p) ≡ false → server_info s k ≡ server_info listed k
  unfolding find_id
  listed_info k ne =
      ap info (sym (if-false (some p) (tfind compare (ids s) k s.by_id) (not_same ne)))
      ∙ ap info (sym (tfind-tsearch compare-IsOrder (ids s) p s.by_id k o absent))
    where
      info : Option Ptr → Option Info
      info r = elim r [ none ↦ none | some j ↦ user_info (s.users j) ]

      not_same : (k == ids s p) ≡ false → eqb (compare k (ids s p)) ≡ false
      not_same e = ground (arith, e)

  listed_mem : (q : Ptr) → mem q listed.by_id ≡ (q == p || mem q s.by_id)
  listed_mem q = mem-tsearch compare-IsOrder (ids s) p q s.by_id absent

  listed-Listens : {f : ℕ} → Listens f s → Listens f listed
  listed-Listens l = record {
    order = tsearch-Sorted compare-IsOrder (ids s) p s.by_id o;
    user = l.user;
    inside = listed_mem l.user ∙ ground (arith, l.inside);
    fd = l.fd;
  }

module _ {s : Server} (v : Inv s) (p : Ptr) (out : mem p s.by_id ≡ false) (fd id : ℕ) where
  nm : Server
  nm = named p fd id s

  named-Agree : Agree s nm
  unfolding nm
  named-Agree = record {
    by_id = refl;
    sent = refl;
    users = λ q m. if-false {b = q == p} _ (s.users q) (ne_of_mem p q s.by_id out m);
  }

  enter_user-Owes : {f : ℕ} → Listens f s → Ensures (Owes f p s) (enter_user p fd id s)
  unfolding enter_user nm
  enter_user-Owes l = Ensures-check _ _ λ h1. Ensures-check _ _ λ h2. Ensures-check _ _ λ h3.
      let l' = Agree-Listens named-Agree l in
      let absent = tfind_of_tsearch compare-IsOrder (ids nm) p s.by_id out h1 in
      returns (record {
        packets = [];
        grows = sym (append-nil s.sent);
        others = λ k n. Agree-info named-Agree k ∙ listed_info nm p l'.order absent _ _ _ k n;
        inside = listed_mem nm p l'.order absent [] [] 0 p ∙ ground (arith, ==_refl p);
        listens = listed-Listens nm p l'.order absent _ _ _ l';
      })

write_randoms-Agree : (s : Server) (r : ℕ → ℕ) → Agree s (record s { randoms = r })
write_randoms-Agree s r = record { by_id = refl; sent = refl; users = λ q m. refl }

add_rounds-Added :
    {f : ℕ} (n : ℕ) (p : Ptr) (fd id : ℕ) (s : Server)
    → Inv s
    → mem p s.by_id ≡ false
    → Listens f s
    → Ensures (Added f s) (add_rounds n p fd id s)
unfolding add_rounds
add_rounds-Added {f} zero p fd id s v out l = returns (Told-quiet f s s refl λ k. refl)
add_rounds-Added (suc n) p fd id s v out l =
    Ensures-if_null _ _ _
      (λ _. Ensures-bind _ _ (enter_user-Owes v p out fd id l) λ t _ h. returns h)
      (λ q _. before (write_randoms-Agree s _) (
        add_rounds-Added n p fd _ _ (write_randoms v) out
          (Agree-Listens (write_randoms-Agree s _) l)))

pub user_add-Added :
    {f : ℕ} (fd : ℕ) (nickname : List ℕ) (s : Server)
    → Inv s
    → Listens f s
    → Ensures (Added f s) (user_add fd nickname s)
unfolding user_add user_create
user_add-Added {f} fd nickname s v l =
    let v' = write_outside-Inv s.next _ (suc s.next) _ v (fresh_outside v) (omega arith) in
    before made (
      Ensures-if (leb max_user_count s.user_cnt) _ _ (λ _. returns refused)
        λ _.
          Ensures-if_null _ _ _
            (λ _.
              Ensures-if_null _ _ _
                (λ _. add_rounds-Added 16 s.next fd _ _ v' (fresh_outside v) (Agree-Listens made l))
                λ q _. returns refused)
            λ q _. returns refused)
  where
    made : Agree s (user_create nickname s).1
    made = record {
      by_id = refl;
      sent = refl;
      users = λ q m.
          if-false {b = q == s.next} _ (s.users q) (ne_of_mem s.next q s.by_id (fresh_outside v) m);
    }

    refused : Told f (user_create nickname s).1 (user_create nickname s).1
    refused = Told-quiet f _ _ refl λ k. refl
