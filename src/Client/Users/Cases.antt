-- ===== src/Client/Users/Cases.antt =====
-- A removal, an insertion and a change in the client's user list.
use mathlib.Core.Path.{fun_ext}
use janken.Base.{
  ℕ, ◌+◌, ◌-◌, ◌<◌, compare, ◌≡◌, refl, sym, ◌∙◌, ap, true, false, Option, none, some, Bool-cases,
  inl, inr, arith, ◌==◌, ==_refl, ==_iff, if◌then◌else◌, take, if-true, if-false,
}
use janken.Text.{c_str}
use janken.Tree.{tfind, tsearch, tdelete}
use janken.Tree.Laws.{
  compare-IsOrder, mem, Sorted-eq, tfind_sound, tfind-tsearch, tsearch-Sorted, tsearch-new,
  mem-tsearch, tfind-tdelete, tdelete-Sorted, tdelete-found, mem-tdelete,
}
use janken.Client.{Ptr, Client, goes, check, ids, find_user}
use janken.Client.Receive.{remove_user, change_user, insert_user}
use janken.Text.Buffer.{c_str-snprintf}
use janken.Client.Users.{Info, info_of, lookup, Inv}

some_inj : {a b : Ptr} → some a ≡ some b → a ≡ b
some_inj x = cc

-- The four cases of a change, in a sound user list.
module _ (m : Client) (w : Inv m) where
  pub found_id :
      (id : ℕ) (q : Ptr) → find_user m id ≡ some q → (mem q m.by_id ≡ true) × (ids m q ≡ id)
  unfolding find_user
  found_id id q h = (
    (tfind_sound compare-IsOrder (ids m) id m.by_id q h).0,
    ground (arith, (tfind_sound compare-IsOrder (ids m) id m.by_id q h).1),
  )

  pub lookup-none : (id : ℕ) → find_user m id ≡ none → lookup m.users m.by_id id ≡ none
  unfolding find_user lookup
  lookup-none id h = ap (λ o. elim o [ none ↦ none | some p ↦ some (info_of (m.users p)) ]) h

  at_own : (id : ℕ) (q : Ptr) → find_user m id ≡ some q → find_user m (ids m q) ≡ some q
  at_own id q h = ap (find_user m) (found_id id q h).1 ∙ h

  abbrev pub without : Ptr → Client
  without q = record m {
    by_id = (tdelete compare (ids m) (ids m q) m.by_id).1;
    user_cnt = m.user_cnt - 1;
  }

  pub without-Inv : (id : ℕ) (q : Ptr) → find_user m id ≡ some q → Inv (without q)
  unfolding find_user
  without-Inv id q h = record {
    order = tdelete-Sorted compare-IsOrder (ids m) (ids m q) m.by_id w.order;
    count = omega (
      arith,
      w.count,
      (tdelete-found compare-IsOrder (ids m) (ids m q) m.by_id q (at_own id q h)).1,
    );
    older = λ r g. w.older r (
        ground (
          arith,
          g,
          mem-tdelete compare-IsOrder (ids m) (ids m q) m.by_id q r w.order (at_own id q h),
        ));
  }

  pub lookup-without :
      (id : ℕ) (q : Ptr) (k : ℕ)
      → find_user m id ≡ some q
      → lookup m.users (without q).by_id k ≡ (if k == id then none else lookup m.users m.by_id k)
  unfolding find_user lookup
  lookup-without id q k h = ground (
    arith,
    (found_id id q h).1,
    tfind-tdelete compare-IsOrder (ids m) (ids m q) m.by_id q k w.order (at_own id q h),
  )

  pub remove_user-done :
      (id : ℕ) (q : Ptr) → find_user m id ≡ some q → remove_user q m ≡ goes (without q)
  unfolding find_user remove_user check
  remove_user-done id q h = ground (
    arith,
    w.count,
    (tdelete-found compare-IsOrder (ids m) (ids m q) m.by_id q (at_own id q h)).1,
  )

  abbrev pub with_user : Ptr → Client
  with_user p = record m {
    by_id = (tsearch compare (ids m) p m.by_id).1;
    user_cnt = m.user_cnt + 1;
  }

  module _ (p : Ptr) (new : find_user m (ids m p) ≡ none) (given : p < m.next) where
    pub with_user-Inv : Inv (with_user p)
    unfolding find_user
    with_user-Inv = record {
      order = tsearch-Sorted compare-IsOrder (ids m) p m.by_id w.order;
      count = omega (arith, w.count, (tsearch-new compare-IsOrder (ids m) p m.by_id new).1);
      older = λ r g.
          ground (arith, g, given, w.older r, mem-tsearch compare-IsOrder (ids m) p r m.by_id new);
    }

    pub lookup-with_user :
        (k : ℕ)
        → lookup m.users (with_user p).by_id k
          ≡ (if k == ids m p then some (info_of (m.users p)) else lookup m.users m.by_id k)
    unfolding find_user lookup
    lookup-with_user k =
        ground (arith, tfind-tsearch compare-IsOrder (ids m) p m.by_id k w.order new)

    pub insert_user-done : insert_user p m ≡ goes (with_user p)
    unfolding find_user insert_user check
    insert_user-done =
        ground (arith, (tsearch-new compare-IsOrder (ids m) p m.by_id new).0, ==_refl p)

  module _ (id : ℕ) (p q : Ptr) (h : find_user m id ≡ some q) where
    changed_keys : ids (change_user p q m) ≡ ids m
    unfolding change_user
    changed_keys = fun_ext λ r. elim (Bool-cases (r == q)) [
      | inl e ↦ ap (λ u. u.id) (if-true _ (m.users r) e) ∙ ap (ids m) (sym ((==_iff r q).0 e))
      | inr e ↦ ap (λ u. u.id) (if-false _ (m.users r) e)
    ]

    pub changed-Inv : Inv (change_user p q m)
    unfolding change_user
    changed-Inv = record {
      order = Sorted-eq compare changed_keys refl w.order;
      count = w.count;
      older = w.older;
    }

    -- The nickname is the name's first 31 characters, whatever the two buffers held.
    pub changed_info : info_of ((change_user p q m).users q) ≡ record {
      nickname = take 31 (c_str (m.users p).nickname);
      state = (m.users p).state;
      score = (m.users p).score;
    }
    unfolding change_user
    changed_info = ap info_of (if-true _ (m.users q) (==_refl q)) ∙ (λ i. record {
      nickname = c_str-snprintf (m.users q).nickname (m.users p).nickname i;
      state = (m.users p).state;
      score = (m.users p).score;
    })

    pub lookup-changed :
        (k : ℕ)
        → lookup (change_user p q m).users (change_user p q m).by_id k ≡ (
            if k == id
            then some (info_of ((change_user p q m).users q))
            else lookup m.users m.by_id k)
    unfolding change_user lookup find_user
    lookup-changed k =
        (λ i. elim (tfind compare (changed_keys i) k m.by_id) [
          | none ↦ none
          | some r ↦ some (info_of ((change_user p q m).users r))
        ])
        ∙ shown (tfind compare (ids m) k m.by_id) refl
      where
        other_than :
            (r : Ptr)
            → tfind compare (ids m) k m.by_id ≡ some r
            → (k == id) ≡ false
            → (r == q) ≡ false
        other_than r g e = elim (Bool-cases (r == q)) [
          | inl y ↦
              (let z =
                  sym (found_id k r g).1 ∙ ap (ids m) ((==_iff r q).0 y) ∙ (found_id id q h).1 in
                let t = (==_iff k id).1 z in cc)
          | inr y ↦ y
        ]

        shown :
            (o : Option Ptr)
            → tfind compare (ids m) k m.by_id ≡ o
            → ◌≡◌ {A = Option Info}
                (elim o [ none ↦ none | some r ↦ some (info_of ((change_user p q m).users r)) ])
                (if k == id
                  then some (info_of ((change_user p q m).users q))
                  else elim o [ none ↦ none | some r ↦ some (info_of (m.users r)) ])
        shown none g = elim (Bool-cases (k == id)) [
          | inl e ↦
              let f = sym g ∙ ap (λ j. tfind compare (ids m) j m.by_id) ((==_iff k id).0 e) ∙ h in
              cc
          | inr e ↦ sym (if-false _ _ e)
        ]
        shown (some r) g = elim (Bool-cases (k == id)) [
          | inl e ↦
              ap (λ x. some (info_of ((change_user p q m).users x)))
                (some_inj
                  (sym g ∙ ap (λ j. tfind compare (ids m) j m.by_id) ((==_iff k id).0 e) ∙ h))
              ∙ sym (if-true _ _ e)
          | inr e ↦
              ap (λ u. some (info_of u)) (if-false _ (m.users r) (other_than r g e))
              ∙ sym (if-false _ _ e)
        ]
