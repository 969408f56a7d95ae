-- ===== src/Client/Users/Change.antt =====
-- What one entry of UCHANGE does to the user list, and what a whole packet does.
use janken.Base.{
  ℕ, ◌≡◌, refl, sym, ◌∙◌, ap, true, false, Option, none, some, Bool-cases, inl, inr, arith, ◌==◌,
  ==_refl, if◌then◌else◌, take, if-true, if-false,
}
use janken.Text.{c_str}
use janken.Message.{UserEntry}
use janken.Client.{Ptr, Client, goes, ◌>>=◌, ids, find_user, print, Output, joined, went_offline}
use janken.Client.Receive.{user_create, change_user, change_list, update_list}
use janken.Text.Buffer.{take-take, c_str-snprintf}
use janken.Client.Users.{Info, info_of, lookup, Inv, said_info, fresh, made, made-Inv, lookup-made}
use janken.Client.Users.Cases.{
  lookup-none, without, without-Inv, lookup-without, remove_user-done, with_user, with_user-Inv,
  lookup-with_user, insert_user-done, changed-Inv, changed_info, lookup-changed,
}

abbrev pub known : Client → ℕ → Option Info
known c k = lookup c.users c.by_id k

-- The map `t` is `s` with `o` at `id`.
abbrev pub Updated : Client → Client → (id : ℕ) → Option Info → Type 0
Updated s t id o = (k : ℕ) → known t k ≡ (if k == id then o else known s k)

print-Inv : (m : Client) (o : Output) → Inv m → Inv (print m o)
print-Inv m o w = record { order = w.order; count = w.count; older = w.older }

listed-Inv : (m : Client) → Inv m → Inv (record m { list_updated = true })
listed-Inv m w = record { order = w.order; count = w.count; older = w.older }

module _ (c : Client) (v : Inv c) (e : UserEntry) where
  fresh_id : ids (made c v e) c.next ≡ e.id
  unfolding user_create
  fresh_id = ap (λ u. u.id) (if-true (fresh c v e) (c.users c.next) (==_refl c.next))

  fresh_info :
      info_of ((made c v e).users c.next)
      ≡ record { nickname = take 31 (c_str e.nickname); state = e.state; score = e.score }
  unfolding user_create
  fresh_info = ap info_of (if-true (fresh c v e) (c.users c.next) (==_refl c.next)) ∙ (λ i. record {
    nickname = c_str-snprintf (c.users c.next).nickname e.nickname i;
    state = e.state;
    score = e.score;
  })

  abbrev Changes : Option Ptr → Type 0
  Changes node =
      (c' : Client) × (change_list c.next e node (made c v e) ≡ goes c')
      × Inv c'
      × (c'.gs ≡ c.gs)
      × Updated c c' e.id (said_info e)

  unknown_left : find_user (made c v e) e.id ≡ none → (e.state == 0) ≡ true → Changes none
  unfolding change_list
  unknown_left h z =
      let m = print (made c v e) (went_offline e.nickname) in
      (
        m,
        if-true _ _ z,
        print-Inv (made c v e) (went_offline e.nickname) (made-Inv c v e),
        refl,
        λ k. ground (
          arith,
          lookup-made c v e k,
          lookup-made c v e e.id,
          lookup-none (made c v e) (made-Inv c v e) e.id h,
          z,
        ),
      )

  known_left :
      (q : Ptr) → find_user (made c v e) e.id ≡ some q → (e.state == 0) ≡ true → Changes (some q)
  unfolding change_list find_user
  known_left q h z =
      let m = print (made c v e) (went_offline e.nickname) in
      let w = print-Inv (made c v e) (went_offline e.nickname) (made-Inv c v e) in
      (
        without m w q,
        if-true _ _ z ∙ remove_user-done m w e.id q h,
        without-Inv m w e.id q h,
        refl,
        λ k. ground (arith, lookup-without m w e.id q k h, lookup-made c v e k, z),
      )

  unknown_here : find_user (made c v e) e.id ≡ none → (e.state == 0) ≡ false → Changes none
  unfolding change_list find_user
  unknown_here h z =
      let m = print (made c v e) (joined e.nickname) in
      let w = print-Inv (made c v e) (joined e.nickname) (made-Inv c v e) in
      let new = ap (find_user m) fresh_id ∙ h in
      (
        with_user m w c.next,
        if-false _ _ z ∙ insert_user-done m w c.next new (omega arith),
        with_user-Inv m w c.next new (omega arith),
        refl,
        λ k. ground (
          arith,
          fresh_id,
          fresh_info,
          lookup-with_user m w c.next new (omega arith) k,
          lookup-made c v e k,
          z,
        ),
      )

  changed_here :
      (q : Ptr)
      → find_user (made c v e) e.id ≡ some q
      → (e.state == 0) ≡ false
      → some (info_of ((change_user c.next q (made c v e)).users q)) ≡ said_info e
  changed_here q h z =
      ap some (
        changed_info (made c v e) (made-Inv c v e) e.id c.next q h
        ∙ (λ i. record {
          nickname = take 31 (fresh_info i).nickname;
          state = (fresh_info i).state;
          score = (fresh_info i).score;
        })
        ∙ (λ i. record {
          nickname = take-take 31 (c_str e.nickname) i;
          state = e.state;
          score = e.score;
        }))
      ∙ sym (if-false _ _ z)

  known_here :
      (q : Ptr) → find_user (made c v e) e.id ≡ some q → (e.state == 0) ≡ false → Changes (some q)
  unfolding change_list
  known_here q h z =
      let m = made c v e in
      let w = made-Inv c v e in
      (
        change_user c.next q m,
        if-false _ _ z,
        changed-Inv m w e.id c.next q h,
        refl,
        λ k.
            lookup-changed m w e.id c.next q h k
            ∙ (λ i. if k == e.id then changed_here q h z i else lookup-made c v e k i),
      )

  pub change_list_lem : Changes (find_user (made c v e) e.id)
  change_list_lem = found (find_user (made c v e) e.id) refl
    where
      found : (o : Option Ptr) → find_user (made c v e) e.id ≡ o → Changes o
      found none h = elim (Bool-cases (e.state == 0)) [
        | inl z ↦ unknown_left h z
        | inr z ↦ unknown_here h z
      ]
      found (some q) h = elim (Bool-cases (e.state == 0)) [
        | inl z ↦ known_left q h z
        | inr z ↦ known_here q h z
      ]

module _ (c : Client) (v : Inv c) (e : UserEntry) where
  pub update_list_lem :
      (c' : Client) × (update_list e c ≡ goes c')
      × Inv c'
      × (c'.gs ≡ c.gs)
      × Updated c c' e.id (said_info e)
  unfolding update_list ◌>>=◌
  update_list_lem =
      let (c', h, w, g, u) = change_list_lem c v e in
      (
        record c' { list_updated = true },
        ap (λ f. f >>= λ c2. goes (record c2 { list_updated = true })) h,
        listed-Inv c' w,
        g,
        u,
      )
