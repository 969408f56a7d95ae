-- ===== src/Client/Users/Packet.antt =====
-- What a whole UCHANGE packet does to the client.
use janken.Base.{
  ℕ, ◌≡◌, refl, subst, sym, ◌∙◌, ap, Bool, true, false, not, ◌&&◌, ◌||◌, Option, Bool-cases, inl,
  inr, List, [], ◌∷◌, arith, ◌==◌, if◌then◌else◌, take, if-true, if-false, ◌⊎◌,
}
use janken.Message.{UserEntry, MsgUchange}
use janken.Client.{Client, GameState, goes, leaves, ◌>>=◌}
use janken.Client.Receive.{
  change_self, change_opponent, update_list, apply_change, apply_changes, handle_uchange,
}
use janken.Client.Users.{Info, Inv, said_info}
use janken.Client.Users.Change.{known, Updated, update_list_lem}

-- The entries of a packet as changes of a map: the last one of a user counts.
unfoldable pub after : List UserEntry → (ℕ → Option Info) → ℕ → Option Info
after [] f k = f k
after (e ∷ es) f k = after es (λ j. if j == e.id then said_info e else f j) k

-- Whether an entry says that the user `id` is offline.
unfoldable pub dismisses : List UserEntry → (id : ℕ) → Bool
dismisses [] id = false
dismisses (e ∷ es) id = (e.id == id && e.state == 0) || dismisses es id

-- Two clients with the same user list, of the same user.
abbrev Alike : Client → Client → Type 0
Alike c d = Inv d × ((k : ℕ) → known d k ≡ known c k) × (d.gs.id ≡ c.gs.id)

with_gs :
    (m : Client) (g : GameState) (b : Bool) → Inv m → Inv (record m { gs = g; state_updated = b })
with_gs m g b w = record { order = w.order; count = w.count; older = w.older }

second_false : (a b : Bool) → a ≡ true → (a && b) ≡ false → b ≡ false
second_false a b h g = ground arith

module _ (e : UserEntry) (c : Client) (v : Inv c) where
  change_self_stays :
      (e.id == c.gs.id && e.state == 0) ≡ false
      → (d : Client) × (change_self e c ≡ goes d) × Alike c d
  unfolding change_self
  change_self_stays h = elim (Bool-cases (e.id == c.gs.id)) [
    | inl i ↦ (
      _,
      if-false {b = not (e.id == c.gs.id)} _ _ (ap not i)
          ∙ if-false {b = e.state == 0} _ _ (second_false (e.id == c.gs.id) (e.state == 0) i h),
      (with_gs c _ true v, λ k. refl, refl),
    )
    | inr i ↦ (c, if-true {b = not (e.id == c.gs.id)} _ _ (ap not i), (v, λ k. refl, refl))
  ]

  change_self-leaves : (e.id == c.gs.id && e.state == 0) ≡ true → change_self e c ≡ leaves c
  unfolding change_self
  change_self-leaves h = ground arith

  change_opponent-Alike : Alike c (change_opponent e c)
  unfolding change_opponent
  change_opponent-Alike = elim (Bool-cases (e.id == c.gs.opponent_id)) [
    | inl i ↦ subst (Alike c) (sym (if-true _ _ i)) (with_gs c _ true v, λ k. refl, refl)
    | inr i ↦ subst (Alike c) (sym (if-false _ _ i)) (v, λ k. refl, refl)
  ]

-- An entry that does not dismiss this user is entered into the map.
apply_change_lem :
    (e : UserEntry) (c : Client)
    → Inv c
    → (e.id == c.gs.id && e.state == 0) ≡ false
    → (c' : Client) × (apply_change e c ≡ goes c')
      × Inv c'
      × (c'.gs.id ≡ c.gs.id)
      × Updated c c' e.id (said_info e)
unfolding apply_change ◌>>=◌
apply_change_lem e c v h =
    let (d, e1, (w, k1, i1)) = change_self_stays e c v h in
    let (w2, k2, i2) = change_opponent-Alike e d w in
    let (c', e3, w3, g3, u3) = update_list_lem (change_opponent e d) w2 e in
    (
      c',
      ap (λ f. f >>= λ c1. update_list e (change_opponent e c1)) e1 ∙ e3,
      w3,
      ap (λ g. g.id) g3 ∙ i2 ∙ i1,
      λ k. u3 k ∙ (λ i. if k == e.id then said_info e else (k2 k ∙ k1 k) i),
    )

apply_change-leaves :
    (e : UserEntry) (c : Client)
    → Inv c
    → (e.id == c.gs.id && e.state == 0) ≡ true
    → apply_change e c ≡ leaves c
unfolding apply_change ◌>>=◌
apply_change-leaves e c v h =
    ap (λ f. f >>= λ c1. update_list e (change_opponent e c1)) (change_self-leaves e c v h)

pub after_agree :
    (es : List UserEntry) (f g : ℕ → Option Info) (k : ℕ)
    → ((j : ℕ) → f j ≡ g j)
    → after es f k ≡ after es g k
unfolding after
after_agree [] f g k h = h k
after_agree (e ∷ es) f g k h =
    after_agree es _ _ k λ j. (λ i. if j == e.id then said_info e else h j i)

-- A packet that does not dismiss this user is applied as a whole.
pub apply_changes_lem :
    (es : List UserEntry) (c : Client)
    → Inv c
    → dismisses es c.gs.id ≡ false
    → (c' : Client) × (apply_changes es c ≡ goes c')
      × Inv c'
      × (c'.gs.id ≡ c.gs.id)
      × ((k : ℕ) → known c' k ≡ after es (known c) k)
unfolding apply_changes dismisses after ◌>>=◌
apply_changes_lem [] c v h = (c, refl, v, refl, λ k. refl)
apply_changes_lem (e ∷ es) c v h =
    let (c1, e1, v1, i1, u1) = apply_change_lem e c v (ground arith) in
    let (c2, e2, v2, i2, u2) = apply_changes_lem es c1 v1 (ap (dismisses es) i1 ∙ ground arith) in
    (
      c2,
      ap (λ f. f >>= apply_changes es) e1 ∙ e2,
      v2,
      i2 ∙ i1,
      λ k. u2 k ∙ after_agree es (known c1) _ k u1,
    )

-- A packet that dismisses this user ends the loop.
pub apply_changes-leaves :
    (es : List UserEntry) (c : Client)
    → Inv c
    → dismisses es c.gs.id ≡ true
    → (c' : Client) × (apply_changes es c ≡ leaves c')
unfolding apply_changes dismisses ◌>>=◌
apply_changes-leaves [] c v h = cc
apply_changes-leaves (e ∷ es) c v h = elim (Bool-cases (e.id == c.gs.id && e.state == 0)) [
  | inl b ↦ (c, first b)
  | inr b ↦
      (let (c1, e1, v1, i1, u1) = apply_change_lem e c v b in
        let (c2, e2) = apply_changes-leaves es c1 v1 (ap (dismisses es) i1 ∙ ground arith) in
        (c2, ap (λ f. f >>= apply_changes es) e1 ∙ e2))
]
  where
    first : (e.id == c.gs.id && e.state == 0) ≡ true → apply_changes (e ∷ es) c ≡ leaves c
    first b = ap (λ f. f >>= apply_changes es) (apply_change-leaves e c v b)

-- UCHANGE on both branches, on a sound user list: if an entry says that this user is offline, the
-- loop ends; otherwise the list is sound afterwards, no assertion fails, and what is known of every id
-- is what was known before, changed by the entries in their order.
pub handle_uchange_lem :
    (m : MsgUchange) (c : Client)
    → Inv c
    → ((dismisses (take m.count m.users) c.gs.id ≡ true)
        × ((c' : Client) × (handle_uchange m c ≡ leaves c')))
      ⊎ ((dismisses (take m.count m.users) c.gs.id ≡ false)
          × ((c' : Client) × (handle_uchange m c ≡ goes c')
              × Inv c'
              × ((k : ℕ) → known c' k ≡ after (take m.count m.users) (known c) k)))
unfolding handle_uchange
handle_uchange_lem m c v = elim (Bool-cases (dismisses (take m.count m.users) c.gs.id)) [
  | inl h ↦ inl (h, apply_changes-leaves (take m.count m.users) c v h)
  | inr h ↦
      (let (c', e, w, i, u) = apply_changes_lem (take m.count m.users) c v h in
        inr (h, (c', e, w, u)))
]
