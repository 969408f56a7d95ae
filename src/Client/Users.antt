-- ===== src/Client/Users.antt =====
-- The client's user list as a finite map, and what UCHANGE does to it.
pub mod Cases
pub mod Change
pub mod Packet
use mathlib.Core.Path.{fun_ext}
use janken.Base.{
  ℕ, zero, suc, ◌+◌, ◌-◌, ◌≤◌, ◌<◌, compare, Ordering, ◌≡◌, ◌≢◌, refl, sym, ◌∙◌, ap, subst, Bool,
  true, false, not, ◌||◌, Option, none, some, Option-cases, Bool-cases, inl, inr, List, [], ◌∷◌,
  ◌++◌, arith, ◌==◌, ==_refl, ==_iff, if◌then◌else◌, take, drop, length, if-true, if-false,
}
use janken.Text.{nickname_len, snprintf, c_str}
use janken.Text.Buffer.{take-take, c_str-snprintf, c_str-snprintf_twice}
use janken.Tree.{tfind, tsearch, tdelete}
use janken.Tree.Laws.{
  compare-IsOrder, mem, Sorted, Sorted-agree, Sorted-eq, tfind_agree, tfind_sound, tfind-tsearch,
  tsearch-Sorted, tsearch-new, mem-tsearch, tfind-tdelete, tdelete-Sorted, tdelete-found,
  mem-tdelete, eqb,
}
use janken.Message.{UserEntry}
use janken.Client.{
  Ptr, UserInfo, Client, Flow, goes, leaves, crash, ◌>>=◌, check, ids, find_user, update,
}
use janken.Client.Receive.{
  change_self, change_opponent, user_create, remove_user, change_user, insert_user, change_list,
  update_list, apply_change,
}

-- What is known of a user, by id.
pub record Info : Type 0 where
  pub nickname : List ℕ
  pub state : ℕ
  pub score : ℕ

abbrev pub info_of : UserInfo → Info
info_of u = record { nickname = c_str u.nickname; state = u.state; score = u.score }

unfoldable pub lookup : (Ptr → UserInfo) → List Ptr → ℕ → Option Info
lookup users t k = elim (tfind compare (λ p. (users p).id) k t) [
  | none ↦ none
  | some p ↦ some (info_of (users p))
]

-- The user list is sound: ordered by id, counted, and in memory that was given out.
pub record Inv (c : Client) : Type 0 where
  pub order : Sorted compare (ids c) c.by_id
  pub count : c.user_cnt ≡ length c.by_id
  pub older : (p : Ptr) → mem p c.by_id ≡ true → p < c.next

-- What an entry says of its user.
abbrev pub said_info : UserEntry → Option Info
said_info e =
    if e.state == 0
    then none
    else some (record { nickname = take 31 (c_str e.nickname); state = e.state; score = e.score })

module _ (c : Client) (v : Inv c) (e : UserEntry) where
  abbrev pub fresh : UserInfo
  fresh = user_create (c.users c.next) e.nickname e.id e.state e.score

  abbrev pub made : Client
  made = record c { next = suc c.next; users = update c.users c.next fresh }

  pub outside : mem c.next c.by_id ≡ false
  outside = elim (Bool-cases (mem c.next c.by_id)) [
    | inl h ↦ absurd (omega (arith, v.older c.next h))
    | inr h ↦ h
  ]

  other : (q : Ptr) → mem q c.by_id ≡ true → (q == c.next) ≡ false
  other q h = ground (arith, v.older q h)

  kept : (q : Ptr) → mem q c.by_id ≡ true → made.users q ≡ c.users q
  kept q h = if-false _ _ (other q h)

  kept_id : (q : Ptr) → mem q c.by_id ≡ true → ids made q ≡ ids c q
  kept_id q h = ap (λ u. u.id) (kept q h)

  pub made-Inv : Inv made
  made-Inv = record {
    order = Sorted-agree compare (ids c) (ids made) c.by_id kept_id v.order;
    count = v.count;
    older = λ p h. ground (arith, v.older p h);
  }

  find-made : (k : ℕ) → tfind compare (ids made) k c.by_id ≡ tfind compare (ids c) k c.by_id
  find-made k = tfind_agree compare (ids c) (ids made) k c.by_id kept_id

  pub lookup-made : (k : ℕ) → lookup made.users c.by_id k ≡ lookup c.users c.by_id k
  unfolding lookup
  lookup-made k =
      ap (λ o. elim o [ none ↦ none | some p ↦ some (info_of (made.users p)) ]) (find-made k)
      ∙ same (tfind compare (ids c) k c.by_id) refl
    where
      same :
          (o : Option Ptr)
          → tfind compare (ids c) k c.by_id ≡ o
          → ◌≡◌ {A = Option Info}
              (elim o [ none ↦ none | some p ↦ some (info_of (made.users p)) ])
              (elim o [ none ↦ none | some p ↦ some (info_of (c.users p)) ])
      same none h = refl
      same (some p) h =
          ap (λ u. some (info_of u)) (kept p (tfind_sound compare-IsOrder (ids c) k c.by_id p h).0)
