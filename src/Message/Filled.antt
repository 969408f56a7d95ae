-- ===== src/Message/Filled.antt =====
-- A user list that was filled from the beginning: what `make_uchange` and `uchange_add_or_create` of
-- lib/messages.c build.
use janken.Base.{
  ℕ, suc, ◌+◌, ◌-◌, ◌%◌, ◌^◌, ◌≤◌, ◌<◌, ◌≡◌, refl, ◌∙◌, ap, true, false, none, some, List, [], ◌∷◌,
  ◌++◌, arith, leb, leb-false, if-true, if-false, get_elem?, set, take, replicate, length,
  length-append,
}
use janken.Message.{
  UserEntry, UserState, MsgUchange, zero_entry, fill_entry, entry_at, uchange_add,
  uchange_add_or_create, uchange_max_ucnt,
}

-- The packet's body with these entries, and zeroes after them.
abbrev pub filled : List UserEntry → MsgUchange
filled es = record {
  count = length es;
  users = es ++ replicate (uchange_max_ucnt - length es) zero_entry;
}

-- What is written of a user.
abbrev pub new_entry : List ℕ → (id : ℕ) → UserState → (score : ℕ) → UserEntry
new_entry nickname id state score = fill_entry zero_entry nickname id state score

get_elem?-append :
    {A : Type 0} (xs ys : List A) (a : A) → get_elem? (xs ++ a ∷ ys) (length xs) ≡ some a
get_elem?-append [] ys a = refl
get_elem?-append (x ∷ xs) ys a = get_elem?-append xs ys a

set-append :
    {A : Type 0} (xs ys : List A) (a b : A)
    → set (xs ++ a ∷ ys) (length xs) b ≡ (xs ++ b ∷ []) ++ ys
set-append [] ys a b = refl
set-append (x ∷ xs) ys a b = ap (◌∷◌ x) (set-append xs ys a b)

take-append : {A : Type 0} (xs ys : List A) → take (length xs) (xs ++ ys) ≡ xs
take-append [] ys = refl
take-append (x ∷ xs) ys = ap (◌∷◌ x) (take-append xs ys)

-- The entries that a receiver reads are those that were filled in.
pub taken : (es : List UserEntry) → take (filled es).count (filled es).users ≡ es
taken es = take-append es _

-- The same, with any number of entries after the new one.
uchange_add-at :
    (es r : List UserEntry) (nickname : List ℕ) (id : ℕ) (state : UserState) (score : ℕ)
    → uchange_add
        (record { count = length es; users = es ++ zero_entry ∷ r })
        nickname
        id
        state
        score
      ≡ record {
        count = (length es + 1) % 2 ^ 32;
        users = (es ++ new_entry nickname id state score ∷ []) ++ r;
      }
unfolding uchange_add entry_at
uchange_add-at es r nickname id state score =
    ap
      (λ old. record {
        count = (length es + 1) % 2 ^ 32;
        users = set (es ++ zero_entry ∷ r) (length es) (fill_entry old nickname id state score);
      })
      old_entry
    ∙ ap (λ us. record { count = (length es + 1) % 2 ^ 32; users = us })
        (set-append es r zero_entry (new_entry nickname id state score))
  where
    old_entry : entry_at (es ++ zero_entry ∷ r) (length es) ≡ zero_entry
    old_entry =
        ap (λ o. elim o [ none ↦ zero_entry | some e ↦ e ]) (get_elem?-append es r zero_entry)

pub uchange_add-filled :
    (es : List UserEntry) (nickname : List ℕ) (id : ℕ) (state : UserState) (score : ℕ)
    → length es < 16
    → uchange_add (filled es) nickname id state score
      ≡ filled (es ++ new_entry nickname id state score ∷ [])
uchange_add-filled es nickname id state score h =
    ap
      (λ n.
        uchange_add (record { count = length es; users = es ++ replicate n zero_entry }) nickname id
          state score)
      room
    ∙ uchange_add-at es (replicate (15 - length es) zero_entry) nickname id state score
    ∙ (λ i. record {
      count = one_more i;
      users = (es ++ new_entry nickname id state score ∷ []) ++ replicate (left_over i) zero_entry;
    })
  where
    room : 16 - length es ≡ suc (15 - length es)
    room = omega (arith, h)

    more : length (es ++ new_entry nickname id state score ∷ []) ≡ length es + 1
    more = length-append es (new_entry nickname id state score ∷ [])

    one_more : (length es + 1) % 2 ^ 32 ≡ length (es ++ new_entry nickname id state score ∷ [])
    one_more = omega (arith, h, more)

    left_over : 15 - length es ≡ 16 - length (es ++ new_entry nickname id state score ∷ [])
    left_over = omega (arith, h, more)

pub uchange_add_or_create-filled :
    (es : List UserEntry) (nickname : List ℕ) (id : ℕ) (state : UserState) (score : ℕ)
    → ((length es < 16)
        → uchange_add_or_create true (filled es) nickname id state score
          ≡ (true, filled (es ++ new_entry nickname id state score ∷ []), none))
      × ((16 ≤ length es)
          → uchange_add_or_create true (filled es) nickname id state score
            ≡ (false, filled es, some (filled (new_entry nickname id state score ∷ []))))
unfolding uchange_add_or_create
uchange_add_or_create-filled es nickname id state score = (
  λ h.
      if-false _ _ (leb-false 16 (length es) h)
      ∙ ap (λ m. (true, m, none)) (uchange_add-filled es nickname id state score h),
  λ h.
      if-true {b = leb 16 (length es)} _ _ (ground (arith, h))
      ∙ ap (λ m. (false, filled es, some m))
          (uchange_add-filled [] nickname id state score (omega arith)),
)
