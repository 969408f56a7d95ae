-- ===== src/Client/Menu.antt =====
-- The user list on the screen: `populate_user_list`, `cmp_item_for_sort` and the part of `ui_main` that
-- makes the menu anew. `qsort_r` is a parameter.
pub mod Sort
pub mod Shown
use janken.Base.{
  ℕ, zero, suc, ◌^◌, compare, Ordering, Bool, true, false, Option, none, some, List, [], ◌∷◌, leb,
  ◌==◌, if◌then◌else◌, sub32, replicate,
}
use janken.Text.{nickname_len, snprintf, strncasecmp}
use janken.Client.{Ptr, UserInfo, SortBy, by_name, by_score, Client, ids}
use janken.Client.Input.{UserCmd, uc_chl_user, uc_battle_act, uc_sort, uc_quit, uc_sendmsg, uc_max}

unfoldable pub user_state_char : ℕ → ℕ
user_state_char st =
    if st == 0 then b'-' else if st == 1 then b'+' else if st == 2 then b'X' else b'?'

-- An `ITEM`: what its name and its description are made of, and its command (`uc_chl_user`).
pub record Item : Type 0 where
  pub nickname : List ℕ
  pub is_self : Bool
  pub state_char : ℕ
  pub score : ℕ
  pub chl_user_id : ℕ
  pub chl_user_name : List ℕ
  pub chl_score : ℕ

unfoldable pub item_of : (self_id : ℕ) → UserInfo → Item
unfolding user_state_char snprintf
item_of self_id u = record {
  nickname = u.nickname;
  is_self = u.id == self_id;
  state_char = user_state_char u.state;
  score = u.score;
  chl_user_id = u.id;
  chl_user_name = snprintf (replicate 32 0) nickname_len u.nickname;
  chl_score = u.score;
}

-- `twalk_r(user_by_id, populate_user_list, &arg)`: no more than `sz` items.
unfoldable pub populate : Client → (sz : ℕ) → List Ptr → List Item
unfolding item_of
populate c zero t = []
populate c (suc sz) [] = []
populate c (suc sz) (p ∷ t) = item_of c.gs.id (c.users p) ∷ populate c sz t

-- The sign of an `int32_t`.
abbrev pub sign : ℕ → Ordering
sign n = if n == 0 then Ordering.eq else if leb (2 ^ 31) n then Ordering.lt else Ordering.gt

abbrev pub or_else : Ordering → Ordering → Ordering
or_else Ordering.lt y = Ordering.lt
or_else Ordering.eq y = y
or_else Ordering.gt y = Ordering.gt

-- `cmp_item_for_sort`: a difference of scores wraps around.
abbrev pub cmp_name : Item → Item → Ordering
cmp_name i j = strncasecmp i.chl_user_name j.chl_user_name nickname_len

abbrev pub cmp_score : Item → Item → Ordering
cmp_score i j = sign (sub32 j.chl_score i.chl_score)

unfoldable pub cmp_item_for_sort : SortBy → Item → Item → Ordering
cmp_item_for_sort by_name i j = or_else (cmp_name i j) (cmp_score i j)
cmp_item_for_sort by_score i j = or_else (cmp_score i j) (cmp_name i j)

-- `uc_kind_t`
abbrev pub kind_code : UserCmd → ℕ
kind_code (uc_chl_user id score name) = 0
kind_code (uc_battle_act act) = 1
kind_code (uc_sort s) = 2
kind_code uc_quit = 3
kind_code (uc_sendmsg field) = 4
kind_code uc_max = 5

-- `*(uint16_t *)item_userptr(selection)`: the first two bytes of the command are its kind's, on a
-- little-endian host the low ones.
unfoldable pub old_id : UserCmd → ℕ
old_id cmd = kind_code cmd

-- `arg.selection`: the item whose user has the old id.
unfoldable pub selection : Option ℕ → List Item → Option Item
selection none items = none
selection (some id) [] = none
selection (some id) (i ∷ items) =
    let rest = selection (some id) items in
    elim rest [ none ↦ (if i.chl_user_id == id then some i else none) | some j ↦ some j ]

abbrev pub maybe_old_id : Option UserCmd → Option ℕ
maybe_old_id none = none
maybe_old_id (some cmd) = some (old_id cmd)

module _ (qsort : (Item → Item → Ordering) → List Item → List Item) where
  -- The items of the new menu, and the one that is made current; `current` is the command of the item
  -- that was.
  unfoldable pub new_items : Client → Option UserCmd → List Item × Option Item
  unfolding populate cmp_item_for_sort selection old_id
  new_items c current =
      let items = populate c c.user_cnt c.by_id in
      (qsort (cmp_item_for_sort c.sort_by) items, selection (maybe_old_id current) items)
