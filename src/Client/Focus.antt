-- ===== src/Client/Focus.antt =====
-- The menus and the form of `ui_main` in client/client.c: `focusable_t`, `focus`, `unfocus` and
-- `focus_handle_key`, and the four of them that `ui_main` makes.
pub mod Session
pub mod Kept
pub mod Given
pub mod Index
pub mod Null
pub mod Sound
use Prim.Native.String.{String}
use janken.Base.{
  ℕ, zero, suc, ◌+◌, ◌-◌, ◌%◌, Bool, true, false, ◌||◌, Option, none, some, List, [], ◌∷◌, ◌++◌,
  map, ◌==◌, if◌then◌else◌, get_elem?, set, Ordering,
}
use janken.Message.Action
use janken.Client.{
  Client, Flow, goes, leaves, crash, WaitingFor, w_none, w_cancel, w_accept, by_name, by_score,
}
use janken.Client.Receive.{UiMsg, receive}
use janken.Client.Input.{
  UserCmd, uc_chl_user, uc_battle_act, uc_sort, uc_quit, uc_sendmsg, uc_max, isspace, focus_cnt,
  handle_key,
}
use janken.Client.Login.{is_bksp}
use janken.Client.Menu.{Item, new_items}
use janken.Client.Loop.{redraw}
use janken.Client.Curses.{Curses}
use janken.Server.Battle.{b_rock, b_paper, b_scissors}

-- The attribute that shows a menu's current item (A_NORMAL, A_REVERSE, A_BOLD).
pub data Attr : Type 0 where
  a_normal a_reverse a_bold : Attr

-- The items of `main_menu` and of `battle_act_menu`: an item is made of each name and gets the user
-- pointer of its action. `new_item` on the NULL that ends the names gives NULL, whose user pointer is
-- set all the same. Returned are the items up to NULL, and what was set for NULL.
unfoldable pub act_items : List (Option String × UserCmd) → List UserCmd × List UserCmd
act_items [] = ([], [])
act_items ((name, action) ∷ acts) =
    let (items, nulls) = act_items acts in
    elim name [ none ↦ ([], action ∷ nulls) | some s ↦ (action ∷ items, nulls) ]

-- `main_act_names` with `main_menu_actions`,
abbrev pub main_acts : List (Option String × UserCmd)
main_acts =
    (some "Sort By Name", uc_sort by_name)
    ∷ (some "Sort By Score", uc_sort by_score)
    ∷ (some "Quit", uc_quit)
    ∷ (none, uc_max)
    ∷ []

-- and `battle_act_names` with `battle_act_actions`.
abbrev pub battle_acts : List (Option String × UserCmd)
battle_acts =
    (some "Rock", uc_battle_act b_rock)
    ∷ (some "Paper", uc_battle_act b_paper)
    ∷ (some "Scissors", uc_battle_act b_scissors)
    ∷ (none, uc_max)
    ∷ []

module _ (nc : Curses) where
  -- `focusable_t`, with the attribute that was last set for a menu by `set_menu_fore`; what is set by
  -- `set_menu_back` is always A_NORMAL.
  pub data Focusable : Type 0 where
    f_menu : (hidden keep_selection : Bool) → nc.Menu → (fore : Attr) → Focusable
    f_form : (hidden : Bool) → nc.Form → Focusable

  -- `foci`, and whether the cursor is shown. `ui_main` reaches each menu, and the form, through `foci`
  -- and through a variable of its own: here it is kept in `foci` alone.
  pub record Foci : Type 0 where
    pub foci : List Focusable
    pub cursor : Bool

  -- With the cursor that is left.
  unfoldable pub focus : Focusable → (cursor : Bool) → Focusable × Bool
  focus (f_menu hidden keep menu fore) cursor =
      (f_menu hidden keep menu (if hidden then fore else a_reverse), cursor)
  focus (f_form hidden form) cursor =
      if hidden
      then (f_form hidden form, cursor)
      else (f_form hidden (nc.form_driver form nc.req_first_field), true)

  unfoldable pub unfocus : Focusable → (cursor : Bool) → Focusable × Bool
  unfocus (f_menu hidden keep menu fore) cursor =
      (f_menu hidden keep menu (if hidden then fore else if keep then a_bold else a_normal), cursor)
  unfocus (f_form hidden form) cursor = (f_form hidden form, if hidden then cursor else false)

  abbrev pub menu_request : (key : ℕ) → Option ℕ
  menu_request key =
      if key == nc.keys.down
      then some nc.req_down_item
      else if key == nc.keys.up
      then some nc.req_up_item
      else if key == nc.keys.left
      then some nc.req_left_item
      else if key == nc.keys.right
      then some nc.req_right_item
      else none

  abbrev pub form_request : (key : ℕ) → Option ℕ
  form_request key =
      if key == nc.keys.down
      then some nc.req_beg_line
      else if key == nc.keys.up
      then some nc.req_end_line
      else if key == nc.keys.left
      then some nc.req_left_char
      else if key == nc.keys.right
      then some nc.req_right_char
      else if key == nc.key_dc
      then some nc.req_del_char
      else if is_bksp nc.keys key
      then some nc.req_del_prev
      else if nc.ispunct key || nc.isalnum key || isspace key
      then some key
      else none

  -- `item_userptr(NULL)` in the loop of `ui_main`.
  abbrev pub at_null : Option UserCmd
  at_null = nc.null_userptr ((act_items main_acts).1 ++ (act_items battle_acts).1)

  unfoldable pub focus_handle_key : Focusable → (key : ℕ) → Focusable × Option UserCmd
  focus_handle_key (f_menu hidden keep menu fore) key =
      if key == 10
      then (
        f_menu hidden keep menu fore,
        elim (nc.current_item menu) [ none ↦ at_null | some u ↦ some u ],
      )
      else elim (menu_request key) [
        | none ↦ (f_menu hidden keep menu fore, none)
        | some r ↦ (f_menu hidden keep (nc.menu_driver menu r) fore, none)
      ]
  focus_handle_key (f_form hidden form) key =
      if key == 10
      then (
        f_form hidden form,
        some (uc_sendmsg (nc.field_buffer (nc.form_driver form nc.req_validation))),
      )
      else elim (form_request key) [
        | none ↦ (f_form hidden form, none)
        | some r ↦ (f_form hidden (nc.form_driver form r), none)
      ]

  -- A function on `foci + i`.
  unfoldable pub at : (Focusable → Bool → Focusable × Bool) → ℕ → Foci → Foci
  at f i fs = elim (get_elem? fs.foci i) [
    | none ↦ fs
    | some foc ↦ record { foci = set fs.foci i (f foc fs.cursor).0; cursor = (f foc fs.cursor).1 }
  ]

  -- `foci` as it is made, and the loop after it.
  abbrev pub made_foci : Foci
  made_foci = record {
    foci =
        f_menu false true (nc.new_menu []) a_normal
        ∷ f_form false nc.new_form
        ∷ f_menu false false (nc.new_menu (act_items battle_acts).0) a_normal
        ∷ f_menu false false (nc.new_menu (act_items main_acts).0) a_normal
        ∷ [];
    cursor = false;
  }

  unfoldable pub foci_begin : Foci
  unfolding at focus unfocus
  foci_begin = at unfocus 3 (at unfocus 2 (at unfocus 1 (at focus 0 made_foci)))
