-- ===== src/Client/Focus/Session.antt =====
-- The loop of `ui_main` with its menus and its form: the commands are those that the keys give.
use janken.Base.{
  ℕ, ◌+◌, ◌-◌, ◌%◌, Bool, Option, none, some, List, [], ◌∷◌, map, ◌==◌, if◌then◌else◌, get_elem?,
  set, Ordering,
}
use janken.Message.{MsgJoinR}
use janken.Client.{
  Ptr, UserInfo, GameState, Client, Flow, goes, leaves, crash, WaitingFor, w_none, w_cancel,
  w_accept, ui_main_begin,
}
use janken.Client.Receive.{UiMsg, receive}
use janken.Client.Input.{
  UserCmd, uc_chl_user, uc_battle_act, uc_sort, uc_quit, uc_sendmsg, uc_max, focus_cnt, handle_key,
}
use janken.Client.Menu.{Item, new_items}
use janken.Client.Loop.{redraw, ui_main_end}
use janken.Client.Curses.{Curses}
use janken.Client.Focus.{
  Focusable, f_menu, f_form, Foci, focus, unfocus, focus_handle_key, at, foci_begin,
}

-- The command of an item of the user list.
abbrev pub command_of : Item → UserCmd
command_of i = uc_chl_user i.chl_user_id i.chl_score i.chl_user_name

module _ (nc : Curses) where
  -- What UC_SENDMSG does with `chat_input` around the sending.
  abbrev pub clear_field : Focusable nc → (cursor : Bool) → Focusable nc × Bool
  clear_field (f_menu hidden keep menu fore) cursor = (f_menu hidden keep menu fore, cursor)
  clear_field (f_form hidden form) cursor = (
    f_form hidden (nc.form_driver (nc.form_driver form nc.req_validation) nc.req_clr_field),
    cursor,
  )

  abbrev pub clear_input : Option UserCmd → Foci nc → Foci nc
  clear_input (some (uc_sendmsg field)) fs = at nc clear_field 1 fs
  clear_input (some (uc_chl_user id score name)) fs = fs
  clear_input (some (uc_battle_act act)) fs = fs
  clear_input (some (uc_sort s)) fs = fs
  clear_input (some uc_quit) fs = fs
  clear_input (some uc_max) fs = fs
  clear_input none fs = fs

  -- `focus_handle_key(foci + focus_idx, c)` and what its command does to the form.
  unfoldable pub command_key : (idx key : ℕ) → Foci nc → Foci nc × Option UserCmd
  unfolding focus_handle_key at
  command_key idx key fs = elim (get_elem? fs.foci idx) [
    | none ↦ (fs, none)
    | some foc ↦
        let (foc', cmd) = focus_handle_key nc foc key in
        (clear_input cmd (record fs { foci = set fs.foci idx foc' }), cmd)
  ]

  -- A key while the user is free, with the command that it gives.
  unfoldable pub key_on_foci : (idx key : ℕ) → Foci nc → Foci nc × Option UserCmd
  unfolding command_key at focus unfocus
  key_on_foci idx key fs =
      if key == 9
      then (at nc (focus nc) ((idx + 1) % focus_cnt) (at nc (unfocus nc) idx fs), none)
      else if key == nc.key_btab
      then (at nc (focus nc) ((idx + focus_cnt - 1) % focus_cnt) (at nc (unfocus nc) idx fs), none)
      else command_key idx key fs

  unfoldable pub key_if_free : WaitingFor → (idx key : ℕ) → Foci nc → Foci nc × Option UserCmd
  unfolding key_on_foci
  key_if_free w_none idx key fs = key_on_foci idx key fs
  key_if_free w_cancel idx key fs = (fs, none)
  key_if_free w_accept idx key fs = (fs, none)

  -- One key.
  unfoldable pub press : (key : ℕ) → Foci nc → Client → Foci nc × Flow
  unfolding key_if_free handle_key
  press key fs c =
      let (fs', cmd) = key_if_free c.waiting_for c.focus_idx key fs in
      (fs', handle_key nc.key_btab key cmd c)

  unfoldable pub and_then : Foci nc × Flow → (Foci nc → Client → Foci nc × Flow) → Foci nc × Flow
  and_then (fs, goes c) k = k fs c
  and_then (fs, leaves c) k = (fs, leaves c)
  and_then (fs, crash) k = (fs, crash)

  unfoldable pub presses : (keys : List ℕ) → Foci nc → Client → Foci nc × Flow
  unfolding press and_then
  presses [] fs c = (fs, goes c)
  presses (key ∷ keys) fs c = and_then (press key fs c) (presses keys)

  module _ (qsort : (Item → Item → Ordering) → List Item → List Item) where
    abbrev pub new_menu_of : Client → nc.Menu → nc.Menu
    new_menu_of c menu =
        let (items, chosen) = new_items qsort c (nc.current_item menu) in
        let shown = nc.set_menu_items menu (map command_of items) in
        elim chosen [ none ↦ shown | some i ↦ nc.set_current_item shown (command_of i) ]

    abbrev pub new_list : Client → Focusable nc → (cursor : Bool) → Focusable nc × Bool
    new_list c (f_menu hidden keep menu fore) cursor =
        (f_menu hidden keep (new_menu_of c menu) fore, cursor)
    new_list c (f_form hidden form) cursor = (f_form hidden form, cursor)

    -- The redrawing of `user_list_menu`, the menu of `foci[0]`.
    unfoldable pub redraw_list : Client → Foci nc → Foci nc
    unfolding at
    redraw_list c fs = if c.list_updated then at nc (new_list c) 0 fs else fs

    unfoldable pub screen_round : List UiMsg → (keys : List ℕ) → Foci nc → Client → Foci nc × Flow
    unfolding receive and_then presses redraw_list
    screen_round ums keys fs c =
        and_then (fs, receive ums c) λ fs1 c1. presses keys (redraw_list c1 fs1) (redraw c1)

    unfoldable pub screen_rounds : List (List UiMsg × List ℕ) → Foci nc → Client → Foci nc × Flow
    unfolding screen_round and_then
    screen_rounds [] fs c = (fs, goes c)
    screen_rounds ((ums, keys) ∷ rs) fs c = and_then (screen_round ums keys fs c) (screen_rounds rs)

    -- `ui_main` from the making of its menus to its end.
    unfoldable pub ui_main :
        GameState → (Ptr → UserInfo) → MsgJoinR → List (List UiMsg × List ℕ) → Foci nc × Flow
    unfolding screen_rounds foci_begin ui_main_begin ui_main_end
    ui_main memory users m rs =
        let (fs, f) = screen_rounds rs (foci_begin nc) (ui_main_begin memory users m) in
        (fs, ui_main_end f)
