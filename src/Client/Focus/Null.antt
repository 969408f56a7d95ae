-- ===== src/Client/Focus/Null.antt =====
-- The user pointer of NULL: the loops that make the items of `main_menu` and `battle_act_menu` set it
-- to their UC_MAX commands.
use janken.Base.{
  ℕ, ◌≡◌, ◌≢◌, refl, subst, Bool, true, false, Option, none, some, List, [], ◌∷◌, ◌++◌, arith, ◌==◌,
  get_elem?, Ordering,
}
use janken.Message.{MsgJoinR}
use janken.Client.{
  Ptr, UserInfo, GameState, Client, Flow, goes, leaves, crash, w_none, ui_main_begin,
}
use janken.Client.Receive.{UiMsg, receive}
use janken.Client.Input.{UserCmd, uc_max, handle_cmd, key_free, key_waiting, handle_key}
use janken.Client.Menu.{Item}
use janken.Client.Loop.{redraw, ui_main_end}
use janken.Client.Curses.{Curses, IsCurses}
use janken.Client.Focus.{
  Attr, a_normal, a_reverse, f_form, Focusable, f_menu, Foci, focus, unfocus, act_items, main_acts,
  battle_acts, at_null, focus_handle_key, at, foci_begin,
}
use janken.Client.Focus.Session.{
  command_key, key_on_foci, key_if_free, press, and_then, presses, redraw_list, screen_round,
  screen_rounds, ui_main,
}

module _ (nc : Curses) (ok : IsCurses nc) where
  no_items : nc.current_item (nc.new_menu []) ≡ none
  no_items = go (nc.current_item (nc.new_menu [])) refl
    where
      go : (o : Option UserCmd) → nc.current_item (nc.new_menu []) ≡ o → o ≡ none
      go none e = refl
      go (some u) e = absurd (
          let (i, h) = ok.current (nc.new_menu []) u e in
          nothing (subst (λ us. get_elem? us i ≡ some u) (ok.items_new []) h))
        where
          nothing : {u : UserCmd} → none ≡ some u → ⊥
          nothing h = cc

  -- Enter at a menu without items, where the user is free.
  press_crashes :
      (c : Client) (fore : Attr) (fs : List (Focusable nc)) (cursor : Bool)
      → c.waiting_for ≡ w_none
      → c.focus_idx ≡ 0
      → nc.current_item (nc.new_menu []) ≡ none
      → at_null nc ≡ some uc_max
      → (10 == nc.key_btab) ≡ false
      → (press nc 10
          (record { foci = f_menu false true (nc.new_menu []) fore ∷ fs; cursor = cursor })
          c).1
        ≡ crash
  unfolding press key_if_free key_on_foci command_key handle_key key_waiting key_free
      focus_handle_key handle_cmd
  press_crashes c fore fs cursor hw hi hc hn hb = rw (hw, hi) (rw hb (rw hc (rw hn refl)))

  -- Where the library keeps the user pointer that was last set for NULL, and BTAB is not Enter: Enter as
  -- the first key, before any packet has come, ends the process at the assertion that no command is
  -- UC_MAX, whatever follows.
  pub ui_main_crashes :
      (qsort : (Item → Item → Ordering) → List Item → List Item) (memory : GameState)
      (users : Ptr → UserInfo) (m : MsgJoinR) (keys : List ℕ) (rs : List (List UiMsg × List ℕ))
      → ((us : List UserCmd) (u : UserCmd) → nc.null_userptr (us ++ u ∷ []) ≡ some u)
      → 10 ≢ nc.key_btab
      → (ui_main nc qsort memory users m (([], 10 ∷ keys) ∷ rs)).1 ≡ crash
  unfolding ui_main screen_rounds screen_round receive and_then ui_main_begin redraw_list foci_begin
      at focus unfocus act_items ui_main_end
  ui_main_crashes qsort memory users m keys rs keeps ne =
      ends (press nc 10 (foci_begin nc) (redraw (ui_main_begin memory users m))) (
        press_crashes (redraw (ui_main_begin memory users m)) a_reverse others false refl refl
          no_items (keeps (uc_max ∷ []) uc_max) (ground (arith, ne)))
    where
      others : List (Focusable nc)
      others =
          f_form false nc.new_form
          ∷ f_menu false false (nc.new_menu (act_items battle_acts).0) a_normal
          ∷ f_menu false false (nc.new_menu (act_items main_acts).0) a_normal
          ∷ []

      ends :
          (r : Foci nc × Flow)
          → r.1 ≡ crash
          → ui_main_end
              (and_then nc (and_then nc r (presses nc keys)) (screen_rounds nc qsort rs)).1
            ≡ crash
      ends (fs, crash) e = refl
      ends (fs, goes c) e = cc
      ends (fs, leaves c) e = cc
