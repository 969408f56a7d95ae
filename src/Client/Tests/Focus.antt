-- ===== src/Client/Tests/Focus.antt =====
-- The screen of `ui_main` with plain menus in place of ncurses'.
use janken.Base.{
  ℕ, ◌+◌, ◌-◌, ◌≡◌, ◌≢◌, ◌∙◌, refl, Bool, true, false, Option, none, some, List, [], ◌∷◌, ◌++◌,
  arith, ◌==◌, leb, ◌&&◌, get_elem?, if◌then◌else◌,
}
use janken.Message.{init_msg_buf, uchange}
use janken.Client.{crash}
use janken.Client.Receive.{UiMsg, um_recv}
use janken.Client.Input.{UserCmd}
use janken.Client.Curses.{Curses, IsCurses}
use janken.Client.Focus.Session.{ui_main}
use janken.Client.Focus.Null.{ui_main_crashes}
use janken.Client.Tests.{memory, blank, ann_joins, both_online, sort}

-- `item_userptr(NULL)` where the library keeps the last user pointer.
abbrev last_pointer : List UserCmd → Option UserCmd
last_pointer [] = none
last_pointer (u ∷ []) = some u
last_pointer (u ∷ v ∷ us) = last_pointer (v ∷ us)

abbrev is_none : List UserCmd → Bool
is_none [] = true
is_none (u ∷ us) = false

-- Past the end the current item is the first one.
abbrev or_first : Option UserCmd → List UserCmd → Option UserCmd
or_first (some u) us = some u
or_first none [] = none
or_first none (u ∷ us) = some u

-- A menu is its items and the index of the current one; a form is its text.
abbrev plain : (List UserCmd → Option UserCmd) → Curses
plain null_userptr = record {
  Menu = List UserCmd × ℕ;
  Form = List ℕ;
  new_menu = λ us. (us, 0);
  set_menu_items = λ menu us. if is_none us then menu else (us, 0);
  set_current_item = λ menu u. menu;
  current_item = λ menu. or_first (get_elem? menu.0 menu.1) menu.0;
  menu_driver =
      λ menu r. (menu.0, if r == 512 then menu.1 + 1 else if r == 513 then menu.1 - 1 else menu.1);
  null_userptr = null_userptr;
  new_form = [];
  form_driver = λ form r. if r == 525 then [] else if leb 512 r then form else form ++ r ∷ [];
  field_buffer = λ form. form;
  keys = record { backspace = 263; down = 258; up = 259; left = 260; right = 261 };
  key_dc = 330;
  key_btab = 353;
  req_down_item = 512;
  req_up_item = 513;
  req_left_item = 514;
  req_right_item = 515;
  req_first_field = 516;
  req_beg_line = 517;
  req_end_line = 518;
  req_left_char = 519;
  req_right_char = 520;
  req_del_char = 521;
  req_del_prev = 522;
  req_validation = 524;
  req_clr_field = 525;
  ispunct = λ c. c == b'!';
  isalnum = λ c. leb b'a' c && leb c b'z';
}

or_first-none : (o : Option UserCmd) (us : List UserCmd) → or_first o us ≡ none → us ≡ []
or_first-none (some u) us e = cc
or_first-none none [] e = refl
or_first-none none (u ∷ us) e = cc

or_first-some :
    (o : Option UserCmd) (us : List UserCmd) (i : ℕ) (u : UserCmd)
    → get_elem? us i ≡ o
    → or_first o us ≡ some u
    → (j : ℕ) × (get_elem? us j ≡ some u)
or_first-some (some v) us i u h e = (i, h ∙ e)
or_first-some none [] i u h e = cc
or_first-some none (v ∷ us) i u h e = (0, e)

plain-IsCurses : (null_userptr : List UserCmd → Option UserCmd) → IsCurses (plain null_userptr)
plain-IsCurses null_userptr = record {
  items = λ menu. menu.0;
  items_new = λ us. refl;
  items_set = λ menu u us. refl;
  items_set_none = λ menu. refl;
  items_current = λ menu u. refl;
  items_driver = λ menu r. refl;
  current = λ menu u e. or_first-some (get_elem? menu.0 menu.1) menu.0 menu.1 u refl e;
  current_none = λ menu e. or_first-none (get_elem? menu.0 menu.1) menu.0 e;
}

-- The user list comes; the second user is challenged; TAB, and a message.
abbrev typed : List (List UiMsg × List ℕ)
typed =
    (um_recv (init_msg_buf (uchange both_online)) ∷ [], 258 ∷ 10 ∷ b'x' ∷ [])
    ∷ ([], 9 ∷ b'h' ∷ b'i' ∷ 10 ∷ 353 ∷ [])
    ∷ []

last_pointer_append : (us : List UserCmd) (u : UserCmd) → last_pointer (us ++ u ∷ []) ≡ some u
last_pointer_append [] u = refl
last_pointer_append (v ∷ []) u = refl
last_pointer_append (v ∷ w ∷ us) u = last_pointer_append (w ∷ us) u

ten_is_not_btab : ◌≢◌ {A = ℕ} 10 353
ten_is_not_btab = omega arith

ui_main_crashes_example :
    (ui_main (plain last_pointer) sort memory blank ann_joins (([], 10 ∷ b'x' ∷ []) ∷ typed)).1
    ≡ crash
ui_main_crashes_example =
    ui_main_crashes (plain last_pointer) (plain-IsCurses last_pointer) sort memory blank ann_joins
      (b'x' ∷ []) typed last_pointer_append ten_is_not_btab
