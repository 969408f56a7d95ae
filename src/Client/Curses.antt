-- ===== src/Client/Curses.antt =====
-- What client/client.c uses of ncurses' menu.h and form.h and of ctype.h: a parameter of the model. An
-- item is known by its user pointer, which is the command that it gives.
use janken.Base.{ℕ, ◌≡◌, Bool, Option, none, some, List, [], ◌∷◌, get_elem?}
use janken.Client.Input.{UserCmd}
use janken.Client.Login.{Keys}

pub record Curses : Type 1 where
  pub Menu : Type 0
  pub Form : Type 0
  -- `new_menu` on an array of items up to its NULL
  pub new_menu : List UserCmd → Menu
  pub set_menu_items : Menu → List UserCmd → Menu
  pub set_current_item : Menu → UserCmd → Menu
  -- `item_userptr(current_item(menu))` where there is a current item
  pub current_item : Menu → Option UserCmd
  pub menu_driver : Menu → (request : ℕ) → Menu
  -- `item_userptr(NULL)`, after these calls of `set_item_userptr` on NULL
  pub null_userptr : List UserCmd → Option UserCmd
  pub new_form : Form
  pub form_driver : Form → (request : ℕ) → Form
  pub field_buffer : Form → List ℕ
  pub keys : Keys
  pub key_dc : ℕ
  pub key_btab : ℕ
  pub req_down_item : ℕ
  pub req_up_item : ℕ
  pub req_left_item : ℕ
  pub req_right_item : ℕ
  pub req_first_field : ℕ
  pub req_beg_line : ℕ
  pub req_end_line : ℕ
  pub req_left_char : ℕ
  pub req_right_char : ℕ
  pub req_del_char : ℕ
  pub req_del_prev : ℕ
  pub req_validation : ℕ
  pub req_clr_field : ℕ
  pub ispunct : ℕ → Bool
  pub isalnum : ℕ → Bool

-- What the manual pages say: a menu has the items that it was given, whatever requests it is sent;
-- `set_menu_items` fails with E_BAD_ARGUMENT where there is none, and changes nothing; the current item
-- is one of the menu's, and is NULL only where the menu has none.
pub record IsCurses (nc : Curses) : Type 0 where
  pub items : nc.Menu → List UserCmd
  pub items_new : (us : List UserCmd) → items (nc.new_menu us) ≡ us
  pub items_set :
      (menu : nc.Menu) (u : UserCmd) (us : List UserCmd)
      → items (nc.set_menu_items menu (u ∷ us)) ≡ u ∷ us
  pub items_set_none : (menu : nc.Menu) → items (nc.set_menu_items menu []) ≡ items menu
  pub items_current :
      (menu : nc.Menu) (u : UserCmd) → items (nc.set_current_item menu u) ≡ items menu
  pub items_driver : (menu : nc.Menu) (r : ℕ) → items (nc.menu_driver menu r) ≡ items menu
  pub current :
      (menu : nc.Menu) (u : UserCmd)
      → nc.current_item menu ≡ some u
      → (i : ℕ) × (get_elem? (items menu) i ≡ some u)
  pub current_none : (menu : nc.Menu) → nc.current_item menu ≡ none → items menu ≡ []
