-- ===== src/Client/Focus/Kept.antt =====
-- What stays true of the menus and the form: which of them is shown as the one with the focus, and that
-- the menus hold commands.
use janken.Base.{
  ℕ, zero, suc, ◌+◌, ◌-◌, ◌%◌, ◌<◌, ◌≡◌, refl, sym, subst, ap, ◌≢◌, ◌∙◌, Bool, true, false, ◌&&◌,
  some, List, [], ◌∷◌, arith, map, ◌==◌, get_elem?,
}
use janken.Client.Input.{UserCmd, focus_cnt}
use janken.Client.Menu.{Item}
use janken.Client.Loop.Sound.{is_command}
use janken.Client.Curses.{Curses, IsCurses}
use janken.Client.Focus.{
  Attr, a_normal, a_reverse, a_bold, f_menu, f_form, Foci, focus, unfocus, at_null, act_items,
  main_acts, battle_acts, at, foci_begin,
}
use janken.Client.Focus.Session.{command_of}

-- Commands that the loop handles.
unfoldable pub are_commands : List UserCmd → Bool
unfolding is_command
are_commands [] = true
are_commands (u ∷ us) = is_command (some u) && are_commands us

pub are_commands-get :
    (us : List UserCmd) (i : ℕ) (u : UserCmd)
    → are_commands us ≡ true
    → get_elem? us i ≡ some u
    → is_command (some u) ≡ true
unfolding are_commands
are_commands-get [] i u h e = cc
are_commands-get (v ∷ us) zero u h e = subst (λ w. is_command w ≡ true) e (ground arith)
are_commands-get (v ∷ us) (suc i) u h e = are_commands-get us i u (ground arith) e

pub are_commands-map : (items : List Item) → are_commands (map command_of items) ≡ true
unfolding are_commands is_command
are_commands-map [] = refl
are_commands-map (i ∷ items) = are_commands-map items

module _ (nc : Curses) (ok : IsCurses nc) where
  -- How a menu's current item is shown.
  abbrev pub look : (focused keep_selection : Bool) → Attr
  look true keep = a_reverse
  look false true = a_bold
  look false false = a_normal

  -- The four, of which one has the focus: its menu is shown in reverse, and the cursor is shown
  -- exactly where it is the form.
  abbrev pub shown_at : (idx : ℕ) → (users acts main : nc.Menu) → nc.Form → Foci nc
  shown_at idx users acts main form = record {
    foci =
        f_menu false true users (look (idx == 0) true)
        ∷ f_form false form
        ∷ f_menu false false acts (look (idx == 2) false)
        ∷ f_menu false false main (look (idx == 3) false)
        ∷ [];
    cursor = idx == 1;
  }

  abbrev pub HoldsCommands : nc.Menu → Type 0
  HoldsCommands menu = are_commands (ok.items menu) ≡ true

  -- The items of the two menus of actions are never none.
  abbrev pub HoldsActions : nc.Menu → Type 0
  HoldsActions menu = HoldsCommands menu × (ok.items menu ≢ [])

  abbrev pub Shown : (idx : ℕ) → Foci nc → Type 0
  Shown idx fs =
      (users : nc.Menu) × (acts : nc.Menu) × (main : nc.Menu) × (form : nc.Form) × (fs
        ≡ shown_at idx users acts main form)
      × HoldsCommands users
      × HoldsActions acts
      × HoldsActions main

  -- The user list has no items, and the library gives UC_MAX for NULL.
  abbrev pub AtNull : Foci nc → Type 0
  AtNull fs =
      (idx : ℕ) × (users : nc.Menu) × (acts : nc.Menu) × (main : nc.Menu) × (form : nc.Form) × (fs
        ≡ shown_at idx users acts main form)
      × (ok.items users ≡ [])
      × (is_command (at_null nc) ≡ false)

  -- A menu of actions, as it is made.
  new_actions :
      (u : UserCmd) (us : List UserCmd)
      → are_commands (u ∷ us) ≡ true
      → HoldsActions (nc.new_menu (u ∷ us))
  new_actions u us h = (
    ap are_commands (ok.items_new (u ∷ us)) ∙ h,
    λ e. some_items (sym (ok.items_new (u ∷ us)) ∙ e),
  )
    where
      some_items : {v : UserCmd} {vs : List UserCmd} → v ∷ vs ≡ [] → ⊥
      some_items e = cc

  pub foci_begin-Shown : Shown 0 (foci_begin nc)
  unfolding foci_begin at focus unfocus act_items is_command are_commands
  foci_begin-Shown = (
    nc.new_menu [],
    nc.new_menu (act_items battle_acts).0,
    nc.new_menu (act_items main_acts).0,
    nc.new_form,
    refl,
    ap are_commands (ok.items_new []),
    new_actions _ _ refl,
    new_actions _ _ refl,
  )

  -- TAB and BTAB.
  pub move-Shown :
      (i : ℕ) (fs : Foci nc)
      → i < 4
      → Shown i fs
      → Shown
          ((i + 1) % focus_cnt)
          (at nc (focus nc) ((i + 1) % focus_cnt) (at nc (unfocus nc) i fs))
        × Shown
            ((i + focus_cnt - 1) % focus_cnt)
            (at nc (focus nc) ((i + focus_cnt - 1) % focus_cnt) (at nc (unfocus nc) i fs))
  unfolding at focus unfocus
  move-Shown i fs h (users, acts, main, form, e, hu, ha, hm) =
      subst
        (λ gs.
          Shown ((i + 1) % focus_cnt)
            (at nc (focus nc) ((i + 1) % focus_cnt) (at nc (unfocus nc) i gs))
          × Shown ((i + focus_cnt - 1) % focus_cnt)
              (at nc (focus nc) ((i + focus_cnt - 1) % focus_cnt) (at nc (unfocus nc) i gs)))
        (sym e) (go i h)
    where
      go :
          (i : ℕ)
          → i < 4
          → Shown ((i + 1) % focus_cnt) (
              at nc
                (focus nc)
                ((i + 1) % focus_cnt)
                (at nc (unfocus nc) i (shown_at i users acts main form)))
            × Shown ((i + focus_cnt - 1) % focus_cnt) (
                at nc
                  (focus nc)
                  ((i + focus_cnt - 1) % focus_cnt)
                  (at nc (unfocus nc) i (shown_at i users acts main form)))
      go zero h =
          ((users, acts, main, _, refl, hu, ha, hm), (users, acts, main, _, refl, hu, ha, hm))
      go (suc zero) h =
          ((users, acts, main, _, refl, hu, ha, hm), (users, acts, main, _, refl, hu, ha, hm))
      go (suc (suc zero)) h =
          ((users, acts, main, _, refl, hu, ha, hm), (users, acts, main, _, refl, hu, ha, hm))
      go (suc (suc (suc zero))) h =
          ((users, acts, main, _, refl, hu, ha, hm), (users, acts, main, _, refl, hu, ha, hm))
      go (suc (suc (suc (suc i)))) h = absurd (omega (arith, h))
