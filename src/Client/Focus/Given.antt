-- ===== src/Client/Focus/Given.antt =====
-- What the keys give: commands that the loop handles, or what the library gives for NULL where the user
-- list has no items, with the menus and the form kept as they were shown.
use janken.Base.{
  ℕ, zero, suc, ◌<◌, ◌≡◌, refl, sym, subst, ◌∙◌, ap, Bool, true, false, Option, none, some, List,
  [], ◌∷◌, ◌⊎◌, inl, inr, Bool-cases, arith, ◌==◌, if_cases,
}
use janken.Client.Input.{UserCmd, uc_chl_user, uc_battle_act, uc_sort, uc_quit, uc_sendmsg, uc_max}
use janken.Client.Loop.Sound.{is_command}
use janken.Client.Curses.{Curses, IsCurses}
use janken.Client.Focus.{
  Attr, a_reverse, Focusable, f_menu, f_form, Foci, at_null, focus_handle_key, menu_request,
  form_request, at,
}
use janken.Client.Focus.Kept.{
  are_commands, are_commands-get, look, shown_at, HoldsCommands, HoldsActions, Shown, AtNull,
}
use janken.Client.Focus.Session.{clear_field, clear_input, command_key}

module _ (nc : Curses) (ok : IsCurses nc) where
  -- A command that the loop handles, or the one at NULL, of a menu without items.
  abbrev Handled : List UserCmd → Option UserCmd → Type 0
  Handled us cmd =
      (is_command cmd ≡ true) ⊎ (is_command cmd ≡ false) × (cmd ≡ at_null nc) × (us ≡ [])

  -- What a key gives at a menu: the menu with its items, and such a command.
  abbrev Gives :
      (us : List UserCmd) (hidden keep : Bool) (fore : Attr)
      → Focusable nc × Option UserCmd
      → Type 0
  Gives us hidden keep fore (foc, cmd) =
      (menu : nc.Menu) × (foc ≡ f_menu hidden keep menu fore)
      × (ok.items menu ≡ us)
      × Handled us cmd

  menu_key :
      (hidden keep : Bool) (menu : nc.Menu) (fore : Attr) (key : ℕ)
      → HoldsCommands nc ok menu
      → Gives
          (ok.items menu)
          hidden
          keep
          fore
          (focus_handle_key nc (f_menu hidden keep menu fore) key)
  unfolding focus_handle_key is_command
  menu_key hidden keep menu fore key hm =
      if_cases (Gives (ok.items menu) hidden keep fore) (key == 10)
        (λ e. (menu, refl, refl, selected (nc.current_item menu) refl))
        (λ e. driven (menu_request nc key))
    where
      selected :
          (o : Option UserCmd)
          → nc.current_item menu ≡ o
          → Handled (ok.items menu) (elim o [ none ↦ at_null nc | some u ↦ some u ])
      selected none e = elim (Bool-cases (is_command (at_null nc))) [
        | inl h ↦ inl h
        | inr h ↦ inr (h, refl, ok.current_none menu e)
      ]
      selected (some u) e =
          inl
            (are_commands-get (ok.items menu) (ok.current menu u e).0 u hm (ok.current menu u e).1)

      driven :
          (o : Option ℕ)
          → Gives (ok.items menu) hidden keep fore (elim o [
            | none ↦ (f_menu hidden keep menu fore, none)
            | some r ↦ (f_menu hidden keep (nc.menu_driver menu r) fore, none)
          ])
      driven none = (menu, refl, refl, inl refl)
      driven (some r) = (nc.menu_driver menu r, refl, ok.items_driver menu r, inl refl)

  -- At a menu of actions the command is one that the loop handles.
  action_key :
      (menu : nc.Menu) (key : ℕ)
      → HoldsActions nc ok menu
      → (menu' : nc.Menu) × ((focus_handle_key nc (f_menu false false menu a_reverse) key).0
          ≡ f_menu false false menu' a_reverse)
        × HoldsActions nc ok menu'
        × (is_command (focus_handle_key nc (f_menu false false menu a_reverse) key).1 ≡ true)
  action_key menu key (hm, some_items) =
      let (menu', e, same, hc) = menu_key false false menu a_reverse key hm in
      (menu', e, (ap are_commands same ∙ hm, λ d. some_items (sym same ∙ d)), handled hc)
    where
      handled : {cmd : Option UserCmd} → Handled (ok.items menu) cmd → is_command cmd ≡ true
      handled (inl h) = h
      handled (inr (h, e, d)) = absurd (some_items d)

  abbrev FormGives : Focusable nc × Option UserCmd → Type 0
  FormGives (foc, cmd) = (form : nc.Form) × (foc ≡ f_form false form) × (is_command cmd ≡ true)

  form_key : (form : nc.Form) (key : ℕ) → FormGives (focus_handle_key nc (f_form false form) key)
  unfolding focus_handle_key is_command
  form_key form key =
      if_cases FormGives (key == 10) (λ e. (form, refl, refl)) (λ e. driven (form_request nc key))
    where
      driven :
          (o : Option ℕ)
          → FormGives (elim o [
            | none ↦ (f_form false form, none)
            | some r ↦ (f_form false (nc.form_driver form r), none)
          ])
      driven none = (form, refl, refl)
      driven (some r) = (nc.form_driver form r, refl, refl)

  clear_input-Shown :
      (idx : ℕ) (cmd : Option UserCmd) (fs : Foci nc)
      → Shown nc ok idx fs
      → Shown nc ok idx (clear_input nc cmd fs)
  unfolding at
  clear_input-Shown idx (some (uc_sendmsg field)) fs (users, acts, main, form, e, hu, ha, hm) =
      (users, acts, main, _, ap (at nc (clear_field nc) 1) e, hu, ha, hm)
  clear_input-Shown idx (some (uc_chl_user id score name)) fs h = h
  clear_input-Shown idx (some (uc_battle_act act)) fs h = h
  clear_input-Shown idx (some (uc_sort s)) fs h = h
  clear_input-Shown idx (some uc_quit) fs h = h
  clear_input-Shown idx (some uc_max) fs h = h
  clear_input-Shown idx none fs h = h

  -- Where the focus stays at `idx`, and no key gives UC_MAX but at NULL.
  abbrev pub Kept : (idx : ℕ) → Foci nc × Option UserCmd → Type 0
  Kept idx (fs, cmd) =
      Shown nc ok idx fs × ((is_command cmd ≡ true) ⊎ (is_command cmd ≡ false) × AtNull nc ok fs)

  placed :
      (i : ℕ) (f : Focusable nc → Foci nc) (foc foc' : Focusable nc) (cmd : Option UserCmd)
      → foc ≡ foc'
      → Shown nc ok i (f foc')
      → is_command cmd ≡ true
      → Kept i (clear_input nc cmd (f foc), cmd)
  placed i f foc foc' cmd e h hc =
      (clear_input-Shown i cmd (f foc) (subst (λ x. Shown nc ok i (f x)) (sym e) h), inl hc)

  clear_input-max :
      (cmd : Option UserCmd) (fs : Foci nc) → is_command cmd ≡ false → clear_input nc cmd fs ≡ fs
  unfolding is_command
  clear_input-max (some (uc_sendmsg field)) fs h = cc
  clear_input-max (some (uc_chl_user id score name)) fs h = refl
  clear_input-max (some (uc_battle_act act)) fs h = refl
  clear_input-max (some (uc_sort s)) fs h = refl
  clear_input-max (some uc_quit) fs h = refl
  clear_input-max (some uc_max) fs h = refl
  clear_input-max none fs h = refl

  pub command_key-Kept :
      (i key : ℕ) (fs : Foci nc) → i < 4 → Shown nc ok i fs → Kept i (command_key nc i key fs)
  unfolding command_key
  command_key-Kept i key fs h (users, acts, main, form, e, hu, ha, hm) =
      subst (λ gs. Kept i (command_key nc i key gs)) (sym e) (go i h)
    where
      four : Focusable nc → Focusable nc → Focusable nc → Focusable nc → Bool → Foci nc
      four a b c d cursor = record { foci = a ∷ b ∷ c ∷ d ∷ []; cursor = cursor }

      menu_of : Bool → nc.Menu → Focusable nc
      menu_of keep menu = f_menu false keep menu (look nc ok false keep)

      listed : Focusable nc → Foci nc
      listed foc = four foc (f_form false form) (menu_of false acts) (menu_of false main) false

      at_list :
          (foc : Focusable nc) (cmd : Option UserCmd)
          → Gives (ok.items users) false true a_reverse (foc, cmd)
          → Kept 0 (clear_input nc cmd (listed foc), cmd)
      at_list foc cmd (menu, e, same, inl hc) =
          placed 0 listed foc _ cmd e
            (menu, acts, main, form, refl, ap are_commands same ∙ hu, ha, hm) hc
      at_list foc cmd (menu, e, same, inr (hc, given, empty)) = (
        clear_input-Shown 0 cmd (listed foc)
            (menu, acts, main, form, ap listed e, ap are_commands same ∙ hu, ha, hm),
        inr (
          hc,
          (
            0,
            menu,
            acts,
            main,
            form,
            clear_input-max cmd (listed foc) hc ∙ ap listed e,
            same ∙ empty,
            ap is_command (sym given) ∙ hc,
          ),
        ),
      )

      go : (i : ℕ) → i < 4 → Kept i (command_key nc i key (shown_at nc ok i users acts main form))
      go zero h = at_list _ _ (menu_key false true users a_reverse key hu)
      go (suc zero) h =
          let (f, e, hc) = form_key form key in
          placed 1
            (λ foc. four (menu_of true users) foc (menu_of false acts) (menu_of false main) true) _
            _ _ e (users, acts, main, f, refl, hu, ha, hm) hc
      go (suc (suc zero)) h =
          let (menu, e, k, hc) = action_key acts key ha in
          placed 2
            (λ foc. four (menu_of true users) (f_form false form) foc (menu_of false main) false) _
            _ _ e (users, menu, main, form, refl, hu, k, hm) hc
      go (suc (suc (suc zero))) h =
          let (menu, e, k, hc) = action_key main key hm in
          placed 3
            (λ foc. four (menu_of true users) (f_form false form) (menu_of false acts) foc false) _
            _ _ e (users, acts, menu, form, refl, hu, ha, k) hc
      go (suc (suc (suc (suc i)))) h = absurd (omega (arith, h))
