-- ===== src/Client/Screens/Forever.antt =====
-- The loop over the screens does not end.
use janken.Base.{ℕ, zero, suc, ◌≡◌, ◌≢◌, refl, Option, none, some}
use janken.Client.Screens.{UiState, at_init, at_login, at_main, at_exit, next_state, ui}

-- A screen of the three.
abbrev Shows : Option UiState → Type 0
Shows none = ⊥
Shows (some at_exit) = ⊥
Shows (some at_init) = Unit
Shows (some at_login) = Unit
Shows (some at_main) = Unit

shows : (n : ℕ) (s : UiState) → Shows (some s) → Shows (ui n s)
unfolding ui next_state
shows zero s h = h
shows (suc n) at_init h = shows n at_login tt
shows (suc n) at_login h = shows n at_main tt
shows (suc n) at_main h = shows n at_init tt
shows (suc n) at_exit h = elim h [ ]

-- From its beginning the loop of `ui` is never left, and never at UI_EXIT: after any number of screens
-- there is a next one.
pub ui_continues : (n : ℕ) → (s : UiState) × (ui n at_init ≡ some s) × (s ≢ at_exit)
ui_continues n = found (ui n at_init) (shows n at_init tt)
  where
    found : (r : Option UiState) → Shows r → (s : UiState) × (r ≡ some s) × (s ≢ at_exit)
    found none h = elim h [ ]
    found (some at_init) h = (at_init, refl, λ e. cc)
    found (some at_login) h = (at_login, refl, λ e. cc)
    found (some at_main) h = (at_main, refl, λ e. cc)
    found (some at_exit) h = elim h [ ]
