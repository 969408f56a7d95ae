-- ===== src/Client/Screens.antt =====
-- `ui` of client/client.c: which screen follows which.
pub mod Forever
use janken.Base.{ℕ, zero, suc, Option, none, some}

-- `ui_state_t`
pub data UiState : Type 0 where
  at_init at_login at_main at_exit : UiState

-- What the function of each screen returns (each has one `return`);
-- `none` where the loop is left.
unfoldable pub next_state : UiState → Option UiState
next_state at_init = some at_login
next_state at_login = some at_main
next_state at_main = some at_init
next_state at_exit = none

-- The loop of `ui` after that many screens; `none` where it was left.
unfoldable pub ui : ℕ → UiState → Option UiState
unfolding next_state
ui zero state = some state
ui (suc n) state = elim (next_state state) [ none ↦ none | some state' ↦ ui n state' ]
