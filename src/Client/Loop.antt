-- ===== src/Client/Loop.antt =====
-- The loop of `ui_main`: in each round the messages that are there, the redrawing of what has changed,
-- and the keys that were pressed.
pub mod Sound
pub mod Rounds
use janken.Base.{ℕ, false, Option, List, [], ◌∷◌}
use janken.Client.{Client, GameState, Flow, goes, leaves, crash, ◌>>=◌}
use janken.Client.Receive.{UiMsg, receive}
use janken.Client.Input.{UserCmd, handle_key, send_quit}

-- A key with the command that the focused menu or form gives for it.
abbrev pub Key : Type 0
Key = ℕ × Option UserCmd

-- `wgetch` until there is none.
unfoldable pub handle_keys : (btab : ℕ) → List Key → Client → Flow
unfolding handle_key ◌>>=◌
handle_keys btab [] c = goes c
handle_keys btab ((key, cmd) ∷ ks) c = handle_key btab key cmd c >>= handle_keys btab ks

-- The list and the two users' states are drawn where they have changed.
abbrev pub redraw : Client → Client
redraw c = record c { list_updated = false; state_updated = false }

unfoldable pub round : (btab : ℕ) → List UiMsg → List Key → Client → Flow
unfolding receive handle_keys ◌>>=◌
round btab ums ks c = receive ums c >>= λ c1. handle_keys btab ks (redraw c1)

unfoldable pub rounds : (btab : ℕ) → List (List UiMsg × List Key) → Client → Flow
unfolding round ◌>>=◌
rounds btab [] c = goes c
rounds btab ((ums, ks) ∷ rs) c = round btab ums ks c >>= rounds btab rs

-- `done`
unfoldable pub ui_main_end : Flow → Flow
unfolding send_quit
ui_main_end (goes c) = goes c
ui_main_end (leaves c) = leaves (send_quit c)
ui_main_end crash = crash
