-- ===== src/Client/Focus/Sound.antt =====
-- `ui_main` with its menus and its form, from its beginning to its end.
use janken.Base.{◌<◌}
use janken.Client.{Client, Flow, goes, leaves, crash}
use janken.Client.Users.{Inv}
use janken.Client.Curses.{Curses, IsCurses}
use janken.Client.Focus.{Foci}
use janken.Client.Focus.Kept.{Shown, AtNull}

module _ (nc : Curses) (ok : IsCurses nc) where
  -- While the loop goes on: the user list is sound, one of the four has the focus, and that one is
  -- shown as having it.
  abbrev pub Screened : Foci nc × Flow → Type 0
  Screened (fs, goes c) = Inv c × (c.focus_idx < 4) × Shown nc ok c.focus_idx fs
  Screened (fs, leaves c) = Unit
  Screened (fs, crash) = AtNull nc ok fs
