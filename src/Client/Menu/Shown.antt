-- ===== src/Client/Menu/Shown.antt =====
-- What the new menu of users shows, for any `qsort_r` that rearranges its array.
use janken.Base.{List}
use janken.Client.{Ptr, Client}
use janken.Client.Menu.{Item, item_of}

-- The item of the user at an address.
abbrev pub shown : Client → Ptr → Item
shown c p = item_of c.gs.id (c.users p)
