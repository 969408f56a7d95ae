-- ===== src/Message/Error.antt =====
-- `msg_strerror` of lib/messages.c.
use Prim.Native.String.{String}
use janken.Base.{ℕ, none, some, List, [], ◌∷◌, leb, if◌then◌else◌, get_elem?}

unfoldable pub msg_err_desc : List String
msg_err_desc =
    "OK" ∷ "Duplicate nickname" ∷ "Non-existence nickname" ∷ "Illegal nickname" ∷ "Non-existent ID"
    ∷ "Incorrect key" ∷ "Non-existent challenge ID" ∷ "Too many users online"
    ∷ "Joining twice on the same client" ∷ "User is engaged in another battle"
    ∷ "Challenging onself" ∷ "Invalid argument" ∷ "Challenge is rejected"
    ∷ "Challenge has been cancelled" ∷ "Other errors" ∷ []

-- `msg_err_desc[i]`; a read out of bounds is "".
abbrev pub desc_at : ℕ → String
desc_at i = elim (get_elem? msg_err_desc i) [ none ↦ "" | some s ↦ s ]

unfoldable pub msg_strerror : ℕ → String
unfolding msg_err_desc
msg_strerror err = if leb err 14 then desc_at err else desc_at 14
