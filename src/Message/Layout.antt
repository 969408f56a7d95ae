-- ===== src/Message/Layout.antt =====
-- The packets as they stand in memory: `message_t` of lib/common.h is packed, its head takes four
-- bytes and its body begins after them. `little` tells the host's byte order; htons, htonl and their
-- inverses reverse the bytes of a number on a little-endian host and do nothing on the other.
pub mod Swap
pub mod Uchange
pub mod Local
pub mod Network
use janken.Base.{
  ℕ, zero, suc, ◌+◌, ◌-◌, ◌*◌, ◌^◌, min, Bool, true, false, ◌&&◌, ◌||◌, Option, none, some, List,
  [], ◌∷◌, leb, ltb, ◌==◌, if◌then◌else◌,
}
use janken.Text.{nickname_len, null_terminated}
use janken.Message.Kind
use janken.Message.{msg_body_size, uchange_max_ucnt, text_len}

-- The bytes of a `message_t`.
abbrev pub Memory : Type 0
Memory = ℕ → ℕ

-- A member: its offset in `message_t` and its size.
abbrev pub Field : Type 0
Field = ℕ × ℕ

unfoldable pub bytes : Memory → (off n : ℕ) → List ℕ
bytes m off zero = []
bytes m off (suc n) = m off ∷ bytes m (off + 1) n

-- A number of two or of four bytes, as the host reads it.
abbrev pub u16_at : Bool → Memory → ℕ → ℕ
u16_at little m off = if little then m off + m (off + 1) * 256 else m (off + 1) + m off * 256

abbrev pub u32_at : Bool → Memory → ℕ → ℕ
u32_at little m off =
    if little
    then m off + m (off + 1) * 256 + m (off + 2) * 65536 + m (off + 3) * 16777216
    else m (off + 3) + m (off + 2) * 256 + m (off + 1) * 65536 + m off * 16777216

-- The macro `conv`, in both directions.
unfoldable pub conv : Bool → Field → Memory → Memory
conv little (off, size) m i =
    if little && leb off i && ltb i (off + size) then m (off + off + size - 1 - i) else m i

unfoldable pub convs : Bool → List Field → Memory → Memory
unfolding conv
convs little [] m = m
convs little (f ∷ fs) m = convs little fs (conv little f m)

abbrev pub head_fields : List Field
head_fields = (0, 2) ∷ (2, 2) ∷ []

-- `msg_head_conv`
unfoldable pub msg_head_conv : Bool → Memory → Memory
unfolding convs
msg_head_conv little m = convs little head_fields m

-- The members that `msg_body_conv` converts, in its order, without those of UCHANGE.
unfoldable pub body_fields : (kind : ℕ) → Option (List Field)
body_fields kind =
    if kind == Kind.join
    then some []
    else if kind == Kind.join_r
    then some ((36, 2) ∷ (38, 2) ∷ (40, 4) ∷ [])
    else if kind == Kind.quit
    then some ((8, 2) ∷ (4, 4) ∷ [])
    else if kind == Kind.challenge
    then some ((4, 2) ∷ (6, 2) ∷ (8, 4) ∷ (12, 2) ∷ (14, 2) ∷ [])
    else if kind == Kind.challenge_r
    then some ((4, 2) ∷ (6, 2) ∷ (8, 2) ∷ (10, 2) ∷ (12, 1) ∷ [])
    else if kind == Kind.turn
    then some ((4, 2) ∷ (6, 2) ∷ (8, 4) ∷ (12, 2) ∷ (14, 2) ∷ [])
    else if kind == Kind.turn_r
    then some (
        (4, 2)
        ∷ (6, 2)
        ∷ (8, 2)
        ∷ (10, 2)
        ∷ (14, 4)
        ∷ (18, 4)
        ∷ (22, 4)
        ∷ (26, 4)
        ∷ (30, 1)
        ∷ (12, 2)
        ∷ [])
    else if kind == Kind.sendmsg
    then some ((4, 2) ∷ (6, 4) ∷ [])
    else none

-- `users[i]` of UCHANGE, and the members of `n` users that its loop converts: not the score.
abbrev pub user_at : ℕ → ℕ
user_at i = 8 + 40 * i

unfoldable pub user_fields : (i n : ℕ) → List Field
user_fields i zero = []
user_fields i (suc n) = (user_at i + 32, 2) ∷ (user_at i + 34, 2) ∷ user_fields (i + 1) n

-- The case UCHANGE: the loop's bound is read where `count` stands converted.
unfoldable pub conv_uchange : Bool → Memory → Memory
unfolding conv convs user_fields
conv_uchange little m =
    let c = conv little (4, 4) m in
    convs little (user_fields 0 (min (u32_at little c 4) uchange_max_ucnt)) c

-- `msg_body_n2l` and `msg_body_l2n`: `none` where the assertion fails.
unfoldable pub msg_body_conv : Bool → (kind : ℕ) → Memory → Option Memory
unfolding conv_uchange body_fields convs
msg_body_conv little kind m =
    if kind == Kind.uchange
    then some (conv_uchange little m)
    else elim (body_fields kind) [ none ↦ none | some fs ↦ some (convs little fs m) ]

abbrev pub kind_at : Bool → Memory → ℕ
kind_at little m = u16_at little m 0

abbrev pub body_len_at : Bool → Memory → ℕ
body_len_at little m = u16_at little m 2

-- `check_nt`
abbrev pub check_nt : Memory → (off size : ℕ) → Bool
check_nt m off size = null_terminated (bytes m off size) size

-- The nicknames of `n` users, from the `i`-th on.
unfoldable pub check_users : Memory → (i n : ℕ) → Bool
unfolding bytes null_terminated
check_users m i zero = true
check_users m i (suc n) = check_nt m (user_at i) nickname_len && check_users m (i + 1) n

-- The switch of `msg_check_form`, by whether it gets to the end.
unfoldable pub check_body : Bool → (kind : ℕ) → Memory → Bool
unfolding check_users bytes null_terminated
check_body little kind m =
    if kind == Kind.join || kind == Kind.join_r
    then check_nt m 4 nickname_len
    else if kind == Kind.uchange
    then (if ltb uchange_max_ucnt (u32_at little m 4)
        then false
        else check_users m 0 (u32_at little m 4))
    else if kind == Kind.sendmsg
    then check_nt m 10 text_len
    else true

-- `msg_check_form`, by whether it returns 0.
unfoldable pub msg_check_form : Bool → Memory → Bool
unfolding check_body msg_body_size
msg_check_form little m =
    let kind = kind_at little m in
    if kind == 0 || leb Kind.msg_max kind
    then false
    else if body_len_at little m == msg_body_size kind
    then check_body little kind m
    else false
