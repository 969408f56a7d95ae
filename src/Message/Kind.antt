-- ===== src/Message/Kind.antt =====
-- `msg_kind_t` of lib/common.h, as the numbers that packets hold.
use janken.Base.{ℕ}

abbrev pub join : ℕ
join = 1

abbrev pub join_r : ℕ
join_r = 2

abbrev pub quit : ℕ
quit = 3

abbrev pub uchange : ℕ
uchange = 4

abbrev pub challenge : ℕ
challenge = 5

abbrev pub challenge_r : ℕ
challenge_r = 6

abbrev pub turn : ℕ
turn = 7

abbrev pub turn_r : ℕ
turn_r = 8

abbrev pub sendmsg : ℕ
sendmsg = 9

abbrev pub msg_max : ℕ
msg_max = 10
