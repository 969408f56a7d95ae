-- ===== src/Message/Action.antt =====
-- `challenge_action_t` of lib/common.h, as the numbers that packets hold.
use janken.Base.{ℕ}

abbrev pub start : ℕ
start = 0

abbrev pub reject : ℕ
reject = 1

abbrev pub accept : ℕ
accept = 2

abbrev pub cancel : ℕ
cancel = 3
