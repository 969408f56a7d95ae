-- ===== src/Log.antt =====
-- lib/logging.c: the levels, their names, and which messages are printed. A level is its number; the
-- time and the text of a line are left to the C library.
pub mod Levels
pub mod Tests
use janken.Base.{
  ℕ, Bool, true, false, Option, none, some, List, [], ◌∷◌, ◌++◌, Ordering, ltb, ◌==◌, if◌then◌else◌,
  min, max,
}
use janken.Text.{strncasecmp}

-- `loglevel_t`
abbrev pub loglv_min : ℕ
loglv_min = 0

abbrev pub fatal : ℕ
fatal = 1

abbrev pub error : ℕ
error = 2

abbrev pub warning : ℕ
warning = 3

abbrev pub info : ℕ
info = 4

abbrev pub debug : ℕ
debug = 5

abbrev pub trace : ℕ
trace = 6

abbrev pub loglv_max : ℕ
loglv_max = 7

-- `LLVN_MAX_LEN`
abbrev pub llvn_max_len : ℕ
llvn_max_len = 10

unfoldable pub is_name : List ℕ → List ℕ → Bool
unfolding strncasecmp
is_name s name = elim (strncasecmp s name llvn_max_len) [ Ordering.eq ↦ true | _ ↦ false ]

-- `#lvl` of `for_valid_log_levels`, and `#LVL` with the default of `lv_string`.
unfoldable pub lvl_name : ℕ → List ℕ
lvl_name lv =
    if lv == fatal
    then b'f' ∷ b'a' ∷ b't' ∷ b'a' ∷ b'l' ∷ 0 ∷ []
    else if lv == error
    then b'e' ∷ b'r' ∷ b'r' ∷ b'o' ∷ b'r' ∷ 0 ∷ []
    else if lv == warning
    then b'w' ∷ b'a' ∷ b'r' ∷ b'n' ∷ b'i' ∷ b'n' ∷ b'g' ∷ 0 ∷ []
    else if lv == info
    then b'i' ∷ b'n' ∷ b'f' ∷ b'o' ∷ 0 ∷ []
    else if lv == debug
    then b'd' ∷ b'e' ∷ b'b' ∷ b'u' ∷ b'g' ∷ 0 ∷ []
    else if lv == trace
    then b't' ∷ b'r' ∷ b'a' ∷ b'c' ∷ b'e' ∷ 0 ∷ []
    else []

unfoldable pub lv_string : ℕ → List ℕ
lv_string lv =
    if lv == fatal
    then b'F' ∷ b'A' ∷ b'T' ∷ b'A' ∷ b'L' ∷ 0 ∷ []
    else if lv == error
    then b'E' ∷ b'R' ∷ b'R' ∷ b'O' ∷ b'R' ∷ 0 ∷ []
    else if lv == warning
    then b'W' ∷ b'A' ∷ b'R' ∷ b'N' ∷ b'I' ∷ b'N' ∷ b'G' ∷ 0 ∷ []
    else if lv == info
    then b'I' ∷ b'N' ∷ b'F' ∷ b'O' ∷ 0 ∷ []
    else if lv == debug
    then b'D' ∷ b'E' ∷ b'B' ∷ b'U' ∷ b'G' ∷ 0 ∷ []
    else if lv == trace
    then b'T' ∷ b'R' ∷ b'A' ∷ b'C' ∷ b'E' ∷ 0 ∷ []
    else b'U' ∷ b'N' ∷ b'K' ∷ b'N' ∷ b'O' ∷ b'W' ∷ b'N' ∷ 0 ∷ []

-- `none` for -1.
unfoldable pub parse_log_level : List ℕ → Option ℕ
unfolding is_name
parse_log_level s =
    if is_name s (lvl_name fatal)
    then some fatal
    else if is_name s (lvl_name error)
    then some error
    else if is_name s (lvl_name warning)
    then some warning
    else if is_name s (lvl_name info)
    then some info
    else if is_name s (lvl_name debug)
    then some debug
    else if is_name s (lvl_name trace)
    then some trace
    else none

-- What `glob_loglevel` becomes.
unfoldable pub set_loglevel : ℕ → ℕ
set_loglevel lv = min (max lv loglv_min) loglv_max

-- A line of the log: its level's name and its message.
abbrev pub Line : Type 0
Line = List ℕ × List ℕ

-- `log_fatal` to `log_trace`, each at its level.
unfoldable pub make_log_func : (lvl glob_loglevel : ℕ) → List ℕ → List Line → List Line
unfolding lv_string
make_log_func lvl glob_loglevel msg out =
    if ltb glob_loglevel lvl then out else out ++ (lv_string lvl, msg) ∷ []
