-- ===== src/Args.antt =====
-- lib/argparse.c: `parse_args`. What `getopt_long` returns is a list, a character with `optarg` for each
-- call until -1; `strtol` at base 10 is a parameter, with the number and the rest of the text.
pub mod Checked
pub mod Tests
use janken.Base.{
  ℕ, zero, suc, ◌+◌, Bool, true, false, not, ◌&&◌, Option, none, some, List, [], ◌∷◌, leb, ltb,
  ◌==◌, if◌then◌else◌,
}
use janken.Text.{snprintf, strnlen}
use janken.Log.{loglv_min, loglv_max, parse_log_level, set_loglevel}

-- A `long`.
pub data ℤ : Type 0 where
  pos negsuc : (n : ℕ) → ℤ

-- What `parse_args` writes.
pub record Args : Type 0 where
  pub loglevel : ℕ
  pub port : ℕ
  pub addr : List ℕ

-- It returns, or it ends the process by `display_help`.
pub data Parsed : Type 0 where
  returns : Args → Parsed
  display_help : (err : Bool) → Parsed

-- What `parse_log_level` gives is checked again.
unfoldable pub set_level : Option ℕ → Args → Parsed
unfolding set_loglevel
set_level none a = display_help true
set_level (some lvl) a =
    if ltb loglv_min lvl && ltb lvl loglv_max
    then returns (record a { loglevel = set_loglevel lvl })
    else display_help true

-- `*optarg == '\0'`
abbrev pub is_empty : List ℕ → Bool
is_empty [] = true
is_empty (c ∷ s) = c == 0

unfoldable pub set_port : List ℕ → (p : ℤ) (endptr : List ℕ) → Args → Parsed
set_port optarg (negsuc n) endptr a = display_help true
set_port optarg (pos n) endptr a =
    if not (is_empty optarg) && is_empty endptr
    then if leb 1 n && leb n 65535 then returns (record a { port = n }) else display_help true
    else display_help true

-- The arguments that are left, of at most `addr_len` characters with the NUL; `got_addr` is passed on.
unfoldable pub parse_addrs : (addr_len : ℕ) (got_addr : Bool) → List (List ℕ) → Args → Parsed
unfolding snprintf
parse_addrs addr_len got_addr [] a = returns a
parse_addrs addr_len true (s ∷ argv) a = display_help true
parse_addrs addr_len false (s ∷ argv) a =
    let rest = parse_addrs addr_len false argv (record a { addr = snprintf a.addr addr_len s }) in
    if leb addr_len (strnlen s addr_len + 1) then display_help true else rest

module _ (strtol : List ℕ → ℤ × List ℕ) where
  -- An option, by its character.
  unfoldable pub parse_option : (c : ℕ) → (optarg : List ℕ) → Args → Parsed
  unfolding set_level set_port parse_log_level
  parse_option c optarg a =
      if c == b'h'
      then display_help false
      else if c == b'l'
      then set_level (parse_log_level optarg) a
      else if c == b'p'
      then (let (p, endptr) = strtol optarg in set_port optarg p endptr a)
      else if c == b'?'
      then display_help true
      else returns a

  unfoldable pub parse_options : List (ℕ × List ℕ) → Args → Parsed
  unfolding parse_option
  parse_options [] a = returns a
  parse_options ((c, optarg) ∷ os) a = elim (parse_option c optarg a) [
    | returns a1 ↦ parse_options os a1
    | display_help err ↦ display_help err
  ]

  -- `argv` from `optind` on.
  unfoldable pub parse_args : (addr_len : ℕ) → List (ℕ × List ℕ) → List (List ℕ) → Args → Parsed
  unfolding parse_options parse_addrs
  parse_args addr_len os argv a = elim (parse_options os a) [
    | returns a1 ↦ parse_addrs addr_len false argv a1
    | display_help err ↦ display_help err
  ]
