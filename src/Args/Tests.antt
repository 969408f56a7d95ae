-- ===== src/Args/Tests.antt =====
-- `parse_args` at example command lines.
use janken.Base.{
  ℕ, ◌+◌, ◌-◌, ◌*◌, ◌≤◌, ◌<◌, length, ◌≡◌, refl, false, List, [], ◌∷◌, ◌++◌, arith, replicate,
  if◌then◌else◌,
}
use janken.Text.{isdigit, c_str}
use janken.Args.{
  ℤ, pos, Args, Parsed, returns, display_help, set_port, parse_option, parse_options, parse_addrs,
  parse_args,
}
use janken.Args.Checked.{Returned, parse_args-Checked, parse_addrs_last}

-- `strtol` on texts without spaces and signs.
abbrev digits : (value : ℕ) → List ℕ → ℤ × List ℕ
digits value [] = (pos value, [])
digits value (c ∷ s) =
    let rest = digits (value * 10 + (c - 48)) s in if isdigit c then rest else (pos value, c ∷ s)

abbrev strtol : List ℕ → ℤ × List ℕ
strtol s = digits 0 s

abbrev any : List ℕ
any = b'0' ∷ b'.' ∷ b'0' ∷ []

abbrev defaults : Args
defaults = record { loglevel = 7; port = 22502; addr = any ++ replicate 125 0 }

defaults_lem :
    (1 ≤ defaults.port) × (defaults.port ≤ 65535) × (length (c_str defaults.addr) + 1 < 128)
defaults_lem = (omega arith, omega arith, omega arith)

-- `-p 8080 10.1`
abbrev options : List (ℕ × List ℕ)
options = (b'p', b'8' ∷ b'0' ∷ b'8' ∷ b'0' ∷ 0 ∷ []) ∷ []

abbrev ten : List ℕ
ten = b'1' ∷ b'0' ∷ b'.' ∷ b'1' ∷ 0 ∷ []

parse_args-Checked_example : Returned 128 7 (parse_args strtol 128 options (ten ∷ []) defaults)
parse_args-Checked_example =
    parse_args-Checked strtol 128 options (ten ∷ []) defaults defaults_lem.0 defaults_lem.1
      defaults_lem.2

abbrev args_of : Parsed → Args
args_of (returns a) = a
args_of (display_help err) = defaults

options_are_read : (args_of (parse_args strtol 128 options (ten ∷ []) defaults)).port ≡ 8080
unfolding parse_args parse_options parse_option parse_addrs set_port
options_are_read = refl

parse_addrs_last_example :
    (a' : Args) × (parse_addrs 128 false ((any ∷ []) ++ ten ∷ []) defaults ≡ returns a')
    × (c_str a'.addr ≡ c_str ten)
parse_addrs_last_example = parse_addrs_last 128 (any ∷ []) ten defaults refl
