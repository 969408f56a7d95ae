-- ===== src/Log/Tests.antt =====
-- The levels' names at an example.
use janken.Base.{ℕ, ◌≤◌, ◌≡◌, refl, ◌↔◌, some, List, [], ◌∷◌, Ordering}
use janken.Text.{strncasecmp}
use janken.Log.{
  is_name, lvl_name, llvn_max_len, parse_log_level, set_loglevel, lv_string, make_log_func,
}
use janken.Log.Levels.{parse_log_level_lem}

abbrev info_text : List ℕ
info_text = b'I' ∷ b'n' ∷ b'f' ∷ b'o' ∷ 0 ∷ []

parse_log_level_lem_example :
    (parse_log_level info_text ≡ some 4)
    ↔ ((1 ≤ 4) × (4 ≤ 6) × (strncasecmp info_text (lv_string 4) llvn_max_len ≡ Ordering.eq))
parse_log_level_lem_example = parse_log_level_lem info_text 4

info_is_parsed : parse_log_level info_text ≡ some 4
unfolding parse_log_level is_name lvl_name strncasecmp
info_is_parsed = refl

-- At level INFO a message of level DEBUG is not printed, and one of level ERROR is.
debug_is_silent :
    (make_log_func 5 (set_loglevel 4) (1 ∷ []) [] ≡ [])
    × (make_log_func 2 (set_loglevel 4) (1 ∷ []) [] ≡ (lv_string 2, 1 ∷ []) ∷ [])
unfolding make_log_func set_loglevel
debug_is_silent = (refl, refl)
