-- ===== src/Text/Tests.antt =====
-- The theorems of the strings at examples.
use janken.Base.{ℕ, ◌≡◌, List, [], ◌∷◌, ltb, ◌&&◌, length}
use janken.Text.{nickname_len, c_str, is_nickstr}
use janken.Text.Nick.{all_visible, is_nickstr_lem}

-- "a_1" in a buffer of five bytes.
abbrev nick : List ℕ
nick = b'a' ∷ b'_' ∷ b'1' ∷ 0 ∷ b'x' ∷ []

is_nickstr_lem_example : is_nickstr nick ≡ (
    ltb 0 (length (c_str nick))
    && ltb (length (c_str nick)) nickname_len
    && all_visible (c_str nick))
is_nickstr_lem_example = is_nickstr_lem nick
