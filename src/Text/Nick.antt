-- ===== src/Text/Nick.antt =====
-- Which strings `is_nickstr` of lib/common.c takes for nicknames.
use janken.Base.{
  ℕ, ◌≡◌, refl, Bool, true, false, ◌&&◌, ◌||◌, List, [], ◌∷◌, arith, ltb, leb, ◌==◌, if◌then◌else◌,
  length,
}
use janken.Text.Buffer.{strnlen-c_str}
use janken.Text.{nickname_len, c_str, is_nickchar, nickchars, is_nickstr}

-- The ASCII characters that leave ink.
abbrev pub visible : ℕ → Bool
visible c = leb 33 c && leb c 126

unfoldable pub all_visible : List ℕ → Bool
all_visible [] = true
all_visible (c ∷ s) = visible c && all_visible s

pub is_nickchar-visible : (c : ℕ) → is_nickchar c ≡ visible c
unfolding is_nickchar
is_nickchar-visible c = ground arith

nickchars-all_visible : (s : List ℕ) → nickchars s ≡ all_visible (c_str s)
unfolding nickchars all_visible
nickchars-all_visible [] = refl
nickchars-all_visible (c ∷ s) = ground (arith, is_nickchar-visible c, nickchars-all_visible s)

shape :
    (n : ℕ) (v : Bool)
    → (if (if ltb n 1 then n else 1) == 0 || (if ltb n 32 then n else 32) == 32 then false else v)
      ≡ (ltb 0 n && ltb n 32 && v)
shape n v = ground arith

-- `is_nickstr` accepts exactly the strings of 1 to 31 characters, all of them visible ASCII.
pub is_nickstr_lem :
    (s : List ℕ)
    → is_nickstr s
      ≡ (ltb 0 (length (c_str s)) && ltb (length (c_str s)) nickname_len && all_visible (c_str s))
unfolding is_nickstr
is_nickstr_lem s =
    rw (strnlen-c_str s 1, strnlen-c_str s nickname_len, nickchars-all_visible s)
      (shape (length (c_str s)) (all_visible (c_str s)))
