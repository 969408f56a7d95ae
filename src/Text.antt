-- ===== src/Text.antt =====
-- The C strings of lib/common.c and the library calls it makes on them. A buffer is the list of its
-- bytes; a string in it ends at its first NUL (or with the list). Character classes are those of the
-- C locale.
pub mod Order
pub mod Buffer
pub mod Nick
pub mod Tests
use janken.Base.{
  ℕ, zero, suc, ◌+◌, ◌-◌, compare, Ordering, Bool, true, false, not, ◌&&◌, ◌||◌, List, [], ◌∷◌,
  ◌++◌, leb, ltb, ◌==◌, if◌then◌else◌, length, take, drop, replicate,
}

abbrev pub nickname_len : ℕ
nickname_len = 32

-- `strnlen`
abbrev pub strnlen : List ℕ → ℕ → ℕ
strnlen s zero = 0
strnlen [] (suc n) = 0
strnlen (c ∷ s) (suc n) = if c == 0 then 0 else suc (strnlen s n)

-- The characters before the NUL.
abbrev pub c_str : List ℕ → List ℕ
c_str [] = []
c_str (c ∷ s) = if c == 0 then [] else c ∷ c_str s

-- `snprintf(buf, size, "%s", s)`: what it leaves of the buffer beyond the NUL is untouched.
unfoldable pub snprintf : (buf : List ℕ) (size : ℕ) (s : List ℕ) → List ℕ
snprintf buf size s = let kept = take (size - 1) (c_str s) in kept ++ 0 ∷ drop (length kept + 1) buf

abbrev pub isdigit : ℕ → Bool
isdigit c = leb b'0' c && leb c b'9'

abbrev pub isupper : ℕ → Bool
isupper c = leb b'A' c && leb c b'Z'

abbrev pub islower : ℕ → Bool
islower c = leb b'a' c && leb c b'z'

abbrev pub isalnum : ℕ → Bool
isalnum c = isdigit c || isupper c || islower c

-- The printing characters that are neither a space nor alphanumeric.
abbrev pub ispunct : ℕ → Bool
ispunct c = leb 33 c && leb c 126 && not (isalnum c)

abbrev pub tolower : ℕ → ℕ
tolower c = if isupper c then c + 32 else c

unfoldable pub null_terminated : List ℕ → ℕ → Bool
null_terminated str maxlen = ltb (strnlen str maxlen) maxlen

unfoldable pub is_nickchar : ℕ → Bool
is_nickchar c = isalnum c || ispunct c

-- The loop of `is_nickstr`.
unfoldable pub nickchars : List ℕ → Bool
unfolding is_nickchar
nickchars [] = true
nickchars (c ∷ s) = if c == 0 then true else is_nickchar c && nickchars s

unfoldable pub is_nickstr : List ℕ → Bool
unfolding nickchars
is_nickstr s =
    if strnlen s 1 == 0 || strnlen s nickname_len == nickname_len then false else nickchars s

abbrev pub first_char : List ℕ → ℕ
first_char [] = 0
first_char (c ∷ s) = c

abbrev pub other_chars : List ℕ → List ℕ
other_chars [] = []
other_chars (c ∷ s) = s

-- `strncasecmp`, by its sign.
unfoldable pub strncasecmp : List ℕ → List ℕ → ℕ → Ordering
strncasecmp s t zero = Ordering.eq
strncasecmp s t (suc n) =
    let rest = strncasecmp (other_chars s) (other_chars t) n in
    elim (compare (tolower (first_char s)) (tolower (first_char t))) [
      | Ordering.lt ↦ Ordering.lt
      | Ordering.eq ↦ (if first_char s == 0 then Ordering.eq else rest)
      | Ordering.gt ↦ Ordering.gt
    ]

unfoldable pub nick_cmp : List ℕ → List ℕ → Ordering
nick_cmp s t = strncasecmp s t nickname_len
