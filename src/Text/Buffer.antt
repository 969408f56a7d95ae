-- ===== src/Text/Buffer.antt =====
-- Strings in buffers.
use janken.Base.{
  ◌≤◌, ℕ, zero, suc, ◌-◌, ◌≡◌, refl, ◌∙◌, ap, List, [], ◌∷◌, ◌++◌, arith, ltb, if◌then◌else◌, take,
  length,
}
use janken.Text.{nickname_len, snprintf, strnlen, c_str}

pub strnlen-c_str :
    (s : List ℕ) (n : ℕ) → strnlen s n ≡ (if ltb (length (c_str s)) n then length (c_str s) else n)
strnlen-c_str s zero = ground arith
strnlen-c_str [] (suc n) = ground arith
strnlen-c_str (c ∷ s) (suc n) = ground (arith, strnlen-c_str s n)

c_str-take : (n : ℕ) (s r : List ℕ) → c_str (take n (c_str s) ++ 0 ∷ r) ≡ take n (c_str s)
c_str-take zero s r = refl
c_str-take (suc n) [] r = refl
c_str-take (suc n) (x ∷ s) r = ground (arith, c_str-take n s r)

pub take-take : (n : ℕ) (s : List ℕ) → take n (take n s) ≡ take n s
take-take zero s = refl
take-take (suc n) [] = refl
take-take (suc n) (x ∷ s) = ap (◌∷◌ x) (take-take n s)

-- What a buffer holds after it was written.
pub c_str-snprintf_lem :
    (buf : List ℕ) (n : ℕ) (s : List ℕ) → c_str (snprintf buf n s) ≡ take (n - 1) (c_str s)
unfolding snprintf
c_str-snprintf_lem buf n s = c_str-take (n - 1) s _

pub c_str-snprintf : (buf s : List ℕ) → c_str (snprintf buf nickname_len s) ≡ take 31 (c_str s)
c_str-snprintf buf s = c_str-snprintf_lem buf nickname_len s

pub c_str-snprintf_twice :
    (buf old s : List ℕ)
    → c_str (snprintf buf nickname_len (snprintf old nickname_len s)) ≡ take 31 (c_str s)
c_str-snprintf_twice buf old s =
    c_str-snprintf buf (snprintf old nickname_len s)
    ∙ ap (take 31) (c_str-snprintf old s)
    ∙ take-take 31 (c_str s)

pub take-all : (n : ℕ) (s : List ℕ) → length s ≤ n → take n s ≡ s
take-all zero [] h = refl
take-all zero (x ∷ s) h = ground arith
take-all (suc n) [] h = refl
take-all (suc n) (x ∷ s) h = ap (◌∷◌ x) (take-all n s (omega arith))
