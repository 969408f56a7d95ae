-- ===== src/Args/Checked.antt =====
-- What `parse_args` has checked when it returns, and which address it takes.
use janken.Base.{
  ℕ, zero, suc, ◌+◌, ◌-◌, ◌≤◌, ◌<◌, ◌≡◌, refl, ◌⊎◌, inl, inr, sym, subst, ◌∙◌, Bool, true, false,
  not, ◌&&◌, Option, none, some, List, [], ◌∷◌, ◌++◌, arith, leb, ltb, ◌==◌, if_cases, if-false,
  length, take,
}
use janken.Text.{snprintf, strnlen, c_str}
use janken.Text.Buffer.{strnlen-c_str, c_str-snprintf_lem, take-all}
use janken.Log.{loglv_min, loglv_max, parse_log_level, set_loglevel}
use janken.Args.{
  ℤ, pos, negsuc, Args, Parsed, returns, display_help, set_level, is_empty, set_port, parse_addrs,
  parse_option, parse_options, parse_args,
}

-- A port in range, the level `old` of before or one of those that have a name, and an address that fits.
pub record Checked (addr_len : ℕ) (old : ℕ) (a : Args) : Type 0 where
  pub low : 1 ≤ a.port
  pub high : a.port ≤ 65535
  pub level : (a.loglevel ≡ old) ⊎ (loglv_min < a.loglevel) × (a.loglevel < loglv_max)
  pub fits : length (c_str a.addr) + 1 < addr_len

abbrev pub Returned : ℕ → (old : ℕ) → Parsed → Type 0
Returned n old (returns a) = Checked n old a
Returned n old (display_help err) = Unit

module _ (n old : ℕ) (a : Args) (h : Checked n old a) where
  set_port-Checked :
      (optarg : List ℕ) (p : ℤ) (endptr : List ℕ) → Returned n old (set_port optarg p endptr a)
  unfolding set_port
  set_port-Checked optarg (negsuc m) endptr = tt
  set_port-Checked optarg (pos m) endptr =
      if_cases (Returned n old) (not (is_empty optarg) && is_empty endptr)
        (λ e.
          if_cases (Returned n old) (leb 1 m && leb m 65535)
            (λ f. record {
              low = ground arith;
              high = ground arith;
              level = h.level;
              fits = h.fits;
            })
            (λ f. tt))
        (λ e. tt)

  set_level-Checked : (lvl : Option ℕ) → Returned n old (set_level lvl a)
  unfolding set_level set_loglevel
  set_level-Checked none = tt
  set_level-Checked (some lvl) =
      if_cases (Returned n old) (ltb loglv_min lvl && ltb lvl loglv_max)
        (λ e. record {
          low = h.low;
          high = h.high;
          level = inr (ground arith, ground arith);
          fits = h.fits;
        })
        (λ e. tt)

-- An address that passes the test fits with its NUL, and is taken as a whole.
fits : (n : ℕ) (s : List ℕ) → leb n (strnlen s n + 1) ≡ false → length (c_str s) + 1 < n
fits n s h = ground (arith, h, strnlen-c_str s n)

length-take-le : (n : ℕ) (s : List ℕ) → length (take n s) ≤ length s
length-take-le zero s = omega arith
length-take-le (suc n) [] = omega arith
length-take-le (suc n) (x ∷ s) = omega (arith, length-take-le n s)

taken : (n : ℕ) (old s : List ℕ) → length (c_str s) + 1 < n → c_str (snprintf old n s) ≡ c_str s
taken n old s h = c_str-snprintf_lem old n s ∙ take-all (n - 1) (c_str s) (omega arith)

parse_addrs-Checked :
    (n old : ℕ) (argv : List (List ℕ)) (a : Args)
    → Checked n old a
    → Returned n old (parse_addrs n false argv a)
unfolding parse_addrs
parse_addrs-Checked n old [] a h = h
parse_addrs-Checked n old (s ∷ argv) a h =
    if_cases (Returned n old) (leb n (strnlen s n + 1)) (λ e. tt)
      λ e. parse_addrs-Checked n old argv _ (record {
        low = h.low;
        high = h.high;
        level = h.level;
        fits = subst (λ t. length t + 1 < n) (sym (taken n a.addr s (fits n s e))) (fits n s e);
      })

module _ (strtol : List ℕ → ℤ × List ℕ) (n old : ℕ) where
  parse_option-Checked :
      (c : ℕ) (optarg : List ℕ) (a : Args)
      → Checked n old a
      → Returned n old (parse_option strtol c optarg a)
  unfolding parse_option
  parse_option-Checked c optarg a h =
      if_cases (Returned n old) (c == b'h') (λ e. tt)
        λ e.
          if_cases (Returned n old) (c == b'l')
            (λ f. set_level-Checked n old a h (parse_log_level optarg))
            λ f.
              if_cases (Returned n old) (c == b'p')
                (λ g. set_port-Checked n old a h optarg (strtol optarg).0 (strtol optarg).1)
                λ g. if_cases (Returned n old) (c == b'?') (λ k. tt) λ k. h

  goes_on :
      (f : Args → Parsed) (r : Parsed)
      → Returned n old r
      → ((a : Args) → Checked n old a → Returned n old (f a))
      → Returned n old (elim r [ returns a ↦ f a | display_help err ↦ display_help err ])
  goes_on f (returns a) k g = g a k
  goes_on f (display_help err) k g = tt

  parse_options-Checked :
      (os : List (ℕ × List ℕ)) (a : Args)
      → Checked n old a
      → Returned n old (parse_options strtol os a)
  unfolding parse_options
  parse_options-Checked [] a h = h
  parse_options-Checked ((c, optarg) ∷ os) a h =
      goes_on (parse_options strtol os) (parse_option strtol c optarg a)
        (parse_option-Checked c optarg a h) (parse_options-Checked os)

-- Where the port and the address are in order to begin with, `parse_args` ends the process or returns
-- with a port from 1 to 65535, an address that fits its buffer, and the level of before or one that has
-- a name: above LOGLV_MIN and below LOGLV_MAX.
pub parse_args-Checked :
    (strtol : List ℕ → ℤ × List ℕ) (n : ℕ) (os : List (ℕ × List ℕ)) (argv : List (List ℕ))
    (a : Args)
    → 1 ≤ a.port
    → a.port ≤ 65535
    → length (c_str a.addr) + 1 < n
    → Returned n a.loglevel (parse_args strtol n os argv a)
unfolding parse_args
parse_args-Checked strtol n os argv a l h f =
    goes_on strtol n a.loglevel (parse_addrs n false argv) (parse_options strtol os a)
      (parse_options-Checked strtol n a.loglevel os a
        (record { low = l; high = h; level = inl refl; fits = f }))
      (parse_addrs-Checked n a.loglevel argv)

abbrev pub all_fit : ℕ → List (List ℕ) → Bool
all_fit n [] = true
all_fit n (s ∷ argv) = not (leb n (strnlen s n + 1)) && all_fit n argv

-- Of several addresses, all short enough, the last one is taken; none is refused as superfluous.
pub parse_addrs_last :
    (n : ℕ) (argv : List (List ℕ)) (s : List ℕ) (a : Args)
    → all_fit n (argv ++ s ∷ []) ≡ true
    → (a' : Args) × (parse_addrs n false (argv ++ s ∷ []) a ≡ returns a')
      × (c_str a'.addr ≡ c_str s)
unfolding parse_addrs
parse_addrs_last n [] s a h = (
  _,
  if-false {b = leb n (strnlen s n + 1)} _ _ (ground arith),
  taken n a.addr s (fits n s (ground arith)),
)
parse_addrs_last n (t ∷ argv) s a h =
    let (a', e, g) =
      parse_addrs_last n argv s (record a { addr = snprintf a.addr n t }) (ground arith) in
    (a', if-false {b = leb n (strnlen t n + 1)} _ _ (ground arith) ∙ e, g)
