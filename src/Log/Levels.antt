-- ===== src/Log/Levels.antt =====
-- The names of the levels: which are accepted, and what they turn on.
use janken.Base.{
  ℕ, ◌↔◌, zero, suc, if_cases, subst, ◌≤◌, ◌≡◌, refl, ◌∙◌, ap, true, false, Option, some, List,
  Ordering, arith,
}
use janken.Text.{strncasecmp}
use janken.Text.Order.{strncasecmp_eq_left}
use janken.Log.{
  is_name, llvn_max_len, fatal, error, warning, info, debug, trace, lvl_name, parse_log_level,
  lv_string,
}

is_name_agree :
    (s t name : List ℕ)
    → strncasecmp s t llvn_max_len ≡ Ordering.eq
    → is_name s name ≡ is_name t name
unfolding is_name
is_name_agree s t name h =
    ap (λ o. elim o [ Ordering.eq ↦ true | _ ↦ false ])
      (strncasecmp_eq_left s t name llvn_max_len h)

is_name_sound :
    (s name : List ℕ) → is_name s name ≡ true → strncasecmp s name llvn_max_len ≡ Ordering.eq
unfolding is_name
is_name_sound s name h = ground arith

-- Names that are equal up to letter case are parsed alike.
parse_log_level_agree :
    (s t : List ℕ)
    → strncasecmp s t llvn_max_len ≡ Ordering.eq
    → parse_log_level s ≡ parse_log_level t
unfolding parse_log_level
parse_log_level_agree s t h = rw (e fatal, e error, e warning, e info, e debug, e trace) refl
  where
    e : (k : ℕ) → is_name s (lvl_name k) ≡ is_name t (lvl_name k)
    e k = is_name_agree s t (lvl_name k) h

abbrev Named : List ℕ → ℕ → Type 0
Named s lv = (1 ≤ lv) × (lv ≤ 6) × (strncasecmp s (lv_string lv) llvn_max_len ≡ Ordering.eq)

over_six : (lv : ℕ) → suc (suc (suc (suc (suc (suc (suc lv)))))) ≤ 6 → ⊥
over_six lv h = omega arith

-- Every level's own name is accepted.
parse_log_level-lv_string : (lv : ℕ) → 1 ≤ lv → lv ≤ 6 → parse_log_level (lv_string lv) ≡ some lv
unfolding parse_log_level is_name lvl_name lv_string strncasecmp
parse_log_level-lv_string zero h g = elim h [ ]
parse_log_level-lv_string (suc zero) h g = refl
parse_log_level-lv_string (suc (suc zero)) h g = refl
parse_log_level-lv_string (suc (suc (suc zero))) h g = refl
parse_log_level-lv_string (suc (suc (suc (suc zero)))) h g = refl
parse_log_level-lv_string (suc (suc (suc (suc (suc zero))))) h g = refl
parse_log_level-lv_string (suc (suc (suc (suc (suc (suc zero)))))) h g = refl
parse_log_level-lv_string (suc (suc (suc (suc (suc (suc (suc lv))))))) h g =
    elim (over_six lv g) [ ]

-- Its two spellings are equal up to letter case.
lvl_name-lv_string :
    (lv : ℕ) → 1 ≤ lv → lv ≤ 6 → strncasecmp (lvl_name lv) (lv_string lv) llvn_max_len ≡ Ordering.eq
unfolding lvl_name lv_string strncasecmp
lvl_name-lv_string zero h g = elim h [ ]
lvl_name-lv_string (suc zero) h g = refl
lvl_name-lv_string (suc (suc zero)) h g = refl
lvl_name-lv_string (suc (suc (suc zero))) h g = refl
lvl_name-lv_string (suc (suc (suc (suc zero)))) h g = refl
lvl_name-lv_string (suc (suc (suc (suc (suc zero))))) h g = refl
lvl_name-lv_string (suc (suc (suc (suc (suc (suc zero)))))) h g = refl
lvl_name-lv_string (suc (suc (suc (suc (suc (suc (suc lv))))))) h g = elim (over_six lv g) [ ]

module _ (s : List ℕ) (lv : ℕ) where
  named : (k : ℕ) → 1 ≤ k → k ≤ 6 → is_name s (lvl_name k) ≡ true → some k ≡ some lv → Named s lv
  named k a b t h = subst (Named s) (same h) (
    a,
    b,
    strncasecmp_eq_left s (lvl_name k) (lv_string k) llvn_max_len (is_name_sound s (lvl_name k) t)
        ∙ lvl_name-lv_string k a b,
  )
    where
      same : some k ≡ some lv → k ≡ lv
      same h = cc

  abbrev Parsed : Option ℕ → Type 0
  Parsed o = o ≡ some lv → Named s lv

  -- What is accepted is a level's name.
  parse_log_level_sound : parse_log_level s ≡ some lv → Named s lv
  unfolding parse_log_level
  parse_log_level_sound =
      if_cases Parsed (is_name s (lvl_name fatal)) (named fatal (omega arith) (omega arith)) λ _.
        if_cases Parsed (is_name s (lvl_name error)) (named error (omega arith) (omega arith)) λ _.
          if_cases Parsed (is_name s (lvl_name warning)) (named warning (omega arith) (omega arith))
            λ _.
              if_cases Parsed (is_name s (lvl_name info)) (named info (omega arith) (omega arith))
                λ _.
                  if_cases Parsed (is_name s (lvl_name debug))
                    (named debug (omega arith) (omega arith))
                    λ _.
                      if_cases Parsed (is_name s (lvl_name trace))
                        (named trace (omega arith) (omega arith)) λ _ h. cc

-- A string is accepted as a level exactly when it is the level's name up to letter case, for each of the
-- six levels from fatal to trace.
pub parse_log_level_lem :
    (s : List ℕ) (lv : ℕ)
    → (parse_log_level s ≡ some lv)
      ↔ ((1 ≤ lv) × (lv ≤ 6) × (strncasecmp s (lv_string lv) llvn_max_len ≡ Ordering.eq))
parse_log_level_lem s lv = (
  parse_log_level_sound s lv,
  λ (a, b, e). parse_log_level_agree s (lv_string lv) e ∙ parse_log_level-lv_string lv a b,
)
