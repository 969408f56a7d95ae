-- ===== src/Client/Input/Trim.antt =====
-- The text of a chat message: the field's, without the spaces at its end.
use janken.Base.{
  ℕ, suc, ◌+◌, ◌<◌, ◌≡◌, refl, sym, subst, length-append, ◌∙◌, ap, Bool, true, false, not, ◌&&◌,
  List, [], ◌∷◌, ◌++◌, append_assoc, arith, ◌==◌, if◌then◌else◌, if-true, if-false, Bool-cases, inl,
  inr, set, length, drop,
}
use janken.Text.{c_str, snprintf}
use janken.Text.Buffer.{take-all}
use janken.Message.{zero_text, text_len}
use janken.Client.Input.{isspace, last_char, trim, message_text}

-- Adding a character at the end of a text whose end is trimmed.
abbrev pub keep : ℕ → List ℕ → List ℕ
keep c [] = if isspace c then [] else c ∷ []
keep c (d ∷ s) = c ∷ d ∷ s

-- The text without the spaces at its end.
unfoldable pub trimmed : List ℕ → List ℕ
trimmed [] = []
trimmed (c ∷ s) = keep c (trimmed s)

trimmed-space : (s : List ℕ) (c : ℕ) → isspace c ≡ true → trimmed (s ++ c ∷ []) ≡ trimmed s
unfolding trimmed
trimmed-space [] c h = if-true _ _ h
trimmed-space (d ∷ s) c h = ap (keep d) (trimmed-space s c h)

trimmed-other : (s : List ℕ) (c : ℕ) → isspace c ≡ false → trimmed (s ++ c ∷ []) ≡ s ++ c ∷ []
unfolding trimmed
trimmed-other [] c h = if-false _ _ h
trimmed-other (d ∷ []) c h = ap (keep d) (trimmed-other [] c h)
trimmed-other (d ∷ e ∷ s) c h = ap (keep d) (trimmed-other (e ∷ s) c h)

-- A list from its end.
abbrev turned : List ℕ → List ℕ
turned [] = []
turned (c ∷ r) = turned r ++ c ∷ []

last_char-end :
    (s : List ℕ) (c : ℕ) (rest : List ℕ) → last_char (s ++ c ∷ rest) (suc (length s)) ≡ c
last_char-end [] c rest = refl
last_char-end (d ∷ s) c rest = last_char-end s c rest

set-end : (s : List ℕ) (c v : ℕ) (rest : List ℕ) → set (s ++ c ∷ rest) (length s) v ≡ s ++ v ∷ rest
set-end [] c v rest = refl
set-end (d ∷ s) c v rest = ap (◌∷◌ d) (set-end s c v rest)

abbrev no_nul : List ℕ → Bool
no_nul [] = true
no_nul (c ∷ s) = not (c == 0) && no_nul s

no_nul-append : (s t : List ℕ) → no_nul (s ++ t) ≡ (no_nul s && no_nul t)
no_nul-append [] t = refl
no_nul-append (c ∷ s) t = ground (arith, no_nul-append s t)

no_nul-c_str : (s : List ℕ) → no_nul (c_str s) ≡ true
no_nul-c_str [] = refl
no_nul-c_str (c ∷ s) = ground (arith, no_nul-c_str s)

c_str-no_nul : (s rest : List ℕ) → no_nul s ≡ true → c_str (s ++ 0 ∷ rest) ≡ s
c_str-no_nul [] rest h = refl
c_str-no_nul (c ∷ s) rest h =
    if-false {b = c == 0} _ _ (ground arith) ∙ ap (◌∷◌ c) (c_str-no_nul s rest (ground arith))

-- The loop on a text without spaces before its NUL.
trim_step :
    (s : List ℕ) (c : ℕ) (rest : List ℕ)
    → trim (suc (length s)) (s ++ c ∷ rest)
      ≡ (if isspace c then trim (length s) (s ++ 0 ∷ rest) else s ++ c ∷ rest)
unfolding trim
trim_step s c rest = rw (last_char-end s c rest, set-end s c 0 rest) refl

trim-turned :
    (r rest : List ℕ)
    → no_nul (turned r) ≡ true
    → c_str (trim (length (turned r)) (turned r ++ 0 ∷ rest)) ≡ trimmed (turned r)
unfolding trim trimmed
trim-turned [] rest h = refl
trim-turned (c ∷ r) rest h =
    ap (λ n. c_str (trim n ((turned r ++ c ∷ []) ++ 0 ∷ rest)))
      (length-append (turned r) (c ∷ []) ∙ one)
    ∙ ap (λ t. c_str (trim (suc (length (turned r))) t))
        (append_assoc (turned r) (c ∷ []) (0 ∷ rest))
    ∙ ap c_str (trim_step (turned r) c (0 ∷ rest))
    ∙ elim (Bool-cases (isspace c)) [
      | inl e ↦
          ap c_str (if-true _ _ e)
          ∙ trim-turned r (0 ∷ rest) (ground (arith, no_nul-append (turned r) (c ∷ [])))
          ∙ sym (trimmed-space (turned r) c e)
      | inr e ↦
          ap c_str (if-false _ _ e)
          ∙ ap c_str (sym (append_assoc (turned r) (c ∷ []) (0 ∷ rest)))
          ∙ c_str-no_nul (turned r ++ c ∷ []) rest h
          ∙ sym (trimmed-other (turned r) c e)
    ]
  where
    one : length (turned r) + 1 ≡ suc (length (turned r))
    one = omega arith

turned-end : (r : List ℕ) (c : ℕ) → turned (r ++ c ∷ []) ≡ c ∷ turned r
turned-end [] c = refl
turned-end (d ∷ r) c = ap (λ t. t ++ d ∷ []) (turned-end r c)

from_end : (s : List ℕ) → (r : List ℕ) × (turned r ≡ s)
from_end [] = ([], refl)
from_end (c ∷ s) = let (r, e) = from_end s in (r ++ c ∷ [], turned-end r c ∙ ap (◌∷◌ c) e)

trim_lem : (s rest : List ℕ) → no_nul s ≡ true → c_str (trim (length s) (s ++ 0 ∷ rest)) ≡ trimmed s
trim_lem s rest h =
    let (r, e) = from_end s in
    subst (λ t. c_str (trim (length t) (t ++ 0 ∷ rest)) ≡ trimmed t) e
      (trim-turned r rest (ap no_nul e ∙ h))

-- The text that is sent is the field's without the spaces at its end, where the field is shorter than
-- the packet's text.
pub message_text_lem :
    (field : List ℕ)
    → length (c_str field) < text_len
    → c_str (message_text field) ≡ trimmed (c_str field)
unfolding message_text snprintf
message_text_lem field h =
    ap (λ t. c_str (trim (length (c_str field)) (t ++ 0 ∷ drop (length t + 1) zero_text)))
      (take-all 127 (c_str field) (omega arith))
    ∙ trim_lem (c_str field) _ (no_nul-c_str field)
