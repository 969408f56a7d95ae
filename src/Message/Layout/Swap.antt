-- ===== src/Message/Layout/Swap.antt =====
-- Conversions of byte order undo themselves.
use mathlib.Core.Path.{fun_ext}
use janken.Base.{
  ℕ, ◌+◌, ◌-◌, ◌≤◌, ◌<◌, ◌≡◌, refl, sym, ◌∙◌, ap, Bool, true, false, ◌&&◌, ◌||◌, ◌≢◌, if-false,
  Option, none, some, List, [], ◌∷◌, arith, leb, ◌==◌, if◌then◌else◌, ◌⊎◌,
}
use janken.Message.Kind
use janken.Message.Layout.{Memory, Field, conv, convs, body_fields, msg_body_conv}

abbrev Apart : Field → Field → Type 0
Apart f g = (f.0 + f.1 ≤ g.0) ⊎ (g.0 + g.1 ≤ f.0)

pub conv-conv : (little : Bool) (f : Field) (m : Memory) → conv little f (conv little f m) ≡ m
unfolding conv
conv-conv little (off, size) m = fun_ext λ n. ground arith

conv-Apart :
    (little : Bool) (f g : Field) (m : Memory) (i : ℕ)
    → Apart f g
    → conv little f (conv little g m) i ≡ conv little g (conv little f m) i
unfolding conv
conv-Apart little (o, n) (o', n') m i h = ground arith

-- Two memories that are alike below `b`.
abbrev pub Alike : ℕ → Memory → Memory → Type 0
Alike b m n = (j : ℕ) → j < b → m j ≡ n j

pub conv-Alike :
    (little : Bool) (f : Field) (b : ℕ) (m n : Memory)
    → f.0 + f.1 ≤ b
    → Alike b m n
    → Alike b (conv little f m) (conv little f n)
unfolding conv
conv-Alike little (o, l) b m n h a j lt = ground (arith, a j, a (o + o + l - 1 - j))

unfoldable pub apart : Field → Field → Bool
apart f g = leb (f.0 + f.1) g.0 || leb (g.0 + g.1) f.0

unfoldable pub apart_all : Field → List Field → Bool
apart_all f [] = true
apart_all f (g ∷ gs) = apart f g && apart_all f gs

unfoldable pub disjoint : List Field → Bool
disjoint [] = true
disjoint (f ∷ fs) = apart_all f fs && disjoint fs

pub both : (a b : Bool) → (a && b) ≡ true → (a ≡ true) × (b ≡ true)
both a b h = ground arith

pub conv-apart :
    (little : Bool) (f g : Field) (m : Memory)
    → apart f g ≡ true
    → conv little f (conv little g m) ≡ conv little g (conv little f m)
unfolding apart
conv-apart little f g m h = fun_ext λ i. conv-Apart little f g m i (ground arith)

pub convs-conv :
    (little : Bool) (f : Field) (fs : List Field) (m : Memory)
    → apart_all f fs ≡ true
    → convs little fs (conv little f m) ≡ conv little f (convs little fs m)
unfolding convs apart_all
convs-conv little f [] m h = refl
convs-conv little f (g ∷ gs) m h =
    ap (convs little gs) (sym (conv-apart little f g m (both _ _ h).0))
    ∙ convs-conv little f gs (conv little g m) (both _ _ h).1

-- Members that do not overlap are converted back by converting them again.
pub convs-convs :
    (little : Bool) (fs : List Field) (m : Memory)
    → disjoint fs ≡ true
    → convs little fs (convs little fs m) ≡ m
unfolding convs disjoint
convs-convs little [] m h = refl
convs-convs little (f ∷ fs) m h =
    ap (convs little fs) (
      sym (convs-conv little f fs (conv little f m) (both _ _ h).0)
      ∙ ap (convs little fs) (conv-conv little f m))
    ∙ convs-convs little fs m (both _ _ h).1

disjoint_option : Option (List Field) → Bool
disjoint_option none = true
disjoint_option (some fs) = disjoint fs

disjoint_if :
    (b : Bool) (x y : Option (List Field))
    → disjoint_option x ≡ true
    → disjoint_option y ≡ true
    → disjoint_option (if b then x else y) ≡ true
disjoint_if true x y h k = h
disjoint_if false x y h k = k

body_fields-disjoint : (kind : ℕ) → disjoint_option (body_fields kind) ≡ true
unfolding body_fields disjoint_option disjoint apart_all apart
body_fields-disjoint kind = disjoint_if (kind == Kind.join) _ _ refl (
    disjoint_if (kind == Kind.join_r) _ _ refl (
      disjoint_if (kind == Kind.quit) _ _ refl (
        disjoint_if (kind == Kind.challenge) _ _ refl (
          disjoint_if (kind == Kind.challenge_r) _ _ refl (
            disjoint_if (kind == Kind.turn) _ _ refl (
              disjoint_if (kind == Kind.turn_r) _ _ refl
                (disjoint_if (kind == Kind.sendmsg) _ _ refl refl)))))))

-- The conversion of a kind whose members do not depend on the bytes.
conv_option : Bool → Option (List Field) → Memory → Option Memory
conv_option little o m = elim o [ none ↦ none | some fs ↦ some (convs little fs m) ]

conv_option-twice :
    (little : Bool) (o : Option (List Field)) (m n : Memory)
    → disjoint_option o ≡ true
    → conv_option little o m ≡ some n
    → conv_option little o n ≡ some m
unfolding conv_option disjoint_option
conv_option-twice little none m n h e = cc
conv_option-twice little (some fs) m n h e =
    ap some (ap (convs little fs) (sym (some_inj e)) ∙ convs-convs little fs m h)
  where
    some_inj : {a b : Memory} → some a ≡ some b → a ≡ b
    some_inj p = cc

-- For every kind but UCHANGE the conversions to network order and to host order undo each other: a
-- converted body, converted once more, is the body that it was.
pub msg_body_conv-twice :
    (little : Bool) (kind : ℕ) (m n : Memory)
    → kind ≢ Kind.uchange
    → msg_body_conv little kind m ≡ some n
    → msg_body_conv little kind n ≡ some m
unfolding msg_body_conv conv_option
msg_body_conv-twice little kind m n ne e =
    if-false _ _ other
    ∙ conv_option-twice little (body_fields kind) m n (body_fields-disjoint kind)
        (sym (if-false _ _ other) ∙ e)
  where
    other : (kind == Kind.uchange) ≡ false
    other = ground arith
