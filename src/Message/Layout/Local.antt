-- ===== src/Message/Layout/Local.antt =====
-- Which bytes the conversion of a body reads and writes: those of the body.
use janken.Base.{
  ℕ, zero, suc, ◌+◌, ◌≤◌, ◌<◌, ◌≡◌, refl, ◌∙◌, ap, min, Bool, true, false, ◌&&◌, ◌||◌, none, some,
  List, [], ◌∷◌, arith, leb, ◌==◌, if◌then◌else◌,
}
use janken.Message.Kind
use janken.Message.{msg_body_size, uchange_max_ucnt}
use janken.Message.Layout.{
  Memory, Field, conv, convs, body_fields, msg_body_conv, conv_uchange, user_fields, user_at,
  u32_at,
}
use janken.Message.Layout.Swap.{Alike, conv-Alike, convs-convs, disjoint, apart, apart_all}
use janken.Message.Layout.Uchange.{user_fields-Alike, user_fields-before, conv_uchange-twice}

-- All members lie between `a` and `b`.
within : (a b : ℕ) → List Field → Bool
within a b [] = true
within a b (f ∷ fs) = leb a f.0 && leb (f.0 + f.1) b && within a b fs

convs-Alike :
    (little : Bool) (a b : ℕ) (fs : List Field) (m n : Memory)
    → within a b fs ≡ true
    → Alike b m n
    → Alike b (convs little fs m) (convs little fs n)
unfolding within convs
convs-Alike little a b [] m n h e = e
convs-Alike little a b (f ∷ fs) m n h e =
    convs-Alike little a b fs _ _ (ground arith) (conv-Alike little f b m n (ground arith) e)

convs-before :
    (little : Bool) (a b : ℕ) (fs : List Field) (m : Memory)
    → within a b fs ≡ true
    → (j : ℕ) → j < a
    → convs little fs m j ≡ m j
unfolding within convs conv
convs-before little a b [] m h j lt = refl
convs-before little a b (f ∷ fs) m h j lt =
    convs-before little a b fs (conv little f m) (ground arith) j lt ∙ ground arith

-- A statement about every kind of packet.
pub for_kinds :
    (P : ℕ → Type 0) (kind : ℕ)
    → (kind == 0 || leb Kind.msg_max kind) ≡ false
    → P 1
    → P 2
    → P 3
    → P 4
    → P 5
    → P 6
    → P 7
    → P 8
    → P 9
    → P kind
for_kinds P zero h p1 p2 p3 p4 p5 p6 p7 p8 p9 = cc
for_kinds P (suc zero) h p1 p2 p3 p4 p5 p6 p7 p8 p9 = p1
for_kinds P (suc (suc zero)) h p1 p2 p3 p4 p5 p6 p7 p8 p9 = p2
for_kinds P (suc (suc (suc zero))) h p1 p2 p3 p4 p5 p6 p7 p8 p9 = p3
for_kinds P (suc (suc (suc (suc zero)))) h p1 p2 p3 p4 p5 p6 p7 p8 p9 = p4
for_kinds P (suc (suc (suc (suc (suc zero))))) h p1 p2 p3 p4 p5 p6 p7 p8 p9 = p5
for_kinds P (suc (suc (suc (suc (suc (suc zero)))))) h p1 p2 p3 p4 p5 p6 p7 p8 p9 = p6
for_kinds P (suc (suc (suc (suc (suc (suc (suc zero))))))) h p1 p2 p3 p4 p5 p6 p7 p8 p9 = p7
for_kinds P (suc (suc (suc (suc (suc (suc (suc (suc zero)))))))) h p1 p2 p3 p4 p5 p6 p7 p8 p9 = p8
for_kinds P (suc (suc (suc (suc (suc (suc (suc (suc (suc zero))))))))) h p1 p2 p3 p4 p5 p6 p7 p8
      p9 =
    p9
for_kinds P (suc (suc (suc (suc (suc (suc (suc (suc (suc (suc n)))))))))) h p1 p2 p3 p4 p5 p6 p7 p8
      p9 =
    absurd (ground arith)

-- The bytes up to which a packet counts: a user list ends with its last user.
abbrev pub extent : Bool → (kind : ℕ) → Memory → ℕ
extent little kind m =
    if kind == Kind.uchange then user_at (u32_at little m 4) else 4 + msg_body_size kind

-- The conversion of the bodies of a kind, as a function `g` of the memory.
pub record Conversion (little : Bool) (kind : ℕ) (g : Memory → Memory) : Type 0 where
  pub runs : (m : Memory) → msg_body_conv little kind m ≡ some (g m)
  pub local :
      (m n : Memory)
      → Alike (4 + msg_body_size kind) m n
      → Alike (4 + msg_body_size kind) (g m) (g n)
  pub head : (m : Memory) → Alike 4 (g m) m
  pub back :
      (m : Memory)
      → (kind ≡ Kind.uchange → u32_at little m 4 ≤ uchange_max_ucnt)
      → Alike (extent little kind m) (g (g m)) m

fixed :
    (little : Bool) (kind : ℕ) (fs : List Field)
    → ((m : Memory) → msg_body_conv little kind m ≡ some (convs little fs m))
    → within 4 (4 + msg_body_size kind) fs ≡ true
    → disjoint fs ≡ true
    → (kind == Kind.uchange) ≡ false
    → (g : Memory → Memory) × Conversion little kind g
fixed little kind fs e w d u = (
  convs little fs,
  record {
    runs = e;
    local = λ m n. convs-Alike little 4 (4 + msg_body_size kind) fs m n w;
    head = λ m. convs-before little 4 (4 + msg_body_size kind) fs m w;
    back = λ m h j lt. ap (λ x. x j) (convs-convs little fs m d);
  },
)

-- The members of a body whose loop depends on nothing.
fields_of : ℕ → List Field
unfolding body_fields
fields_of kind = elim (body_fields kind) [ none ↦ [] | some fs ↦ fs ]

-- The loop of a user list reads its bound, and converts users, within the packet.
loop-Alike :
    (little : Bool) (m n : Memory)
    → Alike 648 m n
    → Alike 648
        (convs little (user_fields 0 (min (u32_at little m 4) uchange_max_ucnt)) m)
        (convs little (user_fields 0 (min (u32_at little n 4) uchange_max_ucnt)) n)
loop-Alike little m n a j lt =
    ap (λ k. convs little (user_fields 0 (min k uchange_max_ucnt)) m j) same
    ∙ user_fields-Alike little 0 (min (u32_at little n 4) uchange_max_ucnt) 648 m n
        (small (u32_at little n 4)) a j lt
  where
    same : u32_at little m 4 ≡ u32_at little n 4
    same = rw (a 4 (omega arith), a 5 (omega arith), a 6 (omega arith), a 7 (omega arith))

    small : (k : ℕ) → user_at (0 + min k uchange_max_ucnt) ≤ 648
    small k = ground arith

Conversion-uchange : (little : Bool) → Conversion little Kind.uchange (conv_uchange little)
unfolding msg_body_conv msg_body_size conv_uchange conv
Conversion-uchange little = record {
  runs = λ m. refl;
  local = λ m n a. loop-Alike little _ _ (conv-Alike little (4, 4) 648 m n (omega arith) a);
  head = λ m j lt.
      user_fields-before little 0 (min (u32_at little (conv little (4, 4) m) 4) uchange_max_ucnt)
        (conv little (4, 4) m) j (omega arith)
      ∙ ground arith;
  back = λ m h j lt. conv_uchange-twice little m j (h refl) lt;
}

pub conversion :
    (little : Bool) (kind : ℕ)
    → (kind == 0 || leb Kind.msg_max kind) ≡ false
    → (g : Memory → Memory) × Conversion little kind g
unfolding msg_body_conv body_fields fields_of msg_body_size within disjoint apart_all apart
conversion little kind h =
    for_kinds (λ k. (g : Memory → Memory) × Conversion little k g) kind h
      (fixed little 1 (fields_of 1) (λ m. refl) refl refl refl)
      (fixed little 2 (fields_of 2) (λ m. refl) refl refl refl)
      (fixed little 3 (fields_of 3) (λ m. refl) refl refl refl)
      (conv_uchange little, Conversion-uchange little)
      (fixed little 5 (fields_of 5) (λ m. refl) refl refl refl)
      (fixed little 6 (fields_of 6) (λ m. refl) refl refl refl)
      (fixed little 7 (fields_of 7) (λ m. refl) refl refl refl)
      (fixed little 8 (fields_of 8) (λ m. refl) refl refl refl)
      (fixed little 9 (fields_of 9) (λ m. refl) refl refl refl)
