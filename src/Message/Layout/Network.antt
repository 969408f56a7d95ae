-- ===== src/Message/Layout/Network.antt =====
-- What is on the network: every number of a packet with its highest byte first, and all else as it was.
pub mod Users
use janken.Base.{
  ℕ, zero, suc, ◌+◌, ◌-◌, ◌*◌, ◌≡◌, ◌≢◌, refl, Bool, true, false, some, List, [], ◌∷◌, ◌||◌, arith,
  leb, ◌==◌, if◌then◌else◌,
}
use janken.Message.Kind
use janken.Message.Layout.{Memory, bytes, conv, convs, body_fields, msg_body_conv}
use janken.Message.Layout.Local.{for_kinds}

-- A member of a packed struct, by its size: a text, or a number of `size` bytes.
pub data Member : Type 0 where
  text number : (size : ℕ) → Member

-- The structs of lib/common.h.
abbrev pub members : (kind : ℕ) → List Member
members kind =
    if kind == Kind.join
    then text 32 ∷ []
    else if kind == Kind.join_r
    then text 32 ∷ number 2 ∷ number 2 ∷ number 4 ∷ []
    else if kind == Kind.quit
    then number 4 ∷ number 2 ∷ []
    else if kind == Kind.challenge
    then number 2 ∷ number 2 ∷ number 4 ∷ number 2 ∷ number 2 ∷ []
    else if kind == Kind.challenge_r
    then number 2 ∷ number 2 ∷ number 2 ∷ number 2 ∷ number 1 ∷ []
    else if kind == Kind.turn
    then number 2 ∷ number 2 ∷ number 4 ∷ number 2 ∷ number 2 ∷ []
    else if kind == Kind.turn_r
    then number 2
      ∷ number 2
      ∷ number 2
      ∷ number 2
      ∷ number 2
      ∷ number 4
      ∷ number 4
      ∷ number 4
      ∷ number 4
      ∷ number 1
      ∷ []
    else if kind == Kind.sendmsg
    then number 2 ∷ number 4 ∷ text 128 ∷ []
    else []

-- The number at `off` of `size` bytes: the first byte is its lowest one, or its highest.
unfoldable pub value : (little : Bool) → Memory → (off size : ℕ) → ℕ
value little m off zero = 0
value true m off (suc n) = m off + 256 * value true m (off + 1) n
value false m off (suc n) = m (off + n) + 256 * value false m off n

-- From `off` on, `n` holds the members that `m` holds: in the other's byte order, the texts alike.
abbrev pub Same : (little little' : Bool) (m n : Memory) → (off : ℕ) → List Member → Type 0
Same little little' m n off [] = Unit
Same little little' m n off (text size ∷ ms) =
    (bytes n off size ≡ bytes m off size) × Same little little' m n (off + size) ms
Same little little' m n off (number size ∷ ms) =
    (value little' n off size ≡ value little m off size) × Same little little' m n (off + size) ms

-- The conversion runs, and its result holds the members of the packet: taken from the host's order to
-- the network's, and taken from the network's to the host's.
abbrev pub Converted : (little : Bool) (kind : ℕ) → Memory → Type 0
Converted little kind m =
    (n : Memory) × (msg_body_conv little kind m ≡ some n)
    × Same little false m n 4 (members kind)
    × Same false little m n 4 (members kind)

converted :
    (little : Bool) (kind : ℕ) (m : Memory)
    → (kind == 0 || leb Kind.msg_max kind) ≡ false
    → kind ≢ Kind.uchange
    → Converted little kind m
unfolding msg_body_conv body_fields convs conv value bytes
converted true kind m h =
    for_kinds (λ k. k ≢ Kind.uchange → Converted true k m) kind h
      (λ ne. (_, refl, (refl, tt), (refl, tt)))
      (λ ne. (_, refl, (refl, (refl, (refl, (refl, tt)))), (refl, (refl, (refl, (refl, tt))))))
      (λ ne. (_, refl, (refl, (refl, tt)), (refl, (refl, tt)))) (λ ne. absurd (ne refl))
      (λ ne. (
        _,
        refl,
        (refl, (refl, (refl, (refl, (refl, tt))))),
        (refl, (refl, (refl, (refl, (refl, tt))))),
      ))
      (λ ne. (
        _,
        refl,
        (refl, (refl, (refl, (refl, (refl, tt))))),
        (refl, (refl, (refl, (refl, (refl, tt))))),
      ))
      (λ ne. (
        _,
        refl,
        (refl, (refl, (refl, (refl, (refl, tt))))),
        (refl, (refl, (refl, (refl, (refl, tt))))),
      ))
      (λ ne. (
        _,
        refl,
        (refl, (refl, (refl, (refl, (refl, (refl, (refl, (refl, (refl, (refl, tt)))))))))),
        (refl, (refl, (refl, (refl, (refl, (refl, (refl, (refl, (refl, (refl, tt)))))))))),
      ))
      (λ ne. (_, refl, (refl, (refl, (refl, tt))), (refl, (refl, (refl, tt)))))
converted false kind m h =
    for_kinds (λ k. k ≢ Kind.uchange → Converted false k m) kind h
      (λ ne. (_, refl, (refl, tt), (refl, tt)))
      (λ ne. (_, refl, (refl, (refl, (refl, (refl, tt)))), (refl, (refl, (refl, (refl, tt))))))
      (λ ne. (_, refl, (refl, (refl, tt)), (refl, (refl, tt)))) (λ ne. absurd (ne refl))
      (λ ne. (
        _,
        refl,
        (refl, (refl, (refl, (refl, (refl, tt))))),
        (refl, (refl, (refl, (refl, (refl, tt))))),
      ))
      (λ ne. (
        _,
        refl,
        (refl, (refl, (refl, (refl, (refl, tt))))),
        (refl, (refl, (refl, (refl, (refl, tt))))),
      ))
      (λ ne. (
        _,
        refl,
        (refl, (refl, (refl, (refl, (refl, tt))))),
        (refl, (refl, (refl, (refl, (refl, tt))))),
      ))
      (λ ne. (
        _,
        refl,
        (refl, (refl, (refl, (refl, (refl, (refl, (refl, (refl, (refl, (refl, tt)))))))))),
        (refl, (refl, (refl, (refl, (refl, (refl, (refl, (refl, (refl, (refl, tt)))))))))),
      ))
      (λ ne. (_, refl, (refl, (refl, (refl, tt))), (refl, (refl, (refl, tt)))))

-- For every kind but UCHANGE, on both byte orders, the conversions run, and convert every number of the
-- packet's struct and nothing else: after that to network order each has its highest byte first, and
-- after that to host order the host reads what was there with the highest byte first.
pub msg_body_conv-Converted :
    (little : Bool) (kind : ℕ) (m : Memory)
    → (kind == 0 || leb Kind.msg_max kind) ≡ false
    → kind ≢ Kind.uchange
    → Converted little kind m
msg_body_conv-Converted = converted
