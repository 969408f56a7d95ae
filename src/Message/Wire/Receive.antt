-- ===== src/Message/Wire/Receive.antt =====
-- What `recv_count` leaves in its buffer.
use janken.Base.{
  ℕ, ◌+◌, ◌-◌, ◌≤◌, ◌<◌, ◌≡◌, refl, ◌∙◌, true, List, [], ◌∷◌, arith, ◌==◌, ==_refl, if◌then◌else◌,
  length,
}
use janken.Message.Layout.{Memory, bytes}
use janken.Message.Wire.{store, recv_count}

abbrev put : Memory → ℕ → ℕ → Memory
put m p b i = if i == p then b else m i

pub store-before : (m : Memory) (p : ℕ) (bs : List ℕ) (i : ℕ) → i < p → store m p bs i ≡ m i
unfolding store
store-before m p [] i h = refl
store-before m p (b ∷ bs) i h = store-before (put m p b) (p + 1) bs i (omega arith) ∙ ground arith

pub store-after :
    (m : Memory) (p : ℕ) (bs : List ℕ) (i : ℕ) → p + length bs ≤ i → store m p bs i ≡ m i
unfolding store
store-after m p [] i h = refl
store-after m p (b ∷ bs) i h = store-after (put m p b) (p + 1) bs i (omega arith) ∙ ground arith

pub bytes-store : (m : Memory) (p : ℕ) (bs : List ℕ) → bytes (store m p bs) p (length bs) ≡ bs
unfolding store bytes
bytes-store m p [] = refl
bytes-store m p (b ∷ bs) = rw (
  store-before (put m p b) (p + 1) bs p (omega arith),
  ==_refl p,
  bytes-store (put m p b) (p + 1) bs,
)

module _ (p : ℕ) (rs : List (List ℕ)) (m : Memory) where
  -- A call of `recv` that gives all the bytes that are wanted.
  pub recv_count-whole :
      (len : ℕ) (bs : List ℕ)
      → length bs ≡ len
      → 0 < len
      → recv_count p len (bs ∷ rs) m ≡ (true, store m p bs, rs)
  unfolding recv_count
  recv_count-whole len bs e h = ground (arith, enough rs)
    where
      enough : (rs : List (List ℕ)) → recv_count p 0 rs (store m p bs) ≡ (true, store m p bs, rs)
      enough [] = refl
      enough (r ∷ rs) = refl

module _ (p : ℕ) (rs : List (List ℕ)) (m : Memory) where
  -- When the bytes arrive in two parts, `recv_count` succeeds, but the second part is written over the
  -- beginning of the first, and no byte behind the longer of the two is written.
  pub recv_count-parts :
      (a b : List ℕ)
      → 0 < length a
      → 0 < length b
      → (m' : Memory) × (recv_count p (length a + length b) (a ∷ b ∷ rs) m ≡ (true, m', rs))
        × (bytes m' p (length b) ≡ b)
        × ((i : ℕ) → p + length a ≤ i → p + length b ≤ i → m' i ≡ m i)
  unfolding recv_count
  recv_count-parts a b ha hb = (
    store (store m p a) p b,
    ground (arith, recv_count-rest),
    bytes-store (store m p a) p b,
    λ i ga gb. store-after (store m p a) p b i gb ∙ store-after m p a i ga,
  )
    where
      recv_count-rest :
          recv_count p (length a + length b - length a) (b ∷ rs) (store m p a)
          ≡ (true, store (store m p a) p b, rs)
      recv_count-rest =
          recv_count-whole p rs (store m p a) (length a + length b - length a) b (omega arith)
            (omega arith)
