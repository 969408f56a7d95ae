-- ===== src/Server/Ensures.antt =====
-- Postconditions of operations that may end the process, with their rules.
use janken.Base.{
  ◌≡◌, ◌≢◌, ==_refl, arith, refl, subst, Bool, true, false, Option, none, some, if◌then◌else◌,
}
use janken.Server.{Run, done, crash, ◌>>=◌, deref, check, if_null, Ptr, update}

-- If the operation returns, its result satisfies `P`.
pub data Ensures {A : Type 0} (P : A → Type 0) : Run A → Type 0 where
  returns : {a : A} → P a → Ensures P (done a)
  crashes : Ensures P crash

module _ {A : Type 0} {P : A → Type 0} where
  returned : {m : Run A} → Ensures P m → (a : A) → m ≡ done a → P a
  returned (returns h) a e = subst P (cc) h
  returned crashes a e = cc

  pub Ensures-of_eq : {m : Run A} {a : A} → Ensures P m → m ≡ done a → P a
  Ensures-of_eq {a = a} h e = returned h a e

  pub Ensures-bind :
      {B : Type 0} {Q : B → Type 0} (m : Run B) (f : B → Run A)
      → Ensures Q m
      → ((b : B) → m ≡ done b → Q b → Ensures P (f b))
      → Ensures P (m >>= f)
  unfolding ◌>>=◌
  Ensures-bind m f (returns {a = b} h) k = k b refl h
  Ensures-bind m f crashes k = crashes

  pub Ensures-deref :
      {B : Type 0} (o : Option B) (f : B → Run A)
      → ((b : B) → o ≡ some b → Ensures P (f b))
      → Ensures P (deref o >>= f)
  unfolding ◌>>=◌ deref
  Ensures-deref none f k = crashes
  Ensures-deref (some b) f k = k b refl

  pub Ensures-check : (b : Bool) (m : Run A) → (b ≡ true → Ensures P m) → Ensures P (check b m)
  unfolding check
  Ensures-check true m k = k refl
  Ensures-check false m k = crashes

  pub Ensures-if_null :
      {B : Type 0} (o : Option B) (m : Run A) (f : B → Run A)
      → (o ≡ none → Ensures P m)
      → ((b : B) → o ≡ some b → Ensures P (f b))
      → Ensures P (if_null o m f)
  unfolding if_null
  Ensures-if_null none m f h k = h refl
  Ensures-if_null (some b) m f h k = k b refl

  pub Ensures-if :
      (b : Bool) (m n : Run A)
      → (b ≡ true → Ensures P m)
      → (b ≡ false → Ensures P n)
      → Ensures P (if b then m else n)
  Ensures-if true m n h k = h refl
  Ensures-if false m n h k = k refl

module _ {A B : Type 0} {o : Option A} (b : B) (f : A → B) where
  pub if_null-none : o ≡ none → if_null o b f ≡ b
  unfolding if_null
  if_null-none e = rw e

  pub if_null-some : (a : A) → o ≡ some a → if_null o b f ≡ f a
  unfolding if_null
  if_null-some a e = rw e

module _ {A : Type 0} {b : Bool} (m : Run A) where
  pub check-true : b ≡ true → check b m ≡ m
  unfolding check
  check-true e = rw e

  pub check-false : b ≡ false → check b m ≡ crash
  unfolding check
  check-false e = rw e

module _ {A B : Type 0} {m : Run A} (f : A → Run B) where
  pub >>=-done : (a : A) → m ≡ done a → (m >>= f) ≡ f a
  unfolding ◌>>=◌
  >>=-done a e = rw e

  pub >>=-crash : m ≡ crash → (m >>= f) ≡ crash
  unfolding ◌>>=◌
  >>=-crash e = rw e

module _ {A B : Type 0} {o : Option A} (f : A → Run B) where
  pub deref-some : (a : A) → o ≡ some a → (deref o >>= f) ≡ f a
  unfolding ◌>>=◌ deref
  deref-some a e = rw e

  pub deref-none : o ≡ none → (deref o >>= f) ≡ crash
  unfolding ◌>>=◌ deref
  deref-none e = rw e

-- A read after a write.
pub update_self : {A : Type 0} (m : Ptr → A) (p : Ptr) (a : A) → update m p a p ≡ a
update_self m p a = rw (==_refl p)

pub update_ne : {A : Type 0} (m : Ptr → A) (p q : Ptr) (a : A) → q ≢ p → update m p a q ≡ m q
update_ne m p q a h = ground arith
