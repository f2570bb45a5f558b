-- ===== src/Prelude/Fallible.antt =====
-- A result or an error, as the pair `(value, error)` that a Go function returns.
use outbound_api.Prelude.{◌≡◌, refl, Bool, true, false, Option, none, some}

pub data Fallible (E A : Type 0) : Type 0 where
  success : A → Fallible E A
  failure : E → Fallible E A

module _ {E : Type 0} where
  infixl 5 ◌>>=◌ ◌>>◌
  -- `if err != nil { return err }`
  abbrev pub ◌>>=◌ : {A B : Type 0} → Fallible E A → (A → Fallible E B) → Fallible E B
  success a >>= f = f a
  failure e >>= f = failure e

  abbrev pub ◌>>◌ : {B : Type 0} → Fallible E (Unit {0}) → Fallible E B → Fallible E B
  m >> k = m >>= λ _. k

  abbrev pub or_fail : {A : Type 0} → Option A → E → Fallible E A
  or_fail none e = failure e
  or_fail (some a) e = success a

  abbrev pub guard : Bool → E → Fallible E (Unit {0})
  guard true e = success tt
  guard false e = failure e

  abbrev pub failure_of : {A : Type 0} → Fallible E A → Option E
  failure_of (success a) = none
  failure_of (failure e) = some e

  -- A property of the result, if there is one.
  abbrev pub OnSuccess : {A : Type 0} → (A → Type 0) → Fallible E A → Type 0
  OnSuccess P (success a) = P a
  OnSuccess P (failure e) = Unit

  pub OnSuccess-success :
      {A : Type 0} (P : A → Type 0) (m : Fallible E A) (a : A) → OnSuccess P m → m ≡ success a → P a
  OnSuccess-success P (success b) a h e = let same : b ≡ a = cc in rw same at h
  OnSuccess-success P (failure b) a h e = cc

  pub OnSuccess-bind :
      {A B : Type 0} (P : B → Type 0) (m : Fallible E A) (f : A → Fallible E B)
      → ((a : A) → m ≡ success a → OnSuccess P (f a))
      → OnSuccess P (m >>= f)
  OnSuccess-bind P (success a) f h = h a refl
  OnSuccess-bind P (failure e) f h = tt

  pub OnSuccess-or_fail :
      {A B : Type 0} (P : B → Type 0) (o : Option A) (e : E) (f : A → Fallible E B)
      → ((a : A) → o ≡ some a → OnSuccess P (f a))
      → OnSuccess P (or_fail o e >>= f)
  OnSuccess-or_fail P none e f h = tt
  OnSuccess-or_fail P (some a) e f h = h a refl

  pub OnSuccess-guard :
      {B : Type 0} (P : B → Type 0) (b : Bool) (e : E) (m : Fallible E B)
      → (b ≡ true → OnSuccess P m)
      → OnSuccess P (guard b e >> m)
  OnSuccess-guard P true e m h = h refl
  OnSuccess-guard P false e m h = tt
