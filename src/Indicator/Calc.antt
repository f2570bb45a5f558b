-- ===== src/Indicator/Calc.antt =====
-- The result of a calculation: a value, an error of the program, or a panic.
use outbound_api.Prelude.{ℕ, suc, ◌≡◌, ◌<◌, Option, none, some, Bool, true, false, arith, leb, ◌==◌}
use outbound_api.Decimal.{Decimal, IsOrdered, div, ◌≼◌}

pub data CalcError : Type 0 where
  bad_period no_values not_enough_values no_bars too_few_bars : CalcError

pub data Calc (A : Type 0) : Type 0 where
  value : A → Calc A
  failed : CalcError → Calc A
  panics : Calc A

infixl 5 ◌>>=◌
abbrev pub ◌>>=◌ : {A B : Type 0} → Calc A → (A → Calc B) → Calc B
value a >>= f = f a
failed e >>= f = failed e
panics >>= f = panics

abbrev pub of_option : {A : Type 0} → Option A → Calc A
of_option none = panics
of_option (some a) = value a

module _ {D : Type 0} ⦃dec : Decimal D⦄ where
  -- `a.Div(b)`
  abbrev pub divide : D → D → Calc D
  divide a b = of_option (div a b)

-- What the calculations rely on: a positive whole number is not zero, and signs of sums, products
-- and quotients are as in arithmetic. A quotient of a whole number by at least one does not exceed it.
pub record IsSigned (D : Type 0) ⦃dec : Decimal D⦄ : Type 0 where
  pub from_int_pos : (n : ℕ) → dec.gt (dec.from_int (suc n)) dec.naught ≡ Bool.true
  pub from_int_nonneg : (n : ℕ) → dec.naught ≼ dec.from_int n
  pub add_nonneg : (x y : D) → dec.naught ≼ x → dec.naught ≼ y → dec.naught ≼ dec.add x y
  pub mul_nonneg : (x y : D) → dec.naught ≼ x → dec.naught ≼ y → dec.naught ≼ dec.mul x y
  pub quo_nonneg :
      (x y : D) → dec.naught ≼ x → dec.gt y dec.naught ≡ Bool.true → dec.naught ≼ dec.quo x y
  pub abs_nonneg : (x : D) → dec.naught ≼ dec.abs x
  pub le-add_left : (x y : D) → dec.naught ≼ y → x ≼ dec.add x y
  pub quo-le : (n : ℕ) (y : D) → dec.from_int 1 ≼ y → dec.quo (dec.from_int n) y ≼ dec.from_int n
  pub sub_nonneg : (x y : D) → y ≼ x → dec.naught ≼ dec.sub x y
  pub sub-le : (x y : D) → dec.naught ≼ y → dec.sub x y ≼ x

-- A calculation that gives a value with a property.
abbrev pub Gives : {A : Type 0} → (A → Type 0) → Calc A → Type 0
Gives P (value a) = P a
Gives P (failed e) = ⊥
Gives P panics = ⊥

pub Gives-bind :
    {A B : Type 0} {P : A → Type 0} (Q : B → Type 0) (c : Calc A) (f : A → Calc B)
    → Gives P c
    → ((a : A) → P a → Gives Q (f a))
    → Gives Q (c >>= f)
Gives-bind Q (value a) f h k = k a h
Gives-bind Q (failed e) f h k = absurd h
Gives-bind Q panics f h k = absurd h

pub leb-false : (a b : ℕ) → b < a → leb a b ≡ false
leb-false a b h = ground arith

pub suc_not_zero : (n : ℕ) → (suc n == 0) ≡ false
suc_not_zero n = ground arith

abbrev pub NonNeg : {D : Type 0} ⦃dec : Decimal D⦄ → D → Type 0
NonNeg ⦃dec⦄ x = dec.naught ≼ x

module _ {D : Type 0} ⦃dec : Decimal D⦄ (laws : IsOrdered D) where
  -- A positive divisor does not panic.
  pub positive_not_zero : (y : D) → dec.gt y dec.naught ≡ true → dec.is_zero y ≡ false
  positive_not_zero y h =
      ground (arith, laws.gt_eq y dec.naught, laws.is_zero_eq y, laws.equal_eq y dec.naught)

  pub divide_nonneg :
      (signs : IsSigned D) (x y : D)
      → NonNeg x
      → dec.gt y dec.naught ≡ true
      → Gives NonNeg (divide x y)
  divide_nonneg signs x y h p = rw (positive_not_zero y p) (signs.quo_nonneg x y h p)
