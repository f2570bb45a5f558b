-- ===== src/Decimal/Laws.antt =====
-- What the program relies on of the decimals: the comparisons are those of one total order, and
-- sums, products and quotients respect it. Decimals of equal value may differ in representation, so
-- the order is antisymmetric only up to `equal`. A quotient is rounded, and rounding is monotone.
use outbound_api.Prelude.{◌≡◌, ◌⊎◌, true, not, ◌&&◌}
use outbound_api.Decimal.Interface.{Decimal}

infix 4 ◌≼◌
abbrev pub ◌≼◌ : {D : Type 0} ⦃dec : Decimal D⦄ → D → D → Type 0
◌≼◌ ⦃dec⦄ x y = dec.le x y ≡ true

pub record IsOrdered (D : Type 0) ⦃dec : Decimal D⦄ : Type 0 where
  pub le_refl : (x : D) → x ≼ x
  pub le_trans : (x y z : D) → x ≼ y → y ≼ z → x ≼ z
  pub le_total : (x y : D) → (x ≼ y) ⊎ (y ≼ x)
  pub lt_eq : (x y : D) → dec.lt x y ≡ not (dec.le y x)
  pub gt_eq : (x y : D) → dec.gt x y ≡ not (dec.le x y)
  pub ge_eq : (x y : D) → dec.ge x y ≡ dec.le y x
  pub equal_eq : (x y : D) → dec.equal x y ≡ (dec.le x y && dec.le y x)
  pub is_zero_eq : (x : D) → dec.is_zero x ≡ dec.equal x dec.naught

-- `add`, `sub` and `mul` are exact.
pub record IsArithmetic (D : Type 0) ⦃dec : Decimal D⦄ : Type 0 where
  pub sub_mono : (x y z : D) → x ≼ y → dec.sub x z ≼ dec.sub y z
  pub sub_swap : (x y z : D) → y ≼ dec.sub x z → z ≼ dec.sub x y
  pub quo_mono : (x y a : D) → dec.gt a dec.naught ≡ true → x ≼ y → dec.quo x a ≼ dec.quo y a
