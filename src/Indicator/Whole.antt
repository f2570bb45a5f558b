-- ===== src/Indicator/Whole.antt =====
-- The laws of signs can be met: they hold of whole numbers.
use native.Mathlib.Nat.{div-le_self}
use outbound_api.Prelude.{ℕ, zero, suc, ◌≡◌, true, not, arith}
use outbound_api.Prelude.Integers.{ℤ, pos, negsuc, ◌+ℤ◌, ◌-ℤ◌, ◌*ℤ◌, ◌/ℤ◌, abs_ℤ, leb_ℤ}
use outbound_api.Decimal.Whole.{whole_decimal}
use outbound_api.Indicator.Calc.{IsSigned}

*ℤ_nonneg :
    (x y : ℤ) → leb_ℤ (pos 0) x ≡ true → leb_ℤ (pos 0) y ≡ true → leb_ℤ (pos 0) (x *ℤ y) ≡ true
unfolding ◌*ℤ◌
*ℤ_nonneg (pos a) (pos b) h k = ground arith
*ℤ_nonneg (pos a) (negsuc b) h k = ground arith
*ℤ_nonneg (negsuc a) y h k = ground arith

/ℤ_nonneg :
    (x y : ℤ)
    → leb_ℤ (pos 0) x ≡ true
    → not (leb_ℤ y (pos 0)) ≡ true
    → leb_ℤ (pos 0) (x /ℤ y) ≡ true
unfolding ◌/ℤ◌
/ℤ_nonneg (pos a) (pos b) h k = ground arith
/ℤ_nonneg (pos a) (negsuc b) h k = ground arith
/ℤ_nonneg (negsuc a) y h k = ground arith

/ℤ-le : (n : ℕ) (y : ℤ) → leb_ℤ (pos 1) y ≡ true → leb_ℤ (pos n /ℤ y) (pos n) ≡ true
unfolding ◌/ℤ◌
/ℤ-le n (pos zero) h = ground arith
/ℤ-le n (pos (suc b)) h = ground (arith, div-le_self n (suc b))
/ℤ-le n (negsuc b) h = ground arith

+ℤ_nonneg :
    (x y : ℤ) → leb_ℤ (pos 0) x ≡ true → leb_ℤ (pos 0) y ≡ true → leb_ℤ (pos 0) (x +ℤ y) ≡ true
unfolding ◌+ℤ◌
+ℤ_nonneg x y h k = ground arith

le-+ℤ : (x y : ℤ) → leb_ℤ (pos 0) y ≡ true → leb_ℤ x (x +ℤ y) ≡ true
unfolding ◌+ℤ◌
le-+ℤ x y h = ground arith

-ℤ_nonneg : (x y : ℤ) → leb_ℤ y x ≡ true → leb_ℤ (pos 0) (x -ℤ y) ≡ true
unfolding ◌-ℤ◌
-ℤ_nonneg x y h = ground arith

-ℤ-le : (x y : ℤ) → leb_ℤ (pos 0) y ≡ true → leb_ℤ (x -ℤ y) x ≡ true
unfolding ◌-ℤ◌
-ℤ-le x y h = ground arith

abs_nonneg : (x : ℤ) → leb_ℤ (pos 0) (abs_ℤ x) ≡ true
unfolding abs_ℤ
abs_nonneg x = ground arith

pub whole-IsSigned : IsSigned ℤ
whole-IsSigned = record {
  from_int_pos = λ n. ground arith;
  from_int_nonneg = λ n. ground arith;
  add_nonneg = +ℤ_nonneg;
  mul_nonneg = *ℤ_nonneg;
  quo_nonneg = /ℤ_nonneg;
  abs_nonneg = abs_nonneg;
  le-add_left = le-+ℤ;
  quo-le = /ℤ-le;
  sub_nonneg = -ℤ_nonneg;
  sub-le = -ℤ-le;
}
