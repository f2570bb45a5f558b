-- ===== src/Decimal/Whole.antt =====
-- The laws can be met: whole numbers, with the quotient towards zero.
use Prim.Native.Nat.{◌/◌}
use native.Mathlib.Nat.{le-div_iff_mul-le, div-mul-le_self, le_trans}
use outbound_api.Prelude.{◌≤◌, ℕ, zero, suc, ◌≡◌, true, not, arith, if◌then◌else◌}
use outbound_api.Prelude.Integers.{
  ℤ, pos, negsuc, ◌+ℤ◌, ◌-ℤ◌, ◌*ℤ◌, ◌/ℤ◌, abs_ℤ, leb_ℤ, eqb_ℤ, -ℤ_mono, -ℤ_swap,
}
use outbound_api.Decimal.{Decimal, IsOrdered, IsArithmetic}

instance abbrev pub whole_decimal : Decimal ℤ
whole_decimal = record {
  naught = pos 0;
  from_int = pos;
  add = ◌+ℤ◌;
  sub = ◌-ℤ◌;
  mul = ◌*ℤ◌;
  quo = ◌/ℤ◌;
  abs = abs_ℤ;
  max = λ a b. if leb_ℤ a b then b else a;
  lt = λ a b. not (leb_ℤ b a);
  le = leb_ℤ;
  gt = λ a b. not (leb_ℤ a b);
  ge = λ a b. leb_ℤ b a;
  equal = eqb_ℤ;
  is_zero = λ a. eqb_ℤ a (pos 0);
}

pub whole-IsOrdered : IsOrdered ℤ
whole-IsOrdered = ground arith

div_mono : (x y k : ℕ) → x ≤ y → x / suc k ≤ y / suc k
div_mono x y k h = (le-div_iff_mul-le (omega arith)).1 (le_trans (div-mul-le_self x (suc k)) h)

-- The quotient by a positive number keeps the order, on either side of zero.
/ℤ_mono :
    (a b c : ℤ) → not (leb_ℤ c (pos 0)) ≡ true → leb_ℤ a b ≡ true → leb_ℤ (a /ℤ c) (b /ℤ c) ≡ true
unfolding ◌/ℤ◌
/ℤ_mono a b (negsuc k) p h = ground arith
/ℤ_mono a b (pos zero) p h = ground arith
/ℤ_mono (pos x) (pos y) (pos (suc k)) p h = ground (arith, div_mono x y k)
/ℤ_mono (pos x) (negsuc y) (pos (suc k)) p h = ground arith
/ℤ_mono (negsuc x) (pos y) (pos (suc k)) p h = ground arith
/ℤ_mono (negsuc x) (negsuc y) (pos (suc k)) p h = ground (arith, div_mono (suc y) (suc x) k)

pub whole-IsArithmetic : IsArithmetic ℤ
whole-IsArithmetic = record { sub_mono = -ℤ_mono; sub_swap = -ℤ_swap; quo_mono = /ℤ_mono }
