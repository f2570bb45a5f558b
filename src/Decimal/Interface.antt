-- ===== src/Decimal/Interface.antt =====
-- The operations of `decimal.Decimal` that the program calls.
use outbound_api.Prelude.{ℕ, Bool, Option, none, some, if◌then◌else◌}

pub record Decimal (D : Type 0) : Type 0 where
  pub naught : D
  pub from_int : ℕ → D
  pub add : D → D → D
  pub sub : D → D → D
  pub mul : D → D → D
  pub quo : D → D → D
  pub abs : D → D
  pub max : D → D → D
  pub lt : D → D → Bool
  pub le : D → D → Bool
  pub gt : D → D → Bool
  pub ge : D → D → Bool
  pub equal : D → D → Bool
  pub is_zero : D → Bool

module _ {D : Type 0} ⦃dec : Decimal D⦄ where
  -- `a.Div(b)`; `none` is the panic "decimal division by 0".
  abbrev pub div : D → D → Option D
  div a b = if dec.is_zero b then none else some (dec.quo a b)
