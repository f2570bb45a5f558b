-- ===== src/Decimal.antt =====
-- The decimals of github.com/shopspring/decimal, which the program imports: the operations that it
-- calls, as an interface, and the documented laws on which results rest. `quo` is `Div` at a
-- divisor that is not zero; at zero `Div` panics, and `div` says so.
mod Laws
pub mod Whole
mod Interface
pub use Interface.*
pub use Laws.*
