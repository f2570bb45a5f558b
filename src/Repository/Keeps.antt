-- ===== src/Repository/Keeps.antt =====
-- Calls that keep what holds of the tables, and how they compose.
use outbound_api.Prelude.{Bool, true, false, if◌then◌else◌}
use outbound_api.Repository.Store.{
  Env, World, M, ◌>>=◌, pure, best_effort, within_transaction, next_tick,
}
use outbound_api.Repository.Outcome.{
  Ends, Ends-bind, Ends-best_effort, Ends-weaken, Ends-within_transaction, Tables, Holds,
}
use outbound_api.Repository.Reads.{Reads}
use outbound_api.Repository.Effects.{SameTables-Holds}

module _ {D : Type 0} (env : Env D) where
  -- What holds of the tables holds after a call that leaves them alone.
  pub Reads-keep :
      {A : Type 0} (T : Tables D) (m : M D A) (w : World D)
      → Reads env m
      → Holds T w
      → Ends (λ _. Holds T) (Holds T) (m w)
  Reads-keep T m w reads h =
      Ends-weaken (m w) (reads w) (λ _ v same. SameTables-Holds T w v same h)
        (λ v same. SameTables-Holds T w v same h)

module _ {D : Type 0} (T : Tables D) where
  -- However the call ends.
  abbrev pub Keeps : {A : Type 0} → M D A → Type 0
  Keeps m = (w : World D) → Holds T w → Ends (λ _. Holds T) (Holds T) (m w)

  pub pure-Keeps : {A : Type 0} (a : A) → Keeps (pure a)
  pure-Keeps a w h = record { outcome = h }

  pub bind-Keeps :
      {A B : Type 0} (m : M D A) (f : A → M D B)
      → Keeps m
      → ((a : A) → Keeps (f a))
      → Keeps (m >>= f)
  bind-Keeps m f keeps next w h = Ends-bind m f w (keeps w h) λ a v h'. next a v h'

  pub if-Keeps :
      {A : Type 0} (b : Bool) (m n : M D A) → Keeps m → Keeps n → Keeps (if b then m else n)
  if-Keeps true m n k k' = k
  if-Keeps false m n k k' = k'

  pub best_effort-Keeps : (m : M D (Unit {0})) → Keeps m → Keeps (best_effort m)
  best_effort-Keeps m keeps w h = Ends-best_effort m w (Holds T) (keeps w h)

  pub Reads-Keeps : (env : Env D) {A : Type 0} (m : M D A) → Reads env m → Keeps m
  Reads-Keeps env m reads w h = Reads-keep env T m w reads h

  pub within_transaction-Keeps :
      (env : Env D) {A : Type 0} (body : M D A) → Keeps body → Keeps (within_transaction env body)
  within_transaction-Keeps env body keeps w s =
      Ends-within_transaction env T (λ _. T) body w s
        (Ends-weaken (body (next_tick w)) (keeps (next_tick w) s) (λ _ _ h. h) (λ _ _. tt))
