-- ===== src/Tracking/Placing.antt =====
-- Worlds in which every order that was placed has its row: `Tracked c l` has `c` rows more than orders,
-- for orders that are still to be placed, and the rows of `l` count as they do.
use outbound_api.Prelude.{ℕ, ◌+◌, ◌≤◌, ◌≡◌, sym, arith, false, List, Option-cases, inl, inr}
use outbound_api.Prelude.Table.{bit}
use outbound_api.Model.{Side, Trade}
use outbound_api.Prelude.{String}
use outbound_api.Repository.Store.{Env, World, M, OrderRequest, place_order}
use outbound_api.Repository.Outcome.{Ends, Ends-weaken, Holds}
use outbound_api.Repository.Orders.{PlacesNone}
use outbound_api.Repository.Orders.Calls.{Ends-orders}
use outbound_api.Repository.Keeps.{Keeps}
use outbound_api.Tracking.Rows.{is_order, placed, Rows, weaken-Rows}
use mathlib.Core.Path.{subst}

-- The broker keeps no order whose answer is an error.
abbrev pub IsReported : {D : Type 0} → Env D → Type 0
IsReported env = (i : ℕ) → env.is_kept i ≡ false

module _ {D : Type 0} (side : Side) (symbol : String) where
  abbrev pub Tracked : ℕ → List (Trade D) → World D → Type 0
  Tracked c l w = Holds (Rows side symbol (placed side symbol w + c) l) w

  pub weaken-Tracked :
      (c c' : ℕ) (l : List (Trade D)) (w : World D) → c' ≤ c → Tracked c l w → Tracked c' l w
  weaken-Tracked c c' l w le h =
      weaken-Rows side symbol (placed side symbol w + c) (placed side symbol w + c') l w.trades
        w.transfers (omega arith) h

  pub same_orders-Tracked :
      (c : ℕ) (l : List (Trade D)) (w v : World D)
      → v.orders ≡ w.orders
      → Holds (Rows side symbol (placed side symbol w + c) l) v
      → Tracked c l v
  same_orders-Tracked c l w v same h =
      subst
        (λ o.
          Rows side symbol (placed side symbol (record w { orders = o }) + c) l v.trades
            v.transfers)
        (sym same) h

  -- A call that places no order: it is enough to look at the rows.
  pub Ends-Tracked :
      {A : Type 0} (m : M D A) (w : World D) (c : ℕ) (l : List (Trade D)) (c' : ℕ)
      (l' : List (Trade D))
      → PlacesNone m
      → Ends
          (λ _. Holds (Rows side symbol (placed side symbol w + c') l'))
          (Holds (Rows side symbol (placed side symbol w + c) l))
          (m w)
      → Ends (λ _. Tracked c' l') (Tracked c l) (m w)
  Ends-Tracked m w c l c' l' quiet h =
      Ends-weaken (m w)
        (Ends-orders m w (λ _. Holds (Rows side symbol (placed side symbol w + c') l'))
          (Holds (Rows side symbol (placed side symbol w + c) l)) quiet h)
        (λ _ v (rows, same). same_orders-Tracked c' l' w v same rows)
        (λ v (rows, same). same_orders-Tracked c l w v same rows)

  pub Keeps-Tracked :
      {A : Type 0} (m : M D A) (c : ℕ) (l : List (Trade D)) (w : World D)
      → PlacesNone m
      → ((k : ℕ) → Keeps (Rows side symbol k l) m)
      → Tracked c l w
      → Ends (λ _. Tracked c l) (Tracked c l) (m w)
  Keeps-Tracked m c l w quiet keeps h =
      Ends-Tracked m w c l c l quiet (keeps (placed side symbol w + c) w h)

  -- An accepted order takes a row that was there for it, if the broker keeps no order whose answer is
  -- an error.
  pub place_order-Tracked :
      (env : Env D) (reported : IsReported env) (req : OrderRequest D) (c : ℕ) (l : List (Trade D))
      (w : World D)
      → Tracked (c + bit (is_order side symbol req)) l w
      → Ends
          (λ _. Tracked c l)
          (Tracked (c + bit (is_order side symbol req)) l)
          (place_order env req w)
  unfolding place_order
  place_order-Tracked env reported req c l w h = elim (Option-cases (env.place_order w.tick)) [
    | inl refused ↦ rw (refused, reported w.tick, place_order) (record { outcome = h })
    | inr (order, accepted) ↦
        rw (accepted, place_order)
          (record { outcome = weaken-Rows side symbol _ _ l w.trades w.transfers (ground arith) h })
  ]
