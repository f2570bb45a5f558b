-- ===== src/Position/Tables.antt =====
-- Tables with at most one open position of a symbol.
use mathlib.Core.Path.{subst}
use outbound_api.Prelude.{
  ℕ, ◌≤◌, ◌≡◌, refl, sym, Bool, Option, none, some, String, List, [], ◌∷◌, arith, filter, All,
}
use outbound_api.Prelude.Table.{Unique}
use outbound_api.Model.{Trade, AccountTransfer}
use outbound_api.Repository.Store.{Env, World}
use outbound_api.Repository.Outcome.{Holds}
use outbound_api.Repository.Trades.{stored, overwrite}
use outbound_api.Repository.Alike.{trade_id, Alike, filter-Alike}
use outbound_api.Repository.Known.{RowOf, All-Alike-RowOf}
use outbound_api.Position.Rows.{
  pending, is_sell_of, is_position, positions-reorder, positions, positions-settled,
}

module _ {D : Type 0} (symbol : String) where
  -- What the positions depend on: of which buy a row is a sell, and whether it is a position.
  abbrev pub view : Option ℕ → Trade D → Bool
  view none t = is_position symbol t
  view (some id) t = is_sell_of id t

  pub view-overwrite :
      (env : Env D) (v : Option ℕ) (x r : Trade D) → view v (overwrite env x r) ≡ view v x
  view-overwrite env none x r = refl
  view-overwrite env (some id) x r = refl

  pub view-stored : (env : Env D) (v : Option ℕ) (x : Trade D) → view v (stored env x) ≡ view v x
  view-stored env none x = refl
  view-stored env (some id) x = refl

  -- There is at most one position, and the rows of `l` are as in the copies.
  pub record Single (ks : List ℕ) (l ts : List (Trade D)) (fs : List (AccountTransfer D))
      : Type 0 where
    pub unique : Unique trade_id ts
    pub one : positions symbol ks ts ≤ 1
    pub known : (v : Option ℕ) → All (RowOf (view v) ts) l

  -- The rows of `l` are there.
  pub record Stored (ks : List ℕ) (l ts : List (Trade D)) (fs : List (AccountTransfer D))
      : Type 0 where
    pub unique : Unique trade_id ts
    pub one : positions symbol ks ts ≤ 1
    pub here : (v : Option ℕ) → All (Alike (view v) ts) l

  pub Stored-Single :
      (ks : List ℕ) (l ts : List (Trade D)) (fs : List (AccountTransfer D))
      → Stored ks l ts fs
      → Single ks l ts fs
  Stored-Single ks l ts fs h = record {
    unique = h.unique;
    one = h.one;
    known = λ v. All-Alike-RowOf (view v) ts l (h.here v);
  }

  pub Single-Stored :
      (ks : List ℕ) (l ts : List (Trade D)) (fs : List (AccountTransfer D))
      → Single ks l ts fs
      → Stored ks [] ts fs
  Single-Stored ks l ts fs h = record { unique = h.unique; one = h.one; here = λ v. tt }

  -- Pending sells in another order.
  pub reorder-Stored :
      (ks ks' : List ℕ) (l l' ts : List (Trade D)) (fs : List (AccountTransfer D))
      → ((id : ℕ) → pending ks id ≡ pending ks' id)
      → ((v : Option ℕ) → All (Alike (view v) ts) l → All (Alike (view v) ts) l')
      → Stored ks l ts fs
      → Stored ks' l' ts fs
  reorder-Stored ks ks' l l' ts fs same move h =
      let one = h.one in
      let alike = positions-reorder symbol ks ks' ts same in
      record { unique = h.unique; one = omega arith; here = λ v. move v (h.here v) }

  pub forget-Single :
      (ks : List ℕ) (l ts : List (Trade D)) (fs : List (AccountTransfer D))
      → Single ks l ts fs
      → Single ks [] ts fs
  forget-Single ks l ts fs h = record { unique = h.unique; one = h.one; known = λ v. tt }

  -- An order has been accepted: the sell is no longer pending.
  pub settled-Single :
      (k : ℕ) (ks : List ℕ) (t : Trade D) (l ts : List (Trade D)) (fs : List (AccountTransfer D))
      → Single (k ∷ ks) (t ∷ l) ts fs
      → Single ks l ts fs
  settled-Single k ks t l ts fs h =
      let one = h.one in
      let fewer = positions-settled symbol k ks ts in
      record { unique = h.unique; one = omega arith; known = λ v. (h.known v).1 }

  pub same_trades-Single :
      (ks : List ℕ) (l : List (Trade D)) (w v : World D)
      → v.trades ≡ w.trades
      → Holds (Single ks l) w
      → Holds (Single ks l) v
  same_trades-Single ks l w v same h =
      subst (λ ts. Single ks l ts v.transfers) (sym same)
        (record { unique = h.unique; one = h.one; known = h.known })

  -- What a SELECT finds are rows of the table.
  pub filter-Single :
      (ks : List ℕ) (p : Trade D → Bool) (ts : List (Trade D)) (fs : List (AccountTransfer D))
      → Single ks [] ts fs
      → Single ks (filter p ts) ts fs
  filter-Single ks p ts fs h = record {
    unique = h.unique;
    one = h.one;
    known = λ v. All-Alike-RowOf (view v) ts (filter p ts) (filter-Alike (view v) p ts h.unique);
  }
