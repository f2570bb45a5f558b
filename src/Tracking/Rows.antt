-- ===== src/Tracking/Rows.antt =====
-- The rows of `trades` on one side and of one symbol, and the orders placed for them.
use outbound_api.Prelude.{
  ℕ, ◌+◌, ◌≤◌, ◌≡◌, refl, sym, ◌∙◌, Bool, true, false, ◌&&◌, String, str_eq, List, [], ◌∷◌, arith,
  count, count-append, ==_iff, Option-cases, inl, inr, filter, All,
}
use outbound_api.Prelude.Table.{
  bit, lookup, update, erase, Unique, append-Unique, update-Unique, erase-Unique, lookup-append,
  count-update, count-update-none, count-erase, count-erase-none,
}
use outbound_api.Model.{Side, Trade, AccountTransfer}
use outbound_api.Repository.Store.{Env, World, OrderRequest, best_effort}
use outbound_api.Repository.Outcome.{Ends, Ends-weaken, Ends-best_effort, Holds}
use outbound_api.Repository.Trades.{stored, overwrite, create_trade, update_trade, delete_trade}
use outbound_api.Repository.Effects.{
  SameTables-Holds, create_trade_effect, update_trade_effect, delete_trade_effect,
}
use outbound_api.Repository.Alike.{trade_id, Alike, filter-Alike, append-Alike}
use outbound_api.Repository.Keeps.{Keeps}
use outbound_api.Repository.Known.{RowOf, RowOf-map, RowOf-erase, RowOf-update, All-Alike-RowOf}

abbrev pub same_side : Side → Side → Bool
same_side Side.buy Side.buy = true
same_side Side.sell Side.sell = true
same_side _ _ = false

module _ {D : Type 0} (side : Side) (symbol : String) where
  abbrev pub is_row : Trade D → Bool
  is_row t = same_side t.side side && str_eq t.symbol symbol

  abbrev pub is_order : OrderRequest D → Bool
  is_order r = same_side r.side side && str_eq r.symbol symbol

  abbrev pub rows : List (Trade D) → ℕ
  rows ts = count is_row ts

  abbrev pub placed : World D → ℕ
  placed w = count is_order w.orders

  -- There are `k` rows or more, and the rows of `l` count as they do.
  pub record Rows (k : ℕ) (l ts : List (Trade D)) (fs : List (AccountTransfer D)) : Type 0 where
    pub unique : Unique trade_id ts
    pub enough : k ≤ rows ts
    pub known : All (RowOf is_row ts) l

  module _ (env : Env D) where
    rows-update :
        (new : Trade D) (ts : List (Trade D))
        → Unique trade_id ts
        → RowOf is_row ts new
        → rows (update trade_id new.id (overwrite env new) ts) ≡ rows ts
    rows-update new ts u row = elim (Option-cases (lookup trade_id new.id ts)) [
      | inl absent ↦ count-update-none trade_id is_row new.id (overwrite env new) ts absent
      | inr (old, present) ↦
          let at = count-update trade_id is_row new.id (overwrite env new) ts old u present in
          let same = row old present in ground arith
    ]

  rows-erase :
      (t : Trade D) (ts : List (Trade D))
      → Unique trade_id ts
      → RowOf is_row ts t
      → rows ts ≤ rows (erase trade_id t.id ts) + bit (is_row t)
  rows-erase t ts u row = elim (Option-cases (lookup trade_id t.id ts)) [
    | inl absent ↦ omega (arith, count-erase-none trade_id is_row t.id ts absent)
    | inr (old, present) ↦
        let at = count-erase trade_id is_row t.id ts old u present in
        let same = row old present in ground arith
  ]

  -- The transfers do not matter, nor less rows or trades than before.
  pub same_trades-Rows :
      (k : ℕ) (l : List (Trade D)) (w v : World D)
      → v.trades ≡ w.trades
      → Holds (Rows k l) w
      → Holds (Rows k l) v
  same_trades-Rows k l w v same h = record {
    unique = rw same (h.unique);
    enough = rw same (h.enough);
    known = rw same (h.known);
  }

  pub weaken-Rows :
      (k k' : ℕ) (l ts : List (Trade D)) (fs : List (AccountTransfer D))
      → k' ≤ k
      → Rows k l ts fs
      → Rows k' l ts fs
  weaken-Rows k k' l ts fs le h =
      let enough = h.enough in record { unique = h.unique; enough = omega arith; known = h.known }

  pub forget-Rows :
      (k : ℕ) (l ts : List (Trade D)) (fs : List (AccountTransfer D))
      → Rows k l ts fs
      → Rows k [] ts fs
  forget-Rows k l ts fs h = record { unique = h.unique; enough = h.enough; known = tt }

  -- The rows of `l` are there, as inserted.
  pub record Inserted (k : ℕ) (l ts : List (Trade D)) (fs : List (AccountTransfer D)) : Type 0 where
    pub unique : Unique trade_id ts
    pub enough : k ≤ rows ts
    pub here : All (Alike is_row ts) l

  -- What a SELECT finds are rows of the table.
  pub filter-Rows :
      (k : ℕ) (p : Trade D → Bool) (ts : List (Trade D)) (fs : List (AccountTransfer D))
      → Rows k [] ts fs
      → Rows k (filter p ts) ts fs
  filter-Rows k p ts fs h = record {
    unique = h.unique;
    enough = h.enough;
    known = All-Alike-RowOf is_row ts (filter p ts) (filter-Alike is_row p ts h.unique);
  }

  pub Inserted-Rows :
      (k : ℕ) (l ts : List (Trade D)) (fs : List (AccountTransfer D))
      → Inserted k l ts fs
      → Rows k l ts fs
  Inserted-Rows k l ts fs h = record {
    unique = h.unique;
    enough = h.enough;
    known = All-Alike-RowOf is_row ts l h.here;
  }

  module _ (env : Env D) (k : ℕ) (l : List (Trade D)) where
    pub create_trade-Inserted :
        (t : Trade D) (w : World D)
        → Holds (Inserted k l) w
        → Ends
            (λ _. Holds (Inserted (k + bit (is_row t)) (t ∷ l)))
            (Holds (Inserted k l))
            (create_trade env t w)
    create_trade-Inserted t w h =
        Ends-weaken (create_trade env t w) (create_trade_effect env t w)
          (λ _ v (fresh, added, kept).
            let enough = h.enough in
            rw (added, kept)
              (record {
                unique = append-Unique trade_id w.trades (stored env t) h.unique fresh;
                enough = rw (count-append is_row w.trades (stored env t ∷ [])) (ground arith);
                here = (
                  (
                    stored env t,
                    lookup-append trade_id t.id w.trades (stored env t) fresh
                        ∙ rw ((==_iff t.id t.id).1 refl) refl,
                    refl,
                  ),
                  append-Alike is_row (stored env t) w.trades l fresh h.here,
                );
              }))
          (λ v kept. SameTables-Holds (Inserted k l) w v kept h)

    pub update_trade-Rows :
        (t new : Trade D)
        → new.id ≡ t.id
        → is_row new ≡ is_row t
        → Keeps (Rows k (t ∷ l)) (update_trade env new)
    update_trade-Rows t new id same w h =
        let row : RowOf is_row w.trades new = λ r e. h.known.0 r (rw (← id) e) ∙ sym same in
        Ends-weaken (update_trade env new w) (update_trade_effect env new w)
          (λ _ v (changed, kept).
            rw (changed, kept)
              (record {
                unique =
                    update-Unique trade_id new.id (overwrite env new) (λ r. refl) w.trades h.unique;
                enough = rw (rows-update env new w.trades h.unique row) (h.enough);
                known =
                    RowOf-map is_row (t ∷ l) w.trades _
                      (λ u. RowOf-update is_row env (λ x r. refl) new u w.trades row) h.known;
              }))
          (λ v kept. SameTables-Holds (Rows k (t ∷ l)) w v kept h)

    delete_trade-Rows :
        (t : Trade D) (w : World D)
        → Holds (Rows (k + bit (is_row t)) (t ∷ l)) w
        → Ends
            (λ _. Holds (Rows k l))
            (Holds (Rows (k + bit (is_row t)) (t ∷ l)))
            (delete_trade env t.id w)
    delete_trade-Rows t w h =
        Ends-weaken (delete_trade env t.id w) (delete_trade_effect env t.id w)
          (λ _ v (erased, kept).
            let one_less = rows-erase t w.trades h.unique h.known.0 in
            let enough = h.enough in
            rw (erased, kept)
              (record {
                unique = erase-Unique trade_id t.id w.trades h.unique;
                enough = omega arith;
                known =
                    RowOf-map is_row l w.trades _ (λ u. RowOf-erase is_row t.id u w.trades)
                      h.known.1;
              }))
          (λ v kept. SameTables-Holds (Rows (k + bit (is_row t)) (t ∷ l)) w v kept h)

    -- A clean-up, whose failure is logged and dropped.
    pub delete_row-Rows :
        (t : Trade D) (w : World D)
        → Holds (Rows (k + bit (is_row t)) (t ∷ l)) w
        → Ends (λ _. Holds (Rows k l)) (Holds (Rows k l)) (best_effort (delete_trade env t.id) w)
    delete_row-Rows t w h = Ends-best_effort (delete_trade env t.id) w (Holds (Rows k l)) (
        Ends-weaken _ (delete_trade-Rows t w h) (λ _ _ h'. h')
          λ v h'.
            let enough = h'.enough in
            record { unique = h'.unique; enough = omega arith; known = h'.known.1 })
