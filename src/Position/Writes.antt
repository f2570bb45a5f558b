-- ===== src/Position/Writes.antt =====
-- How the writes of `trades` change the open positions of a symbol.
use outbound_api.Prelude.{
  ℕ, ◌≤◌, ◌≡◌, refl, sym, ◌∙◌, true, false, Option, none, some, String, List, [], ◌∷◌, ◌++◌, arith,
  All, ==_iff, Option-cases, inl, inr,
}
use outbound_api.Prelude.Table.{
  has_key, lookup, update, append-Unique, update-Unique, erase-Unique, lookup-append,
  update_missing,
}
use outbound_api.Model.{Trade, AccountTransfer, is_buy}
use outbound_api.Repository.Store.{Env, World}
use outbound_api.Repository.Outcome.{Ends, Ends-weaken, Holds}
use outbound_api.Repository.Trades.{stored, overwrite, create_trade, update_trade, delete_trade}
use outbound_api.Repository.Effects.{
  SameTables-Holds, create_trade_effect, update_trade_effect, delete_trade_effect,
}
use outbound_api.Repository.Alike.{trade_id, Alike, append-Alike}
use outbound_api.Repository.Known.{RowOf, RowOf-map, RowOf-erase, RowOf-update}
use outbound_api.Repository.Keeps.{Keeps}
use outbound_api.Position.Rows.{
  is_position, positions, Same, positions-erase, positions-sell, positions-append, positions-update,
}
use outbound_api.Position.Tables.{view, view-overwrite, view-stored, Single, Stored}

module _ {D : Type 0} (symbol : String) (env : Env D) where
  -- The row of an insertion, as it is stored.
  appended :
      (v : Option ℕ) (t : Trade D) (ts l : List (Trade D))
      → has_key trade_id t.id ts ≡ false
      → All (Alike (view symbol v) ts) l
      → All (Alike (view symbol v) (ts ++ (stored env t ∷ []))) (t ∷ l)
  appended v t ts l fresh h = (
    (
      stored env t,
      lookup-append trade_id t.id ts (stored env t) fresh ∙ rw ((==_iff t.id t.id).1 refl) refl,
      view-stored symbol env v t,
    ),
    append-Alike (view symbol v) (stored env t) ts l fresh h,
  )

  pub create_buy-Stored :
      (t : Trade D) (w : World D)
      → (is_position symbol t ≡ true → positions symbol [] w.trades ≡ 0)
      → Holds (Stored symbol [] []) w
      → Ends (λ _. Holds (Stored symbol [] (t ∷ []))) (λ _. Unit) (create_trade env t w)
  create_buy-Stored t w first h =
      Ends-weaken (create_trade env t w) (create_trade_effect env t w)
        (λ _ v (fresh, added, kept).
          let one = h.one in
          let more = positions-append symbol (stored env t) [] w.trades in
          rw (added, kept)
            (record {
              unique = append-Unique trade_id w.trades (stored env t) h.unique fresh;
              one = ground (arith, first);
              here = λ v. appended v t w.trades [] fresh tt;
            }))
        (λ _ _. tt)

  pub create_sell-Stored :
      (s : Trade D) (ks : List ℕ) (l : List (Trade D)) (w : World D)
      → is_buy s.side ≡ false
      → Holds (Stored symbol ks l) w
      → Ends
          (λ _. Holds (Stored symbol (s.id ∷ ks) (s ∷ l)))
          (Holds (Stored symbol ks l))
          (create_trade env s w)
  create_sell-Stored s ks l w sells h =
      Ends-weaken (create_trade env s w) (create_trade_effect env s w)
        (λ _ v (fresh, added, kept).
          let one = h.one in
          let less = positions-sell symbol (stored env s) ks w.trades fresh sells in
          rw (added, kept)
            (record {
              unique = append-Unique trade_id w.trades (stored env s) h.unique fresh;
              one = omega arith;
              here = λ v. appended v s w.trades l fresh (h.here v);
            }))
        (λ v kept. SameTables-Holds (Stored symbol ks l) w v kept h)

  pub delete_sell-Single :
      (s : Trade D) (ks : List ℕ) (l : List (Trade D)) (w : World D)
      → Holds (Single symbol (s.id ∷ ks) (s ∷ l)) w
      → Ends
          (λ _. Holds (Single symbol ks l))
          (Holds (Single symbol (s.id ∷ ks) (s ∷ l)))
          (delete_trade env s.id w)
  delete_sell-Single s ks l w h =
      Ends-weaken (delete_trade env s.id w) (delete_trade_effect env s.id w)
        (λ _ v (erased, kept).
          let one = h.one in
          let less = positions-erase symbol s.id ks w.trades in
          rw (erased, kept)
            (record {
              unique = erase-Unique trade_id s.id w.trades h.unique;
              one = omega arith;
              known = λ v.
                  RowOf-map (view symbol v) l w.trades _
                    (λ u. RowOf-erase (view symbol v) s.id u w.trades) (h.known v).1;
            }))
        (λ v kept. SameTables-Holds (Single symbol (s.id ∷ ks) (s ∷ l)) w v kept h)

  -- The positions after an update of a row that a copy is held of.
  update-positions :
      (t new : Trade D) (ks : List ℕ) (l ts : List (Trade D)) (fs : List (AccountTransfer D))
      → Single symbol ks (t ∷ l) ts fs
      → new.id ≡ t.id
      → Same symbol new t
      → positions symbol ks (update trade_id new.id (overwrite env new) ts) ≤ 1
  update-positions t new ks l ts fs h id same = elim (Option-cases (lookup trade_id new.id ts)) [
    | inl absent ↦ rw (update_missing trade_id new.id (overwrite env new) ts absent) (h.one)
    | inr (r, row) ↦
        let one = h.one in
        let row' : lookup trade_id t.id ts ≡ some r = rw (← id) row in
        let less = positions-update symbol env new r ks ts h.unique row (record {
          sells = λ k. same.sells k ∙ sym ((h.known (some k)).0 r row');
          place = λ e. (h.known none).0 r row' ∙ same.place e;
        }) in
        omega arith
  ]

  -- A write that keeps what the positions depend on.
  pub update_same-Single :
      (t new : Trade D) (ks : List ℕ) (l : List (Trade D))
      → new.id ≡ t.id
      → ((v : Option ℕ) → view symbol v new ≡ view symbol v t)
      → Keeps (Single symbol ks (t ∷ l)) (update_trade env new)
  update_same-Single t new ks l id same w h =
      Ends-weaken (update_trade env new w) (update_trade_effect env new w)
        (λ _ v (changed, kept).
          let row : (v : Option ℕ) → RowOf (view symbol v) w.trades new =
            λ v r e. (h.known v).0 r (rw (← id) e) ∙ sym (same v) in
          rw (changed, kept)
            (record {
              unique =
                  update-Unique trade_id new.id (overwrite env new) (λ r. refl) w.trades h.unique;
              one =
                  update-positions t new ks l w.trades w.transfers h id
                    (record { sells = λ k. same (some k); place = λ e. sym (same none) ∙ e });
              known = λ v.
                  RowOf-map (view symbol v) (t ∷ l) w.trades _
                    (λ u.
                      RowOf-update (view symbol v) env (view-overwrite symbol env v) new u w.trades
                        (row v))
                    (h.known v);
            }))
        (λ v kept. SameTables-Holds (Single symbol ks (t ∷ l)) w v kept h)

  -- A write that may end the position.
  pub update_less-Single :
      (t new : Trade D) (w : World D)
      → new.id ≡ t.id
      → Same symbol new t
      → Holds (Single symbol [] (t ∷ [])) w
      → Ends
          (λ _. Holds (Single symbol [] []))
          (Holds (Single symbol [] (t ∷ [])))
          (update_trade env new w)
  update_less-Single t new w id same h =
      Ends-weaken (update_trade env new w) (update_trade_effect env new w)
        (λ _ v (changed, kept).
          rw (changed, kept)
            (record {
              unique =
                  update-Unique trade_id new.id (overwrite env new) (λ r. refl) w.trades h.unique;
              one = update-positions t new [] [] w.trades w.transfers h id same;
              known = λ v. tt;
            }))
        (λ v kept. SameTables-Holds (Single symbol [] (t ∷ [])) w v kept h)
