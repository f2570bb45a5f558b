-- ===== src/Budget/Sells.antt =====
-- Sells hold no slot: inserting, changing and deleting them keeps the budget, as long as the rows
-- that are changed are sells.
use outbound_api.Prelude.{
  ℕ, ◌≡◌, refl, false, some, List, [], ◌∷◌, ◌++◌, arith, All, Option-cases, inl, inr,
}
use outbound_api.Prelude.Table.{
  has_key, lookup, update, erase, lookup-append, lookup-update, lookup-update-none, lookup-erase,
  update-Unique, erase-Unique, count-update-none, count-erase-none,
}
use mathlib.Core.Path.{subst}
use outbound_api.Model.{Trade, AccountTransfer, is_buy}
use outbound_api.Repository.Store.{Env, World}
use outbound_api.Repository.Outcome.{Ends, Ends-weaken, Holds}
use outbound_api.Repository.Trades.{stored, overwrite, create_trade, update_trade, delete_trade}
use outbound_api.Repository.Effects.{
  SameTables-Holds, create_trade_effect, update_trade_effect, delete_trade_effect,
}
use outbound_api.Repository.Alike.{trade_id}
use outbound_api.Budget.Tables.{
  holds, slots, Adds-shift, Sound, insert-Sound, update-Sound, erase-Sound,
}

module _ {D : Type 0} where
  -- The row at a key is a sell, if there is one.
  abbrev pub SellAt : List (Trade D) → ℕ → Type 0
  SellAt ts j = (r : Trade D) → lookup trade_id j ts ≡ some r → is_buy r.side ≡ false

  abbrev pub Sells : List ℕ → List (Trade D) → Type 0
  Sells js ts = All (SellAt ts) js

  Sells-map :
      (js : List ℕ) (ts us : List (Trade D))
      → ((j : ℕ) → SellAt ts j → SellAt us j)
      → Sells js ts
      → Sells js us
  Sells-map [] ts us f s = tt
  Sells-map (j ∷ js) ts us f s = (f j s.0, Sells-map js ts us f s.1)

  append-SellAt :
      (ts : List (Trade D)) (t : Trade D) (j : ℕ)
      → has_key trade_id t.id ts ≡ false
      → is_buy t.side ≡ false
      → SellAt ts j
      → SellAt (ts ++ (t ∷ [])) j
  append-SellAt ts t j fresh sells s r e =
      let at = lookup-append trade_id j ts t fresh in ground (arith, s r)

  append-SellAt_self :
      (ts : List (Trade D)) (t : Trade D)
      → has_key trade_id t.id ts ≡ false
      → is_buy t.side ≡ false
      → SellAt (ts ++ (t ∷ [])) t.id
  append-SellAt_self ts t fresh sells r e =
      let at = lookup-append trade_id t.id ts t fresh in ground arith

  erase-SellAt : (ts : List (Trade D)) (k j : ℕ) → SellAt ts j → SellAt (erase trade_id k ts) j
  erase-SellAt ts k j s r e = let at = lookup-erase trade_id j k ts in ground (arith, s r)

  module _ (k : ℕ) (f : Trade D → Trade D) (keeps : (r : Trade D) → trade_id (f r) ≡ trade_id r)
      (sells : (r : Trade D) → is_buy (f r).side ≡ false) where
    update-SellAt : (ts : List (Trade D)) (j : ℕ) → SellAt ts j → SellAt (update trade_id k f ts) j
    update-SellAt ts j s r e = elim (Option-cases (lookup trade_id j ts)) [
      | inl absent ↦ cc (lookup-update-none trade_id k f keeps j ts absent)
      | inr (old, present) ↦
          let at = lookup-update trade_id k f keeps j ts old present in
          ground (arith, s old, sells old)
    ]

    update-Sound_sell :
        (a total : ℕ) (ts : List (Trade D)) (fs : List (AccountTransfer D))
        → Sound a total ts fs
        → SellAt ts k
        → Sound a total (update trade_id k f ts) fs
    update-Sound_sell a total ts fs s at = elim (Option-cases (lookup trade_id k ts)) [
      | inl absent ↦ record {
        unique_trades = update-Unique trade_id k f keeps ts s.unique_trades;
        unique_transfers = s.unique_transfers;
        adds =
            Adds-shift _ _ total total (slots a fs)
              (omega (arith, count-update-none trade_id (holds a) k f ts absent)) s.adds;
      }
      | inr (old, present) ↦
          update-Sound a total ts fs k f old total keeps s present
            (ground (arith, at old present, sells old))
    ]

  erase-Sound_sell :
      (k a total : ℕ) (ts : List (Trade D)) (fs : List (AccountTransfer D))
      → Sound a total ts fs
      → SellAt ts k
      → Sound a total (erase trade_id k ts) fs
  erase-Sound_sell k a total ts fs s at = elim (Option-cases (lookup trade_id k ts)) [
    | inl absent ↦ record {
      unique_trades = erase-Unique trade_id k ts s.unique_trades;
      unique_transfers = s.unique_transfers;
      adds =
          Adds-shift _ _ total total (slots a fs)
            (omega (arith, count-erase-none trade_id (holds a) k ts absent)) s.adds;
    }
    | inr (old, present) ↦
        erase-Sound a total ts fs k old s present (ground (arith, at old present))
  ]

  -- Sound tables in which the rows at `js` are sells.
  pub record SoundSells (a total : ℕ) (js : List ℕ) (ts : List (Trade D))
      (fs : List (AccountTransfer D)) : Type 0 where
    pub sound : Sound a total ts fs
    pub sells : Sells js ts

  module _ (env : Env D) (a total : ℕ) (js : List ℕ) (w : World D) where
    pub create_sell-SoundSells :
        (t : Trade D)
        → is_buy t.side ≡ false
        → Holds (SoundSells a total js) w
        → Ends
            (λ _. Holds (SoundSells a total (t.id ∷ js)))
            (Holds (SoundSells a total js))
            (create_trade env t w)
    create_sell-SoundSells t sell s =
        Ends-weaken _ (create_trade_effect env t w)
          (λ _ v (fresh, added, same).
            rw (added, same)
              (record {
                sound =
                    subst (λ n. Sound a n (w.trades ++ (stored env t ∷ [])) w.transfers)
                      (ground arith)
                      (insert-Sound a total w.trades w.transfers (stored env t) s.sound fresh);
                sells = (
                  append-SellAt_self w.trades (stored env t) fresh sell,
                  Sells-map js w.trades _ (λ j. append-SellAt w.trades (stored env t) j fresh sell)
                      s.sells,
                );
              }))
          (λ v same. SameTables-Holds (SoundSells a total js) w v same s)

    pub update_sell-SoundSells :
        (t : Trade D)
        → is_buy t.side ≡ false
        → SellAt w.trades t.id
        → Holds (SoundSells a total js) w
        → Ends
            (λ _. Holds (SoundSells a total js))
            (Holds (SoundSells a total js))
            (update_trade env t w)
    update_sell-SoundSells t sell at s =
        Ends-weaken _ (update_trade_effect env t w)
          (λ _ v (changed, same).
            rw (changed, same)
              (record {
                sound =
                    update-Sound_sell t.id (overwrite env t) (λ r. refl) (λ r. sell) a total
                      w.trades w.transfers s.sound at;
                sells =
                    Sells-map js w.trades _
                      (update-SellAt t.id (overwrite env t) (λ r. refl) (λ r. sell) w.trades)
                      s.sells;
              }))
          (λ v same. SameTables-Holds (SoundSells a total js) w v same s)

    pub delete_sell-SoundSells :
        (id : ℕ)
        → SellAt w.trades id
        → Holds (SoundSells a total js) w
        → Ends
            (λ _. Holds (SoundSells a total js))
            (Holds (SoundSells a total js))
            (delete_trade env id w)
    delete_sell-SoundSells id at s =
        Ends-weaken _ (delete_trade_effect env id w)
          (λ _ v (erased, same).
            rw (erased, same)
              (record {
                sound = erase-Sound_sell id a total w.trades w.transfers s.sound at;
                sells = Sells-map js w.trades _ (erase-SellAt w.trades id) s.sells;
              }))
          (λ v same. SameTables-Holds (SoundSells a total js) w v same s)
