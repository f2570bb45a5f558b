-- ===== src/Budget/Sell.antt =====
-- `ExecuteSellTrade` keeps the budget.
use outbound_api.Prelude.{ℕ, ◌≡◌, refl, false, some, [], ◌∷◌, Bool-cases, inl, inr, is_present}
use outbound_api.Model.{Trade, Signal, is_buy}
use outbound_api.Repository.Store.{Env, World, place_order, best_effort, new_uuid, pure, throw}
use outbound_api.Repository.Outcome.{
  Ends, Ends-weaken, Ends-bind, Ends-best_effort, Ends-handled, Holds,
}
use outbound_api.Repository.Trades.{create_trade, update_trade, delete_trade}
use outbound_api.Repository.Reads.{place_order-Reads, new_uuid-Reads}
use outbound_api.Budget.Tables.{Sound}
use outbound_api.Repository.Keeps.{Reads-keep}
use outbound_api.Budget.Sells.{
  SoundSells, create_sell-SoundSells, update_sell-SoundSells, delete_sell-SoundSells,
}
use outbound_api.Service.Trade.Sell.{
  sell_trade_of, sell_request, settle_sell, abandon_sell, place_sell, insert_sell,
  execute_sell_trade,
}

module _ {D : Type 0} (env : Env D) (a total : ℕ) where
  place_sell-Sound :
      (signal : Signal D) (sell : Trade D) (w : World D)
      → is_buy sell.side ≡ false
      → Holds (SoundSells a total (sell.id ∷ [])) w
      → Ends (λ _. Holds (Sound a total)) (Holds (Sound a total)) (place_sell env signal sell w)
  unfolding place_sell settle_sell abandon_sell
  place_sell-Sound signal sell w sells s =
      Ends-handled (place_order env (sell_request signal sell)) (settle_sell env sell)
        (abandon_sell env sell) w
        (Reads-keep env (SoundSells a total (sell.id ∷ []))
          (place_order env (sell_request signal sell)) w
          (place_order-Reads env (sell_request signal sell)) s)
        (λ order v s'.
          let placed : Trade D = record sell { alpaca_order_id = some order } in
          Ends-bind (best_effort (update_trade env placed)) (λ _. pure placed) v
            (Ends-weaken _
              (Ends-best_effort (update_trade env placed) v
                (Holds (SoundSells a total (sell.id ∷ [])))
                (update_sell-SoundSells env a total (sell.id ∷ []) v placed sells s'.sells.0 s'))
              (λ _ _ h. h.sound) (λ _ h. h.sound))
            λ _ u s''. record { outcome = s'' })
        (λ e v s'.
          Ends-bind (best_effort (delete_trade env sell.id)) (λ _. throw e) v
            (Ends-weaken _
              (Ends-best_effort (delete_trade env sell.id) v
                (Holds (SoundSells a total (sell.id ∷ [])))
                (delete_sell-SoundSells env a total (sell.id ∷ []) v sell.id s'.sells.0 s'))
              (λ _ _ h. h.sound) (λ _ h. h.sound))
            λ _ u s''. record { outcome = s'' })
        (λ v h. h.sound)

  insert_sell-Sound :
      (signal : Signal D) (sell : Trade D) (w : World D)
      → is_buy sell.side ≡ false
      → Holds (Sound a total) w
      → Ends (λ _. Holds (Sound a total)) (Holds (Sound a total)) (insert_sell env signal sell w)
  unfolding insert_sell
  insert_sell-Sound signal sell w sells s =
      Ends-bind (create_trade env sell) (λ _. place_sell env signal sell) w
        (Ends-weaken _
          (create_sell-SoundSells env a total [] w sell sells (record { sound = s; sells = tt }))
          (λ _ _ h. h) (λ _ h. h.sound))
        λ _ v s'. place_sell-Sound signal sell v sells s'

  pub execute_sell_trade-Sound :
      (signal : Signal D) (parent : Trade D) (w : World D)
      → Holds (Sound a total) w
      → Ends
          (λ _. Holds (Sound a total))
          (Holds (Sound a total))
          (execute_sell_trade env signal parent w)
  unfolding execute_sell_trade
  execute_sell_trade-Sound signal parent w s =
      elim (Bool-cases (is_present parent.account_transfer_id)) [
        | inr orphan ↦ rw orphan (record { outcome = s })
        | inl linked ↦ rw linked (
            Ends-bind (new_uuid env)
              (λ id. insert_sell env signal (sell_trade_of id parent signal signal.price_at_signal))
              w (Reads-keep env (Sound a total) (new_uuid env) w (new_uuid-Reads env) s)
              λ id v s'.
                insert_sell-Sound signal (sell_trade_of id parent signal signal.price_at_signal) v
                  refl s')
      ]
