-- ===== src/Service/Trade/Concurrent/Positions.antt =====
-- Whether two concurrent buys of one symbol can both open a position.
use mathlib.Core.Bool.{false≢true}
use text.Mathlib.TextEquality.{eq_iff}
use outbound_api.Prelude.{
  ℕ, ◌≤◌, ◌≡◌, ◌≢◌, ◌⊎◌, inl, inr, refl, sym, ◌∙◌, true, false, ◌&&◌, String, List, [], ◌∷◌, ◌++◌,
  arith, any, any-append, is_some_of,
}
use outbound_api.Model.{Trade, Side, is_sell, is_active}
use outbound_api.Repository.Trades.{is_open_position, has_sell_child}
use outbound_api.Service.Trade.Concurrent.{
  Worker, first, second, Phase, checking, inserting, taking, committing, committed, rolled_back,
  Database, begun, Step, finds_none, finds_position, inserts, takes_slot, finds_no_slot, commits,
  fails, Reach, stays, then_step,
}

module _ {D : Type 0} where
  -- A new buy is nobody's sell.
  child-append :
      (rows : List (Trade D)) (x : Trade D) (id : ℕ)
      → x.side ≡ Side.buy
      → has_sell_child (rows ++ (x ∷ [])) id ≡ has_sell_child rows id
  unfolding has_sell_child
  child-append rows x id b =
      any-append (λ s. is_sell s.side && is_some_of id s.parent_id) rows (x ∷ [])
      ∙ rw b (ground arith)

  is_open-append :
      (rows : List (Trade D)) (x t : Trade D) (symbol : String)
      → x.side ≡ Side.buy
      → is_open_position (rows ++ (x ∷ [])) symbol t ≡ is_open_position rows symbol t
  unfolding is_open_position
  is_open-append rows x t symbol b = rw (child-append rows x t.id b) refl

  -- An open position stays open when a buy is added.
  any_open-append :
      (rows : List (Trade D)) (x : Trade D) (symbol : String)
      → x.side ≡ Side.buy
      → any (is_open_position rows symbol) rows ≡ true
      → any (is_open_position (rows ++ (x ∷ [])) symbol) (rows ++ (x ∷ [])) ≡ true
  any_open-append rows x symbol b h =
      let same : is_open_position (rows ++ (x ∷ [])) symbol ≡ is_open_position rows symbol =
        λ i t. is_open-append rows x t symbol b i in
      rw same (any-append (is_open_position rows symbol) rows (x ∷ []) ∙ rw h refl)

  -- A buy that is not void and has no sell is an open position of its symbol.
  is_open_buy :
      (rows : List (Trade D)) (t : Trade D) (symbol : String)
      → t.symbol ≡ symbol
      → t.side ≡ Side.buy
      → is_active t.status ≡ true
      → has_sell_child rows t.id ≡ false
      → is_open_position rows symbol t ≡ true
  unfolding is_open_position
  is_open_buy rows t symbol e b active h = rw ((eq_iff t.symbol symbol).1 e, b, active, h) refl

-- A trade that a worker may insert: a buy of the symbol that is not void, with no sell in the table.
pub record IsNewBuy {D : Type 0} (symbol : String) (rows : List (Trade D)) (t : Trade D)
    : Type 0 where
  pub of_symbol : t.symbol ≡ symbol
  pub buys : t.side ≡ Side.buy
  pub active : is_active t.status ≡ true
  pub unsold : has_sell_child rows t.id ≡ false

module _ {D : Type 0} (symbol : String) (mine : Worker → Trade D) where
  -- The statements of both transactions, taking turns.
  interleaved :
      (trades : List (Trade D)) (n : ℕ)
      → ((i : Worker) → (mine i).symbol ≡ symbol)
      → any (is_open_position trades symbol) trades ≡ false
      → 2 ≤ n
      → (s : Database D) × Reach mine (begun trades n) s
        × (s.trades ≡ (trades ++ (mine first ∷ [])) ++ (mine second ∷ []))
  interleaved trades n same none_open enough = (
    _,
    then_step
        (then_step
          (then_step
            (then_step
              (then_step
                (then_step
                  (then_step (then_step stays (finds_none first refl (rw (same first) none_open)))
                    (finds_none second refl (rw (same second) none_open)))
                  (inserts first refl))
                (inserts second refl))
              (takes_slot first refl (λ e. cc) (omega arith)))
            (commits first refl))
          (takes_slot second refl (λ e. cc) (omega arith)))
        (commits second refl),
    refl,
  )

  -- The check inside the transaction does not keep one position per symbol: from any table without an
  -- open position of a symbol and a transfer with two slots or more, the transactions of two buys of
  -- the symbol can both commit, and then both buys are open positions of it.
  pub two_positions :
      (trades : List (Trade D)) (n : ℕ)
      → ((i : Worker) → IsNewBuy symbol trades (mine i))
      → any (is_open_position trades symbol) trades ≡ false
      → 2 ≤ n
      → (s : Database D) × Reach mine (begun trades n) s
        × ((i : Worker) → is_open_position s.trades symbol (mine i) ≡ true)
        × (s.trades ≡ (trades ++ (mine first ∷ [])) ++ (mine second ∷ []))
  two_positions trades n new none_open enough =
      let (s, reach, rows) = interleaved trades n (λ i. (new i).of_symbol) none_open enough in
      (s, reach, λ i. rw rows (both i), rows)
    where
      both :
          (i : Worker)
          → is_open_position ((trades ++ (mine first ∷ [])) ++ (mine second ∷ [])) symbol (mine i)
            ≡ true
      both i =
          is_open-append (trades ++ (mine first ∷ [])) (mine second) (mine i) symbol
            (new second).buys
          ∙ is_open-append trades (mine first) (mine i) symbol (new first).buys
          ∙ is_open_buy trades (mine i) symbol (new i).of_symbol (new i).buys (new i).active
              (new i).unsold

  -- The second worker has not passed its check, and a position is open.
  abbrev Late : Database D → Type 0
  Late s =
      ((s.phase second ≡ checking) ⊎ (s.phase second ≡ rolled_back))
      × (any (is_open_position s.trades symbol) s.trades ≡ true)

  not-Late :
      (s : Database D) (p : Phase)
      → p ≢ checking
      → p ≢ rolled_back
      → s.phase second ≡ p
      → Late s
      → ⊥
  not-Late s p a b e (inl c, open_) = a (sym e ∙ c)
  not-Late s p a b e (inr c, open_) = b (sym e ∙ c)

  Step-Late :
      ((i : Worker) → (mine i).symbol ≡ symbol)
      → ((i : Worker) → (mine i).side ≡ Side.buy)
      → {s t : Database D} → Step mine s t
      → Late s
      → Late t
  Step-Late same buys (finds_none first e h) l = l
  Step-Late same buys (finds_position first e h) l = l
  Step-Late same buys (inserts first e) l = l
  Step-Late same buys (takes_slot first e free slot) l = l
  Step-Late same buys (finds_no_slot first e free none_left) l = l
  Step-Late same buys {s} (commits first e) l =
      (l.0, any_open-append s.trades (mine first) symbol (buys first) l.1)
  Step-Late same buys (fails first h) l = l
  Step-Late same buys (finds_none second e h) l =
      absurd (false≢true (sym (rw (same second) at h) ∙ l.1))
  Step-Late same buys (finds_position second e h) l = (inr refl, l.1)
  Step-Late same buys {s} (inserts second e) l =
      absurd (not-Late s inserting (λ q. cc) (λ q. cc) e l)
  Step-Late same buys {s} (takes_slot second e free slot) l =
      absurd (not-Late s taking (λ q. cc) (λ q. cc) e l)
  Step-Late same buys {s} (finds_no_slot second e free none_left) l =
      absurd (not-Late s taking (λ q. cc) (λ q. cc) e l)
  Step-Late same buys {s} (commits second e) l =
      absurd (not-Late s committing (λ q. cc) (λ q. cc) e l)
  Step-Late same buys (fails second h) l = (inr refl, l.1)

  Reach-Late :
      ((i : Worker) → (mine i).symbol ≡ symbol)
      → ((i : Worker) → (mine i).side ≡ Side.buy)
      → {s t : Database D} → Reach mine s t
      → Late s
      → Late t
  Reach-Late same buys stays l = l
  Reach-Late same buys (then_step r step) l = Step-Late same buys step (Reach-Late same buys r l)

  -- A worker that makes its check after a position of the symbol was committed does not commit its
  -- buy, whatever the other worker does meanwhile.
  pub late_buy_refused :
      ((i : Worker) → (mine i).symbol ≡ symbol)
      → ((i : Worker) → (mine i).side ≡ Side.buy)
      → {s t : Database D} → s.phase second ≡ checking
      → any (is_open_position s.trades symbol) s.trades ≡ true
      → Reach mine s t
      → t.phase second ≢ committed
  late_buy_refused same buys {t = t} e open_ r done =
      not-Late t committed (λ q. cc) (λ q. cc) done (Reach-Late same buys r (inl e, open_))
