-- ===== src/Service/Trade/Concurrent.antt =====
-- The transactions of two workers that run `ExecuteBuyTrade` at the same time on one funding
-- transfer, statement by statement, under PostgreSQL's READ COMMITTED, which pool.Begin gives: a
-- statement reads what was committed before it, and an UPDATE of a row waits for the transaction
-- that has updated it.
pub mod Slots
pub mod Positions
use outbound_api.Prelude.{ℕ, ◌-◌, ◌<◌, ◌≡◌, ◌≢◌, Bool, true, false, List, [], ◌∷◌, ◌++◌, any}
use outbound_api.Model.{Trade}
use outbound_api.Repository.Trades.{is_open_position}

pub data Worker : Type 0 where
  first second : Worker

abbrev pub other : Worker → Worker
other first = second
other second = first

-- What a worker does next: HasOpenPosition, Create, DecrementRemainingTrades or the commit; or how
-- its transaction ended.
pub data Phase : Type 0 where
  checking inserting taking committing committed rolled_back : Phase

-- What is committed: the table of trades and the transfer's `remaining_trades`.
pub record Database (D : Type 0) : Type 0 where
  pub trades : List (Trade D)
  pub remaining : ℕ
  pub phase : Worker → Phase

abbrev pub set_phase : Worker → Phase → (Worker → Phase) → Worker → Phase
set_phase first p phase first = p
set_phase first p phase second = phase second
set_phase second p phase first = phase first
set_phase second p phase second = p

abbrev pub moved : {D : Type 0} → Worker → Phase → Database D → Database D
moved i p s = record s { phase = set_phase i p s.phase }

-- Both start with HasOpenPosition.
abbrev pub begun : {D : Type 0} → List (Trade D) → ℕ → Database D
begun trades n = record { trades = trades; remaining = n; phase = λ i. checking }

-- `mine i` is the trade that worker `i` inserts.
pub data Step {D : Type 0} (mine : Worker → Trade D) (s : Database D) : Database D → Type 0 where
  finds_none :
      (i : Worker)
      → s.phase i ≡ checking
      → any (is_open_position s.trades (mine i).symbol) s.trades ≡ false
      → Step mine s (moved i inserting s)
  finds_position :
      (i : Worker)
      → s.phase i ≡ checking
      → any (is_open_position s.trades (mine i).symbol) s.trades ≡ true
      → Step mine s (moved i rolled_back s)
  inserts : (i : Worker) → s.phase i ≡ inserting → Step mine s (moved i taking s)
  takes_slot :
      (i : Worker)
      → s.phase i ≡ taking
      → s.phase (other i) ≢ committing
      → 0 < s.remaining
      → Step mine s (moved i committing s)
  finds_no_slot :
      (i : Worker)
      → s.phase i ≡ taking
      → s.phase (other i) ≢ committing
      → s.remaining ≡ 0
      → Step mine s (moved i rolled_back s)
  commits :
      (i : Worker)
      → s.phase i ≡ committing
      → Step mine s (record {
        trades = s.trades ++ (mine i ∷ []);
        remaining = s.remaining - 1;
        phase = set_phase i committed s.phase;
      })
  fails : (i : Worker) → s.phase i ≢ committed → Step mine s (moved i rolled_back s)

pub data Reach {D : Type 0} (mine : Worker → Trade D) (start : Database D)
    : Database D → Type 0 where
  stays : Reach mine start start
  then_step : {s t : Database D} → Reach mine start s → Step mine s t → Reach mine start t
