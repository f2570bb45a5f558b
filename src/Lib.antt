-- ===== src/Lib.antt =====
-- Verification of outbound-api, a trading bot for one broker account. The paths are those of the
-- repository.
--
-- The program: bars of the market reach the strategy coordinators (internal/strategy), which let the
-- trade service (internal/service/trade_service.go) exit open positions and open new ones; the
-- service writes the database through the repositories (internal/repository) and places orders with
-- the broker; the broker's events return through internal/alpaca/mapper.go to ApplyTradeUpdates.
-- Each funding transfer pays for a number of trades: a buy takes one of its slots, and a buy that
-- comes to nothing gives it back. A controller (internal/bot) starts, pauses and stops the bot over
-- HTTP (internal/http).
--
-- The files:
--   Prelude       shared names, lists, integers, tables with a key, and results with errors.
--   Config        internal/config/config.go: Load and validate; Loading has the errors, Promises what
--                 a loaded configuration has.
--   Database      internal/database/database.go: NewPool and Migrate.
--   Model         internal/model: Side, Status, Signal, Trade, AccountTransfer as data and records.
--   Decimal       github.com/shopspring/decimal as an interface with documented laws; Decimal/Whole
--                 shows by whole numbers that the laws can be met.
--   Repository    internal/repository and internal/database/transactor.go. Store has the world (the
--                 tables, the orders placed, the number of calls made), the environment (which calls
--                 fail, which rows are locked, what the broker answers, identifiers, the clock) and
--                 the monad of calls with its errors, panics and transactions; Trades, Transfers,
--                 Signals and Shadow have one function per query (GetOpenBuyTradesBySymbol is
--                 get_open_buy_trades_by_symbol, and so on) with the constraints of migrations/.
--                 Outcome, Effects, Reads and Keeps have the rules by which the proofs go through
--                 calls, Orders those for the calls that place no order, Alike and Known those for
--                 rows of which a copy is held.
--   Service/Trade internal/service/trade_service.go: Sizing, Buy (ExecuteBuyTrade), Sell
--                 (ExecuteSellTrade), Exits (EvaluateAndExecuteExits; Due and Answers have its
--                 orders, Untracked an order whose answer is lost, Ready, Sells and
--                 Complete the run without failures), Updates
--                 (ApplyTradeUpdates); Concurrent has the transactions of two buys as a step
--                 relation, statement by statement, with Slots and Positions.
--   Service/Account internal/service/account_transfer_service.go.
--   Service/Signal internal/service/signal_service.go; Gates has the layers as one test.
--   Budget        the slots of a funding transfer under all of these operations: Tables has the
--                 invariant, Session the sequences of operations, Shadow and Bars whole bars.
--   Tracking      the orders that the broker has accepted and the rows of trades: Rows and Placing
--                 have the invariant, Buy (with Reserve), Sell, Exits (with Collect) and Updates go
--                 through the methods of the service, Bars through whole bars, and Session has the
--                 server.
--   Position      the open positions of a symbol: Rows counts them, Tables has the invariant, Writes
--                 how the queries change it, Buy, Exits (with Collect) and Bars go through the calls,
--                 broker events included, and Session has the server.
--   Strategy      internal/strategy/adaptive_exit.go with its tiers in AdaptiveExit/Tiers, and
--                 live_coordinator.go in Live, trading_coordinator.go in Trading (the shadow pass,
--                 with the rules for its calls in Calm, Pass and Writes).
--   Indicator     internal/indicator: Ema, Rsi, Atr, Cache, Regime over a calculation that may fail
--                 or panic.
--   Sentiment     internal/sentiment: Cached is cachedProvider, News has alpacaNewsProvider and the
--                 keyword analyzer, Llm the analyzer that asks a language model.
--   Watchlist     internal/repository/watchlist_repository.go and internal/service/watchlist_service.go;
--                 Contents reads the table as a function, Refine compares the two.
--   Bot, Bot/Race internal/bot/controller.go, and its methods under interleaving.
--   Http          internal/http/handlers.go: RequireAPIKey and the handlers.
--   Alpaca        internal/alpaca: Mapper, Retry (ConnectWithRetry) and Supervisor (the symbols and
--                 the client of StreamSupervisor, and the steps of Run between calls of others).
--   Server        cmd/server/main.go and the handlers of internal/alpaca/alpaca.go: Channel (the
--                 buffered channels), Seeding (seedIndicators, seedRegime), Refresh (the two tickers),
--                 Workers (the state of main and what can happen to it, with Lifts, Session and
--                 Idle), Startup (from the configuration to that state, with Ready and Manual),
--                 Shutdown (how the workers return) and Endpoints (the paths of the HTTP server).
--   Examples      concrete runs to which the theorems are applied.
--
-- Conventions. Identifiers (uuid.UUID) and times are natural numbers, which the program only compares
-- and orders; texts are strings, header values lists of bytes. Go's int counters are natural numbers
-- where the code keeps them from going below 0. A loop is recursion on the list it ranges over, so
-- nothing needs fuel; the endless loop of ConnectWithRetry runs over the list of what its rounds
-- meet. A failed statement, a failed commit, a refused order, an order that the broker keeps although its
-- answer is an error, and a decimal division by zero may occur at any call, as the environment chooses.
--
-- A step of Server.Workers is a whole handler, but the test of IsActive and the evaluation of a bar are
-- two steps, with up to five bars in between; between the statements of two handlers only the
-- transactions of two buys interleave (Service/Trade/Concurrent). Environment variables, JSON, HTTP
-- clients, number parsing, Unicode case and white space are parameters.
--
-- Not modelled: contexts and deadlines, log lines, wire formats, what pgxpool and golang-migrate
-- do (their answers, and the change of the pending migrations to the tables, are parameters of
-- Database), and the shutdown of the HTTP server.
pub mod Prelude
pub mod Config
pub mod Database
pub mod Server
pub mod Watchlist
pub mod Decimal
pub mod Bot
pub mod Alpaca
pub mod Http
pub mod Model
pub mod Position
pub mod Repository
pub mod Tracking
pub mod Service
pub mod Budget
pub mod Sentiment
pub mod Strategy
pub mod Indicator
mod Examples
