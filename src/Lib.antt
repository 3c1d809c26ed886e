-- ===== src/Lib.antt =====
-- The trading and entitlement rules of forex-bot.
--
-- forex-bot is a trading system in three processes. The trading engine (trading-engine/) runs
-- strategies, asks a risk manager and a circuit breaker before each order, and sends orders to the
-- MT5 bridge (mt5-bridge/), which checks them again; a paper broker stands in for the bridge. The
-- backend (backend/) keeps users, subscriptions and instances and decides who may trade live.
--
-- Files, with the code that each models:
--   Common: what the modules share: the library's names, Boolean tests, lists, text, dictionaries,
--     results with exceptions, proofs by cases, and the interface of Python's floats.
--   Risk.Positions, Risk.Manager: trading-engine/risk/manager.py, `RiskManager`: `on_equity_update`,
--     `on_trade_closed`, `on_position_opened`, `on_position_closed`, `evaluate`. Risk.Sizing:
--     trading-engine/risk/position_sizing.py.
--   Live.Breaker: trading-engine/live/circuit_breaker.py, `CircuitBreaker`: the updates, `verdict`.
--   Live.Engine: trading-engine/live/engine.py, `LiveEngine`: Types has the state, what the bridge
--     answers and what the engine sends; Bar is `_on_new_bar`; Lifecycle is `on_start`, `on_stop`
--     and `on_kill`; Round is a turn of `_loop`, and the calls in the order of their effect.
--     Live.Router: trading-engine/live/router.py, the registry of engines. Live.Gate: live/gate.py, and the
--     columns of the tables that backend/alembic/versions makes.
--   Broker: trading-engine/broker/base.py and paper_adapter.py, `PaperBroker`: Types and Paper have
--     the state and the calls, Quote is `on_quote`.
--   Bridge: mt5-bridge/mt5_bridge/safety.py, `SafetyChecker`, and the two order routes of server.py.
--   Backend.Subscription: backend/app/services/subscription_guard.py. Backend.Gate:
--     backend/app/services/live_gate_service.py, `LiveGateService`. Backend.Billing:
--     backend/app/services/billing_service.py, the Stripe webhook and its handlers; Sessions
--     and Trial: the customer, checkout and portal sessions and the trial.
--   Backend.Instances: backend/app/services/strategy_service.py, `StrategyService`, and what it sends
--     through oms_client.py: Rows and TvParams have the rows and the check of their parameters.
--   Backend.Accounts: backend/app/services/auth_service.py, `AuthService`: Blob and Secrets are the
--     encryption of core/encryption.py and the stored column, StepUp is middleware/auth.py, Types and
--     Service have the rows and the calls.
--   Backend.RateLimit: backend/app/middleware/rate_limit.py.
--   TradingView: trading-engine/tradingview/client.py (Client), scorer.py (Scorer) and symbols.py, and
--     strategies/tv_signal.py, the live path of `TVSignalStrategy` (Signal).
--   Backtest: trading-engine/backtest/runner.py, `_simulate_trades` (Trades), and cli/walk_forward.py,
--     `_windows` (Windows).
-- The other modules below these hold proofs, named for what they prove; each Tests module runs the
-- code on concrete inputs.
--
-- How the code is modelled:
--   Floats are a type `F` with the operations that the code calls (Common.Float). Nothing is assumed
--     of rounding, so what is proved holds of binary64; a theorem on bounds takes the order of the
--     numbers that are not NaN as a hypothesis (`IsOrdered`). Common.Fixed shows with decimals that
--     it can be met, and serves the tests.
--   A method is a function from its arguments and the object's state to its result and the new
--     state. A method that may raise returns a `Result`, with the state as it is when it raises.
--   The clock, the date, the answers of the bridge, of Stripe and of the package tradingview-ta, the
--     strategy's signals and the health probe are arguments, so every theorem is for all of them; what is sent is a list of actions.
--   Calls from several threads take effect one after another: the theorems are about every
--     sequence of calls. The join in `on_stop` is taken to wait for the round under way.
--   Loops run over lists that are there, so no fuel is needed, but for `_windows`, whose fuel is
--     proved enough from two more than the number of the last date; the loop of an engine is a sequence
--     of rounds.
--   A row of a subscription that the CHECK constraints refuse makes the delivery fail; other failures
--     of the database are inputs. The queries of Live.Gate fail where they name what the database lacks.
--   A query is a pass over the list of rows of its table; a table's columns that no rule reads are
--     left out.
--   AES-GCM, password hashes, JWT, TOTP codes and Redis are parameters with the laws that they
--     document; the tests fill them. An interleaving inside one call of the backend is left out.
--   Log lines, texts of messages and snapshots for monitoring are left out; a reason is a
--     constructor that carries the numbers its text prints.
--
-- Not modelled: the indicator formulas of the strategies and the metrics of backtests (pandas),
-- the engine over TradingView ratings and the throttle of its client, the MetaTrader 5 client, HTTP and
-- its signatures, the admin pages, migrations, and the frontend.
pub mod Common
pub mod Risk
pub mod Live
pub mod Broker
pub mod Bridge
pub mod Backend
pub mod Backtest
pub mod TradingView
