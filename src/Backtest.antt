-- ===== src/Backtest.antt =====
-- trading-engine/cli/walk_forward.py, backtest/walk_forward.py and backtest/runner.py: the windows of a
-- walk-forward analysis, and the simulation of trades over bars and signals.
pub mod Windows
pub mod Trades
pub mod Explained
mod Tests
