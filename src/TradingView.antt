-- ===== src/TradingView.antt =====
-- trading-engine/tradingview and strategies/tv_signal.py: the analyses of TradingView, their score
-- and the signal that follows them.
pub mod Scorer
pub mod Client
pub mod Signal
mod Fresh
mod Again
mod Entered
mod Tests
