-- ===== src/Backtest/Tests.antt =====
-- trading-engine/backtest/runner.py and cli/walk_forward.py: a short walk, and trades over a few bars.
use forex_bot.Common.{ℕ, ◌+◌, ◌*◌, ◌<◌, ◌≡◌, refl, some, none, List, [], ◌∷◌, arith}
use forex_bot.Common.Int.{pos, negsuc}
use forex_bot.Common.Fixed.{Fixed, fixed, whole}
use forex_bot.Backtest.Windows.{windows, rolled, InTime, walk_ends}
use forex_bot.Backtest.Trades.{
  long, SignalRow, Bar, CostModel, exit_price, closed, enter, simulate_trades,
}
use forex_bot.Backtest.Explained.{Explains, simulated_trades}

walk_ends_example :
    (n : ℕ) × (windows 100 60 10 20 200 5 ≡ some (rolled 100 60 10 20 n 5))
    × InTime 100 60 10 20 (rolled 100 60 10 20 n 5)
    × (100 < 5 + n * 20 + 60 + 10)
walk_ends_example = walk_ends 100 60 10 20 200 5 (omega arith) (omega arith)

two_windows : windows 100 60 10 20 200 5 ≡ some (rolled 100 60 10 20 2 5)
unfolding windows
two_windows = refl

abbrev cost : CostModel Fixed
cost = record { spread_price = whole 1; slippage_price = pos 0; commission_pct = pos 0 }

abbrev buy : SignalRow Fixed
buy = record { direction = long; entry = whole 100; sl = whole 90; tp = whole 120 }

abbrev bar : ℕ → ℕ → ℕ → Bar Fixed
bar ts low high = record { ts = ts; low = whole low; high = whole high; signal = some buy }

-- The fourth bar touches both the stop and the target.
abbrev bars : List (Bar Fixed)
bars = bar 1 98 102 ∷ bar 2 99 110 ∷ bar 3 95 121 ∷ bar 4 97 105 ∷ bar 5 80 130 ∷ bar 6 99 101 ∷ []

simulated_trades_example : Explains cost bars (simulate_trades cost none bars)
simulated_trades_example = simulated_trades cost bars

-- The first wins 20 less the spread, the second loses 10 and the spread, the third stays open.
target_then_stop :
    simulate_trades cost none bars
    ≡ record {
      entry_ts = 1;
      exit_ts = 3;
      direction = long;
      entry = whole 100;
      exit = whole 120;
      pnl = whole 19;
      r_multiple = pos 19_000;
    }
      ∷ record {
        entry_ts = 4;
        exit_ts = 5;
        direction = long;
        entry = whole 100;
        exit = whole 90;
        pnl = negsuc 109_999;
        r_multiple = negsuc 10_999;
      }
      ∷ []
unfolding simulate_trades exit_price closed enter
target_then_stop = refl
