-- ===== src/Live/Gate/Tests.antt =====
-- trading-engine/live/gate.py: the gate on concrete rows.
use forex_bot.Common.{◌≡◌, refl, false, none, some, [], ◌∷◌, ◌↔◌}
use forex_bot.Common.Text.{codes, text_beq}
use forex_bot.Common.Fixed.{Fixed, fixed, whole, tenths}
use forex_bot.Common.Result.{ok, err, value_error}
use forex_bot.Live.Gate.{
  missing, number, no_number, BacktestRow, PaperRow, RiskParams, gate_check, backtest_checks,
  paper_checks, risk_checks, evaluate_rows, evaluate_live_gate,
}
use forex_bot.Live.Gate.Approves.{
  IsApproved, BacktestPasses, PaperPasses, RiskPasses, Reads, approves_iff,
}
use forex_bot.Live.Gate.Queries.{
  Schema, is_column, has_names, fetch_row, backtest_query, paper_query, risk_query,
  backtest_columns, instance_columns, migrated,
}
use forex_bot.Common.Dict.{lookup}

abbrev tested : BacktestRow Fixed
tested = record {
  profit_factor = some (tenths 15);
  max_drawdown_pct = some (whole 20);
  total_trades = some 40;
  span_sec = some (whole 100_000_000);
}

abbrev traded : PaperRow Fixed
traded = record {
  run_sec = some (whole 2_000_000);
  trades_count = some 12;
  avg_pnl = some (whole 3);
  std_pnl = some (whole 4);
}

abbrev reckless : RiskParams Fixed
reckless = record { risk_per_trade_pct = number (whole 50); max_drawdown_pct = missing }

-- A database with what the queries name.
abbrev wanted : Schema
wanted =
    (
      codes "backtests",
      codes "period_start" ∷ codes "period_end" ∷ codes "strategy_instance_id" ∷ backtest_columns,
    )
    ∷ (codes "strategy_instances", instance_columns)
    ∷ (codes "paper_trades", codes "strategy_instance_id" ∷ codes "pnl" ∷ [])
    ∷ []

abbrev careful : RiskParams Fixed
careful = record reckless { risk_per_trade_pct = number (whole 1) }

approves_iff_example :
    (IsApproved (evaluate_live_gate wanted (some tested) (some traded) (some careful)) ↔ (
      Reads BacktestPasses wanted backtest_query (some tested)
      × Reads PaperPasses wanted paper_query (some traded)
      × RiskPasses (fetch_row wanted risk_query (some careful))))
    × ¬ IsApproved (evaluate_live_gate migrated (some tested) (some traded) (some careful))
approves_iff_example = approves_iff wanted (some tested) (some traded) (some careful)

careful_passes : IsApproved (evaluate_live_gate wanted (some tested) (some traded) (some careful))
unfolding evaluate_live_gate evaluate_rows backtest_checks paper_checks risk_checks fetch_row
    has_names is_column lookup text_beq
careful_passes = refl

-- Half of the account at risk in each trade is refused, and passes where the row is not read.
reckless_refused :
    IsApproved (evaluate_live_gate wanted (some tested) (some traded) (some reckless)) → ⊥
unfolding evaluate_live_gate evaluate_rows backtest_checks paper_checks risk_checks fetch_row
    has_names is_column lookup text_beq
reckless_refused h = cc

unread_passes : IsApproved (evaluate_live_gate wanted (some tested) (some traded) none)
unfolding evaluate_live_gate evaluate_rows backtest_checks paper_checks risk_checks fetch_row
    has_names is_column lookup text_beq
unread_passes = refl

-- A parameter that is no number makes the whole gate raise.
no_number_raises :
    evaluate_live_gate wanted
      (some tested)
      (some traded)
      (some (record reckless { max_drawdown_pct = no_number }))
    ≡ err value_error
unfolding evaluate_live_gate evaluate_rows risk_checks fetch_row has_names is_column lookup text_beq
no_number_raises = refl

-- On the tables of the migrations the read of the backtest fails.
no_backtest :
    evaluate_live_gate migrated (some tested) (some traded) (some careful)
    ≡ ok (record { approved = false; checks = gate_check (codes "backtest_present") false ∷ [] })
unfolding evaluate_live_gate evaluate_rows fetch_row has_names is_column lookup text_beq
no_backtest = refl
