-- ===== src/Live/Gate.antt =====
-- trading-engine/live/gate.py: `evaluate_live_gate`. What the database answers to the three queries
-- is an argument: `none` is a missing row, and also a failed read, a missing package or address. A
-- query that names a table or column that the database lacks fails, whatever is stored.
pub mod Queries
pub mod Approves
mod Tests
use forex_bot.Common.{
  ℕ, Bool, true, false, not, ◌&&◌, Option, none, some, List, [], ◌∷◌, ◌++◌, leb, all_of,
  if◌then◌else◌,
}
use forex_bot.Common.Text.{Text, codes}
use forex_bot.Common.Float.{Float, div, lt, le, lit, nought, abs}
use forex_bot.Live.Gate.Queries.{Schema, fetch_row, backtest_query, paper_query, risk_query}
use forex_bot.Common.Result.{Result, ok, err, value_error}

-- A value of the parameters: `float` raises on one that is no number.
pub data Value (F : Type 0) : Type 0 where
  missing : Value F
  number : F → Value F
  no_number : Value F

pub record BacktestRow (F : Type 0) : Type 0 where
  pub profit_factor : Option F
  pub max_drawdown_pct : Option F
  pub total_trades : Option ℕ
  pub span_sec : Option F

pub record PaperRow (F : Type 0) : Type 0 where
  pub run_sec : Option F
  pub trades_count : Option ℕ
  pub avg_pnl : Option F
  pub std_pnl : Option F

pub record RiskParams (F : Type 0) : Type 0 where
  pub risk_per_trade_pct : Value F
  pub max_drawdown_pct : Value F

-- A check, less the values that it prints.
pub record LiveCheck : Type 0 where
  pub name : Text
  pub passed : Bool

pub record GateVerdict : Type 0 where
  pub approved : Bool
  pub checks : List LiveCheck

abbrev pub gate_check : Text → Bool → LiveCheck
gate_check name passed = record { name = name; passed = passed }

-- `int(x or 0)`
abbrev pub or_zero : Option ℕ → ℕ
or_zero none = 0
or_zero (some n) = n

abbrev pub is_empty_list : List LiveCheck → Bool
is_empty_list [] = true
is_empty_list (c ∷ cs) = false

abbrev pub decided : List LiveCheck → GateVerdict
decided cs = record {
  approved = all_of (λ (c : LiveCheck). c.passed) cs && not (is_empty_list cs);
  checks = cs;
}

abbrev pub with_risk : List LiveCheck → Result (List LiveCheck) → Result GateVerdict
with_risk cs (err e) = err e
with_risk cs (ok risks) = ok (decided (cs ++ risks))

module _ {F : Type 0} ⦃f : Float F⦄ where
  -- `float(x or 0)`
  abbrev pub or_nought : Option F → F
  or_nought none = nought
  or_nought (some x) = x

  abbrev pub days_of : Option F → F
  days_of sec = div (or_nought sec) (lit 86_400 0)

  unfoldable pub backtest_checks : BacktestRow F → List LiveCheck
  backtest_checks bt =
      gate_check (codes "backtest_profit_factor") (lt (lit 13 1) (or_nought bt.profit_factor))
      ∷ gate_check (codes "backtest_max_drawdown_pct")
          (lt (abs (or_nought bt.max_drawdown_pct)) (lit 25 0))
      ∷ gate_check (codes "backtest_period_days") (le (lit 1095 0) (days_of bt.span_sec))
      ∷ gate_check (codes "backtest_total_trades") (leb 30 (or_zero bt.total_trades))
      ∷ []

  abbrev pub sharpe : PaperRow F → F
  sharpe p =
      if lt nought (or_nought p.std_pnl)
      then div (or_nought p.avg_pnl) (or_nought p.std_pnl)
      else nought

  unfoldable pub paper_checks : Option (PaperRow F) → List LiveCheck
  paper_checks none = gate_check (codes "paper_trade_present") false ∷ []
  paper_checks (some p) =
      gate_check (codes "paper_days_run") (le (lit 14 0) (days_of p.run_sec))
      ∷ gate_check (codes "paper_trades_count") (leb 10 (or_zero p.trades_count))
      ∷ gate_check (codes "paper_sharpe") (le (lit 5 1) (sharpe p))
      ∷ []

  -- `float(params.get(key, d))`
  abbrev pub float_of : Value F → F → Result F
  float_of missing d = ok d
  float_of (number x) d = ok x
  float_of no_number d = err value_error

  abbrev pub ranges : F → F → List LiveCheck
  ranges rpt mdd =
      gate_check (codes "risk_per_trade_in_range") (lt (lit 1 1) rpt && le rpt (lit 2 0))
      ∷ gate_check (codes "max_drawdown_in_range") (lt (lit 5 0) mdd && le mdd (lit 20 0))
      ∷ []

  abbrev pub ranges_of : Result F → Result F → Result (List LiveCheck)
  ranges_of (err e) mdd = err e
  ranges_of (ok rpt) (err e) = err e
  ranges_of (ok rpt) (ok mdd) = ok (ranges rpt mdd)

  -- A missing row, and parameters that are missing or empty, give no check.
  unfoldable pub risk_checks : Option (RiskParams F) → Result (List LiveCheck)
  risk_checks none = ok []
  risk_checks (some p) =
      ranges_of (float_of p.risk_per_trade_pct (lit 1 0)) (float_of p.max_drawdown_pct (lit 15 0))

  -- The verdict on the three rows that were read.
  unfoldable pub evaluate_rows :
      Option (BacktestRow F) → Option (PaperRow F) → Option (RiskParams F) → Result GateVerdict
  evaluate_rows none paper risk =
      ok (record { approved = false; checks = gate_check (codes "backtest_present") false ∷ [] })
  evaluate_rows (some bt) paper risk =
      with_risk (backtest_checks bt ++ paper_checks paper) (risk_checks risk)

  unfoldable pub evaluate_live_gate :
      Schema
      → Option (BacktestRow F)
      → Option (PaperRow F)
      → Option (RiskParams F)
      → Result GateVerdict
  evaluate_live_gate schema bt paper risk =
      evaluate_rows (fetch_row schema backtest_query bt) (fetch_row schema paper_query paper)
        (fetch_row schema risk_query risk)
