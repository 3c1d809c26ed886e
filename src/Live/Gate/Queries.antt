-- ===== src/Live/Gate/Queries.antt =====
-- trading-engine/live/gate.py: `_fetch_row` and the names in the three queries;
-- backend/alembic/versions: the columns of the tables that they read.
use forex_bot.Common.{Bool, true, false, Option, none, some, List, [], ◌∷◌, all_of, if◌then◌else◌}
use forex_bot.Common.Text.{Text, codes, text_beq, text_eq}
use forex_bot.Common.Dict.{Dict, lookup}

-- The columns of each table.
abbrev pub Schema : Type 0
Schema = Dict Text (List Text)

-- The columns that a query names, each with its table.
abbrev pub Query : Type 0
Query = List (Text × Text)

unfoldable pub is_column : Text → List Text → Bool
is_column c [] = false
is_column c (d ∷ ds) = let rest = is_column c ds in if text_beq d c then true else rest

abbrev columns_of : Schema → Text → List Text
columns_of schema table = elim (lookup table schema) [ none ↦ [] | some cols ↦ cols ]

unfoldable pub has_names : Schema → Query → Bool
has_names schema query = all_of (λ (n : Text × Text). is_column n.1 (columns_of schema n.0)) query

-- `_fetch_row`: an exception of the database is no row.
unfoldable pub fetch_row : {Row : Type 0} → Schema → Query → Option Row → Option Row
fetch_row schema query answer = if has_names schema query then answer else none

abbrev backtests : Text
backtests = codes "backtests"

abbrev instances : Text
instances = codes "strategy_instances"

abbrev paper_trades : Text
paper_trades = codes "paper_trades"

abbrev pub backtest_query : Query
backtest_query =
    (backtests, codes "profit_factor")
    ∷ (backtests, codes "max_drawdown_pct")
    ∷ (backtests, codes "total_trades")
    ∷ (backtests, codes "period_end")
    ∷ (backtests, codes "completed_at")
    ∷ (backtests, codes "period_start")
    ∷ (backtests, codes "started_at")
    ∷ (backtests, codes "strategy_instance_id")
    ∷ (backtests, codes "status")
    ∷ []

abbrev pub paper_query : Query
paper_query =
    (instances, codes "started_at")
    ∷ (paper_trades, codes "strategy_instance_id")
    ∷ (paper_trades, codes "pnl")
    ∷ (instances, codes "id")
    ∷ []

abbrev pub risk_query : Query
risk_query = (instances, codes "params") ∷ (instances, codes "id") ∷ []

abbrev pub backtest_columns : List Text
backtest_columns =
    codes "id"
    ∷ codes "user_id"
    ∷ codes "strategy_id"
    ∷ codes "asset_symbol"
    ∷ codes "timeframe"
    ∷ codes "params"
    ∷ codes "start_date"
    ∷ codes "end_date"
    ∷ codes "status"
    ∷ codes "total_return_pct"
    ∷ codes "max_drawdown_pct"
    ∷ codes "sharpe"
    ∷ codes "sortino"
    ∷ codes "profit_factor"
    ∷ codes "win_rate_pct"
    ∷ codes "total_trades"
    ∷ codes "equity_curve_url"
    ∷ codes "trades_count"
    ∷ codes "started_at"
    ∷ codes "completed_at"
    ∷ codes "error_message"
    ∷ codes "created_at"
    ∷ []

abbrev pub instance_columns : List Text
instance_columns =
    codes "id"
    ∷ codes "user_id"
    ∷ codes "broker_account_id"
    ∷ codes "strategy_id"
    ∷ codes "label"
    ∷ codes "params"
    ∷ codes "status"
    ∷ codes "risk_percent"
    ∷ codes "max_daily_loss_cents"
    ∷ codes "daily_loss_today_cents"
    ∷ codes "kill_switch_armed"
    ∷ codes "last_signal_at"
    ∷ codes "started_at"
    ∷ codes "stopped_at"
    ∷ codes "created_at"
    ∷ codes "updated_at"
    ∷ codes "deleted_at"
    ∷ codes "live_engine_pid"
    ∷ codes "last_heartbeat_at"
    ∷ codes "external_signal_provider"
    ∷ []

-- The two tables of the queries that the migrations make; none makes a table paper_trades.
abbrev pub migrated : Schema
migrated = (backtests, backtest_columns) ∷ (instances, instance_columns) ∷ []
