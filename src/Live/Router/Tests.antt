-- ===== src/Live/Router/Tests.antt =====
-- trading-engine/live/router.py: a start of an id whose engine trades.
use forex_bot.Common.{◌≡◌, refl, some, none, [], ◌∷◌}
use forex_bot.Common.Int.{pos}
use forex_bot.Common.Text.{codes, text_beq, text_eq}
use forex_bot.Common.Dict.{lookup, insert}
use forex_bot.Common.Fixed.{Fixed, fixed, whole}
use forex_bot.Live.Engine.Types.{EngineSpec, replied, init, receive}
use forex_bot.Live.Engine.Lifecycle.{StartAnswers, on_start, connect_bridge, can_start}
use forex_bot.Live.Engine.Round.{LoopState}
use forex_bot.Live.Router.{start_call, start_engine, route, route_all}
use forex_bot.Live.Router.Orphans.{start_keeps_running}

abbrev spec : EngineSpec Fixed
spec = record {
  symbol = codes "XAUUSD";
  timeframe = codes "M15";
  magic = 7;
  risk_limits = record {
    max_risk_per_trade_pct = whole 2;
    max_daily_loss_pct = whole 5;
    max_drawdown_pct = whole 15;
    max_open_positions = 3;
    max_positions_per_symbol = 1;
    correlated_symbol_limit = 1;
  };
  breaker_limits = record {
    daily_loss_pct = whole 5;
    max_drawdown_pct = whole 15;
    disconnect_grace_sec = whole 300;
    slippage_alarm_x = whole 3;
    slippage_min_samples = 3;
  };
  lot_step = pos 100;
  min_lot = pos 100;
  pip_value_per_unit = whole 1;
}

abbrev answers : StartAnswers Fixed
answers = record {
  connect = replied (whole 1) tt;
  account = replied (whole 1) (record { equity = some (whole 10000); balance = none });
  started_at = whole 2;
}

abbrev trading : LoopState Fixed
trading = record { engine = (on_start answers (init spec (whole 0) 1)).1.0; last_bar_ts = whole 0 }

start_keeps_running_example :
    lookup (codes "a") (
      start_engine
        (codes "a")
        spec
        (whole 9)
        2
        answers
        (route_all (start_call (codes "a") spec (whole 0) 1 answers ∷ []) []))
    ≡ some trading
unfolding lookup insert start_engine route route_all text_beq on_start connect_bridge can_start init
    receive
start_keeps_running_example =
    start_keeps_running (start_call (codes "a") spec (whole 0) 1 answers ∷ []) (codes "a") spec
      (whole 9) 2 answers (codes "a") trading refl refl
