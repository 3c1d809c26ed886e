-- ===== src/Live/Engine/Tests.antt =====
-- trading-engine/live/engine.py: an engine that trades, is killed and goes on, on decimals.
use forex_bot.Common.{ℕ, ◌≡◌, ◌≢◌, refl, true, some, none, [], ◌∷◌, arith, All}
use forex_bot.Common.Int.{pos}
use forex_bot.Common.Text.{codes, text_beq, upper}
use forex_bot.Common.Dict.{lookup}
use forex_bot.Common.Fixed.{Fixed, fixed, whole}
use forex_bot.Common.Result.{runtime_error, err}
use forex_bot.Risk.Manager.{evaluate, decide, check_caps, check_correlation, roll_day_if_needed}
use forex_bot.Risk.Positions.{total_positions, count_in, bucket_of}
use forex_bot.Risk.Sizing.{fixed_fractional, round_to_step}
use forex_bot.Live.Breaker.{
  verdict, judge, check_daily_loss, check_broker, check_slippage, roll_day, on_broker_ok, on_equity,
}
use forex_bot.Live.Engine.Types.{EngineSpec, running, killed, replied, post_close, receive, init}
use forex_bot.Live.Engine.Bar.{
  last_row, on_new_bar, on_signal, propose, risk_gate, resize, place, answered,
}
use forex_bot.Live.Engine.Lifecycle.{
  StartAnswers, KillAnswers, on_start, on_kill, connect_bridge, can_start,
}
use forex_bot.Live.Engine.Round.{
  RoundAnswers, LoopState, start, kill_call, next_round, step, run, round, obey, trade,
  tick_heartbeat, timeframe_seconds,
}
use forex_bot.Live.Engine.Approved.{OnOrder}
use forex_bot.Live.Engine.Lots.{IsSize, orders_have_lots}
use forex_bot.Live.Engine.Gated.{Behind, orders_are_gated}
use forex_bot.Live.Engine.Killed.{IsDead, killed_never_orders}
use forex_bot.Live.Engine.Closes.{on_kill_closes_mine, tickets_of}
use forex_bot.Live.Engine.Silent.{IsNoReport, loop_kill_is_silent}
use forex_bot.Live.Engine.Books.{Books}
use forex_bot.Live.Engine.Unseen.{fresh, managers_stay_blind}
use forex_bot.Live.Engine.Bars.{count_orders}

abbrev spec : EngineSpec Fixed
spec = record {
  symbol = codes "XAUUSD";
  timeframe = codes "M15";
  magic = 7;
  risk_limits = record {
    max_risk_per_trade_pct = whole 2;
    max_daily_loss_pct = whole 5;
    max_drawdown_pct = whole 15;
    max_open_positions = 3;
    max_positions_per_symbol = 1;
    correlated_symbol_limit = 1;
  };
  breaker_limits = record {
    daily_loss_pct = whole 5;
    max_drawdown_pct = whole 15;
    disconnect_grace_sec = whole 300;
    slippage_alarm_x = whole 3;
    slippage_min_samples = 3;
  };
  lot_step = pos 100;
  min_lot = pos 100;
  pip_value_per_unit = whole 1;
}

abbrev starting_up : StartAnswers Fixed
starting_up = record {
  connect = replied (whole 1) tt;
  account = replied (whole 1) (record { equity = some (whole 10000); balance = none });
  started_at = whole 2;
}

abbrev live : LoopState Fixed
live = (step (start starting_up) (fresh spec (whole 0) 1)).0

abbrev kill_answers : KillAnswers Fixed
kill_answers = record {
  positions =
      replied (whole 1000)
        (record { magic = 7; ticket = 1 } ∷ record { magic = 8; ticket = 2 } ∷ []);
  close = λ t. replied (whole 1001) tt;
}

-- A signal for gold whose order is filled at 2001; then the account shows the given equity.
abbrev trading : ℕ → RoundAnswers Fixed
trading equity = record {
  heartbeat_at = whole 100;
  verdict_at = whole 100;
  today = 1;
  now = whole 1000;
  bar = record {
    signals = last_row (record {
      direction = pos 1;
      levels = some (record { entry = whole 2000; sl = whole 1990; tp = whole 2020 });
      risk_per_trade_pct = whole 1;
    });
    signal_at = whole 1000;
    today = 1;
    order =
        replied (whole 1001)
          (record { success = true; ticket = some 5; fill_price = some (whole 2001) });
    fill_at = whole 1002;
  };
  account = replied (whole 1003) (record { equity = some (whole equity); balance = none });
  killing = kill_answers;
}

-- The loop after a round that fills an order and shows a loss of 20 percent.
abbrev sunk : LoopState Fixed
sunk = (step (next_round (trading 8000)) live).0

one_order_filled : count_orders (step (next_round (trading 10000)) live).1 ≡ 1
unfolding count_orders step on_start can_start connect_bridge receive on_broker_ok init round
    tick_heartbeat verdict judge check_daily_loss check_broker check_slippage roll_day obey trade
    timeframe_seconds lookup text_beq upper on_new_bar on_signal propose risk_gate resize place
    answered fixed_fractional round_to_step evaluate decide check_caps check_correlation
    roll_day_if_needed total_positions count_in bucket_of
one_order_filled = refl

orders_are_gated_example :
    All
      (OnOrder (Behind (next_round (trading 10000)) live))
      (step (next_round (trading 10000)) live).1
orders_are_gated_example = orders_are_gated (next_round (trading 10000)) live

orders_have_lots_example :
    All
      (OnOrder (λ p. IsSize live.engine.spec.lot_step live.engine.spec.min_lot p.lot))
      (step (next_round (trading 10000)) live).1
unfolding step on_start can_start connect_bridge receive init tickets_of
orders_have_lots_example = orders_have_lots (next_round (trading 10000)) live refl

killed_never_orders_example :
    All
      (OnOrder {F = Fixed} (λ p. ⊥))
      (run
        (start starting_up ∷ next_round (trading 10000) ∷ [])
        (step (kill_call kill_answers) live).0).1
killed_never_orders_example =
    killed_never_orders (kill_call kill_answers) live
      (start starting_up ∷ next_round (trading 10000) ∷ []) tt (tt, (tt, tt))

on_kill_closes_mine_example :
    ((on_kill true kill_answers live.engine).0 ≡ err runtime_error)
    × ((on_kill true kill_answers live.engine).1.1 ≡ post_close 1 ∷ [])
unfolding step on_start can_start connect_bridge receive init tickets_of
on_kill_closes_mine_example =
    on_kill_closes_mine true (whole 1000)
      (record { magic = 7; ticket = 1 } ∷ record { magic = 8; ticket = 2 } ∷ [])
      (λ t. replied (whole 1001) tt) live.engine (λ t. tt)

managers_stay_blind_example :
    Books sunk.engine
    × ((check_caps spec.risk_limits sunk.engine.risk.state (codes "XAUUSD")).approved ≡ true)
unfolding run
managers_stay_blind_example =
    managers_stay_blind spec (whole 0) 1 (start starting_up ∷ next_round (trading 8000) ∷ [])
      spec.risk_limits (codes "XAUUSD") (omega arith) (omega arith) (omega arith)

running_is_not_killed : running ≢ killed
running_is_not_killed h = cc

-- The same loop with a loss of 20 percent on its account.
abbrev crashed : LoopState Fixed
crashed = record live {
  engine = record live.engine { breaker = on_equity (whole 8000) live.engine.breaker };
}

loop_kill_is_silent_example :
    IsDead (round (trading 8000) crashed).0.engine
    × All IsNoReport (round (trading 8000) crashed).1
    × ((round (trading 8000) crashed).0.engine.runtime.last_error ≡ some runtime_error)
unfolding step on_start can_start connect_bridge receive init on_broker_ok on_equity verdict judge
    roll_day
loop_kill_is_silent_example = loop_kill_is_silent (trading 8000) crashed running_is_not_killed refl
