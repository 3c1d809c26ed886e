-- ===== src/Live/Breaker/Tests.antt =====
-- trading-engine/live/circuit_breaker.py: runs of the breaker and the theorems at concrete inputs.
use forex_bot.Common.{ℕ, ◌≡◌, ◌≢◌, refl, some, List, [], ◌∷◌}
use forex_bot.Common.Fixed.{Fixed, fixed, whole}
use forex_bot.Common.Int.{negsuc}
use forex_bot.Live.Breaker.{
  ok_verdict, halt, kill, BreakerLimits, CircuitBreaker, init, verdict, judge, roll_day, on_equity,
  on_trade_closed, on_slippage_sample, max_drawdown, daily_loss, slippage_anomaly, check_daily_loss,
  check_broker, check_slippage, sorted, insert_sorted, median,
}
use forex_bot.Live.Breaker.Killed.{
  trade_closed, Call, equity, slippage_sample, asked, step, run, kill_is_final,
}
use forex_bot.Live.Breaker.Flags.{Reports, verdict-Reports}
use forex_bot.Live.Breaker.Halted.{daily_halt_lasts}

abbrev limits : BreakerLimits Fixed
limits = record {
  daily_loss_pct = whole 5;
  max_drawdown_pct = whole 15;
  disconnect_grace_sec = whole 300;
  slippage_alarm_x = whole 3;
  slippage_min_samples = 3;
}

abbrev breaker : CircuitBreaker Fixed
breaker = init limits (whole 10000) (whole 0) 1

abbrev sunk : CircuitBreaker Fixed
sunk = on_equity (whole 8000) breaker

-- A recovery and a new day do not lift the kill.
kill_is_final_example :
    (verdict (whole 90) 3 (
      run
        ((whole 50, 2, equity (whole 12000)) ∷ (whole 60, 2, asked) ∷ [])
        (verdict (whole 10) 1 sunk).1)).0
    ≡ (kill, max_drawdown (whole 20))
unfolding init on_equity verdict judge roll_day
kill_is_final_example =
    kill_is_final (whole 10) (whole 90) 1 3
      ((whole 50, 2, equity (whole 12000)) ∷ (whole 60, 2, asked) ∷ []) sunk refl

abbrev losing : CircuitBreaker Fixed
losing = on_trade_closed 1 (negsuc 5_999_999) breaker

verdict-Reports_example :
    let (v, c) = verdict (whole 10) 1 losing in
    Reports (whole 10) limits (roll_day 1 losing.state) v.0 v.1 c.state
unfolding init on_trade_closed roll_day
verdict-Reports_example = verdict-Reports (whole 10) 1 losing

losing_halts : (verdict (whole 10) 1 losing).0 ≡ (halt, daily_loss (whole 6))
unfolding verdict judge roll_day init on_trade_closed check_daily_loss
losing_halts = refl

abbrev after_halt : List (Fixed × ℕ × Call Fixed)
after_halt =
    (whole 50, 1, equity (whole 12000))
    ∷ (whole 55, 1, trade_closed (whole 50))
    ∷ (whole 60, 1, asked)
    ∷ []

daily_halt_lasts_example :
    (verdict (whole 90) 1 (run after_halt (verdict (whole 10) 1 losing).1)).0.0 ≢ ok_verdict
unfolding init on_trade_closed roll_day run step verdict judge check_daily_loss on_equity
daily_halt_lasts_example =
    daily_halt_lasts (whole 10) (whole 90) 1 after_halt losing refl
      (refl, tt, (refl, refl, (refl, tt, tt)))

-- A larger win on the same day lifts the halt.
win_lifts :
    (verdict
      (whole 10)
      1
      (run ((whole 5, 1, trade_closed (whole 500)) ∷ []) (verdict (whole 10) 1 losing).1)).0.0
    ≡ ok_verdict
unfolding init on_trade_closed roll_day run step verdict judge check_daily_loss check_broker
    check_slippage
win_lifts = refl

abbrev samples : List (Fixed × ℕ × Call Fixed)
samples =
    (whole 1, 1, slippage_sample (whole 3))
    ∷ (whole 2, 1, slippage_sample (whole 1))
    ∷ (whole 3, 1, asked)
    ∷ (whole 4, 1, slippage_sample (whole 2))
    ∷ (whole 5, 1, slippage_sample (whole 9))
    ∷ []

samples_baseline : (run samples breaker).state.slippage_baseline ≡ some (whole 2)
unfolding run step init on_slippage_sample verdict judge roll_day check_daily_loss check_broker
    check_slippage sorted insert_sorted median
samples_baseline = refl

samples_alarm :
    (verdict (whole 6) 1 (run samples breaker)).0
    ≡ (halt, slippage_anomaly (whole 9) (whole 2) (whole 3))
unfolding run step init on_slippage_sample verdict judge roll_day check_daily_loss check_broker
    check_slippage sorted insert_sorted median
samples_alarm = refl
