-- ===== src/Live/Breaker/Killed.antt =====
-- trading-engine/live/circuit_breaker.py: a kill is final.
use forex_bot.Common.{ℕ, ◌≡◌, ◌≢◌, ◌∙◌, ap, sym, true, List, [], ◌∷◌, arith}
use forex_bot.Common.Float.{Float}
use forex_bot.Live.Breaker.{
  Verdict, kill, CircuitBreaker, BreakerState, BreakerLimits, BreakReason, roll_day, on_equity,
  on_trade_closed, on_broker_ok, on_slippage_sample, check_daily_loss, check_broker, check_slippage,
  judge, verdict,
}

-- A call of the breaker, with the time and the date at which it is made.
pub data Call (F : Type 0) : Type 0 where
  equity : F → Call F
  trade_closed : F → Call F
  broker_ok : Call F
  slippage_sample : F → Call F
  asked : Call F

module _ {F : Type 0} ⦃f : Float F⦄ where
  unfoldable pub step : F → ℕ → Call F → CircuitBreaker F → CircuitBreaker F
  step now today (equity x) b = on_equity x b
  step now today (trade_closed pnl) b = on_trade_closed today pnl b
  step now today broker_ok b = on_broker_ok now b
  step now today (slippage_sample x) b = on_slippage_sample x b
  step now today asked b = (verdict now today b).1

  unfoldable pub run : List (F × ℕ × Call F) → CircuitBreaker F → CircuitBreaker F
  run [] b = b
  run ((now, today, c) ∷ cs) b = run cs (step now today c b)

  abbrev pub IsKilled : BreakReason F → CircuitBreaker F → Type 0
  IsKilled r b = (b.state.killed ≡ true) × (b.state.last_reason ≡ r)

  step-IsKilled :
      (r : BreakReason F) (now : F) (today : ℕ) (c : Call F) (b : CircuitBreaker F)
      → IsKilled r b
      → IsKilled r (step now today c b)
  unfolding step on_equity on_trade_closed on_broker_ok on_slippage_sample verdict judge roll_day
  step-IsKilled r now today (equity x) b h = ground arith
  step-IsKilled r now today (trade_closed pnl) b h = ground arith
  step-IsKilled r now today broker_ok b h = h
  step-IsKilled r now today (slippage_sample x) b h = ground arith
  step-IsKilled r now today asked b h = ground arith

  run-IsKilled :
      (r : BreakReason F) (cs : List (F × ℕ × Call F)) (b : CircuitBreaker F)
      → IsKilled r b
      → IsKilled r (run cs b)
  unfolding run
  run-IsKilled r [] b h = h
  run-IsKilled r ((now, today, c) ∷ cs) b h =
      run-IsKilled r cs (step now today c b) (step-IsKilled r now today c b h)

  check_slippage-ne-kill :
      (l : BreakerLimits F) (s : BreakerState F) → (check_slippage l s).0.0 ≢ kill
  unfolding check_slippage
  check_slippage-ne-kill l s = ground arith

  check_daily_loss-ne-kill :
      (now : F) (l : BreakerLimits F) (s : BreakerState F) → (check_daily_loss now l s).0.0 ≢ kill
  unfolding check_daily_loss check_broker
  check_daily_loss-ne-kill now l s = ground (arith, check_slippage-ne-kill l s)

  verdict-kill :
      (now : F) (today : ℕ) (b : CircuitBreaker F)
      → (verdict now today b).0.0 ≡ kill
      → IsKilled (verdict now today b).0.1 (verdict now today b).1
  unfolding verdict judge
  verdict-kill now today b h =
      ground (arith, check_daily_loss-ne-kill now b.limits (roll_day today b.state))

  verdict-IsKilled :
      (r : BreakReason F) (now : F) (today : ℕ) (b : CircuitBreaker F)
      → IsKilled r b
      → (verdict now today b).0 ≡ (kill, r)
  unfolding verdict judge roll_day
  verdict-IsKilled r now today b h = ground arith

  -- Once a verdict is KILL, every later verdict is KILL with the same reason, whatever calls are
  -- made in between, at whatever times and dates.
  pub kill_is_final :
      (now later : F) (today day : ℕ) (cs : List (F × ℕ × Call F)) (b : CircuitBreaker F)
      → (verdict now today b).0.0 ≡ kill
      → (verdict later day (run cs (verdict now today b).1)).0 ≡ (verdict now today b).0
  kill_is_final now later today day cs b h =
      verdict-IsKilled _ later day _ (run-IsKilled _ cs _ (verdict-kill now today b h))
      ∙ ap (λ (v : Verdict). (v, (verdict now today b).0.1)) (sym h)
