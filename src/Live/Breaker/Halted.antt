-- ===== src/Live/Breaker/Halted.antt =====
-- trading-engine/live/circuit_breaker.py: how long a halt for the loss of the day lasts.
use forex_bot.Common.{ℕ, ◌≡◌, ◌≢◌, true, List, [], ◌∷◌, arith, sym, ==_iff}
use forex_bot.Common.Float.{Float}
use forex_bot.Live.Breaker.{
  ok_verdict, CircuitBreaker, BreakerState, BreakerLimits, roll_day, loses, on_equity,
  on_trade_closed, on_broker_ok, on_slippage_sample, check_daily_loss, check_broker, check_slippage,
  judge, verdict,
}
use forex_bot.Live.Breaker.Killed.{
  Call, equity, trade_closed, broker_ok, slippage_sample, asked, step, run,
}

module _ {F : Type 0} ⦃f : Float F⦄ where
  -- A trade that is closed leaves the loss of the day at the limit.
  abbrev pub LeavesLoss : ℕ → Call F → CircuitBreaker F → Type 0
  LeavesLoss today (trade_closed pnl) b = loses b.limits (on_trade_closed today pnl b).state ≡ true
  LeavesLoss today c b = Unit

  -- Calls of one day, at any times, in which each closed trade leaves the loss at the limit.
  abbrev pub AllOn : ℕ → List (F × ℕ × Call F) → CircuitBreaker F → Type 0
  AllOn today [] b = Unit
  AllOn today ((now, day, c) ∷ cs) b =
      (day ≡ today) × LeavesLoss today c b × AllOn today cs (step now day c b)

  -- The state stands on the day, and its loss of the day is at the limit.
  abbrev Lost : ℕ → CircuitBreaker F → Type 0
  Lost today b = (b.state.today_utc_date ≡ today) × (loses b.limits b.state ≡ true)

  slippage-Lost :
      (today : ℕ) (x : F) (b : CircuitBreaker F)
      → Lost today b
      → Lost today (on_slippage_sample x b)
  unfolding on_slippage_sample
  slippage-Lost today x b h = ground arith

  broker-Lost :
      (today : ℕ) (now : F) (l : BreakerLimits F) (s : BreakerState F)
      → Lost today (record { limits = l; state = s })
      → Lost today (record { limits = l; state = (check_broker now l s).1 })
  unfolding check_broker check_slippage
  broker-Lost today now l s h = ground arith

  judge-Lost :
      (today : ℕ) (now : F) (l : BreakerLimits F) (s : BreakerState F)
      → Lost today (record { limits = l; state = s })
      → Lost today (record { limits = l; state = (judge now l s).1 })
  unfolding judge check_daily_loss
  judge-Lost today now l s h = ground (arith, broker-Lost today now l s h)

  verdict-Lost :
      (now : F) (today : ℕ) (b : CircuitBreaker F)
      → today ≡ (roll_day today b.state).today_utc_date
      → loses b.limits (roll_day today b.state) ≡ true
      → Lost today (verdict now today b).1
  unfolding verdict
  verdict-Lost now today b e h = judge-Lost today now b.limits (roll_day today b.state) (sym e, h)

  roll-today : (today : ℕ) (s : BreakerState F) → today ≡ (roll_day today s).today_utc_date
  unfolding roll_day
  roll-today today s = ground arith

  roll_same : (today : ℕ) (s : BreakerState F) → s.today_utc_date ≡ today → roll_day today s ≡ s
  unfolding roll_day
  roll_same today s h = rw ((==_iff today s.today_utc_date).1 (sym h))

  asked-Lost :
      (today : ℕ) (now : F) (day : ℕ) (b : CircuitBreaker F)
      → day ≡ today
      → Lost today b
      → Lost today (verdict now day b).1
  asked-Lost today now day b e h =
      rw e
        (verdict-Lost now today b (roll-today today b.state) (rw (roll_same today b.state h.0) h.1))

  Lost-ne-ok :
      (today : ℕ) (now : F) (b : CircuitBreaker F)
      → Lost today b
      → (verdict now today b).0.0 ≢ ok_verdict
  unfolding verdict judge check_daily_loss
  Lost-ne-ok today now b h = rw (roll_same today b.state h.0) (ground arith)

  closed-Lost :
      (today day : ℕ) (pnl : F) (b : CircuitBreaker F)
      → day ≡ today
      → loses b.limits (on_trade_closed today pnl b).state ≡ true
      → Lost today (on_trade_closed day pnl b)
  unfolding on_trade_closed roll_day
  closed-Lost today day pnl b e l = ground arith

  step-Lost :
      (today : ℕ) (now : F) (day : ℕ) (c : Call F) (b : CircuitBreaker F)
      → day ≡ today
      → LeavesLoss today c b
      → Lost today b
      → Lost today (step now day c b)
  unfolding step on_equity on_broker_ok
  step-Lost today now day (equity x) b e l h = h
  step-Lost today now day (trade_closed pnl) b e l h = closed-Lost today day pnl b e l
  step-Lost today now day broker_ok b e l h = h
  step-Lost today now day (slippage_sample x) b e l h = slippage-Lost today x b h
  step-Lost today now day asked b e l h = asked-Lost today now day b e h

  run-Lost :
      (today : ℕ) (cs : List (F × ℕ × Call F)) (b : CircuitBreaker F)
      → AllOn today cs b
      → Lost today b
      → Lost today (run cs b)
  unfolding run
  run-Lost today [] b a h = h
  run-Lost today ((now, day, c) ∷ cs) b a h =
      run-Lost today cs (step now day c b) a.2 (step-Lost today now day c b a.0 a.1 h)

  -- Once the loss of the day is at the limit, no later verdict of that day is OK, whatever equities,
  -- samples of slippage, answers of the broker, verdicts and closed trades come in between, as long
  -- as each closed trade leaves the loss of the day at the limit.
  pub daily_halt_lasts :
      (now later : F) (today : ℕ) (cs : List (F × ℕ × Call F)) (b : CircuitBreaker F)
      → loses b.limits (roll_day today b.state) ≡ true
      → AllOn today cs (verdict now today b).1
      → (verdict later today (run cs (verdict now today b).1)).0.0 ≢ ok_verdict
  daily_halt_lasts now later today cs b h a =
      Lost-ne-ok today later _
        (run-Lost today cs _ a (verdict-Lost now today b (roll-today today b.state) h))
