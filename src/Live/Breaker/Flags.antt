-- ===== src/Live/Breaker/Flags.antt =====
-- trading-engine/live/circuit_breaker.py: what each verdict says of the account, and what it leaves
-- in the flags.
use forex_bot.Common.{
  ℕ, ◌≡◌, refl, Bool, true, false, Option, some, arith, Bool-cases, inl, inr, ◌⊎◌,
}
use forex_bot.Common.Float.{Float, lt, sub, mul, nought, is_zero}
use forex_bot.Live.Breaker.{
  Verdict, ok_verdict, halt, kill, CircuitBreaker, BreakerState, BreakerLimits, BreakReason,
  no_reason, roll_day, sinks, loses, last?, check_daily_loss, check_broker, check_slippage, judge,
  verdict,
}

module _ {F : Type 0} ⦃f : Float F⦄ where
  abbrev pub SlipsAt : BreakerLimits F → Option F → Option F → Type 0
  SlipsAt l (some base) (some recent) =
      (is_zero base ≡ false)
      × (lt nought base ≡ true)
      × (lt (mul base l.slippage_alarm_x) recent ≡ true)
  SlipsAt l _ _ = ⊥

  -- The last sample of slippage is above the alarm level of a positive baseline.
  abbrev pub Slips : BreakerLimits F → BreakerState F → Type 0
  Slips l s = SlipsAt l s.slippage_baseline (last? s.slippage_samples)

  abbrev pub late : F → BreakerLimits F → BreakerState F → Bool
  late now l s = lt l.disconnect_grace_sec (sub now s.last_broker_ok_at)

  -- What a verdict says of the state `s` that was judged, and of the state `t` that it leaves.
  abbrev pub Reports :
      F → BreakerLimits F → BreakerState F → Verdict → BreakReason F → BreakerState F → Type 0
  Reports now l s ok_verdict r t =
      (sinks l s ≡ false)
      × (loses l s ≡ false)
      × (late now l s ≡ false)
      × (¬ Slips l s)
      × (r ≡ no_reason)
      × (t.killed ≡ false)
      × (t.halted ≡ false)
  Reports now l s halt r t =
      ((loses l s ≡ true) ⊎ (late now l s ≡ true) ⊎ Slips l s)
      × (sinks l s ≡ false)
      × (t.killed ≡ false)
      × (t.halted ≡ true)
      × (t.last_reason ≡ r)
  Reports now l s kill r t =
      ((s.killed ≡ true) ⊎ (sinks l s ≡ true)) × (t.killed ≡ true) × (t.last_reason ≡ r)

  abbrev Judged :
      F → BreakerLimits F → BreakerState F → (Verdict × BreakReason F) × BreakerState F → Type 0
  Judged now l s (v, t) = Reports now l s v.0 v.1 t

  slippage-Judged :
      (now : F) (l : BreakerLimits F) (s : BreakerState F)
      → s.killed ≡ false
      → sinks l s ≡ false
      → loses l s ≡ false
      → late now l s ≡ false
      → Judged now l s (check_slippage l s)
  unfolding check_slippage
  slippage-Judged now l s alive no_dd no_loss no_gap = ground arith

  broker-Judged :
      (now : F) (l : BreakerLimits F) (s : BreakerState F)
      → s.killed ≡ false
      → sinks l s ≡ false
      → loses l s ≡ false
      → Judged now l s (check_broker now l s)
  unfolding check_broker
  broker-Judged now l s alive no_dd no_loss = elim (Bool-cases (late now l s)) [
    | inl gap ↦ rw gap (inr (inl gap), no_dd, alive, refl, refl)
    | inr no_gap ↦ rw no_gap (slippage-Judged now l s alive no_dd no_loss no_gap)
  ]

  daily-Judged :
      (now : F) (l : BreakerLimits F) (s : BreakerState F)
      → s.killed ≡ false
      → sinks l s ≡ false
      → Judged now l s (check_daily_loss now l s)
  unfolding check_daily_loss
  daily-Judged now l s alive no_dd = elim (Bool-cases (loses l s)) [
    | inl loss ↦ rw loss (inl loss, no_dd, alive, refl, refl)
    | inr no_loss ↦ rw no_loss (broker-Judged now l s alive no_dd no_loss)
  ]

  judge-Judged :
      (now : F) (l : BreakerLimits F) (s : BreakerState F) → Judged now l s (judge now l s)
  unfolding judge
  judge-Judged now l s = ground (arith, daily-Judged now l s)

  -- On the state of the day, a verdict is OK only if no breaker trips: no drawdown at the limit, no
  -- daily loss at the limit, no silence of the broker beyond the grace, no slippage above the
  -- alarm; it then leaves both flags down. HALT means that one of the last three trips while the
  -- drawdown does not, and leaves the halt flag up and its reason stored. KILL means an earlier
  -- kill or a drawdown at the limit, and leaves the kill flag up and its reason stored.
  pub verdict-Reports :
      (now : F) (today : ℕ) (b : CircuitBreaker F)
      → let (v, c) = verdict now today b in
        Reports now b.limits (roll_day today b.state) v.0 v.1 c.state
  unfolding verdict
  verdict-Reports now today b = judge-Judged now b.limits (roll_day today b.state)
