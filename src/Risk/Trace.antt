-- ===== src/Risk/Trace.antt =====
-- trading-engine/risk/manager.py: a life of the manager as a sequence of dated calls.
use forex_bot.Common.{ℕ, ◌≡◌, true, false, Option, none, some, List, [], ◌∷◌, arith}
use forex_bot.Common.Text.{Text}
use forex_bot.Common.Result.{ok}
use forex_bot.Common.Float.{Float, le, is_zero}
use forex_bot.Risk.Positions.{Ticket, Info}
use forex_bot.Risk.Manager.{
  RiskManager, DisabledReason, max_drawdown_circuit_breaker, bot_disabled, reject, drawdown,
  note_equity, on_equity_update, on_trade_closed, on_position_opened, on_position_closed, evaluate,
  decide,
}

pub data Event (F : Type 0) : Type 0 where
  equity_update : F → Event F
  trade_closed : F → Event F
  position_opened : Text → Info → Event F
  position_closed : Text → Option Ticket → Event F
  evaluated : Text → F → F → Event F

module _ {F : Type 0} ⦃f : Float F⦄ where
  -- One call on the given day; a call that raises leaves what it has written.
  unfoldable pub step : ℕ → Event F → RiskManager F → RiskManager F
  step today (equity_update x) m = (on_equity_update x m).1
  step today (trade_closed pnl) m = on_trade_closed today pnl m
  step today (position_opened s i) m = on_position_opened s i m
  step today (position_closed s t) m = on_position_closed s t m
  step today (evaluated s size risk) m = (evaluate today s size risk m).1

  unfoldable pub run : List (ℕ × Event F) → RiskManager F → RiskManager F
  run [] m = m
  run ((today, e) ∷ es) m = run es (step today e m)

  abbrev IsDisabled : DisabledReason F → RiskManager F → Type 0
  IsDisabled r m = (m.state.bot_disabled ≡ true) × (m.state.disabled_reason ≡ r)

  step-IsDisabled :
      (r : DisabledReason F) (today : ℕ) (e : Event F) (m : RiskManager F)
      → IsDisabled r m
      → IsDisabled r (step today e m)
  unfolding step on_equity_update on_trade_closed on_position_opened on_position_closed evaluate
  step-IsDisabled r today (equity_update x) m h = ground arith
  step-IsDisabled r today (trade_closed pnl) m h = ground arith
  step-IsDisabled r today (position_opened s i) m h = ground arith
  step-IsDisabled r today (position_closed s none) m h = ground arith
  step-IsDisabled r today (position_closed s (some t)) m h = ground arith
  step-IsDisabled r today (evaluated s size risk) m h = ground arith

  run-IsDisabled :
      (r : DisabledReason F) (es : List (ℕ × Event F)) (m : RiskManager F)
      → IsDisabled r m
      → IsDisabled r (run es m)
  unfolding run
  run-IsDisabled r [] m h = h
  run-IsDisabled r ((today, e) ∷ es) m h =
      run-IsDisabled r es (step today e m) (step-IsDisabled r today e m h)

  evaluate_disabled :
      (r : DisabledReason F) (today : ℕ) (s : Text) (size risk : F) (m : RiskManager F)
      → IsDisabled r m
      → (evaluate today s size risk m).0 ≡ ok (reject (bot_disabled r))
  unfolding evaluate decide
  evaluate_disabled r today s size risk m h = ground arith

  update_trips :
      (x : F) (m : RiskManager F)
      → m.state.bot_disabled ≡ false
      → is_zero (note_equity x m.state).peak_equity ≡ false
      → le m.limits.max_drawdown_pct (drawdown x (note_equity x m.state).peak_equity) ≡ true
      → IsDisabled
          (max_drawdown_circuit_breaker
            (drawdown x (note_equity x m.state).peak_equity)
            m.limits.max_drawdown_pct)
          (on_equity_update x m).1
  unfolding on_equity_update
  update_trips x m enabled sound hit = ground arith

  -- An equity update whose drawdown from the peak reaches the limit, on a manager that is not yet
  -- disabled and with a peak other than 0, disables it for good: whatever calls follow, on whatever
  -- days, every later `evaluate` rejects with that drawdown as its reason.
  pub drawdown_disables_forever :
      (x : F) (m : RiskManager F) (es : List (ℕ × Event F)) (today : ℕ) (s : Text) (size risk : F)
      → m.state.bot_disabled ≡ false
      → is_zero (note_equity x m.state).peak_equity ≡ false
      → le m.limits.max_drawdown_pct (drawdown x (note_equity x m.state).peak_equity) ≡ true
      → let dd_pct = drawdown x (note_equity x m.state).peak_equity in
        (evaluate today s size risk (run es (on_equity_update x m).1)).0
        ≡ ok (reject (bot_disabled (max_drawdown_circuit_breaker dd_pct m.limits.max_drawdown_pct)))
  drawdown_disables_forever x m es today s size risk enabled sound hit =
      evaluate_disabled _ today s size risk _
        (run-IsDisabled _ es _ (update_trips x m enabled sound hit))
