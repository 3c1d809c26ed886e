-- ===== src/Live/Engine/Books.antt =====
-- trading-engine/live/engine.py: the books of the managers while a bar is handled.
use forex_bot.Common.{ℕ, ◌==◌, ◌≡◌, refl, ◌∙◌, not, ◌&&◌, Option, none, some, List, []}
use forex_bot.Common.Cases.{if_case, option_case, result_case}
use forex_bot.Common.Float.{Float, lt, le, mul, nought, is_zero}
use forex_bot.Common.Text.{Text}
use forex_bot.Common.Result.{Result, ok, err}
use forex_bot.Risk.Manager.{
  RiskManager, RiskState, roll_day_if_needed, evaluate, on_equity_update, note_equity,
}
use forex_bot.Live.Breaker.{
  Verdict, BreakReason, BreakerState, BreakerLimits, CircuitBreaker, roll_day, verdict, judge,
  check_daily_loss, check_broker, check_slippage, check_recent, compare_slippage, passed, halting,
  slippage_anomaly, sinks, loses, on_broker_ok, on_slippage_sample, last?,
}
use forex_bot.Risk.Sizing.{round_to_step}
use forex_bot.Live.Engine.Types.{LiveEngine, Reply, no_answer, bad_body, replied, Action, receive}
use forex_bot.Live.Engine.Bar.{
  BarAnswers, SignalRow, Levels, OrderReply, is_flat, answered, place, resize, ask_risk, risk_gate,
  sized, noted, propose, on_signal, on_new_bar,
}
use forex_bot.Live.Engine.Approved.{signals_case}

module _ {F : Type 0} ⦃f : Float F⦄ where
  abbrev pub RiskBooks : RiskManager F → Type 0
  RiskBooks m = (m.state.open_positions ≡ []) × (m.state.realized_pnl_today ≡ nought)

  pub evaluate-RiskBooks :
      (today : ℕ) (symbol : Text) (size risk : F) (m : RiskManager F)
      → RiskBooks m
      → RiskBooks (evaluate today symbol size risk m).1
  unfolding evaluate roll_day_if_needed
  evaluate-RiskBooks today symbol size risk m b =
      if_case (λ (s : RiskState F). (s.open_positions ≡ []) × (s.realized_pnl_today ≡ nought))
        (today == m.state.today_utc) _ _ (λ h. b) (λ h. (b.0, refl))

  pub on_equity_update-RiskBooks :
      (equity : F) (m : RiskManager F) → RiskBooks m → RiskBooks (on_equity_update equity m).1
  unfolding on_equity_update
  on_equity_update-RiskBooks equity m b =
      if_case (λ (r : Result (Unit {0}) × RiskManager F). RiskBooks r.1)
        (is_zero (note_equity equity m.state).peak_equity) _ _ (λ h. b)
        (λ h.
          if_case (λ (s : RiskState F). (s.open_positions ≡ []) × (s.realized_pnl_today ≡ nought)) _
            _ _ (λ k. b) (λ k. b))

  -- No judgement changes the realized result.
  abbrev pub Realizes : F → (Verdict × BreakReason F) × BreakerState F → Type 0
  Realizes x r = r.1.realized_pnl_today ≡ x

  pub passed-Realizes : (s : BreakerState F) → Realizes s.realized_pnl_today (passed s)
  passed-Realizes s =
      if_case (λ (t : BreakerState F). t.realized_pnl_today ≡ s.realized_pnl_today)
        (s.halted && not s.killed) _ _ (λ h. refl) (λ h. refl)

  pub compare-Realizes :
      (l : BreakerLimits F) (base recent : F) (s : BreakerState F)
      → Realizes s.realized_pnl_today (compare_slippage l base recent s)
  compare-Realizes l base recent s =
      if_case (Realizes s.realized_pnl_today) (lt (mul base l.slippage_alarm_x) recent)
        (halting (slippage_anomaly recent base l.slippage_alarm_x) s) (passed s) (λ m. refl)
        (λ m. passed-Realizes s)

  pub recent-Realizes :
      (l : BreakerLimits F) (base : F) (o : Option F) (s : BreakerState F)
      → Realizes s.realized_pnl_today
          (elim o [ none ↦ passed s | some recent ↦ compare_slippage l base recent s ])
  recent-Realizes l base none s = passed-Realizes s
  recent-Realizes l base (some recent) s = compare-Realizes l base recent s

  pub check_recent-Realizes :
      (l : BreakerLimits F) (base : F) (s : BreakerState F)
      → Realizes s.realized_pnl_today (check_recent l base s)
  check_recent-Realizes l base s =
      if_case (Realizes s.realized_pnl_today) (not (is_zero base) && lt nought base)
        (elim (last? s.slippage_samples) [
          | none ↦ passed s
          | some recent ↦ compare_slippage l base recent s
        ])
        (passed s) (λ h. recent-Realizes l base (last? s.slippage_samples) s)
        (λ h. passed-Realizes s)

  pub baseline-Realizes :
      (l : BreakerLimits F) (o : Option F) (s : BreakerState F)
      → Realizes s.realized_pnl_today
          (elim o [ none ↦ passed s | some base ↦ check_recent l base s ])
  baseline-Realizes l none s = passed-Realizes s
  baseline-Realizes l (some base) s = check_recent-Realizes l base s

  pub check_slippage-Realizes :
      (l : BreakerLimits F) (s : BreakerState F)
      → Realizes s.realized_pnl_today (check_slippage l s)
  unfolding check_slippage
  check_slippage-Realizes l s = baseline-Realizes l s.slippage_baseline s

  pub judge-Realizes :
      (now : F) (l : BreakerLimits F) (s : BreakerState F)
      → Realizes s.realized_pnl_today (judge now l s)
  unfolding judge check_daily_loss check_broker
  judge-Realizes now l s =
      if_case (Realizes s.realized_pnl_today) s.killed _ _ (λ h. refl)
        (λ h.
          if_case (Realizes s.realized_pnl_today) (sinks l s) _ _ (λ k. refl)
            (λ k.
              if_case (Realizes s.realized_pnl_today) (loses l s) _ _ (λ m. refl)
                (λ m.
                  if_case (Realizes s.realized_pnl_today) _ _ _ (λ n. refl)
                    (λ n. check_slippage-Realizes l s))))

  pub verdict-realized :
      (now : F) (today : ℕ) (b : CircuitBreaker F)
      → b.state.realized_pnl_today ≡ nought
      → (verdict now today b).1.state.realized_pnl_today ≡ nought
  unfolding verdict roll_day
  verdict-realized now today b h =
      judge-Realizes now b.limits (roll_day today b.state)
      ∙ if_case (λ (s : BreakerState F). s.realized_pnl_today ≡ nought)
          (today == b.state.today_utc_date) _ _ (λ k. h) (λ k. refl)

  pub on_slippage_sample-realized :
      (x : F) (b : CircuitBreaker F)
      → b.state.realized_pnl_today ≡ nought
      → (on_slippage_sample x b).state.realized_pnl_today ≡ nought
  unfolding on_slippage_sample
  on_slippage_sample-realized x b h =
      option_case (λ (s : BreakerState F). s.realized_pnl_today ≡ nought) b.state.slippage_baseline
        _ _
        (λ n.
          if_case (λ (s : BreakerState F). s.realized_pnl_today ≡ nought) _ _ _ (λ k. h) (λ k. h))
        (λ y n. h)

  -- No open position, and no realized result of the day in either manager.
  abbrev pub Books : LiveEngine F → Type 0
  Books e = RiskBooks e.risk × (e.breaker.state.realized_pnl_today ≡ nought)

  abbrev pub BooksOf : LiveEngine F × List (Action F) → Type 0
  BooksOf r = Books r.0

  pub receive-Books :
      {A : Type 0} (r : Reply F A) (e : LiveEngine F) → Books e → Books (receive r e).1
  unfolding receive on_broker_ok
  receive-Books no_answer e b = b
  receive-Books (bad_body t) e b = b
  receive-Books (replied t a) e b = b

  pub answered-Books :
      (ans : BarAnswers F) (lv : Levels F) (size : F) (r : Result (OrderReply F)) (e : LiveEngine F)
      → Books e
      → BooksOf (answered ans lv size r e)
  unfolding answered
  answered-Books ans lv size (err x) e b = b
  answered-Books ans lv size (ok r) e b =
      if_case BooksOf r.success _ _ (λ h. (b.0, on_slippage_sample-realized _ e.breaker b.1))
        (λ h. b)

  pub place-Books :
      (ans : BarAnswers F) (s : SignalRow F) (lv : Levels F) (size : F) (e : LiveEngine F)
      → Books e
      → BooksOf (place ans s lv size e)
  unfolding place
  place-Books ans s lv size e b = answered-Books ans lv size _ _ (receive-Books ans.order e b)

  pub risk_gate-Books :
      (ans : BarAnswers F) (s : SignalRow F) (lv : Levels F) (size : F) (e : LiveEngine F)
      → Books e
      → BooksOf (risk_gate ans s lv size e)
  unfolding risk_gate resize
  risk_gate-Books ans s lv size e b =
      let c : Books (record e { risk = (ask_risk ans lv size e).1 }) =
        (evaluate-RiskBooks ans.today e.spec.symbol size _ e.risk b.0, b.1) in
      result_case BooksOf (ask_risk ans lv size e).0 _ _ (λ x r. c)
        (λ d q.
          if_case BooksOf (not d.approved) _ _ (λ a. c)
            (λ a.
              option_case BooksOf d.adjusted_size _ _ (λ n. place-Books ans s lv size _ c)
                (λ y n.
                  result_case BooksOf (round_to_step y e.spec.lot_step e.spec.min_lot) _ _
                    (λ x r. c) (λ lot r. place-Books ans s lv lot _ c))))

  pub propose-Books :
      (ans : BarAnswers F) (s : SignalRow F) (lv : Levels F) (e : LiveEngine F)
      → Books e
      → BooksOf (propose ans s lv e)
  unfolding propose
  propose-Books ans s lv e b =
      result_case BooksOf (sized s lv e) _ _ (λ x r. b)
        (λ size q.
          if_case BooksOf (le size nought) _ _ (λ z. b) (λ z. risk_gate-Books ans s lv size e b))

  pub on_new_bar-Books :
      (ans : BarAnswers F) (e : LiveEngine F) → Books e → BooksOf (on_new_bar ans e)
  unfolding on_new_bar on_signal
  on_new_bar-Books ans e b = signals_case BooksOf ans.signals _ _ _ b b (λ s q.
      if_case BooksOf (is_flat s.direction) _ _ (λ z. b)
        (λ z.
          option_case BooksOf s.levels _ _ (λ n. b)
            (λ lv n. propose-Books ans s lv (noted ans e) b)))
