-- ===== src/Live/Engine/Bar.antt =====
-- trading-engine/live/engine.py: `_on_new_bar`, from the signal of the last bar to the order. Every
-- exception in it is caught and ends it, with what was done so far.
use forex_bot.Common.{
  ℕ, zero, ◌+◌, Bool, true, false, not, Option, none, some, List, [], ◌∷◌, if◌then◌else◌,
}
use forex_bot.Common.Int.{ℤ, pos, negsuc}
use forex_bot.Common.Float.{Float, sub, mul, le, nought, abs}
use forex_bot.Common.Result.{Result, ok, err}
use forex_bot.Risk.Manager.{RiskDecision, RiskManager, evaluate}
use forex_bot.Risk.Sizing.{fixed_fractional, round_to_step}
use forex_bot.Live.Breaker.{on_slippage_sample}
use forex_bot.Live.Engine.Types.{
  LiveEngine, Reply, OrderPayload, Action, post_order, emit_signal, emit_trade, receive,
}

pub record Levels (F : Type 0) : Type 0 where
  pub entry : F
  pub sl : F
  pub tp : F

-- The last row of the strategy's signals; `levels` is missing where reading an entry of it raises.
pub record SignalRow (F : Type 0) : Type 0 where
  pub direction : ℤ
  pub levels : Option (Levels F)
  pub risk_per_trade_pct : F

-- `_load_recent_bars`, `_make_strategy` and the strategy: too few bars, an exception, or a row.
pub data Signals (F : Type 0) : Type 0 where
  too_few : Signals F
  raises : Signals F
  last_row : SignalRow F → Signals F

-- The body of the answer to an order.
pub record OrderReply (F : Type 0) : Type 0 where
  pub success : Bool
  pub ticket : Option ℕ
  pub fill_price : Option F

-- What the world answers while a bar is handled: times, the date, the strategy and the bridge.
pub record BarAnswers (F : Type 0) : Type 0 where
  pub signals : Signals F
  pub signal_at : F
  pub today : ℕ
  pub order : Reply F (OrderReply F)
  pub fill_at : F

abbrev pub is_flat : ℤ → Bool
is_flat (pos zero) = true
is_flat _ = false

abbrev pub is_long : ℤ → Bool
is_long (negsuc _) = false
is_long (pos n) = not (is_flat (pos n))

module _ {F : Type 0} ⦃f : Float F⦄ where
  abbrev pub or_entry : Option F → F → F
  or_entry (some p) entry = p
  or_entry none entry = entry

  abbrev pub payload : LiveEngine F → SignalRow F → Levels F → F → OrderPayload F
  payload e s lv size = record {
    symbol = e.spec.symbol;
    is_buy = is_long s.direction;
    lot = size;
    sl = lv.sl;
    tp = lv.tp;
    magic = e.spec.magic;
    reference_price = lv.entry;
  }

  -- A filled order: the counters and the slippage; the trade is reported if a ticket came back.
  abbrev pub filled :
      BarAnswers F → Levels F → F → OrderReply F → LiveEngine F → LiveEngine F × List (Action F)
  filled ans lv size r e =
      let fill = or_entry r.fill_price lv.entry in
      (
        record e {
          runtime = record e.runtime {
            last_fill_at = some ans.fill_at;
            fills_today = e.runtime.fills_today + 1;
            open_position_ticket = r.ticket;
          };
          breaker = on_slippage_sample (abs (sub fill lv.entry)) e.breaker;
        },
        elim r.ticket [ none ↦ [] | some t ↦ emit_trade t size fill ∷ [] ],
      )

  unfoldable pub answered :
      BarAnswers F
      → Levels F
      → F
      → Result (OrderReply F)
      → LiveEngine F
      → LiveEngine F × List (Action F)
  answered ans lv size (err _) e = (e, [])
  answered ans lv size (ok r) e = if r.success then filled ans lv size r e else (e, [])

  unfoldable pub place :
      BarAnswers F → SignalRow F → Levels F → F → LiveEngine F → LiveEngine F × List (Action F)
  place ans s lv size e =
      let (r, e1) = receive ans.order e in
      let (e2, acts) = answered ans lv size r e1 in (e2, post_order (payload e s lv size) ∷ acts)

  -- An approved order, with the size that the decision may have adjusted.
  unfoldable pub resize :
      BarAnswers F
      → SignalRow F
      → Levels F
      → F
      → RiskDecision F
      → LiveEngine F
      → LiveEngine F × List (Action F)
  resize ans s lv size d e = elim d.adjusted_size [
    | none ↦ place ans s lv size e
    | some a ↦ elim (round_to_step a e.spec.lot_step e.spec.min_lot) [
      | err _ ↦ (e, [])
      | ok adjusted ↦ place ans s lv adjusted e
    ]
  ]

  abbrev pub distance : Levels F → F
  distance lv = abs (sub lv.entry lv.sl)

  abbrev pub ask_risk :
      BarAnswers F → Levels F → F → LiveEngine F → Result (RiskDecision F) × RiskManager F
  ask_risk ans lv size e =
      evaluate ans.today e.spec.symbol size (mul (mul size (distance lv)) e.spec.pip_value_per_unit)
        e.risk

  unfoldable pub risk_gate :
      BarAnswers F → SignalRow F → Levels F → F → LiveEngine F → LiveEngine F × List (Action F)
  risk_gate ans s lv size e =
      let e1 = record e { risk = (ask_risk ans lv size e).1 } in
      elim (ask_risk ans lv size e).0 [
        | err _ ↦ (e1, [])
        | ok d ↦ if not d.approved then (e1, []) else resize ans s lv size d e1
      ]

  abbrev pub sized : SignalRow F → Levels F → LiveEngine F → Result F
  sized s lv e =
      round_to_step
        (fixed_fractional e.risk.state.equity s.risk_per_trade_pct (distance lv)
          e.spec.pip_value_per_unit)
        e.spec.lot_step e.spec.min_lot

  unfoldable pub propose :
      BarAnswers F → SignalRow F → Levels F → LiveEngine F → LiveEngine F × List (Action F)
  propose ans s lv e = elim (sized s lv e) [
    | err _ ↦ (e, [])
    | ok size ↦ if le size nought then (e, []) else risk_gate ans s lv size e
  ]

  abbrev pub noted : BarAnswers F → LiveEngine F → LiveEngine F
  noted ans e = record e {
    runtime = record e.runtime {
      last_signal_at = some ans.signal_at;
      signals_today = e.runtime.signals_today + 1;
    };
  }

  unfoldable pub on_signal :
      BarAnswers F → SignalRow F → LiveEngine F → LiveEngine F × List (Action F)
  on_signal ans s e = elim s.levels [
    | none ↦ (e, [])
    | some lv ↦
        let (e1, acts) = propose ans s lv e in
        (e1, emit_signal s.direction lv.entry lv.sl lv.tp ∷ acts)
  ]

  unfoldable pub on_new_bar : BarAnswers F → LiveEngine F → LiveEngine F × List (Action F)
  on_new_bar ans e = elim ans.signals [
    | too_few ↦ (e, [])
    | raises ↦ (e, [])
    | last_row s ↦ if is_flat s.direction then (e, []) else on_signal ans s (noted ans e)
  ]
