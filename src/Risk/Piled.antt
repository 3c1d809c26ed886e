-- ===== src/Risk/Piled.antt =====
-- trading-engine/risk/manager.py: orders above the cap of a trade, one after another.
use forex_bot.Common.{
  ℕ, ◌+◌, ◌≡◌, refl, sym, ap, subst, ◌∙◌, true, false, some, List, [], ◌∷◌, ◌++◌, length,
  length-append, if◌then◌else◌, arith,
}
use forex_bot.Common.Text.{Text}
use forex_bot.Common.Float.{Float, mul, div, neg, lt, le, is_zero}
use forex_bot.Common.Result.{Result, ok, err}
use forex_bot.Risk.Positions.{Info, positions_of, total_positions}
use forex_bot.Risk.Manager.{
  RiskManager, RiskDecision, trimmed_to_per_trade_cap, roll_day_if_needed, decide, evaluate, share,
  on_position_opened,
}
use forex_bot.Risk.Counting.{total_positions-insert}

-- What `evaluate` is asked of an order, and the position that it becomes.
pub record Order (F : Type 0) : Type 0 where
  pub symbol : Text
  pub size : F
  pub risk : F
  pub info : Info

module _ {F : Type 0} ⦃f : Float F⦄ where
  -- A position is opened on an approval, trimmed or not.
  abbrev pub opened_on : Order F → Result (RiskDecision F) × RiskManager F → RiskManager F
  opened_on o (err e, m) = m
  opened_on o (ok d, m) = if d.approved then on_position_opened o.symbol o.info m else m

  abbrev pub take_order : ℕ → Order F → RiskManager F → RiskManager F
  take_order today o m = opened_on o (evaluate today o.symbol o.size o.risk m)

  unfoldable pub take_all : ℕ → List (Order F) → RiskManager F → RiskManager F
  take_all today [] m = m
  take_all today (o ∷ os) m = take_all today os (take_order today o m)

  -- The manager is enabled, and has no loss of the day at its limit.
  abbrev pub Trades : ℕ → RiskManager F → Type 0
  Trades today m =
      (m.state.bot_disabled ≡ false)
      × (m.state.today_utc ≡ today)
      × (le (share m.state.equity m.limits.max_daily_loss_pct) (neg m.state.realized_pnl_today)
          ≡ false)

  -- The risk of each order is above the cap of a trade, and not 0.
  abbrev pub AllAbove : F → List (Order F) → Type 0
  AllAbove cap [] = Unit
  AllAbove cap (o ∷ os) = ((lt cap o.risk ≡ true) × (is_zero o.risk ≡ false)) × AllAbove cap os

  abbrev pub cap_of : RiskManager F → F
  cap_of m = share m.state.equity m.limits.max_risk_per_trade_pct

  trimmed_approval :
      (today : ℕ) (o : Order F) (m : RiskManager F)
      → Trades today m
      → lt (cap_of m) o.risk ≡ true
      → is_zero o.risk ≡ false
      → evaluate today o.symbol o.size o.risk m ≡ (
        ok (record {
          approved = true;
          reason = trimmed_to_per_trade_cap;
          adjusted_size = some (mul o.size (div (cap_of m) o.risk));
        }),
        m,
      )
  unfolding evaluate decide roll_day_if_needed
  trimmed_approval today o m t over nonzero = ground arith

  opened_one :
      (o : Order F) (m : RiskManager F)
      → total_positions (on_position_opened o.symbol o.info m).state.open_positions
        ≡ total_positions m.state.open_positions + 1
  unfolding on_position_opened
  opened_one o m =
      let d = m.state.open_positions in
      omega (
        arith,
        total_positions-insert o.symbol (positions_of o.symbol d ++ o.info ∷ []) d,
        length-append (positions_of o.symbol d) (o.info ∷ []),
      )

  opened-Trades :
      (today : ℕ) (o : Order F) (m : RiskManager F)
      → Trades today m
      → Trades today (on_position_opened o.symbol o.info m)
  unfolding on_position_opened
  opened-Trades today o m t = t

  cap-opened :
      (o : Order F) (m : RiskManager F) → cap_of (on_position_opened o.symbol o.info m) ≡ cap_of m
  unfolding on_position_opened
  cap-opened o m = refl

  -- Of a manager that is enabled and has no loss of the day at its limit, orders whose risk is
  -- above the cap of a trade, and not 0, are all approved and opened, whatever their number and
  -- symbols and whatever the three caps on open positions are: after them there are as many more
  -- open positions as there were orders.
  pub trimmed_orders_pile_up :
      (today : ℕ) (os : List (Order F)) (m : RiskManager F)
      → Trades today m
      → AllAbove (cap_of m) os
      → total_positions (take_all today os m).state.open_positions
        ≡ total_positions m.state.open_positions + length os
  unfolding take_all
  trimmed_orders_pile_up today [] m t a = omega arith
  trimmed_orders_pile_up today (o ∷ os) m t a =
      let m1 = on_position_opened o.symbol o.info m in
      ap
        (λ (r : Result (RiskDecision F) × RiskManager F).
          total_positions (take_all today os (opened_on o r)).state.open_positions)
        (trimmed_approval today o m t a.0.0 a.0.1)
      ∙ trimmed_orders_pile_up today os m1 (opened-Trades today o m t)
          (subst (λ c. AllAbove c os) (sym (cap-opened o m)) a.1)
      ∙ omega (arith, opened_one o m)
