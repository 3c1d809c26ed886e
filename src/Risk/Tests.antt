-- ===== src/Risk/Tests.antt =====
-- trading-engine/risk: runs of the manager and the theorems at concrete inputs.
use forex_bot.Common.{◌+◌, ℕ, ◌≤◌, ◌≡◌, refl, true, none, some, List, [], ◌∷◌, arith}
use forex_bot.Common.Text.{Text, codes, text_beq, upper}
use forex_bot.Common.Dict.{lookup, insert}
use forex_bot.Common.Result.{ok}
use forex_bot.Common.Fixed.{Fixed, fixed, whole}
use forex_bot.Common.Int.{negsuc}
use forex_bot.Risk.Positions.{total_positions, Info, number, bucket_of, count_in}
use forex_bot.Risk.Manager.{
  RiskLimits, RiskManager, RiskDecision, init, evaluate, decide, check_caps, check_correlation,
  reject, bot_disabled, max_drawdown_circuit_breaker, approved, on_equity_update,
  on_position_opened, correlation_cap_reached, roll_day_if_needed,
}
use forex_bot.Risk.Positions.{Bucket, gold_block, btc_block, members}
use forex_bot.Risk.Trace.{Event, trade_closed, equity_update, run, drawdown_disables_forever}
use forex_bot.Risk.Daily.{daily_result}
use forex_bot.Risk.Caps.{here, next, opened, Capped, Reach-Capped}
use forex_bot.Risk.Piled.{Order, take_all, trimmed_orders_pile_up}

abbrev limits : RiskLimits Fixed
limits = record {
  max_risk_per_trade_pct = whole 2;
  max_daily_loss_pct = whole 5;
  max_drawdown_pct = whole 15;
  max_open_positions = 6;
  max_positions_per_symbol = 1;
  correlated_symbol_limit = 1;
}

abbrev manager : RiskManager Fixed
manager = init limits (whole 10000) 1

abbrev days : List (ℕ × Event Fixed)
days =
    (1, trade_closed (whole 100))
    ∷ (2, trade_closed (negsuc 49_999))
    ∷ (2, equity_update (whole 9000))
    ∷ (2, trade_closed (whole 30))
    ∷ []

drawdown_disables_forever_example :
    (evaluate 3
      (codes "XAUUSD")
      (whole 1)
      (whole 10)
      (run days (on_equity_update (whole 8000) manager).1)).0
    ≡ ok (reject (bot_disabled (max_drawdown_circuit_breaker (whole 20) (whole 15))))
unfolding init
drawdown_disables_forever_example =
    drawdown_disables_forever (whole 8000) manager days 3 (codes "XAUUSD") (whole 1) (whole 10) refl
      refl refl

daily_result_example :
    (evaluate 2 (codes "XAUUSD") (whole 1) (whole 10) (run days manager)).1.state.realized_pnl_today
    ≡ whole 25
unfolding init
daily_result_example =
    daily_result 1 2 days (codes "XAUUSD") (whole 1) (whole 10) manager refl refl (omega arith)

abbrev ticket_1 : Info
ticket_1 = record { ticket = some (number 1) }

-- An approval with no adjusted size.
abbrev plain : RiskDecision Fixed
plain = record { approved = true; reason = approved; adjusted_size = none }

-- The manager with one open position in gold, opened on an approval.
abbrev with_gold : RiskManager Fixed
with_gold =
    on_position_opened (codes "XAUUSD") ticket_1
      (evaluate 1 (codes "XAUUSD") (whole 1) (whole 10) manager).1

manager-Capped : Capped manager
unfolding init lookup total_positions count_in
manager-Capped = record {
  open_capped = omega arith;
  symbol_capped = λ s. omega arith;
  bucket_capped = λ b. count_none b;
}
  where
    count_none : (b : Bucket) → count_in (members b) [] ≤ 1
    count_none gold_block = omega arith
    count_none btc_block = omega arith

Reach-Capped_example : Capped with_gold
unfolding evaluate decide check_caps check_correlation bucket_of count_in total_positions init upper
    text_beq lookup roll_day_if_needed
Reach-Capped_example =
    Reach-Capped {m = manager} manager-Capped
      (next here (opened 1 (codes "XAUUSD") (whole 1) (whole 10) ticket_1 plain refl refl refl))

-- Silver is refused beside gold: one exposure is allowed in the bucket.
silver_refused :
    (evaluate 1 (codes "XAGUSD") (whole 1) (whole 10) with_gold).0
    ≡ ok (reject (correlation_cap_reached gold_block))
unfolding evaluate decide check_caps check_correlation bucket_of count_in total_positions init upper
    text_beq lookup insert roll_day_if_needed on_position_opened
silver_refused = refl

abbrev too_risky : Text → Order Fixed
too_risky symbol = record { symbol = symbol; size = whole 1; risk = whole 400; info = ticket_1 }

-- The caps allow six positions, one of each symbol and one in each bucket.
trimmed_orders_pile_up_example :
    total_positions
      (take_all 1
        (too_risky (codes "XAUUSD") ∷ too_risky (codes "XAUUSD") ∷ too_risky (codes "XAGUSD") ∷ [])
        manager).state.open_positions
    ≡ total_positions manager.state.open_positions + 3
unfolding init
trimmed_orders_pile_up_example =
    trimmed_orders_pile_up 1
      (too_risky (codes "XAUUSD") ∷ too_risky (codes "XAUUSD") ∷ too_risky (codes "XAGUSD") ∷ [])
      manager (refl, refl, refl) ((refl, refl), ((refl, refl), ((refl, refl), tt)))
