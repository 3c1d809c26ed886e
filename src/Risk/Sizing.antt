-- ===== src/Risk/Sizing.antt =====
-- trading-engine/risk/position_sizing.py: how large a position is.
pub mod Bounds
use forex_bot.Common.{Option, none, some, ◌||◌, if◌then◌else◌}
use forex_bot.Common.Float.{Float, sub, mul, div, lt, le, lit, floor, nought, is_zero, max, min}
use forex_bot.Common.Result.{Result, ok, err, value_error}

module _ {F : Type 0} ⦃f : Float F⦄ where
  -- `_safe_div`
  abbrev pub safe_div : F → F → F
  safe_div a b = if is_zero b then nought else div a b

  unfoldable pub fixed_fractional : F → F → F → F → F
  fixed_fractional account_equity risk_pct sl_distance pip_value_per_unit =
      if le account_equity nought || le risk_pct nought || le sl_distance nought
      then nought
      else safe_div (mul account_equity (div risk_pct (lit 100 0)))
          (mul sl_distance pip_value_per_unit)

  unfoldable pub atr_position_size : F → F → F → F → F → F
  unfolding fixed_fractional
  atr_position_size account_equity risk_pct atr atr_mult pip_value_per_unit =
      fixed_fractional account_equity risk_pct (mul atr atr_mult) pip_value_per_unit

  unfoldable pub volatility_target : F → F → F → F → F
  volatility_target account_equity target_vol_pct realized_vol_pct notional_per_unit =
      if le realized_vol_pct nought || le notional_per_unit nought
      then nought
      else div (mul account_equity (div target_vol_pct realized_vol_pct)) notional_per_unit

  -- `max(0.0, w / A - (1 - w) / B)` with the probability cut to [0, 1].
  abbrev pub full_kelly : F → F → F → F
  full_kelly win_rate avg_win_r avg_loss_r =
      let w = max nought (min (lit 1 0) win_rate) in
      max nought (sub (div w avg_loss_r) (div (sub (lit 1 0) w) avg_win_r))

  unfoldable pub kelly_fractional : F → F → F → F → F
  kelly_fractional win_rate avg_win_r avg_loss_r cap =
      if le avg_win_r nought || le avg_loss_r nought
      then nought
      else min (mul (full_kelly win_rate avg_win_r avg_loss_r) cap) cap

  -- `math.floor` raises on NaN and the infinities; both exceptions stand as one.
  unfoldable pub round_to_step : F → F → F → Result F
  round_to_step size step min_size =
      if le step nought then ok (max size min_size) else elim (floor (div size step)) [
        | none ↦ err value_error
        | some n ↦ ok (max (mul n step) min_size)
      ]
