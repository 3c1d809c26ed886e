-- ===== src/Risk/Sizing/Bounds.antt =====
-- trading-engine/risk/position_sizing.py: between which bounds the sizes lie.
use forex_bot.Common.{◌≡◌, true, arith}
use forex_bot.Common.Float.{Float, IsOrdered, mul, lt, le, nought, max, min}
use forex_bot.Risk.Sizing.{kelly_fractional, full_kelly}

module _ {F : Type 0} ⦃f : Float F⦄ (o : IsOrdered F) where
  max-nonneg : (x : F) → le {F = F} nought nought ≡ true → le nought (max nought x) ≡ true
  max-nonneg x z = ground (arith, o.le_of_lt nought x)

  min-le-cap :
      (x cap : F)
      → le nought x ≡ true
      → le nought cap ≡ true
      → (le nought (min x cap) ≡ true) × (le (min x cap) cap ≡ true)
  min-le-cap x cap hx hc = ground (
    arith,
    o.refl_of_le nought x hx,
    o.refl_of_le nought cap hc,
    o.lt-eq-not-le cap x,
    o.le_total x cap,
  )

  -- Whatever the estimates are, NaN among them, the fraction of Kelly is at least 0 and at most the
  -- cap, if the cap is above 0 and a product with it keeps the sign of the other factor.
  pub kelly_fractional_within :
      (win_rate avg_win_r avg_loss_r cap : F)
      → lt nought cap ≡ true
      → ((x : F) → le nought x ≡ true → le nought (mul x cap) ≡ true)
      → (le nought (kelly_fractional win_rate avg_win_r avg_loss_r cap) ≡ true)
        × (le (kelly_fractional win_rate avg_win_r avg_loss_r cap) cap ≡ true)
  unfolding kelly_fractional
  kelly_fractional_within w a b cap h sign =
      let c = o.le_of_lt nought cap h in
      let z = (o.refl_of_le nought cap c).0 in
      let g = sign (full_kelly w a b) (max-nonneg _ z) in
      ground (arith, min-le-cap (mul (full_kelly w a b) cap) cap g c)
