-- ===== src/Bridge/Safety.antt =====
-- mt5-bridge/mt5_bridge/safety.py: the checks before any call of MT5. A check returns the
-- violation that it raises, if any.
use forex_bot.Common.{
  ℕ, Bool, true, false, not, ◌&&◌, ◌||◌, Option, none, some, List, [], ◌∷◌, if◌then◌else◌,
}
use forex_bot.Common.Text.{Text, codes, text_beq, upper}
use forex_bot.Common.Float.{Float, lt, le, nought}

pub record BridgeConfig (F : Type 0) : Type 0 where
  pub max_lot : F
  pub symbol_allowlist : List Text
  pub require_sl : Bool

pub record OrderIntent (F : Type 0) : Type 0 where
  pub symbol : Text
  pub side : Text
  pub lot : F
  pub sl : Option F
  pub tp : Option F
  pub comment : Text
  pub magic : ℕ

pub data SafetyViolation : Type 0 where
  invalid_side lot_not_positive lot_exceeds_max not_in_allowlist sl_required : SafetyViolation
  buy_sl_not_below sell_sl_not_above buy_tp_not_above sell_tp_not_below : SafetyViolation

abbrev pub buy : Text
buy = codes "buy"

abbrev pub sell : Text
sell = codes "sell"

unfoldable pub is_side : Text → Bool
is_side s = text_beq s buy || text_beq s sell

-- `symbol.upper() in {s.upper() for s in symbols}`
unfoldable pub listed : Text → List Text → Bool
listed symbol [] = false
listed symbol (s ∷ symbols) = text_beq (upper s) (upper symbol) || listed symbol symbols

-- An empty allowlist allows any symbol.
unfoldable pub is_allowed : Text → List Text → Bool
is_allowed symbol [] = true
is_allowed symbol (s ∷ symbols) = listed symbol (s ∷ symbols)

module _ {F : Type 0} ⦃f : Float F⦄ where
  -- `sl is None or sl <= 0`
  abbrev pub is_missing : Option F → Bool
  is_missing none = true
  is_missing (some sl) = le sl nought

  unfoldable pub check_order : BridgeConfig F → OrderIntent F → Option SafetyViolation
  check_order config order =
      if not (is_side order.side)
      then some invalid_side
      else if not (lt nought order.lot)
      then some lot_not_positive
      else if lt config.max_lot order.lot
      then some lot_exceeds_max
      else if not (is_allowed order.symbol config.symbol_allowlist)
      then some not_in_allowlist
      else if config.require_sl && is_missing order.sl
      then some sl_required
      else none

  -- `x is not None and x > 0 and side == ... and not test(x)`
  abbrev pub breaks : Text → Text → (F → Bool) → Option F → Bool
  breaks side wanted test none = false
  breaks side wanted test (some x) = lt nought x && (text_beq side wanted && not (test x))

  unfoldable pub check_sl_consistency : Text → F → Option F → Option F → Option SafetyViolation
  check_sl_consistency side entry sl tp =
      if breaks side buy (λ x. lt x entry) sl
      then some buy_sl_not_below
      else if breaks side sell (λ x. lt entry x) sl
      then some sell_sl_not_above
      else if breaks side buy (λ x. lt entry x) tp
      then some buy_tp_not_above
      else if breaks side sell (λ x. lt x entry) tp
      then some sell_tp_not_below
      else none
