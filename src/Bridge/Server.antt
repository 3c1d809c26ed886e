-- ===== src/Bridge/Server.antt =====
-- mt5-bridge/mt5_bridge/server.py: the two routes that place orders. A route refuses, or calls the
-- client with the order; what the terminal answers, and the broadcast of it, are not modelled.
use forex_bot.Common.{Bool, not, Option, none, some, if◌then◌else◌}
use forex_bot.Common.Text.{Text}
use forex_bot.Common.Float.{Float, lt, nought}
use forex_bot.Bridge.Safety.{
  BridgeConfig, OrderIntent, SafetyViolation, check_order, check_sl_consistency,
}

pub record OrderRequest (F : Type 0) : Type 0 where
  pub intent : OrderIntent F
  pub reference_price : Option F

-- `PendingOrderRequest` is an `OrderRequest` with these fields.
pub record PendingOrderRequest (F : Type 0) : Type 0 where
  pub order : OrderRequest F
  pub kind : Text
  pub price : F

-- The status codes 422, 409 and 400.
pub data HttpException : Type 0 where
  unprocessable : HttpException
  not_connected : HttpException
  safety : SafetyViolation → HttpException

pub data Route (A : Type 0) : Type 0 where
  refused : HttpException → Route A
  forwarded : A → Route A

abbrev pub guard : {A : Type 0} → Option SafetyViolation → Route A → Route A
guard none r = r
guard (some v) r = refused (safety v)

module _ {F : Type 0} ⦃f : Float F⦄ where
  abbrev pub check_reference : OrderRequest F → Option SafetyViolation
  check_reference req = elim req.reference_price [
    | none ↦ none
    | some p ↦ check_sl_consistency req.intent.side p req.intent.sl req.intent.tp
  ]

  -- The validation of the body asks for `lot > 0`, before the handler runs.
  unfoldable pub place_order : BridgeConfig F → Bool → OrderRequest F → Route (OrderIntent F)
  place_order config connected req =
      if not (lt nought req.intent.lot)
      then refused unprocessable
      else if not connected
      then refused not_connected
      else guard (check_order config req.intent)
          (guard (check_reference req) (forwarded req.intent))

  unfoldable pub place_pending :
      BridgeConfig F → Bool → PendingOrderRequest F → Route (PendingOrderRequest F)
  place_pending config connected req =
      if not (lt nought req.order.intent.lot)
      then refused unprocessable
      else if not (lt nought req.price)
      then refused unprocessable
      else if not connected
      then refused not_connected
      else guard (check_order config req.order.intent) (
          guard
            (check_sl_consistency req.order.intent.side req.price req.order.intent.sl
              req.order.intent.tp)
            (forwarded req))
