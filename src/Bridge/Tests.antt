-- ===== src/Bridge/Tests.antt =====
-- mt5-bridge/mt5_bridge: orders that the bridge forwards and refuses, on decimals.
use forex_bot.Common.{◌≡◌, refl, inl, inr, true, none, some, [], ◌∷◌}
use forex_bot.Common.Text.{codes, text_beq, upper}
use forex_bot.Common.Fixed.{Fixed, fixed, tenths, whole}
use forex_bot.Bridge.Safety.{
  BridgeConfig, OrderIntent, buy, is_side, listed, is_allowed, check_order, check_sl_consistency,
  buy_sl_not_below, not_in_allowlist,
}
use forex_bot.Bridge.Server.{
  OrderRequest, PendingOrderRequest, forwarded, refused, safety, place_order,
}
use forex_bot.Bridge.Guarded.{place_order_iff}

abbrev bridge : BridgeConfig Fixed
bridge = record { max_lot = whole 1; symbol_allowlist = codes "xauusd" ∷ []; require_sl = true }

abbrev gold : Fixed → OrderIntent Fixed
gold sl = record {
  symbol = codes "XAUUSD";
  side = buy;
  lot = tenths 1;
  sl = some sl;
  tp = none;
  comment = [];
  magic = 7;
}

abbrev gold_order : OrderRequest Fixed
gold_order = record { intent = gold (whole 1990); reference_price = some (whole 2000) }

abbrev gold_limit : PendingOrderRequest Fixed
gold_limit = record { order = gold_order; kind = codes "limit"; price = whole 1995 }

stop_above_refused :
    place_order bridge true (record gold_order { intent = gold (whole 2010) })
    ≡ refused (safety buy_sl_not_below)
unfolding place_order check_order check_sl_consistency is_side is_allowed listed text_beq upper
stop_above_refused = refl

silver_refused :
    place_order bridge true
      (record gold_order { intent = record (gold (whole 1990)) { symbol = codes "XAGUSD" } })
    ≡ refused (safety not_in_allowlist)
unfolding place_order check_order check_sl_consistency is_side is_allowed listed text_beq upper
silver_refused = refl

place_order_iff_example : place_order bridge true gold_order ≡ forwarded (gold (whole 1990))
unfolding upper
place_order_iff_example =
    (place_order_iff bridge true gold_order (gold (whole 1990))).1
      (refl, refl, (inl refl, refl, refl, inr (inl refl), inr refl), (inr (inl (refl, refl)), tt))
