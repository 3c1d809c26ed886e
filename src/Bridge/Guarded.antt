-- ===== src/Bridge/Guarded.antt =====
-- mt5-bridge/mt5_bridge/server.py and safety.py: which orders reach the terminal.
use forex_bot.Common.{
  ◌≡◌, ◌⊎◌, ◌↔◌, inl, inr, refl, Bool, true, false, Option, none, some, List, [], ◌∷◌, arith,
  Option-cases, Among, map,
}
use forex_bot.Common.Text.{Text, text_beq, text_beq_iff, upper}
use forex_bot.Common.Float.{Float, lt, le, nought}
use forex_bot.Bridge.Safety.{
  BridgeConfig, OrderIntent, buy, sell, is_side, listed, is_allowed, check_order,
  check_sl_consistency,
}
use forex_bot.Bridge.Server.{
  OrderRequest, PendingOrderRequest, forwarded, place_order, place_pending,
}

-- A symbol of the allowlist in either case, or any symbol where it is empty.
abbrev pub Allowed : Text → List Text → Type 0
Allowed symbol symbols = (symbols ≡ []) ⊎ Among (upper symbol) (map upper symbols)

listed_iff :
    (symbol : Text) (symbols : List Text)
    → (listed symbol symbols ≡ true) ↔ Among (upper symbol) (map upper symbols)
unfolding listed
listed_iff symbol [] = ground arith
listed_iff symbol (s ∷ symbols) =
    ground (arith, text_beq_iff (upper s) (upper symbol), listed_iff symbol symbols)

is_allowed_iff :
    (symbol : Text) (symbols : List Text)
    → (is_allowed symbol symbols ≡ true) ↔ Allowed symbol symbols
unfolding is_allowed
is_allowed_iff symbol [] = ground arith
is_allowed_iff symbol (s ∷ symbols) = ground (arith, listed_iff symbol (s ∷ symbols))

abbrev pub OneOfSides : Text → Type 0
OneOfSides side = (side ≡ buy) ⊎ (side ≡ sell)

is_side_iff : (side : Text) → (is_side side ≡ true) ↔ OneOfSides side
unfolding is_side
is_side_iff side = ground (arith, text_beq_iff side buy, text_beq_iff side sell)

buy-not-sell : text_beq buy sell ≡ false
unfolding text_beq
buy-not-sell = refl

side_is_one : (side : Text) → side ≡ buy → side ≡ sell → ⊥
side_is_one side b s = ground (arith, text_beq_iff buy sell, buy-not-sell)

module _ {F : Type 0} ⦃f : Float F⦄ where
  abbrev pub HasStop : Option F → Type 0
  HasStop none = ⊥
  HasStop (some sl) = le sl nought ≡ false

  -- What one order must be like on its own.
  abbrev pub Acceptable : BridgeConfig F → OrderIntent F → Type 0
  Acceptable config o =
      OneOfSides o.side
      × (lt nought o.lot ≡ true)
      × (lt config.max_lot o.lot ≡ false)
      × Allowed o.symbol config.symbol_allowlist
      × ((config.require_sl ≡ false) ⊎ HasStop o.sl)

  -- A price that is given and above 0 lies below `p` on the one side and above it on the other.
  abbrev pub Apart : Text → Text → Text → F → Option F → Type 0
  Apart side below above p none = Unit
  Apart side below above p (some x) =
      (lt nought x ≡ false)
      ⊎ (((side ≡ below) × (lt x p ≡ true)) ⊎ ((side ≡ above) × (lt p x ≡ true)))

  -- The stop on the losing side of the price, the target on the winning side.
  abbrev pub OnSides : F → OrderIntent F → Type 0
  OnSides p o = Apart o.side buy sell p o.sl × Apart o.side sell buy p o.tp

  abbrev pub FitsAt : Option F → OrderIntent F → Type 0
  FitsAt none o = Unit
  FitsAt (some p) o = OnSides p o

  check_order_iff :
      (config : BridgeConfig F) (o : OrderIntent F)
      → (check_order config o ≡ none) ↔ Acceptable config o
  unfolding check_order
  check_order_iff config o = elim (Option-cases o.sl) [
    | inl n ↦ ground (arith, is_side_iff o.side, is_allowed_iff o.symbol config.symbol_allowlist)
    | inr (sl, e) ↦
        ground (arith, is_side_iff o.side, is_allowed_iff o.symbol config.symbol_allowlist)
  ]

  check_sl_consistency_iff :
      (side : Text) (p : F) (sl tp : Option F)
      → OneOfSides side
      → (check_sl_consistency side p sl tp ≡ none)
        ↔ (Apart side buy sell p sl × Apart side sell buy p tp)
  unfolding check_sl_consistency
  check_sl_consistency_iff side p none none s = ground arith
  check_sl_consistency_iff side p none (some tp) s =
      ground (arith, text_beq_iff side buy, text_beq_iff side sell, side_is_one side)
  check_sl_consistency_iff side p (some sl) none s =
      ground (arith, text_beq_iff side buy, text_beq_iff side sell, side_is_one side)
  check_sl_consistency_iff side p (some sl) (some tp) s =
      ground (arith, text_beq_iff side buy, text_beq_iff side sell, side_is_one side)

  -- Where the request names a reference price, it is that price that counts.
  abbrev pub ReferenceFits : OrderRequest F → Type 0
  ReferenceFits req = FitsAt req.reference_price req.intent

  -- A market order reaches the terminal exactly if the bridge is connected, the side is `buy` or
  -- `sell`, the lot is above 0 and not above the maximum, the symbol is in the allowlist or that is
  -- empty, a stop above 0 is given where one is required, and, if a reference price is given, each
  -- given stop and target lies on its side of it; what reaches it is the order as it was asked for.
  pub place_order_iff :
      (config : BridgeConfig F) (connected : Bool) (req : OrderRequest F) (o : OrderIntent F)
      → (place_order config connected req ≡ forwarded o)
        ↔ ((connected ≡ true) × (req.intent ≡ o) × Acceptable config req.intent × ReferenceFits req)
  unfolding place_order
  place_order_iff config connected req o =
      let c = check_order_iff config req.intent in
      elim (Option-cases req.reference_price) [
        | inl n ↦ ground (arith, c)
        | inr (p, e) ↦
            ground
              (arith, c, check_sl_consistency_iff req.intent.side p req.intent.sl req.intent.tp)
      ]

  -- A pending order reaches the terminal under the same conditions, with its own price, which is
  -- above 0, in place of the reference price.
  pub place_pending_iff :
      (config : BridgeConfig F) (connected : Bool) (req req' : PendingOrderRequest F)
      → (place_pending config connected req ≡ forwarded req') ↔ (
          (connected ≡ true)
          × (req ≡ req')
          × (lt nought req.price ≡ true)
          × Acceptable config req.order.intent
          × OnSides req.price req.order.intent)
  unfolding place_pending
  place_pending_iff config connected req req' = ground (
    arith,
    check_order_iff config req.order.intent,
    check_sl_consistency_iff req.order.intent.side req.price req.order.intent.sl
        req.order.intent.tp,
  )
