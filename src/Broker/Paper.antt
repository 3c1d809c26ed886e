-- ===== src/Broker/Paper.antt =====
-- trading-engine/broker/paper_adapter.py. `time.time()` is a parameter; a tick handler is a value of
-- the type `H`, and `on_quote` returns the one that it calls.
use forex_bot.Common.{
  ℕ, ◌+◌, Bool, true, false, Option, none, some, List, [], ◌∷◌, map, if◌then◌else◌,
}
use forex_bot.Common.Eq.{nat_eq}
use forex_bot.Common.Text.{Text, text_eq}
use forex_bot.Common.Dict.{Dict, lookup, insert, erase}
use forex_bot.Common.Float.{Float, add, sub, mul, div, le, lit, nought, is_zero, sum}
use forex_bot.Broker.Types.{
  Side, OrderType, market, Order, no_quote_for_symbol, order_not_found, position_not_found,
  OrderResult, OpenPos, AccountInfo, PaperBroker, is_buy, opposite, positions, or_default, success,
  failure, position, taken, pnl_of, or_keep,
}

module _ {F H : Type 0} ⦃f : Float F⦄ where
  -- `PaperBroker.__init__` with the pip sizes given.
  unfoldable pub init : F → F → F → Dict Text F → PaperBroker F H
  init initial_balance slippage_pips spread_pips pip_size = record {
    balance = initial_balance;
    equity = initial_balance;
    realized_pnl = nought;
    slippage_pips = slippage_pips;
    spread_pips = spread_pips;
    pip_size = pip_size;
    open_positions = [];
    pending = [];
    ticker = 1;
    tick_handlers = [];
    connected = false;
    last_quote = [];
  }

  -- `get_account`, which stores the equity too.
  unfoldable pub get_account : PaperBroker F H → AccountInfo F × PaperBroker F H
  get_account b =
      let equity =
        add b.balance (sum (map (λ (e : ℕ × OpenPos F). e.1.unrealized) b.open_positions)) in
      (
        record {
          balance = b.balance;
          equity = equity;
          margin = nought;
          free_margin = equity;
          margin_level = if is_zero equity then nought else lit 999 0;
        },
        record b { equity = equity },
      )

  -- `pip_size.get(symbol, 0.0001)`
  unfoldable pub pip : Text → PaperBroker F H → F
  pip symbol b = elim (lookup symbol b.pip_size) [ some p ↦ p | none ↦ lit 1 4 ]

  unfoldable pub apply_costs : Text → Side → F → PaperBroker F H → F
  apply_costs symbol side price b =
      let p = pip symbol b in
      let spread = div (mul b.spread_pips p) (lit 2 0) in
      let slip = mul b.slippage_pips p in
      if is_buy side then add (add price spread) slip else sub (sub price spread) slip

  abbrev pub quote_or : Text → F × F → PaperBroker F H → F × F
  quote_or symbol d b = elim (lookup symbol b.last_quote) [ some q ↦ q | none ↦ d ]

  -- The price that a market order takes, before costs.
  abbrev pub market_base : Order F → PaperBroker F H → F
  market_base o b =
      taken o.side (quote_or o.symbol (or_default o.price nought, or_default o.price nought) b)

  abbrev pub market_fill : Order F → PaperBroker F H → F
  market_fill o b = apply_costs o.symbol o.side (market_base o b) b

  -- The two branches of `place_order`, the ticket drawn.
  unfoldable pub place_as :
      OrderType → F → ℕ → Order F → PaperBroker F H → OrderResult F × PaperBroker F H
  place_as market now ticket o b =
      if le (market_base o b) nought then (failure no_quote_for_symbol, b) else (
        success ticket (some (market_fill o b)),
        record b {
          open_positions = insert ticket (position ticket o (market_fill o b) now) b.open_positions;
        },
      )
  place_as _ now ticket o b =
      (success ticket none, record b { pending = insert ticket o b.pending })

  -- The ticket is drawn before anything can fail.
  unfoldable pub place_order : F → Order F → PaperBroker F H → OrderResult F × PaperBroker F H
  unfolding place_as
  place_order now o b = place_as o.kind now b.ticker o (record b { ticker = b.ticker + 1 })

  abbrev pub exit_of : OpenPos F → PaperBroker F H → F
  exit_of pos b =
      apply_costs pos.symbol (opposite pos.side)
        (taken (opposite pos.side) (quote_or pos.symbol (pos.entry_price, pos.entry_price) b)) b

  abbrev pub settle : ℕ → OpenPos F → PaperBroker F H → OrderResult F × PaperBroker F H
  settle ticket pos b =
      let exit_price = exit_of pos b in
      let pnl = pnl_of exit_price pos in
      (
        success ticket (some exit_price),
        record b {
          balance = add b.balance pnl;
          realized_pnl = add b.realized_pnl pnl;
          open_positions = erase ticket b.open_positions;
        },
      )

  -- The `volume` argument is ignored: a close is always whole.
  unfoldable pub close_position : ℕ → PaperBroker F H → OrderResult F × PaperBroker F H
  close_position ticket b = elim (lookup ticket b.open_positions) [
    | none ↦ (failure position_not_found, b)
    | some pos ↦ settle ticket pos b
  ]

  unfoldable pub cancel_order : ℕ → PaperBroker F H → OrderResult F × PaperBroker F H
  cancel_order ticket b = elim (lookup ticket b.pending) [
    | some o ↦ (success ticket none, record b { pending = erase ticket b.pending })
    | none ↦ (failure order_not_found, b)
  ]

  unfoldable pub modify_position :
      ℕ → Option F → Option F → PaperBroker F H → OrderResult F × PaperBroker F H
  modify_position ticket sl tp b = elim (lookup ticket b.open_positions) [
    | none ↦ (failure position_not_found, b)
    | some pos ↦ (
      success ticket none,
      record b {
        open_positions =
            insert ticket (record pos { sl = or_keep sl pos.sl; tp = or_keep tp pos.tp })
              b.open_positions;
      },
    )
  ]

  -- `Broker.close_all` of base.py: the positions are listed once, then closed one by one.
  unfoldable pub close_each :
      List (OpenPos F) → PaperBroker F H → List (OrderResult F) × PaperBroker F H
  close_each [] b = ([], b)
  close_each (p ∷ ps) b =
      let (r, b') = close_position p.ticket b in let (rs, b'') = close_each ps b' in (r ∷ rs, b'')

  unfoldable pub close_all : PaperBroker F H → List (OrderResult F) × PaperBroker F H
  close_all b = close_each (positions b.open_positions) b

  -- `subscribe_ticks` and `unsubscribe_ticks`
  unfoldable pub subscribe_ticks : Text → H → PaperBroker F H → PaperBroker F H
  subscribe_ticks symbol h b = record b { tick_handlers = insert symbol h b.tick_handlers }

  unfoldable pub unsubscribe_ticks : Text → PaperBroker F H → PaperBroker F H
  unsubscribe_ticks symbol b = record b { tick_handlers = erase symbol b.tick_handlers }

  unfoldable pub connect : PaperBroker F H → Bool × PaperBroker F H
  connect b = (true, record b { connected = true })

  unfoldable pub disconnect : PaperBroker F H → PaperBroker F H
  disconnect b = record b { connected = false }
