-- ===== src/Broker/Quote.antt =====
-- trading-engine/broker/paper_adapter.py: `on_quote`, which feeds a market quote to the stops, the
-- targets and the pending orders.
use forex_bot.Common.{ℕ, Bool, false, ◌&&◌, ◌||◌, Option, none, some, List, [], ◌∷◌, if◌then◌else◌}
use forex_bot.Common.Eq.{nat_eq}
use forex_bot.Common.Text.{Text, text_beq, text_eq}
use forex_bot.Common.Dict.{Dict, lookup, insert, erase}
use forex_bot.Common.Float.{Float, add, sub, mul, div, le, lit}
use forex_bot.Broker.Types.{
  market, limit, stop, Order, OpenPos, PaperBroker, is_buy, or_default, position,
}
use forex_bot.Broker.Paper.{apply_costs, close_position}

module _ {F : Type 0} ⦃f : Float F⦄ where
  -- `x is not None and test(x)`
  abbrev pub given : Option F → (F → Bool) → Bool
  given none test = false
  given (some x) test = test x

  -- The unrealized result at a quote.
  abbrev pub unrealized_at : F → F → OpenPos F → F
  unrealized_at bid ask pos =
      if is_buy pos.side
      then mul (sub bid pos.entry_price) pos.volume
      else mul (sub pos.entry_price ask) pos.volume

  -- Whether the quote reaches the stop or the target.
  unfoldable pub reaches : F → F → OpenPos F → Bool
  reaches bid ask pos =
      if is_buy pos.side
      then given pos.sl (λ sl. le bid sl) || given pos.tp (λ tp. le tp ask)
      else given pos.sl (λ sl. le sl ask) || given pos.tp (λ tp. le bid tp)

  abbrev pub marked : Text → F → F → OpenPos F → OpenPos F
  marked symbol bid ask pos =
      if text_beq pos.symbol symbol
      then record pos { unrealized = unrealized_at bid ask pos }
      else pos

  -- The first loop of `on_quote`: it updates the positions of the symbol where they stand...
  unfoldable pub mark_all : Text → F → F → Dict ℕ (OpenPos F) → Dict ℕ (OpenPos F)
  mark_all symbol bid ask [] = []
  mark_all symbol bid ask ((t, pos) ∷ d) =
      (t, marked symbol bid ask pos) ∷ mark_all symbol bid ask d

  -- ...and lists the tickets that the quote closes.
  unfoldable pub closed_now : Text → F → F → Dict ℕ (OpenPos F) → List ℕ
  closed_now symbol bid ask [] = []
  closed_now symbol bid ask ((t, pos) ∷ d) =
      let rest = closed_now symbol bid ask d in
      if text_beq pos.symbol symbol && reaches bid ask pos then t ∷ rest else rest

  abbrev pub trigger_price : F → Order F → F
  trigger_price mid o = or_default o.price mid

  unfoldable pub triggers : F → F → F → Order F → Bool
  triggers bid ask price o = elim o.kind [
    | limit ↦ if is_buy o.side then le ask price else le price bid
    | stop ↦ if is_buy o.side then le price ask else le bid price
    | market ↦ false
  ]

  -- `(bid + ask) / 2`
  abbrev pub mid_of : F → F → F
  mid_of bid ask = div (add bid ask) (lit 2 0)

module _ {F H : Type 0} ⦃f : Float F⦄ where
  unfoldable pub close_tickets : List ℕ → PaperBroker F H → PaperBroker F H
  close_tickets [] b = b
  close_tickets (t ∷ ts) b = close_tickets ts (close_position t b).1

  abbrev pub fill_pending : F → F → ℕ → Order F → PaperBroker F H → PaperBroker F H
  fill_pending now price t o b = record b {
    open_positions =
        insert t (position t o (apply_costs o.symbol o.side price b) now) b.open_positions;
    pending = erase t b.pending;
  }

  -- One round of the loop over the pending orders.
  unfoldable pub trigger_one :
      F → Text → F → F → F → ℕ → Order F → PaperBroker F H → PaperBroker F H
  trigger_one now symbol bid ask mid t o b =
      if text_beq o.symbol symbol && triggers bid ask (trigger_price mid o) o
      then fill_pending now (trigger_price mid o) t o b
      else b

  unfoldable pub trigger_all :
      F → Text → F → F → F → Dict ℕ (Order F) → PaperBroker F H → PaperBroker F H
  trigger_all now symbol bid ask mid [] b = b
  trigger_all now symbol bid ask mid ((t, o) ∷ d) b =
      trigger_all now symbol bid ask mid d (trigger_one now symbol bid ask mid t o b)

  -- What the broker is once the positions are marked.
  abbrev pub quoted : Text → F → F → PaperBroker F H → PaperBroker F H
  quoted symbol bid ask b = record b {
    last_quote = insert symbol (bid, ask) b.last_quote;
    open_positions = mark_all symbol bid ask b.open_positions;
  }

  unfoldable pub on_quote : F → Text → F → F → PaperBroker F H → Option H × PaperBroker F H
  on_quote now symbol bid ask b =
      let b1 =
        close_tickets (closed_now symbol bid ask b.open_positions) (quoted symbol bid ask b) in
      let b2 = trigger_all now symbol bid ask (mid_of bid ask) b1.pending b1 in
      (lookup symbol b2.tick_handlers, b2)
