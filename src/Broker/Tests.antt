-- ===== src/Broker/Tests.antt =====
-- trading-engine/broker: runs of the simulated broker and the theorems at concrete inputs.
use mathlib.Core.List.{foldl}
use forex_bot.Common.{ℕ, ◌≡◌, refl, true, none, some, List, [], ◌∷◌, length, All}
use forex_bot.Common.Eq.{nat_eq}
use forex_bot.Common.Text.{codes, text_beq, text_eq}
use forex_bot.Common.Dict.{lookup, insert, erase}
use forex_bot.Common.Float.{add, nought}
use forex_bot.Common.Fixed.{Fixed, fixed, whole, tenths}
use forex_bot.Common.Int.{pos, negsuc}
use forex_bot.Broker.Types.{Order, OpenPos, PaperBroker, buy, market, limit}
use forex_bot.Broker.Paper.{init, place_order, close_position, close_all, apply_costs, pip}
use forex_bot.Broker.Quote.{
  on_quote, mark_all, closed_now, reaches, triggers, trigger_one, trigger_all, close_tickets,
}
use forex_bot.Broker.Calls.{Call, placed, quoted_at, closed, step, run, tickets_stay-IsApart}
use forex_bot.Broker.Kept.{IsApart}
use forex_bot.Broker.CloseAll.{close_all_leaves_none}
use forex_bot.Broker.Books.{booked_in, books_agree}
use forex_bot.Broker.Stops.{on_quote_closes_hits}

abbrev start : PaperBroker Fixed ℕ
start = init (whole 10000) (tenths 5) (whole 2) ((codes "XAUUSD", tenths 1) ∷ [])

abbrev order : Order Fixed
order = record {
  symbol = codes "XAUUSD";
  side = buy;
  volume = whole 1;
  kind = market;
  price = none;
  sl = some (whole 1990);
  tp = some (whole 2020);
}

-- A quote, a market order, a pending buy limit, and a quote that fills it.
abbrev calls : List (Call Fixed ℕ)
calls =
    placed (whole 0) order
    ∷ quoted_at (whole 1) (codes "XAUUSD") (whole 2000) (whole 2001)
    ∷ placed (whole 2) order
    ∷ placed (whole 3) (record order { kind = limit; price = some (whole 1995); sl = none })
    ∷ quoted_at (whole 4) (codes "XAUUSD") (whole 1994) (whole 1995)
    ∷ []

abbrev now_open : PaperBroker Fixed ℕ
now_open = run calls start

-- The first order found no quote and used up ticket 1.
open_tickets : (lookup 1 now_open.open_positions ≡ none) × (now_open.ticker ≡ 4)
unfolding run step init place_order on_quote mark_all closed_now reaches triggers trigger_one
    trigger_all close_tickets close_position lookup insert erase apply_costs pip text_beq
open_tickets = (refl, refl)

tickets_stay-IsApart_example : IsApart now_open
tickets_stay-IsApart_example =
    tickets_stay-IsApart (whole 10000) (tenths 5) (whole 2) ((codes "XAUUSD", tenths 1) ∷ []) calls

close_all_leaves_none_example :
    let (rs, b') = close_all now_open in
    (b'.open_positions ≡ [])
    × All (λ r. r.success ≡ true) rs
    × (length rs ≡ length now_open.open_positions)
    × (b'.pending ≡ now_open.pending)
close_all_leaves_none_example = close_all_leaves_none now_open tickets_stay-IsApart_example

abbrev then_closed : List (Call Fixed ℕ)
then_closed = placed (whole 0) (record order { price = some (whole 2000) }) ∷ closed 1 ∷ []

books_agree_example :
    ((run then_closed start).balance ≡ foldl add (whole 10000) (booked_in then_closed start))
    × ((run then_closed start).realized_pnl ≡ foldl add nought (booked_in then_closed start))
books_agree_example =
    books_agree (whole 10000) (tenths 5) (whole 2) ((codes "XAUUSD", tenths 1) ∷ []) then_closed

-- With no quote the close is priced from the entry itself, less the costs of one side.
round_trip_costs : (run then_closed start).balance ≡ pos 99_998_500
unfolding run step init place_order close_position lookup insert erase apply_costs pip text_beq
round_trip_costs = refl

-- Ticket 2 as the last quote left it.
abbrev held : OpenPos Fixed
held = record {
  ticket = 2;
  symbol = codes "XAUUSD";
  side = buy;
  volume = whole 1;
  entry_price = pos 20_011_500;
  sl = some (whole 1990);
  tp = some (whole 2020);
  open_time = whole 2;
  unrealized = negsuc 71_499;
}

on_quote_closes_hits_example :
    lookup 2
      (on_quote (whole 6) (codes "XAUUSD") (whole 1980) (whole 1981) now_open).1.open_positions
    ≡ none
unfolding run step init place_order on_quote mark_all closed_now reaches triggers trigger_one
    trigger_all close_tickets close_position lookup insert erase apply_costs pip text_beq
on_quote_closes_hits_example =
    on_quote_closes_hits (whole 6) (codes "XAUUSD") (whole 1980) (whole 1981) 2 held now_open
      tickets_stay-IsApart_example refl
