-- ===== src/Broker/Books.antt =====
-- trading-engine/broker/paper_adapter.py: the balance and the realized result.
use mathlib.Core.List.{foldl, foldl-append}
use forex_bot.Common.{ℕ, ◌≡◌, refl, ◌∙◌, ap, sym, none, some, List, [], ◌∷◌, ◌++◌, arith}
use forex_bot.Common.Eq.{nat_eq}
use forex_bot.Common.Text.{Text}
use forex_bot.Common.Dict.{Dict, lookup}
use forex_bot.Common.Float.{Float, add, nought}
use forex_bot.Broker.Types.{Order, OpenPos, PaperBroker, OrderType, market, pnl_of, positions}
use forex_bot.Broker.Paper.{
  place_order, place_as, close_position, cancel_order, modify_position, get_account, close_each,
  close_all, init, exit_of, subscribe_ticks, unsubscribe_ticks, connect, disconnect,
}
use forex_bot.Broker.Quote.{
  trigger_one, trigger_all, close_tickets, on_quote, quoted, closed_now, mid_of,
}
use forex_bot.Broker.Calls.{
  Call, placed, closed, cancelled, modified, asked_account, asked_close_all, quoted_at, subscribed,
  unsubscribed, connected, disconnected, step, run,
}

module _ {F H : Type 0} ⦃f : Float F⦄ where
  -- `c` has the books of `b` moved by the results `xs`, in order.
  abbrev pub Moved : List F → PaperBroker F H → PaperBroker F H → Type 0
  Moved xs b c =
      (c.balance ≡ foldl add b.balance xs) × (c.realized_pnl ≡ foldl add b.realized_pnl xs)

  -- The result that a close of the ticket books.
  unfoldable pub booked_by_close : ℕ → PaperBroker F H → List F
  booked_by_close t b = elim (lookup t b.open_positions) [
    | none ↦ []
    | some pos ↦ pnl_of (exit_of pos b) pos ∷ []
  ]

  unfoldable pub booked_by_tickets : List ℕ → PaperBroker F H → List F
  booked_by_tickets [] b = []
  booked_by_tickets (t ∷ ts) b = booked_by_close t b ++ booked_by_tickets ts (close_position t b).1

  unfoldable pub booked_by_each : List (OpenPos F) → PaperBroker F H → List F
  booked_by_each [] b = []
  booked_by_each (p ∷ ps) b =
      booked_by_close p.ticket b ++ booked_by_each ps (close_position p.ticket b).1

  -- What a call books: closes alone book results.
  unfoldable pub booked : Call F H → PaperBroker F H → List F
  booked (closed t) b = booked_by_close t b
  booked asked_close_all b = booked_by_each (positions b.open_positions) b
  booked (quoted_at now s bid ask) b =
      booked_by_tickets (closed_now s bid ask b.open_positions) (quoted s bid ask b)
  booked _ b = []

  unfoldable pub booked_in : List (Call F H) → PaperBroker F H → List F
  booked_in [] b = []
  booked_in (c ∷ cs) b = booked c b ++ booked_in cs (step c b)

  Moved-append :
      (xs ys : List F) (b c d : PaperBroker F H)
      → Moved xs b c
      → Moved ys c d
      → Moved (xs ++ ys) b d
  Moved-append xs ys b c d h k = (
    k.0 ∙ ap (λ (x : F). foldl add x ys) h.0 ∙ sym (foldl-append add b.balance xs ys),
    k.1 ∙ ap (λ (x : F). foldl add x ys) h.1 ∙ sym (foldl-append add b.realized_pnl xs ys),
  )

  close-Moved : (t : ℕ) (b : PaperBroker F H) → Moved (booked_by_close t b) b (close_position t b).1
  unfolding close_position booked_by_close
  close-Moved t b = ground arith

  tickets-Moved :
      (ts : List ℕ) (b : PaperBroker F H) → Moved (booked_by_tickets ts b) b (close_tickets ts b)
  unfolding booked_by_tickets close_tickets
  tickets-Moved [] b = (refl, refl)
  tickets-Moved (t ∷ ts) b =
      Moved-append (booked_by_close t b) _ b (close_position t b).1
        (close_tickets ts (close_position t b).1) (close-Moved t b)
        (tickets-Moved ts (close_position t b).1)

  each-Moved :
      (ps : List (OpenPos F)) (b : PaperBroker F H)
      → Moved (booked_by_each ps b) b (close_each ps b).1
  unfolding booked_by_each close_each
  each-Moved [] b = (refl, refl)
  each-Moved (p ∷ ps) b =
      Moved-append (booked_by_close p.ticket b) _ b (close_position p.ticket b).1
        (close_each ps (close_position p.ticket b).1).1 (close-Moved p.ticket b)
        (each-Moved ps (close_position p.ticket b).1)

  trigger_one-Moved :
      (now : F) (s : Text) (bid ask mid : F) (t : ℕ) (o : Order F) (b : PaperBroker F H)
      → Moved [] b (trigger_one now s bid ask mid t o b)
  unfolding trigger_one
  trigger_one-Moved now s bid ask mid t o b = ground arith

  trigger_all-Moved :
      (now : F) (s : Text) (bid ask mid : F) (d : Dict ℕ (Order F)) (b : PaperBroker F H)
      → Moved [] b (trigger_all now s bid ask mid d b)
  unfolding trigger_all
  trigger_all-Moved now s bid ask mid [] b = (refl, refl)
  trigger_all-Moved now s bid ask mid ((t, o) ∷ d) b =
      Moved-append [] [] b (trigger_one now s bid ask mid t o b)
        (trigger_all now s bid ask mid d (trigger_one now s bid ask mid t o b))
        (trigger_one-Moved now s bid ask mid t o b)
        (trigger_all-Moved now s bid ask mid d (trigger_one now s bid ask mid t o b))

  on_quote-Moved :
      (now : F) (s : Text) (bid ask : F) (b : PaperBroker F H)
      → Moved (booked (quoted_at now s bid ask) b) b (on_quote now s bid ask b).1
  unfolding on_quote booked
  on_quote-Moved now s bid ask b =
      let b1 = close_tickets (closed_now s bid ask b.open_positions) (quoted s bid ask b) in
      let first = tickets-Moved (closed_now s bid ask b.open_positions) (quoted s bid ask b) in
      let then_none = trigger_all-Moved now s bid ask (mid_of bid ask) b1.pending b1 in
      (then_none.0 ∙ first.0, then_none.1 ∙ first.1)

  place_as-Moved :
      (k : OrderType) (now : F) (t : ℕ) (o : Order F) (b : PaperBroker F H)
      → Moved [] b (place_as k now t o b).1
  unfolding place_as
  place_as-Moved market now t o b = ground arith
  place_as-Moved _ now t o b = (refl, refl)

  step-Moved : (c : Call F H) (b : PaperBroker F H) → Moved (booked c b) b (step c b)
  unfolding step booked place_order cancel_order modify_position get_account close_all
      subscribe_ticks unsubscribe_ticks connect disconnect
  step-Moved (placed now o) b = place_as-Moved o.kind now b.ticker o _
  step-Moved (closed t) b = close-Moved t b
  step-Moved (cancelled t) b = ground arith
  step-Moved (modified t sl tp) b = ground arith
  step-Moved asked_account b = (refl, refl)
  step-Moved asked_close_all b = each-Moved (positions b.open_positions) b
  step-Moved (quoted_at now s bid ask) b = on_quote-Moved now s bid ask b
  step-Moved (subscribed s h) b = (refl, refl)
  step-Moved (unsubscribed s) b = (refl, refl)
  step-Moved connected b = (refl, refl)
  step-Moved disconnected b = (refl, refl)

  run-Moved : (cs : List (Call F H)) (b : PaperBroker F H) → Moved (booked_in cs b) b (run cs b)
  unfolding run booked_in
  run-Moved [] b = (refl, refl)
  run-Moved (c ∷ cs) b =
      Moved-append (booked c b) _ b (step c b) (run cs (step c b)) (step-Moved c b)
        (run-Moved cs (step c b))

  -- After any calls on a new broker, the balance is the initial balance, and the realized result is
  -- 0, with the results of the same closes added one by one in order: the closes asked for by
  -- ticket, those of the kill switch and those that quotes cause at a stop or a target. Placing,
  -- cancelling and modifying orders, and filling pending ones, moves neither.
  pub books_agree :
      (balance slip spread : F) (pips : Dict Text F) (cs : List (Call F H))
      → let b = init balance slip spread pips in
        ((run cs b).balance ≡ foldl add balance (booked_in cs b))
        × ((run cs b).realized_pnl ≡ foldl add nought (booked_in cs b))
  books_agree balance slip spread pips cs =
      unfold init in run-Moved cs (init balance slip spread pips)
