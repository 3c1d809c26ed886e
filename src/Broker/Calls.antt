-- ===== src/Broker/Calls.antt =====
-- trading-engine/broker/paper_adapter.py: whatever is called, the tickets stay apart.
use forex_bot.Common.{ℕ, ◌≡◌, ◌≢◌, inl, refl, Option, none, some, List, [], ◌∷◌, arith, ◌∙◌, sym}
use forex_bot.Common.Eq.{nat_eq}
use forex_bot.Common.Text.{Text}
use forex_bot.Common.Dict.{Dict, lookup, lookup-insert}
use forex_bot.Common.Float.{Float}
use forex_bot.Broker.Types.{Order, OpenPos, PaperBroker, market, OrderType, position}
use forex_bot.Broker.Paper.{
  place_order, place_as, market_fill, close_position, cancel_order, modify_position, get_account,
  close_each, close_all, init, subscribe_ticks, unsubscribe_ticks, connect, disconnect,
}
use forex_bot.Broker.Quote.{on_quote}
use forex_bot.Broker.Kept.{
  IsApart, place_order-IsApart, close_position-IsApart, cancel_order-IsApart,
  modify_position-IsApart, on_quote-IsApart,
}

pub data Call (F H : Type 0) : Type 0 where
  placed : F → Order F → Call F H
  closed cancelled : ℕ → Call F H
  modified : ℕ → Option F → Option F → Call F H
  asked_account asked_close_all : Call F H
  quoted_at : F → Text → F → F → Call F H
  subscribed : Text → H → Call F H
  unsubscribed : Text → Call F H
  connected disconnected : Call F H

init-IsApart :
    {F : Type 0} (H : Type 0) ⦃f : Float F⦄ (balance slip spread : F) (pips : Dict Text F)
    → IsApart {H = H} (init balance slip spread pips)
unfolding init lookup
init-IsApart H balance slip spread pips = record {
  open_fresh = λ k h. refl;
  pending_fresh = λ k h. refl;
  apart = λ k. inl refl;
  own = λ k p e. cc;
  open_distinct = tt;
  pending_distinct = tt;
}

module _ {F H : Type 0} ⦃f : Float F⦄ where
  close_each-IsApart :
      (ps : List (OpenPos F)) (b : PaperBroker F H) → IsApart b → IsApart (close_each ps b).1
  unfolding close_each
  close_each-IsApart [] b a = a
  close_each-IsApart (p ∷ ps) b a =
      close_each-IsApart ps (close_position p.ticket b).1 (close_position-IsApart p.ticket b a)

  unfoldable pub step : Call F H → PaperBroker F H → PaperBroker F H
  step (placed now o) b = (place_order now o b).1
  step (closed t) b = (close_position t b).1
  step (cancelled t) b = (cancel_order t b).1
  step (modified t sl tp) b = (modify_position t sl tp b).1
  step asked_account b = (get_account b).1
  step asked_close_all b = (close_all b).1
  step (quoted_at now s bid ask) b = (on_quote now s bid ask b).1
  step (subscribed s h) b = subscribe_ticks s h b
  step (unsubscribed s) b = unsubscribe_ticks s b
  step connected b = (connect b).1
  step disconnected b = disconnect b

  unfoldable pub run : List (Call F H) → PaperBroker F H → PaperBroker F H
  run [] b = b
  run (c ∷ cs) b = run cs (step c b)

  step-IsApart : (c : Call F H) (b : PaperBroker F H) → IsApart b → IsApart (step c b)
  unfolding step get_account close_all subscribe_ticks unsubscribe_ticks connect disconnect
  step-IsApart (placed now o) b a = place_order-IsApart now o b a
  step-IsApart (closed t) b a = close_position-IsApart t b a
  step-IsApart (cancelled t) b a = cancel_order-IsApart t b a
  step-IsApart (modified t sl tp) b a = modify_position-IsApart t sl tp b a
  step-IsApart asked_account b a = a
  step-IsApart asked_close_all b a = close_each-IsApart _ b a
  step-IsApart (quoted_at now s bid ask) b a = on_quote-IsApart now s bid ask b a
  step-IsApart (subscribed s h) b a = a
  step-IsApart (unsubscribed s) b a = a
  step-IsApart connected b a = a
  step-IsApart disconnected b a = a

  run-IsApart : (cs : List (Call F H)) (b : PaperBroker F H) → IsApart b → IsApart (run cs b)
  unfolding run
  run-IsApart [] b a = a
  run-IsApart (c ∷ cs) b a = run-IsApart cs (step c b) (step-IsApart c b a)

  -- A new broker, after any calls in any order, quotes and kill switch included, has drawn every
  -- ticket that it holds, never holds one ticket both as an open position and as a pending order,
  -- lists each position and each order once, and each position carries the ticket it is listed by.
  pub tickets_stay-IsApart :
      (balance slip spread : F) (pips : Dict Text F) (cs : List (Call F H))
      → IsApart (run cs (init balance slip spread pips))
  tickets_stay-IsApart balance slip spread pips cs =
      run-IsApart cs _ (init-IsApart H balance slip spread pips)

  place_as-ticket :
      (k : OrderType) (now : F) (t u : ℕ) (o : Order F) (b : PaperBroker F H)
      → (place_as k now t o b).0.ticket ≡ some u
      → u ≡ t
  unfolding place_as
  place_as-ticket market now t u o b h = ground arith
  place_as-ticket _ now t u o b h = ground arith

  place_as-others :
      (k : OrderType) (now : F) (t u : ℕ) (o : Order F) (b : PaperBroker F H)
      → u ≢ t
      → (lookup u (place_as k now t o b).1.open_positions ≡ lookup u b.open_positions)
        × (lookup u (place_as k now t o b).1.pending ≡ lookup u b.pending)
  unfolding place_as
  place_as-others market now t u o b h =
      ground (arith, lookup-insert t u (position t o (market_fill o b) now) b.open_positions)
  place_as-others _ now t u o b h = ground (arith, lookup-insert t u o b.pending)

  -- If an order succeeds on a broker whose tickets are apart, then nothing was open or pending
  -- under the ticket that it gets, and what is open or pending under any other ticket is unchanged.
  pub new_ticket_is_unused :
      (now : F) (o : Order F) (t : ℕ) (b : PaperBroker F H)
      → IsApart b
      → (place_order now o b).0.ticket ≡ some t
      → (lookup t b.open_positions ≡ none)
        × (lookup t b.pending ≡ none)
        × ((u : ℕ)
            → u ≢ t
            → (lookup u (place_order now o b).1.open_positions ≡ lookup u b.open_positions)
              × (lookup u (place_order now o b).1.pending ≡ lookup u b.pending))
  unfolding place_order
  new_ticket_is_unused now o t b a h =
      let e : t ≡ b.ticker = place_as-ticket o.kind now b.ticker t o _ h in
      (
        a.open_fresh t (omega arith),
        a.pending_fresh t (omega arith),
        λ u ne. place_as-others o.kind now b.ticker u o _ (λ d. ne (d ∙ sym e)),
      )
