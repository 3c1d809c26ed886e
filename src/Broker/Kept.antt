-- ===== src/Broker/Kept.antt =====
-- trading-engine/broker/paper_adapter.py: each call keeps the tickets apart.
use forex_bot.Common.{
  ℕ, ◌+◌, ◌<◌, ◌≡◌, ◌⊎◌, inl, inr, refl, Option, none, some, List, [], ◌∷◌, arith, Bool-cases, ◌∙◌,
  Option-cases, leb, leb→le,
}
use forex_bot.Common.Eq.{nat_eq}
use forex_bot.Common.Text.{Text}
use forex_bot.Common.Dict.{
  Dict, lookup, erase, lookup-erase, Distinct, Within, Within-erase, Within-self,
}
use forex_bot.Common.Float.{Float}
use forex_bot.Broker.Types.{Order, OpenPos, PaperBroker, market, OrderType, position}
use forex_bot.Broker.Paper.{
  place_order, place_as, market_fill, close_position, cancel_order, modify_position,
}
use forex_bot.Broker.Quote.{
  trigger_price, trigger_one, trigger_all, close_tickets, closed_now, on_quote, quoted, mid_of,
  fill_pending,
}
use forex_bot.Broker.Tickets.{
  Apart, open-Apart, pend-Apart, close-Apart, cancel-Apart, later-Apart, mark_all-Apart,
}

module _ {F H : Type 0} ⦃f : Float F⦄ where
  abbrev pub IsApart : PaperBroker F H → Type 0
  IsApart b = Apart b.ticker b.open_positions b.pending

  place_as-IsApart :
      (k : OrderType) (now : F) (t : ℕ) (o : Order F) (b : PaperBroker F H)
      → t < b.ticker
      → lookup t b.open_positions ≡ none
      → lookup t b.pending ≡ none
      → IsApart b
      → IsApart (place_as k now t o b).1
  unfolding place_as
  place_as-IsApart market now t o b below free idle a = ground (
    arith,
    open-Apart b.ticker t (position t o (market_fill o b) now) b.open_positions b.pending below idle
        refl a,
  )
  place_as-IsApart _ now t o b below free idle a =
      pend-Apart b.ticker t o b.open_positions b.pending below free a

  pub place_order-IsApart :
      (now : F) (o : Order F) (b : PaperBroker F H) → IsApart b → IsApart (place_order now o b).1
  unfolding place_order
  place_order-IsApart now o b a =
      place_as-IsApart o.kind now b.ticker o (record b { ticker = b.ticker + 1 }) (omega arith)
        (a.open_fresh b.ticker (omega arith)) (a.pending_fresh b.ticker (omega arith))
        (later-Apart b.ticker b.open_positions b.pending a)

  -- A ticket that is open has been drawn, and is not pending.
  used-lt :
      (b : PaperBroker F H)
      → IsApart b
      → (t : ℕ) (p : OpenPos F) → lookup t b.open_positions ≡ some p
      → t < b.ticker
  used-lt b a t p e = elim (Bool-cases (leb b.ticker t)) [
    | inl h ↦ absurd (ground (arith, a.open_fresh t (leb→le b.ticker t h)))
    | inr h ↦ ground arith
  ]

  pub open-idle :
      (b : PaperBroker F H)
      → IsApart b
      → (t : ℕ) (p : OpenPos F) → lookup t b.open_positions ≡ some p
      → lookup t b.pending ≡ none
  open-idle b a t p e = ground (arith, a.apart t)

  pub close_position-IsApart :
      (t : ℕ) (b : PaperBroker F H) → IsApart b → IsApart (close_position t b).1
  unfolding close_position
  close_position-IsApart t b a = ground (arith, close-Apart b.ticker t b.open_positions b.pending a)

  pub cancel_order-IsApart :
      (t : ℕ) (b : PaperBroker F H) → IsApart b → IsApart (cancel_order t b).1
  unfolding cancel_order
  cancel_order-IsApart t b a = ground (arith, cancel-Apart b.ticker t b.open_positions b.pending a)

  pub modify_position-IsApart :
      (t : ℕ) (sl tp : Option F) (b : PaperBroker F H)
      → IsApart b
      → IsApart (modify_position t sl tp b).1
  unfolding modify_position
  modify_position-IsApart t sl tp b a = elim (Option-cases (lookup t b.open_positions)) [
    | inl e ↦ rw (e, modify_position) a
    | inr (p, e) ↦
        rw (e, modify_position)
          (open-Apart b.ticker t _ b.open_positions b.pending (used-lt b a t p e)
            (open-idle b a t p e) (a.own t p e) a)
  ]

  close_tickets-IsApart :
      (ts : List ℕ) (b : PaperBroker F H) → IsApart b → IsApart (close_tickets ts b)
  unfolding close_tickets
  close_tickets-IsApart [] b a = a
  close_tickets-IsApart (t ∷ ts) b a =
      close_tickets-IsApart ts (close_position t b).1 (close_position-IsApart t b a)

  quoted-IsApart :
      (s : Text) (bid ask : F) (b : PaperBroker F H) → IsApart b → IsApart (quoted s bid ask b)
  quoted-IsApart s bid ask b a = mark_all-Apart b.ticker s bid ask b.open_positions b.pending a

  pending-lt :
      (b : PaperBroker F H)
      → IsApart b
      → (t : ℕ) (o : Order F) → lookup t b.pending ≡ some o
      → t < b.ticker
  pending-lt b a t o e = elim (Bool-cases (leb b.ticker t)) [
    | inl h ↦ absurd (ground (arith, a.pending_fresh t (leb→le b.ticker t h)))
    | inr h ↦ ground arith
  ]

  fill-IsApart :
      (now price : F) (t : ℕ) (o : Order F) (b : PaperBroker F H)
      → lookup t b.pending ≡ some o
      → IsApart b
      → IsApart (fill_pending now price t o b)
  fill-IsApart now price t o b e a =
      open-Apart b.ticker t _ b.open_positions (erase t b.pending) (pending-lt b a t o e)
        (lookup-erase t t b.pending ∙ ground arith) refl
        (cancel-Apart b.ticker t b.open_positions b.pending a)

  trigger_one-IsApart :
      (now : F) (s : Text) (bid ask mid : F) (t : ℕ) (o : Order F) (b : PaperBroker F H)
      → lookup t b.pending ≡ some o
      → IsApart b
      → IsApart (trigger_one now s bid ask mid t o b)
  unfolding trigger_one
  trigger_one-IsApart now s bid ask mid t o b e a =
      ground (arith, fill-IsApart now (trigger_price mid o) t o b e a)

  trigger_one-pending :
      (now : F) (s : Text) (bid ask mid : F) (t : ℕ) (o : Order F) (b : PaperBroker F H)
      → ((trigger_one now s bid ask mid t o b).pending ≡ b.pending)
        ⊎ ((trigger_one now s bid ask mid t o b).pending ≡ erase t b.pending)
  unfolding trigger_one
  trigger_one-pending now s bid ask mid t o b = ground arith

  trigger_all-IsApart :
      (now : F) (s : Text) (bid ask mid : F) (d : Dict ℕ (Order F)) (b : PaperBroker F H)
      → Distinct d
      → Within d b.pending
      → IsApart b
      → IsApart (trigger_all now s bid ask mid d b)
  unfolding trigger_all
  trigger_all-IsApart now s bid ask mid [] b u w a = a
  trigger_all-IsApart now s bid ask mid ((t, o) ∷ d) b u w a =
      trigger_all-IsApart now s bid ask mid d (trigger_one now s bid ask mid t o b) u.1
        (elim (trigger_one-pending now s bid ask mid t o b) [
          | inl same ↦ rw same w.1
          | inr gone ↦ rw gone (Within-erase t d b.pending u.0 w.1)
        ])
        (trigger_one-IsApart now s bid ask mid t o b w.0 a)

  pub on_quote-IsApart :
      (now : F) (s : Text) (bid ask : F) (b : PaperBroker F H)
      → IsApart b
      → IsApart (on_quote now s bid ask b).1
  unfolding on_quote
  on_quote-IsApart now s bid ask b a =
      let b1 = close_tickets (closed_now s bid ask b.open_positions) (quoted s bid ask b) in
      let a1 = close_tickets-IsApart _ (quoted s bid ask b) (quoted-IsApart s bid ask b a) in
      trigger_all-IsApart now s bid ask (mid_of bid ask) b1.pending b1 a1.pending_distinct
        (Within-self b1.pending a1.pending_distinct) a1
