-- ===== src/Broker/Stops.antt =====
-- trading-engine/broker/paper_adapter.py: which positions a quote closes, and what it does to the
-- others.
use forex_bot.Common.{
  ℕ, ◌≡◌, inl, inr, refl, ◌∙◌, sym, Bool, true, false, ◌&&◌, none, some, List, [], ◌∷◌, arith, ap,
  if◌then◌else◌, Bool-cases, Option-cases, ◌==◌, ==_iff,
}
use forex_bot.Common.Eq.{nat_eq}
use forex_bot.Common.Text.{Text, text_beq}
use forex_bot.Common.Dict.{Dict, lookup, lookup-erase, lookup-insert, Distinct}
use forex_bot.Common.Float.{Float}
use forex_bot.Broker.Types.{Order, OpenPos, PaperBroker, position}
use forex_bot.Broker.Paper.{close_position, apply_costs}
use forex_bot.Broker.Quote.{
  marked, reaches, trigger_one, trigger_all, close_tickets, closed_now, on_quote, quoted, mid_of,
  trigger_price,
}
use forex_bot.Broker.Tickets.{lookup-mark_all}
use forex_bot.Broker.Kept.{IsApart, open-idle}

abbrev is_in : ℕ → List ℕ → Bool
is_in k [] = false
is_in k (t ∷ ts) = if t == k then true else is_in k ts

module _ {F : Type 0} ⦃f : Float F⦄ where
  -- The quote of the symbol reaches a stop or a target of the position.
  abbrev pub is_hit : Text → F → F → OpenPos F → Bool
  is_hit s bid ask p = text_beq p.symbol s && reaches bid ask p

  closed_now-absent :
      (s : Text) (bid ask : F) (k : ℕ) (d : Dict ℕ (OpenPos F))
      → lookup k d ≡ none
      → is_in k (closed_now s bid ask d) ≡ false
  unfolding closed_now lookup
  closed_now-absent s bid ask k [] h = refl
  closed_now-absent s bid ask k ((t, p) ∷ d) h = ground (arith, closed_now-absent s bid ask k d)

  closed_now-lookup :
      (s : Text) (bid ask : F) (k : ℕ) (p : OpenPos F) (d : Dict ℕ (OpenPos F))
      → Distinct d
      → lookup k d ≡ some p
      → is_in k (closed_now s bid ask d) ≡ is_hit s bid ask p
  unfolding closed_now lookup
  closed_now-lookup s bid ask k p [] u h = ground arith
  closed_now-lookup s bid ask k p ((t, q) ∷ d) u h = elim (Bool-cases (t == k)) [
    | inl e ↦ ground (
      arith,
      (==_iff t k).0 e,
      closed_now-absent s bid ask k d (ap (λ (j : ℕ). lookup j d) (sym ((==_iff t k).0 e)) ∙ u.0),
    )
    | inr e ↦ ground (arith, e, closed_now-lookup s bid ask k p d u.1)
  ]

module _ {F H : Type 0} ⦃f : Float F⦄ where
  lookup-close_position :
      (t k : ℕ) (b : PaperBroker F H)
      → lookup k (close_position t b).1.open_positions
        ≡ (if t == k then none else lookup k b.open_positions)
  unfolding close_position
  lookup-close_position t k b = elim (Option-cases (lookup t b.open_positions)) [
    | inl e ↦ ground (arith, e, ap (λ (j : ℕ). lookup j b.open_positions))
    | inr (p, e) ↦ rw (e, close_position) (lookup-erase t k b.open_positions)
  ]

  lookup-close_tickets :
      (ts : List ℕ) (k : ℕ) (b : PaperBroker F H)
      → lookup k (close_tickets ts b).open_positions
        ≡ (if is_in k ts then none else lookup k b.open_positions)
  unfolding close_tickets
  lookup-close_tickets [] k b = refl
  lookup-close_tickets (t ∷ ts) k b =
      ground (arith, lookup-close_tickets ts k (close_position t b).1, lookup-close_position t k b)

  pending-close_tickets :
      (ts : List ℕ) (b : PaperBroker F H) → (close_tickets ts b).pending ≡ b.pending
  unfolding close_tickets close_position
  pending-close_tickets [] b = refl
  pending-close_tickets (t ∷ ts) b = pending-close_tickets ts (close_position t b).1 ∙ ground arith

  lookup-trigger_one :
      (now : F) (s : Text) (bid ask mid : F) (t : ℕ) (o : Order F) (k : ℕ) (b : PaperBroker F H)
      → (t == k) ≡ false
      → lookup k (trigger_one now s bid ask mid t o b).open_positions ≡ lookup k b.open_positions
  unfolding trigger_one
  lookup-trigger_one now s bid ask mid t o k b ne = ground (
    arith,
    ne,
    lookup-insert t k (position t o (apply_costs o.symbol o.side (trigger_price mid o) b) now)
        b.open_positions,
  )

  lookup-trigger_all :
      (now : F) (s : Text) (bid ask mid : F) (d : Dict ℕ (Order F)) (k : ℕ) (b : PaperBroker F H)
      → lookup k d ≡ none
      → lookup k (trigger_all now s bid ask mid d b).open_positions ≡ lookup k b.open_positions
  unfolding trigger_all lookup
  lookup-trigger_all now s bid ask mid [] k b h = refl
  lookup-trigger_all now s bid ask mid ((t, o) ∷ d) k b h = elim (Bool-cases (t == k)) [
    | inl e ↦ absurd (ground arith)
    | inr e ↦
        lookup-trigger_all now s bid ask mid d k (trigger_one now s bid ask mid t o b)
          (ground arith)
        ∙ lookup-trigger_one now s bid ask mid t o k b e
  ]

  -- A quote of a symbol, on a broker whose tickets are apart, closes an open position exactly if it
  -- is of that symbol and the quote reaches its stop or its target on its side; any other position
  -- stays open under its ticket, with its unrealized result brought up to date if it is of the
  -- symbol, and nothing else of it changed. Pending orders that the quote fills do not disturb it.
  pub on_quote_closes_hits :
      (now : F) (s : Text) (bid ask : F) (k : ℕ) (p : OpenPos F) (b : PaperBroker F H)
      → IsApart b
      → lookup k b.open_positions ≡ some p
      → lookup k (on_quote now s bid ask b).1.open_positions
        ≡ (if is_hit s bid ask p then none else some (marked s bid ask p))
  unfolding on_quote
  on_quote_closes_hits now s bid ask k p b a e =
      let ts = closed_now s bid ask b.open_positions in
      let b1 = close_tickets ts (quoted s bid ask b) in
      let idle : lookup k b1.pending ≡ none =
        rw (pending-close_tickets ts (quoted s bid ask b)) (open-idle b a k p e) in
      lookup-trigger_all now s bid ask (mid_of bid ask) b1.pending k b1 idle
      ∙ lookup-close_tickets ts k (quoted s bid ask b)
      ∙ ground (
        arith,
        closed_now-lookup s bid ask k p b.open_positions a.open_distinct e,
        lookup-mark_all s bid ask k b.open_positions,
      )
