-- ===== src/Broker/Tickets.antt =====
-- trading-engine/broker/paper_adapter.py: the tickets. Every call of the broker keeps them apart.
use forex_bot.Common.{
  ℕ, ◌+◌, ◌≤◌, ◌<◌, ◌≡◌, ◌⊎◌, inl, inr, refl, none, some, [], ◌∷◌, arith, ◌∙◌, Option-cases,
}
use mathlib.Core.Option
use forex_bot.Common.Eq.{nat_eq}
use forex_bot.Common.Text.{Text}
use forex_bot.Common.Dict.{
  Dict, lookup, insert, erase, lookup-insert, lookup-erase, Distinct, Distinct-insert,
  Distinct-erase,
}
use forex_bot.Common.Float.{Float}
use forex_bot.Broker.Types.{Order, OpenPos}
use forex_bot.Broker.Quote.{mark_all, marked}

-- The tickets in use lie below the next one, no ticket is both open and pending, and each position
-- carries its own ticket.
pub record Apart {F : Type 0} (next : ℕ) (op : Dict ℕ (OpenPos F)) (pend : Dict ℕ (Order F))
    : Type 0 where
  pub open_fresh : (k : ℕ) → next ≤ k → lookup k op ≡ none
  pub pending_fresh : (k : ℕ) → next ≤ k → lookup k pend ≡ none
  pub apart : (k : ℕ) → (lookup k op ≡ none) ⊎ (lookup k pend ≡ none)
  pub own : (k : ℕ) (p : OpenPos F) → lookup k op ≡ some p → p.ticket ≡ k
  pub open_distinct : Distinct op
  pub pending_distinct : Distinct pend

module _ {F : Type 0} where
  -- A position opened at a ticket that is neither beyond the next one nor pending.
  pub open-Apart :
      (next t : ℕ) (p : OpenPos F) (op : Dict ℕ (OpenPos F)) (pend : Dict ℕ (Order F))
      → t < next
      → lookup t pend ≡ none
      → p.ticket ≡ t
      → Apart next op pend
      → Apart next (insert t p op) pend
  open-Apart next t p op pend below free own a = record {
    open_fresh = λ k h. ground (arith, lookup-insert t k p op, a.open_fresh k h);
    pending_fresh = a.pending_fresh;
    apart = λ k. ground (arith, lookup-insert t k p op, a.apart k);
    own = λ k q e. ground (arith, lookup-insert t k p op, a.own k q);
    open_distinct = Distinct-insert t p op a.open_distinct;
    pending_distinct = a.pending_distinct;
  }

  pub pend-Apart :
      (next t : ℕ) (o : Order F) (op : Dict ℕ (OpenPos F)) (pend : Dict ℕ (Order F))
      → t < next
      → lookup t op ≡ none
      → Apart next op pend
      → Apart next op (insert t o pend)
  pend-Apart next t o op pend below free a = record {
    open_fresh = a.open_fresh;
    pending_fresh = λ k h. ground (arith, lookup-insert t k o pend, a.pending_fresh k h);
    apart = λ k. ground (arith, lookup-insert t k o pend, a.apart k);
    own = a.own;
    open_distinct = a.open_distinct;
    pending_distinct = Distinct-insert t o pend a.pending_distinct;
  }

  pub close-Apart :
      (next t : ℕ) (op : Dict ℕ (OpenPos F)) (pend : Dict ℕ (Order F))
      → Apart next op pend
      → Apart next (erase t op) pend
  close-Apart next t op pend a = record {
    open_fresh = λ k h. ground (arith, lookup-erase t k op, a.open_fresh k h);
    pending_fresh = a.pending_fresh;
    apart = λ k. ground (arith, lookup-erase t k op, a.apart k);
    own = λ k q e. ground (arith, lookup-erase t k op, a.own k q);
    open_distinct = Distinct-erase t op a.open_distinct;
    pending_distinct = a.pending_distinct;
  }

  pub cancel-Apart :
      (next t : ℕ) (op : Dict ℕ (OpenPos F)) (pend : Dict ℕ (Order F))
      → Apart next op pend
      → Apart next op (erase t pend)
  cancel-Apart next t op pend a = record {
    open_fresh = a.open_fresh;
    pending_fresh = λ k h. ground (arith, lookup-erase t k pend, a.pending_fresh k h);
    apart = λ k. ground (arith, lookup-erase t k pend, a.apart k);
    own = a.own;
    open_distinct = a.open_distinct;
    pending_distinct = Distinct-erase t pend a.pending_distinct;
  }

  pub later-Apart :
      (next : ℕ) (op : Dict ℕ (OpenPos F)) (pend : Dict ℕ (Order F))
      → Apart next op pend
      → Apart (next + 1) op pend
  later-Apart next op pend a = record {
    open_fresh = λ k h. a.open_fresh k (omega arith);
    pending_fresh = λ k h. a.pending_fresh k (omega arith);
    apart = a.apart;
    own = a.own;
    open_distinct = a.open_distinct;
    pending_distinct = a.pending_distinct;
  }

module _ {F : Type 0} ⦃f : Float F⦄ where
  pub lookup-mark_all :
      (s : Text) (bid ask : F) (k : ℕ) (d : Dict ℕ (OpenPos F))
      → lookup k (mark_all s bid ask d) ≡ Option.map (marked s bid ask) (lookup k d)
  unfolding mark_all lookup
  lookup-mark_all s bid ask k [] = refl
  lookup-mark_all s bid ask k ((t, p) ∷ d) = ground (arith, lookup-mark_all s bid ask k d)

  Distinct-mark_all :
      (s : Text) (bid ask : F) (d : Dict ℕ (OpenPos F))
      → Distinct d
      → Distinct (mark_all s bid ask d)
  unfolding mark_all
  Distinct-mark_all s bid ask [] h = h
  Distinct-mark_all s bid ask ((t, p) ∷ d) h =
      (lookup-mark_all s bid ask t d ∙ rw h.0 refl, Distinct-mark_all s bid ask d h.1)

  ticket-marked : (s : Text) (bid ask : F) (p : OpenPos F) → (marked s bid ask p).ticket ≡ p.ticket
  ticket-marked s bid ask p = ground arith

  mark_all-own :
      (s : Text) (bid ask : F) (op : Dict ℕ (OpenPos F)) (k : ℕ) (q : OpenPos F)
      → lookup k (mark_all s bid ask op) ≡ some q
      → ((p : OpenPos F) → lookup k op ≡ some p → p.ticket ≡ k)
      → q.ticket ≡ k
  mark_all-own s bid ask op k q e own = elim (Option-cases (lookup k op)) [
    | inl gone ↦ absurd (ground (arith, lookup-mark_all s bid ask k op))
    | inr (p, found) ↦ ground (arith, lookup-mark_all s bid ask k op, own p found)
  ]

  pub mark_all-Apart :
      (next : ℕ) (s : Text) (bid ask : F) (op : Dict ℕ (OpenPos F)) (pend : Dict ℕ (Order F))
      → Apart next op pend
      → Apart next (mark_all s bid ask op) pend
  mark_all-Apart next s bid ask op pend a = record {
    open_fresh = λ k h. lookup-mark_all s bid ask k op ∙ rw (a.open_fresh k h) refl;
    pending_fresh = a.pending_fresh;
    apart = λ k. ground (arith, lookup-mark_all s bid ask k op, a.apart k);
    own = λ k q e. mark_all-own s bid ask op k q e (a.own k);
    open_distinct = Distinct-mark_all s bid ask op a.open_distinct;
    pending_distinct = a.pending_distinct;
  }
