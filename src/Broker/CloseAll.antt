-- ===== src/Broker/CloseAll.antt =====
-- trading-engine/broker/base.py: `close_all`, the kill switch of a broker, on the simulated broker.
use forex_bot.Common.{
  ℕ, ◌≡◌, refl, ◌∙◌, true, none, some, [], ◌∷◌, arith, length, All, ap, Bool-cases, ◌==◌, ==_iff,
  inl, inr, suc,
}
use forex_bot.Common.Eq.{nat_eq}
use forex_bot.Common.Dict.{Dict, lookup, erase, Distinct, lookup-head, erase-head}
use forex_bot.Common.Float.{Float}
use forex_bot.Broker.Types.{OpenPos, PaperBroker, positions}
use forex_bot.Broker.Paper.{close_position, close_each, close_all}
use forex_bot.Broker.Kept.{IsApart}

-- Each position is listed by its own ticket.
abbrev Owned : {F : Type 0} → Dict ℕ (OpenPos F) → Type 0
Owned = All (λ e. e.1.ticket ≡ e.0)

lookup-later :
    {V : Type 0} (k t : ℕ) (p : V) {q : V} (d : Dict ℕ V)
    → lookup k d ≡ some q
    → lookup t d ≡ none
    → lookup k ((t, p) ∷ d) ≡ some q
unfolding lookup
lookup-later k t p d e n = elim (Bool-cases (t == k)) [
  | inl h ↦ absurd (ground (arith, ap (λ (j : ℕ). lookup j d) ((==_iff t k).0 h)))
  | inr h ↦ rw h e
]

own-Owned :
    {F : Type 0} (d : Dict ℕ (OpenPos F))
    → Distinct d
    → ((k : ℕ) (p : OpenPos F) → lookup k d ≡ some p → p.ticket ≡ k)
    → Owned d
own-Owned [] u own = tt
own-Owned ((t, p) ∷ d) u own =
    (own t p (lookup-head t p d), own-Owned d u.1 (λ k q e. own k q (lookup-later k t p d e u.0)))

module _ {F H : Type 0} ⦃f : Float F⦄ where
  close_position-head :
      (t : ℕ) (p : OpenPos F) (d : Dict ℕ (OpenPos F)) (b : PaperBroker F H)
      → b.open_positions ≡ (t, p) ∷ d
      → lookup t d ≡ none
      → let (r, c) = close_position t b in
        (r.success ≡ true) × (c.open_positions ≡ d) × (c.pending ≡ b.pending)
  unfolding close_position
  close_position-head t p d b e n =
      let found : lookup t b.open_positions ≡ some p = rw e (lookup-head t p d) in
      let gone : erase t b.open_positions ≡ d = rw e (erase-head t p d n) in
      ground (arith, found, gone)

  close_each-empties :
      (d : Dict ℕ (OpenPos F)) (b : PaperBroker F H)
      → Distinct d
      → Owned d
      → b.open_positions ≡ d
      → let (rs, b') = close_each (positions d) b in
        (b'.open_positions ≡ [])
        × All (λ r. r.success ≡ true) rs
        × (length rs ≡ length d)
        × (b'.pending ≡ b.pending)
  unfolding close_each
  close_each-empties [] b u o e = (e, tt, refl, refl)
  close_each-empties ((t, p) ∷ d) b u o e =
      let (won, open', pending') = close_position-head t p d b e u.0 in
      let rest = close_each-empties d (close_position t b).1 u.1 o.1 open' in
      rw o.0 (rest.0, (won, rest.1), ap suc rest.2, rest.3 ∙ pending')

  -- Closing all positions of a broker whose tickets are apart leaves none open; each close succeeds,
  -- there is one result for each position that was open, and the pending orders stay.
  pub close_all_leaves_none :
      (b : PaperBroker F H)
      → IsApart b
      → let (rs, b') = close_all b in
        (b'.open_positions ≡ [])
        × All (λ r. r.success ≡ true) rs
        × (length rs ≡ length b.open_positions)
        × (b'.pending ≡ b.pending)
  unfolding close_all
  close_all_leaves_none b a =
      close_each-empties b.open_positions b a.open_distinct
        (own-Owned b.open_positions a.open_distinct a.own) refl
