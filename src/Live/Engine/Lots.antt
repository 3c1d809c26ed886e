-- ===== src/Live/Engine/Lots.antt =====
-- trading-engine/live/engine.py with risk/position_sizing.py: the lots of the orders.
use forex_bot.Common.{
  ◌≡◌, sym, ap, ◌∙◌, ◌⊎◌, inl, inr, false, Option, none, some, Option-cases, Bool-cases, All, arith,
}
use forex_bot.Common.Float.{Float, mul, div, lt, le, floor, nought}
use forex_bot.Common.Result.{ok}
use forex_bot.Risk.Sizing.{round_to_step}
use forex_bot.Live.Engine.Types.{LiveEngine, OrderPayload}
use forex_bot.Live.Engine.Round.{LoopState, Call, start, stop, kill_call, next_round, step}
use forex_bot.Live.Engine.Approved.{OnOrder, IsLot}
use forex_bot.Live.Engine.Gated.{Behind, All-map, orders_are_gated}

module _ {F : Type 0} ⦃f : Float F⦄ where
  -- The smallest size, or the whole steps of some size, where they are not below the smallest.
  abbrev pub IsSize : F → F → F → Type 0
  IsSize lot_step min_lot lot =
      (lot ≡ min_lot)
      ⊎ ((size : F) × (n : F) × (floor (div size lot_step) ≡ some n)
          × (lot ≡ mul n lot_step)
          × (lt lot min_lot ≡ false))

  round_to_step-IsSize :
      (size lot_step min_lot lot : F)
      → le lot_step nought ≡ false
      → round_to_step size lot_step min_lot ≡ ok lot
      → IsSize lot_step min_lot lot
  unfolding round_to_step
  round_to_step-IsSize size lot_step min_lot lot p h =
      elim (Option-cases (floor (div size lot_step))) [
        | inl n ↦ ground arith
        | inr (n, q) ↦ elim (Bool-cases (lt (mul n lot_step) min_lot)) [
          | inl b ↦ inl (ground arith)
          | inr b ↦ inr (size, n, q, ground arith, ground arith)
        ]
      ]

  IsLot-IsSize :
      (e : LiveEngine F) (size wanted : F) (o : Option F) (lot : F)
      → le e.spec.lot_step nought ≡ false
      → round_to_step wanted e.spec.lot_step e.spec.min_lot ≡ ok size
      → IsLot e size o lot
      → IsSize e.spec.lot_step e.spec.min_lot lot
  IsLot-IsSize e size wanted none lot p s h =
      round_to_step-IsSize wanted e.spec.lot_step e.spec.min_lot lot p (s ∙ ap ok (sym h))
  IsLot-IsSize e size wanted (some a) lot p s h =
      round_to_step-IsSize a e.spec.lot_step e.spec.min_lot lot p h

  Behind-IsSize :
      (c : Call F) (l : LoopState F) (p : OrderPayload F)
      → le l.engine.spec.lot_step nought ≡ false
      → Behind c l p
      → IsSize l.engine.spec.lot_step l.engine.spec.min_lot p.lot
  Behind-IsSize (next_round ans) l p h
        (t, e, v, b, r, (s, lv, size, d, q, z, w, k, n, a, g, i, y)) =
      IsLot-IsSize l.engine size _ d.adjusted_size p.lot h k i
  Behind-IsSize (start ans) l p h b = absurd b
  Behind-IsSize stop l p h b = absurd b
  Behind-IsSize (kill_call ans) l p h b = absurd b

  -- Where the lot step of an engine is not 0 or below, every order that any call makes it post has
  -- the smallest lot, or a whole number of lot steps that is not below the smallest lot: trimmed or
  -- not, and however small the size was that the risk allowed.
  pub orders_have_lots :
      (c : Call F) (l : LoopState F)
      → le l.engine.spec.lot_step nought ≡ false
      → All (OnOrder (λ p. IsSize l.engine.spec.lot_step l.engine.spec.min_lot p.lot)) (step c l).1
  orders_have_lots c l h =
      All-map (λ p b. Behind-IsSize c l p h b) (step c l).1 (orders_are_gated c l)
