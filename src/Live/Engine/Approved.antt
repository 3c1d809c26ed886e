-- ===== src/Live/Engine/Approved.antt =====
-- trading-engine/live/engine.py: what stands behind an order of `_on_new_bar`.
use forex_bot.Common.{
  ℕ, ◌≡◌, refl, true, false, not, Option, none, some, List, [], ◌∷◌, All, arith, sym, subst,
}
use forex_bot.Common.Float.{Float, le, nought}
use forex_bot.Common.Cases.{if_case, option_case, result_case}
use forex_bot.Common.Result.{Result, ok, err}
use forex_bot.Risk.Manager.{RiskDecision}
use forex_bot.Risk.Sizing.{round_to_step}
use forex_bot.Live.Engine.Types.{LiveEngine, OrderPayload, Action, post_order, emit_trade}
use forex_bot.Live.Engine.Bar.{
  BarAnswers, SignalRow, Levels, Signals, too_few, raises, last_row, OrderReply, is_flat, payload,
  answered, place, resize, ask_risk, risk_gate, sized, propose, noted, on_signal, on_new_bar,
}

-- What `P` says of an order, and nothing of any other action.
abbrev pub OnOrder : {F : Type 0} → (OrderPayload F → Type 0) → Action F → Type 0
OnOrder P (post_order p) = P p
OnOrder P _ = Unit

module _ {F : Type 0} ⦃f : Float F⦄ where
  -- The lot is the proposed size, or the adjusted one rounded to the lot step.
  abbrev pub IsLot : LiveEngine F → F → Option F → F → Type 0
  IsLot e size none lot = lot ≡ size
  IsLot e size (some a) lot = round_to_step a e.spec.lot_step e.spec.min_lot ≡ ok lot

  -- A signal that is not flat, sized above 0 and approved by the risk manager, gives the order.
  abbrev pub Approved : BarAnswers F → LiveEngine F → OrderPayload F → Type 0
  Approved ans e p =
      (s : SignalRow F) × (lv : Levels F) × (size : F) × (d : RiskDecision F) × (ans.signals
        ≡ last_row s)
      × (is_flat s.direction ≡ false)
      × (s.levels ≡ some lv)
      × (sized s lv e ≡ ok size)
      × (le size nought ≡ false)
      × ((ask_risk ans lv size e).0 ≡ ok d)
      × (d.approved ≡ true)
      × IsLot e size d.adjusted_size p.lot
      × (p ≡ payload e s lv p.lot)

  abbrev pub AllOrders : (OrderPayload F → Type 0) → LiveEngine F × List (Action F) → Type 0
  AllOrders P r = All (OnOrder P) r.1

  pub traded-All :
      (P : OrderPayload F → Type 0) (o : Option ℕ) (size fill : F)
      → All (OnOrder P) (elim o [ none ↦ [] | some t ↦ emit_trade t size fill ∷ [] ])
  traded-All P none size fill = tt
  traded-All P (some t) size fill = (tt, tt)

  pub answered-All :
      (P : OrderPayload F → Type 0) (ans : BarAnswers F) (lv : Levels F) (size : F)
      (r : Result (OrderReply F)) (e : LiveEngine F)
      → All (OnOrder P) (answered ans lv size r e).1
  unfolding answered
  answered-All P ans lv size (err x) e = tt
  answered-All P ans lv size (ok r) e =
      if_case (AllOrders P) r.success _ _ (λ h. traded-All P r.ticket size _) (λ h. tt)

  pub place-All :
      (P : OrderPayload F → Type 0) (ans : BarAnswers F) (s : SignalRow F) (lv : Levels F)
      (size : F) (e : LiveEngine F)
      → P (payload e s lv size)
      → All (OnOrder P) (place ans s lv size e).1
  unfolding place
  place-All P ans s lv size e p = (p, answered-All P ans lv size _ _)

  pub lots :
      {P : F → Type 0} (e : LiveEngine F) (size : F) (o o' : Option F)
      → o ≡ o'
      → ((lot : F) → IsLot e size o lot → P lot)
      → (lot : F) → IsLot e size o' lot
      → P lot
  lots e size o o' q h lot i = h lot (subst (λ x. IsLot e size x lot) (sym q) i)

  pub resize-All :
      (P : OrderPayload F → Type 0) (ans : BarAnswers F) (s : SignalRow F) (lv : Levels F)
      (size : F) (d : RiskDecision F) (e : LiveEngine F)
      → ((lot : F) → IsLot e size d.adjusted_size lot → P (payload e s lv lot))
      → All (OnOrder P) (resize ans s lv size d e).1
  unfolding resize
  resize-All P ans s lv size d e h =
      option_case (AllOrders P) d.adjusted_size _ _
        (λ q. place-All P ans s lv size e (lots e size d.adjusted_size none q h size refl))
        (λ a q.
          result_case (AllOrders P) (round_to_step a e.spec.lot_step e.spec.min_lot) _ _ (λ x r. tt)
            (λ lot r. place-All P ans s lv lot e (lots e size d.adjusted_size (some a) q h lot r)))

  pub risk_gate-All :
      (P : OrderPayload F → Type 0) (ans : BarAnswers F) (s : SignalRow F) (lv : Levels F)
      (size : F) (e : LiveEngine F)
      → ((d : RiskDecision F) (lot : F)
          → (ask_risk ans lv size e).0 ≡ ok d
          → d.approved ≡ true
          → IsLot e size d.adjusted_size lot
          → P (payload e s lv lot))
      → All (OnOrder P) (risk_gate ans s lv size e).1
  unfolding risk_gate
  risk_gate-All P ans s lv size e h =
      result_case (AllOrders P) (ask_risk ans lv size e).0 _ _ (λ x r. tt)
        (λ d q.
          if_case (AllOrders P) (not d.approved) _ _ (λ a. tt)
            (λ a. resize-All P ans s lv size d _ (λ lot i. h d lot q (ground arith) i)))

  pub propose-All :
      (ans : BarAnswers F) (s : SignalRow F) (lv : Levels F) (e : LiveEngine F)
      → ans.signals ≡ last_row s
      → is_flat s.direction ≡ false
      → s.levels ≡ some lv
      → All (OnOrder (Approved ans e)) (propose ans s lv e).1
  unfolding propose
  propose-All ans s lv e hs hd hl =
      result_case (AllOrders (Approved ans e)) (sized s lv e) _ _ (λ x r. tt)
        (λ size q.
          if_case (AllOrders (Approved ans e)) (le size nought) _ _ (λ z. tt)
            (λ z.
              risk_gate-All (Approved ans e) ans s lv size e
                (λ d lot r a i. (s, lv, size, d, hs, hd, hl, q, z, r, a, i, refl))))

  pub on_signal-All :
      (ans : BarAnswers F) (s : SignalRow F) (e : LiveEngine F)
      → ans.signals ≡ last_row s
      → is_flat s.direction ≡ false
      → All (OnOrder (Approved ans e)) (on_signal ans s e).1
  unfolding on_signal
  on_signal-All ans s e hs hd =
      option_case (AllOrders (Approved ans e)) s.levels _ _ (λ q. tt)
        (λ lv q. (tt, propose-All ans s lv e hs hd q))

  pub signals_case :
      (Q : LiveEngine F × List (Action F) → Type 0) (x : Signals F)
      (y z : LiveEngine F × List (Action F)) (g : SignalRow F → LiveEngine F × List (Action F))
      → Q y
      → Q z
      → ((s : SignalRow F) → x ≡ last_row s → Q (g s))
      → Q (elim x [ too_few ↦ y | raises ↦ z | last_row s ↦ g s ])
  signals_case Q too_few y z g h i k = h
  signals_case Q raises y z g h i k = i
  signals_case Q (last_row s) y z g h i k = k s refl

  pub on_new_bar-All :
      (ans : BarAnswers F) (e : LiveEngine F) → All (OnOrder (Approved ans e)) (on_new_bar ans e).1
  unfolding on_new_bar
  on_new_bar-All ans e = signals_case (AllOrders (Approved ans e)) ans.signals _ _ _ tt tt (λ s q.
      if_case (AllOrders (Approved ans e)) (is_flat s.direction) _ _ (λ z. tt)
        (λ z. on_signal-All ans s (noted ans e) q z))
