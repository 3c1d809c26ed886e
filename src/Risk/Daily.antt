-- ===== src/Risk/Daily.antt =====
-- trading-engine/risk/manager.py: the daily roll. The realized result of the day is the sum of the
-- trades that were closed on that day.
use forex_bot.Common.{
  ℕ, ◌≤◌, ◌<◌, ◌≡◌, none, some, List, [], ◌∷◌, ◌++◌, inl, inr, arith, refl, Bool-cases, ◌∙◌, ap,
  sym, ==_iff, if◌then◌else◌, ◌==◌,
}
use mathlib.Core.List.{foldl, append-nil, append_assoc}
use forex_bot.Common.Text.{Text}
use forex_bot.Common.Float.{Float, add, nought}
use forex_bot.Risk.Manager.{
  RiskManager, RiskState, on_equity_update, on_trade_closed, on_position_opened, on_position_closed,
  evaluate, roll_day_if_needed,
}
use forex_bot.Risk.Trace.{
  Event, equity_update, trade_closed, position_opened, position_closed, evaluated, step, run,
}

module _ {F : Type 0} where
  -- What an event of day `t` adds to the trades closed on day `day`.
  abbrev pub closing : ℕ → ℕ → Event F → List F
  closing day t (trade_closed pnl) = if t == day then pnl ∷ [] else []
  closing day t _ = []

  -- The results of the trades that were closed on the day, in order.
  abbrev pub closed_on : ℕ → List (ℕ × Event F) → List F
  closed_on day [] = []
  closed_on day ((t, e) ∷ es) = closing day t e ++ closed_on day es

  -- The dates do not go back, and lie between the two days.
  abbrev pub InOrder : ℕ → ℕ → List (ℕ × Event F) → Type 0
  InOrder first last [] = first ≤ last
  InOrder first last ((t, e) ∷ es) = (first ≤ t) × InOrder t last es

  InOrder-le : (first last : ℕ) (es : List (ℕ × Event F)) → InOrder first last es → first ≤ last
  InOrder-le first last [] h = h
  InOrder-le first last ((t, e) ∷ es) h = omega (arith, InOrder-le t last es h.1)

module _ {F : Type 0} ⦃f : Float F⦄ where
  abbrev pub total : List F → F
  total = foldl add nought

  foldl-snoc : (xs : List F) (a x : F) → foldl add a (xs ++ x ∷ []) ≡ add (foldl add a xs) x
  foldl-snoc [] a x = refl
  foldl-snoc (y ∷ xs) a x = foldl-snoc xs (add a y) x

  -- `xs` are the trades closed on `day` so far.
  record Booked (day : ℕ) (xs : List F) (st : RiskState F) : Type 0 where
    not_past : st.today_utc ≤ day
    same_day : st.today_utc ≡ day → st.realized_pnl_today ≡ total xs
    earlier : st.today_utc < day → xs ≡ []

  roll-Booked :
      (day t : ℕ) (xs : List F) (st : RiskState F)
      → Booked day xs st
      → st.today_utc ≤ t
      → t ≤ day
      → Booked day xs (roll_day_if_needed t st)
  unfolding roll_day_if_needed
  roll-Booked day t xs st b h k = elim (Bool-cases (t == st.today_utc)) [
    | inl same ↦ rw same b
    | inr moved ↦
        let fresh : xs ≡ [] = b.earlier (ground arith) in
        rw moved (record { not_past = k; same_day = λ e. rw fresh refl; earlier = λ e. fresh })
  ]

  roll-today : (t : ℕ) (st : RiskState F) → (roll_day_if_needed t st).today_utc ≡ t
  unfolding roll_day_if_needed
  roll-today t st = ground arith

  -- An event that neither books a trade nor rolls the day leaves what is booked.
  same-Booked :
      (day : ℕ) (xs : List F) (st st' : RiskState F)
      → st'.today_utc ≡ st.today_utc
      → st'.realized_pnl_today ≡ st.realized_pnl_today
      → Booked day xs st
      → Booked day (xs ++ []) st'
  same-Booked day xs st st' e r b = rw append-nil (record {
    not_past = omega arith;
    same_day = λ d. r ∙ b.same_day (omega arith);
    earlier = λ d. b.earlier (omega arith);
  })

  trade-Booked :
      (day t : ℕ) (xs : List F) (pnl : F) (m : RiskManager F)
      → Booked day xs m.state
      → m.state.today_utc ≤ t
      → t ≤ day
      → Booked day (xs ++ closing day t (trade_closed pnl)) (on_trade_closed t pnl m).state
  unfolding on_trade_closed
  trade-Booked day t xs pnl m b h k =
      let r = roll-Booked day t xs m.state b h k in
      elim (Bool-cases (t == day)) [
        | inl now ↦ rw now (record {
          not_past = r.not_past;
          same_day = λ e. ap (λ (x : F). add x pnl) (r.same_day e) ∙ sym (foldl-snoc xs nought pnl);
          earlier = λ e. absurd (omega (arith, roll-today t m.state, (==_iff t day).0 now));
        })
        | inr before ↦ rw before (
            rw append-nil (record {
              not_past = r.not_past;
              same_day = λ e. absurd (ground (arith, roll-today t m.state, before, e));
              earlier = r.earlier;
            }))
      ]

  step-Booked :
      (day t : ℕ) (xs : List F) (e : Event F) (m : RiskManager F)
      → Booked day xs m.state
      → m.state.today_utc ≤ t
      → t ≤ day
      → Booked day (xs ++ closing day t e) (step t e m).state
  unfolding step on_equity_update on_position_opened on_position_closed evaluate
  step-Booked day t xs (equity_update x) m b h k =
      same-Booked day xs m.state _ (ground arith) (ground arith) b
  step-Booked day t xs (trade_closed pnl) m b h k = trade-Booked day t xs pnl m b h k
  step-Booked day t xs (position_opened s i) m b h k = same-Booked day xs m.state _ refl refl b
  step-Booked day t xs (position_closed s none) m b h k = same-Booked day xs m.state _ refl refl b
  step-Booked day t xs (position_closed s (some n)) m b h k =
      same-Booked day xs m.state _ refl refl b
  step-Booked day t xs (evaluated s size risk) m b h k =
      same-Booked day xs (roll_day_if_needed t m.state) _ refl refl
        (roll-Booked day t xs m.state b h k)

  today-step-le :
      (t : ℕ) (e : Event F) (m : RiskManager F)
      → m.state.today_utc ≤ t
      → (step t e m).state.today_utc ≤ t
  unfolding step on_equity_update on_trade_closed on_position_opened on_position_closed evaluate
  today-step-le t (position_closed s none) m h = h
  today-step-le t (position_closed s (some n)) m h = h
  today-step-le t (position_opened s i) m h = h
  today-step-le t (equity_update x) m h = ground arith
  today-step-le t (trade_closed pnl) m h = omega (arith, roll-today t m.state)
  today-step-le t (evaluated s size risk) m h = omega (arith, roll-today t m.state)

  run-Booked :
      (day first : ℕ) (xs : List F) (es : List (ℕ × Event F)) (m : RiskManager F)
      → InOrder first day es
      → m.state.today_utc ≤ first
      → Booked day xs m.state
      → Booked day (xs ++ closed_on day es) (run es m).state
  unfolding run
  run-Booked day first xs [] m o h b = rw append-nil b
  run-Booked day first xs ((t, e) ∷ es) m o h b =
      let le : t ≤ day = InOrder-le t day es o.1 in
      let le' : m.state.today_utc ≤ t = omega arith in
      rw (← append_assoc) (
        run-Booked day t (xs ++ closing day t e) es (step t e m) o.1 (today-step-le t e m le')
          (step-Booked day t xs e m b le' le))

  -- A manager that starts a day with no result and lives through dated calls, the dates never going
  -- back, has at an evaluation on the last day exactly the sum, in order, of the trades closed on
  -- that day as its realized result of the day: nothing of an earlier day counts, and nothing of
  -- the day is lost.
  pub daily_result :
      (first day : ℕ) (es : List (ℕ × Event F)) (s : Text) (size risk : F) (m : RiskManager F)
      → m.state.today_utc ≡ first
      → m.state.realized_pnl_today ≡ nought
      → InOrder first day es
      → (evaluate day s size risk (run es m)).1.state.realized_pnl_today ≡ total (closed_on day es)
  unfolding evaluate
  daily_result first day es s size risk m start zeroed o =
      let b = run-Booked day first [] es m o (omega arith) (record {
        not_past = omega (arith, InOrder-le first day es o);
        same_day = λ e. zeroed;
        earlier = λ e. refl;
      }) in
      (roll-Booked day day (closed_on day es) (run es m).state b b.not_past (omega arith)).same_day
        (roll-today day (run es m).state)
