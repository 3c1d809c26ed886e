-- ===== src/Live/Engine/Bars.antt =====
-- trading-engine/live/engine.py: how often an engine can post an order.
use forex_bot.Common.{
  ℕ, suc, ◌+◌, ◌≤◌, ◌≡◌, ◌⊎◌, inl, inr, refl, subst, Bool, true, false, not, ◌&&◌, List, [], ◌∷◌,
  ◌++◌, All, if◌then◌else◌, arith,
}
use forex_bot.Common.Cases.{if_case, option_case, result_case}
use forex_bot.Common.Float.{Float, lt, le, nought}
use forex_bot.Risk.Sizing.{round_to_step}
use forex_bot.Live.Breaker.{Verdict, ok_verdict, halt, kill}
use forex_bot.Live.Engine.Types.{
  LiveEngine, Action, post_order, receive, post_close, emit_health, emit_signal, emit_trade,
  post_connect,
}
use forex_bot.Live.Engine.Bar.{
  BarAnswers, SignalRow, Levels, is_flat, place, resize, ask_risk, risk_gate, sized, propose, noted,
  on_signal, on_new_bar,
}
use forex_bot.Live.Engine.Round.{
  RoundAnswers, LoopState, Call, start, stop, kill_call, next_round, step, run, after_beat, is_due,
  tick_heartbeat, trade, kill_from_breaker, obey, bar_boundary, round,
}
use forex_bot.Live.Engine.Lifecycle.{KillAnswers, on_kill, on_stop}
use forex_bot.Live.Engine.Approved.{OnOrder, answered-All, signals_case}
use forex_bot.Live.Engine.Gated.{on_kill-All}

-- How many of the actions are orders.
unfoldable pub count_orders : {F : Type 0} → List (Action F) → ℕ
count_orders [] = 0
count_orders (post_order p ∷ acts) = suc (count_orders acts)
count_orders (post_connect ∷ acts) = count_orders acts
count_orders (post_close t ∷ acts) = count_orders acts
count_orders (emit_health s ∷ acts) = count_orders acts
count_orders (emit_signal d x y z ∷ acts) = count_orders acts
count_orders (emit_trade t x y ∷ acts) = count_orders acts

count-append :
    {F : Type 0} (xs ys : List (Action F))
    → count_orders (xs ++ ys) ≡ count_orders xs + count_orders ys
unfolding count_orders
count-append [] ys = omega arith
count-append (post_order p ∷ xs) ys = omega (arith, count-append xs ys)
count-append (post_connect ∷ xs) ys = count-append xs ys
count-append (post_close t ∷ xs) ys = count-append xs ys
count-append (emit_health s ∷ xs) ys = count-append xs ys
count-append (emit_signal d x y z ∷ xs) ys = count-append xs ys
count-append (emit_trade t x y ∷ xs) ys = count-append xs ys

count_none : {F : Type 0} (xs : List (Action F)) → All (OnOrder (λ p. ⊥)) xs → count_orders xs ≡ 0
unfolding count_orders
count_none [] a = refl
count_none (post_order p ∷ xs) a = elim a.0 [ ]
count_none (post_connect ∷ xs) a = count_none xs a.1
count_none (post_close t ∷ xs) a = count_none xs a.1
count_none (emit_health s ∷ xs) a = count_none xs a.1
count_none (emit_signal d x y z ∷ xs) a = count_none xs a.1
count_none (emit_trade t x y ∷ xs) a = count_none xs a.1

module _ {F : Type 0} ⦃f : Float F⦄ where
  abbrev AtMostOne : LiveEngine F × List (Action F) → Type 0
  AtMostOne r = count_orders r.1 ≤ 1

  place-AtMostOne :
      (ans : BarAnswers F) (s : SignalRow F) (lv : Levels F) (size : F) (e : LiveEngine F)
      → AtMostOne (place ans s lv size e)
  unfolding place count_orders
  place-AtMostOne ans s lv size e = omega (
    arith,
    count_none _
        (answered-All (λ p. ⊥) ans lv size (receive ans.order e).0 (receive ans.order e).1),
  )

  risk_gate-AtMostOne :
      (ans : BarAnswers F) (s : SignalRow F) (lv : Levels F) (size : F) (e : LiveEngine F)
      → AtMostOne (risk_gate ans s lv size e)
  unfolding risk_gate resize count_orders
  risk_gate-AtMostOne ans s lv size e =
      result_case AtMostOne (ask_risk ans lv size e).0 _ _ (λ x r. omega arith)
        (λ d q.
          if_case AtMostOne (not d.approved) _ _ (λ a. omega arith)
            (λ a.
              option_case AtMostOne d.adjusted_size _ _ (λ n. place-AtMostOne ans s lv size _)
                (λ y n.
                  result_case AtMostOne (round_to_step y e.spec.lot_step e.spec.min_lot) _ _
                    (λ x r. omega arith) (λ lot r. place-AtMostOne ans s lv lot _))))

  propose-AtMostOne :
      (ans : BarAnswers F) (s : SignalRow F) (lv : Levels F) (e : LiveEngine F)
      → AtMostOne (propose ans s lv e)
  unfolding propose count_orders
  propose-AtMostOne ans s lv e =
      result_case AtMostOne (sized s lv e) _ _ (λ x r. omega arith)
        (λ size q.
          if_case AtMostOne (le size nought) _ _ (λ z. omega arith)
            (λ z. risk_gate-AtMostOne ans s lv size e))

  on_new_bar-AtMostOne : (ans : BarAnswers F) (e : LiveEngine F) → AtMostOne (on_new_bar ans e)
  unfolding on_new_bar on_signal count_orders
  on_new_bar-AtMostOne ans e =
      signals_case AtMostOne ans.signals _ _ _ (omega arith) (omega arith) (λ s q.
        if_case AtMostOne (is_flat s.direction) _ _ (λ z. omega arith)
          (λ z.
            option_case AtMostOne s.levels _ _ (λ n. omega arith)
              (λ lv n. propose-AtMostOne ans s lv (noted ans e))))

  -- A step in the bar of boundary `b`: it posts no order and leaves the mark, or it posts at most
  -- one, was allowed to, and moves the mark so that no more are.
  abbrev Outcome : F → F → LoopState F × List (Action F) → Type 0
  Outcome b ts r =
      ((count_orders r.1 ≡ 0) × (r.0.last_bar_ts ≡ ts))
      ⊎ ((lt ts b ≡ true) × (count_orders r.1 ≤ 1) × (r.0.last_bar_ts ≡ b))

  kill-Outcome :
      (b : F) (in_loop : Bool) (ans : KillAnswers F) (e : LiveEngine F)
      → count_orders (on_kill in_loop ans e).1.1 ≡ 0
  kill-Outcome b in_loop ans e = count_none _ (on_kill-All (λ p. ⊥) in_loop ans e)

  obey-Outcome :
      (v : Verdict) (ans : RoundAnswers F) (l : LoopState F)
      → Outcome (bar_boundary ans.now l.engine) l.last_bar_ts (obey v ans l)
  unfolding obey trade kill_from_breaker count_orders
  obey-Outcome ok_verdict ans l =
      if_case (Outcome (bar_boundary ans.now l.engine) l.last_bar_ts)
        (lt l.last_bar_ts (bar_boundary ans.now l.engine)) _ _
        (λ h. inr (h, on_new_bar-AtMostOne ans.bar _, refl)) (λ h. inl (refl, refl))
  obey-Outcome halt ans l = inl (refl, refl)
  obey-Outcome kill ans l = inl (kill-Outcome l.last_bar_ts true ans.killing l.engine, refl)

  round-Outcome :
      (ans : RoundAnswers F) (l : LoopState F)
      → Outcome (bar_boundary ans.now l.engine) l.last_bar_ts (round ans l)
  unfolding round tick_heartbeat count_orders
  round-Outcome ans l =
      if_case
        (λ (r : LiveEngine F × List (Action F)).
          Outcome (bar_boundary ans.now l.engine) l.last_bar_ts (after_beat ans l r))
        (is_due ans.heartbeat_at l.engine.runtime.last_heartbeat_at) _ _ (λ d. obey-Outcome _ ans _)
        (λ d. obey-Outcome _ ans _)

  -- A call other than a start; a round comes in the bar of boundary `b`.
  abbrev pub InBar : F → Call F → LoopState F → Type 0
  InBar b (next_round ans) l = bar_boundary ans.now l.engine ≡ b
  InBar b (start ans) l = ⊥
  InBar b _ l = Unit

  step-Outcome :
      (b : F) (c : Call F) (l : LoopState F) → InBar b c l → Outcome b l.last_bar_ts (step c l)
  unfolding step on_stop count_orders
  step-Outcome b (start ans) l h = elim h [ ]
  step-Outcome b stop l h = inl (refl, refl)
  step-Outcome b (kill_call ans) l h = inl (kill-Outcome b false ans l.engine, refl)
  step-Outcome b (next_round ans) l h =
      if_case (Outcome b l.last_bar_ts) (l.engine.has_thread && not l.engine.stop_evt) _ _
        (λ a. subst (λ x. Outcome x l.last_bar_ts (round ans l)) h (round-Outcome ans l))
        (λ a. inl (refl, refl))

  -- Every call of the list comes in the bar of boundary `b`.
  abbrev pub AllInBar : F → List (Call F) → LoopState F → Type 0
  AllInBar b [] l = Unit
  AllInBar b (c ∷ cs) l = InBar b c l × AllInBar b cs (step c l).0

  abbrev allowance : F → F → ℕ
  allowance b ts = if lt ts b then 1 else 0

  allowance-step :
      (b ts ts' : F) (m n : ℕ)
      → lt b b ≡ false
      → ((m ≡ 0) × (ts' ≡ ts)) ⊎ ((lt ts b ≡ true) × (m ≤ 1) × (ts' ≡ b))
      → n ≤ allowance b ts'
      → m + n ≤ allowance b ts
  allowance-step b ts ts' m n h (inl (z, q)) k =
      omega (arith, z, subst (λ x. n ≤ allowance b x) q k)
  allowance-step b ts ts' m n h (inr (o, z, q)) k =
      let k' = subst (λ x. n ≤ allowance b x) q k in ground (arith, k')

  run-allowance :
      (b : F) (cs : List (Call F)) (l : LoopState F)
      → lt b b ≡ false
      → AllInBar b cs l
      → count_orders (run cs l).1 ≤ allowance b l.last_bar_ts
  unfolding run count_orders
  run-allowance b [] l h a = omega arith
  run-allowance b (c ∷ cs) l h a =
      let s = step c l in
      rw (count-append s.1 (run cs s.0).1) (
        allowance-step b l.last_bar_ts s.0.last_bar_ts _ _ h (step-Outcome b c l a.0)
          (run-allowance b cs s.0 h a.1))

  -- While the clock stays in one bar, an engine posts at most one order, whatever rounds, stops and
  -- kills come, as long as it is not started again.
  pub one_order_per_bar :
      (b : F) (cs : List (Call F)) (l : LoopState F)
      → lt b b ≡ false
      → AllInBar b cs l
      → count_orders (run cs l).1 ≤ 1
  one_order_per_bar b cs l h a = ground (arith, run-allowance b cs l h a)
