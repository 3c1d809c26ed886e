-- ===== src/Live/Engine/Gated.antt =====
-- trading-engine/live/engine.py: what stands behind an order that a round posts.
use forex_bot.Common.{
  ℕ, ◌==◌, ◌≡◌, refl, Bool, true, false, not, ◌&&◌, List, [], ◌∷◌, All, All-append, arith,
}
use forex_bot.Common.Float.{Float, lt}
use forex_bot.Common.Cases.{if_case, result_case}
use forex_bot.Common.Result.{Result, ok, err}
use forex_bot.Live.Breaker.{Verdict, ok_verdict, halt, kill}
use forex_bot.Live.Engine.Types.{
  LiveEngine, Reply, killed, starting, with_status, OrderPayload, Action, post_order, receive,
  post_close, emit_health, emit_signal, emit_trade, post_connect,
}
use forex_bot.Live.Engine.Lifecycle.{
  StartAnswers, StartResult, KillAnswers, Position, connect_bridge, can_start, on_start, on_stop,
  close_mine, close_listed, on_kill,
}
use forex_bot.Live.Engine.Round.{
  RoundAnswers, LoopState, Call, start, stop, kill_call, next_round, step, after_beat, is_due,
  tick_heartbeat, trade, kill_from_breaker, obey, judged, bar_boundary, round,
}
use forex_bot.Live.Engine.Approved.{Approved, on_new_bar-All, OnOrder}

module _ {F : Type 0} ⦃f : Float F⦄ where
  -- The orders of an engine come from rounds of a started loop that is not stopped, behind an OK
  -- verdict, each approved, once the boundary of a new bar is passed, which the round records.
  abbrev pub Behind : Call F → LoopState F → OrderPayload F → Type 0
  Behind (next_round ans) l p =
      (l.engine.has_thread ≡ true)
      × (l.engine.stop_evt ≡ false)
      × ((judged ans l.engine).0.0 ≡ ok_verdict)
      × (lt l.last_bar_ts (bar_boundary ans.now l.engine) ≡ true)
      × ((step (next_round ans) l).0.last_bar_ts ≡ bar_boundary ans.now l.engine)
      × Approved ans.bar l.engine p
  Behind _ l p = ⊥

  pub All-map :
      {P Q : OrderPayload F → Type 0}
      → ((p : OrderPayload F) → P p → Q p)
      → (acts : List (Action F)) → All (OnOrder P) acts
      → All (OnOrder Q) acts
  All-map h [] a = tt
  All-map h (post_order p ∷ acts) a = (h p a.0, All-map h acts a.1)
  All-map h (post_connect ∷ acts) a = (tt, All-map h acts a.1)
  All-map h (post_close t ∷ acts) a = (tt, All-map h acts a.1)
  All-map h (emit_health s ∷ acts) a = (tt, All-map h acts a.1)
  All-map h (emit_signal d x y z ∷ acts) a = (tt, All-map h acts a.1)
  All-map h (emit_trade t x y ∷ acts) a = (tt, All-map h acts a.1)

  close_mine-All :
      (P : OrderPayload F → Type 0) (close : ℕ → Reply F (Unit {0})) (ps : List Position)
      (e : LiveEngine F)
      → All (OnOrder P) (close_mine close ps e).1.1
  unfolding close_mine
  close_mine-All P close [] e = tt
  close_mine-All P close (p ∷ ps) e =
      if_case (λ (r : List ℕ × (LiveEngine F × List (Action F))). All (OnOrder P) r.1.1)
        (p.magic == e.spec.magic) _ _
        (λ m.
          result_case (λ (r : List ℕ × (LiveEngine F × List (Action F))). All (OnOrder P) r.1.1)
            (receive (close p.ticket) e).0 _ _ (λ x r. (tt, tt))
            (λ u r. (tt, close_mine-All P close ps _)))
        (λ m. close_mine-All P close ps e)

  close_listed-All :
      (P : OrderPayload F → Type 0) (close : ℕ → Reply F (Unit {0})) (r : Result (List Position))
      (e : LiveEngine F)
      → All (OnOrder P) (close_listed close r e).1.1
  unfolding close_listed
  close_listed-All P close (err x) e = tt
  close_listed-All P close (ok ps) e = close_mine-All P close ps e

  pub on_kill-All :
      (P : OrderPayload F → Type 0) (in_loop : Bool) (ans : KillAnswers F) (e : LiveEngine F)
      → All (OnOrder P) (on_kill in_loop ans e).1.1
  unfolding on_kill
  on_kill-All P true ans e = close_listed-All P ans.close _ _
  on_kill-All P false ans e =
      All-append (OnOrder P) _ (emit_health killed ∷ []) (close_listed-All P ans.close _ _) (tt, tt)

  obey-All :
      (P : OrderPayload F → Type 0) (v : Verdict) (ans : RoundAnswers F) (l : LoopState F)
      → ((p : OrderPayload F)
          → v ≡ ok_verdict
          → lt l.last_bar_ts (bar_boundary ans.now l.engine) ≡ true
          → Approved ans.bar l.engine p
          → P p)
      → All (OnOrder P) (obey v ans l).1
  unfolding obey trade kill_from_breaker
  obey-All P ok_verdict ans l h =
      if_case (λ (r : LoopState F × List (Action F)). All (OnOrder P) r.1)
        (lt l.last_bar_ts (bar_boundary ans.now l.engine)) _ _
        (λ b. All-map (λ p a. h p refl b a) _ (on_new_bar-All ans.bar _)) (λ b. tt)
  obey-All P halt ans l h = tt
  obey-All P kill ans l h = on_kill-All P true ans.killing l.engine

  round-All :
      (P : OrderPayload F → Type 0) (ans : RoundAnswers F) (l : LoopState F)
      → ((p : OrderPayload F)
          → (judged ans l.engine).0.0 ≡ ok_verdict
          → lt l.last_bar_ts (bar_boundary ans.now l.engine) ≡ true
          → Approved ans.bar l.engine p
          → P p)
      → All (OnOrder P) (round ans l).1
  unfolding round tick_heartbeat
  round-All P ans l h =
      if_case (λ (b : LiveEngine F × List (Action F)). All (OnOrder P) (after_beat ans l b).1)
        (is_due ans.heartbeat_at l.engine.runtime.last_heartbeat_at) _ _
        (λ d. (tt, obey-All P _ ans _ h)) (λ d. obey-All P _ ans _ h)

  start-All :
      (P : OrderPayload F → Type 0) (ans : StartAnswers F) (e : LiveEngine F)
      → All (OnOrder P) (on_start ans e).1.1
  unfolding on_start
  start-All P ans e =
      if_case (λ (r : StartResult × (LiveEngine F × List (Action F))). All (OnOrder P) r.1.1)
        (can_start e.runtime.status) _ _
        (λ c.
          result_case
            (λ (r : StartResult × (LiveEngine F × List (Action F))). All (OnOrder P) r.1.1)
            (connect_bridge ans (with_status starting e)).0 _ _ (λ x r. (tt, tt))
            (λ u r. (tt, (tt, tt))))
        (λ c. tt)

  -- A round behind an OK verdict records the boundary of the bar that it acts on.
  obey-bar :
      (v : Verdict) (ans : RoundAnswers F) (l : LoopState F)
      → v ≡ ok_verdict
      → lt l.last_bar_ts (bar_boundary ans.now l.engine) ≡ true
      → (obey v ans l).0.last_bar_ts ≡ bar_boundary ans.now l.engine
  unfolding obey trade
  obey-bar ok_verdict ans l v n = ground arith
  obey-bar halt ans l v n = cc
  obey-bar kill ans l v n = cc

  round-bar :
      (ans : RoundAnswers F) (l : LoopState F)
      → (judged ans l.engine).0.0 ≡ ok_verdict
      → lt l.last_bar_ts (bar_boundary ans.now l.engine) ≡ true
      → (round ans l).0.last_bar_ts ≡ bar_boundary ans.now l.engine
  unfolding round tick_heartbeat
  round-bar ans l v n =
      if_case
        (λ (b : LiveEngine F × List (Action F)).
          (after_beat ans l b).0.last_bar_ts ≡ bar_boundary ans.now l.engine)
        (is_due ans.heartbeat_at l.engine.runtime.last_heartbeat_at) _ _ (λ d. obey-bar _ ans _ v n)
        (λ d. obey-bar _ ans _ v n)

  step-bar :
      (ans : RoundAnswers F) (l : LoopState F)
      → (l.engine.has_thread && not l.engine.stop_evt) ≡ true
      → (judged ans l.engine).0.0 ≡ ok_verdict
      → lt l.last_bar_ts (bar_boundary ans.now l.engine) ≡ true
      → (step (next_round ans) l).0.last_bar_ts ≡ bar_boundary ans.now l.engine
  unfolding step
  step-bar ans l b v n = rw b (round-bar ans l v n)

  -- An order is posted only in a round of a loop that was started and is not stopped, behind an OK
  -- verdict of the circuit breaker and once the boundary of a new bar is passed, which the round
  -- records as its last bar. It is the order of the last signal, which is not flat, with that
  -- signal's stop and target; its size was computed from the equity and the distance to the stop and
  -- is not 0 or below; and the risk manager approved it, with the lot that was proposed or, where
  -- that was trimmed, the trimmed size rounded to the lot step.
  pub orders_are_gated : (c : Call F) (l : LoopState F) → All (OnOrder (Behind c l)) (step c l).1
  unfolding step on_stop
  orders_are_gated (start ans) l = start-All (Behind (start ans) l) ans l.engine
  orders_are_gated stop l = (tt, tt)
  orders_are_gated (kill_call ans) l = on_kill-All (Behind (kill_call ans) l) false ans l.engine
  orders_are_gated (next_round ans) l =
      if_case (λ (r : LoopState F × List (Action F)). All (OnOrder (Behind (next_round ans) l)) r.1)
        (l.engine.has_thread && not l.engine.stop_evt) _ _
        (λ b.
          round-All (Behind (next_round ans) l) ans l
            (λ p v n a. (ground arith, ground arith, v, n, step-bar ans l b v n, a)))
        (λ b. tt)
