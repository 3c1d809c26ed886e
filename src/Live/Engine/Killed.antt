-- ===== src/Live/Engine/Killed.antt =====
-- trading-engine/live/engine.py: what a kill does, from the backend or from the circuit breaker.
use forex_bot.Common.{
  ℕ, ◌==◌, ◌≡◌, refl, sym, ap, subst, ◌∙◌, Bool, true, false, not, ◌&&◌, List, [], ◌∷◌, All,
  All-append, arith,
}
use forex_bot.Common.Cases.{if_case, result_case}
use forex_bot.Common.Float.{Float}
use forex_bot.Common.Result.{Result, ok, err}
use forex_bot.Live.Breaker.{Verdict, ok_verdict, halt, kill}
use forex_bot.Live.Engine.Types.{
  EngineStatus, idle, starting, running, halted, killed, stopped, EngineRuntime, LiveEngine, Reply,
  no_answer, bad_body, replied, Action, with_status, receive,
}
use forex_bot.Live.Engine.Lifecycle.{
  StartAnswers, StartResult, KillAnswers, Position, can_start, on_start, close_mine, close_listed,
  on_kill,
}
use forex_bot.Live.Engine.Round.{
  RoundAnswers, LoopState, Call, start, stop, kill_call, next_round, step, run, after_beat, is_due,
  tick_heartbeat, kill_from_breaker, obey, judged, round,
}
use forex_bot.Live.Engine.Approved.{OnOrder}
use forex_bot.Live.Engine.Gated.{on_kill-All}

-- A call that is not a stop.
abbrev pub NotStop : {F : Type 0} → Call F → Type 0
NotStop stop = ⊥
NotStop _ = Unit

dead_cannot_start : (s : EngineStatus) → s ≡ killed → can_start s ≡ true → ⊥
unfolding can_start
dead_cannot_start idle h c = cc
dead_cannot_start starting h c = cc
dead_cannot_start running h c = cc
dead_cannot_start halted h c = cc
dead_cannot_start killed h c = cc
dead_cannot_start stopped h c = cc

module _ {F : Type 0} ⦃f : Float F⦄ where
  pub receive-runtime :
      {A : Type 0} (r : Reply F A) (e : LiveEngine F) → (receive r e).1.runtime ≡ e.runtime
  unfolding receive
  receive-runtime no_answer e = refl
  receive-runtime (bad_body t) e = refl
  receive-runtime (replied t a) e = refl

  pub receive-spec : {A : Type 0} (r : Reply F A) (e : LiveEngine F) → (receive r e).1.spec ≡ e.spec
  unfolding receive
  receive-spec no_answer e = refl
  receive-spec (bad_body t) e = refl
  receive-spec (replied t a) e = refl

  close_mine-runtime :
      (close : ℕ → Reply F (Unit {0})) (ps : List Position) (e : LiveEngine F)
      → (close_mine close ps e).1.0.runtime ≡ e.runtime
  unfolding close_mine
  close_mine-runtime close [] e = refl
  close_mine-runtime close (p ∷ ps) e =
      if_case (λ (r : List ℕ × (LiveEngine F × List (Action F))). r.1.0.runtime ≡ e.runtime)
        (p.magic == e.spec.magic) _ _
        (λ m.
          result_case (λ (r : List ℕ × (LiveEngine F × List (Action F))). r.1.0.runtime ≡ e.runtime)
            (receive (close p.ticket) e).0 _ _ (λ x r. receive-runtime (close p.ticket) e)
            (λ u r.
              close_mine-runtime close ps (receive (close p.ticket) e).1
              ∙ receive-runtime (close p.ticket) e))
        (λ m. close_mine-runtime close ps e)

  close_listed-runtime :
      (close : ℕ → Reply F (Unit {0})) (r : Result (List Position)) (e : LiveEngine F)
      → (close_listed close r e).1.0.runtime ≡ e.runtime
  unfolding close_listed
  close_listed-runtime close (err x) e = refl
  close_listed-runtime close (ok ps) e = close_mine-runtime close ps e

  -- The engine is marked as killed and its loop is told to end.
  abbrev pub IsDead : LiveEngine F → Type 0
  IsDead e = (e.runtime.status ≡ killed) × (e.stop_evt ≡ true)

  pub on_kill-IsDead :
      (in_loop : Bool) (ans : KillAnswers F) (e : LiveEngine F) → IsDead (on_kill in_loop ans e).1.0
  unfolding on_kill
  on_kill-IsDead in_loop ans e =
      let r = receive ans.positions (with_status killed e) in
      let q : (close_listed ans.close r.0 r.1).1.0.runtime.status ≡ killed =
        ap (λ (t : EngineRuntime F). t.status)
          (close_listed-runtime ans.close r.0 r.1
            ∙ receive-runtime ans.positions (with_status killed e)) in
      if_case (λ (r : Result (List ℕ) × (LiveEngine F × List (Action F))). IsDead r.1.0) in_loop _ _
        (λ b. (q, refl)) (λ b. (q, refl))

  obey-IsDead :
      (v : Verdict) (ans : RoundAnswers F) (l : LoopState F)
      → v ≡ kill
      → IsDead (obey v ans l).0.engine
  unfolding obey kill_from_breaker on_kill
  obey-IsDead ok_verdict ans l h = cc
  obey-IsDead halt ans l h = cc
  obey-IsDead kill ans l h = on_kill-IsDead true ans.killing l.engine

  -- A kill from outside, or a round of a live loop whose verdict is KILL.
  abbrev pub Kills : Call F → LoopState F → Type 0
  Kills (kill_call ans) l = Unit
  Kills (next_round ans) l =
      (l.engine.has_thread ≡ true)
      × (l.engine.stop_evt ≡ false)
      × ((judged ans l.engine).0.0 ≡ kill)
  Kills _ l = ⊥

  pub round-IsDead :
      (ans : RoundAnswers F) (l : LoopState F)
      → (judged ans l.engine).0.0 ≡ kill
      → IsDead (round ans l).0.engine
  unfolding round tick_heartbeat
  round-IsDead ans l h =
      if_case (λ (b : LiveEngine F × List (Action F)). IsDead (after_beat ans l b).0.engine)
        (is_due ans.heartbeat_at l.engine.runtime.last_heartbeat_at) _ _
        (λ d. obey-IsDead _ ans _ h) (λ d. obey-IsDead _ ans _ h)

  step-IsDead : (c : Call F) (l : LoopState F) → Kills c l → IsDead (step c l).0.engine
  unfolding step
  step-IsDead (kill_call ans) l k = on_kill-IsDead false ans l.engine
  step-IsDead (next_round ans) l k =
      if_case (λ (r : LoopState F × List (Action F)). IsDead r.0.engine)
        (l.engine.has_thread && not l.engine.stop_evt) _ _ (λ b. round-IsDead ans l k.2)
        (λ b. ground arith)
  step-IsDead (start ans) l k = elim k [ ]
  step-IsDead stop l k = elim k [ ]

  start-IsDead : (ans : StartAnswers F) (e : LiveEngine F) → IsDead e → (on_start ans e).1 ≡ (e, [])
  unfolding on_start
  start-IsDead ans e d =
      if_case (λ (r : StartResult × (LiveEngine F × List (Action F))). r.1 ≡ (e, []))
        (can_start e.runtime.status) _ _ (λ c. elim (dead_cannot_start e.runtime.status d.0 c) [ ])
        (λ c. refl)

  step-stays :
      (c : Call F) (l : LoopState F)
      → NotStop c
      → IsDead l.engine
      → IsDead (step c l).0.engine × All (OnOrder (λ p. ⊥)) (step c l).1
  unfolding step
  step-stays (start ans) l n d =
      subst (λ (r : LiveEngine F × List (Action F)). IsDead r.0 × All (OnOrder (λ p. ⊥)) r.1)
        (sym (start-IsDead ans l.engine d)) (d, tt)
  step-stays stop l n d = elim n [ ]
  step-stays (kill_call ans) l n d =
      (on_kill-IsDead false ans l.engine, on_kill-All (λ p. ⊥) false ans l.engine)
  step-stays (next_round ans) l n d =
      if_case
        (λ (r : LoopState F × List (Action F)). IsDead r.0.engine × All (OnOrder (λ p. ⊥)) r.1)
        (l.engine.has_thread && not l.engine.stop_evt) _ _ (λ b. ground arith) (λ b. (d, tt))

  run-stays :
      (cs : List (Call F)) (l : LoopState F)
      → All NotStop cs
      → IsDead l.engine
      → All (OnOrder (λ p. ⊥)) (run cs l).1
  unfolding run
  run-stays [] l n d = tt
  run-stays (c ∷ cs) l n d =
      let s = step-stays c l n.0 d in
      All-append (OnOrder (λ p. ⊥)) (step c l).1 _ s.1 (run-stays cs (step c l).0 n.1 s.0)

  -- Once an engine is killed, from outside or by a KILL verdict in a round of its live loop, it
  -- posts no order, whatever calls follow, starts included, as long as none is a stop.
  pub killed_never_orders :
      (c : Call F) (l : LoopState F) (cs : List (Call F))
      → Kills c l
      → All NotStop cs
      → All (OnOrder (λ p. ⊥)) (run cs (step c l).0).1
  killed_never_orders c l cs k n = run-stays cs (step c l).0 n (step-IsDead c l k)
