-- ===== src/Live/Engine/Silent.antt =====
-- trading-engine/live/engine.py: a kill by the circuit breaker is carried out in the loop's own
-- thread, where `on_kill` raises before its report.
use forex_bot.Common.{ℕ, ◌==◌, ◌≡◌, ◌≢◌, refl, some, List, [], ◌∷◌, All}
use forex_bot.Common.Cases.{if_case, result_case}
use forex_bot.Common.Float.{Float}
use forex_bot.Common.Result.{runtime_error, Result, ok, err}
use forex_bot.Live.Breaker.{Verdict, ok_verdict, halt, kill}
use forex_bot.Live.Engine.Types.{
  EngineStatus, idle, starting, running, halted, killed, stopped, LiveEngine, Reply, Action,
  emit_health, receive,
}
use forex_bot.Live.Engine.Lifecycle.{Position, close_mine, close_listed, on_kill}
use forex_bot.Live.Engine.Round.{
  RoundAnswers, LoopState, after_beat, is_due, tick_heartbeat, kill_from_breaker, obey, judged,
  round,
}
use forex_bot.Live.Engine.Killed.{IsDead, round-IsDead}

-- Not a report to the backend that the engine is killed.
abbrev pub IsNoReport : {F : Type 0} → Action F → Type 0
IsNoReport (emit_health killed) = ⊥
IsNoReport _ = Unit

other_status : (F : Type 0) (s : EngineStatus) → s ≢ killed → IsNoReport {F = F} (emit_health s)
other_status F idle h = tt
other_status F starting h = tt
other_status F running h = tt
other_status F halted h = tt
other_status F killed h = h refl
other_status F stopped h = tt

module _ {F : Type 0} ⦃f : Float F⦄ where
  close_mine-IsNoReport :
      (close : ℕ → Reply F (Unit {0})) (ps : List Position) (e : LiveEngine F)
      → All IsNoReport (close_mine close ps e).1.1
  unfolding close_mine
  close_mine-IsNoReport close [] e = tt
  close_mine-IsNoReport close (p ∷ ps) e =
      if_case (λ (r : List ℕ × (LiveEngine F × List (Action F))). All IsNoReport r.1.1)
        (p.magic == e.spec.magic) _ _
        (λ m.
          result_case (λ (r : List ℕ × (LiveEngine F × List (Action F))). All IsNoReport r.1.1)
            (receive (close p.ticket) e).0 _ _ (λ x r. (tt, tt))
            (λ u r. (tt, close_mine-IsNoReport close ps _)))
        (λ m. close_mine-IsNoReport close ps e)

  close_listed-IsNoReport :
      (close : ℕ → Reply F (Unit {0})) (r : Result (List Position)) (e : LiveEngine F)
      → All IsNoReport (close_listed close r e).1.1
  unfolding close_listed
  close_listed-IsNoReport close (err x) e = tt
  close_listed-IsNoReport close (ok ps) e = close_mine-IsNoReport close ps e

  -- The actions report nothing, and the error of the join is what is left.
  abbrev IsSilent : LoopState F × List (Action F) → Type 0
  IsSilent r = All IsNoReport r.1 × (r.0.engine.runtime.last_error ≡ some runtime_error)

  obey-IsSilent :
      (v : Verdict) (ans : RoundAnswers F) (l : LoopState F) → v ≡ kill → IsSilent (obey v ans l)
  unfolding obey kill_from_breaker on_kill
  obey-IsSilent ok_verdict ans l h = cc
  obey-IsSilent halt ans l h = cc
  obey-IsSilent kill ans l h = (close_listed-IsNoReport ans.killing.close _ _, refl)

  round-IsSilent :
      (ans : RoundAnswers F) (l : LoopState F)
      → l.engine.runtime.status ≢ killed
      → (judged ans l.engine).0.0 ≡ kill
      → IsSilent (round ans l)
  unfolding round tick_heartbeat
  round-IsSilent ans l n h =
      if_case (λ (b : LiveEngine F × List (Action F)). IsSilent (after_beat ans l b))
        (is_due ans.heartbeat_at l.engine.runtime.last_heartbeat_at) _ _
        (λ d.
          let s = obey-IsSilent (judged ans l.engine).0.0 ans _ h in
          ((other_status F l.engine.runtime.status n, s.0), s.1))
        (λ d. obey-IsSilent (judged ans l.engine).0.0 ans _ h)

  -- A round whose verdict is KILL, of an engine that was not killed before, marks the engine as
  -- killed and ends its loop, but sends no report that it is killed: the only trace of the kill is
  -- the error of a thread that joins itself.
  pub loop_kill_is_silent :
      (ans : RoundAnswers F) (l : LoopState F)
      → l.engine.runtime.status ≢ killed
      → (judged ans l.engine).0.0 ≡ kill
      → IsDead (round ans l).0.engine
        × All IsNoReport (round ans l).1
        × ((round ans l).0.engine.runtime.last_error ≡ some runtime_error)
  loop_kill_is_silent ans l n h =
      let s = round-IsSilent ans l n h in (round-IsDead ans l h, s.0, s.1)
