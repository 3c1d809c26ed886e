-- ===== src/Live/Engine/Round.antt =====
-- trading-engine/live/engine.py: one round of `_loop`, and the calls of an engine in the order in
-- which they take effect. A round ends before a call from outside takes effect, as `join` waits for
-- it; that a join gives up after five seconds is not modelled.
use forex_bot.Common.{
  ℕ, Bool, true, false, not, ◌&&◌, Option, none, some, List, [], ◌∷◌, ◌++◌, if◌then◌else◌,
}
use forex_bot.Common.Text.{Text, codes, text_eq, upper}
use forex_bot.Common.Dict.{Dict, lookup}
use forex_bot.Common.Float.{Float, sub, mul, floordiv, lt, lit, nought}
use forex_bot.Common.Result.{Result, ok, err}
use forex_bot.Risk.Manager.{on_equity_update}
use forex_bot.Live.Breaker.{
  Verdict, ok_verdict, halt, kill, BreakReason, CircuitBreaker, verdict, on_equity,
}
use forex_bot.Live.Engine.Types.{
  running, halted, EngineStatus, LiveEngine, Reply, Account, Action, emit_health, with_status,
  receive, equity_of,
}
use forex_bot.Live.Engine.Bar.{BarAnswers, on_new_bar}
use forex_bot.Live.Engine.Lifecycle.{
  StartAnswers, StartResult, started, KillAnswers, on_start, on_stop, on_kill,
}

-- What the world answers in one round.
pub record RoundAnswers (F : Type 0) : Type 0 where
  pub heartbeat_at : F
  pub verdict_at : F
  pub today : ℕ
  pub now : F
  pub bar : BarAnswers F
  pub account : Reply F (Account F)
  pub killing : KillAnswers F

-- The engine, and `last_bar_ts` of its loop.
pub record LoopState (F : Type 0) : Type 0 where
  pub engine : LiveEngine F
  pub last_bar_ts : F

abbrev seconds : Dict Text ℕ
seconds =
    (codes "M1", 60)
    ∷ (codes "M5", 300)
    ∷ (codes "M15", 900)
    ∷ (codes "M30", 1800)
    ∷ (codes "H1", 3600)
    ∷ (codes "H4", 14_400)
    ∷ (codes "D1", 86_400)
    ∷ []

unfoldable pub timeframe_seconds : Text → ℕ
timeframe_seconds tf = elim (lookup (upper tf) seconds) [ some n ↦ n | none ↦ 900 ]

abbrev pub resume_status : EngineStatus → EngineStatus
resume_status halted = running
resume_status s = s

pub data Call (F : Type 0) : Type 0 where
  start : StartAnswers F → Call F
  stop : Call F
  kill_call : KillAnswers F → Call F
  next_round : RoundAnswers F → Call F

module _ {F : Type 0} ⦃f : Float F⦄ where
  -- The check of the interval and the new mark read the clock twice; one time stands for both.
  abbrev pub is_due : F → Option F → Bool
  is_due now none = true
  is_due now (some last) = lt (lit 30 0) (sub now last)

  unfoldable pub tick_heartbeat : F → LiveEngine F → LiveEngine F × List (Action F)
  tick_heartbeat now e =
      if is_due now e.runtime.last_heartbeat_at
      then (
        record e { runtime = record e.runtime { last_heartbeat_at = some now } },
        emit_health e.runtime.status ∷ [],
      )
      else (e, [])

  -- The risk manager comes first, and where it raises the breaker is not told.
  abbrev pub told : Result (Unit {0}) → F → CircuitBreaker F → CircuitBreaker F
  told (err _) equity b = b
  told (ok _) equity b = on_equity equity b

  abbrev pub note_account : Result (Account F) → LiveEngine F → LiveEngine F
  note_account (err _) e = e
  note_account (ok acct) e =
      let equity = equity_of acct nought in
      let (r, risk) = on_equity_update equity e.risk in
      record e { risk = risk; breaker = told r equity e.breaker }

  unfoldable pub refresh_positions_and_equity : Reply F (Account F) → LiveEngine F → LiveEngine F
  refresh_positions_and_equity account e = let (r, e1) = receive account e in note_account r e1

  abbrev pub resumed : LiveEngine F → LiveEngine F
  resumed e = with_status (resume_status e.runtime.status) e

  -- `(now // bar_secs) * bar_secs`
  abbrev pub bar_boundary : F → LiveEngine F → F
  bar_boundary now e =
      let bar_secs = lit (timeframe_seconds e.spec.timeframe) 0 in
      mul (floordiv now bar_secs) bar_secs

  -- The part of a round behind an OK verdict.
  unfoldable pub trade : RoundAnswers F → LoopState F → LoopState F × List (Action F)
  trade ans l =
      let e = resumed l.engine in
      let boundary = bar_boundary ans.now e in
      let (e1, acts) = on_new_bar ans.bar e in
      if lt l.last_bar_ts boundary
      then (
        record { engine = refresh_positions_and_equity ans.account e1; last_bar_ts = boundary },
        acts,
      )
      else (record l { engine = refresh_positions_and_equity ans.account e }, [])

  abbrev pub note_error : Result (List ℕ) → LiveEngine F → LiveEngine F
  note_error (err x) e = record e { runtime = record e.runtime { last_error = some x } }
  note_error (ok _) e = e

  -- `on_kill` raises in the loop's thread; the handler of the loop notes the error.
  unfoldable pub kill_from_breaker : KillAnswers F → LoopState F → LoopState F × List (Action F)
  kill_from_breaker ans l =
      let (r, (e, acts)) = on_kill true ans l.engine in (record l { engine = note_error r e }, acts)

  unfoldable pub obey : Verdict → RoundAnswers F → LoopState F → LoopState F × List (Action F)
  obey kill ans l = kill_from_breaker ans.killing l
  obey halt ans l = (record l { engine = with_status halted l.engine }, [])
  obey ok_verdict ans l = trade ans l

  abbrev pub judged : RoundAnswers F → LiveEngine F → (Verdict × BreakReason F) × CircuitBreaker F
  judged ans e = verdict ans.verdict_at ans.today e.breaker

  -- The rest of a round, after the heartbeat and what it sent.
  abbrev pub after_beat :
      RoundAnswers F → LoopState F → LiveEngine F × List (Action F) → LoopState F × List (Action F)
  after_beat ans l b =
      let e = b.0 in
      let (v, breaker) = judged ans e in
      let (l1, acts) = obey v.0 ans (record l { engine = record e { breaker = breaker } }) in
      (l1, b.1 ++ acts)

  unfoldable pub round : RoundAnswers F → LoopState F → LoopState F × List (Action F)
  round ans l = after_beat ans l (tick_heartbeat ans.heartbeat_at l.engine)

  -- A new thread runs a new loop, whose `last_bar_ts` is 0.
  abbrev pub bar_after : StartResult → F → F
  bar_after started ts = nought
  bar_after _ ts = ts

  unfoldable pub step : Call F → LoopState F → LoopState F × List (Action F)
  step (start ans) l =
      let (r, (e, acts)) = on_start ans l.engine in
      (record { engine = e; last_bar_ts = bar_after r l.last_bar_ts }, acts)
  step stop l = let (e, acts) = on_stop l.engine in (record l { engine = e }, acts)
  step (kill_call ans) l =
      let (r, (e, acts)) = on_kill false ans l.engine in (record l { engine = e }, acts)
  step (next_round ans) l =
      let (l1, acts) = round ans l in
      if l.engine.has_thread && not l.engine.stop_evt then (l1, acts) else (l, [])

  unfoldable pub run : List (Call F) → LoopState F → LoopState F × List (Action F)
  run [] l = (l, [])
  run (c ∷ cs) l = let (l1, acts) = step c l in let (l2, acts') = run cs l1 in (l2, acts ++ acts')
