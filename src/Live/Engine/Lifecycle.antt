-- ===== src/Live/Engine/Lifecycle.antt =====
-- trading-engine/live/engine.py: `on_start`, `on_stop` and `on_kill`.
use forex_bot.Common.{ℕ, ◌==◌, Bool, true, false, some, List, [], ◌∷◌, ◌++◌, if◌then◌else◌}
use forex_bot.Common.Float.{Float, lit, max}
use forex_bot.Common.Result.{PyError, runtime_error, Result, ok, err}
use forex_bot.Live.Engine.Types.{
  EngineStatus, idle, starting, running, killed, stopped, LiveEngine, Reply, Account, Action,
  post_connect, post_close, emit_health, with_status, receive, equity_of,
}

pub record StartAnswers (F : Type 0) : Type 0 where
  pub connect : Reply F (Unit {0})
  pub account : Reply F (Account F)
  pub started_at : F

pub record Position : Type 0 where
  pub magic : ℕ
  pub ticket : ℕ

pub record KillAnswers (F : Type 0) : Type 0 where
  pub positions : Reply F (List Position)
  pub close : ℕ → Reply F (Unit {0})

pub data StartResult : Type 0 where
  already : EngineStatus → StartResult
  start_failed : PyError → StartResult
  started : StartResult

-- The engine was never started, or it was stopped.
unfoldable pub can_start : EngineStatus → Bool
can_start idle = true
can_start stopped = true
can_start _ = false

module _ {F : Type 0} ⦃f : Float F⦄ where
  -- Both managers are seeded with the equity that the broker reports.
  abbrev pub seeded : F → LiveEngine F → LiveEngine F
  seeded equity e = record e {
    risk = record e.risk {
      state = record e.risk.state {
        equity = equity;
        peak_equity = max e.risk.state.peak_equity equity;
      };
    };
    breaker = record e.breaker {
      state = record e.breaker.state {
        current_equity = equity;
        peak_equity = max e.breaker.state.peak_equity equity;
        start_of_day_equity = equity;
      };
    };
  }

  abbrev pub seed : Result (Account F) → LiveEngine F → LiveEngine F
  seed (err _) e = e
  seed (ok acct) e = seeded (equity_of acct (lit 10000 0)) e

  -- `_connect_bridge`: only the connection can fail, the account is optional.
  unfoldable pub connect_bridge : StartAnswers F → LiveEngine F → Result (Unit {0}) × LiveEngine F
  connect_bridge ans e =
      let (r, e1) = receive ans.connect e in
      elim r [
        | err x ↦ (err x, e1)
        | ok _ ↦ let (acct, e2) = receive ans.account e1 in (ok tt, seed acct e2)
      ]

  abbrev pub fail_start : PyError → LiveEngine F → LiveEngine F
  fail_start x e = record e { runtime = record e.runtime { status = stopped; last_error = some x } }

  abbrev pub launch : F → LiveEngine F → LiveEngine F
  launch now e = record e {
    runtime = record e.runtime { status = running; started_at = some now };
    stop_evt = false;
    has_thread = true;
  }

  unfoldable pub on_start :
      StartAnswers F → LiveEngine F → StartResult × (LiveEngine F × List (Action F))
  on_start ans e =
      let (r, e1) = connect_bridge ans (with_status starting e) in
      if can_start e.runtime.status
      then elim r [
        | err x ↦ (start_failed x, (fail_start x e1, post_connect ∷ []))
        | ok _ ↦ (started, (launch ans.started_at e1, post_connect ∷ emit_health running ∷ []))
      ]
      else (already e.runtime.status, (e, []))

  -- The thread is joined: a round that is under way ends first.
  unfoldable pub on_stop : LiveEngine F → LiveEngine F × List (Action F)
  on_stop e = (with_status stopped (record e { stop_evt = true }), emit_health stopped ∷ [])

  -- The positions with the engine's magic are closed one by one, up to the first exception; it
  -- gives the tickets that were closed.
  unfoldable pub close_mine :
      (ℕ → Reply F (Unit {0}))
      → List Position
      → LiveEngine F
      → List ℕ × (LiveEngine F × List (Action F))
  close_mine close [] e = ([], (e, []))
  close_mine close (p ∷ ps) e =
      let other = close_mine close ps e in
      let (r, e1) = receive (close p.ticket) e in
      let (closed, (e2, acts)) = close_mine close ps e1 in
      if p.magic == e.spec.magic
      then elim r [
        | err _ ↦ ([], (e1, post_close p.ticket ∷ []))
        | ok _ ↦ (p.ticket ∷ closed, (e2, post_close p.ticket ∷ acts))
      ]
      else other

  unfoldable pub close_listed :
      (ℕ → Reply F (Unit {0}))
      → Result (List Position)
      → LiveEngine F
      → List ℕ × (LiveEngine F × List (Action F))
  close_listed close (err _) e = ([], (e, []))
  close_listed close (ok ps) e = close_mine close ps e

  -- In the loop's own thread `join` raises, since a thread cannot join itself; the report is then
  -- never sent.
  unfoldable pub on_kill :
      Bool → KillAnswers F → LiveEngine F → Result (List ℕ) × (LiveEngine F × List (Action F))
  on_kill in_loop ans e =
      let (r, e1) = receive ans.positions (with_status killed e) in
      let (closed, (e2, acts)) = close_listed ans.close r e1 in
      let e3 = record e2 { stop_evt = true } in
      if in_loop
      then (err runtime_error, (e3, acts))
      else (ok closed, (e3, acts ++ emit_health killed ∷ []))
