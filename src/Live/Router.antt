-- ===== src/Live/Router.antt =====
-- trading-engine/live/router.py: the registry of engines by the id of their strategy instance. Its
-- lock makes each call one step.
mod Sound
pub mod Orphans
mod Tests
use forex_bot.Common.{ℕ, Bool, true, false, Option, none, some, List, [], ◌∷◌, if◌then◌else◌}
use forex_bot.Common.Text.{Text, text_eq}
use forex_bot.Common.Dict.{Dict, lookup, insert}
use forex_bot.Common.Float.{Float, nought}
use forex_bot.Live.Engine.Types.{
  EngineStatus, idle, starting, running, halted, killed, stopped, EngineSpec, LiveEngine, Action,
  init,
}
use forex_bot.Live.Engine.Lifecycle.{StartAnswers, StartResult, KillAnswers, on_start}
use forex_bot.Live.Engine.Round.{
  RoundAnswers, LoopState, Call, start, stop, kill_call, next_round, step,
}

-- `_REGISTRY`, each engine with the state of its loop.
abbrev pub Registry : Type 0 → Type 0
Registry F = Dict Text (LoopState F)

unfoldable pub is_live : EngineStatus → Bool
is_live running = true
is_live starting = true
is_live halted = true
is_live _ = false

-- What happens to the registry: the calls of the router, and the rounds of the loops.
pub data RouterCall (F : Type 0) : Type 0 where
  start_call : Text → EngineSpec F → F → ℕ → StartAnswers F → RouterCall F
  stop_call : Text → RouterCall F
  kill_engine : Text → KillAnswers F → RouterCall F
  loop_round : Text → RoundAnswers F → RouterCall F

module _ {F : Type 0} ⦃f : Float F⦄ where
  abbrev pub is_running : Option (LoopState F) → Bool
  is_running none = false
  is_running (some l) = is_live l.engine.runtime.status

  -- `start`: a new engine takes the place of one that is not live, and is kept even if it fails.
  abbrev pub begin : Text → EngineSpec F → F → ℕ → StartAnswers F → Registry F → Registry F
  begin id spec now today ans reg =
      let e = (on_start ans (init spec now today)).1.0 in
      insert id (record { engine = e; last_bar_ts = nought }) reg

  unfoldable pub start_engine :
      Text → EngineSpec F → F → ℕ → StartAnswers F → Registry F → Registry F
  start_engine id spec now today ans reg =
      if is_running (lookup id reg) then reg else begin id spec now today ans reg

  -- `stop` and `kill` of an engine that is found, and a round of its loop.
  abbrev pub at_engine : Text → Call F → Option (LoopState F) → Registry F → Registry F
  at_engine id c none reg = reg
  at_engine id c (some l) reg = insert id (step c l).0 reg

  unfoldable pub call_engine : Text → Call F → Registry F → Registry F
  call_engine id c reg = at_engine id c (lookup id reg) reg

  unfoldable pub route : RouterCall F → Registry F → Registry F
  route (start_call id spec now today ans) reg = start_engine id spec now today ans reg
  route (stop_call id) reg = call_engine id stop reg
  route (kill_engine id ans) reg = call_engine id (kill_call ans) reg
  route (loop_round id ans) reg = call_engine id (next_round ans) reg

  unfoldable pub route_all : List (RouterCall F) → Registry F → Registry F
  route_all [] reg = reg
  route_all (c ∷ cs) reg = route_all cs (route c reg)
