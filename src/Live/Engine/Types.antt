-- ===== src/Live/Engine/Types.antt =====
-- trading-engine/live/engine.py: the state of an engine, what the bridge answers, and what the
-- engine sends. A request of the bridge is a `Reply`: what came back, with the time that
-- `on_broker_ok` reads.
use forex_bot.Common.{ℕ, Bool, false, Option, none, some}
use forex_bot.Common.Int.{ℤ}
use forex_bot.Common.Text.{Text}
use forex_bot.Common.Float.{Float, lit}
use forex_bot.Common.Result.{PyError, http_error, value_error, Result, ok, err}
use forex_bot.Risk.Manager.{RiskLimits, RiskManager}
use forex_bot.Risk.Manager as Manager
use forex_bot.Live.Breaker.{BreakerLimits, CircuitBreaker, on_broker_ok}
use forex_bot.Live.Breaker as Breaker

pub data EngineStatus : Type 0 where
  idle starting running halted killed stopped : EngineStatus

-- The fields that decide what the engine does; the addresses, the login and the parameters of the
-- strategy are left out.
pub record EngineSpec (F : Type 0) : Type 0 where
  pub symbol : Text
  pub timeframe : Text
  pub magic : ℕ
  pub risk_limits : RiskLimits F
  pub breaker_limits : BreakerLimits F
  pub lot_step : F
  pub min_lot : F
  pub pip_value_per_unit : F

pub record EngineRuntime (F : Type 0) : Type 0 where
  pub status : EngineStatus
  pub started_at : Option F
  pub last_signal_at : Option F
  pub last_fill_at : Option F
  pub last_heartbeat_at : Option F
  pub open_position_ticket : Option ℕ
  pub signals_today : ℕ
  pub fills_today : ℕ
  pub last_error : Option PyError

-- `stop_evt` is the event's flag, `has_thread` whether a thread was ever started.
pub record LiveEngine (F : Type 0) : Type 0 where
  pub spec : EngineSpec F
  pub runtime : EngineRuntime F
  pub risk : RiskManager F
  pub breaker : CircuitBreaker F
  pub stop_evt : Bool
  pub has_thread : Bool

-- The request or its status raises, the body is no JSON, or it is read.
pub data Reply (F A : Type 0) : Type 0 where
  no_answer : Reply F A
  bad_body : F → Reply F A
  replied : F → A → Reply F A

pub record Account (F : Type 0) : Type 0 where
  pub equity : Option F
  pub balance : Option F

pub record OrderPayload (F : Type 0) : Type 0 where
  pub symbol : Text
  pub is_buy : Bool
  pub lot : F
  pub sl : F
  pub tp : F
  pub magic : ℕ
  pub reference_price : F

-- What the engine sends: to the bridge by POST, or to the backend.
pub data Action (F : Type 0) : Type 0 where
  post_connect : Action F
  post_order : OrderPayload F → Action F
  post_close : ℕ → Action F
  emit_health : EngineStatus → Action F
  emit_signal : ℤ → F → F → F → Action F
  emit_trade : ℕ → F → F → Action F

module _ {F : Type 0} ⦃f : Float F⦄ where
  -- `LiveEngine.__init__`, at the given time and date.
  unfoldable pub init : EngineSpec F → F → ℕ → LiveEngine F
  unfolding Manager.init Breaker.init
  init spec now today = record {
    spec = spec;
    runtime = record {
      status = idle;
      started_at = none;
      last_signal_at = none;
      last_fill_at = none;
      last_heartbeat_at = none;
      open_position_ticket = none;
      signals_today = 0;
      fills_today = 0;
      last_error = none;
    };
    risk = Manager.init spec.risk_limits (lit 10000 0) today;
    breaker = Breaker.init spec.breaker_limits (lit 10000 0) now today;
    stop_evt = false;
    has_thread = false;
  }

  abbrev pub with_status : EngineStatus → LiveEngine F → LiveEngine F
  with_status s e = record e { runtime = record e.runtime { status = s } }

  abbrev pub broker_ok : F → LiveEngine F → LiveEngine F
  broker_ok now e = record e { breaker = on_broker_ok now e.breaker }

  -- `_bridge_get` and `_bridge_post`: a good status is noted by the breaker before the body is read.
  unfoldable pub receive : {A : Type 0} → Reply F A → LiveEngine F → Result A × LiveEngine F
  receive no_answer e = (err http_error, e)
  receive (bad_body now) e = (err value_error, broker_ok now e)
  receive (replied now a) e = (ok a, broker_ok now e)

  -- `acct.get("equity", acct.get("balance", default))`
  abbrev pub equity_of : Account F → F → F
  equity_of acct default = elim acct.equity [
    | some x ↦ x
    | none ↦ elim acct.balance [ some x ↦ x | none ↦ default ]
  ]
