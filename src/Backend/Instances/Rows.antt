-- ===== src/Backend/Instances/Rows.antt =====
-- backend/app/services/strategy_service.py: the rows of strategy instances, the requests, and what
-- a call answers and sends.
use forex_bot.Common.{ℕ, Bool, Option, List}
use forex_bot.Common.Text.{Text}
use forex_bot.Common.Dict.{Dict}
use forex_bot.Common.Result.{Result}
use forex_bot.Backend.Gate.Rows.{StrategyInstance, Database, Settings, GateCheck, User}

-- A value of the JSON parameters, as far as the code looks into it; a text comes with the number
-- that `float` reads in it, where it reads one.
pub data Json (F : Type 0) : Type 0 where
  null : Json F
  number : F → Json F
  text : Text → Option F → Json F
  texts : List Text → Json F
  other : Json F

abbrev pub Params : Type 0 → Type 0
Params F = Dict Text (Json F)

-- `row` has the columns that the live gate reads.
pub record Instance (F : Type 0) : Type 0 where
  pub row : StrategyInstance
  pub label : Text
  pub params : Params F
  pub risk_percent : ℕ
  pub max_daily_loss_cents : ℕ
  pub kill_switch_armed : Bool
  pub live_started_at : Option ℕ

-- The tables; the instances of `others` are those of the rows.
pub record Tables (F : Type 0) : Type 0 where
  pub instances : List (Instance F)
  pub others : Database

pub data Mode : Type 0 where
  paper live : Mode

pub record CreateRequest (F : Type 0) : Type 0 where
  pub strategy_code : Text
  pub broker_account_id : ℕ
  pub label : Text
  pub params : Params F
  pub risk_percent : ℕ
  pub max_daily_loss_cents : ℕ
  pub mode : Mode

pub record UpdateRequest (F : Type 0) : Type 0 where
  pub label : Option Text
  pub params : Option (Params F)
  pub risk_percent : Option ℕ
  pub max_daily_loss_cents : Option ℕ

-- What the engine is sent: /live/start and /live/stop.
pub data Message (F : Type 0) : Type 0 where
  start_live : ℕ → ℕ → Params F → ℕ → ℕ → Message F
  stop_live : ℕ → Message F

-- What the engine answers to a post: nothing in time, or a status code.
pub data HttpAnswer : Type 0 where
  no_answer : HttpAnswer
  answered : ℕ → HttpAnswer

pub data ServiceError : Type 0 where
  strategy_missing broker_missing instance_missing invalid_params : ServiceError
  conflict locked oms_rejected database_fault : ServiceError
  gate_failed : List GateCheck → ServiceError

pub data Reply : Type 0 where
  done : Reply
  refused : ServiceError → Reply

-- What a call meets: the clock, whether the transaction commits, the engine's answer, the settings,
-- the health probe of the gate, and the primary key that a new row gets.
pub record Around : Type 0 where
  pub now : ℕ
  pub commits : Bool
  pub offline : Bool
  pub answer : HttpAnswer
  pub settings : Settings
  pub probe : Result Bool
  pub next_id : ℕ

pub data Call (F : Type 0) : Type 0 where
  create : ℕ → CreateRequest F → Call F
  update : ℕ → ℕ → UpdateRequest F → Call F
  go_live : User → ℕ → Call F
  revert_to_paper start stop kill : ℕ → ℕ → Call F
