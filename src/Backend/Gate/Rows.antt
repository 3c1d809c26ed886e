-- ===== src/Backend/Gate/Rows.antt =====
-- backend/app/services/live_gate_service.py: the columns that the gate reads, and its answers.
use forex_bot.Common.{ℕ, Bool, Option, List}
use forex_bot.Common.Int.{ℤ}
use forex_bot.Common.Text.{Text}
use forex_bot.Backend.Subscription.{Subscription}

pub record User : Type 0 where
  pub id : ℕ
  pub email_verified_at : Option ℕ
  pub totp_secret : Option Text

pub record Strategy : Type 0 where
  pub id : ℕ
  pub code : Text
  pub asset_class : Text
  pub requires_external_service : Bool

pub record StrategyInstance : Type 0 where
  pub id : ℕ
  pub user_id : ℕ
  pub strategy_id : ℕ
  pub broker_account_id : ℕ
  pub status : Text
  pub started_at : Option ℕ
  pub created_at : Option ℕ
  pub stopped_at : Option ℕ
  pub deleted_at : Option ℕ

pub record BrokerAccount : Type 0 where
  pub id : ℕ
  pub user_id : ℕ
  pub balance_cached_cents : Option ℤ
  pub deleted_at : Option ℕ

pub record Backtest : Type 0 where
  pub user_id : ℕ
  pub strategy_id : ℕ
  pub status : Text
  pub profit_factor : Option ℤ
  pub max_drawdown_pct : Option ℤ

pub record LiveConsent : Type 0 where
  pub user_id : ℕ
  pub strategy_code : Text
  pub risk_acknowledged : Bool

-- `trades` holds the instance of each trade.
pub record Database : Type 0 where
  pub instances : List StrategyInstance
  pub strategies : List Strategy
  pub brokers : List BrokerAccount
  pub subscriptions : List Subscription
  pub backtests : List Backtest
  pub trades : List ℕ
  pub consents : List LiveConsent

pub record Settings : Type 0 where
  pub live_min_profit_factor : ℤ
  pub live_max_drawdown_pct : ℤ
  pub live_min_paper_days : ℕ
  pub live_min_paper_trades : ℕ
  pub live_min_account_size_crypto_cents : ℤ
  pub live_min_account_size_forex_cents : ℤ

-- The names of the checks; `external_service_status` stands for external_service_healthy.
pub data CheckName : Type 0 where
  email_verified totp_enabled active_paid_subscription qualifying_backtest : CheckName
  paper_track_record live_consent_signed broker_min_balance kill_switch_clear : CheckName
  external_service_status : CheckName

pub record GateCheck : Type 0 where
  pub name : CheckName
  pub passed : Bool

pub record GateResult : Type 0 where
  pub passed : Bool
  pub failed_checks : List GateCheck
  pub checks : List GateCheck

pub data GateError : Type 0 where
  strategy_instance_not_found strategy_not_found : GateError

pub data GateAnswer : Type 0 where
  not_found : GateError → GateAnswer
  decided : GateResult → GateAnswer
