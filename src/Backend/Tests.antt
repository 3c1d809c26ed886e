-- ===== src/Backend/Tests.antt =====
-- backend/app/services: a user who may go live, and the guard at concrete rows.
use forex_bot.Common.{◌≡◌, ◌*◌, refl, inl, inr, Bool, true, false, none, some, [], ◌∷◌, arith}
use forex_bot.Common.Int.{pos}
use forex_bot.Common.Text.{codes, text_beq}
use forex_bot.Common.Result.{err, value_error}
use forex_bot.Backend.Subscription.{
  Subscription, latest, is_active, is_paid, is_paid_user, in_statuses, in_paid_plans,
  require_active_subscription, guard_iff,
}
use forex_bot.Backend.Gate.{
  day, find, count, can_go_live, run_checks, failed, has_qualifying_backtest,
  has_paper_track_record, has_live_consent, check_broker_balance, global_kill_switch_clear,
  external_service_healthy,
}
use forex_bot.Backend.Gate.Rows.{
  User, Strategy, StrategyInstance, Database, Settings, GateAnswer, not_found, decided,
}

abbrev monthly : Subscription
monthly = record {
  user_id = 1;
  plan = codes "pro_monthly";
  status = codes "active";
  current_period_end = some (40 * day);
  created_at = 5;
}

-- An older row that has ended.
abbrev trial : Subscription
trial = record {
  user_id = 1;
  plan = codes "trial";
  status = codes "canceled";
  current_period_end = some 3;
  created_at = 2;
}

abbrev user : User
user = record { id = 1; email_verified_at = some 1; totp_secret = some (codes "secret") }

abbrev tv_signal : Strategy
tv_signal = record {
  id = 3;
  code = codes "tv_signal";
  asset_class = codes "gold";
  requires_external_service = true;
}

abbrev instance_9 : StrategyInstance
instance_9 = record {
  id = 9;
  user_id = 1;
  strategy_id = 3;
  broker_account_id = 4;
  status = codes "running";
  started_at = some (2 * day);
  created_at = some day;
  stopped_at = none;
  deleted_at = none;
}

abbrev db : Database
db = record {
  instances = instance_9 ∷ [];
  strategies = tv_signal ∷ [];
  brokers =
      record { id = 4; user_id = 1; balance_cached_cents = some (pos 50000); deleted_at = none }
      ∷ [];
  subscriptions = trial ∷ monthly ∷ [];
  backtests =
      record {
        user_id = 1;
        strategy_id = 3;
        status = codes "completed";
        profit_factor = some (pos 1400);
        max_drawdown_pct = some (pos 12_000);
      }
      ∷ [];
  trades = 9 ∷ 8 ∷ 9 ∷ [];
  consents =
      record { user_id = 1; strategy_code = codes "tv_signal"; risk_acknowledged = true } ∷ [];
}

abbrev settings : Settings
settings = record {
  live_min_profit_factor = pos 1300;
  live_max_drawdown_pct = pos 25_000;
  live_min_paper_days = 14;
  live_min_paper_trades = 2;
  live_min_account_size_crypto_cents = pos 20_000;
  live_min_account_size_forex_cents = pos 50_000;
}

abbrev is_let : GateAnswer → Bool
is_let (not_found e) = false
is_let (decided r) = r.passed

guard_iff_example : require_active_subscription true (20 * day) (trial ∷ monthly ∷ []) 1 ≡ true
unfolding latest
guard_iff_example = (guard_iff true (20 * day) (trial ∷ monthly ∷ []) 1).1 (
  monthly,
  refl,
  (inr (inl refl), refl, (inr (omega arith), (inr (omega arith), tt))),
  (inl refl, inr (omega arith)),
  inr (inl refl),
)

-- Without an answer of the probe the gate stays shut.
probe_raises : is_let (can_go_live db settings (20 * day) (err value_error) 9 user) ≡ false
unfolding can_go_live run_checks failed latest find count text_beq has_qualifying_backtest
    has_paper_track_record has_live_consent check_broker_balance global_kill_switch_clear
    external_service_healthy is_paid_user is_paid is_active in_statuses in_paid_plans
probe_raises = refl
