-- ===== src/Backend/Gate.antt =====
-- backend/app/services/live_gate_service.py: the checks before an instance may go live. The tables
-- are lists of rows, a query is a pass over its table; amounts are numbers of the column's smallest
-- unit, times numbers of microseconds. `now` is read once. The texts of the details are left out.
pub mod Rows
pub mod Conditions
pub mod Passes
use forex_bot.Common.{
  ℕ, ◌+◌, ◌-◌, ◌*◌, ◌/◌, Bool, true, false, not, ◌&&◌, ◌||◌, Option, none, some, List, [], ◌∷◌,
  ◌++◌, ltb, leb, ◌==◌, length, if◌then◌else◌,
}
use forex_bot.Common.Int.{ℤ, ltb_ℤ}
use forex_bot.Common.Text.{Text, codes, text_beq}
use forex_bot.Common.Result.{Result, ok, err}
use forex_bot.Backend.Subscription.{Subscription, is_paid_user}
use forex_bot.Backend.Gate.Rows.{
  User, Strategy, StrategyInstance, BrokerAccount, Backtest, LiveConsent, Database, Settings,
  CheckName, GateCheck, GateResult, GateError, GateAnswer, email_verified, totp_enabled,
  active_paid_subscription, qualifying_backtest, paper_track_record, live_consent_signed,
  broker_min_balance, kill_switch_clear, external_service_status, strategy_instance_not_found,
  strategy_not_found, not_found, decided,
}

-- The first row that meets a condition, as `scalar_one_or_none` on a key.
unfoldable pub find : {A : Type 0} → (A → Bool) → List A → Option A
find p [] = none
find p (x ∷ xs) = let rest = find p xs in if p x then some x else rest

-- `count(*)` of the rows that meet a condition.
unfoldable pub count : {A : Type 0} → (A → Bool) → List A → ℕ
count p [] = 0
count p (x ∷ xs) = let rest = count p xs in if p x then rest + 1 else rest

abbrev pub is_some : {A : Type 0} → Option A → Bool
is_some none = false
is_some (some x) = true

abbrev pub is_none : {A : Type 0} → Option A → Bool
is_none o = not (is_some o)

-- A test of a column that is not null.
abbrev pub holds : {A : Type 0} → (A → Bool) → Option A → Bool
holds p none = false
holds p (some x) = p x

abbrev pub day : ℕ
day = 86_400_000_000

abbrev pub qualifies : Settings → ℕ → ℕ → Backtest → Bool
qualifies set user_id strategy_id b =
    b.user_id == user_id
    && (b.strategy_id == strategy_id
        && (text_beq b.status (codes "completed")
            && (holds (ltb_ℤ set.live_min_profit_factor) b.profit_factor
                && holds (λ d. ltb_ℤ d set.live_max_drawdown_pct) b.max_drawdown_pct)))

unfoldable pub has_qualifying_backtest : Database → Settings → ℕ → ℕ → Bool
has_qualifying_backtest db set user_id strategy_id =
    not (count (qualifies set user_id strategy_id) db.backtests == 0)

-- `instance.started_at or instance.created_at`
abbrev pub or_else : Option ℕ → Option ℕ → Option ℕ
or_else none o = o
or_else (some x) o = some x

-- `(now - started).days`, of a start that is not in the future; else it is negative and too short.
abbrev pub long_enough : Settings → ℕ → ℕ → Bool
long_enough set now started = leb started now && leb set.live_min_paper_days ((now - started) / day)

unfoldable pub has_paper_track_record : Database → Settings → ℕ → StrategyInstance → Bool
has_paper_track_record db set now i = elim (or_else i.started_at i.created_at) [
  | none ↦ false
  | some started ↦
      if not (long_enough set now started)
      then false
      else leb set.live_min_paper_trades (count (λ t. t == i.id) db.trades)
]

unfoldable pub has_live_consent : Database → ℕ → Text → Bool
has_live_consent db user_id strategy_code = ltb 0 (
    count
      (λ (c : LiveConsent).
        c.user_id == user_id && (text_beq c.strategy_code strategy_code && c.risk_acknowledged))
      db.consents)

abbrev pub min_cents : Settings → Text → ℤ
min_cents set asset_class =
    if text_beq asset_class (codes "btc")
    then set.live_min_account_size_crypto_cents
    else set.live_min_account_size_forex_cents

unfoldable pub check_broker_balance : Settings → Option BrokerAccount → Text → Bool
check_broker_balance set none asset_class = false
check_broker_balance set (some broker) asset_class = elim broker.balance_cached_cents [
  | none ↦ false
  | some cents ↦ not (ltb_ℤ cents (min_cents set asset_class))
]

-- Killed at most 24 hours ago.
abbrev pub killed_since : ℕ → ℕ → StrategyInstance → Bool
killed_since now user_id i =
    i.user_id == user_id
    && (text_beq i.status (codes "killed") && holds (λ t. leb now (t + day)) i.stopped_at)

unfoldable pub global_kill_switch_clear : Database → ℕ → ℕ → Bool
global_kill_switch_clear db now user_id =
    not (ltb 0 (count (killed_since now user_id) db.instances))

-- `probe` is what `is_healthy_for_gate` of the TradingView service answers, or its exception. A
-- strategy without a known probe passes.
unfoldable pub external_service_healthy : Result Bool → Text → Bool
external_service_healthy probe strategy_code =
    if text_beq strategy_code (codes "tv_signal")
    then elim probe [ err _ ↦ false | ok healthy ↦ healthy ]
    else true

abbrev pub external_check : Result Bool → Strategy → List GateCheck
external_check probe strategy =
    if strategy.requires_external_service
    then record {
      name = external_service_status;
      passed = external_service_healthy probe strategy.code;
    }
      ∷ []
    else []

unfoldable pub run_checks :
    Database
    → Settings
    → ℕ
    → Result Bool
    → User
    → StrategyInstance
    → Strategy
    → Option BrokerAccount
    → List GateCheck
run_checks db set now probe user instance_ strategy broker =
    record { name = email_verified; passed = is_some user.email_verified_at }
    ∷ record { name = totp_enabled; passed = is_some user.totp_secret }
    ∷ record { name = active_paid_subscription; passed = is_paid_user now db.subscriptions user.id }
    ∷ record {
      name = qualifying_backtest;
      passed = has_qualifying_backtest db set user.id strategy.id;
    }
    ∷ record { name = paper_track_record; passed = has_paper_track_record db set now instance_ }
    ∷ record { name = live_consent_signed; passed = has_live_consent db user.id strategy.code }
    ∷ record {
      name = broker_min_balance;
      passed = check_broker_balance set broker strategy.asset_class;
    }
    ∷ record { name = kill_switch_clear; passed = global_kill_switch_clear db now user.id }
    ∷ external_check probe strategy

-- `[c for c in checks if not c.passed]`
unfoldable pub failed : List GateCheck → List GateCheck
failed [] = []
failed (c ∷ cs) = let rest = failed cs in if not c.passed then c ∷ rest else rest

abbrev pub gate_result : List GateCheck → GateResult
gate_result checks = record {
  passed = length (failed checks) == 0;
  failed_checks = failed checks;
  checks = checks;
}

abbrev pub owns : ℕ → User → StrategyInstance → Bool
owns instance_id user i = i.id == instance_id && (i.user_id == user.id && is_none i.deleted_at)

abbrev pub broker_of : Database → StrategyInstance → Option BrokerAccount
broker_of db i =
    find (λ (b : BrokerAccount). b.id == i.broker_account_id && is_none b.deleted_at) db.brokers

unfoldable pub can_go_live : Database → Settings → ℕ → Result Bool → ℕ → User → GateAnswer
can_go_live db set now probe instance_id user = elim (find (owns instance_id user) db.instances) [
  | none ↦ not_found strategy_instance_not_found
  | some i ↦ elim (find (λ (s : Strategy). s.id == i.strategy_id) db.strategies) [
    | none ↦ not_found strategy_not_found
    | some s ↦ decided (gate_result (run_checks db set now probe user i s (broker_of db i)))
  ]
]
