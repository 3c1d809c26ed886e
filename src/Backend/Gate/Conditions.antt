-- ===== src/Backend/Gate/Conditions.antt =====
-- backend/app/services/live_gate_service.py: what each check of the gate asks for.
use forex_bot.Common.{
  ℕ, ◌+◌, ◌*◌, ◌≤◌, ◌≡◌, ◌≢◌, ◌↔◌, ◌⊎◌, Bool, true, false, not, ◌&&◌, Option, none, some, List, [],
  ◌∷◌, ltb, leb, ◌==◌, ==_iff, length, if◌then◌else◌, All, Any, Any-map, arith,
}
use forex_bot.Common.Int.{ℤ, ◌≤ℤ◌, ltb_ℤ}
use forex_bot.Common.Text.{Text, codes, text_beq, text_beq_iff}
use forex_bot.Common.Result.{Result, ok, err}
use forex_bot.Backend.Gate.{
  count, is_some, holds, day, qualifies, has_qualifying_backtest, or_else, long_enough,
  has_paper_track_record, has_live_consent, min_cents, check_broker_balance, killed_since,
  global_kill_switch_clear, external_service_healthy, external_check, failed,
}
use forex_bot.Backend.Gate.Rows.{
  Strategy, StrategyInstance, BrokerAccount, Backtest, LiveConsent, Database, Settings, GateCheck,
}

pub count-Any :
    {A : Type 0} (p : A → Bool) (xs : List A)
    → ((count p xs == 0) ≡ false) ↔ Any (λ x. p x ≡ true) xs
unfolding count
count-Any p [] = ground arith
count-Any p (x ∷ xs) = ground (arith, count-Any p xs)

pub count-All :
    {A : Type 0} (p : A → Bool) (xs : List A)
    → (ltb 0 (count p xs) ≡ false) ↔ All (λ x. p x ≡ false) xs
unfolding count
count-All p [] = ground arith
count-All p (x ∷ xs) = ground (arith, count-All p xs)

pub failed-All :
    (cs : List GateCheck)
    → ((length (failed cs) == 0) ≡ true) ↔ All (λ (c : GateCheck). c.passed ≡ true) cs
unfolding failed
failed-All [] = ground arith
failed-All (c ∷ cs) = ground (arith, failed-All cs)

abbrev pub IsGiven : {A : Type 0} → Option A → Type 0
IsGiven none = ⊥
IsGiven (some x) = Unit

pub is_some_iff : {A : Type 0} (o : Option A) → (is_some o ≡ true) ↔ IsGiven o
is_some_iff none = ground arith
is_some_iff (some x) = ground arith

abbrev pub AboveMin : Settings → Option ℤ → Type 0
AboveMin set none = ⊥
AboveMin set (some x) = ltb_ℤ set.live_min_profit_factor x ≡ true

abbrev pub BelowMax : Settings → Option ℤ → Type 0
BelowMax set none = ⊥
BelowMax set (some x) = ltb_ℤ x set.live_max_drawdown_pct ≡ true

-- A completed backtest of the user for the strategy, with both figures known and within bounds.
abbrev pub Qualifies : Settings → ℕ → ℕ → Backtest → Type 0
Qualifies set user_id strategy_id b =
    (b.user_id ≡ user_id)
    × (b.strategy_id ≡ strategy_id)
    × (b.status ≡ codes "completed")
    × AboveMin set b.profit_factor
    × BelowMax set b.max_drawdown_pct

pub above_iff :
    (set : Settings) (o : Option ℤ)
    → (holds (ltb_ℤ set.live_min_profit_factor) o ≡ true) ↔ AboveMin set o
above_iff set none = ground arith
above_iff set (some x) = ground arith

pub below_iff :
    (set : Settings) (o : Option ℤ)
    → (holds (λ d. ltb_ℤ d set.live_max_drawdown_pct) o ≡ true) ↔ BelowMax set o
below_iff set none = ground arith
below_iff set (some x) = ground arith

pub and_iff : (a b : Bool) → ((a && b) ≡ true) ↔ ((a ≡ true) × (b ≡ true))
and_iff a b = ground arith

pub qualifies_iff :
    (set : Settings) (user_id strategy_id : ℕ) (b : Backtest)
    → (qualifies set user_id strategy_id b ≡ true) ↔ Qualifies set user_id strategy_id b
qualifies_iff set user_id strategy_id b = ground (
  arith,
  ==_iff b.user_id user_id,
  ==_iff b.strategy_id strategy_id,
  text_beq_iff b.status (codes "completed"),
  above_iff set b.profit_factor,
  below_iff set b.max_drawdown_pct,
)

pub backtest_iff :
    (db : Database) (set : Settings) (user_id strategy_id : ℕ)
    → (has_qualifying_backtest db set user_id strategy_id ≡ true)
      ↔ Any (Qualifies set user_id strategy_id) db.backtests
unfolding has_qualifying_backtest
backtest_iff db set user_id strategy_id =
    let a = count-Any (qualifies set user_id strategy_id) db.backtests in
    let b = Any-map _ _ (qualifies_iff set user_id strategy_id) db.backtests in ground (arith, a, b)

-- A start that lies the minimum of days back, and the minimum of trades of the instance.
abbrev pub TrackRecord : Settings → ℕ → ℕ → Option ℕ → Type 0
TrackRecord set now trades none = ⊥
TrackRecord set now trades (some started) =
    (started + set.live_min_paper_days * day ≤ now) × (set.live_min_paper_trades ≤ trades)

pub long_enough_iff :
    (set : Settings) (now started : ℕ)
    → (long_enough set now started ≡ true) ↔ (started + set.live_min_paper_days * day ≤ now)
long_enough_iff set now started = ground arith

record_of : Settings → ℕ → ℕ → Option ℕ → Bool
record_of set now trades o = elim o [
  | none ↦ false
  | some started ↦
      if not (long_enough set now started) then false else leb set.live_min_paper_trades trades
]

record_of_iff :
    (set : Settings) (now trades : ℕ) (o : Option ℕ)
    → (record_of set now trades o ≡ true) ↔ TrackRecord set now trades o
unfolding record_of
record_of_iff set now trades none = ground arith
record_of_iff set now trades (some started) = ground (arith, long_enough_iff set now started)

pub paper_iff :
    (db : Database) (set : Settings) (now : ℕ) (i : StrategyInstance)
    → (has_paper_track_record db set now i ≡ true)
      ↔ TrackRecord set now (count (λ t. t == i.id) db.trades) (or_else i.started_at i.created_at)
unfolding has_paper_track_record record_of
paper_iff db set now i =
    record_of_iff set now (count (λ t. t == i.id) db.trades) (or_else i.started_at i.created_at)

abbrev pub Consents : ℕ → Text → LiveConsent → Type 0
Consents user_id code c =
    (c.user_id ≡ user_id) × (c.strategy_code ≡ code) × (c.risk_acknowledged ≡ true)

pub Consents-iff :
    (user_id : ℕ) (code : Text) (c : LiveConsent)
    → ((c.user_id == user_id && (text_beq c.strategy_code code && c.risk_acknowledged)) ≡ true)
      ↔ Consents user_id code c
Consents-iff user_id code c =
    ground (arith, ==_iff c.user_id user_id, text_beq_iff c.strategy_code code)

pub consent_iff :
    (db : Database) (user_id : ℕ) (code : Text)
    → (has_live_consent db user_id code ≡ true) ↔ Any (Consents user_id code) db.consents
unfolding has_live_consent
consent_iff db user_id code =
    let p = λ (c : LiveConsent).
      c.user_id == user_id && (text_beq c.strategy_code code && c.risk_acknowledged) in
    let a = count-Any p db.consents in
    let b = Any-map _ _ (Consents-iff user_id code) db.consents in ground (arith, a, b)

abbrev pub Covers : ℤ → Option ℤ → Type 0
Covers min none = ⊥
Covers min (some cents) = min ≤ℤ cents

-- A broker account with a known balance that is not below the minimum of the asset class.
abbrev pub Funded : Settings → Text → Option BrokerAccount → Type 0
Funded set asset_class none = ⊥
Funded set asset_class (some b) = Covers (min_cents set asset_class) b.balance_cached_cents

pub Covers-iff :
    (min : ℤ) (o : Option ℤ)
    → ((elim o [ none ↦ false | some cents ↦ not (ltb_ℤ cents min) ]) ≡ true) ↔ Covers min o
Covers-iff min none = ground arith
Covers-iff min (some cents) = ground arith

pub Funded-iff :
    (set : Settings) (o : Option BrokerAccount) (asset_class : Text)
    → (check_broker_balance set o asset_class ≡ true) ↔ Funded set asset_class o
unfolding check_broker_balance
Funded-iff set none asset_class = ground arith
Funded-iff set (some b) asset_class = Covers-iff (min_cents set asset_class) b.balance_cached_cents

pub kill_iff :
    (db : Database) (now user_id : ℕ)
    → (global_kill_switch_clear db now user_id ≡ true)
      ↔ All (λ i. killed_since now user_id i ≡ false) db.instances
unfolding global_kill_switch_clear
kill_iff db now user_id =
    let a = count-All (killed_since now user_id) db.instances in ground (arith, a)

-- The strategy needs no service, or has no known probe, or its probe answers that it is healthy.
abbrev pub Served : Result Bool → Strategy → Type 0
Served probe s =
    (s.requires_external_service ≡ false) ⊎ ((s.code ≢ codes "tv_signal") ⊎ (probe ≡ ok true))

pub probe_iff :
    (probe : Result Bool) → ((elim probe [ err _ ↦ false | ok h ↦ h ]) ≡ true) ↔ (probe ≡ ok true)
probe_iff (err e) = ground arith
probe_iff (ok h) = ground arith

pub Served-iff :
    (probe : Result Bool) (s : Strategy)
    → All (λ (c : GateCheck). c.passed ≡ true) (external_check probe s) ↔ Served probe s
unfolding external_service_healthy
Served-iff probe s = ground (arith, text_beq_iff s.code (codes "tv_signal"), probe_iff probe)
