-- ===== src/Live/Breaker.antt =====
-- trading-engine/live/circuit_breaker.py: the breakers that an engine asks before every entry.
-- `time.time()` and the date of today are parameters, the date as the number of the day.
pub mod Killed
pub mod Flags
pub mod Halted
pub mod Slippage
mod Tests
use forex_bot.Common.{
  ℕ, ◌/◌, Bool, true, false, not, ◌&&◌, Option, none, some, List, [], ◌∷◌, ◌++◌, leb, ◌==◌,
  if◌then◌else◌, length, get_elem?,
}
use forex_bot.Common.Float.{Float, add, sub, mul, div, neg, lt, le, lit, nought, is_zero, max}

pub data Verdict : Type 0 where
  ok_verdict halt kill : Verdict

pub record BreakerLimits (F : Type 0) : Type 0 where
  pub daily_loss_pct : F
  pub max_drawdown_pct : F
  pub disconnect_grace_sec : F
  pub slippage_alarm_x : F
  pub slippage_min_samples : ℕ

-- `last_reason`: the empty text, or what the text prints.
pub data BreakReason (F : Type 0) : Type 0 where
  no_reason : BreakReason F
  max_drawdown : F → BreakReason F
  daily_loss : F → BreakReason F
  broker_disconnect : F → BreakReason F
  slippage_anomaly : F → F → F → BreakReason F

pub record BreakerState (F : Type 0) : Type 0 where
  pub start_of_day_equity : F
  pub peak_equity : F
  pub realized_pnl_today : F
  pub current_equity : F
  pub last_broker_ok_at : F
  pub slippage_samples : List F
  pub slippage_baseline : Option F
  pub today_utc_date : ℕ
  pub killed : Bool
  pub halted : Bool
  pub last_reason : BreakReason F

pub record CircuitBreaker (F : Type 0) : Type 0 where
  pub limits : BreakerLimits F
  pub state : BreakerState F

module _ {F : Type 0} ⦃f : Float F⦄ where
  -- `CircuitBreaker.__init__` at the given time and date.
  unfoldable pub init : BreakerLimits F → F → F → ℕ → CircuitBreaker F
  init limits initial_equity now today = record {
    limits = limits;
    state = record {
      start_of_day_equity = initial_equity;
      peak_equity = initial_equity;
      realized_pnl_today = nought;
      current_equity = initial_equity;
      last_broker_ok_at = now;
      slippage_samples = [];
      slippage_baseline = none;
      today_utc_date = today;
      killed = false;
      halted = false;
      last_reason = no_reason;
    };
  }

  abbrev pub with_state : CircuitBreaker F → BreakerState F → CircuitBreaker F
  with_state b s = record b { state = s }

  unfoldable pub on_equity : F → CircuitBreaker F → CircuitBreaker F
  on_equity equity b =
      let s = b.state in
      with_state b (record s {
        current_equity = equity;
        peak_equity = if lt s.peak_equity equity then equity else s.peak_equity;
      })

  unfoldable pub roll_day : ℕ → BreakerState F → BreakerState F
  roll_day today s = if today == s.today_utc_date then s else record s {
    today_utc_date = today;
    realized_pnl_today = nought;
    start_of_day_equity = s.current_equity;
    halted = false;
  }

  unfoldable pub on_trade_closed : ℕ → F → CircuitBreaker F → CircuitBreaker F
  on_trade_closed today pnl b =
      let s = roll_day today b.state in
      with_state b (record s { realized_pnl_today = add s.realized_pnl_today pnl })

  unfoldable pub on_broker_ok : F → CircuitBreaker F → CircuitBreaker F
  on_broker_ok now b = with_state b (record b.state { last_broker_ok_at = now })

  -- `sorted` is stable and compares by `<`.
  unfoldable pub insert_sorted : F → List F → List F
  insert_sorted x [] = x ∷ []
  insert_sorted x (y ∷ ys) = if lt y x then y ∷ insert_sorted x ys else x ∷ y ∷ ys

  unfoldable pub sorted : List F → List F
  sorted [] = []
  sorted (x ∷ xs) = insert_sorted x (sorted xs)

  -- `sorted_s[len(sorted_s) // 2]`
  unfoldable pub median : List F → Option F
  median xs = let sorted_s = sorted xs in get_elem? sorted_s (length sorted_s / 2)

  abbrev pub set_baseline : BreakerLimits F → BreakerState F → BreakerState F
  set_baseline limits s = elim s.slippage_baseline [
    | some _ ↦ s
    | none ↦
        if leb limits.slippage_min_samples (length s.slippage_samples)
        then record s { slippage_baseline = median s.slippage_samples }
        else s
  ]

  unfoldable pub on_slippage_sample : F → CircuitBreaker F → CircuitBreaker F
  on_slippage_sample slippage_abs b = with_state b (
      set_baseline b.limits
        (record b.state { slippage_samples = b.state.slippage_samples ++ slippage_abs ∷ [] }))

  abbrev pub halting : BreakReason F → BreakerState F → (Verdict × BreakReason F) × BreakerState F
  halting r s = ((halt, r), record s { halted = true; last_reason = r })

  -- All checks passed: a stale halt is cleared.
  abbrev pub passed : BreakerState F → (Verdict × BreakReason F) × BreakerState F
  passed s = (
    (ok_verdict, no_reason),
    if s.halted && not s.killed then record s { halted = false; last_reason = no_reason } else s,
  )

  -- `slippage_samples[-1]`
  abbrev pub last? : List F → Option F
  last? [] = none
  last? (x ∷ xs) = elim (last? xs) [ none ↦ some x | some y ↦ some y ]

  abbrev pub compare_slippage :
      BreakerLimits F → F → F → BreakerState F → (Verdict × BreakReason F) × BreakerState F
  compare_slippage limits baseline recent s =
      if lt (mul baseline limits.slippage_alarm_x) recent
      then halting (slippage_anomaly recent baseline limits.slippage_alarm_x) s
      else passed s

  abbrev pub check_recent :
      BreakerLimits F → F → BreakerState F → (Verdict × BreakReason F) × BreakerState F
  check_recent limits baseline s =
      if not (is_zero baseline) && lt nought baseline
      then elim (last? s.slippage_samples) [
        | none ↦ passed s
        | some recent ↦ compare_slippage limits baseline recent s
      ]
      else passed s

  unfoldable pub check_slippage :
      BreakerLimits F → BreakerState F → (Verdict × BreakReason F) × BreakerState F
  check_slippage limits s = elim s.slippage_baseline [
    | none ↦ passed s
    | some baseline ↦ check_recent limits baseline s
  ]

  unfoldable pub check_broker :
      F → BreakerLimits F → BreakerState F → (Verdict × BreakReason F) × BreakerState F
  check_broker now limits s =
      let gap = sub now s.last_broker_ok_at in
      if lt limits.disconnect_grace_sec gap
      then halting (broker_disconnect gap) s
      else check_slippage limits s

  -- `-realized_pnl_today / start_of_day_equity * 100`
  abbrev pub loss_pct : BreakerState F → F
  loss_pct s = mul (div (neg s.realized_pnl_today) s.start_of_day_equity) (lit 100 0)

  abbrev pub loses : BreakerLimits F → BreakerState F → Bool
  loses limits s = lt nought s.start_of_day_equity && le limits.daily_loss_pct (loss_pct s)

  unfoldable pub check_daily_loss :
      F → BreakerLimits F → BreakerState F → (Verdict × BreakReason F) × BreakerState F
  check_daily_loss now limits s =
      if loses limits s then halting (daily_loss (loss_pct s)) s else check_broker now limits s

  abbrev pub peak_of : BreakerState F → F
  peak_of s = max s.peak_equity s.start_of_day_equity

  abbrev pub dd_pct : BreakerState F → F
  dd_pct s = mul (sub (lit 1 0) (div s.current_equity (peak_of s))) (lit 100 0)

  abbrev pub sinks : BreakerLimits F → BreakerState F → Bool
  sinks limits s = lt nought (peak_of s) && le limits.max_drawdown_pct (dd_pct s)

  unfoldable pub judge :
      F → BreakerLimits F → BreakerState F → (Verdict × BreakReason F) × BreakerState F
  judge now limits s =
      if s.killed
      then ((kill, s.last_reason), s)
      else if sinks limits s
      then (
        (kill, max_drawdown (dd_pct s)),
        record s { killed = true; last_reason = max_drawdown (dd_pct s) },
      )
      else check_daily_loss now limits s

  unfoldable pub verdict : F → ℕ → CircuitBreaker F → (Verdict × BreakReason F) × CircuitBreaker F
  verdict now today b =
      let (v, s) = judge now b.limits (roll_day today b.state) in (v, with_state b s)
