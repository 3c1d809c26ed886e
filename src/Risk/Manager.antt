-- ===== src/Risk/Manager.antt =====
-- trading-engine/risk/manager.py: the gatekeeper of every order. `utcnow().date()` is a parameter,
-- the number of the day; a reason text is a constructor that carries what the text prints.
use forex_bot.Common.{
  ℕ, Bool, true, false, not, Option, none, some, List, [], ◌∷◌, ◌++◌, leb, ◌==◌, ◌&&◌,
  if◌then◌else◌, length,
}
use forex_bot.Common.Eq.{nat_eq}
use forex_bot.Common.Text.{Text, text_eq}
use forex_bot.Common.Dict.{Dict, insert}
use forex_bot.Risk.Positions.{
  Ticket, Info, Bucket, members, bucket_of, positions_of, total_positions, count_in, without,
  cleared,
}
use forex_bot.Common.Result.{Result, ok, err, zero_division}
use forex_bot.Common.Float.{Float, add, sub, mul, div, neg, lt, le, lit, nought, is_zero}

pub record RiskLimits (F : Type 0) : Type 0 where
  pub max_risk_per_trade_pct : F
  pub max_daily_loss_pct : F
  pub max_drawdown_pct : F
  pub max_open_positions : ℕ
  pub max_positions_per_symbol : ℕ
  pub correlated_symbol_limit : ℕ

-- `disabled_reason`: the empty text, or the drawdown and the limit that it met.
pub data DisabledReason (F : Type 0) : Type 0 where
  no_reason : DisabledReason F
  max_drawdown_circuit_breaker : F → F → DisabledReason F

pub record RiskState (F : Type 0) : Type 0 where
  pub equity : F
  pub peak_equity : F
  pub realized_pnl_today : F
  pub today_utc : ℕ
  pub open_positions : Dict Text (List Info)
  pub bot_disabled : Bool
  pub disabled_reason : DisabledReason F

pub data Reason (F : Type 0) : Type 0 where
  bot_disabled : DisabledReason F → Reason F
  daily_loss_limit_hit : Reason F
  trimmed_to_per_trade_cap : Reason F
  max_open_positions_reached : Reason F
  per_symbol_cap_reached : Text → Reason F
  correlation_cap_reached : Bucket → Reason F
  approved : Reason F

pub record RiskDecision (F : Type 0) : Type 0 where
  pub approved : Bool
  pub reason : Reason F
  pub adjusted_size : Option F

pub data DecisionStatus : Type 0 where
  approved_status rejected_status trimmed_status : DecisionStatus

-- The property `RiskDecision.status`.
unfoldable pub status : {F : Type 0} → RiskDecision F → DecisionStatus
status d =
    if not d.approved
    then rejected_status
    else elim d.adjusted_size [ some _ ↦ trimmed_status | none ↦ approved_status ]

pub record RiskManager (F : Type 0) : Type 0 where
  pub limits : RiskLimits F
  pub state : RiskState F

module _ {F : Type 0} ⦃f : Float F⦄ where
  -- `RiskManager.__init__`, made on the given day.
  unfoldable pub init : RiskLimits F → F → ℕ → RiskManager F
  init limits initial_equity today = record {
    limits = limits;
    state = record {
      equity = initial_equity;
      peak_equity = initial_equity;
      realized_pnl_today = nought;
      today_utc = today;
      open_positions = [];
      bot_disabled = false;
      disabled_reason = no_reason;
    };
  }

  abbrev pub with_state : RiskManager F → RiskState F → RiskManager F
  with_state m s = record m { state = s }

  -- `(1 - equity / peak_equity) * 100`
  abbrev pub drawdown : F → F → F
  drawdown equity peak = mul (sub (lit 1 0) (div equity peak)) (lit 100 0)

  -- The equity and its peak, which are written before the division may raise.
  abbrev pub note_equity : F → RiskState F → RiskState F
  note_equity equity s = record s {
    equity = equity;
    peak_equity = if lt s.peak_equity equity then equity else s.peak_equity;
  }

  abbrev pub trip : RiskLimits F → RiskState F → RiskState F
  trip limits s =
      let dd_pct = drawdown s.equity s.peak_equity in
      if le limits.max_drawdown_pct dd_pct && not s.bot_disabled
      then record s {
        bot_disabled = true;
        disabled_reason = max_drawdown_circuit_breaker dd_pct limits.max_drawdown_pct;
      }
      else s

  unfoldable pub on_equity_update : F → RiskManager F → Result (Unit {0}) × RiskManager F
  on_equity_update equity m =
      let s = note_equity equity m.state in
      if is_zero s.peak_equity
      then (err zero_division, with_state m s)
      else (ok tt, with_state m (trip m.limits s))

  unfoldable pub roll_day_if_needed : ℕ → RiskState F → RiskState F
  roll_day_if_needed today s =
      if today == s.today_utc
      then s
      else record s { today_utc = today; realized_pnl_today = nought }

  unfoldable pub on_trade_closed : ℕ → F → RiskManager F → RiskManager F
  unfolding roll_day_if_needed
  on_trade_closed today pnl m =
      let s = roll_day_if_needed today m.state in
      with_state m (record s { realized_pnl_today = add s.realized_pnl_today pnl })

  -- `open_positions.setdefault(symbol, []).append(info)`
  unfoldable pub on_position_opened : Text → Info → RiskManager F → RiskManager F
  on_position_opened symbol info m =
      let d = m.state.open_positions in
      with_state m
        (record m.state { open_positions = insert symbol (positions_of symbol d ++ info ∷ []) d })

  unfoldable pub on_position_closed : Text → Option Ticket → RiskManager F → RiskManager F
  on_position_closed symbol none m =
      with_state m (record m.state { open_positions = cleared symbol m.state.open_positions })
  on_position_closed symbol (some ticket) m =
      let d = m.state.open_positions in
      with_state m (record m.state {
        open_positions = insert symbol (without ticket (positions_of symbol d)) d;
      })

  abbrev pub reject : Reason F → RiskDecision F
  reject r = record { approved = false; reason = r; adjusted_size = none }

  -- Step 5 of `evaluate`, and the approval after it.
  unfoldable pub check_correlation : RiskLimits F → RiskState F → Text → RiskDecision F
  check_correlation limits s symbol =
      let fine : RiskDecision F = record {
        approved = true;
        reason = approved;
        adjusted_size = none;
      } in
      elim (bucket_of symbol) [
        | none ↦ fine
        | some b ↦
            if leb limits.correlated_symbol_limit (count_in (members b) s.open_positions)
            then reject (correlation_cap_reached b)
            else fine
      ]

  -- Steps 3 to 5.
  unfoldable pub check_caps : RiskLimits F → RiskState F → Text → RiskDecision F
  check_caps limits s symbol =
      if leb limits.max_open_positions (total_positions s.open_positions)
      then reject max_open_positions_reached
      else if leb limits.max_positions_per_symbol (length (positions_of symbol s.open_positions))
      then reject (per_symbol_cap_reached symbol)
      else check_correlation limits s symbol

  -- `equity * (pct / 100)`
  abbrev pub share : F → F → F
  share equity pct = mul equity (div pct (lit 100 0))

  -- The trim of step 2: `cap / risk` raises where the risk is 0.
  abbrev pub trimmed : F → F → F → Result (RiskDecision F)
  trimmed cap size risk =
      if is_zero risk
      then err zero_division
      else ok (record {
        approved = true;
        reason = trimmed_to_per_trade_cap;
        adjusted_size = some (mul size (div cap risk));
      })

  unfoldable pub decide : RiskLimits F → RiskState F → Text → F → F → Result (RiskDecision F)
  decide limits s symbol proposed_size proposed_risk_amount =
      if s.bot_disabled
      then ok (reject (bot_disabled s.disabled_reason))
      else if le (share s.equity limits.max_daily_loss_pct) (neg s.realized_pnl_today)
      then ok (reject daily_loss_limit_hit)
      else let per_trade_cap = share s.equity limits.max_risk_per_trade_pct in
        if lt per_trade_cap proposed_risk_amount
        then trimmed per_trade_cap proposed_size proposed_risk_amount
        else ok (check_caps limits s symbol)

  unfoldable pub evaluate :
      ℕ → Text → F → F → RiskManager F → Result (RiskDecision F) × RiskManager F
  unfolding roll_day_if_needed
  evaluate today symbol proposed_size proposed_risk_amount m =
      let s = roll_day_if_needed today m.state in
      (decide m.limits s symbol proposed_size proposed_risk_amount, with_state m s)
