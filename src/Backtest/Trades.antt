-- ===== src/Backtest/Trades.antt =====
-- trading-engine/backtest/runner.py: `_simulate_trades`. A data frame is the list of its bars, each
-- with the row of the signals at its time, if there is one. A direction is -1, 0 or 1, as the
-- strategies give it.
use forex_bot.Common.{ℕ, Bool, true, false, Option, none, some, List, [], ◌∷◌, if◌then◌else◌}
use forex_bot.Common.Float.{Float, add, sub, mul, div, neg, lt, le, lit, nought, abs}

pub data Direction : Type 0 where
  flat long short : Direction

pub record SignalRow (F : Type 0) : Type 0 where
  pub direction : Direction
  pub entry : F
  pub sl : F
  pub tp : F

pub record Bar (F : Type 0) : Type 0 where
  pub ts : ℕ
  pub high : F
  pub low : F
  pub signal : Option (SignalRow F)

pub record CostModel (F : Type 0) : Type 0 where
  pub spread_price : F
  pub slippage_price : F
  pub commission_pct : F

pub record Trade (F : Type 0) : Type 0 where
  pub entry_ts : ℕ
  pub exit_ts : ℕ
  pub direction : Direction
  pub entry : F
  pub exit : F
  pub pnl : F
  pub r_multiple : F

-- The variables of the loop while it is in a trade; `is_long` is `direction > 0`.
pub record Open (F : Type 0) : Type 0 where
  pub is_long : Bool
  pub entry_price : F
  pub sl : F
  pub tp : F
  pub entry_ts : ℕ

module _ {F : Type 0} ⦃f : Float F⦄ (cost : CostModel F) where
  -- The stop is looked at first, so it counts where a bar touches both.
  unfoldable pub exit_price : Open F → Bar F → Option F
  exit_price o bar =
      if o.is_long
      then (if le bar.low o.sl
          then some (sub o.sl cost.slippage_price)
          else if le o.tp bar.high
          then some (sub o.tp cost.slippage_price)
          else none)
      else if le o.sl bar.high
      then some (add o.sl cost.slippage_price)
      else if le bar.low o.tp
      then some (add o.tp cost.slippage_price)
      else none

  abbrev pub sign : Bool → F
  sign is_long = if is_long then lit 1 0 else neg (lit 1 0)

  abbrev pub side : Bool → Direction
  side is_long = if is_long then long else short

  unfoldable pub closed : Open F → Bar F → F → Trade F
  closed o bar price =
      let gross = mul (sub price o.entry_price) (sign o.is_long) in
      let cost_total = add cost.spread_price (mul cost.commission_pct (add o.entry_price price)) in
      let pnl = sub gross cost_total in
      let r = abs (sub o.entry_price o.sl) in
      record {
        entry_ts = o.entry_ts;
        exit_ts = bar.ts;
        direction = side o.is_long;
        entry = o.entry_price;
        exit = price;
        pnl = pnl;
        r_multiple = if lt nought r then div pnl r else nought;
      }

  abbrev pub opened : Bool → SignalRow F → Bar F → Open F
  opened is_long s bar = record {
    is_long = is_long;
    entry_price = add s.entry (mul cost.slippage_price (sign is_long));
    sl = s.sl;
    tp = s.tp;
    entry_ts = bar.ts;
  }

  -- What a bar opens, out of a trade.
  unfoldable pub enter : Bar F → Option (Open F)
  enter bar = elim bar.signal [
    | none ↦ none
    | some s ↦ elim s.direction [
      | flat ↦ none
      | long ↦ some (opened true s bar)
      | short ↦ some (opened false s bar)
    ]
  ]

  -- A trade that is open after the last bar is dropped.
  unfoldable pub simulate_trades : Option (Open F) → List (Bar F) → List (Trade F)
  simulate_trades state [] = []
  simulate_trades none (bar ∷ bars) = simulate_trades (enter bar) bars
  simulate_trades (some o) (bar ∷ bars) = elim (exit_price o bar) [
    | none ↦ simulate_trades (some o) bars
    | some price ↦ closed o bar price ∷ simulate_trades none bars
  ]
