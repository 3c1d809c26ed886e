-- ===== src/TradingView/Signal.antt =====
-- trading-engine/strategies/tv_signal.py: the live path of `TVSignalStrategy`, and
-- tradingview/symbols.py. The bars and their indicators come from pandas: the last bar is an
-- argument.
use forex_bot.Common.{ℕ, Bool, false, ◌&&◌, Option, none, some, List, [], ◌∷◌, if◌then◌else◌}
use forex_bot.Common.Text.{Text, codes, text_beq, text_eq, upper}
use forex_bot.Common.Dict.{Dict, lookup}
use forex_bot.Common.Float.{Float, add, sub, mul, div, neg, lt, le, lit, nought}
use forex_bot.Backtest.Trades.{SignalRow, long, short}
use forex_bot.TradingView.Scorer.{TvAnalysis, PerTf, CombinedScore, score, given}
use forex_bot.TradingView.Client.{Ask, Seen, Cache, analyses_of}

-- `TVSymbol`, less its display name.
pub record TvSymbol : Type 0 where
  pub symbol : Text
  pub exchange : Text
  pub asset_class : Text

abbrev oanda : Text → Text → TvSymbol
oanda s c = record { symbol = s; exchange = codes "OANDA"; asset_class = c }

abbrev binance : Text → TvSymbol
binance s = record { symbol = s; exchange = codes "BINANCE"; asset_class = codes "crypto" }

abbrev forex_pair : Text → Text × TvSymbol
forex_pair s = (s, oanda s (codes "forex"))

abbrev supported_symbols : Dict Text TvSymbol
supported_symbols =
    (codes "XAUUSD", oanda (codes "XAUUSD") (codes "gold"))
    ∷ forex_pair (codes "EURUSD")
    ∷ forex_pair (codes "GBPUSD")
    ∷ forex_pair (codes "USDJPY")
    ∷ forex_pair (codes "USDCHF")
    ∷ forex_pair (codes "AUDUSD")
    ∷ forex_pair (codes "NZDUSD")
    ∷ forex_pair (codes "USDCAD")
    ∷ forex_pair (codes "EURJPY")
    ∷ forex_pair (codes "GBPJPY")
    ∷ forex_pair (codes "EURGBP")
    ∷ (codes "BTCUSDT", binance (codes "BTCUSDT"))
    ∷ (codes "ETHUSDT", binance (codes "ETHUSDT"))
    ∷ (codes "SOLUSDT", binance (codes "SOLUSDT"))
    ∷ (codes "BNBUSDT", binance (codes "BNBUSDT"))
    ∷ (codes "SPX500", oanda (codes "SPX500USD") (codes "index"))
    ∷ (codes "NAS100", oanda (codes "NAS100USD") (codes "index"))
    ∷ []

-- `x or d`
abbrev pub or_default : Text → Text → Text
or_default [] d = d
or_default (c ∷ cs) d = c ∷ cs

abbrev with_exchange : TvSymbol → Text → TvSymbol
with_exchange base [] = base
with_exchange base (c ∷ cs) =
    if text_beq (c ∷ cs) base.exchange then base else record base { exchange = upper (c ∷ cs) }

-- `resolve_symbol`; an exchange that is not given is the empty text.
unfoldable pub resolve_symbol : Text → Text → TvSymbol
resolve_symbol symbol exchange = elim (lookup (upper symbol) supported_symbols) [
  | none ↦ record {
    symbol = upper symbol;
    exchange = or_default exchange (codes "FX_IDC");
    asset_class = codes "forex";
  }
  | some base ↦ with_exchange base exchange
]

pub record TvParams (F : Type 0) : Type 0 where
  pub tv_symbol : Text
  pub tv_exchange : Text
  pub tv_screener : Text
  pub entry_score_threshold : F
  pub min_agreement_pct : F
  pub sl_atr_mult : F
  pub tp_atr_mult : F
  pub cool_down_min : F

-- The strategy with a client and a scorer; times are in seconds.
pub record TvStrategy (F : Type 0) : Type 0 where
  pub symbol : Text
  pub params : TvParams F
  pub weights : Dict Text F
  pub last_exit_ts : Option F
  pub last_score : Option F
  pub last_per_tf : List (PerTf F)

-- The last bar; `atr` is `none` where pandas has no number.
pub record LastBar (F : Type 0) : Type 0 where
  pub at : F
  pub close : F
  pub atr : Option F

-- `TVClient` as it is set up.
pub record TvClient (F : Type 0) : Type 0 where
  pub ttl : F
  pub max_retries : ℕ

abbrev screener_of : Text → Text
screener_of asset_class =
    if text_beq asset_class (codes "crypto") then codes "crypto" else codes "forex"

module _ {F : Type 0} ⦃f : Float F⦄ where
  -- `_resolve_symbol`, with no interval yet.
  unfoldable pub resolved : TvStrategy F → Ask
  resolved s = elim s.params.tv_symbol [
    | [] ↦
        let r = resolve_symbol s.symbol [] in
        record {
          symbol = r.symbol;
          exchange = r.exchange;
          interval = [];
          screener = screener_of r.asset_class;
        }
    | c ∷ cs ↦ record {
      symbol = c ∷ cs;
      exchange = or_default s.params.tv_exchange (codes "OANDA");
      interval = [];
      screener = or_default s.params.tv_screener (codes "forex");
    }
  ]

  -- `_in_cool_down`
  unfoldable pub in_cool_down : TvStrategy F → F → Bool
  in_cool_down s now = elim s.last_exit_ts [
    | none ↦ false
    | some t ↦ lt (div (sub now t) (lit 60 0)) s.params.cool_down_min
  ]

  unfoldable pub mark_exit : F → TvStrategy F → TvStrategy F
  mark_exit ts s = record s { last_exit_ts = some ts }

  abbrev pub long_row : TvParams F → F → F → SignalRow F
  long_row p entry atr = record {
    direction = long;
    entry = entry;
    sl = sub entry (mul p.sl_atr_mult atr);
    tp = add entry (mul p.tp_atr_mult atr);
  }

  abbrev pub short_row : TvParams F → F → F → SignalRow F
  short_row p entry atr = record {
    direction = short;
    entry = entry;
    sl = add entry (mul p.sl_atr_mult atr);
    tp = sub entry (mul p.tp_atr_mult atr);
  }

  -- The two conditions of an entry, once the range of the bar is known.
  unfoldable pub entry_row : TvParams F → F → F → F → F → Option (SignalRow F)
  entry_row p entry atr s agreement =
      if le p.entry_score_threshold s && le p.min_agreement_pct agreement
      then some (long_row p entry atr)
      else if le s (neg p.entry_score_threshold) && le p.min_agreement_pct agreement
      then some (short_row p entry atr)
      else none

  abbrev pub range_of : LastBar F → F
  range_of bar = given bar.atr nought

  abbrev pub signal_of : TvStrategy F → LastBar F → CombinedScore F → Option (SignalRow F)
  signal_of s bar combined =
      if in_cool_down s bar.at
      then none
      else if le (range_of bar) nought
      then none
      else entry_row s.params bar.close (range_of bar) combined.score combined.agreement_pct

  abbrev pub scored_signal :
      TvStrategy F → LastBar F → List (TvAnalysis F) → Option (SignalRow F) × TvStrategy F
  scored_signal s bar [] = (none, s)
  scored_signal s bar (a ∷ as') =
      let combined = score s.weights (a ∷ as') in
      (
        signal_of s bar combined,
        record s { last_score = some combined.score; last_per_tf = combined.per_tf },
      )

  -- `_fill_live_signal_last_row`: the row of the last bar, if it is filled. The intervals of the
  -- parameters come with what their calls meet.
  unfoldable pub fill_live_signal :
      TvClient F
      → TvStrategy F
      → LastBar F
      → List (Text × Seen F)
      → Cache F
      → Option (SignalRow F) × TvStrategy F × Cache F
  fill_live_signal client s bar ivs cache =
      let (as', errors, c) = analyses_of client.ttl client.max_retries (resolved s) ivs cache in
      let (row, s') = scored_signal s bar as' in (row, s', c)
