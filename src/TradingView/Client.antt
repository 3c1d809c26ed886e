-- ===== src/TradingView/Client.antt =====
-- trading-engine/tradingview/client.py: `TVClient` over its cache, which all clients share. What
-- the package tradingview-ta answers, and the clock, are arguments of a call. The throttle only
-- delays calls and is left out.
use forex_bot.Common.{
  ℕ, zero, suc, Bool, true, not, ◌&&◌, ◌||◌, Option, none, some, List, [], ◌∷◌, length, ltb, ◌↔◌,
  ◌≡◌, if◌then◌else◌, arith,
}
use forex_bot.Common.Text.{Text, codes, text_beq, text_beq_iff, text_eq, upper, lower}
use forex_bot.Common.Eq.{Eq}
use forex_bot.Common.Dict.{Dict, lookup, insert, erase}
use forex_bot.Common.Float.{Float, sub, lt, nought}
use forex_bot.TradingView.Scorer.{TvAnalysis, Leaning, buy, sell, neutral, ratio, given, max_ℕ}

pub data Interval : Type 0 where
  minute minutes_5 minutes_15 minutes_30 hour hours_2 hours_4 day week : Interval

abbrev intervals : Dict Text Interval
intervals =
    (codes "1M", minute)
    ∷ (codes "5M", minutes_5)
    ∷ (codes "15M", minutes_15)
    ∷ (codes "30M", minutes_30)
    ∷ (codes "1H", hour)
    ∷ (codes "2H", hours_2)
    ∷ (codes "4H", hours_4)
    ∷ (codes "1D", day)
    ∷ (codes "1W", week)
    ∷ (codes "M1", minute)
    ∷ (codes "M5", minutes_5)
    ∷ (codes "M15", minutes_15)
    ∷ (codes "M30", minutes_30)
    ∷ (codes "H1", hour)
    ∷ (codes "H2", hours_2)
    ∷ (codes "H4", hours_4)
    ∷ (codes "D1", day)
    ∷ (codes "W1", week)
    ∷ []

-- `_interval`, on a name without blanks around it.
unfoldable pub interval_of : Text → Interval
interval_of name = given (lookup (upper name) intervals) minutes_15

-- What the package answers: the summary and the closing price, where they are there.
pub record Raw (F : Type 0) : Type 0 where
  pub recommendation : Option Text
  pub buys : Option ℕ
  pub sells : Option ℕ
  pub neutrals : Option ℕ
  pub close : Option F

-- One attempt: the answer to a symbol, a screener, an exchange and an interval, `none` where the
-- package raises, and the times at which the analysis and its entry of the cache are made.
pub record Try (F : Type 0) : Type 0 where
  pub handler : Text → Text → Text → Interval → Option (Raw F)
  pub fetched_at : F
  pub put_at : F

pub record Key : Type 0 where
  pub symbol : Text
  pub exchange : Text
  pub interval : Text

abbrev pub key_beq : Key → Key → Bool
key_beq a b =
    text_beq a.symbol b.symbol && (text_beq a.exchange b.exchange && text_beq a.interval b.interval)

pub key_beq_iff : (a b : Key) → (key_beq a b ≡ true) ↔ (a ≡ b)
key_beq_iff a b = ground (
  arith,
  text_beq_iff a.symbol b.symbol,
  text_beq_iff a.exchange b.exchange,
  text_beq_iff a.interval b.interval,
)

instance abbrev pub key_eq : Eq Key
key_eq = record { beq = key_beq; beq_iff = key_beq_iff }

-- `_TTLCache._store`
abbrev pub Cache : Type 0 → Type 0
Cache F = Dict Key (F × TvAnalysis F)

-- The arguments of `get_analysis`.
pub record Ask : Type 0 where
  pub symbol : Text
  pub exchange : Text
  pub interval : Text
  pub screener : Text

abbrev pub cache_key : Ask → Key
cache_key ask = record {
  symbol = upper ask.symbol;
  exchange = upper ask.exchange;
  interval = lower ask.interval;
}

pub data TvResult (F : Type 0) : Type 0 where
  analysis : TvAnalysis F → TvResult F
  disabled : TvResult F
  exhausted : TvResult F

-- What a call of `get_analysis` meets: whether the integration is on, the clock when the cache is
-- read, and its attempts by their number.
pub record Seen (F : Type 0) : Type 0 where
  pub enabled : Bool
  pub now : F
  pub attempt : ℕ → Try F

pub record MultiTimeframe (F : Type 0) : Type 0 where
  pub per_interval : List (TvAnalysis F)
  pub agreement_pct : F
  pub consensus : Leaning
  pub errors : List Text

module _ {F : Type 0} ⦃f : Float F⦄ where
  -- `_TTLCache.get`: an entry that is too old is taken out.
  unfoldable pub cache_get : F → F → Key → Cache F → Option (TvAnalysis F) × Cache F
  cache_get ttl now key cache = elim (lookup key cache) [
    | none ↦ (none, cache)
    | some (ts, a) ↦ if lt ttl (sub now ts) then (none, erase key cache) else (some a, cache)
  ]

  abbrev pub cache_put : F → Key → TvAnalysis F → Cache F → Cache F
  cache_put now key a cache = insert key (now, a) cache

  -- The analysis that `_fetch` makes of an answer.
  abbrev pub analysed : Ask → F → Raw F → TvAnalysis F
  analysed ask t raw = record {
    symbol = upper ask.symbol;
    exchange = upper ask.exchange;
    interval = lower ask.interval;
    recommendation = given raw.recommendation (codes "NEUTRAL");
    buy_signals = given raw.buys 0;
    sell_signals = given raw.sells 0;
    neutral_signals = given raw.neutrals 0;
    price = raw.close;
    fetched_at = t;
  }

  unfoldable pub fetch : Ask → Try F → Option (TvAnalysis F)
  fetch ask t = elim (t.handler ask.symbol ask.screener ask.exchange (interval_of ask.interval)) [
    | none ↦ none
    | some raw ↦ some (analysed ask t.fetched_at raw)
  ]

  -- The loop over the attempts that are left, from the given number on.
  unfoldable pub retry : Ask → (ℕ → Try F) → ℕ → ℕ → Cache F → TvResult F × Cache F
  retry ask attempt zero n cache = (exhausted, cache)
  retry ask attempt (suc left) n cache = elim (fetch ask (attempt n)) [
    | some a ↦ (analysis a, cache_put (attempt n).put_at (cache_key ask) a cache)
    | none ↦ retry ask attempt left (suc n) cache
  ]

  abbrev pub from_cache :
      ℕ → Ask → (ℕ → Try F) → Option (TvAnalysis F) × Cache F → TvResult F × Cache F
  from_cache max_retries ask attempt (some a, cache) = (analysis a, cache)
  from_cache max_retries ask attempt (none, cache) = retry ask attempt max_retries 1 cache

  unfoldable pub get_analysis : F → ℕ → Ask → Seen F → Cache F → TvResult F × Cache F
  get_analysis ttl max_retries ask seen cache =
      if not seen.enabled
      then (disabled, cache)
      else from_cache max_retries ask seen.attempt (cache_get ttl seen.now (cache_key ask) cache)

  abbrev pub is_bullish : TvAnalysis F → Bool
  is_bullish a =
      text_beq (upper a.recommendation) (codes "STRONG_BUY")
      || text_beq (upper a.recommendation) (codes "BUY")

  abbrev pub is_bearish : TvAnalysis F → Bool
  is_bearish a =
      text_beq (upper a.recommendation) (codes "STRONG_SELL")
      || text_beq (upper a.recommendation) (codes "SELL")

  unfoldable pub count_if : (TvAnalysis F → Bool) → List (TvAnalysis F) → ℕ
  count_if p [] = 0
  count_if p (a ∷ as') = let rest = count_if p as' in if p a then suc rest else rest

  unfoldable pub consensus : List (TvAnalysis F) → Leaning × F
  consensus [] = (neutral, nought)
  consensus (a ∷ as') =
      let results = a ∷ as' in
      let buys = count_if is_bullish results in
      let sells = count_if is_bearish results in
      let total = length results in
      if ltb sells buys
      then (buy, ratio buys total)
      else if ltb buys sells
      then (sell, ratio sells total)
      else (neutral, ratio (max_ℕ buys sells) total)

  -- The intervals asked for, or the default ones, one after another, each with what its call meets; one that fails is left out.
  unfoldable pub analyses_of :
      F → ℕ → Ask → List (Text × Seen F) → Cache F → List (TvAnalysis F) × List Text × Cache F
  analyses_of ttl max_retries ask [] cache = ([], [], cache)
  analyses_of ttl max_retries ask ((iv, seen) ∷ ivs) cache =
      let (r, c) = get_analysis ttl max_retries (record ask { interval = iv }) seen cache in
      let (as', errors, c') = analyses_of ttl max_retries ask ivs c in
      elim r [ analysis a ↦ (a ∷ as', errors, c') | _ ↦ (as', iv ∷ errors, c') ]

  unfoldable pub multi_timeframe_analysis :
      F → ℕ → Ask → List (Text × Seen F) → Cache F → MultiTimeframe F × Cache F
  multi_timeframe_analysis ttl max_retries ask ivs cache =
      let (as', errors, c) = analyses_of ttl max_retries ask ivs cache in
      let (label, agreement) = consensus as' in
      (
        record {
          per_interval = as';
          agreement_pct = agreement;
          consensus = label;
          errors = errors;
        },
        c,
      )

  -- `combined_analysis`: each pair with its analysis or its failure.
  unfoldable pub combined_analysis :
      F → ℕ → List (Ask × Seen F) → Cache F → List (TvResult F) × Cache F
  combined_analysis ttl max_retries [] cache = ([], cache)
  combined_analysis ttl max_retries ((ask, seen) ∷ asks) cache =
      let (r, c) = get_analysis ttl max_retries ask seen cache in
      let (rs, c') = combined_analysis ttl max_retries asks c in (r ∷ rs, c')
