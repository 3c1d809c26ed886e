-- ===== src/TradingView/Tests.antt =====
-- trading-engine/tradingview and strategies/tv_signal.py: the client, the scorer and the live path
-- on concrete answers.
use forex_bot.Common.{ℕ, ◌≡◌, refl, true, false, none, some, List, [], ◌∷◌, ◌↔◌, ◌⊎◌, Any, arith}
use forex_bot.Common.Text.{Text, codes, upper, lower, text_beq}
use forex_bot.Common.Fixed.{Fixed, fixed, whole, tenths}
use forex_bot.Common.Dict.{lookup, insert}
use forex_bot.Common.Float.{sub, lt}
use forex_bot.TradingView.Scorer.{
  TvAnalysis, default_weights, buy, rec_score, score, tally, tally_one, weight_of,
}
use forex_bot.TradingView.Client.{
  Raw, exhausted, cache_key, consensus, count_if, interval_of, cache_get, retry, fetch, Ask, Seen,
  analysis, get_analysis, analyses_of, multi_timeframe_analysis,
}
use forex_bot.TradingView.Signal.{
  TvParams, TvStrategy, LastBar, TvClient, resolved, resolve_symbol, in_cool_down, mark_exit,
  long_row, fill_live_signal,
}
use forex_bot.TradingView.Fresh.{IsLabelled, FetchedBy, PutBy, after, answer_is_asked}
use forex_bot.TradingView.Again.{asked_again}
use forex_bot.TradingView.Entered.{neutral_majority_enters, entered_iff, IsEntry}

abbrev raw : Text → Raw Fixed
raw r = record {
  recommendation = some r;
  buys = some 1;
  sells = some 0;
  neutrals = none;
  close = none;
}

abbrev answers : ℕ → Text → Seen Fixed
answers t r = record {
  enabled = true;
  now = whole t;
  attempt = λ n. record {
    handler = λ symbol screener exchange interval. some (raw r);
    fetched_at = whole t;
    put_at = whole t;
  };
}

abbrev params : TvParams Fixed
params = record {
  tv_symbol = [];
  tv_exchange = [];
  tv_screener = codes "forex";
  entry_score_threshold = whole 60;
  min_agreement_pct = tenths 6;
  sl_atr_mult = tenths 15;
  tp_atr_mult = whole 3;
  cool_down_min = whole 60;
}

abbrev strategy : TvStrategy Fixed
strategy = record {
  symbol = codes "xauusd";
  params = params;
  weights = default_weights;
  last_exit_ts = none;
  last_score = none;
  last_per_tf = [];
}

abbrev client : TvClient Fixed
client = record { ttl = whole 60; max_retries = 3 }

abbrev bar : LastBar Fixed
bar = record { at = whole 100; close = whole 2000; atr = some (whole 2) }

abbrev strong : Text
strong = codes "STRONG_BUY"

abbrev idle : Text
idle = codes "NEUTRAL"

-- The day is a strong buy, the two short timeframes are neither.
abbrev asked : List (Text × Seen Fixed)
asked =
    (codes "1d", answers 100 strong)
    ∷ (codes "1m", answers 101 idle)
    ∷ (codes "5m", answers 102 idle)
    ∷ []

abbrev labelled : Text → ℕ → Text → TvAnalysis Fixed
labelled iv t r = record {
  symbol = codes "XAUUSD";
  exchange = codes "OANDA";
  interval = iv;
  recommendation = r;
  buy_signals = 1;
  sell_signals = 0;
  neutral_signals = 0;
  price = none;
  fetched_at = whole t;
}

abbrev others : List (TvAnalysis Fixed)
others = labelled (codes "1m") 101 idle ∷ labelled (codes "5m") 102 idle ∷ []

neutral_majority_enters_example :
    (fill_live_signal client strategy bar asked []).0
    ≡ some (long_row params (whole 2000) (whole 2))
unfolding analyses_of get_analysis cache_get retry fetch resolved resolve_symbol lookup insert upper
    lower text_beq interval_of count_if rec_score score tally tally_one weight_of in_cool_down
neutral_majority_enters_example =
    neutral_majority_enters client strategy bar asked [] (labelled (codes "1d") 100 strong) others
      refl (omega arith) (omega arith) refl refl refl refl

-- The stop is three below the close, the target six above.
entered_iff_example :
    ((fill_live_signal client strategy bar asked []).0
      ≡ some (long_row params (whole 2000) (whole 2)))
    ↔ IsEntry strategy bar
        (analyses_of client.ttl client.max_retries (resolved strategy) asked []).0
        (long_row params (whole 2000) (whole 2))
entered_iff_example =
    entered_iff client strategy bar asked [] (long_row params (whole 2000) (whole 2))

-- After an exit the strategy waits for an hour.
cooling_down : (fill_live_signal client (mark_exit (whole 40) strategy) bar asked []).0 ≡ none
unfolding fill_live_signal mark_exit analyses_of get_analysis cache_get retry fetch resolved
    resolve_symbol lookup insert upper lower text_beq interval_of rec_score score tally tally_one
    weight_of in_cool_down
cooling_down = refl

abbrev gold : Ask
gold = record {
  symbol = codes "XauUsd";
  exchange = codes "oanda";
  interval = codes "1D";
  screener = codes "forex";
}

answer_is_asked_example :
    IsLabelled (cache_key gold) (labelled (codes "1d") 100 strong)
    × (FetchedBy 3 gold (answers 130 idle).attempt (labelled (codes "1d") 100 strong)
        ⊎ ((ts : Fixed) × Any
              (PutBy (cache_key gold) (ts, labelled (codes "1d") 100 strong))
              ((gold, answers 100 strong) ∷ [])
            × (lt (whole 60) (sub (answers 130 idle).now ts) ≡ false)))
unfolding after get_analysis cache_get retry fetch lookup insert upper lower text_beq interval_of
answer_is_asked_example =
    answer_is_asked (whole 60) 3 ((gold, answers 100 strong) ∷ []) gold (answers 130 idle)
      (labelled (codes "1d") 100 strong) refl

abbrev metal : Ask
metal = record gold { screener = codes "cfd" }

asked_again_example :
    get_analysis
      (whole 60)
      3
      metal
      (answers 130 idle)
      (get_analysis (whole 60) 3 gold (answers 100 strong) []).1
    ≡ (
      analysis (labelled (codes "1d") 100 strong),
      (get_analysis (whole 60) 3 gold (answers 100 strong) []).1,
    )
unfolding get_analysis cache_get retry fetch lookup insert upper lower text_beq interval_of
asked_again_example =
    asked_again (whole 60) 3 gold metal (answers 100 strong) (answers 130 idle) []
      (labelled (codes "1d") 100 strong) (labelled (codes "1d") 100 strong) (whole 100) refl refl
      refl refl refl

-- Three attempts that fail exhaust the retries, and the cache stays as it was.
abbrev silent : Seen Fixed
silent = record {
  enabled = true;
  now = whole 5;
  attempt = λ n. record {
    handler = λ symbol screener exchange interval. none;
    fetched_at = whole 5;
    put_at = whole 5;
  };
}

all_fail : get_analysis (whole 60) 3 gold silent [] ≡ (exhausted, [])
unfolding get_analysis cache_get retry fetch lookup
all_fail = refl

-- The two sides of the consensus, and the interval that failed.
agreed :
    let (m, c) =
      multi_timeframe_analysis
        (whole 60)
        3
        gold
        ((codes "4h", silent) ∷ (codes "1h", answers 6 strong) ∷ [])
        [] in
    (m.consensus ≡ buy) × (m.agreement_pct ≡ whole 1) × (m.errors ≡ codes "4h" ∷ [])
unfolding multi_timeframe_analysis analyses_of consensus count_if get_analysis cache_get retry fetch
    lookup insert upper lower text_beq interval_of
agreed = (refl, refl, refl)
