-- ===== src/TradingView/Scorer.antt =====
-- trading-engine/tradingview/scorer.py: the score of several timeframes.
use forex_bot.Common.{ℕ, suc, Option, none, some, List, [], ◌∷◌, ◌++◌, length, leb, if◌then◌else◌}
use forex_bot.Common.Text.{Text, codes, text_eq, upper, lower}
use forex_bot.Common.Dict.{Dict, lookup, insert}
use forex_bot.Common.Float.{Float, add, mul, div, neg, lt, le, lit, nought, abs}

pub record TvAnalysis (F : Type 0) : Type 0 where
  pub symbol : Text
  pub exchange : Text
  pub interval : Text
  pub recommendation : Text
  pub buy_signals : ℕ
  pub sell_signals : ℕ
  pub neutral_signals : ℕ
  pub price : Option F
  pub fetched_at : F

pub data Leaning : Type 0 where
  buy sell neutral : Leaning

-- An entry of `per_tf`; the counts of the analysis that it repeats are left out.
pub record PerTf (F : Type 0) : Type 0 where
  pub interval : Text
  pub recommendation : Text
  pub score : F
  pub weight : F

pub record CombinedScore (F : Type 0) : Type 0 where
  pub score : F
  pub direction : Leaning
  pub confidence : F
  pub agreement_pct : F
  pub per_tf : List (PerTf F)
  pub bullish_count : ℕ
  pub bearish_count : ℕ
  pub neutral_count : ℕ

-- The variables of the loop of `score`.
pub record Tally (F : Type 0) : Type 0 where
  pub weighted_sum : F
  pub weight_total : F
  pub bullish : ℕ
  pub bearish : ℕ
  pub neutral : ℕ
  pub per_tf : List (PerTf F)

abbrev pub given : {A : Type 0} → Option A → A → A
given none d = d
given (some a) d = a

abbrev pub max_ℕ : ℕ → ℕ → ℕ
max_ℕ a b = if leb b a then a else b

module _ {F : Type 0} ⦃f : Float F⦄ where
  abbrev rec_scores : Dict Text F
  rec_scores =
      (codes "STRONG_BUY", lit 100 0)
      ∷ (codes "BUY", lit 50 0)
      ∷ (codes "NEUTRAL", nought)
      ∷ (codes "SELL", neg (lit 50 0))
      ∷ (codes "STRONG_SELL", neg (lit 100 0))
      ∷ []

  -- `_REC_SCORE.get(recommendation.upper(), 0.0)`
  unfoldable pub rec_score : TvAnalysis F → F
  rec_score a = given (lookup (upper a.recommendation) rec_scores) nought

  abbrev pub default_weights : Dict Text F
  default_weights =
      (codes "1m", lit 2 1)
      ∷ (codes "5m", lit 4 1)
      ∷ (codes "15m", lit 6 1)
      ∷ (codes "30m", lit 7 1)
      ∷ (codes "1h", lit 1 0)
      ∷ (codes "2h", lit 12 1)
      ∷ (codes "4h", lit 15 1)
      ∷ (codes "1d", lit 2 0)
      ∷ (codes "1w", lit 25 1)
      ∷ []

  -- `dict.update`
  unfoldable pub update_weights : Dict Text F → Dict Text F → Dict Text F
  update_weights d [] = d
  update_weights d ((k, w) ∷ ws) = update_weights (insert k w d) ws

  -- `Scorer(tf_weights)`: its weights, the only state of a scorer.
  abbrev pub new_scorer : Dict Text F → Dict Text F
  new_scorer tf_weights = update_weights default_weights tf_weights

  unfoldable pub weight_of : Dict Text F → Text → F
  weight_of weights interval = given (lookup (lower interval) weights) (lit 1 0)

  abbrev pub count_side : F → Tally F → Tally F
  count_side s t =
      if lt nought s
      then record t { bullish = suc t.bullish }
      else if lt s nought
      then record t { bearish = suc t.bearish }
      else record t { neutral = suc t.neutral }

  unfoldable pub tally_one : Dict Text F → TvAnalysis F → Tally F → Tally F
  tally_one weights a t =
      let s = rec_score a in
      let w = weight_of weights a.interval in
      count_side s (record t {
        weighted_sum = add t.weighted_sum (mul s w);
        weight_total = add t.weight_total w;
        per_tf =
            t.per_tf
            ++ (record {
              interval = a.interval;
              recommendation = upper a.recommendation;
              score = s;
              weight = w;
            }
                ∷ []);
      })

  unfoldable pub tally : Dict Text F → List (TvAnalysis F) → Tally F → Tally F
  tally weights [] t = t
  tally weights (a ∷ as') t = tally weights as' (tally_one weights a t)

  abbrev pub no_tally : Tally F
  no_tally = record {
    weighted_sum = nought;
    weight_total = nought;
    bullish = 0;
    bearish = 0;
    neutral = 0;
    per_tf = [];
  }

  abbrev pub final_score : Tally F → F
  final_score t = if lt nought t.weight_total then div t.weighted_sum t.weight_total else nought

  -- The quotient of two counts.
  abbrev pub ratio : ℕ → ℕ → F
  ratio n m = div (lit n 0) (lit m 0)

  abbrev pub direction_of : F → Leaning
  direction_of s = if le (lit 20 0) s then buy else if le s (neg (lit 20 0)) then sell else neutral

  abbrev pub scored : ℕ → Tally F → CombinedScore F
  scored total t =
      let s = final_score t in
      let agreement = ratio (max_ℕ (max_ℕ t.bullish t.bearish) t.neutral) total in
      record {
        score = s;
        direction = direction_of s;
        confidence = mul agreement (div (abs s) (lit 100 0));
        agreement_pct = agreement;
        per_tf = t.per_tf;
        bullish_count = t.bullish;
        bearish_count = t.bearish;
        neutral_count = t.neutral;
      }

  -- `Scorer.score`
  unfoldable pub score : Dict Text F → List (TvAnalysis F) → CombinedScore F
  score weights [] = record {
    score = nought;
    direction = neutral;
    confidence = nought;
    agreement_pct = nought;
    per_tf = [];
    bullish_count = 0;
    bearish_count = 0;
    neutral_count = 0;
  }
  score weights (a ∷ as') = scored (length (a ∷ as')) (tally weights (a ∷ as') no_tally)
