-- ===== src/TradingView/Again.antt =====
-- trading-engine/tradingview/client.py: what a second call of `get_analysis` answers.
use forex_bot.Common.{
  ℕ, zero, suc, ◌≡◌, sym, ap, ◌∙◌, Bool, true, false, not, Option, none, some, Option-cases,
  Bool-cases, inl, inr, if◌then◌else◌, arith,
}
use forex_bot.Common.Cases.{if_case, option_case}
use forex_bot.Common.Eq.{beq_refl}
use forex_bot.Common.Dict.{lookup, insert, lookup-insert}
use forex_bot.Common.Float.{Float, sub, lt}
use forex_bot.TradingView.Scorer.{TvAnalysis}
use forex_bot.TradingView.Client.{
  Try, Key, Cache, Ask, Seen, cache_key, key_eq, TvResult, analysis, cache_get, fetch, retry,
  from_cache, get_analysis,
}

same_entry :
    {F A : Type 0} {x y : F} {a b : A}
    → ◌≡◌ {A = Option (F × A)} (some (x, a)) (some (y, b))
    → a ≡ b
same_entry h = ground arith

module _ {F : Type 0} ⦃f : Float F⦄ where
  -- The analysis is the one that the cache has under the key.
  abbrev IsKept : Key → TvAnalysis F → Cache F → Type 0
  IsKept k a cache = (ts : F) × (lookup k cache ≡ some (ts, a))

  lookup_inserted :
      (k : Key) (e : F × TvAnalysis F) (cache : Cache F) → lookup k (insert k e cache) ≡ some e
  lookup_inserted k e cache =
      lookup-insert k k e cache
      ∙ ap (λ (b : Bool). if b then some e else lookup k cache) (beq_refl k)

  retry-IsKept :
      (ask : Ask) (attempt : ℕ → Try F) (left n : ℕ) (cache : Cache F) (a : TvAnalysis F)
      → (retry ask attempt left n cache).0 ≡ analysis a
      → IsKept (cache_key ask) a (retry ask attempt left n cache).1
  unfolding retry
  retry-IsKept ask attempt zero n cache a h = ground arith
  retry-IsKept ask attempt (suc left) n cache a h =
      option_case (λ (p : TvResult F × Cache F). p.0 ≡ analysis a → IsKept (cache_key ask) a p.1)
        (fetch ask (attempt n)) _ _ (λ e. retry-IsKept ask attempt left (suc n) cache a)
        (λ b e k. (
          (attempt n).put_at,
          lookup_inserted (cache_key ask) ((attempt n).put_at, b) cache ∙ ground arith,
        ))
        h

  -- An entry that `cache_get` answers stays.
  got-IsKept :
      (ttl now : F) (k : Key) (cache : Cache F) (a : TvAnalysis F)
      → (cache_get ttl now k cache).0 ≡ some a
      → IsKept k a (cache_get ttl now k cache).1
  unfolding cache_get
  got-IsKept ttl now k cache a h = elim (Option-cases (lookup k cache)) [
    | inl n ↦ ground arith
    | inr ((ts, b), n) ↦ elim (Bool-cases (lt ttl (sub now ts))) [
      | inl t ↦ ground arith
      | inr t ↦ (ts, ground arith)
    ]
  ]

  from_cache-IsKept :
      (n : ℕ) (ask : Ask) (seen : Seen F) (o : Option (TvAnalysis F) × Cache F) (a : TvAnalysis F)
      → (o.0 ≡ some a → IsKept (cache_key ask) a o.1)
      → (from_cache n ask seen.attempt o).0 ≡ analysis a
      → IsKept (cache_key ask) a (from_cache n ask seen.attempt o).1
  from_cache-IsKept n ask seen (some b, c) a q h = q (ground arith)
  from_cache-IsKept n ask seen (none, c) a q h = retry-IsKept ask seen.attempt n 1 c a h

  get_analysis-IsKept :
      (ttl : F) (n : ℕ) (ask : Ask) (seen : Seen F) (cache : Cache F) (a : TvAnalysis F)
      → (get_analysis ttl n ask seen cache).0 ≡ analysis a
      → IsKept (cache_key ask) a (get_analysis ttl n ask seen cache).1
  unfolding get_analysis
  get_analysis-IsKept ttl n ask seen cache a =
      if_case (λ (p : TvResult F × Cache F). p.0 ≡ analysis a → IsKept (cache_key ask) a p.1)
        (not seen.enabled) _ _ (λ e h. cc)
        (λ e.
          from_cache-IsKept n ask seen (cache_get ttl seen.now (cache_key ask) cache) a
            (got-IsKept ttl seen.now (cache_key ask) cache a))

  hit :
      (ttl : F) (n : ℕ) (ask : Ask) (seen : Seen F) (cache : Cache F) (ts : F) (a : TvAnalysis F)
      → lookup (cache_key ask) cache ≡ some (ts, a)
      → seen.enabled ≡ true
      → lt ttl (sub seen.now ts) ≡ false
      → get_analysis ttl n ask seen cache ≡ (analysis a, cache)
  unfolding get_analysis cache_get
  hit ttl n ask seen cache ts a p q r = ground arith

  -- Once `get_analysis` from_cache an analysis, a later call, with the integration on, for the same
  -- symbol, exchange and interval in whatever letters, answers the same analysis and leaves the
  -- cache alone, as long as no more than the time to live has passed since the entry was stored:
  -- whatever screener it asks for, and whatever the package would answer.
  pub asked_again :
      (ttl : F) (n : ℕ) (ask ask' : Ask) (seen seen' : Seen F) (cache : Cache F)
      (a b : TvAnalysis F) (ts : F)
      → (get_analysis ttl n ask seen cache).0 ≡ analysis a
      → lookup (cache_key ask) (get_analysis ttl n ask seen cache).1 ≡ some (ts, b)
      → cache_key ask' ≡ cache_key ask
      → seen'.enabled ≡ true
      → lt ttl (sub seen'.now ts) ≡ false
      → get_analysis ttl n ask' seen' (get_analysis ttl n ask seen cache).1
        ≡ (analysis a, (get_analysis ttl n ask seen cache).1)
  asked_again ttl n ask ask' seen seen' cache a b ts h l k e t =
      let (ts', p) = get_analysis-IsKept ttl n ask seen cache a h in
      hit ttl n ask' seen' (get_analysis ttl n ask seen cache).1 ts a
        (ap (λ (j : Key). lookup j (get_analysis ttl n ask seen cache).1) k
          ∙ l
          ∙ ap (λ (x : TvAnalysis F). some (ts, x)) (same_entry (sym l ∙ p)))
        e t
