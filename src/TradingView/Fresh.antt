-- ===== src/TradingView/Fresh.antt =====
-- trading-engine/tradingview/client.py: where the answers of `get_analysis` come from.
use forex_bot.Common.{
  ℕ, zero, suc, ◌+◌, ◌≤◌, ◌<◌, ◌≡◌, refl, ap, ◌∙◌, subst, Bool, false, not, ◌⊎◌, inl, inr, Option,
  none, some, Option-cases, Bool-cases, Any, List, [], ◌∷◌, if◌then◌else◌, arith,
}
use forex_bot.Common.Eq.{beq_iff}
use forex_bot.Common.Dict.{lookup, insert_entry, lookup-erase}
use forex_bot.Common.Float.{Float, sub, lt}
use forex_bot.TradingView.Scorer.{TvAnalysis}
use forex_bot.TradingView.Client.{
  Try, Key, Cache, Ask, Seen, cache_key, key_eq, analysis, disabled, cache_get, fetch, retry,
  from_cache, get_analysis,
}

module _ {F : Type 0} ⦃f : Float F⦄ where
  -- The labels of an analysis are those that were asked for.
  abbrev pub IsLabelled : Key → TvAnalysis F → Type 0
  IsLabelled k a = (a.symbol ≡ k.symbol) × (a.exchange ≡ k.exchange) × (a.interval ≡ k.interval)

  fetch-IsLabelled :
      (ask : Ask) (t : Try F) (a : TvAnalysis F)
      → fetch ask t ≡ some a
      → IsLabelled (cache_key ask) a
  unfolding fetch
  fetch-IsLabelled ask t a h = ground arith

  -- The call fetched the analysis in one of its attempts, and stored it at that time.
  abbrev pub PutBy : Key → F × TvAnalysis F → Ask × Seen F → Type 0
  PutBy k (ts, a) (ask, seen) =
      (cache_key ask ≡ k)
      × ((i : ℕ) × (fetch ask (seen.attempt i) ≡ some a) × ((seen.attempt i).put_at ≡ ts))

  -- The call fetched the analysis in one of its first attempts.
  abbrev pub FetchedBy : ℕ → Ask → (ℕ → Try F) → TvAnalysis F → Type 0
  FetchedBy n ask attempt a = (i : ℕ) × (1 ≤ i) × (i ≤ n) × (fetch ask (attempt i) ≡ some a)

  retry_entry :
      (ask : Ask) (seen : Seen F) (left n : ℕ) (cache : Cache F) (k : Key) (e : F × TvAnalysis F)
      → lookup k (retry ask seen.attempt left n cache).1 ≡ some e
      → PutBy k e (ask, seen) ⊎ (lookup k cache ≡ some e)
  unfolding retry
  retry_entry ask seen zero n cache k e h = inr h
  retry_entry ask seen (suc left) n cache k (ts, a) h =
      elim (Option-cases (fetch ask (seen.attempt n))) [
        | inl q ↦ ground (arith, retry_entry ask seen left (suc n) cache k (ts, a))
        | inr (b, q) ↦
            elim (insert_entry (cache_key ask) k ((seen.attempt n).put_at, b) (ts, a) cache
              (ground arith)) [
                | inl (p, v) ↦ inl (
                  p,
                  (
                    n,
                    q ∙ ap (λ (x : F × TvAnalysis F). some x.1) v,
                    ap (λ (x : F × TvAnalysis F). x.0) v,
                  ),
                )
                | inr p ↦ inr p
              ]
      ]

  cache_get_entry :
      (ttl now : F) (q k : Key) (cache : Cache F) (e : F × TvAnalysis F)
      → lookup k (cache_get ttl now q cache).1 ≡ some e
      → lookup k cache ≡ some e
  unfolding cache_get
  cache_get_entry ttl now q k cache e h = elim (Option-cases (lookup q cache)) [
    | inl n ↦ ground arith
    | inr ((ts, a), n) ↦ elim (Bool-cases (lt ttl (sub now ts))) [
      | inl b ↦ ground (arith, lookup-erase q k cache, beq_iff q k)
      | inr b ↦ ground arith
    ]
  ]

  -- What `from_cache` leaves in the cache was there or was put by the call.
  from_cache_entry :
      (n : ℕ) (ask : Ask) (seen : Seen F) (o : Option (TvAnalysis F) × Cache F) (k : Key)
      (e : F × TvAnalysis F)
      → lookup k (from_cache n ask seen.attempt o).1 ≡ some e
      → PutBy k e (ask, seen) ⊎ (lookup k o.1 ≡ some e)
  from_cache_entry n ask seen (some a, cache) k e h = inr h
  from_cache_entry n ask seen (none, cache) k e h = retry_entry ask seen n 1 cache k e h

  get_analysis_entry :
      (ttl : F) (n : ℕ) (ask : Ask) (seen : Seen F) (cache : Cache F) (k : Key)
      (e : F × TvAnalysis F)
      → lookup k (get_analysis ttl n ask seen cache).1 ≡ some e
      → PutBy k e (ask, seen) ⊎ (lookup k cache ≡ some e)
  unfolding get_analysis
  get_analysis_entry ttl n ask seen cache k e h = elim (Bool-cases seen.enabled) [
    | inr b ↦ ground arith
    | inl b ↦
        elim (from_cache_entry n ask seen (cache_get ttl seen.now (cache_key ask) cache) k e (
          subst
            (λ (v : Bool).
              lookup k
                (if not v
                  then (disabled, cache)
                  else from_cache n ask seen.attempt
                      (cache_get ttl seen.now (cache_key ask) cache)).1
              ≡ some e)
            b h)) [
              | inl p ↦ inl p
              | inr p ↦ inr (cache_get_entry ttl seen.now (cache_key ask) k cache e p)
            ]
  ]

  -- The cache after the calls, the latest first.
  unfoldable pub after : F → ℕ → List (Ask × Seen F) → Cache F
  after ttl n [] = []
  after ttl n ((ask, seen) ∷ earlier) = (get_analysis ttl n ask seen (after ttl n earlier)).1

  after_entry :
      (ttl : F) (n : ℕ) (calls : List (Ask × Seen F)) (k : Key) (e : F × TvAnalysis F)
      → lookup k (after ttl n calls) ≡ some e
      → Any (PutBy k e) calls
  unfolding after lookup
  after_entry ttl n [] k e h = ground arith
  after_entry ttl n ((ask, seen) ∷ earlier) k e h =
      elim (get_analysis_entry ttl n ask seen (after ttl n earlier) k e h) [
        | inl p ↦ inl p
        | inr p ↦ inr (after_entry ttl n earlier k e p)
      ]

  put-IsLabelled :
      (k : Key) (ts : F) (a : TvAnalysis F) (calls : List (Ask × Seen F))
      → Any (PutBy k (ts, a)) calls
      → IsLabelled k a
  put-IsLabelled k ts a [] h = elim h [ ]
  put-IsLabelled k ts a ((ask, seen) ∷ calls) (inl (q, (i, p, t))) =
      subst (λ (j : Key). IsLabelled j a) q (fetch-IsLabelled ask (seen.attempt i) a p)
  put-IsLabelled k ts a (c ∷ calls) (inr p) = put-IsLabelled k ts a calls p

  fetched-IsLabelled :
      (n : ℕ) (ask : Ask) (attempt : ℕ → Try F) (a : TvAnalysis F)
      → FetchedBy n ask attempt a
      → IsLabelled (cache_key ask) a
  fetched-IsLabelled n ask attempt a (i, p, q, h) = fetch-IsLabelled ask (attempt i) a h

  retry_answer :
      (ask : Ask) (attempt : ℕ → Try F) (left n : ℕ) (cache : Cache F) (a : TvAnalysis F)
      → (retry ask attempt left n cache).0 ≡ analysis a
      → (i : ℕ) × (n ≤ i) × (i < left + n) × (fetch ask (attempt i) ≡ some a)
  unfolding retry
  retry_answer ask attempt zero n cache a h = ground arith
  retry_answer ask attempt (suc left) n cache a h = elim (Option-cases (fetch ask (attempt n))) [
    | inl q ↦
        let (i, l, u, p) = retry_answer ask attempt left (suc n) cache a (ground arith) in
        (i, omega arith, omega arith, p)
    | inr (b, q) ↦ (n, omega arith, omega arith, ground arith)
  ]

  -- What `cache_get` answers is an entry that is not too old.
  cache_get_answer :
      (ttl now : F) (k : Key) (cache : Cache F) (a : TvAnalysis F)
      → (cache_get ttl now k cache).0 ≡ some a
      → (ts : F) × (lookup k cache ≡ some (ts, a)) × (lt ttl (sub now ts) ≡ false)
  unfolding cache_get
  cache_get_answer ttl now k cache a h = elim (Option-cases (lookup k cache)) [
    | inl n ↦ ground arith
    | inr ((ts, b), n) ↦ elim (Bool-cases (lt ttl (sub now ts))) [
      | inl t ↦ ground arith
      | inr t ↦ (ts, ground arith, t)
    ]
  ]

  abbrev AnsweredBy : F → ℕ → Ask → Seen F → Cache F → TvAnalysis F → Type 0
  AnsweredBy ttl n ask seen cache a =
      FetchedBy n ask seen.attempt a
      ⊎ ((ts : F) × (lookup (cache_key ask) cache ≡ some (ts, a))
          × (lt ttl (sub seen.now ts) ≡ false))

  from_cache_source :
      (ttl : F) (n : ℕ) (ask : Ask) (seen : Seen F) (cache : Cache F)
      (o : Option (TvAnalysis F) × Cache F) (a : TvAnalysis F)
      → cache_get ttl seen.now (cache_key ask) cache ≡ o
      → (from_cache n ask seen.attempt o).0 ≡ analysis a
      → AnsweredBy ttl n ask seen cache a
  from_cache_source ttl n ask seen cache (some b, c) a q h =
      inr (cache_get_answer ttl seen.now (cache_key ask) cache a (ground arith))
  from_cache_source ttl n ask seen cache (none, c) a q h =
      let (i, l, u, p) = retry_answer ask seen.attempt n 1 c a h in inl (i, l, omega arith, p)

  answer_source :
      (ttl : F) (n : ℕ) (ask : Ask) (seen : Seen F) (cache : Cache F) (a : TvAnalysis F)
      → (get_analysis ttl n ask seen cache).0 ≡ analysis a
      → AnsweredBy ttl n ask seen cache a
  unfolding get_analysis
  answer_source ttl n ask seen cache a h =
      from_cache_source ttl n ask seen cache _ a refl (ground arith)

  -- Whatever calls went before on the cache that was empty at first, an analysis that
  -- `get_analysis` answers has the symbol, exchange and interval that were asked for, and it was
  -- fetched in one of the first `max_retries` attempts of this call, or stored by an earlier call
  -- for the same three, at a time from which no more than the time to live has passed.
  pub answer_is_asked :
      (ttl : F) (max_retries : ℕ) (calls : List (Ask × Seen F)) (ask : Ask) (seen : Seen F)
      (a : TvAnalysis F)
      → (get_analysis ttl max_retries ask seen (after ttl max_retries calls)).0 ≡ analysis a
      → IsLabelled (cache_key ask) a
        × (FetchedBy max_retries ask seen.attempt a
            ⊎ ((ts : F) × Any (PutBy (cache_key ask) (ts, a)) calls
                × (lt ttl (sub seen.now ts) ≡ false)))
  answer_is_asked ttl n calls ask seen a h =
      elim (answer_source ttl n ask seen (after ttl n calls) a h) [
        | inl p ↦ (fetched-IsLabelled n ask seen.attempt a p, inl p)
        | inr (ts, p, q) ↦
            let put = after_entry ttl n calls (cache_key ask) (ts, a) p in
            (put-IsLabelled (cache_key ask) ts a calls put, inr (ts, put, q))
      ]
