-- ===== src/TradingView/Entered.antt =====
-- trading-engine/strategies/tv_signal.py with tradingview/scorer.py: when the live path enters.
use forex_bot.Common.{
  ℕ, ◌+◌, ◌≤◌, ◌≡◌, refl, ap, ◌∙◌, subst, Bool, true, false, not, ◌&&◌, ◌⊎◌, ◌↔◌, ◌≢◌, inl, some,
  List, [], ◌∷◌, length, arith,
}
use forex_bot.Common.Text.{Text}
use forex_bot.Common.Dict.{Dict}
use forex_bot.Common.Float.{Float, neg, lt, le, nought}
use forex_bot.Backtest.Trades.{SignalRow}
use forex_bot.TradingView.Scorer.{
  TvAnalysis, Tally, rec_score, tally, tally_one, no_tally, ratio, score, max_ℕ,
}
use forex_bot.TradingView.Client.{Seen, Cache, analyses_of, count_if}
use forex_bot.TradingView.Signal.{
  TvParams, TvStrategy, LastBar, TvClient, resolved, in_cool_down, long_row, short_row, entry_row,
  range_of, scored_signal, fill_live_signal,
}

most_eq :
    (b d n x y z : ℕ)
    → b ≡ 0 + x
    → d ≡ 0 + y
    → n ≡ 0 + z
    → max_ℕ (max_ℕ b d) n ≡ max_ℕ (max_ℕ x y) z
most_eq b d n x y z p q r = ground arith

most_neither : (u d n : ℕ) → u ≤ n → d ≤ n → n ≡ max_ℕ (max_ℕ u d) n
most_neither u d n p q = ground arith

module _ {F : Type 0} ⦃f : Float F⦄ where
  abbrev pub is_up : TvAnalysis F → Bool
  is_up a = lt nought (rec_score a)

  abbrev pub is_down : TvAnalysis F → Bool
  is_down a = not (is_up a) && lt (rec_score a) nought

  abbrev pub is_neither : TvAnalysis F → Bool
  is_neither a = not (is_up a) && not (lt (rec_score a) nought)

  -- The loop counts the analyses by the sign of their scores.
  tally_counts :
      (weights : Dict Text F) (as' : List (TvAnalysis F)) (t : Tally F)
      → ((tally weights as' t).bullish ≡ t.bullish + count_if is_up as')
        × ((tally weights as' t).bearish ≡ t.bearish + count_if is_down as')
        × ((tally weights as' t).neutral ≡ t.neutral + count_if is_neither as')
  unfolding tally tally_one count_if
  tally_counts weights [] t = ground arith
  tally_counts weights (a ∷ as') t =
      ground (arith, tally_counts weights as' (tally_one weights a t))

  -- The number of the analyses on the side that most are on.
  abbrev pub most : List (TvAnalysis F) → ℕ
  most as' = max_ℕ (max_ℕ (count_if is_up as') (count_if is_down as')) (count_if is_neither as')

  score-agreement :
      (weights : Dict Text F) (a : TvAnalysis F) (as' : List (TvAnalysis F))
      → (score weights (a ∷ as')).agreement_pct ≡ ratio (most (a ∷ as')) (length (a ∷ as'))
  unfolding score
  score-agreement weights a as' =
      let (u, d, n) = tally_counts weights (a ∷ as') no_tally in
      ap (λ (m : ℕ). ratio m (length (a ∷ as'))) (most_eq _ _ _ _ _ _ u d n)

  -- The side of the entry, by the score alone.
  abbrev pub OnSide : TvStrategy F → LastBar F → F → SignalRow F → Type 0
  OnSide s bar sc row =
      ((le s.params.entry_score_threshold sc ≡ true)
        × (row ≡ long_row s.params bar.close (range_of bar)))
      ⊎ ((le s.params.entry_score_threshold sc ≡ false)
          × (le sc (neg s.params.entry_score_threshold) ≡ true)
          × (row ≡ short_row s.params bar.close (range_of bar)))

  abbrev pub IsEntry : TvStrategy F → LastBar F → List (TvAnalysis F) → SignalRow F → Type 0
  IsEntry s bar as' row =
      (as' ≢ [])
      × (in_cool_down s bar.at ≡ false)
      × (le (range_of bar) nought ≡ false)
      × (le s.params.min_agreement_pct (ratio (most as') (length as')) ≡ true)
      × OnSide s bar (score s.weights as').score row

  entry_row_iff :
      (p : TvParams F) (entry atr sc agreement : F) (row : SignalRow F)
      → (entry_row p entry atr sc agreement ≡ some row) ↔ (
          (le p.min_agreement_pct agreement ≡ true)
          × (((le p.entry_score_threshold sc ≡ true) × (row ≡ long_row p entry atr))
              ⊎ ((le p.entry_score_threshold sc ≡ false)
                  × (le sc (neg p.entry_score_threshold) ≡ true)
                  × (row ≡ short_row p entry atr))))
  unfolding entry_row
  entry_row_iff p entry atr sc agreement row = ground arith

  scored_iff :
      (s : TvStrategy F) (bar : LastBar F) (as' : List (TvAnalysis F)) (row : SignalRow F)
      → ((scored_signal s bar as').0 ≡ some row) ↔ IsEntry s bar as' row
  scored_iff s bar [] row = (λ h. cc, λ h. elim (h.0 refl) [ ])
  scored_iff s bar (a ∷ as') row = ground (
    arith,
    score-agreement s.weights a as',
    entry_row_iff s.params bar.close (range_of bar) (score s.weights (a ∷ as')).score
        (score s.weights (a ∷ as')).agreement_pct row,
  )

  -- The live path fills the last row with a signal exactly when some analysis came, the strategy
  -- is not cooling down, the range of the bar is a number that is not at most zero, the part of
  -- the analyses on the side that most are on, of up, down and neither, is at least
  -- `min_agreement_pct`, and the score is at least the threshold, where it is the long row, or
  -- not so and at most minus the threshold, where it is the short row.
  pub entered_iff :
      (client : TvClient F) (s : TvStrategy F) (bar : LastBar F) (ivs : List (Text × Seen F))
      (cache : Cache F) (row : SignalRow F)
      → ((fill_live_signal client s bar ivs cache).0 ≡ some row)
        ↔ IsEntry s bar (analyses_of client.ttl client.max_retries (resolved s) ivs cache).0 row
  unfolding fill_live_signal
  entered_iff client s bar ivs cache row =
      scored_iff s bar (analyses_of client.ttl client.max_retries (resolved s) ivs cache).0 row

  -- Where no more analyses are up, and no more are down, than are neither, and the part that is
  -- neither is at least `min_agreement_pct`, a score at the threshold enters long, out of the
  -- cool-down on a bar with a range that is not at most zero: the agreement that is asked for need
  -- not be one on the side of the entry.
  pub neutral_majority_enters :
      (client : TvClient F) (s : TvStrategy F) (bar : LastBar F) (ivs : List (Text × Seen F))
      (cache : Cache F) (a : TvAnalysis F) (as' : List (TvAnalysis F))
      → (analyses_of client.ttl client.max_retries (resolved s) ivs cache).0 ≡ a ∷ as'
      → count_if is_up (a ∷ as') ≤ count_if is_neither (a ∷ as')
      → count_if is_down (a ∷ as') ≤ count_if is_neither (a ∷ as')
      → le s.params.min_agreement_pct (ratio (count_if is_neither (a ∷ as')) (length (a ∷ as')))
        ≡ true
      → le s.params.entry_score_threshold (score s.weights (a ∷ as')).score ≡ true
      → in_cool_down s bar.at ≡ false
      → le (range_of bar) nought ≡ false
      → (fill_live_signal client s bar ivs cache).0
        ≡ some (long_row s.params bar.close (range_of bar))
  unfolding fill_live_signal
  neutral_majority_enters client s bar ivs cache a as' e u d m t c r =
      ap (λ (l : List (TvAnalysis F)). (scored_signal s bar l).0) e
      ∙ (scored_iff s bar (a ∷ as') (long_row s.params bar.close (range_of bar))).1 (
        λ x. cc,
        c,
        r,
        subst (λ (n : ℕ). le s.params.min_agreement_pct (ratio n (length (a ∷ as'))) ≡ true)
            (most_neither (count_if is_up (a ∷ as')) (count_if is_down (a ∷ as')) _ u d) m,
        inl (t, refl),
      )
