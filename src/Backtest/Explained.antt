-- ===== src/Backtest/Explained.antt =====
-- trading-engine/backtest/runner.py: what the simulated trades are.
use forex_bot.Common.{◌≡◌, refl, ap, ◌⊎◌, inl, inr, Option, none, some, List, [], ◌∷◌, ◌++◌, All}
use forex_bot.Common.Cases.{option_case}
use forex_bot.Common.Float.{Float}
use forex_bot.Backtest.Trades.{
  Bar, CostModel, Trade, Open, exit_price, closed, enter, simulate_trades,
}

module _ {F : Type 0} ⦃f : Float F⦄ (cost : CostModel F) where
  -- No bar opens a trade.
  abbrev pub Idle : List (Bar F) → Type 0
  Idle bars = All (λ b. enter cost b ≡ none) bars

  -- No bar reaches the stop or the target.
  abbrev pub Rides : Open F → List (Bar F) → Type 0
  Rides o bars = All (λ b. exit_price cost o b ≡ none) bars

  -- The trades, read off the bars: each is opened by the first bar after the last exit that opens
  -- one, and closed by the first bar after that which reaches its stop or target. After the last
  -- exit no bar opens a trade, or one does that no later bar closes.
  abbrev pub Explains : List (Bar F) → List (Trade F) → Type 0
  Explains bars [] =
      Idle bars
      ⊎ ((before : List (Bar F)) × (b : Bar F) × (o : Open F) × (after : List (Bar F)) × (bars
            ≡ before ++ (b ∷ after))
          × Idle before
          × (enter cost b ≡ some o)
          × Rides o after)
  Explains bars (t ∷ ts) =
      (before : List (Bar F)) × (b : Bar F) × (o : Open F) × (ride : List (Bar F)) × (last : Bar F)
      × (price : F) × (rest : List (Bar F)) × (bars ≡ before ++ (b ∷ (ride ++ (last ∷ rest))))
      × Idle before
      × (enter cost b ≡ some o)
      × Rides o ride
      × (exit_price cost o last ≡ some price)
      × (t ≡ closed cost o last price)
      × Explains rest ts

  -- The same from within a trade.
  abbrev Continues : Open F → List (Bar F) → List (Trade F) → Type 0
  Continues o bars [] = Rides o bars
  Continues o bars (t ∷ ts) =
      (ride : List (Bar F)) × (last : Bar F) × (price : F) × (rest : List (Bar F)) × (bars
        ≡ ride ++ (last ∷ rest))
      × Rides o ride
      × (exit_price cost o last ≡ some price)
      × (t ≡ closed cost o last price)
      × Explains rest ts

  abbrev From : Option (Open F) → List (Bar F) → List (Trade F) → Type 0
  From none bars ts = Explains bars ts
  From (some o) bars ts = Continues o bars ts

  skip :
      (b : Bar F) (bars : List (Bar F)) (ts : List (Trade F))
      → enter cost b ≡ none
      → Explains bars ts
      → Explains (b ∷ bars) ts
  skip b bars [] e (inl i) = inl (e, i)
  skip b bars [] e (inr (before, c, o, after, q, i, h, r)) =
      inr (b ∷ before, c, o, after, ap (λ bs. b ∷ bs) q, (e, i), h, r)
  skip b bars (t ∷ ts) e (before, c, o, ride, last, price, rest, q, i, h, r, x, y, z) =
      (b ∷ before, c, o, ride, last, price, rest, ap (λ bs. b ∷ bs) q, (e, i), h, r, x, y, z)

  start :
      (b : Bar F) (o : Open F) (bars : List (Bar F)) (ts : List (Trade F))
      → enter cost b ≡ some o
      → Continues o bars ts
      → Explains (b ∷ bars) ts
  start b o bars [] e r = inr ([], b, o, bars, refl, tt, e, r)
  start b o bars (t ∷ ts) e (ride, last, price, rest, q, r, x, y, z) =
      ([], b, o, ride, last, price, rest, ap (λ bs. b ∷ bs) q, tt, e, r, x, y, z)

  hold :
      (b : Bar F) (o : Open F) (bars : List (Bar F)) (ts : List (Trade F))
      → exit_price cost o b ≡ none
      → Continues o bars ts
      → Continues o (b ∷ bars) ts
  hold b o bars [] e r = (e, r)
  hold b o bars (t ∷ ts) e (ride, last, price, rest, q, r, x, y, z) =
      (b ∷ ride, last, price, rest, ap (λ bs. b ∷ bs) q, (e, r), x, y, z)

  entered :
      (b : Bar F) (bars : List (Bar F)) (state : Option (Open F))
      → enter cost b ≡ state
      → From state bars (simulate_trades cost state bars)
      → Explains (b ∷ bars) (simulate_trades cost state bars)
  entered b bars none e h = skip b bars _ e h
  entered b bars (some o) e h = start b o bars _ e h

  explain :
      (state : Option (Open F)) (bars : List (Bar F))
      → From state bars (simulate_trades cost state bars)
  unfolding simulate_trades
  explain none [] = inl tt
  explain (some o) [] = tt
  explain none (b ∷ bars) = entered b bars (enter cost b) refl (explain (enter cost b) bars)
  explain (some o) (b ∷ bars) =
      option_case (λ ts. Continues o (b ∷ bars) ts) (exit_price cost o b) _ _
        (λ e. hold b o bars _ e (explain (some o) bars))
        (λ price e. ([], b, price, bars, refl, tt, e, refl, explain none bars))

  -- The simulated trades are those that the bars explain, each with its cost and result: they do not
  -- overlap, a signal during a trade or on the bar of its exit is passed over, and a trade that no
  -- bar closes is left out.
  pub simulated_trades : (bars : List (Bar F)) → Explains bars (simulate_trades cost none bars)
  simulated_trades bars = explain none bars
