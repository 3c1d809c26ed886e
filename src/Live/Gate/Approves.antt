-- ===== src/Live/Gate/Approves.antt =====
-- trading-engine/live/gate.py: when the gate approves.
use forex_bot.Common.{
  true, false, inl, inr, Bool-cases, Option, none, some, List, [], ◌∷◌, ◌++◌, all_of, ◌≡◌, ◌≢◌,
  refl, ◌≤◌, ◌↔◌, arith,
}
use forex_bot.Common.Float.{Float, lt, le, lit, abs}
use forex_bot.Common.Result.{Result, ok, err}
use forex_bot.Live.Gate.Queries.{
  Schema, Query, is_column, has_names, fetch_row, backtest_query, paper_query, risk_query, migrated,
}
use forex_bot.Common.Text.{text_beq}
use forex_bot.Common.Dict.{lookup}
use forex_bot.Live.Gate.{
  Value, missing, number, no_number, BacktestRow, PaperRow, RiskParams, LiveCheck, GateVerdict,
  or_zero, or_nought, days_of, sharpe, backtest_checks, paper_checks, risk_checks, ranges,
  ranges_of, float_of, with_risk, evaluate_rows, evaluate_live_gate,
}

abbrev pub IsApproved : Result GateVerdict → Type 0
IsApproved (err e) = ⊥
IsApproved (ok v) = v.approved ≡ true

-- A list of checks passes.
abbrev AllPass : List LiveCheck → Type 0
AllPass cs = all_of (λ (c : LiveCheck). c.passed) cs ≡ true

all-append : (xs ys : List LiveCheck) → AllPass (xs ++ ys) ↔ (AllPass xs × AllPass ys)
all-append [] ys = ground arith
all-append (x ∷ xs) ys = ground (arith, all-append xs ys)

-- The checks that are there come first, and the gate has one at least.
approves_ok :
    (cs risks : List LiveCheck)
    → cs ≢ []
    → IsApproved (with_risk cs (ok risks)) ↔ (AllPass cs × AllPass risks)
approves_ok [] risks h = elim (h refl) [ ]
approves_ok (c ∷ cs) risks h = ground (arith, all-append cs risks)

-- Of a row that is read only if the database has what the query names.
abbrev pub Reads : {R : Type 0} → (Option R → Type 0) → Schema → Query → Option R → Type 0
Reads P schema query answer = (has_names schema query ≡ true) × P answer

not_true : false ≡ true → ⊥
not_true h = cc

read_iff :
    {R : Type 0} (P : Option R → Type 0) (schema : Schema) (q : Query) (o : Option R)
    → (P none → ⊥)
    → P (fetch_row schema q o) ↔ Reads P schema q o
unfolding fetch_row
read_iff P schema q o n = elim (Bool-cases (has_names schema q)) [
  | inl h ↦ rw h ((λ x. (refl, x)), λ x. x.1)
  | inr h ↦ rw h ((λ x. absurd (n x)), λ x. absurd (not_true x.0))
]

never_reads : has_names migrated backtest_query ≡ true → ⊥
unfolding has_names is_column lookup text_beq
never_reads h = cc

module _ {F : Type 0} ⦃f : Float F⦄ where
  abbrev pub BacktestPasses : Option (BacktestRow F) → Type 0
  BacktestPasses none = ⊥
  BacktestPasses (some bt) =
      (lt (lit 13 1) (or_nought bt.profit_factor) ≡ true)
      × (lt (abs (or_nought bt.max_drawdown_pct)) (lit 25 0) ≡ true)
      × (le (lit 1095 0) (days_of bt.span_sec) ≡ true)
      × (30 ≤ or_zero bt.total_trades)

  abbrev pub PaperPasses : Option (PaperRow F) → Type 0
  PaperPasses none = ⊥
  PaperPasses (some p) =
      (le (lit 14 0) (days_of p.run_sec) ≡ true)
      × (10 ≤ or_zero p.trades_count)
      × (le (lit 5 1) (sharpe p) ≡ true)

  -- The value, or the default of the code, lies in the range.
  abbrev pub InRange : F → F → F → Value F → Type 0
  InRange lo hi d missing = (lt lo d ≡ true) × (le d hi ≡ true)
  InRange lo hi d (number x) = (lt lo x ≡ true) × (le x hi ≡ true)
  InRange lo hi d no_number = ⊥

  abbrev pub RiskPasses : Option (RiskParams F) → Type 0
  RiskPasses none = Unit
  RiskPasses (some p) =
      InRange (lit 1 1) (lit 2 0) (lit 1 0) p.risk_per_trade_pct
      × InRange (lit 5 0) (lit 20 0) (lit 15 0) p.max_drawdown_pct

  backtest_iff : (bt : BacktestRow F) → (AllPass (backtest_checks bt)) ↔ BacktestPasses (some bt)
  unfolding backtest_checks
  backtest_iff bt = ground arith

  paper_iff : (paper : Option (PaperRow F)) → (AllPass (paper_checks paper)) ↔ PaperPasses paper
  unfolding paper_checks
  paper_iff none = ground arith
  paper_iff (some p) = ground arith

  ranges_iff :
      (rpt mdd : F)
      → AllPass (ranges rpt mdd) ↔ (
          ((lt (lit 1 1) rpt ≡ true) × (le rpt (lit 2 0) ≡ true))
          × ((lt (lit 5 0) mdd ≡ true) × (le mdd (lit 20 0) ≡ true)))
  ranges_iff rpt mdd = ground arith

  in_ranges :
      (cs : List LiveCheck) (x y : F)
      → cs ≢ []
      → IsApproved (with_risk cs (ok (ranges x y))) ↔ (
          AllPass cs
          × (((lt (lit 1 1) x ≡ true) × (le x (lit 2 0) ≡ true))
              × ((lt (lit 5 0) y ≡ true) × (le y (lit 20 0) ≡ true))))
  in_ranges cs x y h =
      let (to, from) = approves_ok cs (ranges x y) h in
      let (there, back) = ranges_iff x y in
      (λ i. ((to i).0, there (to i).1), λ i. from (i.0, back i.1))

  approves_risk :
      (cs : List LiveCheck) (x y : Value F)
      → cs ≢ []
      → IsApproved (with_risk cs (ranges_of (float_of x (lit 1 0)) (float_of y (lit 15 0)))) ↔ (
          AllPass cs
          × (InRange (lit 1 1) (lit 2 0) (lit 1 0) x × InRange (lit 5 0) (lit 20 0) (lit 15 0) y))
  approves_risk cs missing missing h = in_ranges cs (lit 1 0) (lit 15 0) h
  approves_risk cs missing (number y) h = in_ranges cs (lit 1 0) y h
  approves_risk cs missing no_number h = ground arith
  approves_risk cs (number x) missing h = in_ranges cs x (lit 15 0) h
  approves_risk cs (number x) (number y) h = in_ranges cs x y h
  approves_risk cs (number x) no_number h = ground arith
  approves_risk cs no_number y h = ground arith

  approves_some :
      (cs : List LiveCheck) (risk : Option (RiskParams F))
      → cs ≢ []
      → IsApproved (with_risk cs (risk_checks risk)) ↔ (AllPass cs × RiskPasses risk)
  unfolding risk_checks
  approves_some cs none h =
      let (to, from) = approves_ok cs [] h in (λ i. ((to i).0, tt), λ i. from (i.0, refl))
  approves_some cs (some p) h = approves_risk cs p.risk_per_trade_pct p.max_drawdown_pct h

  rows_iff :
      (bt : Option (BacktestRow F)) (paper : Option (PaperRow F)) (risk : Option (RiskParams F))
      → IsApproved (evaluate_rows bt paper risk)
        ↔ (BacktestPasses bt × PaperPasses paper × RiskPasses risk)
  unfolding evaluate_rows backtest_checks
  rows_iff none paper risk = ground arith
  rows_iff (some bt) paper risk =
      let some_iff = approves_some (backtest_checks bt ++ paper_checks paper) risk (λ e. cc) in
      let split = all-append (backtest_checks bt) (paper_checks paper) in
      (
        λ h.
            let (p, r) = some_iff.0 h in
            let (x, y) = split.0 p in ((backtest_iff bt).0 x, (paper_iff paper).0 y, r),
        λ h. some_iff.1 (split.1 ((backtest_iff bt).1 h.0, (paper_iff paper).1 h.1), h.2),
      )

  -- The gate approves exactly when the database has the tables and columns that the query on
  -- backtests and the query on paper trading name; a completed backtest is read whose profit factor,
  -- drawdown, days and trades pass; a row of the paper trading is read whose days, trades and Sharpe
  -- ratio pass; and the parameters, where they are read and not empty, have a risk per trade and a
  -- drawdown in their ranges, the defaults of the gate standing for a missing one. On the tables
  -- that the migrations make it never approves, whatever they hold.
  pub approves_iff :
      (schema : Schema) (bt : Option (BacktestRow F)) (paper : Option (PaperRow F))
      (risk : Option (RiskParams F))
      → (IsApproved (evaluate_live_gate schema bt paper risk) ↔ (
          Reads BacktestPasses schema backtest_query bt
          × Reads PaperPasses schema paper_query paper
          × RiskPasses (fetch_row schema risk_query risk)))
        × ¬ IsApproved (evaluate_live_gate migrated bt paper risk)
  unfolding evaluate_live_gate
  approves_iff schema bt paper risk =
      let rows = λ (s : Schema).
        rows_iff (fetch_row s backtest_query bt) (fetch_row s paper_query paper)
          (fetch_row s risk_query risk) in
      let b = read_iff BacktestPasses schema backtest_query bt (λ x. x) in
      let p = read_iff PaperPasses schema paper_query paper (λ x. x) in
      (
        (
          λ h. let (x, y, z) = (rows schema).0 h in (b.0 x, p.0 y, z),
          λ h. (rows schema).1 (b.1 h.0, p.1 h.1, h.2),
        ),
        λ h.
            never_reads
              ((read_iff BacktestPasses migrated backtest_query bt (λ x. x)).0
                ((rows migrated).0 h).0).0,
      )
