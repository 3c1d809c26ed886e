-- ===== src/Backtest/Windows.antt =====
-- trading-engine/cli/walk_forward.py: `_windows`. A date is a number of days, and so are the lengths
-- and the step, which are not negative. The loop takes fuel; `none` means that it ran out.
use forex_bot.Common.{
  ℕ, zero, suc, ◌+◌, ◌*◌, ◌≤◌, ◌<◌, ◌≡◌, refl, Option, none, some, List, [], ◌∷◌, All, ltb,
  if◌then◌else◌, Bool-cases, inl, inr, arith,
}

pub record Window : Type 0 where
  pub train_start : ℕ
  pub train_end : ℕ
  pub test_start : ℕ
  pub test_end : ℕ

module _ (end train test step : ℕ) where
  abbrev pub window : ℕ → Window
  window cur = record {
    train_start = cur;
    train_end = cur + train;
    test_start = cur + train;
    test_end = cur + train + test;
  }

  abbrev pub with_first : Window → Option (List Window) → Option (List Window)
  with_first w none = none
  with_first w (some ws) = some (w ∷ ws)

  unfoldable pub windows : ℕ → ℕ → Option (List Window)
  windows zero cur = none
  windows (suc fuel) cur =
      let rest = windows fuel (cur + step) in
      if ltb end (cur + train + test) then some [] else with_first (window cur) rest

  -- The first n windows from a date on.
  abbrev pub rolled : ℕ → ℕ → List Window
  rolled zero cur = []
  rolled (suc n) cur = window cur ∷ rolled n (cur + step)

  abbrev pub InTime : List Window → Type 0
  InTime ws = All (λ w. w.test_end ≤ end) ws

  roll :
      (fuel cur : ℕ)
      → 0 < step
      → 0 < fuel
      → end + 1 < cur + fuel
      → (n : ℕ) × (windows fuel cur ≡ some (rolled n cur))
        × InTime (rolled n cur)
        × (end < cur + n * step + train + test)
  unfolding windows
  roll zero cur s f h = elim f [ ]
  roll (suc fuel) cur s f h = elim (Bool-cases (ltb end (cur + train + test))) [
    | inl e ↦ (0, ground arith, tt, ground arith)
    | inr e ↦
        let (n, w, a, b) = roll fuel (cur + step) s (ground arith) (ground arith) in
        (suc n, ground arith, (ground arith, a), ground arith)
  ]

  -- With a step of at least one day the walk ends: it yields the windows from the start on, a step
  -- apart, the test right after the training, as many as end by the last date, and no more would fit.
  -- As many rounds as two more than the number of the last date are always enough.
  pub walk_ends :
      (fuel start : ℕ)
      → 0 < step
      → end + 2 ≤ fuel
      → (n : ℕ) × (windows fuel start ≡ some (rolled n start))
        × InTime (rolled n start)
        × (end < start + n * step + train + test)
  walk_ends fuel start s f = roll fuel start s (omega arith) (omega arith)

  -- With a step of 0 it never ends once a window fits.
  pub walk_hangs :
      (fuel start : ℕ) → step ≡ 0 → start + train + test ≤ end → windows fuel start ≡ none
  unfolding windows
  walk_hangs zero start z h = refl
  walk_hangs (suc fuel) start z h = ground (arith, walk_hangs fuel (start + step) z (omega arith))
