-- ===== src/Live/Breaker/Slippage.antt =====
-- trading-engine/live/circuit_breaker.py: the baseline of slippage.
use forex_bot.Common.{
  ℕ, zero, suc, ◌≤◌, ◌<◌, ◌≡◌, Option, none, some, List, [], ◌∷◌, ◌++◌, inl, inr, arith, refl, leb,
  if◌then◌else◌, length, length-append, get_elem?, Bool-cases, leb→le, ◌∙◌, sym,
}
use mathlib.Core.List.{Perm}
use mathlib.Core.List.Perm
use mathlib.Core.Path.{ap₂}
use forex_bot.Common.Float.{Float, lt}
use forex_bot.Live.Breaker.{
  CircuitBreaker, BreakerState, BreakerLimits, roll_day, on_equity, on_trade_closed, insert_sorted,
  sorted, median, on_broker_ok, on_slippage_sample, check_daily_loss, check_broker, check_slippage,
  judge, verdict, init,
}
use forex_bot.Live.Breaker.Killed.{
  Call, equity, trade_closed, broker_ok, slippage_sample, asked, step, run,
}

module _ {A : Type 0} where
  abbrev pub take : ℕ → List A → List A
  take zero xs = []
  take (suc n) [] = []
  take (suc n) (x ∷ xs) = x ∷ take n xs

  take-append_le : (n : ℕ) (xs ys : List A) → n ≤ length xs → take n (xs ++ ys) ≡ take n xs
  take-append_le zero xs ys h = refl
  take-append_le (suc n) [] ys h = absurd (omega arith)
  take-append_le (suc n) (x ∷ xs) ys h = rw (take-append_le n xs ys (omega arith))

  take_all : (n : ℕ) (xs : List A) → length xs ≡ n → take n xs ≡ xs
  take_all zero [] h = refl
  take_all zero (x ∷ xs) h = absurd (omega arith)
  take_all (suc n) [] h = refl
  take_all (suc n) (x ∷ xs) h = rw (take_all n xs (omega arith))

  get_elem?-some : (xs : List A) (i : ℕ) → i < length xs → (x : A) × (get_elem? xs i ≡ some x)
  get_elem?-some [] i h = absurd (omega arith)
  get_elem?-some (x ∷ xs) zero h = (x, refl)
  get_elem?-some (x ∷ xs) (suc i) h = get_elem?-some xs i (omega arith)

  length-take : (n : ℕ) (xs : List A) → n ≤ length xs → length (take n xs) ≡ n
  length-take zero xs h = refl
  length-take (suc n) [] h = absurd (omega arith)
  length-take (suc n) (x ∷ xs) h = omega (arith, length-take n xs (omega arith))

module _ {F : Type 0} ⦃f : Float F⦄ where
  -- The median of the first samples, once there are as many as the limit wants.
  abbrev pub expected : ℕ → List F → Option F
  expected n xs = if leb n (length xs) then median (take n xs) else none

  abbrev HasBaseline : CircuitBreaker F → Type 0
  HasBaseline b =
      b.state.slippage_baseline ≡ expected b.limits.slippage_min_samples b.state.slippage_samples

  insert_sorted-perm : (x : F) (ys : List F) → Perm (insert_sorted x ys) (x ∷ ys)
  unfolding insert_sorted
  insert_sorted-perm x [] = Perm.refl _
  insert_sorted-perm x (y ∷ ys) = elim (Bool-cases (lt y x)) [
    | inl e ↦ rw e (Perm.trans (Perm.cons y (insert_sorted-perm x ys)) (Perm.swap _ _ _))
    | inr e ↦ rw e (Perm.refl _)
  ]

  -- Sorting the samples loses none and invents none.
  sorted-perm : (xs : List F) → Perm (sorted xs) xs
  unfolding sorted
  sorted-perm [] = Perm.refl _
  sorted-perm (x ∷ xs) =
      Perm.trans (insert_sorted-perm x (sorted xs)) (Perm.cons x (sorted-perm xs))

  length-insert_sorted : (x : F) (ys : List F) → length (insert_sorted x ys) ≡ suc (length ys)
  unfolding insert_sorted
  length-insert_sorted x [] = refl
  length-insert_sorted x (y ∷ ys) = ground (arith, length-insert_sorted x ys)

  length-sorted : (xs : List F) → length (sorted xs) ≡ length xs
  unfolding sorted
  length-sorted [] = refl
  length-sorted (x ∷ xs) = omega (arith, length-insert_sorted x (sorted xs), length-sorted xs)

  -- There is a median as soon as there is a sample.
  median_total : (xs : List F) → 0 < length xs → (x : F) × (median xs ≡ some x)
  unfolding median
  median_total xs h = get_elem?-some (sorted xs) _ (omega (arith, length-sorted xs))

  sample-HasBaseline :
      (x : F) (b : CircuitBreaker F)
      → 0 < b.limits.slippage_min_samples
      → HasBaseline b
      → HasBaseline (on_slippage_sample x b)
  unfolding on_slippage_sample
  sample-HasBaseline x b h k =
      let n = b.limits.slippage_min_samples in
      let ys = b.state.slippage_samples in
      elim (Bool-cases (leb n (length ys))) [
        | inl e ↦
            let (m, found) =
              median_total (take n ys) (omega (arith, length-take n ys (leb→le n _ e), h)) in
            ground (arith, k, found, take-append_le n ys (x ∷ []), length-append ys (x ∷ []))
        | inr e ↦ ground (arith, k, take_all n (ys ++ x ∷ []), length-append ys (x ∷ []))
      ]

  -- What the other calls leave alone.
  record Keeps (b c : CircuitBreaker F) : Type 0 where
    limits_same : c.limits ≡ b.limits
    samples_same : c.state.slippage_samples ≡ b.state.slippage_samples
    baseline_same : c.state.slippage_baseline ≡ b.state.slippage_baseline

  Keeps-HasBaseline : (b c : CircuitBreaker F) → Keeps b c → HasBaseline b → HasBaseline c
  Keeps-HasBaseline b c k h =
      k.baseline_same
      ∙ h
      ∙ sym (
          ap₂ (λ (l : BreakerLimits F) (xs : List F). expected l.slippage_min_samples xs)
            k.limits_same k.samples_same)

  broker-Keeps :
      (now : F) (l : BreakerLimits F) (s : BreakerState F)
      → Keeps
          (record { limits = l; state = s })
          (record { limits = l; state = (check_broker now l s).1 })
  unfolding check_broker check_slippage
  broker-Keeps now l s = ground arith

  verdict-Keeps : (now : F) (today : ℕ) (b : CircuitBreaker F) → Keeps b (verdict now today b).1
  unfolding verdict judge check_daily_loss roll_day
  verdict-Keeps now today b = ground (arith, broker-Keeps now b.limits (roll_day today b.state))

  trade-Keeps : (today : ℕ) (pnl : F) (b : CircuitBreaker F) → Keeps b (on_trade_closed today pnl b)
  unfolding on_trade_closed roll_day
  trade-Keeps today pnl b = ground arith

  limits-sample : (x : F) (b : CircuitBreaker F) → (on_slippage_sample x b).limits ≡ b.limits
  unfolding on_slippage_sample
  limits-sample x b = refl

  init-HasBaseline :
      (l : BreakerLimits F) (x now : F) (today : ℕ)
      → 0 < l.slippage_min_samples
      → HasBaseline (init l x now today)
  unfolding init
  init-HasBaseline l x now today h = ground arith

  run-HasBaseline :
      (cs : List (F × ℕ × Call F)) (b : CircuitBreaker F)
      → 0 < b.limits.slippage_min_samples
      → HasBaseline b
      → HasBaseline (run cs b)
  unfolding run step on_equity on_broker_ok
  run-HasBaseline [] b h k = k
  run-HasBaseline ((now, day, equity x) ∷ cs) b h k = run-HasBaseline cs (on_equity x b) h k
  run-HasBaseline ((now, day, trade_closed pnl) ∷ cs) b h k =
      run-HasBaseline cs (on_trade_closed day pnl b) (rw (trade-Keeps day pnl b).limits_same h)
        (Keeps-HasBaseline b _ (trade-Keeps day pnl b) k)
  run-HasBaseline ((now, day, broker_ok) ∷ cs) b h k = run-HasBaseline cs (on_broker_ok now b) h k
  run-HasBaseline ((now, day, slippage_sample x) ∷ cs) b h k =
      run-HasBaseline cs (on_slippage_sample x b) (rw (limits-sample x b) h)
        (sample-HasBaseline x b h k)
  run-HasBaseline ((now, day, asked) ∷ cs) b h k =
      run-HasBaseline cs (verdict now day b).1 (rw (verdict-Keeps now day b).limits_same h)
        (Keeps-HasBaseline b _ (verdict-Keeps now day b) k)

  -- From a new breaker whose limit asks for at least one sample, after any calls, the baseline of
  -- slippage is the median of exactly the first samples, as many as the limit asks for, if there
  -- are as many, and none before; and the sorted samples that the median is taken of are a
  -- permutation of them.
  pub baseline_is_first_median :
      (l : BreakerLimits F) (x now : F) (today : ℕ) (cs : List (F × ℕ × Call F))
      → 0 < l.slippage_min_samples
      → let b = run cs (init l x now today) in
        let firsts = take b.limits.slippage_min_samples b.state.slippage_samples in
        (b.state.slippage_baseline
          ≡ expected b.limits.slippage_min_samples b.state.slippage_samples)
        × Perm (sorted firsts) firsts
  baseline_is_first_median l x now today cs h = (
    run-HasBaseline cs (init l x now today) (unfold init in h) (init-HasBaseline l x now today h),
    sorted-perm _,
  )
