-- ===== src/Backend/Subscription.antt =====
-- backend/app/services/subscription_guard.py: whether a subscription is active, and paid. A time is
-- a number of microseconds. `now` is read once.
use forex_bot.Common.{
  ℕ, ◌≤◌, ◌≡◌, ◌≢◌, sym, subst, Among, Option-cases, ==_iff, ◌↔◌, ◌⊎◌, inl, inr, Bool, true, false,
  not, ◌&&◌, ◌||◌, Option, none, some, List, [], ◌∷◌, ltb, ◌==◌, if◌then◌else◌, arith,
}
use forex_bot.Common.Text.{Text, codes, text_beq, text_beq_iff}

pub record Subscription : Type 0 where
  pub user_id : ℕ
  pub plan : Text
  pub status : Text
  pub current_period_end : Option ℕ
  pub created_at : ℕ

unfoldable pub in_statuses : Text → Bool
in_statuses s = text_beq s (codes "active") || text_beq s (codes "trialing")

unfoldable pub in_paid_plans : Text → Bool
in_paid_plans p =
    text_beq p (codes "pro_monthly")
    || (text_beq p (codes "pro_yearly") || text_beq p (codes "lifetime"))

abbrev pub is_over : ℕ → Option ℕ → Bool
is_over now none = false
is_over now (some end) = ltb end now

unfoldable pub is_active : ℕ → Option Subscription → Bool
is_active now none = false
is_active now (some sub) =
    if not (in_statuses sub.status)
    then false
    else if not (text_beq sub.plan (codes "lifetime")) && is_over now sub.current_period_end
    then false
    else true

unfoldable pub is_paid : ℕ → Option Subscription → Bool
is_paid now none = false
is_paid now (some sub) = if not (is_active now (some sub)) then false else in_paid_plans sub.plan

-- The first row of the user, the latest `created_at` first; of rows of one time the one that is
-- stored first.
abbrev pub newer : Subscription → Option Subscription → Option Subscription
newer s none = some s
newer s (some t) = if ltb s.created_at t.created_at then some t else some s

unfoldable pub latest : List Subscription → ℕ → Option Subscription
latest [] user_id = none
latest (s ∷ rows) user_id =
    let rest = latest rows user_id in if s.user_id == user_id then newer s rest else rest

-- `require_active_subscription`: whether the request passes.
unfoldable pub require_active_subscription : Bool → ℕ → List Subscription → ℕ → Bool
require_active_subscription require_paid now rows user_id =
    if require_paid then is_paid now (latest rows user_id) else is_active now (latest rows user_id)

unfoldable pub is_paid_user : ℕ → List Subscription → ℕ → Bool
is_paid_user now rows user_id = is_paid now (latest rows user_id)

abbrev pub NotOver : ℕ → Option ℕ → Type 0
NotOver now none = Unit
NotOver now (some end) = now ≤ end

-- The status is active or trialing, and the plan is for life or its period has no end or one that
-- is not past.
abbrev pub Runs : ℕ → Subscription → Type 0
Runs now sub =
    ((sub.status ≡ codes "active") ⊎ (sub.status ≡ codes "trialing"))
    × ((sub.plan ≡ codes "lifetime") ⊎ NotOver now sub.current_period_end)

abbrev pub PaidPlan : Text → Type 0
PaidPlan plan =
    (plan ≡ codes "pro_monthly") ⊎ ((plan ≡ codes "pro_yearly") ⊎ (plan ≡ codes "lifetime"))

over_iff : (now : ℕ) (end : Option ℕ) → (is_over now end ≡ false) ↔ NotOver now end
over_iff now none = ground arith
over_iff now (some end) = ground arith

pub is_active_iff :
    (now : ℕ) (sub : Subscription) → (is_active now (some sub) ≡ true) ↔ Runs now sub
unfolding is_active in_statuses
is_active_iff now sub = ground (
  arith,
  text_beq_iff sub.status (codes "active"),
  text_beq_iff sub.status (codes "trialing"),
  text_beq_iff sub.plan (codes "lifetime"),
  over_iff now sub.current_period_end,
)

pub is_paid_iff :
    (now : ℕ) (sub : Subscription)
    → (is_paid now (some sub) ≡ true) ↔ (Runs now sub × PaidPlan sub.plan)
unfolding is_paid in_paid_plans
is_paid_iff now sub = ground (
  arith,
  is_active_iff now sub,
  text_beq_iff sub.plan (codes "pro_monthly"),
  text_beq_iff sub.plan (codes "pro_yearly"),
  text_beq_iff sub.plan (codes "lifetime"),
)

abbrev pub NoneNewer : ℕ → List Subscription → Subscription → Type 0
NoneNewer user_id [] sub = Unit
NoneNewer user_id (s ∷ rows) sub =
    ((s.user_id ≢ user_id) ⊎ (s.created_at ≤ sub.created_at)) × NoneNewer user_id rows sub

-- A row of the user that no other row of the user is newer than.
abbrev pub IsLatest : ℕ → List Subscription → Subscription → Type 0
IsLatest user_id rows sub = Among sub rows × (sub.user_id ≡ user_id) × NoneNewer user_id rows sub

NoneNewer-mono :
    (user_id : ℕ) (rows : List Subscription) (s t : Subscription)
    → s.created_at ≤ t.created_at
    → NoneNewer user_id rows s
    → NoneNewer user_id rows t
NoneNewer-mono user_id [] s t h n = tt
NoneNewer-mono user_id (r ∷ rows) s t h n = ground (arith, NoneNewer-mono user_id rows s t h)

none_of_user :
    (rows : List Subscription) (user_id : ℕ) (s : Subscription)
    → latest rows user_id ≡ none
    → NoneNewer user_id rows s
unfolding latest
none_of_user [] user_id s h = tt
none_of_user (r ∷ rows) user_id s h = elim (Option-cases (latest rows user_id)) [
  | inl n ↦ ground (arith, ==_iff r.user_id user_id, none_of_user rows user_id s n)
  | inr (t, n) ↦ ground (arith, ==_iff r.user_id user_id)
]

pub latest-IsLatest :
    (rows : List Subscription) (user_id : ℕ) (sub : Subscription)
    → latest rows user_id ≡ some sub
    → IsLatest user_id rows sub
unfolding latest
latest-IsLatest [] user_id sub h = cc
latest-IsLatest (r ∷ rows) user_id sub h = elim (Option-cases (latest rows user_id)) [
  | inl n ↦ ground (arith, ==_iff r.user_id user_id, none_of_user rows user_id sub n)
  | inr (t, n) ↦ ground (
    arith,
    ==_iff r.user_id user_id,
    latest-IsLatest rows user_id t n,
    NoneNewer-mono user_id rows t r,
  )
]

-- The latest row of the user, running, and with a paid plan where that is required.
abbrev pub Entitled : Bool → ℕ → List Subscription → ℕ → Type 0
Entitled require_paid now rows user_id =
    (sub : Subscription) × (latest rows user_id ≡ some sub)
    × IsLatest user_id rows sub
    × Runs now sub
    × ((require_paid ≡ false) ⊎ PaidPlan sub.plan)

passes : Bool → ℕ → Option Subscription → Bool
passes require_paid now o = if require_paid then is_paid now o else is_active now o

passes_iff :
    (require_paid : Bool) (now : ℕ) (sub : Subscription)
    → (passes require_paid now (some sub) ≡ true)
      ↔ (Runs now sub × ((require_paid ≡ false) ⊎ PaidPlan sub.plan))
unfolding passes
passes_iff true now sub = ground (arith, is_paid_iff now sub)
passes_iff false now sub = ground (arith, is_active_iff now sub)

no_row : (require_paid : Bool) (now : ℕ) → passes require_paid now none ≡ true → ⊥
unfolding passes is_paid is_active
no_row true now h = cc
no_row false now h = cc

-- A request passes the guard exactly if the user has a row, no newer one of that user being there,
-- whose status is active or trialing, whose period is not past unless the plan is for life, and,
-- where a paid plan is required, whose plan is one of the three paid ones.
pub guard_iff :
    (require_paid : Bool) (now : ℕ) (rows : List Subscription) (user_id : ℕ)
    → (require_active_subscription require_paid now rows user_id ≡ true)
      ↔ Entitled require_paid now rows user_id
unfolding require_active_subscription passes
guard_iff require_paid now rows user_id = (
  λ h. elim (Option-cases (latest rows user_id)) [
    | inl n ↦ elim (no_row require_paid now (subst (λ o. passes require_paid now o ≡ true) n h)) [ ]
    | inr (s, n) ↦
        let p =
          (passes_iff require_paid now s).0 (subst (λ o. passes require_paid now o ≡ true) n h) in
        (s, n, latest-IsLatest rows user_id s n, p.0, p.1)
  ],
  λ (s, n, l, r, p).
      subst (λ o. passes require_paid now o ≡ true) (sym n)
        ((passes_iff require_paid now s).1 (r, p)),
)
