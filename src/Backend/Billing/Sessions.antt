-- ===== src/Backend/Billing/Sessions.antt =====
-- backend/app/services/billing_service.py: the customer of Stripe, the trial, checkout and the
-- customer portal. What Stripe answers is an argument; URLs are left out.
use forex_bot.Common.{
  ℕ, ◌+◌, ◌*◌, Bool, false, not, Option, none, some, List, [], ◌∷◌, if◌then◌else◌,
}
use forex_bot.Common.Text.{Text, codes}
use forex_bot.Backend.Gate.{day}
use forex_bot.Backend.Subscription.{in_statuses}
use forex_bot.Backend.Billing.Rows.{Row, Tables, Prices, Moment}
use forex_bot.Backend.Billing.Handlers.{is_user, latest_row, new_row, put}

pub data PlanCode : Type 0 where
  trial pro_monthly pro_yearly lifetime : PlanCode

pub data CheckoutMode : Type 0 where
  payment_mode subscription_mode trial_mode : CheckoutMode

pub data BillingError : Type 0 where
  user_not_found plan_unknown stripe_failed database_fault : BillingError

pub data Answer : Type 0 where
  customer : Text → Answer
  checkout_session : Text → Answer
  trial_without_checkout : Answer
  portal_session : Text → Answer
  failed : BillingError → Answer

-- What a call meets besides the clock: the answers of Stripe, `none` for an exception, whether the
-- transaction commits, whether the later one of the session's audit row does, the prices and the
-- length of a trial.
pub record Around : Type 0 where
  pub moment : Moment
  pub customer_id : Option Text
  pub session_id : Option Text
  pub portal_url : Option Text
  pub commits : Bool
  pub audit_commits : Bool
  pub prices : Prices
  pub trial_days : ℕ

abbrev pub Outcome : Type 0
Outcome = Answer × Tables

-- `_resolve_price_id`; the trial has no price.
abbrev pub resolve_price_id : Prices → PlanCode → Option Text × CheckoutMode
resolve_price_id prices trial = (none, trial_mode)
resolve_price_id prices pro_monthly = (prices.pro_monthly, subscription_mode)
resolve_price_id prices pro_yearly = (prices.pro_yearly, subscription_mode)
resolve_price_id prices lifetime = (prices.lifetime, payment_mode)

abbrev pub commit : Around → Answer → List Row → Tables → Outcome
commit ar answer rows db =
    if ar.commits then (answer, record db { subscriptions = rows }) else (failed database_fault, db)

-- An empty text counts as missing.
abbrev pub not_empty : Option Text → Option Text
not_empty (some (c ∷ cs)) = some (c ∷ cs)
not_empty _ = none

abbrev pub customer_of : Option Row → Option Text
customer_of none = none
customer_of (some r) = not_empty r.stripe_customer_id

abbrev pub with_customer : Around → ℕ → Text → Option Row → Row
with_customer ar user_id c none =
    new_row ar.moment user_id (codes "trial") (codes "trialing") none (some c)
with_customer ar user_id c (some r) = record r { stripe_customer_id = some c }

abbrev pub create_customer : Around → ℕ → Option Row → Tables → Outcome
create_customer ar user_id sub db = elim ar.customer_id [
  | none ↦ (failed stripe_failed, db)
  | some c ↦ commit ar (customer c) (put sub (with_customer ar user_id c sub) db.subscriptions) db
]

unfoldable pub ensure_customer : Around → ℕ → Tables → Outcome
ensure_customer ar user_id db =
    let sub = latest_row user_id db.subscriptions in
    if not (is_user user_id db.users) then (failed user_not_found, db) else elim (customer_of sub) [
      | some c ↦ (customer c, db)
      | none ↦ create_customer ar user_id sub db
    ]

abbrev pub runs : Option Row → Bool
runs none = false
runs (some r) = in_statuses r.status

abbrev pub trial_row : Around → ℕ → Option Row → Row
trial_row ar user_id none =
    record (new_row ar.moment user_id (codes "trial") (codes "trialing") none none) {
      current_period_start = some ar.moment.now;
      current_period_end = some (ar.moment.now + ar.trial_days * day);
    }
trial_row ar user_id (some r) = record r {
  plan = codes "trial";
  status = codes "trialing";
  current_period_start = some ar.moment.now;
  current_period_end = some (ar.moment.now + ar.trial_days * day);
}

unfoldable pub start_trial : Around → ℕ → Tables → Outcome
start_trial ar user_id db =
    let sub = latest_row user_id db.subscriptions in
    if runs sub
    then (trial_without_checkout, db)
    else commit ar trial_without_checkout (put sub (trial_row ar user_id sub) db.subscriptions) db

-- What follows once the customer is there; the second transaction holds an audit row alone.
abbrev pub with_session : Around → Outcome → Outcome
with_session ar (customer c, db) = elim ar.session_id [
  | none ↦ (failed stripe_failed, db)
  | some s ↦ if ar.audit_commits then (checkout_session s, db) else (failed database_fault, db)
]
with_session ar (x, db) = (x, db)

abbrev pub priced_checkout : Around → ℕ → Option Text → Tables → Outcome
priced_checkout ar user_id none db = (failed plan_unknown, db)
priced_checkout ar user_id (some price) db = with_session ar (ensure_customer ar user_id db)

abbrev pub checkout : Around → ℕ → PlanCode → Tables → Outcome
checkout ar user_id trial db = start_trial ar user_id db
checkout ar user_id plan db =
    priced_checkout ar user_id (not_empty (resolve_price_id ar.prices plan).0) db

unfoldable pub create_checkout_session : Around → ℕ → PlanCode → Tables → Outcome
create_checkout_session ar user_id plan db =
    if not (is_user user_id db.users)
    then (failed user_not_found, db)
    else checkout ar user_id plan db

abbrev pub with_portal : Around → Outcome → Outcome
with_portal ar (customer c, db) = elim ar.portal_url [
  | none ↦ (failed stripe_failed, db)
  | some url ↦ (portal_session url, db)
]
with_portal ar (x, db) = (x, db)

unfoldable pub create_customer_portal : Around → ℕ → Tables → Outcome
create_customer_portal ar user_id db = with_portal ar (ensure_customer ar user_id db)

pub data Call : Type 0 where
  ensure : Call
  session : PlanCode → Call
  portal : Call

unfoldable pub serve : Around → ℕ → Call → Tables → Outcome
serve ar user_id ensure db = ensure_customer ar user_id db
serve ar user_id (session plan) db = create_checkout_session ar user_id plan db
serve ar user_id portal db = create_customer_portal ar user_id db

unfoldable pub serve_all : ℕ → List (Around × Call) → Tables → Tables
serve_all user_id [] db = db
serve_all user_id ((ar, c) ∷ cs) db = serve_all user_id cs (serve ar user_id c db).1
