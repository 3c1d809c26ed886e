-- ===== src/Backend/Billing/Trial.antt =====
-- backend/app/services/billing_service.py and subscription_guard.py: the trial of a new user.
use forex_bot.Common.{
  ℕ, ◌≡◌, refl, ap, ◌∙◌, true, false, not, Option, none, some, List, [], ◌∷◌, ◌++◌, map, ==_iff,
  arith,
}
use forex_bot.Common.Cases.{if_case}
use forex_bot.Common.Text.{Text, codes, text_beq, text_beq_iff}
use forex_bot.Backend.Subscription.{
  Subscription, latest, newer, is_active, in_statuses, require_active_subscription,
}
use forex_bot.Backend.Billing.Rows.{Row, Tables}
use forex_bot.Backend.Billing.Handlers.{is_user, latest_row, newer_row}
use forex_bot.Backend.Billing.Sessions.{
  PlanCode, trial, pro_monthly, pro_yearly, lifetime, customer, Around, Outcome, not_empty,
  with_customer, ensure_customer, start_trial, with_session, priced_checkout, checkout,
  create_checkout_session, with_portal, create_customer_portal, Call, ensure, session, portal,
  serve, serve_all,
}

-- The columns of a row that the guard reads.
abbrev pub guard_row : Row → Subscription
guard_row r = record {
  user_id = r.user_id;
  plan = r.plan;
  status = r.status;
  current_period_end = r.current_period_end;
  created_at = r.created_at;
}

abbrev guarded : Option Row → Option Subscription
guarded none = none
guarded (some r) = some (guard_row r)

newer_same : (r : Row) (o : Option Row) → newer (guard_row r) (guarded o) ≡ guarded (newer_row r o)
newer_same r none = refl
newer_same r (some t) = ground arith

-- The guard and the billing service find the same row.
latest_same :
    (rows : List Row) (u : ℕ) → latest (map guard_row rows) u ≡ guarded (latest_row u rows)
unfolding latest latest_row
latest_same [] u = refl
latest_same (r ∷ rows) u = ground (arith, newer_same r (latest_row u rows), latest_same rows u)

latest-append :
    (rows : List Row) (r : Row) (u : ℕ)
    → latest_row u rows ≡ none
    → r.user_id ≡ u
    → latest_row u (rows ++ (r ∷ [])) ≡ some r
unfolding latest_row
latest-append [] r u n h = ground (arith, ==_iff r.user_id u)
latest-append (s ∷ rows) r u n h = ground (arith, ==_iff s.user_id u, latest-append rows r u)

-- A user whose latest row is on trial and has a customer.
abbrev Steady : ℕ → Row → Text → Tables → Type 0
Steady u r c db =
    (is_user u db.users ≡ true)
    × (latest_row u db.subscriptions ≡ some r)
    × (r.status ≡ codes "trialing")
    × (not_empty r.stripe_customer_id ≡ some c)

ensure-Steady :
    (ar : Around) (u : ℕ) (r : Row) (c : Text) (db : Tables)
    → Steady u r c db
    → ensure_customer ar u db ≡ (customer c, db)
unfolding ensure_customer
ensure-Steady ar u r c db h = ground arith

start-Steady :
    (ar : Around) (u : ℕ) (r : Row) (c : Text) (db : Tables)
    → Steady u r c db
    → (start_trial ar u db).1 ≡ db
unfolding start_trial in_statuses
start-Steady ar u r c db h = ground (arith, text_beq_iff r.status (codes "trialing"))

with_session-same :
    (ar : Around) (c : Text) (db : Tables) → (with_session ar (customer c, db)).1 ≡ db
with_session-same ar c db = ground arith

with_portal-same : (ar : Around) (c : Text) (db : Tables) → (with_portal ar (customer c, db)).1 ≡ db
with_portal-same ar c db = ground arith

priced-Steady :
    (ar : Around) (u : ℕ) (r : Row) (c : Text) (price : Option Text) (db : Tables)
    → Steady u r c db
    → (priced_checkout ar u price db).1 ≡ db
priced-Steady ar u r c none db h = refl
priced-Steady ar u r c (some p) db h =
    ap (λ (o : Outcome). (with_session ar o).1) (ensure-Steady ar u r c db h)
    ∙ with_session-same ar c db

checkout-Steady :
    (ar : Around) (u : ℕ) (r : Row) (c : Text) (plan : PlanCode) (db : Tables)
    → Steady u r c db
    → (checkout ar u plan db).1 ≡ db
checkout-Steady ar u r c trial db h = start-Steady ar u r c db h
checkout-Steady ar u r c pro_monthly db h = priced-Steady ar u r c _ db h
checkout-Steady ar u r c pro_yearly db h = priced-Steady ar u r c _ db h
checkout-Steady ar u r c lifetime db h = priced-Steady ar u r c _ db h

serve-Steady :
    (ar : Around) (u : ℕ) (r : Row) (c : Text) (call : Call) (db : Tables)
    → Steady u r c db
    → (serve ar u call db).1 ≡ db
unfolding serve create_checkout_session create_customer_portal
serve-Steady ar u r c ensure db h = ap (λ (o : Outcome). o.1) (ensure-Steady ar u r c db h)
serve-Steady ar u r c (session plan) db h =
    if_case (λ (o : Outcome). o.1 ≡ db) (not (is_user u db.users)) _ _ (λ e. refl)
      (λ e. checkout-Steady ar u r c plan db h)
serve-Steady ar u r c portal db h =
    ap (λ (o : Outcome). (with_portal ar o).1) (ensure-Steady ar u r c db h)
    ∙ with_portal-same ar c db

serve_all-Steady :
    (u : ℕ) (r : Row) (c : Text) (cs : List (Around × Call)) (db : Tables)
    → Steady u r c db
    → serve_all u cs db ≡ db
unfolding serve_all
serve_all-Steady u r c [] db h = refl
serve_all-Steady u r c ((ar, call) ∷ cs) db h =
    ap (serve_all u cs) (serve-Steady ar u r c call db h) ∙ serve_all-Steady u r c cs db h

abbrev placeholder : Around → ℕ → Text → Row
placeholder ar u c = with_customer ar u c none

signed_up-Steady :
    (ar : Around) (u : ℕ) (k : ℕ) (c : Text) (db : Tables)
    → latest_row u db.subscriptions ≡ none
    → (ensure_customer ar u db).0 ≡ customer (k ∷ c)
    → Steady u (placeholder ar u (k ∷ c)) (k ∷ c) (ensure_customer ar u db).1
unfolding ensure_customer
signed_up-Steady ar u k c db n h =
    ground (arith, latest-append db.subscriptions (placeholder ar u (k ∷ c)) u n refl)

placeholder_passes :
    (ar : Around) (u : ℕ) (c : Text) (now : ℕ)
    → is_active now (some (guard_row (placeholder ar u c))) ≡ true
unfolding is_active in_statuses text_beq
placeholder_passes ar u c now = ground arith

-- When `ensure_customer` gives a user without a subscription row a customer, its id not empty,
-- then no later call of the user, to ensure the customer, to check out a plan, the trial
-- among them, or to open the portal, changes the tables, whatever Stripe answers and the
-- transactions do, and the guard that asks for a running subscription passes the user at every
-- time: the row it stored is a trial without an end, which the start of the trial leaves alone.
pub signup_trial_never_ends :
    (ar : Around) (u : ℕ) (k : ℕ) (c : Text) (db : Tables) (cs : List (Around × Call)) (now : ℕ)
    → latest_row u db.subscriptions ≡ none
    → (ensure_customer ar u db).0 ≡ customer (k ∷ c)
    → (serve_all u cs (ensure_customer ar u db).1 ≡ (ensure_customer ar u db).1)
      × (require_active_subscription false now
            (map guard_row (serve_all u cs (ensure_customer ar u db).1).subscriptions)
            u
          ≡ true)
unfolding require_active_subscription
signup_trial_never_ends ar u k c db cs now n h =
    let r = placeholder ar u (k ∷ c) in
    let after = (ensure_customer ar u db).1 in
    let s = signed_up-Steady ar u k c db n h in
    let same = serve_all-Steady u r (k ∷ c) cs after s in
    (
      same,
      ap (λ (t : Tables). is_active now (latest (map guard_row t.subscriptions) u)) same
          ∙ ap (is_active now) (latest_same after.subscriptions u ∙ ap guarded s.1)
          ∙ placeholder_passes ar u (k ∷ c) now,
    )
