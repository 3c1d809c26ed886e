-- ===== src/Backend/Billing/Tests.antt =====
-- backend/app/services/billing_service.py: deliveries of Stripe on a small database.
use forex_bot.Common.{ℕ, ◌≡◌, refl, false, true, none, some, List, map, [], ◌∷◌}
use forex_bot.Common.Text.{codes, text_beq}
use forex_bot.Backend.Billing.Handlers.{
  resolve_user, is_user, latest_row, checkout_row, on_checkout_completed,
}
use forex_bot.Backend.Billing.Rows.{Tables, Prices, EventObject, Moment}
use forex_bot.Backend.Billing.Webhook.{
  meets_checks, raised, stripe_error, Event, delivered, handle_webhook, dispatch_event, is_seen,
}
use forex_bot.Backend.Subscription.{require_active_subscription}
use forex_bot.Backend.Billing.Sessions.{
  Around, Call, session, trial, lifetime, ensure_customer, serve_all, create_checkout_session,
  stripe_failed, failed, checkout_session,
}
use forex_bot.Backend.Billing.Trial.{guard_row, signup_trial_never_ends}
use forex_bot.Backend.Billing.Replay.{run, accepted_once}
use forex_bot.Backend.Billing.Unique.{NoTwice, run-NoTwice}

abbrev prices : Prices
prices = record {
  pro_monthly = some (codes "price_m");
  pro_yearly = some (codes "price_y");
  lifetime = some (codes "price_l");
}

abbrev at : ℕ → Moment
at t = record { now = t; next_id = t }

abbrev payment : EventObject
payment = record {
  id = some (codes "cs_1");
  metadata_user_id = some 1;
  metadata_plan_code = some (codes "lifetime");
  customer = some (codes "cus_1");
  mode = some (codes "payment");
  status = codes "complete";
  period_start = none;
  period_end = none;
  price_id = none;
  amount = 99_000;
  currency = codes "usd";
  paid_at = some 5;
  hosted_invoice_url = none;
}

abbrev checkout : Event
checkout = record {
  id = codes "evt_1";
  event_type = codes "checkout.session.completed";
  object = payment;
}

abbrev invoice_paid : Event
invoice_paid = record {
  id = codes "evt_2";
  event_type = codes "invoice.paid";
  object = record payment { id = some (codes "in_1") };
}

abbrev empty_tables : Tables
empty_tables = record { users = 1 ∷ []; subscriptions = []; invoices = []; events = [] }

-- A one-time payment makes a row for life that is active at once.
lifetime_bought :
    (handle_webhook prices (at 7) (delivered checkout none) empty_tables).1.subscriptions
    ≡ record {
      id = 7;
      user_id = 1;
      plan = codes "lifetime";
      status = codes "active";
      stripe_customer_id = some (codes "cus_1");
      stripe_subscription_id = none;
      current_period_start = some 7;
      current_period_end = none;
      canceled_at = none;
      created_at = 7;
    }
      ∷ []
unfolding handle_webhook dispatch_event on_checkout_completed resolve_user is_user latest_row
    checkout_row is_seen text_beq meets_checks
lifetime_bought = refl

-- A subscription that is not paid yet is refused by the table, so its checkout always fails.
unpaid_refused :
    handle_webhook prices
      (at 7)
      (delivered
        (record checkout { object = record payment { mode = some (codes "subscription") } })
        none)
      empty_tables
    ≡ (raised stripe_error, empty_tables)
unfolding handle_webhook dispatch_event on_checkout_completed resolve_user is_user latest_row
    checkout_row is_seen text_beq meets_checks
unpaid_refused = refl

accepted_once_example :
    (handle_webhook prices (at 9) (delivered checkout none) (
      run prices
        ((at 8, delivered invoice_paid none) ∷ [])
        (handle_webhook prices (at 7) (delivered checkout none) empty_tables).1)).1
    ≡ run prices
        ((at 8, delivered invoice_paid none) ∷ [])
        (handle_webhook prices (at 7) (delivered checkout none) empty_tables).1
unfolding handle_webhook is_seen dispatch_event text_beq on_checkout_completed resolve_user is_user
    latest_row meets_checks checkout_row
accepted_once_example =
    accepted_once prices (at 7) (at 9) checkout checkout none none empty_tables
      ((at 8, delivered invoice_paid none) ∷ []) refl refl

run-NoTwice_example :
    NoTwice
      (run prices
        ((at 8, delivered invoice_paid none)
          ∷ (at 9, delivered (record invoice_paid { id = codes "evt_3" }) none)
          ∷ [])
        empty_tables).invoices
run-NoTwice_example =
    run-NoTwice prices
      ((at 8, delivered invoice_paid none)
        ∷ (at 9, delivered (record invoice_paid { id = codes "evt_3" }) none)
        ∷ [])
      empty_tables tt

abbrev around : ℕ → Around
around t = record {
  moment = at t;
  customer_id = some (codes "cus_9");
  session_id = some (codes "cs_9");
  portal_url = some (codes "https://portal");
  commits = true;
  audit_commits = true;
  prices = prices;
  trial_days = 7;
}

-- The trial and a checkout that Stripe refuses, after the sign-up.
abbrev calls : List (Around × Call)
calls = (around 8, session trial) ∷ (record (around 9) { session_id = none }, session lifetime) ∷ []

refused_session :
    (create_checkout_session (record (around 9) { session_id = none }) 1 lifetime empty_tables).0
    ≡ failed stripe_failed
unfolding create_checkout_session ensure_customer is_user latest_row
refused_session = refl

opened_session :
    (create_checkout_session (around 9) 1 lifetime empty_tables).0 ≡ checkout_session (codes "cs_9")
unfolding create_checkout_session ensure_customer is_user latest_row
opened_session = refl

signup_trial_never_ends_example :
    (serve_all 1 calls (ensure_customer (around 7) 1 empty_tables).1
      ≡ (ensure_customer (around 7) 1 empty_tables).1)
    × (require_active_subscription false 999_999_999
          (map guard_row
            (serve_all 1 calls (ensure_customer (around 7) 1 empty_tables).1).subscriptions)
          1
        ≡ true)
unfolding ensure_customer is_user latest_row
signup_trial_never_ends_example =
    signup_trial_never_ends (around 7) 1 b'c' (codes "us_9") empty_tables calls 999_999_999 refl
      refl
