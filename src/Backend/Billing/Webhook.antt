-- ===== src/Backend/Billing/Webhook.antt =====
-- backend/app/services/billing_service.py: `handle_webhook`. The check of the signature belongs to
-- the Stripe package: the event is what it gives.
use forex_bot.Common.{
  ◌&&◌, ◌||◌, all_of, Bool, true, false, Option, none, some, List, [], ◌∷◌, ◌++◌, if◌then◌else◌,
}
use forex_bot.Common.Text.{Text, codes, text_beq}
use forex_bot.Backend.Billing.Handlers.{
  on_checkout_completed, on_subscription_upsert, on_subscription_deleted, on_invoice,
}
use forex_bot.Backend.Billing.Rows.{Row, StripeEvent, Tables, Prices, EventObject, Moment}

pub record Event : Type 0 where
  pub id : Text
  pub event_type : Text
  pub object : EventObject

pub data WebhookError : Type 0 where
  bad_signature app_error stripe_error : WebhookError

pub data Reply : Type 0 where
  accepted : Reply
  raised : WebhookError → Reply

-- What the world does to one delivery: `construct_event` gives the event or raises, and the database
-- may raise while the event is dispatched or committed, an AppError or another exception.
pub data Delivery : Type 0 where
  unsigned : Delivery
  delivered : Event → Option WebhookError → Delivery

unfoldable pub dispatch_event : Prices → Moment → Event → Tables → Tables
dispatch_event prices m e db =
    if text_beq e.event_type (codes "checkout.session.completed")
    then on_checkout_completed m e.object db
    else if text_beq e.event_type (codes "customer.subscription.created")
    then on_subscription_upsert prices m e.object db
    else if text_beq e.event_type (codes "customer.subscription.updated")
    then on_subscription_upsert prices m e.object db
    else if text_beq e.event_type (codes "customer.subscription.deleted")
    then on_subscription_deleted m e.object db
    else if text_beq e.event_type (codes "invoice.paid")
    then on_invoice (codes "paid") e.object db
    else if text_beq e.event_type (codes "invoice.payment_failed")
    then on_invoice (codes "open") e.object db
    else db

unfoldable pub is_seen : Text → List StripeEvent → Bool
is_seen id [] = false
is_seen id (e ∷ es) =
    let rest = is_seen id es in if text_beq e.stripe_event_id id then true else rest

abbrev pub is_empty : Text → Bool
is_empty [] = true
is_empty _ = false

-- The row of the event, with the mark that it is processed, after the rows that are there.
abbrev pub recorded : Moment → Event → Tables → Tables
recorded m e db = record db {
  events =
      db.events
      ++ record { stripe_event_id = e.id; event_type = e.event_type; processed_at = some m.now }
        ∷ [];
}

-- The CHECK constraints on the plan and the status of a subscription.
unfoldable pub meets_checks : Row → Bool
meets_checks r =
    (text_beq r.plan (codes "trial")
      || (text_beq r.plan (codes "pro_monthly")
          || (text_beq r.plan (codes "pro_yearly") || text_beq r.plan (codes "lifetime"))))
    && (text_beq r.status (codes "active")
        || (text_beq r.status (codes "past_due")
            || (text_beq r.status (codes "canceled") || text_beq r.status (codes "trialing"))))

-- What the dispatch wrote is flushed: a row that the constraints refuse raises, and not an
-- AppError. The rows that were there before met them when they were written.
abbrev pub flushed : Tables → Tables → Reply × Tables
flushed db db' =
    if all_of meets_checks db'.subscriptions then (accepted, db') else (raised stripe_error, db)

-- A new event is inserted and dispatched in one transaction, which any exception rolls back.
abbrev pub transact : Prices → Moment → Event → Option WebhookError → Tables → Reply × Tables
transact prices m e (some x) db = (raised x, db)
transact prices m e none db = flushed db (dispatch_event prices m e (recorded m e db))

unfoldable pub handle_webhook : Prices → Moment → Delivery → Tables → Reply × Tables
handle_webhook prices m unsigned db = (raised bad_signature, db)
handle_webhook prices m (delivered e fault) db =
    if is_empty e.id
    then (raised bad_signature, db)
    else if is_empty e.event_type
    then (raised bad_signature, db)
    else if is_seen e.id db.events
    then (accepted, db)
    else transact prices m e fault db
