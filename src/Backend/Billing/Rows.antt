-- ===== src/Backend/Billing/Rows.antt =====
-- backend/app/services/billing_service.py: the columns that the handlers read and write, and the
-- objects of the events.
use forex_bot.Common.{ℕ, Option, List}
use forex_bot.Common.Text.{Text}

-- A row of subscriptions; `id` is its primary key.
pub record Row : Type 0 where
  pub id : ℕ
  pub user_id : ℕ
  pub plan : Text
  pub status : Text
  pub stripe_customer_id : Option Text
  pub stripe_subscription_id : Option Text
  pub current_period_start : Option ℕ
  pub current_period_end : Option ℕ
  pub canceled_at : Option ℕ
  pub created_at : ℕ

pub record Invoice : Type 0 where
  pub user_id : ℕ
  pub stripe_invoice_id : Text
  pub amount_cents : ℕ
  pub currency : Text
  pub status : Text
  pub paid_at : Option ℕ
  pub hosted_invoice_url : Option Text

-- A row of stripe_events.
pub record StripeEvent : Type 0 where
  pub stripe_event_id : Text
  pub event_type : Text
  pub processed_at : Option ℕ

-- `users` holds the users that are not deleted, by their ids.
pub record Tables : Type 0 where
  pub users : List ℕ
  pub subscriptions : List Row
  pub invoices : List Invoice
  pub events : List StripeEvent

pub record Prices : Type 0 where
  pub pro_monthly : Option Text
  pub pro_yearly : Option Text
  pub lifetime : Option Text

-- `data.object` of an event, with the fields that some handler reads. An empty text counts as
-- missing, as in `or`; `amount` is what was paid, else what is due; `metadata_user_id` is missing too where it is no UUID.
pub record EventObject : Type 0 where
  pub id : Option Text
  pub metadata_user_id : Option ℕ
  pub metadata_plan_code : Option Text
  pub customer : Option Text
  pub mode : Option Text
  pub status : Text
  pub period_start : Option ℕ
  pub period_end : Option ℕ
  pub price_id : Option Text
  pub amount : ℕ
  pub currency : Text
  pub paid_at : Option ℕ
  pub hosted_invoice_url : Option Text

-- The clock, and the primary key that the next new row gets.
pub record Moment : Type 0 where
  pub now : ℕ
  pub next_id : ℕ
