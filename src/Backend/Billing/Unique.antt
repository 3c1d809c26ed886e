-- ===== src/Backend/Billing/Unique.antt =====
-- backend/app/services/billing_service.py: one row for each invoice of Stripe.
use forex_bot.Common.{
  ℕ, ◌≡◌, refl, Bool, true, false, Option, none, some, List, [], ◌∷◌, if◌then◌else◌, arith,
}
use forex_bot.Common.Cases.{if_case, option_case}
use forex_bot.Common.Text.{Text, codes, text_beq, text_beq_iff}
use forex_bot.Backend.Billing.Handlers.{
  resolve_user, put_invoice, upsert_invoice, on_checkout_completed, on_subscription_upsert,
  on_subscription_deleted, on_invoice, first, column_is, put, save, latest_row, checkout_row,
  row_for, upserted_row,
}
use forex_bot.Backend.Billing.Rows.{Tables, Prices, EventObject, Moment, Row, Invoice}
use forex_bot.Backend.Billing.Webhook.{
  Event, WebhookError, Reply, Delivery, unsigned, delivered, dispatch_event, is_seen, is_empty,
  recorded, transact, handle_webhook,
}
use forex_bot.Backend.Billing.Replay.{flushed_case, run, dispatch_case}

-- Some row has the id.
unfoldable pub has_invoice : Text → List Invoice → Bool
has_invoice id [] = false
has_invoice id (i ∷ is) =
    let rest = has_invoice id is in if text_beq i.stripe_invoice_id id then true else rest

-- No two rows have one id.
abbrev pub NoTwice : List Invoice → Type 0
NoTwice [] = Unit
NoTwice (i ∷ is) = (has_invoice i.stripe_invoice_id is ≡ false) × NoTwice is

has-put :
    (id : Text) (u : ℕ) (inv_id status : Text) (obj : EventObject) (is : List Invoice)
    → has_invoice id (put_invoice u inv_id status obj is)
      ≡ (if has_invoice id is then true else text_beq inv_id id)
unfolding has_invoice put_invoice
has-put id u inv_id status obj [] = ground arith
has-put id u inv_id status obj (i ∷ is) = ground (
  arith,
  has-put id u inv_id status obj is,
  text_beq_iff i.stripe_invoice_id inv_id,
  text_beq_iff i.stripe_invoice_id id,
  text_beq_iff inv_id id,
)

put-NoTwice :
    (u : ℕ) (inv_id status : Text) (obj : EventObject) (is : List Invoice)
    → NoTwice is
    → NoTwice (put_invoice u inv_id status obj is)
unfolding put_invoice has_invoice
put-NoTwice u inv_id status obj [] h = (refl, tt)
put-NoTwice u inv_id status obj (i ∷ is) h =
    if_case NoTwice (text_beq i.stripe_invoice_id inv_id) _ _ (λ a. h)
      (λ a. (
        ground (
          arith,
          h.0,
          has-put i.stripe_invoice_id u inv_id status obj is,
          text_beq_iff i.stripe_invoice_id inv_id,
          text_beq_iff inv_id i.stripe_invoice_id,
        ),
        put-NoTwice u inv_id status obj is h.1,
      ))

abbrev InvoicesApart : Tables → Type 0
InvoicesApart db = NoTwice db.invoices

dispatch-InvoicesApart :
    (prices : Prices) (m : Moment) (e : Event) (db : Tables)
    → InvoicesApart db
    → InvoicesApart (dispatch_event prices m e db)
unfolding on_checkout_completed on_subscription_upsert on_subscription_deleted on_invoice
    upsert_invoice
dispatch-InvoicesApart prices m e db h =
    let o = e.object in
    let rs = db.subscriptions in
    dispatch_case InvoicesApart prices m e db
      (option_case InvoicesApart (resolve_user db o) db
        (λ u. record db {
          subscriptions = put (latest_row u rs) (checkout_row m o u (latest_row u rs)) rs;
        })
        (λ n. h) (λ u n. h))
      (option_case InvoicesApart (resolve_user db o) db
        (λ u. record db {
          subscriptions = put (row_for o u rs) (upserted_row prices m o u (row_for o u rs)) rs;
        })
        (λ n. h) (λ u n. h))
      (option_case InvoicesApart (first (λ (r : Row). column_is r.stripe_subscription_id o.id) rs)
        db
        (λ r. record db {
          subscriptions =
              save (record r { status = codes "canceled"; canceled_at = some m.now }) rs;
        })
        (λ n. h) (λ r n. h))
      (λ status.
        option_case InvoicesApart (resolve_user db o) db (λ u. upsert_invoice u o status db)
          (λ n. h)
          (λ u n.
            option_case InvoicesApart o.id db
              (λ i. record db { invoices = put_invoice u i status o db.invoices }) (λ k. h)
              (λ i k. put-NoTwice u i status o db.invoices h)))
      h

transact-InvoicesApart :
    (prices : Prices) (m : Moment) (e : Event) (fault : Option WebhookError) (db : Tables)
    → InvoicesApart db
    → InvoicesApart (transact prices m e fault db).1
transact-InvoicesApart prices m e (some x) db h = h
transact-InvoicesApart prices m e none db h =
    flushed_case (λ (r : Reply × Tables). InvoicesApart r.1) db _
      (dispatch-InvoicesApart prices m e (recorded m e db) h) h

handle-InvoicesApart :
    (prices : Prices) (m : Moment) (d : Delivery) (db : Tables)
    → InvoicesApart db
    → InvoicesApart (handle_webhook prices m d db).1
unfolding handle_webhook
handle-InvoicesApart prices m unsigned db h = h
handle-InvoicesApart prices m (delivered e fault) db h =
    if_case (λ (r : Reply × Tables). InvoicesApart r.1) (is_empty e.id) _ _ (λ a. h)
      (λ a.
        if_case (λ (r : Reply × Tables). InvoicesApart r.1) (is_empty e.event_type) _ _ (λ a. h)
          (λ a.
            if_case (λ (r : Reply × Tables). InvoicesApart r.1) (is_seen e.id db.events) _ _
              (λ a. h) (λ a. transact-InvoicesApart prices m e fault db h)))

-- Whatever events come, in whatever order and however often, with whatever failures: if no two
-- invoices have one Stripe id at first, then none ever do.
pub run-NoTwice :
    (prices : Prices) (ds : List (Moment × Delivery)) (db : Tables)
    → NoTwice db.invoices
    → NoTwice (run prices ds db).invoices
unfolding run
run-NoTwice prices [] db h = h
run-NoTwice prices ((m, d) ∷ ds) db h =
    run-NoTwice prices ds (handle_webhook prices m d db).1 (handle-InvoicesApart prices m d db h)
