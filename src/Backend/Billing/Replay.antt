-- ===== src/Backend/Billing/Replay.antt =====
-- backend/app/services/billing_service.py: deliveries that are repeated, and deliveries that fail.
use forex_bot.Common.{
  ℕ, ◌≡◌, refl, sym, ap, subst, ◌∙◌, true, false, Option, none, some, List, [], ◌∷◌, ◌++◌, all_of,
  if◌then◌else◌, arith,
}
use forex_bot.Common.Cases.{if_case, option_case}
use forex_bot.Common.Text.{Text, text_beq, text_beq_iff, codes}
use forex_bot.Backend.Billing.Handlers.{
  resolve_user, upsert_invoice, on_checkout_completed, on_subscription_upsert,
  on_subscription_deleted, on_invoice, first, column_is, put, save, latest_row, checkout_row,
  row_for, upserted_row,
}
use forex_bot.Backend.Billing.Rows.{StripeEvent, Tables, Prices, EventObject, Moment, Row}
use forex_bot.Backend.Billing.Webhook.{
  Event, WebhookError, Reply, bad_signature, stripe_error, accepted, raised, meets_checks, flushed,
  Delivery, unsigned, delivered, dispatch_event, is_seen, is_empty, recorded, transact,
  handle_webhook,
}

-- Deliveries one after another, each at its moment.
unfoldable pub run : Prices → List (Moment × Delivery) → Tables → Tables
run prices [] db = db
run prices ((m, d) ∷ ds) db = run prices ds (handle_webhook prices m d db).1

-- No handler touches the table of events.
abbrev SameEvents : Tables → Tables → Type 0
SameEvents db db' = db'.events ≡ db.events

upsert_invoice-SameEvents :
    (u : ℕ) (obj : EventObject) (status : Text) (db : Tables)
    → SameEvents db (upsert_invoice u obj status db)
unfolding upsert_invoice
upsert_invoice-SameEvents u obj status db =
    option_case (SameEvents db) obj.id _ _ (λ h. refl) (λ i h. refl)

-- What holds of the tables that every handler leaves holds of those that the dispatch leaves.
pub dispatch_case :
    (Q : Tables → Type 0) (prices : Prices) (m : Moment) (e : Event) (db : Tables)
    → Q (on_checkout_completed m e.object db)
    → Q (on_subscription_upsert prices m e.object db)
    → Q (on_subscription_deleted m e.object db)
    → ((status : Text) → Q (on_invoice status e.object db))
    → Q db
    → Q (dispatch_event prices m e db)
unfolding dispatch_event
dispatch_case Q prices m e db checkout upsert deleted invoice other =
    if_case Q (text_beq e.event_type (codes "checkout.session.completed")) _ _ (λ h. checkout)
      (λ h.
        if_case Q (text_beq e.event_type (codes "customer.subscription.created")) _ _ (λ h. upsert)
          (λ h.
            if_case Q (text_beq e.event_type (codes "customer.subscription.updated")) _ _
              (λ h. upsert)
              (λ h.
                if_case Q (text_beq e.event_type (codes "customer.subscription.deleted")) _ _
                  (λ h. deleted)
                  (λ h.
                    if_case Q (text_beq e.event_type (codes "invoice.paid")) _ _
                      (λ h. invoice (codes "paid"))
                      (λ h.
                        if_case Q (text_beq e.event_type (codes "invoice.payment_failed")) _ _
                          (λ h. invoice (codes "open")) (λ h. other))))))

on_invoice-SameEvents :
    (status : Text) (obj : EventObject) (db : Tables) → SameEvents db (on_invoice status obj db)
unfolding on_invoice
on_invoice-SameEvents status obj db =
    option_case (SameEvents db) (resolve_user db obj) db (λ u. upsert_invoice u obj status db)
      (λ n. refl) (λ u n. upsert_invoice-SameEvents u obj status db)

dispatch_event-SameEvents :
    (prices : Prices) (m : Moment) (e : Event) (db : Tables)
    → SameEvents db (dispatch_event prices m e db)
unfolding on_checkout_completed on_subscription_upsert on_subscription_deleted
dispatch_event-SameEvents prices m e db =
    let o = e.object in
    let rs = db.subscriptions in
    dispatch_case (SameEvents db) prices m e db
      (option_case (SameEvents db) (resolve_user db o) db
        (λ u. record db {
          subscriptions = put (latest_row u rs) (checkout_row m o u (latest_row u rs)) rs;
        })
        (λ n. refl) (λ u n. refl))
      (option_case (SameEvents db) (resolve_user db o) db
        (λ u. record db {
          subscriptions = put (row_for o u rs) (upserted_row prices m o u (row_for o u rs)) rs;
        })
        (λ n. refl) (λ u n. refl))
      (option_case (SameEvents db) (first (λ (r : Row). column_is r.stripe_subscription_id o.id) rs)
        db
        (λ r. record db {
          subscriptions =
              save (record r { status = codes "canceled"; canceled_at = some m.now }) rs;
        })
        (λ n. refl) (λ r n. refl))
      (λ status. on_invoice-SameEvents status o db) refl

is_seen-append :
    (id : Text) (xs : List StripeEvent) (y : StripeEvent)
    → is_seen id (xs ++ y ∷ []) ≡ (if is_seen id xs then true else text_beq y.stripe_event_id id)
unfolding is_seen
is_seen-append id [] y = ground arith
is_seen-append id (x ∷ xs) y = ground (arith, is_seen-append id xs y)

not_accepted : (x : WebhookError) → raised x ≡ accepted → ⊥
not_accepted x h = cc

accepted_not_raised : (x : WebhookError) → accepted ≡ raised x → ⊥
accepted_not_raised x h = cc

true_not_false : true ≡ false → ⊥
true_not_false h = cc

pub flushed_case :
    (Q : Reply × Tables → Type 0) (db db' : Tables)
    → Q (accepted, db')
    → Q (raised stripe_error, db)
    → Q (flushed db db')
flushed_case Q db db' h k = if_case Q (all_of meets_checks db'.subscriptions) _ _ (λ a. h) (λ a. k)

transact-raised :
    (prices : Prices) (m : Moment) (e : Event) (fault : Option WebhookError) (db : Tables)
    (x : WebhookError)
    → (transact prices m e fault db).0 ≡ raised x
    → (transact prices m e fault db).1 ≡ db
transact-raised prices m e (some y) db x = λ h. refl
transact-raised prices m e none db x =
    flushed_case (λ (r : Reply × Tables). r.0 ≡ raised x → r.1 ≡ db) db _
      (λ b. elim (accepted_not_raised x b) [ ]) (λ b. refl)

-- The events that a successful transaction leaves.
noted_events :
    (prices : Prices) (id : Text) (m : Moment) (e : Event) (db : Tables)
    → is_seen id (dispatch_event prices m e (recorded m e db)).events
      ≡ (if is_seen id db.events then true else text_beq e.id id)
noted_events prices id m e db =
    ap (is_seen id) (dispatch_event-SameEvents prices m e (recorded m e db))
    ∙ is_seen-append id db.events _

transact-seen :
    (prices : Prices) (id : Text) (m : Moment) (e : Event) (fault : Option WebhookError)
    (db : Tables)
    → is_seen id db.events ≡ true
    → is_seen id (transact prices m e fault db).1.events ≡ true
transact-seen prices id m e (some y) db h = h
transact-seen prices id m e none db h =
    flushed_case (λ (r : Reply × Tables). is_seen id r.1.events ≡ true) db
      (dispatch_event prices m e (recorded m e db)) (ground (arith, noted_events prices id m e db))
      h

transact-is_seen :
    (prices : Prices) (m : Moment) (e : Event) (fault : Option WebhookError) (db : Tables)
    → (transact prices m e fault db).0 ≡ accepted
    → is_seen e.id (transact prices m e fault db).1.events ≡ true
transact-is_seen prices m e (some y) db = λ h. elim (not_accepted y h) [ ]
transact-is_seen prices m e none db =
    flushed_case (λ (r : Reply × Tables). r.0 ≡ accepted → is_seen e.id r.1.events ≡ true) db
      (dispatch_event prices m e (recorded m e db))
      (λ b. ground (arith, noted_events prices e.id m e db, text_beq_iff e.id e.id))
      (λ b. elim (not_accepted stripe_error b) [ ])

-- A failed delivery leaves no trace, not even the row of its event: an exception of the signature,
-- of the dispatch or of the commit leaves every table as it was.
pub raised_changes_nothing :
    (prices : Prices) (m : Moment) (d : Delivery) (db : Tables) (x : WebhookError)
    → (handle_webhook prices m d db).0 ≡ raised x
    → (handle_webhook prices m d db).1 ≡ db
unfolding handle_webhook
raised_changes_nothing prices m unsigned db x h = refl
raised_changes_nothing prices m (delivered e fault) db x h =
    if_case (λ (r : Reply × Tables). r.0 ≡ raised x → r.1 ≡ db) (is_empty e.id) _ _ (λ a b. refl)
      (λ a.
        if_case (λ (r : Reply × Tables). r.0 ≡ raised x → r.1 ≡ db) (is_empty e.event_type) _ _
          (λ a b. refl)
          (λ a.
            if_case (λ (r : Reply × Tables). r.0 ≡ raised x → r.1 ≡ db) (is_seen e.id db.events) _ _
              (λ a b. refl) (λ a. transact-raised prices m e fault db x)))
      h

seen_stays :
    (prices : Prices) (id : Text) (m : Moment) (d : Delivery) (db : Tables)
    → is_seen id db.events ≡ true
    → is_seen id (handle_webhook prices m d db).1.events ≡ true
unfolding handle_webhook
seen_stays prices id m unsigned db h = h
seen_stays prices id m (delivered e fault) db h =
    if_case (λ (r : Reply × Tables). is_seen id r.1.events ≡ true) (is_empty e.id) _ _ (λ a. h)
      (λ a.
        if_case (λ (r : Reply × Tables). is_seen id r.1.events ≡ true) (is_empty e.event_type) _ _
          (λ a. h)
          (λ a.
            if_case (λ (r : Reply × Tables). is_seen id r.1.events ≡ true) (is_seen e.id db.events)
              _ _ (λ a. h) (λ a. transact-seen prices id m e fault db h)))

run_stays_seen :
    (prices : Prices) (id : Text) (ds : List (Moment × Delivery)) (db : Tables)
    → is_seen id db.events ≡ true
    → is_seen id (run prices ds db).events ≡ true
unfolding run
run_stays_seen prices id [] db h = h
run_stays_seen prices id ((m, d) ∷ ds) db h =
    run_stays_seen prices id ds (handle_webhook prices m d db).1 (seen_stays prices id m d db h)

-- An event that a delivery was accepted for is there.
accepted-is_seen :
    (prices : Prices) (m : Moment) (e : Event) (fault : Option WebhookError) (db : Tables)
    → (handle_webhook prices m (delivered e fault) db).0 ≡ accepted
    → is_seen e.id (handle_webhook prices m (delivered e fault) db).1.events ≡ true
unfolding handle_webhook
accepted-is_seen prices m e fault db h =
    if_case (λ (r : Reply × Tables). r.0 ≡ accepted → is_seen e.id r.1.events ≡ true)
      (is_empty e.id) _ _ (λ a b. elim (not_accepted bad_signature b) [ ])
      (λ a.
        if_case (λ (r : Reply × Tables). r.0 ≡ accepted → is_seen e.id r.1.events ≡ true)
          (is_empty e.event_type) _ _ (λ a b. elim (not_accepted bad_signature b) [ ])
          (λ a.
            if_case (λ (r : Reply × Tables). r.0 ≡ accepted → is_seen e.id r.1.events ≡ true)
              (is_seen e.id db.events) _ _ (λ a b. a) (λ a. transact-is_seen prices m e fault db)))
      h

seen_is_skipped :
    (prices : Prices) (m : Moment) (e : Event) (fault : Option WebhookError) (db : Tables)
    → is_seen e.id db.events ≡ true
    → (handle_webhook prices m (delivered e fault) db).1 ≡ db
unfolding handle_webhook
seen_is_skipped prices m e fault db h =
    if_case (λ (r : Reply × Tables). r.1 ≡ db) (is_empty e.id) _ _ (λ a. refl)
      (λ a.
        if_case (λ (r : Reply × Tables). r.1 ≡ db) (is_empty e.event_type) _ _ (λ a. refl)
          (λ a.
            if_case (λ (r : Reply × Tables). r.1 ≡ db) (is_seen e.id db.events) _ _ (λ a. refl)
              (λ a. elim (true_not_false (sym h ∙ a)) [ ])))

-- Once a delivery of an event is accepted, every later delivery of an event with its id changes no
-- table, whatever deliveries come in between, accepted or failed, and whatever the later one holds.
pub accepted_once :
    (prices : Prices) (m m' : Moment) (e e' : Event) (fault fault' : Option WebhookError)
    (db : Tables) (ds : List (Moment × Delivery))
    → (handle_webhook prices m (delivered e fault) db).0 ≡ accepted
    → e'.id ≡ e.id
    → (handle_webhook prices m'
        (delivered e' fault')
        (run prices ds (handle_webhook prices m (delivered e fault) db).1)).1
      ≡ run prices ds (handle_webhook prices m (delivered e fault) db).1
accepted_once prices m m' e e' fault fault' db ds h q =
    let db1 = (handle_webhook prices m (delivered e fault) db).1 in
    let seen = run_stays_seen prices e.id ds db1 (accepted-is_seen prices m e fault db h) in
    seen_is_skipped prices m' e' fault' (run prices ds db1)
      (subst (λ i. is_seen i (run prices ds db1).events ≡ true) (sym q) seen)
