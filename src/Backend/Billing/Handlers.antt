-- ===== src/Backend/Billing/Handlers.antt =====
-- backend/app/services/billing_service.py: the handlers of the events.
use forex_bot.Common.{
  ℕ, Bool, true, false, Option, none, some, List, [], ◌∷◌, ◌++◌, ltb, ◌==◌, if◌then◌else◌,
}
use forex_bot.Common.Text.{Text, codes, text_beq}
use forex_bot.Backend.Billing.Rows.{Row, Invoice, Tables, Prices, EventObject, Moment}

-- Two texts that are both there, and equal.
abbrev pub same : Option Text → Option Text → Bool
same (some a) (some b) = text_beq a b
same _ _ = false

-- SQL's `column = value`, which SQLAlchemy makes IS NULL of where the value is None.
abbrev pub column_is : Option Text → Option Text → Bool
column_is none none = true
column_is (some a) (some b) = text_beq a b
column_is _ _ = false

unfoldable pub plan_code_for_price : Prices → Option Text → Option Text
plan_code_for_price prices price_id =
    if same price_id prices.pro_monthly
    then some (codes "pro_monthly")
    else if same price_id prices.pro_yearly
    then some (codes "pro_yearly")
    else if same price_id prices.lifetime
    then some (codes "lifetime")
    else none

unfoldable pub is_user : ℕ → List ℕ → Bool
is_user u [] = false
is_user u (v ∷ vs) = let rest = is_user u vs in if v == u then true else rest

abbrev pub known : List ℕ → ℕ → Option ℕ
known users u = if is_user u users then some u else none

-- The first row that meets a test.
unfoldable pub first : (Row → Bool) → List Row → Option Row
first p [] = none
first p (r ∷ rs) = let rest = first p rs in if p r then some r else rest

abbrev pub owner_of : List ℕ → Option Row → Option ℕ
owner_of users none = none
owner_of users (some r) = known users r.user_id

abbrev pub by_customer : Tables → Option Text → Option ℕ
by_customer db none = none
by_customer db (some c) =
    owner_of db.users (first (λ (r : Row). same r.stripe_customer_id (some c)) db.subscriptions)

abbrev pub or_then : Option ℕ → Option ℕ → Option ℕ
or_then (some u) o = some u
or_then none o = o

abbrev pub by_metadata : Tables → Option ℕ → Option ℕ
by_metadata db none = none
by_metadata db (some u) = known db.users u

-- The user of the metadata, else the one whose row has the customer.
unfoldable pub resolve_user : Tables → EventObject → Option ℕ
resolve_user db obj = or_then (by_metadata db obj.metadata_user_id) (by_customer db obj.customer)

abbrev pub newer_row : Row → Option Row → Option Row
newer_row r none = some r
newer_row r (some t) = if ltb r.created_at t.created_at then some t else some r

unfoldable pub latest_row : ℕ → List Row → Option Row
latest_row u [] = none
latest_row u (r ∷ rs) =
    let rest = latest_row u rs in if r.user_id == u then newer_row r rest else rest

-- The object of a row is written back under its key.
unfoldable pub save : Row → List Row → List Row
save r [] = []
save r (s ∷ rs) = let rest = save r rs in if s.id == r.id then r ∷ rest else s ∷ rest

abbrev pub or_keep : {A : Type 0} → Option A → Option A → Option A
or_keep (some a) o = some a
or_keep none o = o

abbrev pub or_text : Option Text → Text → Text
or_text (some t) d = t
or_text none d = d

abbrev pub new_row : Moment → ℕ → Text → Text → Option Text → Option Text → Row
new_row m u plan status sub_id customer = record {
  id = m.next_id;
  user_id = u;
  plan = plan;
  status = status;
  stripe_customer_id = customer;
  stripe_subscription_id = sub_id;
  current_period_start = none;
  current_period_end = none;
  canceled_at = none;
  created_at = m.now;
}

-- A one-time payment is active at once, and never ends.
abbrev pub paid_once : Moment → EventObject → Row → Row
paid_once m obj r =
    if same obj.mode (some (codes "payment"))
    then record r {
      plan = or_text obj.metadata_plan_code (codes "lifetime");
      status = codes "active";
      current_period_start = some m.now;
      current_period_end = none;
    }
    else r

unfoldable pub checkout_row : Moment → EventObject → ℕ → Option Row → Row
checkout_row m obj u none =
    paid_once m obj (new_row m u (codes "pro_monthly") (codes "incomplete") none obj.customer)
checkout_row m obj u (some r) =
    paid_once m obj (record r { stripe_customer_id = or_keep r.stripe_customer_id obj.customer })

-- A new row is added, another is saved.
abbrev pub put : Option Row → Row → List Row → List Row
put none r rs = rs ++ r ∷ []
put (some old) r rs = save r rs

unfoldable pub on_checkout_completed : Moment → EventObject → Tables → Tables
on_checkout_completed m obj db = elim (resolve_user db obj) [
  | none ↦ db
  | some u ↦
      let old = latest_row u db.subscriptions in
      record db { subscriptions = put old (checkout_row m obj u old) db.subscriptions }
]

abbrev pub dated : Moment → EventObject → Row → Row
dated m obj r = record r {
  current_period_start = or_keep obj.period_start r.current_period_start;
  current_period_end = or_keep obj.period_end r.current_period_end;
  canceled_at = if text_beq obj.status (codes "canceled") then some m.now else r.canceled_at;
}

unfoldable pub upserted_row : Prices → Moment → EventObject → ℕ → Option Row → Row
upserted_row prices m obj u none = dated m obj (
    new_row m u (or_text (plan_code_for_price prices obj.price_id) (codes "pro_monthly")) obj.status
      obj.id obj.customer)
upserted_row prices m obj u (some r) = dated m obj (record r {
  stripe_subscription_id = obj.id;
  stripe_customer_id = or_keep obj.customer r.stripe_customer_id;
  plan = or_text (plan_code_for_price prices obj.price_id) r.plan;
  status = obj.status;
})

-- The row of the Stripe subscription, else the latest of the user.
abbrev pub row_for : EventObject → ℕ → List Row → Option Row
row_for obj u rs = elim (first (λ (r : Row). column_is r.stripe_subscription_id obj.id) rs) [
  | some r ↦ some r
  | none ↦ latest_row u rs
]

unfoldable pub on_subscription_upsert : Prices → Moment → EventObject → Tables → Tables
on_subscription_upsert prices m obj db = elim (resolve_user db obj) [
  | none ↦ db
  | some u ↦
      let old = row_for obj u db.subscriptions in
      record db { subscriptions = put old (upserted_row prices m obj u old) db.subscriptions }
]

unfoldable pub on_subscription_deleted : Moment → EventObject → Tables → Tables
on_subscription_deleted m obj db =
    elim (first (λ (r : Row). column_is r.stripe_subscription_id obj.id) db.subscriptions) [
      | none ↦ db
      | some r ↦ record db {
        subscriptions =
            save (record r { status = codes "canceled"; canceled_at = some m.now })
              db.subscriptions;
      }
    ]

-- A time of payment is noted only by an event that says the invoice is paid.
abbrev pub paid_time : Text → EventObject → Option ℕ
paid_time status obj = if text_beq status (codes "paid") then obj.paid_at else none

abbrev pub new_invoice : ℕ → Text → Text → EventObject → Invoice
new_invoice u inv_id status obj = record {
  user_id = u;
  stripe_invoice_id = inv_id;
  amount_cents = obj.amount;
  currency = obj.currency;
  status = status;
  paid_at = paid_time status obj;
  hosted_invoice_url = obj.hosted_invoice_url;
}

abbrev pub changed_invoice : Text → EventObject → Invoice → Invoice
changed_invoice status obj inv = record inv {
  amount_cents = obj.amount;
  currency = obj.currency;
  status = status;
  paid_at = or_keep (paid_time status obj) inv.paid_at;
  hosted_invoice_url = or_keep obj.hosted_invoice_url inv.hosted_invoice_url;
}

-- The first row with the id is changed; without one a row is added at the end.
unfoldable pub put_invoice : ℕ → Text → Text → EventObject → List Invoice → List Invoice
put_invoice u inv_id status obj [] = new_invoice u inv_id status obj ∷ []
put_invoice u inv_id status obj (i ∷ is) =
    let rest = put_invoice u inv_id status obj is in
    if text_beq i.stripe_invoice_id inv_id then changed_invoice status obj i ∷ is else i ∷ rest

unfoldable pub upsert_invoice : ℕ → EventObject → Text → Tables → Tables
upsert_invoice u obj status db = elim obj.id [
  | none ↦ db
  | some inv_id ↦ record db { invoices = put_invoice u inv_id status obj db.invoices }
]

-- `_on_invoice_paid` and `_on_invoice_failed`, whose mail may fail and changes no row.
unfoldable pub on_invoice : Text → EventObject → Tables → Tables
on_invoice status obj db = elim (resolve_user db obj) [
  | none ↦ db
  | some u ↦ upsert_invoice u obj status db
]
