-- ===== src/Backend/Billing.antt =====
-- backend/app/services/billing_service.py: the events of Stripe and what they do to the rows. The
-- database is its tables; a rollback gives back the tables as they were. Times are numbers of
-- microseconds, and the clock is read once. The audit log is left out.
pub mod Rows
pub mod Handlers
pub mod Webhook
pub mod Replay
pub mod Unique
pub mod Sessions
pub mod Trial
mod Tests
