-- ===== src/Backend.antt =====
-- backend/app/services: who may trade live.
pub mod Subscription
pub mod Gate
pub mod Billing
pub mod Instances
pub mod Accounts
pub mod RateLimit
mod Tests
