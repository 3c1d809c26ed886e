-- ===== src/Backend/Accounts.antt =====
-- backend/app/services/auth_service.py, core/security.py, core/tokens.py, core/encryption.py and
-- middleware/auth.py: accounts, their sessions, one-time tokens and second factor.
pub mod Blob
pub mod Secrets
pub mod StepUp
pub mod Types
pub mod Service
mod Tests
