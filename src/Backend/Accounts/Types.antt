-- ===== src/Backend/Accounts/Types.antt =====
-- backend/app/services/auth_service.py: the rows, what the packages offer, and what a call meets. A
-- time is a number of microseconds.
use forex_bot.Common.{ℕ, ◌+◌, ◌*◌, ◌≡◌, ◌≢◌, Bool, true, Option, List, ltb}
use forex_bot.Common.Text.{Text}
use forex_bot.Backend.Accounts.Blob.{Bytes}
use forex_bot.Backend.Accounts.Secrets.{Aead, Draw}
use forex_bot.Backend.Accounts.StepUp.{Pyotp}

pub record User : Type 0 where
  pub id : Text
  pub email : Text
  pub password_hash : Text
  pub email_verified_at : Option ℕ
  pub totp_secret : Option Bytes
  pub deleted_at : Option ℕ

-- A row of email_verification_tokens or password_reset_tokens.
pub record OneTimeToken : Type 0 where
  pub user_id : Text
  pub token_hash : Bytes
  pub expires_at : ℕ
  pub used_at : Option ℕ

-- The claims of a token that verified; a `jti` that is empty and a `sub` that is no UUID count as
-- missing, `exp` is in seconds.
pub record Claims : Type 0 where
  pub sub : Option Text
  pub jti : Option Text
  pub exp : ℕ
  pub typ : Text

-- The packages passlib, hashlib, python-jose, pyotp and cryptography. `decode` is `jwt.decode` at a
-- time, or its exception; `hash_password` is given its salt.
pub record Packages : Type 0 where
  pub hash_password : Text → Text → Text
  pub verify_password : Text → Text → Bool
  pub needs_rehash : Text → Bool
  pub hash_token : Text → Bytes
  pub decode : Text → ℕ → Option Claims
  pub aead : Aead
  pub pyotp : Pyotp
  pub verify-hash : (plain salt : Text) → verify_password plain (hash_password plain salt) ≡ true

abbrev pub second : ℕ
second = 1_000_000

-- What is used of Redis: SETEX with a time to live in seconds, and EXISTS, both at a time.
pub record Store (R : Type 0) : Type 0 where
  pub setex : Text → ℕ → ℕ → R → R
  pub has : Text → ℕ → R → Bool
  pub has-setex :
      (key : Text) (ttl now time : ℕ) (r : R)
      → has key time (setex key ttl now r) ≡ ltb time (now + ttl * second)
  pub has_other :
      (key other : Text) (ttl now time : ℕ) (r : R)
      → other ≢ key
      → has other time (setex key ttl now r) ≡ has other time r

pub data RedisState : Type 0 where
  missing down up : RedisState

-- The tables of accounts, and the denylist of tokens in Redis.
pub record Accounts (R : Type 0) : Type 0 where
  pub users : List User
  pub email_tokens : List OneTimeToken
  pub reset_tokens : List OneTimeToken
  pub denylist : R

-- The clock, whether Redis answers, the new row is unique and the transaction commits, the setting
-- of the key and its version, and what is drawn at random.
pub record Moment : Type 0 where
  pub now : ℕ
  pub redis : RedisState
  pub is_unique : Bool
  pub commits : Bool
  pub kek : Bytes
  pub key_version : ℕ
  pub draw : Draw
  pub raw_token : Text
  pub salt : Text
  pub secret : Text
  pub new_id : Text

pub data AuthError : Type 0 where
  email_taken invalid_credentials mfa_required mfa_invalid token_invalid : AuthError
  link_invalid link_expired server_error : AuthError

-- A pair of tokens for a user, the silent answer, or an error.
pub data Answer : Type 0 where
  issued : Text → Answer
  accepted : Answer
  refused : AuthError → Answer

pub data Call : Type 0 where
  signup : Text → Text → Call
  login : Text → Text → Option Text → Call
  refresh : Text → Call
  logout : Option Text → Call
  verify_email : Text → Call
  request_password_reset : Text → Call
  reset_password : Text → Text → Call
  enroll_totp : Text → Call
  confirm_totp : Text → Text → Call
