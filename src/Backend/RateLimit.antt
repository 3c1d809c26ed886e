-- ===== src/Backend/RateLimit.antt =====
-- backend/app/middleware/rate_limit.py: `RateLimiter.check` and the two dependencies. Redis is a
-- parameter. A time is a number of microseconds.
pub mod Bound
mod Tests
use forex_bot.Common.{
  ℕ, zero, suc, ◌+◌, ◌*◌, ◌/◌, ◌%◌, ◌≡◌, ◌≢◌, Bool, true, false, ◌&&◌, ◌||◌, Option, none, some,
  List, [], ◌∷◌, ◌++◌, ltb, leb, ◌==◌, if◌then◌else◌,
}
use forex_bot.Common.Text.{Text, codes, text_beq}
use forex_bot.Backend.Subscription.{Subscription, latest, in_statuses}

abbrev pub second : ℕ
second = 1_000_000

-- The decimal digits of a number; the number itself is fuel enough.
unfoldable pub digits : ℕ → ℕ → Text
digits zero n = []
digits (suc fuel) n =
    let rest = digits fuel (n / 10) in
    if ltb n 10 then (n + b'0') ∷ [] else rest ++ ((n % 10 + b'0') ∷ [])

unfoldable pub decimal : ℕ → Text
decimal n = digits (suc n) n

-- A counter of Redis, and the time at which it expires, if that is set.
pub record Counter : Type 0 where
  pub value : ℕ
  pub expires_at : Option ℕ

abbrev pub is_alive : ℕ → Option ℕ → Bool
is_alive now none = true
is_alive now (some end) = ltb now end

-- INCR at a time: a key that is missing or expired starts at 1, with no expiry.
abbrev pub incremented : ℕ → Option Counter → Counter
incremented now none = record { value = 1; expires_at = none }
incremented now (some c) =
    if is_alive now c.expires_at
    then record c { value = c.value + 1 }
    else record { value = 1; expires_at = none }

abbrev pub with_expiry : ℕ → Option Counter → Option Counter
with_expiry end none = none
with_expiry end (some c) = some (record c { expires_at = some end })

-- What is used of Redis: INCR, which answers the new value, and EXPIRE with seconds; `peek` is the
-- entry of a key.
pub record Redis (R : Type 0) : Type 0 where
  pub incr : Text → ℕ → R → ℕ × R
  pub expire : Text → ℕ → ℕ → R → R
  pub peek : Text → R → Option Counter
  pub incr_value :
      (key : Text) (now : ℕ) (r : R) → (incr key now r).0 ≡ (incremented now (peek key r)).value
  pub peek-incr :
      (key : Text) (now : ℕ) (r : R)
      → peek key (incr key now r).1 ≡ some (incremented now (peek key r))
  pub peek-incr_other :
      (key other : Text) (now : ℕ) (r : R)
      → other ≢ key
      → peek other (incr key now r).1 ≡ peek other r
  pub peek-expire :
      (key : Text) (ttl now : ℕ) (r : R)
      → peek key (expire key ttl now r) ≡ with_expiry (now + ttl * second) (peek key r)
  pub peek-expire_other :
      (key other : Text) (ttl now : ℕ) (r : R)
      → other ≢ key
      → peek other (expire key ttl now r) ≡ peek other r

-- Whether Redis answers INCR, and EXPIRE after it.
pub data Health : Type 0 where
  up no_expire down : Health

pub record Request : Type 0 where
  pub scope : Text
  pub identity : Text
  pub per_min : ℕ
  pub now : ℕ
  pub health : Health

abbrev pub window_of : ℕ → ℕ
window_of now = now / (60 * second)

-- f"rl:{scope}:{identity}:{window}"
abbrev pub key_of : Text → Text → ℕ → Text
key_of scope identity window =
    codes "rl:" ++ (scope ++ (codes ":" ++ (identity ++ (codes ":" ++ decimal window))))

abbrev pub request_key : Request → Text
request_key q = key_of q.scope q.identity (window_of q.now)

module _ {R : Type 0} (redis : Redis R) where
  -- EXPIRE is sent after the first count only; if it raises the request passes.
  abbrev pub first_counted : Health → Request → ℕ → R → Bool × R
  first_counted up q count r = (leb count q.per_min, redis.expire (request_key q) 90 q.now r)
  first_counted _ q count r = (true, r)

  abbrev pub counted : Health → Request → ℕ × R → Bool × R
  counted health q (count, r) =
      if count == 1 then first_counted health q count r else (leb count q.per_min, r)

  -- Whether the request passes. It passes too where Redis does not answer.
  abbrev pub check_with : Health → Request → R → Bool × R
  check_with down q r = (true, r)
  check_with up q r = counted up q (redis.incr (request_key q) q.now r)
  check_with no_expire q r = counted no_expire q (redis.incr (request_key q) q.now r)

  unfoldable pub check : Request → R → Bool × R
  check q r = check_with q.health q r

  -- How many of the requests with a key pass.
  unfoldable pub passed : Text → List Request → R → ℕ
  passed key [] r = 0
  passed key (q ∷ qs) r =
      let (ok, r1) = check q r in
      let rest = passed key qs r1 in if ok && text_beq (request_key q) key then suc rest else rest

-- `forwarded` is the first part of X-Forwarded-For, without spaces; an empty user is none.
abbrev pub identity_of : Option Text → Text → Option Text → Text
identity_of (some (c ∷ user_id)) forwarded host = codes "u:" ++ (c ∷ user_id)
identity_of _ (c ∷ forwarded) host = codes "ip:" ++ (c ∷ forwarded)
identity_of _ [] (some host) = codes "ip:" ++ host
identity_of _ [] none = codes "ip:unknown"

pub record Tiers : Type 0 where
  pub free_per_min : ℕ
  pub pro_per_min : ℕ
  pub pro_yearly_per_min : ℕ

abbrev pub plan_limit : Tiers → Subscription → ℕ
plan_limit tiers sub =
    if in_statuses sub.status
    then (if text_beq sub.plan (codes "pro_monthly")
        then tiers.pro_per_min
        else if text_beq sub.plan (codes "pro_yearly") || text_beq sub.plan (codes "lifetime")
        then tiers.pro_yearly_per_min
        else tiers.free_per_min)
    else tiers.free_per_min

-- The limit of `tier_rate_limit`: the rows are missing where the lookup raises.
unfoldable pub tier_limit : Tiers → Option ℕ → Option (List Subscription) → ℕ
tier_limit tiers none rows = tiers.free_per_min
tier_limit tiers (some user_id) none = tiers.free_per_min
tier_limit tiers (some user_id) (some rows) = elim (latest rows user_id) [
  | none ↦ tiers.free_per_min
  | some sub ↦ plan_limit tiers sub
]
