-- ===== src/Backend/Accounts/Service.antt =====
-- backend/app/services/auth_service.py: `AuthService`. The audit log, the mails and the customer of
-- Stripe, which are sent at best effort, are left out.

pub mod Keeps
pub mod Revoked
pub mod OneTime
pub mod Login
use forex_bot.Common.{
  ℕ, ◌+◌, ◌-◌, ◌*◌, ◌/◌, Bool, true, false, not, ◌&&◌, ◌||◌, ◌⊎◌, inl, inr, Option, none, some,
  List, [], ◌∷◌, ◌++◌, ltb, if◌then◌else◌,
}
use forex_bot.Common.Eq.{list_beq, nat_eq}
use forex_bot.Common.Text.{Text, codes, text_beq, upper}
use forex_bot.Backend.Gate.{find, is_some, is_none}
use forex_bot.Backend.Accounts.Secrets.{stored_secret, read_secret}
use forex_bot.Backend.Accounts.StepUp.{verify_totp}
use forex_bot.Backend.Accounts.Blob.{Bytes}
use forex_bot.Backend.Accounts.Types.{
  User, OneTimeToken, Claims, Packages, second, Store, RedisState, missing, down, up, Accounts,
  Moment, AuthError, email_taken, invalid_credentials, mfa_required, mfa_invalid, token_invalid,
  link_invalid, link_expired, server_error, Answer, issued, accepted, refused, Call, signup, login,
  refresh, logout, verify_email, request_password_reset, reset_password, enroll_totp, confirm_totp,
}

-- The column is CITEXT: letters compare in any case.
abbrev pub has_email : Text → User → Bool
has_email email u = text_beq (upper u.email) (upper email) && is_none u.deleted_at

abbrev pub is_present : Text → User → Bool
is_present id u = text_beq u.id id && is_none u.deleted_at

-- The assignments to the row of a primary key.
unfoldable pub change_user : Text → (User → User) → List User → List User
change_user id g [] = []
change_user id g (u ∷ users) =
    let rest = change_user id g users in if text_beq u.id id then g u ∷ users else u ∷ rest

abbrev pub has_hash : Bytes → OneTimeToken → Bool
has_hash digest t = list_beq t.token_hash digest

unfoldable pub use_token : Bytes → ℕ → List OneTimeToken → List OneTimeToken
use_token digest now [] = []
use_token digest now (t ∷ rows) =
    let rest = use_token digest now rows in
    if has_hash digest t then record t { used_at = some now } ∷ rows else t ∷ rest

abbrev pub revoked_key : Text → Text
revoked_key jti = codes "jwt:revoked:" ++ jti

-- `max(exp - int(now), 1)`
abbrev pub ttl_of : ℕ → ℕ → ℕ
ttl_of exp now = if ltb (exp - now / second) 1 then 1 else exp - now / second

module _ {R : Type 0} (pk : Packages) (st : Store R) where
  abbrev pub Outcome : Type 0
  Outcome = Answer × Accounts R

  abbrev pub commit : Moment → Answer → Accounts R → Accounts R → Outcome
  commit m x new old = if m.commits then (x, new) else (refused server_error, old)

  -- `decode_token` with an expected type.
  unfoldable pub decode_token : Text → Text → ℕ → Option Claims
  decode_token typ token now = elim (pk.decode token now) [
    | none ↦ none
    | some c ↦ if not (text_beq c.typ typ) then none else some c
  ]

  unfoldable pub revoke_jti : Moment → Option Text → ℕ → R → R
  revoke_jti m none ttl r = r
  revoke_jti m (some jti) ttl r = elim m.redis [
    | up ↦ st.setex (revoked_key jti) ttl m.now r
    | _ ↦ r
  ]

  unfoldable pub is_revoked : Moment → Option Text → R → Bool
  is_revoked m none r = false
  is_revoked m (some jti) r = elim m.redis [ up ↦ st.has (revoked_key jti) m.now r | _ ↦ false ]

  abbrev pub new_user : Moment → Text → Text → User
  new_user m email password = record {
    id = m.new_id;
    email = email;
    password_hash = pk.hash_password password m.salt;
    email_verified_at = none;
    totp_secret = none;
    deleted_at = none;
  }

  abbrev pub new_token : Moment → Text → ℕ → OneTimeToken
  new_token m user_id lifetime = record {
    user_id = user_id;
    token_hash = pk.hash_token m.raw_token;
    expires_at = m.now + lifetime;
    used_at = none;
  }

  abbrev pub hour : ℕ
  hour = 3600 * second

  unfoldable pub on_signup : Moment → Text → Text → Accounts R → Outcome
  on_signup m email password a =
      if is_some (find (has_email email) a.users) || not m.is_unique
      then (refused email_taken, a)
      else commit m (issued m.new_id)
          (record a {
            users = a.users ++ (new_user m email password ∷ []);
            email_tokens = a.email_tokens ++ (new_token m m.new_id (24 * hour) ∷ []);
          })
          a

  -- The gate of the second factor: the error that it raises, if it does.
  unfoldable pub totp_gate : Moment → Option Text → User → Option AuthError
  totp_gate m code u = elim u.totp_secret [
    | none ↦ none
    | some column ↦ elim code [
      | none ↦ some mfa_required
      | some k ↦ elim (read_secret pk.aead m.kek u.id column) [
        | none ↦ some mfa_invalid
        | some secret ↦ elim (verify_totp pk.pyotp secret k m.now) [
          | some true ↦ none
          | some false ↦ some mfa_invalid
          | none ↦ some server_error
        ]
      ]
    ]
  ]

  abbrev pub rehashed : Moment → Text → User → User
  rehashed m password u =
      if pk.needs_rehash u.password_hash
      then record u { password_hash = pk.hash_password password m.salt }
      else u

  unfoldable pub on_login : Moment → Text → Text → Option Text → Accounts R → Outcome
  on_login m email password code a = elim (find (has_email email) a.users) [
    | none ↦ (refused invalid_credentials, a)
    | some u ↦
        if not (pk.verify_password password u.password_hash)
        then (refused invalid_credentials, a)
        else elim (totp_gate m code u) [
          | some e ↦ (refused e, a)
          | none ↦
              commit m (issued u.id)
                (record a { users = change_user u.id (rehashed m password) a.users }) a
        ]
  ]

  unfoldable pub rotate : Moment → Claims → Accounts R → Outcome
  rotate m c a = elim c.sub [
    | none ↦ (refused token_invalid, a)
    | some id ↦ elim (find (is_present id) a.users) [
      | none ↦ (refused token_invalid, a)
      | some u ↦
          (issued u.id, record a { denylist = revoke_jti m c.jti (ttl_of c.exp m.now) a.denylist })
    ]
  ]

  unfoldable pub on_refresh : Moment → Text → Accounts R → Outcome
  on_refresh m token a = elim (decode_token (codes "refresh") token m.now) [
    | none ↦ (refused token_invalid, a)
    | some c ↦ if is_revoked m c.jti a.denylist then (refused token_invalid, a) else rotate m c a
  ]

  unfoldable pub on_logout : Moment → Option Text → Accounts R → Outcome
  on_logout m none a = (accepted, a)
  on_logout m (some token) a = elim (decode_token (codes "refresh") token m.now) [
    | none ↦ (accepted, a)
    | some c ↦
        (accepted, record a { denylist = revoke_jti m c.jti (ttl_of c.exp m.now) a.denylist })
  ]

  -- A row that may be used, of a user that is not deleted, or the error.
  unfoldable pub usable : Moment → Accounts R → Option OneTimeToken → Text ⊎ AuthError
  usable m a none = inr link_invalid
  usable m a (some t) =
      if is_some t.used_at
      then inr link_invalid
      else if ltb t.expires_at m.now
      then inr link_expired
      else if is_none (find (is_present t.user_id) a.users)
      then inr link_invalid
      else inl t.user_id

  unfoldable pub on_verify_email : Moment → Text → Accounts R → Outcome
  on_verify_email m token a =
      let digest = pk.hash_token token in
      elim (usable m a (find (has_hash digest) a.email_tokens)) [
        | inr e ↦ (refused e, a)
        | inl id ↦
            commit m accepted
              (record a {
                users = change_user id (λ u. record u { email_verified_at = some m.now }) a.users;
                email_tokens = use_token digest m.now a.email_tokens;
              })
              a
      ]

  unfoldable pub on_request_password_reset : Moment → Text → Accounts R → Outcome
  on_request_password_reset m email a = elim (find (has_email email) a.users) [
    | none ↦ (accepted, a)
    | some u ↦
        commit m accepted
          (record a { reset_tokens = a.reset_tokens ++ (new_token m u.id hour ∷ []) }) a
  ]

  abbrev pub with_password : Moment → Text → User → User
  with_password m password u = record u { password_hash = pk.hash_password password m.salt }

  unfoldable pub on_reset_password : Moment → Text → Text → Accounts R → Outcome
  on_reset_password m token password a =
      let digest = pk.hash_token token in
      elim (usable m a (find (has_hash digest) a.reset_tokens)) [
        | inr e ↦ (refused e, a)
        | inl id ↦
            commit m accepted
              (record a {
                users = change_user id (with_password m password) a.users;
                reset_tokens = use_token digest m.now a.reset_tokens;
              })
              a
      ]

  unfoldable pub on_enroll_totp : Moment → Text → Accounts R → Outcome
  on_enroll_totp m id a = elim (find (is_present id) a.users) [
    | none ↦ (refused token_invalid, a)
    | some u ↦ elim (stored_secret pk.aead m.kek m.key_version m.draw u.id m.secret) [
      | none ↦ (refused server_error, a)
      | some column ↦
          commit m accepted
            (record a {
              users = change_user u.id (λ v. record v { totp_secret = some column }) a.users;
            })
            a
    ]
  ]

  unfoldable pub on_confirm_totp : Moment → Text → Text → Accounts R → Outcome
  on_confirm_totp m id code a = elim (find (is_present id) a.users) [
    | none ↦ (refused mfa_invalid, a)
    | some u ↦ elim u.totp_secret [
      | none ↦ (refused mfa_invalid, a)
      | some column ↦ elim (totp_gate m (some code) u) [
        | some e ↦ (refused e, a)
        | none ↦ commit m accepted a a
      ]
    ]
  ]

  unfoldable pub serve : Moment → Call → Accounts R → Outcome
  serve m (signup email password) a = on_signup m email password a
  serve m (login email password code) a = on_login m email password code a
  serve m (refresh token) a = on_refresh m token a
  serve m (logout token) a = on_logout m token a
  serve m (verify_email token) a = on_verify_email m token a
  serve m (request_password_reset email) a = on_request_password_reset m email a
  serve m (reset_password token password) a = on_reset_password m token password a
  serve m (enroll_totp id) a = on_enroll_totp m id a
  serve m (confirm_totp id code) a = on_confirm_totp m id code a

  unfoldable pub serve_all : List (Moment × Call) → Accounts R → Accounts R
  serve_all [] a = a
  serve_all ((m, c) ∷ cs) a = serve_all cs (serve m c a).1
