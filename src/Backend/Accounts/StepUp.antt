-- ===== src/Backend/Accounts/StepUp.antt =====
-- backend/app/core/security.py: `verify_totp`. backend/app/middleware/auth.py: `require_step_up`.
use forex_bot.Common.{
  ℕ, ◌≡◌, ◌≢◌, refl, sym, ap, ◌∙◌, subst, Bool, true, false, not, ◌&&◌, ◌||◌, Option-cases, inl,
  inr, Option, none, some, [], ◌∷◌, length, all_of, ltb, leb, ◌==◌, if◌then◌else◌, arith,
}
use forex_bot.Common.Cases.{if_case}
use forex_bot.Common.Text.{Text}
use forex_bot.Backend.Accounts.Blob.{Bytes, EncryptedBlob, fits_u16, packed, encode_totp_blob}
use forex_bot.Backend.Accounts.Secrets.{Aead, Draw, IsDrawn, blob, load_kek, encrypt, stored_secret}

-- RFC 4648, in either case.
unfoldable pub is_base32 : ℕ → Bool
is_base32 c =
    (leb b'A' c && leb c b'Z')
    || ((leb b'a' c && leb c b'z') || ((leb b'2' c && leb c b'7') || c == b'='))

abbrev is_digit : ℕ → Bool
is_digit c = leb b'0' c && leb c b'9'

-- `TOTP(secret).verify(code, valid_window=1)` of the package pyotp at a time. It raises on a secret
-- that is no base32 text.
pub record Pyotp : Type 0 where
  pub verify : Text → Text → ℕ → Option Bool
  pub needs_base32 :
      (secret code : Text) (now : ℕ)
      → all_of is_base32 secret ≡ false
      → verify secret code now ≡ none

-- `verify_totp`; a code is a text of ASCII.
unfoldable pub verify_totp : Pyotp → Text → Text → ℕ → Option Bool
verify_totp pyotp secret code now =
    if not (all_of is_digit code) || not (length code == 6)
    then some false
    else pyotp.verify secret code now

-- `totp_secret.decode("ascii")`
unfoldable pub decode_ascii : Bytes → Option Text
decode_ascii column = if all_of (λ c. ltb c 128) column then some column else none

pub data StepUp : Type 0 where
  passes : StepUp
  two_factor_required : StepUp
  raises : StepUp

abbrev pub step_up_answer : Option Bool → StepUp
step_up_answer none = raises
step_up_answer (some true) = passes
step_up_answer (some false) = two_factor_required

-- `column` is the admin's `totp_secret`, `header` the code that the request carries.
unfoldable pub require_step_up : Pyotp → ℕ → Option Bytes → Option Text → StepUp
require_step_up pyotp now none header = two_factor_required
require_step_up pyotp now (some column) none = two_factor_required
require_step_up pyotp now (some column) (some []) = two_factor_required
require_step_up pyotp now (some column) (some (c ∷ code)) = elim (decode_ascii column) [
  | none ↦ two_factor_required
  | some secret ↦ step_up_answer (verify_totp pyotp secret (c ∷ code) now)
]

some_inj : {A : Type 0} (x y : A) → some x ≡ some y → y ≡ x
some_inj x y e = cc

encoded-packed :
    (b : EncryptedBlob) (column : Bytes) → encode_totp_blob b ≡ some column → column ≡ packed b
unfolding encode_totp_blob
encoded-packed b column =
    if_case (λ (o : Option Bytes). o ≡ some column → column ≡ packed b)
      (fits_u16 b.nonce_payload
        && (fits_u16 b.nonce_dek && (fits_u16 b.ciphertext && fits_u16 b.encrypted_dek)))
      _ _ (λ t e. some_inj _ _ e) (λ t e. cc)

abbrev ZeroSecond : Bytes → Type 0
ZeroSecond (v ∷ p ∷ rest) = p ≡ 0
ZeroSecond _ = ⊥

no_base32 : (xs : Bytes) → ZeroSecond xs → all_of is_base32 xs ≡ false
unfolding is_base32
no_base32 [] h = elim h [ ]
no_base32 (v ∷ []) h = elim h [ ]
no_base32 (v ∷ p ∷ rest) h = ground arith

stored_lem :
    (aead : Aead) (raw : Bytes) (version : ℕ) (d : Draw) (user_id secret : Text) (column : Bytes)
    → stored_secret aead raw version d user_id secret ≡ some column
    → (b : EncryptedBlob) × (encode_totp_blob b ≡ some column) × (b.nonce_payload ≡ d.nonce_payload)
unfolding stored_secret encrypt
stored_lem aead raw version d user_id secret column e = elim (Option-cases (load_kek raw)) [
  | inl k ↦ let x = rw (k, stored_secret, encrypt) at e in cc
  | inr (kek, k) ↦
      (blob aead kek version d user_id secret, rw (k, stored_secret, encrypt) at e, refl)
]

packed_is_no_base32 :
    (b : EncryptedBlob) → length b.nonce_payload ≡ 12 → all_of is_base32 (packed b) ≡ false
packed_is_no_base32 b h = no_base32 (packed b) (omega arith)

answer_none : (o : Option Bool) → o ≢ some true → step_up_answer o ≢ passes
answer_none none h = λ e. cc
answer_none (some true) h = λ e. h refl
answer_none (some false) h = λ e. cc

verify_refuses :
    (pyotp : Pyotp) (secret code : Text) (now : ℕ)
    → all_of is_base32 secret ≡ false
    → verify_totp pyotp secret code now ≢ some true
unfolding verify_totp
verify_refuses pyotp secret code now h =
    if_case (λ (o : Option Bool). o ≢ some true)
      (not (all_of is_digit code) || not (length code == 6)) _ _ (λ t e. cc)
      (λ t e. let n = pyotp.needs_base32 secret code now h in cc)

column_refused :
    (pyotp : Pyotp) (now : ℕ) (column : Bytes) (header : Option Text)
    → all_of is_base32 column ≡ false
    → require_step_up pyotp now (some column) header ≢ passes
unfolding require_step_up decode_ascii
column_refused pyotp now column none h = λ e. cc
column_refused pyotp now column (some []) h = λ e. cc
column_refused pyotp now column (some (c ∷ code)) h =
    if_case
      (λ (o : Option Text).
        elim o [
          | none ↦ two_factor_required
          | some secret ↦ step_up_answer (verify_totp pyotp secret (c ∷ code) now)
        ]
        ≢ passes)
      (all_of (λ k. ltb k 128) column) _ _
      (λ t. answer_none _ (verify_refuses pyotp column (c ∷ code) now h)) (λ t e. cc)

-- An admin who enrolled TOTP never passes the step-up that guards the destructive admin routes,
-- whatever code the request carries, and at whatever time: `enroll_totp` stores an encrypted blob,
-- and `require_step_up` takes its bytes for the base32 secret itself, which the zero byte of its
-- header never is.
pub enrolled_never_steps_up :
    (aead : Aead) (pyotp : Pyotp) (raw : Bytes) (version : ℕ) (d : Draw) (user_id secret : Text)
    (column : Bytes) (now : ℕ) (header : Option Text)
    → IsDrawn d
    → stored_secret aead raw version d user_id secret ≡ some column
    → require_step_up pyotp now (some column) header ≢ passes
enrolled_never_steps_up aead pyotp raw version d user_id secret column now header h e =
    let (b, k, q) = stored_lem aead raw version d user_id secret column e in
    let r = packed_is_no_base32 b (ap length q ∙ h.nonce_payload_length) in
    column_refused pyotp now column header
      (subst (λ c. all_of is_base32 c ≡ false) (sym (encoded-packed b column k)) r)
