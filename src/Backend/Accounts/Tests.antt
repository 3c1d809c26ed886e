-- ===== src/Backend/Accounts/Tests.antt =====
-- backend/app/services/auth_service.py: an account, its tokens and its second factor, with packages
-- that are simple enough to run.
use forex_bot.Common.{
  ℕ, ◌+◌, ◌*◌, ◌≡◌, ◌≢◌, refl, ap, ◌∙◌, inl, Bool, true, false, not, ◌&&◌, Option, none, some, List,
  [], ◌∷◌, ◌++◌, all_of, ltb, leb, if◌then◌else◌, arith,
}
use forex_bot.Common.Cases.{if_case}
use forex_bot.Common.Text.{Text, codes, text_beq, text_beq_iff, text_eq, upper}
use forex_bot.Common.Dict.{Dict, lookup, insert, lookup-insert}
use forex_bot.Backend.Gate.{find}
use forex_bot.Backend.Accounts.Blob.{Bytes, drop, encode_totp_blob}
use forex_bot.Backend.Accounts.Secrets.{
  Aead, Draw, stored_secret, read_secret, secret_survives, encrypt, load_kek,
}
use forex_bot.Backend.Accounts.StepUp.{
  Pyotp, is_base32, require_step_up, decode_ascii, passes, enrolled_never_steps_up, verify_totp,
}
use forex_bot.Backend.Accounts.Types.{
  User, OneTimeToken, Claims, Packages, second, Store, up, Accounts, Moment, token_invalid,
  link_invalid, issued, refused, Call, logout, request_password_reset,
}
use forex_bot.Backend.Accounts.Service.{
  change_user, with_password, has_hash, decode_token, is_revoked, rotate, on_login, on_refresh,
  on_reset_password, usable, serve_all,
}
use forex_bot.Backend.Accounts.Service.Revoked.{IsOneToken, Carries, refresh_works_once}
use forex_bot.Backend.Accounts.Service.OneTime.{IsUsable, reset_works_once}
use forex_bot.Backend.Accounts.Service.Login.{login_iff}

abbrev tag : Bytes
tag = 0 ∷ 0 ∷ 0 ∷ 0 ∷ 0 ∷ 0 ∷ 0 ∷ 0 ∷ 0 ∷ 0 ∷ 0 ∷ 0 ∷ 0 ∷ 0 ∷ 0 ∷ 0 ∷ []

untagged : (message : Bytes) → some (drop 16 (tag ++ message)) ≡ some message
unfolding drop
untagged message = refl

-- No cipher at all, but with a tag.
abbrev aead : Aead
aead = record {
  seal = λ key nonce message aad. tag ++ message;
  unseal = λ key nonce message aad. some (drop 16 message);
  unseal-seal = λ key nonce message aad. untagged message;
  length-seal = λ key nonce message aad. omega arith;
}

abbrev answer : Text → Text → ℕ → Option Bool
answer secret code now =
    if not (all_of is_base32 secret) then none else some (text_beq code (codes "123456"))

answer_none :
    (secret code : Text) (now : ℕ) → all_of is_base32 secret ≡ false → answer secret code now ≡ none
answer_none secret code now h = ground arith

abbrev pyotp : Pyotp
pyotp = record { verify = answer; needs_base32 = answer_none }

abbrev claims : Claims
claims = record {
  sub = some (codes "u1");
  jti = some (codes "j1");
  exp = 100;
  typ = codes "refresh";
}

abbrev decoded : Text → ℕ → Option Claims
decoded token now =
    if text_beq token (codes "r1") && leb now (100 * second) then some claims else none

abbrev packages : Packages
packages = record {
  hash_password = λ plain salt. plain;
  verify_password = text_beq;
  needs_rehash = λ hashed. false;
  hash_token = λ token. token;
  decode = decoded;
  aead = aead;
  pyotp = pyotp;
  verify-hash = λ plain salt. (text_beq_iff plain plain).1 refl;
}

-- A dictionary from keys to the times at which they expire.
abbrev lives : ℕ → Option ℕ → Bool
lives time none = false
lives time (some end) = ltb time end

set_lives :
    (key : Text) (ttl now time : ℕ) (r : Dict Text ℕ)
    → lives time (lookup key (insert key (now + ttl * second) r)) ≡ ltb time (now + ttl * second)
set_lives key ttl now time r =
    let end = now + ttl * second in
    ap (lives time) (
      lookup-insert key key end r
      ∙ ap (λ b. if b then some end else lookup key r) ((text_beq_iff key key).1 refl))

text_other : (s t : Text) → t ≢ s → text_beq s t ≡ false
text_other s t h = ground (arith, text_beq_iff s t)

set_other :
    (key other : Text) (ttl now time : ℕ) (r : Dict Text ℕ)
    → other ≢ key
    → lives time (lookup other (insert key (now + ttl * second) r)) ≡ lives time (lookup other r)
set_other key other ttl now time r h =
    let end = now + ttl * second in
    ap (lives time) (
      lookup-insert key other end r
      ∙ ap (λ b. if b then some end else lookup other r) (text_other key other h))

abbrev store : Store (Dict Text ℕ)
store = record {
  setex = λ key ttl now r. insert key (now + ttl * second) r;
  has = λ key time r. lives time (lookup key r);
  has-setex = set_lives;
  has_other = set_other;
}

abbrev zeros_12 : Bytes
zeros_12 = 0 ∷ 0 ∷ 0 ∷ 0 ∷ 0 ∷ 0 ∷ 0 ∷ 0 ∷ 0 ∷ 0 ∷ 0 ∷ 0 ∷ []

abbrev drawn : Draw
drawn = record { dek = tag ++ tag; nonce_payload = zeros_12; nonce_dek = zeros_12 }

abbrev at : ℕ → Moment
at now = record {
  now = now;
  redis = up;
  is_unique = true;
  commits = true;
  kek = tag ++ tag;
  key_version = 1;
  draw = drawn;
  raw_token = codes "t2";
  salt = [];
  secret = codes "JBSWY3DPEHPK3PXP";
  new_id = codes "u2";
}

abbrev user : User
user = record {
  id = codes "u1";
  email = codes "Ann@example.com";
  password_hash = codes "secret";
  email_verified_at = none;
  totp_secret = none;
  deleted_at = none;
}

abbrev link : OneTimeToken
link = record { user_id = codes "u1"; token_hash = codes "t1"; expires_at = 50; used_at = none }

abbrev accounts : Accounts (Dict Text ℕ)
accounts = record { users = user ∷ []; email_tokens = []; reset_tokens = link ∷ []; denylist = [] }

secret_survives_example :
    (column : Bytes) × (stored_secret aead
        (tag ++ tag)
        1
        drawn
        (codes "u1")
        (codes "JBSWY3DPEHPK3PXP")
      ≡ some column)
    × (read_secret aead (tag ++ tag) (codes "u1") column ≡ some (codes "JBSWY3DPEHPK3PXP"))
secret_survives_example =
    secret_survives aead (tag ++ tag) 1 drawn (codes "u1") (codes "JBSWY3DPEHPK3PXP") refl
      (omega arith)
      (record { dek_length = refl; nonce_payload_length = refl; nonce_dek_length = refl })
      (omega arith)

abbrev column_1 : Bytes
column_1 =
    1 ∷ 0 ∷ 12 ∷ 0 ∷ 12 ∷ 0 ∷ 18 ∷ 0 ∷ 48 ∷ []
    ++ (zeros_12 ++ (zeros_12 ++ ((tag ++ codes "AB") ++ (tag ++ (tag ++ tag)))))

column_1_lem : stored_secret aead (tag ++ tag) 1 drawn (codes "u1") (codes "AB") ≡ some column_1
unfolding stored_secret encrypt load_kek encode_totp_blob
column_1_lem = refl

enrolled_never_steps_up_example :
    require_step_up pyotp 7 (some column_1) (some (codes "123456")) ≢ passes
enrolled_never_steps_up_example =
    enrolled_never_steps_up aead pyotp (tag ++ tag) 1 drawn (codes "u1") (codes "AB") column_1 7
      (some (codes "123456"))
      (record { dek_length = refl; nonce_payload_length = refl; nonce_dek_length = refl })
      column_1_lem

-- The step-up passes with the bare secret in the column, which `enroll_totp` never writes.
bare_secret_passes :
    require_step_up pyotp 7 (some (codes "JBSWY3DP")) (some (codes "123456")) ≡ passes
unfolding require_step_up verify_totp is_base32 text_beq decode_ascii
bare_secret_passes = refl

some_exp : (c : Claims) → some claims ≡ some c → c.exp ≡ 100
some_exp c e = cc

some_jti : (c : Claims) → some claims ≡ some c → c.jti ≡ some (codes "j1")
some_jti c e = cc

one_token : IsOneToken packages store (codes "j1") 100
one_token token now c =
    if_case (λ (o : Option Claims). o ≡ some c → c.jti ≡ some (codes "j1") → c.exp ≡ 100)
      (text_beq token (codes "r1") && leb now (100 * second)) _ _ (λ b e j. some_exp c e)
      (λ b e j. cc)

carries : Carries packages store (codes "j1") 100 (codes "r1")
carries now c =
    if_case (λ (o : Option Claims). o ≡ some c → c.jti ≡ some (codes "j1"))
      (text_beq (codes "r1") (codes "r1") && leb now (100 * second)) _ _ (λ b e. some_jti c e)
      (λ b e. cc)

abbrev rotated : Accounts (Dict Text ℕ)
rotated = (on_refresh packages store (at (10 * second)) (codes "r1") accounts).1

abbrev later : List (Moment × Call)
later =
    (at (20 * second), logout (some (codes "r1")))
    ∷ (at (30 * second), request_password_reset (codes "ann@example.com"))
    ∷ []

refresh_works_once_example :
    (on_refresh packages store
      (at (40 * second))
      (codes "r1")
      (serve_all packages store later rotated)).0
    ≡ refused token_invalid
unfolding on_refresh decode_token rotate find text_beq is_revoked lookup
refresh_works_once_example =
    refresh_works_once packages store (codes "j1") 100 (at (10 * second)) (codes "r1") (codes "u1")
      accounts later (at (40 * second)) (codes "r1") one_token carries carries refl refl refl
      (omega arith)

reset_works_once_example :
    (t : OneTimeToken) × (find (has_hash (codes "t1")) accounts.reset_tokens ≡ some t)
    × IsUsable (at 20) accounts.users t
    × ((on_reset_password packages store (at 20) (codes "t1") (codes "new") accounts).1.users
        ≡ change_user t.user_id (with_password packages store (at 20) (codes "new")) accounts.users)
    × ((on_reset_password packages store (at 35) (codes "t1") (codes "evil") (
          serve_all packages store later
            (on_reset_password packages store (at 20) (codes "t1") (codes "new") accounts).1)).0
        ≡ refused link_invalid)
unfolding on_reset_password find text_beq usable
reset_works_once_example =
    reset_works_once packages store (at 20) (codes "t1") (codes "new") accounts later (at 35)
      (codes "evil") refl

login_iff_example :
    (on_login packages store (at 5) (codes "ann@example.com") (codes "secret") none accounts).0
    ≡ issued (codes "u1")
unfolding find text_beq upper
login_iff_example =
    (login_iff packages store (at 5) (codes "ann@example.com") (codes "secret") none accounts
        (codes "u1")).1
      (user, refl, refl, refl, inl refl, refl)
