-- ===== src/Backend/Accounts/Secrets.antt =====
-- backend/app/core/encryption.py: `encrypt` and `decrypt`. services/auth_service.py: the column that
-- `enroll_totp` writes. The secrets are base32 texts, whose UTF-8 bytes are their code points.
use forex_bot.Common.{
  ℕ, ◌+◌, ◌<◌, ◌≡◌, not, Option, none, some, [], ◌∷◌, length, ◌==◌, if◌then◌else◌, arith,
}
use forex_bot.Common.Text.{Text}
use forex_bot.Backend.Accounts.Blob.{
  Bytes, EncryptedBlob, Fits, packed, encode_totp_blob, decode_totp_blob, encode-packed,
  decode-packed,
}

-- AES-GCM of the package cryptography: a key, a nonce, the data, and the data that is only
-- authenticated. Deciphering raises unless all of them fit; the tag takes 16 bytes.
pub record Aead : Type 0 where
  pub seal : Bytes → Bytes → Bytes → Option Bytes → Bytes
  pub unseal : Bytes → Bytes → Bytes → Option Bytes → Option Bytes
  pub unseal-seal :
      (key nonce message : Bytes) (aad : Option Bytes)
      → unseal key nonce (seal key nonce message aad) aad ≡ some message
  pub length-seal :
      (key nonce message : Bytes) (aad : Option Bytes)
      → length (seal key nonce message aad) ≡ length message + 16

-- What `os.urandom` draws for one record.
pub record Draw : Type 0 where
  pub dek : Bytes
  pub nonce_payload : Bytes
  pub nonce_dek : Bytes

pub record IsDrawn (d : Draw) : Type 0 where
  pub dek_length : length d.dek ≡ 32
  pub nonce_payload_length : length d.nonce_payload ≡ 12
  pub nonce_dek_length : length d.nonce_dek ≡ 12

-- `aad or None`
abbrev pub or_none : Bytes → Option Bytes
or_none [] = none
or_none (x ∷ xs) = some (x ∷ xs)

-- `raw` is the decoded setting; `_load_kek` raises on any other length than 32.
unfoldable pub load_kek : Bytes → Option Bytes
load_kek raw = if not (length raw == 32) then none else some raw

module _ (aead : Aead) where
  unfoldable pub encrypt : Bytes → ℕ → Draw → Bytes → Bytes → Option EncryptedBlob
  encrypt raw version d message aad = elim (load_kek raw) [
    | none ↦ none
    | some kek ↦ some (record {
      ciphertext = aead.seal d.dek d.nonce_payload message (or_none aad);
      nonce_payload = d.nonce_payload;
      encrypted_dek = aead.seal kek d.nonce_dek d.dek none;
      nonce_dek = d.nonce_dek;
      key_version = version;
    })
  ]

  unfoldable pub decrypt : Bytes → EncryptedBlob → Bytes → Option Bytes
  decrypt raw b aad = elim (load_kek raw) [
    | none ↦ none
    | some kek ↦ elim (aead.unseal kek b.nonce_dek b.encrypted_dek none) [
      | none ↦ none
      | some dek ↦ aead.unseal dek b.nonce_payload b.ciphertext (or_none aad)
    ]
  ]

  -- The column that `enroll_totp` writes.
  unfoldable pub stored_secret : Bytes → ℕ → Draw → Text → Text → Option Bytes
  stored_secret raw version d user_id secret = elim (encrypt raw version d secret user_id) [
    | none ↦ none
    | some b ↦ encode_totp_blob b
  ]

  -- What `login` and `verify_totp` read in it.
  unfoldable pub read_secret : Bytes → Text → Bytes → Option Text
  read_secret raw user_id column = elim (decode_totp_blob column) [
    | none ↦ none
    | some b ↦ decrypt raw b user_id
  ]

  abbrev pub blob : Bytes → ℕ → Draw → Text → Text → EncryptedBlob
  blob raw version d user_id secret = record {
    ciphertext = aead.seal d.dek d.nonce_payload secret (or_none user_id);
    nonce_payload = d.nonce_payload;
    encrypted_dek = aead.seal raw d.nonce_dek d.dek none;
    nonce_dek = d.nonce_dek;
    key_version = version;
  }

  kek_loads : (raw : Bytes) → length raw ≡ 32 → load_kek raw ≡ some raw
  unfolding load_kek
  kek_loads raw h = ground arith

  encrypt_lem :
      (raw : Bytes) (version : ℕ) (d : Draw) (secret user_id : Text)
      → length raw ≡ 32
      → encrypt raw version d secret user_id ≡ some (blob raw version d user_id secret)
  unfolding encrypt
  encrypt_lem raw version d secret user_id h = rw (kek_loads raw h, encrypt)

  decrypt_lem :
      (raw : Bytes) (version : ℕ) (d : Draw) (secret user_id : Text)
      → length raw ≡ 32
      → decrypt raw (blob raw version d user_id secret) user_id ≡ some secret
  unfolding decrypt
  decrypt_lem raw version d secret user_id h =
      rw (kek_loads raw h, aead.unseal-seal raw d.nonce_dek d.dek none, decrypt)
        (aead.unseal-seal d.dek d.nonce_payload secret (or_none user_id))

  blob-Fits :
      (raw : Bytes) (version : ℕ) (d : Draw) (user_id secret : Text)
      → IsDrawn d
      → length secret + 16 < 65_536
      → Fits (blob raw version d user_id secret)
  blob-Fits raw version d user_id secret h k = omega (
    arith,
    aead.length-seal d.dek d.nonce_payload secret (or_none user_id),
    aead.length-seal raw d.nonce_dek d.dek none,
  )

  -- A TOTP secret that was stored reads back: with a key of 32 bytes, a key version of one byte, and
  -- what `os.urandom` draws, `enroll_totp` stores a column, and `login` and `verify_totp` read the
  -- secret in it, whatever the user's id. The secret's length only has to leave room for the tag.
  pub secret_survives :
      (raw : Bytes) (version : ℕ) (d : Draw) (user_id secret : Text)
      → length raw ≡ 32
      → version < 256
      → IsDrawn d
      → length secret + 16 < 65_536
      → (column : Bytes) × (stored_secret raw version d user_id secret ≡ some column)
        × (read_secret raw user_id column ≡ some secret)
  unfolding stored_secret read_secret
  secret_survives raw version d user_id secret hr hv hd hs =
      let b = blob raw version d user_id secret in
      (
        packed b,
        rw (encrypt_lem raw version d secret user_id hr, stored_secret)
            (encode-packed b (blob-Fits raw version d user_id secret hd hs)),
        rw (decode-packed b hv, read_secret) (decrypt_lem raw version d secret user_id hr),
      )
