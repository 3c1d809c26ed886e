-- ===== src/Backend/Accounts/Blob.antt =====
-- backend/app/core/encryption.py: envelope encryption. backend/app/services/auth_service.py:
-- `_encode_totp_blob` and `_decode_totp_blob`. Bytes are numbers below 256; `none` stands for an
-- exception. AES-GCM is a parameter.
use forex_bot.Common.{
  ℕ, zero, suc, ◌+◌, ◌*◌, ◌/◌, ◌%◌, ◌<◌, ◌≡◌, refl, ap, Bool, ◌&&◌, Option, none, some, List, [],
  ◌∷◌, ◌++◌, length, ltb, if◌then◌else◌, arith,
}

abbrev pub Bytes : Type 0
Bytes = List ℕ

pub record EncryptedBlob : Type 0 where
  pub ciphertext : Bytes
  pub nonce_payload : Bytes
  pub encrypted_dek : Bytes
  pub nonce_dek : Bytes
  pub key_version : ℕ

-- `data[:n]` and `data[n:]`
unfoldable pub take : ℕ → Bytes → Bytes
take zero xs = []
take (suc n) [] = []
take (suc n) (x ∷ xs) = x ∷ take n xs

unfoldable pub drop : ℕ → Bytes → Bytes
drop zero xs = xs
drop (suc n) [] = []
drop (suc n) (x ∷ xs) = drop n xs

abbrev pub fits_u16 : Bytes → Bool
fits_u16 xs = ltb (length xs) 65_536

-- `struct.pack(">BHHHH", ...)` raises on a length of more than two bytes.
abbrev pub u16 : ℕ → Bytes
u16 n = n / 256 ∷ n % 256 ∷ []

unfoldable pub encode_totp_blob : EncryptedBlob → Option Bytes
encode_totp_blob b =
    if fits_u16 b.nonce_payload
      && (fits_u16 b.nonce_dek && (fits_u16 b.ciphertext && fits_u16 b.encrypted_dek))
    then some (
        (b.key_version % 256)
        ∷ (u16 (length b.nonce_payload)
            ++ (u16 (length b.nonce_dek)
                ++ (u16 (length b.ciphertext)
                    ++ (u16 (length b.encrypted_dek)
                        ++ (b.nonce_payload
                            ++ (b.nonce_dek ++ (b.ciphertext ++ b.encrypted_dek))))))))
    else none

abbrev pub blob_of : ℕ → ℕ → ℕ → ℕ → ℕ → Bytes → EncryptedBlob
blob_of key_version n_payload n_dek_nonce n_cipher n_dek rest =
    let after_payload = drop n_payload rest in
    let after_nonces = drop n_dek_nonce after_payload in
    record {
      ciphertext = take n_cipher after_nonces;
      nonce_payload = take n_payload rest;
      encrypted_dek = take n_dek (drop n_cipher after_nonces);
      nonce_dek = take n_dek_nonce after_payload;
      key_version = key_version;
    }

-- `struct.unpack` raises on less than the nine bytes of the header.
unfoldable pub decode_totp_blob : Bytes → Option EncryptedBlob
decode_totp_blob (v ∷ p ∷ p' ∷ d ∷ d' ∷ c ∷ c' ∷ e ∷ e' ∷ rest) =
    some (blob_of v (p * 256 + p') (d * 256 + d') (c * 256 + c') (e * 256 + e') rest)
decode_totp_blob _ = none

take-append : (xs ys : Bytes) → take (length xs) (xs ++ ys) ≡ xs
unfolding take
take-append [] ys = refl
take-append (x ∷ xs) ys = cc (take-append xs ys)

drop-append : (xs ys : Bytes) → drop (length xs) (xs ++ ys) ≡ ys
unfolding drop
drop-append [] ys = refl
drop-append (x ∷ xs) ys = drop-append xs ys

take-length : (xs : Bytes) → take (length xs) xs ≡ xs
unfolding take
take-length [] = refl
take-length (x ∷ xs) = cc (take-length xs)

-- Each length fits two bytes, as struct wants it.
pub record Fits (b : EncryptedBlob) : Type 0 where
  pub nonce_payload : length b.nonce_payload < 65_536
  pub nonce_dek : length b.nonce_dek < 65_536
  pub ciphertext : length b.ciphertext < 65_536
  pub encrypted_dek : length b.encrypted_dek < 65_536

-- The bytes of a blob that fits.
abbrev pub packed : EncryptedBlob → Bytes
packed b =
    (b.key_version % 256)
    ∷ (u16 (length b.nonce_payload)
        ++ (u16 (length b.nonce_dek)
            ++ (u16 (length b.ciphertext)
                ++ (u16 (length b.encrypted_dek)
                    ++ (b.nonce_payload ++ (b.nonce_dek ++ (b.ciphertext ++ b.encrypted_dek)))))))

pub encode-packed : (b : EncryptedBlob) → Fits b → encode_totp_blob b ≡ some (packed b)
unfolding encode_totp_blob
encode-packed b f = ground arith

joined : (n : ℕ) → n / 256 * 256 + n % 256 ≡ n
joined n = omega arith

small : (n : ℕ) → n < 256 → n % 256 ≡ n
small n h = omega arith

pub decode-packed : (b : EncryptedBlob) → b.key_version < 256 → decode_totp_blob (packed b) ≡ some b
unfolding decode_totp_blob
decode-packed b v =
    let payload = joined (length b.nonce_payload) in
    let dek_nonce = joined (length b.nonce_dek) in
    let cipher = joined (length b.ciphertext) in
    let dek = joined (length b.encrypted_dek) in
    simp (payload, dek_nonce, cipher, dek, take-append, drop-append, take-length)
      (ap (λ k. some (record b { key_version = k })) (small b.key_version v))
