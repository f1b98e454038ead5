-- ===== src/Crypto/Roundtrip.antt =====
-- What is encrypted is decrypted, and keys have 32 bytes.
use apisnap.Common.{
  ℕ, ◌<◌, ◌≡◌, refl, ◌≤◌, arith, inl, inr, Bool-cases, Option-cases, false, String, Option, List,
  ◌++◌, length, length-append, take, drop, ltb, le→ltb_false, ◌==◌, ==_iff, Result, ok, err,
  Result-cases, length-take, take-append, drop-append,
}
use apisnap.Engine.JitRule.{as_bytes}
use apisnap.Error.{ApiSnapError, invalid_config}
use apisnap.Crypto.{
  nonce_len, key_len, Aes256Gcm, SnapshotEncryptor, from_bytes, from_key_str, encrypt, decrypt,
}

-- Unsealing under the same key and nonce gives back what was sealed.
pub record IsAead (A : Aes256Gcm) : Type 0 where
  pub unseal-seal :
      (key nonce text sealed : List ℕ)
      → A.seal key nonce text ≡ ok sealed
      → A.unseal key nonce sealed ≡ ok text

-- A payload that `encrypt` made with a nonce of 12 bytes is decrypted to the plaintext.
pub decrypt-encrypt :
    (A : Aes256Gcm) (L : IsAead A) (encryptor : SnapshotEncryptor)
    (nonce plaintext payload : List ℕ)
    → length nonce ≡ nonce_len
    → encrypt A encryptor nonce plaintext ≡ ok payload
    → decrypt A encryptor payload ≡ ok plaintext
unfolding encrypt decrypt
decrypt-encrypt A L encryptor nonce plaintext payload size made =
    elim (Result-cases (A.seal encryptor.key nonce plaintext)) [
      | inr (m, e) ↦ absurd (ground (arith, e, made))
      | inl (c, e) ↦
          let is : payload ≡ nonce ++ c = ground (arith, e, made) in
          let long : ltb (length (nonce ++ c)) 12 ≡ false =
            le→ltb_false _ _ (omega (arith, size, length-append nonce c)) in
          let head : take 12 (nonce ++ c) ≡ nonce = rw size at (take-append nonce c) in
          let rest : drop 12 (nonce ++ c) ≡ c = rw size at (drop-append nonce c) in
          rw is (rw (long, head, rest, L.unseal-seal encryptor.key nonce plaintext c e))
    ]

module _ (trim : String → String) (hex_decode : String → Option (List ℕ)) where
  Accepted : Result ApiSnapError SnapshotEncryptor → Type 0
  Accepted r = (e : SnapshotEncryptor) × (r ≡ ok e) × (length e.key ≡ key_len)

  from_bytes-Accepted :
      (bytes : List ℕ) → key_len ≤ length bytes → Accepted (from_bytes trim hex_decode bytes)
  unfolding from_bytes Accepted
  from_bytes-Accepted bytes h =
      (record { key = take 32 bytes }, ground arith, length-take 32 bytes h)

  -- A key text of at least 32 bytes, without the blanks around it, is accepted, and the key has 32
  -- bytes; a shorter one is refused as an invalid configuration.
  pub from_key_str_accepts :
      (key_str : String)
      → (key_len ≤ length (as_bytes (trim key_str))
          → (e : SnapshotEncryptor) × (from_key_str trim hex_decode key_str ≡ ok e)
            × (length e.key ≡ key_len))
        × (length (as_bytes (trim key_str)) < key_len
            → from_key_str trim hex_decode key_str
              ≡ err (
                  invalid_config "encryption.master_key"
                    "master key must be at least 32 bytes or 64 hex characters"))
  unfolding from_key_str from_bytes Accepted
  from_key_str_accepts key_str = (λ long. accepted long, λ short. ground arith)
    where
      fallback :
          key_len ≤ length (as_bytes (trim key_str))
          → Accepted (from_bytes trim hex_decode (as_bytes (trim key_str)))
      fallback long = from_bytes-Accepted (as_bytes (trim key_str)) long

      accepted :
          key_len ≤ length (as_bytes (trim key_str))
          → Accepted (from_key_str trim hex_decode key_str)
      accepted long = elim (Bool-cases (length (as_bytes (trim key_str)) == 64)) [
        | inr other ↦ rw (other, from_key_str) (fallback long)
        | inl hex ↦ elim (Option-cases (hex_decode (trim key_str))) [
          | inl bad ↦ rw (hex, bad, from_key_str) (fallback long)
          | inr (decoded, e) ↦ elim (Bool-cases (length decoded == 32)) [
            | inl fits ↦
                rw (hex, e, fits, from_key_str)
                  (record { key = decoded }, refl, (==_iff _ _).0 fits)
            | inr other ↦ rw (hex, e, other, from_key_str) (fallback long)
          ]
        ]
      ]
