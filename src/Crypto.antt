-- ===== src/Crypto.antt =====
-- src/crypto/encryption.rs: the encryption of snapshot files. AES-256-GCM, `hex` and the texts of
-- their errors are parameters; the random nonce of a call is an argument.
pub mod Roundtrip
use apisnap.Common.{
  ℕ, String, Option, none, some, List, ◌++◌, length, take, drop, ltb, leb, ◌==◌, ◌<>◌, Result, ok,
  err, if◌then◌else◌,
}
use apisnap.Error.{ApiSnapError, invalid_config}
use apisnap.Engine.JitRule.{as_bytes}

abbrev pub nonce_len : ℕ
nonce_len = 12

abbrev pub key_len : ℕ
key_len = 32

-- `Aes256Gcm` under a key: a nonce and a text, to a ciphertext with its tag and back.
pub record Aes256Gcm : Type 0 where
  pub seal : List ℕ → List ℕ → List ℕ → Result String (List ℕ)
  pub unseal : List ℕ → List ℕ → List ℕ → Result String (List ℕ)

-- The key stands for the cipher that is made from it.
pub record SnapshotEncryptor : Type 0 where
  pub key : List ℕ

-- `trim` removes the blanks around a text.
module _ (trim : String → String) (hex_decode : String → Option (List ℕ)) where
  -- The fallback, the first 32 bytes of the text itself.
  unfoldable pub from_bytes : List ℕ → Result ApiSnapError SnapshotEncryptor
  from_bytes bytes =
      if leb key_len (length bytes)
      then ok (record { key = take key_len bytes })
      else err (
          invalid_config "encryption.master_key"
            "master key must be at least 32 bytes or 64 hex characters")

  unfoldable pub from_key_str : String → Result ApiSnapError SnapshotEncryptor
  unfolding from_bytes as_bytes
  from_key_str key_str =
      let trimmed = trim key_str in
      if length (as_bytes trimmed) == 64
      then elim (hex_decode trimmed) [
        | some decoded ↦
            if length decoded == key_len
            then ok (record { key = decoded })
            else from_bytes (as_bytes trimmed)
        | none ↦ from_bytes (as_bytes trimmed)
      ]
      else from_bytes (as_bytes trimmed)

module _ (A : Aes256Gcm) (encryptor : SnapshotEncryptor) where
  unfoldable pub encrypt : List ℕ → List ℕ → Result ApiSnapError (List ℕ)
  encrypt nonce plaintext = elim (A.seal encryptor.key nonce plaintext) [
    | ok ciphertext ↦ ok (nonce ++ ciphertext)
    | err e ↦ err (invalid_config "crypto.encrypt" ("AES-GCM encryption failed: " <> e))
  ]

  unfoldable pub decrypt : List ℕ → Result ApiSnapError (List ℕ)
  decrypt payload =
      if ltb (length payload) nonce_len
      then err (
          invalid_config "crypto.decrypt"
            "corrupted encrypted payload: buffer shorter than nonce length")
      else elim (A.unseal encryptor.key (take nonce_len payload) (drop nonce_len payload)) [
        | ok plaintext ↦ ok plaintext
        | err e ↦ err (
            invalid_config "crypto.decrypt"
              ("AES-GCM authentication/decryption failed (invalid key or tampered payload): " <> e))
      ]
