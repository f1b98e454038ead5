-- ===== src/Snapshot/Store/Payload.antt =====
-- The lemmas on one file: what is read of it, and what a write puts in it.
use apisnap.Common.{
  ℕ, ◌≡◌, subst, arith, String, true, lookup, Option, none, some, List, length, Result, ok,
  Option-cases, inl, inr,
}
use apisnap.Error.{ApiSnapError}
use apisnap.Crypto.{SnapshotEncryptor, nonce_len, decrypt}
use apisnap.Crypto.Roundtrip.{IsAead, decrypt-encrypt}
use apisnap.Snapshot.Files.{SnapshotFile, SnapshotStore, Io, Crates, json_name, enc_name}
use apisnap.Snapshot.Store.{
  Dir, sanitize_filename, snapshot_name, read_file, decrypt_file, parse_file, read_encrypted,
  read_plain, read_snapshot, payload_bytes, write_snapshot_atomic,
}
use apisnap.Snapshot.Store.Effects.{Effect, tmp_of, write_snapshot_atomic-Effect}

-- `serde_json` reads the text that it prints of the snapshot as the snapshot. Of a body nested beyond
-- its recursion limit, or with a float whose digits it rounds, that is not so.
abbrev pub IsReread : {N : Type 0} (K : Crates N) → SnapshotFile N → Type 0
IsReread K snapshot =
    (text : List ℕ) → K.to_string_pretty snapshot ≡ some text → K.from_slice text ≡ some snapshot

module _ {N : Type 0} (K : Crates N) (store : SnapshotStore) where
  -- Reading looks at the endpoint's two files only.
  pub read_snapshot-files :
      (run : Io) (name : String) (d d' : Dir K)
      → lookup (enc_name (sanitize_filename K name)) d'.files
        ≡ lookup (enc_name (sanitize_filename K name)) d.files
      → lookup (json_name (sanitize_filename K name)) d'.files
        ≡ lookup (json_name (sanitize_filename K name)) d.files
      → (read_snapshot K store run name d').0 ≡ (read_snapshot K store run name d).0
  unfolding read_snapshot read_encrypted read_plain read_file decrypt_file parse_file
  read_snapshot-files run name d d' enc json = ground (arith, enc, json)

  -- An encrypted file is read before a plain one.
  pub read_snapshot-encrypted :
      (run : Io) (name : String) (d : Dir K) (raw plain : List ℕ) (e : SnapshotEncryptor)
      (snapshot : SnapshotFile N)
      → run.read ≡ true
      → store.encryptor ≡ some e
      → lookup (enc_name (sanitize_filename K name)) d.files ≡ some raw
      → decrypt K.aes e raw ≡ ok plain
      → K.from_slice plain ≡ some snapshot
      → read_snapshot K store run name d ≡ (ok snapshot, d)
  unfolding read_snapshot read_encrypted read_file decrypt_file parse_file
  read_snapshot-encrypted run name d raw plain e snapshot can key there opens parses =
      ground (arith, can, key, there, opens, parses)

  pub read_snapshot-plain :
      (run : Io) (name : String) (d : Dir K) (raw : List ℕ) (snapshot : SnapshotFile N)
      → run.read ≡ true
      → lookup (enc_name (sanitize_filename K name)) d.files ≡ none
      → lookup (json_name (sanitize_filename K name)) d.files ≡ some raw
      → K.from_slice raw ≡ some snapshot
      → read_snapshot K store run name d ≡ (ok snapshot, d)
  unfolding read_snapshot read_plain read_file parse_file
  read_snapshot-plain run name d raw snapshot can absent there parses =
      ground (arith, can, absent, there, parses)

  -- What a payload must be to be read as `snapshot`.
  unfoldable pub IsOpenable : SnapshotFile N → Option SnapshotEncryptor → List ℕ → Type 0
  IsOpenable snapshot none payload = K.from_slice payload ≡ some snapshot
  IsOpenable snapshot (some e) payload =
      (plain : List ℕ) × (decrypt K.aes e payload ≡ ok plain) × (K.from_slice plain ≡ some snapshot)

  pub payload_bytes-IsOpenable :
      (L : IsAead K.aes) (nonce : List ℕ) (snapshot : SnapshotFile N) (S : IsReread K snapshot)
      (key : Option SnapshotEncryptor) (payload : List ℕ) (d : Dir K)
      → length nonce ≡ nonce_len
      → store.encryptor ≡ key
      → (payload_bytes K store nonce snapshot d).0 ≡ ok payload
      → IsOpenable snapshot key payload
  unfolding IsOpenable payload_bytes
  payload_bytes-IsOpenable L nonce snapshot S key payload d size has made =
      elim (Option-cases (K.to_string_pretty snapshot)) [
        | inl unprinted ↦ absurd (ground (arith, made, unprinted))
        | inr (text, printed) ↦ under key text has printed
      ]
    where
      under :
          (k : Option SnapshotEncryptor) (text : List ℕ)
          → store.encryptor ≡ k
          → K.to_string_pretty snapshot ≡ some text
          → IsOpenable snapshot k payload
      under none text plain printed = S payload (ground (arith, made, plain, printed))
      under (some e) text keyed printed = (
        text,
        decrypt-encrypt K.aes L e nonce text payload size (ground (arith, made, keyed, printed)),
        S text printed,
      )

  pub written-Effect :
      (Payload : List ℕ → Type 0) (run : Io) (nonce : List ℕ) (snapshot : SnapshotFile N)
      (r : Result ApiSnapError String) (d d' : Dir K)
      → ((payload : List ℕ) (d'' : Dir K)
          → (payload_bytes K store nonce snapshot d'').0 ≡ ok payload
          → Payload payload)
      → write_snapshot_atomic K store run nonce snapshot d ≡ (r, d')
      → Effect K store Payload
          (tmp_of K store snapshot)
          (snapshot_name K store snapshot.endpoint_name)
          d.files
          r
          d'.files
  written-Effect Payload run nonce snapshot r d d' good written =
      subst
        (λ (x : Result ApiSnapError String × Dir K).
          Effect K store Payload (tmp_of K store snapshot)
            (snapshot_name K store snapshot.endpoint_name) d.files x.0 x.1.files)
        written (write_snapshot_atomic-Effect K store Payload run nonce snapshot d good)
