-- ===== src/Snapshot/Store/Durable.antt =====
-- What a reader finds after a write: the new snapshot, or, where the write failed or was for another
-- endpoint, what it found before.
use apisnap.Common.{
  ℕ, ◌≡◌, ◌≢◌, sym, arith, eq_refl, String, true, lookup, none, some, List, length, Result, ok, err,
  Option-cases, ◌⊎◌, inl, inr,
}
use apisnap.Error.{ApiSnapError, invalid_config}
use apisnap.Crypto.{nonce_len}
use apisnap.Crypto.Roundtrip.{IsAead}
use apisnap.Snapshot.Files.{SnapshotFile, SnapshotStore, Io, Crates, json_name, enc_name}
use apisnap.Snapshot.Store.{
  Dir, sanitize_filename, join, snapshot_name, exists, read_file, decrypt_file, read_encrypted,
  read_snapshot, write_snapshot_atomic,
}
use apisnap.Snapshot.Store.Names.{
  tmp-ne-json, tmp-ne-enc, json-ne-enc, enc-ne-json, json-ne-json, enc-ne-enc,
}
use apisnap.Snapshot.Store.Payload.{
  IsReread, read_snapshot-files, read_snapshot-encrypted, read_snapshot-plain, IsOpenable,
  payload_bytes-IsOpenable, written-Effect,
}

module _ {N : Type 0} (K : Crates N) (store : SnapshotStore) where
  -- A snapshot that was written is what the endpoint is then read as, and so is every endpoint whose
  -- name has the same safe form: for a snapshot that `serde_json` reads back from the text that it
  -- prints of it, where AES-GCM opens what it seals, for a store with a key, or where no encrypted
  -- file was there, with a nonce of 12 bytes, whatever calls of the write could have failed.
  pub write_snapshot_atomic-read_snapshot :
      (L : IsAead K.aes) (run again : Io) (nonce : List ℕ) (snapshot : SnapshotFile N)
      (S : IsReread K snapshot) (name path : String) (d d' : Dir K)
      → length nonce ≡ nonce_len
      → again.read ≡ true
      → sanitize_filename K name ≡ sanitize_filename K snapshot.endpoint_name
      → (store.encryptor ≢ none) ⊎ (lookup (enc_name (sanitize_filename K name)) d.files ≡ none)
      → write_snapshot_atomic K store run nonce snapshot d ≡ (ok path, d')
      → read_snapshot K store again name d' ≡ (ok snapshot, d')
  unfolding IsOpenable snapshot_name
  write_snapshot_atomic-read_snapshot L run again nonce snapshot S name path d d' size can same
        clear written =
      elim (Option-cases store.encryptor) [
        | inr (e, keyed) ↦
            let (payload, (plain, opens, parses), files) =
              written-Effect K store (IsOpenable K store snapshot (some e)) run nonce snapshot
                (ok path) d d'
                (λ p d'' made.
                  payload_bytes-IsOpenable K store L nonce snapshot S (some e) p d'' size keyed
                    made)
                written in
            read_snapshot-encrypted K store again name d' payload plain e snapshot can keyed
              (ground (
                arith,
                files (enc_name (sanitize_filename K name)),
                keyed,
                same,
                eq_refl (enc_name (sanitize_filename K name)),
              ))
              opens parses
        | inl plain ↦
            let (payload, parses, files) =
              written-Effect K store (IsOpenable K store snapshot none) run nonce snapshot (ok path)
                d d'
                (λ p d'' made.
                  payload_bytes-IsOpenable K store L nonce snapshot S none p d'' size plain made)
                written in
            let absent : lookup (enc_name (sanitize_filename K name)) d.files ≡ none = elim clear [
              | inl keyed ↦ absurd (keyed plain)
              | inr none_there ↦ none_there
            ] in
            read_snapshot-plain K store again name d' payload snapshot can
              (ground (
                arith,
                files (enc_name (sanitize_filename K name)),
                plain,
                absent,
                json-ne-enc (sanitize_filename K snapshot.endpoint_name) (sanitize_filename K name),
                tmp-ne-enc (sanitize_filename K snapshot.endpoint_name) (sanitize_filename K name),
              ))
              (ground (
                arith,
                files (json_name (sanitize_filename K name)),
                plain,
                same,
                eq_refl (json_name (sanitize_filename K name)),
              ))
              parses
      ]

  pub unseen :
      (run : Io) (nonce : List ℕ) (snapshot : SnapshotFile N) (name : String)
      (r : Result ApiSnapError String) (d d' : Dir K)
      → write_snapshot_atomic K store run nonce snapshot d ≡ (r, d')
      → ((e : ApiSnapError) × (r ≡ err e))
        ⊎ (sanitize_filename K name ≢ sanitize_filename K snapshot.endpoint_name)
      → (lookup (enc_name (sanitize_filename K name)) d'.files
          ≡ lookup (enc_name (sanitize_filename K name)) d.files)
        × (lookup (json_name (sanitize_filename K name)) d'.files
            ≡ lookup (json_name (sanitize_filename K name)) d.files)
  unfolding snapshot_name
  unseen run nonce snapshot name (err e) d d' written why =
      let safe = sanitize_filename K snapshot.endpoint_name in
      let files =
        written-Effect K store (λ _. Unit) run nonce snapshot (err e) d d' (λ p d'' made. tt)
          written in
      (
        files _ (tmp-ne-enc safe (sanitize_filename K name)),
        files _ (tmp-ne-json safe (sanitize_filename K name)),
      )
  unseen run nonce snapshot name (ok path) d d' written (inl (e, fails)) = absurd (cc fails)
  unseen run nonce snapshot name (ok path) d d' written (inr other) =
      let safe = sanitize_filename K snapshot.endpoint_name in
      let (payload, _, files) =
        written-Effect K store (λ _. Unit) run nonce snapshot (ok path) d d' (λ p d'' made. tt)
          written in
      let apart : safe ≢ sanitize_filename K name = λ e. other (sym e) in
      elim (Option-cases store.encryptor) [
        | inl plain ↦ (
          ground (
            arith,
            plain,
            files (enc_name (sanitize_filename K name)),
            tmp-ne-enc safe (sanitize_filename K name),
            json-ne-enc safe (sanitize_filename K name),
          ),
          ground (
            arith,
            plain,
            files (json_name (sanitize_filename K name)),
            tmp-ne-json safe (sanitize_filename K name),
            json-ne-json safe (sanitize_filename K name) apart,
          ),
        )
        | inr (e, keyed) ↦ (
          ground (
            arith,
            keyed,
            files (enc_name (sanitize_filename K name)),
            tmp-ne-enc safe (sanitize_filename K name),
            enc-ne-enc safe (sanitize_filename K name) apart,
          ),
          ground (
            arith,
            keyed,
            files (json_name (sanitize_filename K name)),
            tmp-ne-json safe (sanitize_filename K name),
            enc-ne-json safe (sanitize_filename K name),
          ),
        )
      ]

  -- A write that fails, at whatever call, leaves every endpoint as it was, and one that succeeds leaves
  -- every endpoint whose name has another safe form as it was: reading it gives the same snapshot or
  -- the same error as before, and it exists if it did before.
  pub write_snapshot_atomic_frame :
      (run again : Io) (nonce : List ℕ) (snapshot : SnapshotFile N) (name : String)
      (r : Result ApiSnapError String) (d d' : Dir K)
      → write_snapshot_atomic K store run nonce snapshot d ≡ (r, d')
      → ((e : ApiSnapError) × (r ≡ err e))
        ⊎ (sanitize_filename K name ≢ sanitize_filename K snapshot.endpoint_name)
      → ((read_snapshot K store again name d').0 ≡ (read_snapshot K store again name d).0)
        × (exists K store name d' ≡ exists K store name d)
  unfolding exists
  write_snapshot_atomic_frame run again nonce snapshot name r d d' written why =
      let (enc, json) = unseen run nonce snapshot name r d d' written why in
      (read_snapshot-files K store again name d d' enc json, ground (arith, enc, json))

  -- In a store without a key an encrypted file that is still there hides the new snapshot: the write
  -- succeeds, and reading the endpoint is refused for want of a key.
  pub write_snapshot_atomic-read_snapshot_hidden :
      (run again : Io) (nonce : List ℕ) (snapshot : SnapshotFile N) (path : String) (old : List ℕ)
      (d d' : Dir K)
      → store.encryptor ≡ none
      → again.read ≡ true
      → lookup (enc_name (sanitize_filename K snapshot.endpoint_name)) d.files ≡ some old
      → write_snapshot_atomic K store run nonce snapshot d ≡ (ok path, d')
      → read_snapshot K store again snapshot.endpoint_name d' ≡ (
        err (
            invalid_config
              (join K store (enc_name (sanitize_filename K snapshot.endpoint_name)))
              "snapshot is encrypted with AES-256-GCM; please provide APISNAP_MASTER_KEY to read"),
        d',
      )
  unfolding snapshot_name read_snapshot read_encrypted read_file decrypt_file
  write_snapshot_atomic-read_snapshot_hidden run again nonce snapshot path old d d' plain can there
        written =
      let safe = sanitize_filename K snapshot.endpoint_name in
      let (payload, _, files) =
        written-Effect K store (λ _. Unit) run nonce snapshot (ok path) d d' (λ p d'' made. tt)
          written in
      let still : lookup (enc_name safe) d'.files ≡ some old =
        ground (
          arith,
          plain,
          there,
          files (enc_name safe),
          tmp-ne-enc safe safe,
          json-ne-enc safe safe,
        ) in
      ground (arith, still, can, plain)
