-- ===== src/Snapshot/Store.antt =====
-- src/snapshot/snapshot.rs: the files of the snapshot directory. A file's content is its bytes; the
-- directory `.cas` below it is the object store's. `serde_json`, AES-256-GCM and whether a
-- character is alphanumeric are parameters; which calls of the operating system fail in a run is
-- the argument `Io`.
pub mod Names
pub mod Effects
pub mod Payload
pub mod Durable
pub mod Outcome
use Prim.Native.Char.{Char, code}
use Prim.Native.String
use apisnap.Common.{
  ℕ, String, Bool, true, false, ◌||◌, Option, none, some, List, [], Dict, ℤ, lookup, insert, erase,
  take, ◌==◌, ◌<>◌, Result, ok, err, if◌then◌else◌,
}
use apisnap.Error.{ApiSnapError, io, invalid_config, malformed_json, snapshot_not_found}
use apisnap.Json.{Value}
use apisnap.Snapshot.Files.{
  SnapshotMetadata, SnapshotFile, SnapshotStore, new_store, with_secret_scan, with_encryptor,
  with_cas, Io, Crates, json_name, enc_name, tmp_name,
}
use apisnap.Crypto.{Aes256Gcm, SnapshotEncryptor, encrypt, decrypt}
use apisnap.Engine.Masker.{Patterns}
use apisnap.Engine.Masker.Secrets.{scan_unmasked_secrets}
use apisnap.Storage.Merkle.{NumberBits, Disk, Store, ingest}

module _ {N : Type 0} (K : Crates N) where
  open K use {is_alphanumeric, to_string_pretty, from_slice, patterns, aes, blake3, bits, disk}

  -- The directory: whether it is there, its files by name, and the objects.
  pub record Dir : Type 0 where
    pub is_there : Bool
    pub files : Dict (List ℕ)
    pub objects : disk.State

  abbrev pub M : Type 0 → Type 0
  M A = Dir → Result ApiSnapError A × Dir

  abbrev pub resume : {A B : Type 0} → (A → M B) → Result ApiSnapError A → M B
  resume f (ok a) d = f a d
  resume f (err e) d = (err e, d)

  infixl 5 ◌>>=◌ ◌>>◌
  abbrev pub ◌>>=◌ : {A B : Type 0} → M A → (A → M B) → M B
  ◌>>=◌ m f d = resume f (m d).0 (m d).1

  abbrev pub ◌>>◌ : {B : Type 0} → M (Unit {0}) → M B → M B
  m >> k = m >>= λ _. k

  abbrev pub done : M (Unit {0})
  done d = (ok tt, d)

  abbrev underscore : Char
  underscore = "_"

  unfoldable pub sanitize_filename : String → String
  sanitize_filename String.[] = ""
  sanitize_filename (String.◌∷◌ c name) =
      if is_alphanumeric c || (code c == b'-' || code c == b'_')
      then String.◌∷◌ c (sanitize_filename name)
      else String.◌∷◌ underscore (sanitize_filename name)

  abbrev pub is_there? : String → Dir → Bool
  is_there? name d = elim (lookup name d.files) [ none ↦ false | some bytes ↦ true ]

  -- `self.base_dir.join(name).display()`
  abbrev pub join : SnapshotStore → String → String
  join store name = store.base_dir <> "/" <> name

  module _ (store : SnapshotStore) where
    -- The last part of `snapshot_path`.
    unfoldable pub snapshot_name : String → String
    unfolding sanitize_filename
    snapshot_name endpoint_name = elim store.encryptor [
      | some e ↦ enc_name (sanitize_filename endpoint_name)
      | none ↦ json_name (sanitize_filename endpoint_name)
    ]

    unfoldable pub exists : String → Dir → Bool
    unfolding sanitize_filename
    exists endpoint_name d =
        is_there? (json_name (sanitize_filename endpoint_name)) d
        || is_there? (enc_name (sanitize_filename endpoint_name)) d

    unfoldable pub read_file : Io → String → M (List ℕ)
    read_file run name d = elim (lookup name d.files) [
      | none ↦ (err (io (join store name)), d)
      | some bytes ↦ if run.read then (ok bytes, d) else (err (io (join store name)), d)
    ]

    unfoldable pub decrypt_file : String → List ℕ → M (List ℕ)
    unfolding decrypt
    decrypt_file name raw_bytes d = elim store.encryptor [
      | some e ↦ (decrypt aes e raw_bytes, d)
      | none ↦ (
        err (
            invalid_config (join store name)
              "snapshot is encrypted with AES-256-GCM; please provide APISNAP_MASTER_KEY to read"),
        d,
      )
    ]

    unfoldable pub parse_file : String → List ℕ → M (SnapshotFile N)
    parse_file endpoint_name json_bytes d = elim (from_slice json_bytes) [
      | some snapshot ↦ (ok snapshot, d)
      | none ↦ (err (malformed_json ("snapshot file for '" <> endpoint_name <> "'")), d)
    ]

    unfoldable pub read_encrypted : Io → String → M (SnapshotFile N)
    unfolding sanitize_filename read_file decrypt_file parse_file
    read_encrypted run endpoint_name = do
      raw_bytes ← read_file run (enc_name (sanitize_filename endpoint_name))
      json_bytes ← decrypt_file (enc_name (sanitize_filename endpoint_name)) raw_bytes
      parse_file endpoint_name json_bytes

    unfoldable pub read_plain : Io → String → M (SnapshotFile N)
    unfolding sanitize_filename read_file parse_file
    read_plain run endpoint_name = do
      raw_bytes ← read_file run (json_name (sanitize_filename endpoint_name))
      parse_file endpoint_name raw_bytes

    -- An encrypted file goes before a plain one.
    unfoldable pub read_snapshot : Io → String → M (SnapshotFile N)
    unfolding sanitize_filename read_encrypted read_plain
    read_snapshot run endpoint_name d =
        if is_there? (enc_name (sanitize_filename endpoint_name)) d
        then read_encrypted run endpoint_name d
        else if is_there? (json_name (sanitize_filename endpoint_name)) d
        then read_plain run endpoint_name d
        else (
          err (
              snapshot_not_found endpoint_name
                (join store (json_name (sanitize_filename endpoint_name)))),
          d,
        )

    -- The guard before a write.
    unfoldable pub guard_secrets : SnapshotFile N → M (Unit {0})
    unfolding scan_unmasked_secrets
    guard_secrets snapshot d =
        if store.pre_write_secret_scan
        then elim (scan_unmasked_secrets patterns snapshot.masked_body) [
          | ok _ ↦ (ok tt, d)
          | err secret_err ↦ (
            err (
                invalid_config ("snapshot '" <> snapshot.endpoint_name <> "'")
                  ("Pre-write secret guard blocked write: " <> secret_err)),
            d,
          )
        ]
        else (ok tt, d)

    unfoldable pub ensure_base_dir : Io → M (Unit {0})
    ensure_base_dir run d =
        if d.is_there
        then (ok tt, d)
        else if run.create_dir
        then (ok tt, record d { is_there = true })
        else (err (io store.base_dir), d)

    abbrev pub ingested : Dir → Option (List ℕ) × Store disk → Result ApiSnapError (List ℕ) × Dir
    ingested d (some h, s) = (ok h, record d { is_there = true; objects = s.disk })
    ingested d (none, s) =
        (err (io (join store ".cas")), record d { is_there = true; objects = s.disk })

    -- `MerkleCasStore::new` makes the directory; the store has an empty cache, and is dropped after
    -- the call.
    unfoldable pub ingest_body : Io → Value N → M (List ℕ)
    unfolding ingest
    ingest_body run body d =
        if run.open_cas
        then ingested d (ingest disk blake3 bits body (record { cache = []; disk = d.objects }))
        else (err (io (join store ".cas")), d)

    unfoldable pub ingest_if_enabled : Io → SnapshotFile N → M (Unit {0})
    unfolding ingest_body
    ingest_if_enabled run snapshot =
        if store.enable_cas then (do _ ← ingest_body run snapshot.masked_body; done) else done

    unfoldable pub payload_bytes : List ℕ → SnapshotFile N → M (List ℕ)
    unfolding encrypt
    payload_bytes nonce snapshot d = elim (to_string_pretty snapshot) [
      | none ↦ (err (malformed_json ("serializing snapshot '" <> snapshot.endpoint_name <> "'")), d)
      | some serialized ↦ elim store.encryptor [
        | some e ↦ (encrypt aes e nonce serialized, d)
        | none ↦ (ok serialized, d)
      ]
    ]

    abbrev pub put_file : String → List ℕ → Dir → Dir
    put_file name bytes d = record d { files = insert name bytes d.files }

    -- The block around the temporary file.
    unfoldable pub write_tmp : Io → String → List ℕ → M (Unit {0})
    unfolding insert
    write_tmp run name bytes d =
        if run.create_file
        then elim run.stops_after [
          | some n ↦ (err (io (join store name)), put_file name (take n bytes) d)
          | none ↦
              if run.sync
              then (ok tt, put_file name bytes d)
              else (err (io (join store name)), put_file name bytes d)
        ]
        else (err (io (join store name)), d)

    -- `fs::rename`
    unfoldable pub rename_file : Io → String → String → M (Unit {0})
    unfolding insert erase
    rename_file run from to d = elim (lookup from d.files) [
      | none ↦ (err (io (join store to)), d)
      | some bytes ↦
          if run.rename
          then (ok tt, record d { files = insert to bytes (erase from d.files) })
          else (err (io (join store to)), d)
    ]

    -- `nonce` is what the random generator gives to `encrypt`.
    unfoldable pub write_snapshot_atomic : Io → List ℕ → SnapshotFile N → M String
    unfolding guard_secrets ensure_base_dir ingest_if_enabled payload_bytes write_tmp rename_file
        snapshot_name
    write_snapshot_atomic run nonce snapshot = do
      guard_secrets snapshot
      ensure_base_dir run
      ingest_if_enabled run snapshot
      payload ← payload_bytes nonce snapshot
      write_tmp run (tmp_name (sanitize_filename snapshot.endpoint_name)) payload
      rename_file run (tmp_name (sanitize_filename snapshot.endpoint_name))
          (snapshot_name snapshot.endpoint_name)
      λ d. (ok (join store (snapshot_name snapshot.endpoint_name)), d)

    -- Ingestion comes first, whatever the scan says of the snapshot.
    unfoldable pub write_snapshot_cas : Io → List ℕ → SnapshotFile N → M (String × List ℕ)
    unfolding ingest_body write_snapshot_atomic
    write_snapshot_cas run nonce snapshot = do
      root_hash ← ingest_body run snapshot.masked_body
      file_path ← write_snapshot_atomic run nonce snapshot
      λ d. (ok (file_path, root_hash), d)
