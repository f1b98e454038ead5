-- ===== src/Snapshot/Store/Outcome.antt =====
-- When a write succeeds, and what the secret guard stops.
use apisnap.Common.{
  ℕ, ◌≡◌, refl, sym, arith, eq_refl, String, true, false, lookup, insert, erase, subst,
  lookup-insert, none, some, List, [], Result, ok, err, Bool-cases, ◌⊎◌, inl, inr, ◌<>◌,
}
use apisnap.Error.{ApiSnapError, invalid_config}
use apisnap.Crypto.{SnapshotEncryptor, encrypt}
use apisnap.Engine.Masker.Secrets.{scan_unmasked_secrets}
use apisnap.Storage.Merkle.{NodeHash, Store, ingest}
use apisnap.Snapshot.Files.{SnapshotFile, SnapshotStore, Io, Crates, tmp_name}
use apisnap.Snapshot.Store.{
  Dir, sanitize_filename, join, snapshot_name, guard_secrets, ensure_base_dir, ingest_body,
  ingest_if_enabled, payload_bytes, write_tmp, rename_file, write_snapshot_atomic,
  write_snapshot_cas,
}

-- A run in which no call fails.
abbrev pub IsFair : Io → Type 0
IsFair run =
    (run.create_dir ≡ true)
    × (run.open_cas ≡ true)
    × (run.create_file ≡ true)
    × (run.stops_after ≡ none)
    × (run.sync ≡ true)
    × (run.rename ≡ true)

module _ {N : Type 0} (K : Crates N) (store : SnapshotStore) where
  abbrev Reaches : {A : Type 0} → Result ApiSnapError A × Dir K → A → Type 0
  Reaches r a = (d' : Dir K) × (r ≡ (ok a, d'))

  -- The object store takes the body, if it is asked to.
  abbrev pub IsIngested : SnapshotFile N → Dir K → Type 0
  IsIngested snapshot d =
      (store.enable_cas ≡ false)
      ⊎ ((h : NodeHash) × (t : Store K.disk) × (ingest K.disk K.blake3 K.bits snapshot.masked_body
              (record { cache = []; disk = d.objects })
            ≡ (some h, t)))

  -- The text is sealed, if the store has a key.
  abbrev pub IsSealed : List ℕ → List ℕ → Type 0
  IsSealed nonce text =
      (store.encryptor ≡ none)
      ⊎ ((e : SnapshotEncryptor) × (payload : List ℕ) × (store.encryptor ≡ some e)
          × (encrypt K.aes e nonce text ≡ ok payload))

  guard_secrets_lem :
      (snapshot : SnapshotFile N) (d : Dir K)
      → (store.pre_write_secret_scan ≡ false)
        ⊎ (scan_unmasked_secrets K.patterns snapshot.masked_body ≡ ok tt)
      → guard_secrets K store snapshot d ≡ (ok tt, d)
  unfolding guard_secrets
  guard_secrets_lem snapshot d clean = ground (arith, clean)

  ensure_base_dir_lem :
      (run : Io) (d : Dir K)
      → IsFair run
      → (d' : Dir K) × (ensure_base_dir K store run d ≡ (ok tt, d')) × (d'.objects ≡ d.objects)
  unfolding ensure_base_dir
  ensure_base_dir_lem run d (made, _, _, _, _, _) = elim (Bool-cases d.is_there) [
    | inl there ↦ (d, ground (arith, there), refl)
    | inr absent ↦ (record d { is_there = true }, ground (arith, absent, made), refl)
  ]

  ingest_if_enabled_lem :
      (run : Io) (snapshot : SnapshotFile N) (d : Dir K)
      → IsFair run
      → IsIngested snapshot d
      → Reaches (ingest_if_enabled K store run snapshot d) tt
  unfolding ingest_if_enabled ingest_body
  ingest_if_enabled_lem run snapshot d fair (inl off) = (d, ground (arith, off))
  ingest_if_enabled_lem run snapshot d (_, opened, _, _, _, _) (inr (h, t, taken)) =
      elim (Bool-cases store.enable_cas) [
        | inr off ↦ (d, ground (arith, off))
        | inl on ↦
            (record d { is_there = true; objects = t.disk }, ground (arith, on, opened, taken))
      ]

  payload_bytes_lem :
      (nonce : List ℕ) (snapshot : SnapshotFile N) (text : List ℕ) (d : Dir K)
      → K.to_string_pretty snapshot ≡ some text
      → IsSealed nonce text
      → (payload : List ℕ) × (payload_bytes K store nonce snapshot d ≡ (ok payload, d))
  unfolding payload_bytes
  payload_bytes_lem nonce snapshot text d printed (inl plain) =
      (text, ground (arith, printed, plain))
  payload_bytes_lem nonce snapshot text d printed (inr (e, payload, keyed, sealed)) =
      (payload, ground (arith, printed, keyed, sealed))

  write_tmp_lem :
      (run : Io) (tmp : String) (payload : List ℕ) (d : Dir K)
      → IsFair run
      → (d' : Dir K) × (write_tmp K store run tmp payload d ≡ (ok tt, d'))
        × (lookup tmp d'.files ≡ some payload)
  unfolding write_tmp
  write_tmp_lem run tmp payload d (_, _, created, whole, synced, _) = (
    record d { files = insert tmp payload d.files },
    ground (arith, created, whole, synced),
    ground (arith, lookup-insert tmp tmp payload d.files, eq_refl tmp),
  )

  rename_file_lem :
      (run : Io) (tmp final : String) (payload : List ℕ) (d : Dir K)
      → IsFair run
      → lookup tmp d.files ≡ some payload
      → Reaches (rename_file K store run tmp final d) tt
  unfolding rename_file
  rename_file_lem run tmp final payload d (_, _, _, _, _, renames) there = (
    record d { files = insert final payload (erase tmp d.files) },
    ground (arith, there, renames),
  )

  -- A write in which no call of the operating system fails succeeds, for a snapshot that can be printed
  -- and sealed, whose body has no secret or is not scanned, and is taken by the object store or not
  -- given to it.
  pub write_snapshot_atomic_succeeds :
      (run : Io) (nonce : List ℕ) (snapshot : SnapshotFile N) (text : List ℕ) (d : Dir K)
      → IsFair run
      → (store.pre_write_secret_scan ≡ false)
        ⊎ (scan_unmasked_secrets K.patterns snapshot.masked_body ≡ ok tt)
      → IsIngested snapshot d
      → K.to_string_pretty snapshot ≡ some text
      → IsSealed nonce text
      → (d' : Dir K) × (write_snapshot_atomic K store run nonce snapshot d
          ≡ (ok (join K store (snapshot_name K store snapshot.endpoint_name)), d'))
  unfolding write_snapshot_atomic
  write_snapshot_atomic_succeeds run nonce snapshot text d fair clean taken printed sealed =
      let tmp = tmp_name (sanitize_filename K snapshot.endpoint_name) in
      let final = snapshot_name K store snapshot.endpoint_name in
      let (d1, ensured, objects) = ensure_base_dir_lem run d fair in
      let (d2, ingested) = ingest_if_enabled_lem run snapshot d1 fair (
        subst
          (λ o.
            (store.enable_cas ≡ false)
            ⊎ ((h : NodeHash) × (t : Store K.disk) × (ingest K.disk K.blake3 K.bits
                    snapshot.masked_body (record { cache = []; disk = o })
                  ≡ (some h, t))))
          (sym objects) taken) in
      let (payload, made) = payload_bytes_lem nonce snapshot text d2 printed sealed in
      let (d3, written, there) = write_tmp_lem run tmp payload d2 fair in
      let (d4, renamed) = rename_file_lem run tmp final payload d3 fair there in
      (
        d4,
        rw (guard_secrets_lem snapshot d clean)
            (rw ensured (rw ingested (rw made (rw written (rw renamed))))),
      )

  abbrev blocked : SnapshotFile N → String → ApiSnapError
  blocked snapshot secret_err =
      invalid_config ("snapshot '" <> snapshot.endpoint_name <> "'")
        ("Pre-write secret guard blocked write: " <> secret_err)

  -- `write_snapshot_cas` ingests before it scans: for a body that the scan refuses,
  -- `write_snapshot_atomic` changes nothing, and `write_snapshot_cas` returns the same error but leaves
  -- the body's nodes among the objects.
  pub write_snapshot_cas_leaves :
      (run : Io) (nonce : List ℕ) (snapshot : SnapshotFile N) (secret_err : String) (h : NodeHash)
      (t : Store K.disk) (d : Dir K)
      → store.pre_write_secret_scan ≡ true
      → scan_unmasked_secrets K.patterns snapshot.masked_body ≡ err secret_err
      → run.open_cas ≡ true
      → ingest K.disk K.blake3 K.bits snapshot.masked_body (record { cache = []; disk = d.objects })
        ≡ (some h, t)
      → (write_snapshot_atomic K store run nonce snapshot d
          ≡ (err (blocked snapshot secret_err), d))
        × (write_snapshot_cas K store run nonce snapshot d
            ≡ (err (blocked snapshot secret_err), record d { is_there = true; objects = t.disk }))
  unfolding write_snapshot_cas write_snapshot_atomic guard_secrets ingest_body
  write_snapshot_cas_leaves run nonce snapshot secret_err h t d on found opened taken =
      (ground (arith, on, found), ground (arith, on, found, opened, taken))
