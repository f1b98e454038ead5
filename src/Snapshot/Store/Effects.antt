-- ===== src/Snapshot/Store/Effects.antt =====
-- What a write does to the files of the directory, on success and on every error.
use apisnap.Common.{
  ℕ, ◌≡◌, refl, ap, ◌∙◌, arith, eq_refl, String, false, str_eq, Dict, lookup, erase, lookup-insert,
  lookup-erase, none, some, List, Result, ok, err, Option-cases, inl, inr, if◌then◌else◌, take,
}
use apisnap.Error.{ApiSnapError}
use apisnap.Snapshot.Files.{SnapshotFile, SnapshotStore, Io, Crates, tmp_name}
use apisnap.Snapshot.Store.{
  Dir, M, resume, ◌>>=◌, sanitize_filename, join, snapshot_name, guard_secrets, ensure_base_dir,
  ingest_body, ingest_if_enabled, payload_bytes, write_tmp, rename_file, write_snapshot_atomic,
}

module _ {N : Type 0} (K : Crates N) where
  Files : Type 0
  Files = Dict (List ℕ)

  -- What a step leads to, of its result and of the files it leaves.
  abbrev pub Post :
      {A : Type 0} → (Result ApiSnapError A → Dict (List ℕ) → Type 0) → M K A → Dir K → Type 0
  Post Q m d = Q (m d).0 (m d).1.files

  abbrev pub Keeps : {A : Type 0} → M K A → Type 0
  Keeps m = (d : Dir K) → (m d).1.files ≡ d.files

  -- One step, and then the others.
  pub step-then :
      {A B : Type 0} (Q : Result ApiSnapError B → Dict (List ℕ) → Type 0) (m : M K A)
      (f : A → M K B) (d : Dir K)
      → ((e : ApiSnapError) → (m d).0 ≡ err e → Q (err e) (m d).1.files)
      → ((a : A) → (m d).0 ≡ ok a → Post Q (f a) (m d).1)
      → Post Q (◌>>=◌ K m f) d
  step-then {A} {B} Q m f d failed next = go (m d).0 failed next
    where
      go :
          (r : Result ApiSnapError A)
          → ((e : ApiSnapError) → r ≡ err e → Q (err e) (m d).1.files)
          → ((a : A) → r ≡ ok a → Post Q (f a) (m d).1)
          → Post Q (resume K f r) (m d).1
      go (ok a) failed onward = onward a refl
      go (err e) failed onward = failed e refl

  module _ (store : SnapshotStore) where
    guard_secrets-Keeps : (snapshot : SnapshotFile N) → Keeps (guard_secrets K store snapshot)
    unfolding guard_secrets
    guard_secrets-Keeps snapshot d = ground arith

    ensure_base_dir-Keeps : (run : Io) → Keeps (ensure_base_dir K store run)
    unfolding ensure_base_dir
    ensure_base_dir-Keeps run d = ground arith

    ingest_if_enabled-Keeps :
        (run : Io) (snapshot : SnapshotFile N) → Keeps (ingest_if_enabled K store run snapshot)
    unfolding ingest_if_enabled ingest_body
    ingest_if_enabled-Keeps run snapshot d = ground arith

    payload_bytes-Keeps :
        (nonce : List ℕ) (snapshot : SnapshotFile N) → Keeps (payload_bytes K store nonce snapshot)
    unfolding payload_bytes
    payload_bytes-Keeps nonce snapshot d = ground arith

    -- The state of the files before and after a write: the payload under the snapshot's name and no
    -- temporary file, or, after an error, nothing changed but the temporary file.
    abbrev pub Effect :
        (Payload : List ℕ → Type 0) (tmp final : String) (before : Dict (List ℕ))
        → Result ApiSnapError String
        → Dict (List ℕ)
        → Type 0
    Effect Payload tmp final before (ok path) after =
        (payload : List ℕ) × Payload payload
        × ((name : String)
            → lookup name after ≡ (
                if str_eq final name
                then some payload
                else if str_eq tmp name
                then none
                else lookup name before))
    Effect Payload tmp final before (err e) after =
        (name : String) → str_eq tmp name ≡ false → lookup name after ≡ lookup name before

    module _ (run : Io) (name : String) where
      write_tmp-ok :
          (tmp : String) (payload : List ℕ) (d : Dir K)
          → (write_tmp K store run tmp payload d).0 ≡ ok tt
          → lookup name (write_tmp K store run tmp payload d).1.files
            ≡ (if str_eq tmp name then some payload else lookup name d.files)
      unfolding write_tmp
      write_tmp-ok tmp payload d e = ground (arith, e, lookup-insert tmp name payload d.files)

      write_tmp-err :
          (tmp : String) (payload : List ℕ) (d : Dir K)
          → str_eq tmp name ≡ false
          → lookup name (write_tmp K store run tmp payload d).1.files ≡ lookup name d.files
      unfolding write_tmp
      write_tmp-err tmp payload d apart = elim (Option-cases run.stops_after) [
        | inl whole ↦ ground (arith, apart, whole, lookup-insert tmp name payload d.files)
        | inr (n, stops) ↦
            ground (arith, apart, stops, lookup-insert tmp name (take n payload) d.files)
      ]

      rename_file-ok :
          (tmp final : String) (payload : List ℕ) (d : Dir K)
          → lookup tmp d.files ≡ some payload
          → (rename_file K store run tmp final d).0 ≡ ok tt
          → lookup name (rename_file K store run tmp final d).1.files ≡ (
              if str_eq final name
              then some payload
              else if str_eq tmp name
              then none
              else lookup name d.files)
      unfolding rename_file
      rename_file-ok tmp final payload d there e = ground (
        arith,
        there,
        e,
        lookup-insert final name payload (erase tmp d.files),
        lookup-erase tmp name d.files,
      )

      rename_file-err :
          (tmp final : String) (d : Dir K) (x : ApiSnapError)
          → (rename_file K store run tmp final d).0 ≡ err x
          → lookup name (rename_file K store run tmp final d).1.files ≡ lookup name d.files
      unfolding rename_file
      rename_file-err tmp final d x e = ground (arith, e)

    -- The last three steps.
    saved-Effect :
        (Payload : List ℕ → Type 0) (run : Io) (tmp final : String) (before : Dict (List ℕ))
        (path : String) (payload : List ℕ) (d : Dir K)
        → Payload payload
        → d.files ≡ before
        → Post
            (Effect Payload tmp final before)
            (◌>>=◌ K
              (write_tmp K store run tmp payload)
              (λ _. ◌>>=◌ K (rename_file K store run tmp final) (λ _ d'. (ok path, d'))))
            d
    saved-Effect Payload run tmp final before path payload d good same =
        let written = (write_tmp K store run tmp payload d).1 in
        step-then (Effect Payload tmp final before) (write_tmp K store run tmp payload)
          (λ _. ◌>>=◌ K (rename_file K store run tmp final) (λ _ d'. (ok path, d'))) d
          (λ e failed name apart.
            write_tmp-err run name tmp payload d apart ∙ ap (lookup name) same)
          (λ _ wrote.
            let there : lookup tmp written.files ≡ some payload =
              ground (arith, write_tmp-ok run tmp tmp payload d wrote, eq_refl tmp) in
            step-then (Effect Payload tmp final before) (rename_file K store run tmp final)
              (λ _ d'. (ok path, d')) written
              (λ e failed name apart.
                rename_file-err run name tmp final written e failed
                ∙ write_tmp-err run name tmp payload d apart
                ∙ ap (lookup name) same)
              (λ _ renamed. (
                payload,
                good,
                λ name. ground (
                  arith,
                  rename_file-ok run name tmp final payload written there renamed,
                  write_tmp-ok run name tmp payload d wrote,
                  ap (lookup name) same,
                ),
              )))

    -- A step that keeps the files, before those that write.
    quiet-Effect :
        {A : Type 0} (Payload : List ℕ → Type 0) (tmp final : String) (before : Dict (List ℕ))
        (m : M K A) (f : A → M K String) (d : Dir K)
        → Keeps m
        → d.files ≡ before
        → ((a : A) (d' : Dir K)
            → (m d).0 ≡ ok a
            → d'.files ≡ before
            → Post (Effect Payload tmp final before) (f a) d')
        → Post (Effect Payload tmp final before) (◌>>=◌ K m f) d
    quiet-Effect Payload tmp final before m f d keeps same next =
        step-then (Effect Payload tmp final before) m f d
          (λ e failed name apart. ap (lookup name) (keeps d ∙ same))
          (λ a made. next a (m d).1 made (keeps d ∙ same))

    -- The name of the snapshot's temporary file.
    abbrev pub tmp_of : SnapshotFile N → String
    tmp_of snapshot = tmp_name (sanitize_filename K snapshot.endpoint_name)

    pub write_snapshot_atomic-Effect :
        (Payload : List ℕ → Type 0) (run : Io) (nonce : List ℕ) (snapshot : SnapshotFile N)
        (d : Dir K)
        → ((payload : List ℕ) (d' : Dir K)
            → (payload_bytes K store nonce snapshot d').0 ≡ ok payload
            → Payload payload)
        → Post
            (Effect Payload
              (tmp_of snapshot)
              (snapshot_name K store snapshot.endpoint_name)
              d.files)
            (write_snapshot_atomic K store run nonce snapshot)
            d
    unfolding write_snapshot_atomic
    write_snapshot_atomic-Effect Payload run nonce snapshot d good =
        let final = snapshot_name K store snapshot.endpoint_name in
        let tmp = tmp_of snapshot in
        quiet-Effect Payload tmp final d.files (guard_secrets K store snapshot) _ d
          (guard_secrets-Keeps snapshot) refl
          (λ _ d1 guarded s1.
            quiet-Effect Payload tmp final d.files (ensure_base_dir K store run) _ d1
              (ensure_base_dir-Keeps run) s1
              (λ _ d2 ensured s2.
                quiet-Effect Payload tmp final d.files (ingest_if_enabled K store run snapshot) _ d2
                  (ingest_if_enabled-Keeps run snapshot) s2
                  (λ _ d3 ingested s3.
                    quiet-Effect Payload tmp final d.files (payload_bytes K store nonce snapshot) _
                      d3 (payload_bytes-Keeps nonce snapshot) s3
                      (λ payload d4 made s4.
                        saved-Effect Payload run tmp final d.files (join K store final) payload d4
                          (good payload d3 made) s4))))
