-- ===== src/Witnesses/Snapshots.antt =====
-- The theorems on the snapshot store, applied: a printer that prints one snapshot, a cipher that
-- leaves the text as it is, and the object store in memory.
use Prim.Native.Char.{Char, code}
use apisnap.Common.{
  ℕ, ◌≡◌, refl, arith, eq_iff, Bool, true, false, ◌&&◌, ◌++◌, sym, Bool-cases, str_eq, leb, ◌==◌,
  lookup, Option, none, some, List, [], ◌∷◌, ok, err, inl, inr, if◌then◌else◌, ◌<>◌,
}
use apisnap.Error.{ApiSnapError, io, invalid_config}
use apisnap.Json.{Value, null, string}
use apisnap.Crypto.{SnapshotEncryptor}
use apisnap.Crypto.Roundtrip.{IsAead}
use apisnap.Engine.Masker.Secrets.{scan_unmasked_secrets}
use apisnap.Storage.Merkle.{
  put_node, write_if_absent, compute_hash, ingest, NodeHash, Store, string_node,
}
use apisnap.Snapshot.Files.{
  SnapshotFile, SnapshotStore, new_store, with_encryptor, Io, Crates, enc_name,
}
use apisnap.Snapshot.Store.{
  Dir, sanitize_filename, join, snapshot_name, exists, read_snapshot, write_snapshot_atomic,
  write_snapshot_cas,
}
use apisnap.Snapshot.Store.Payload.{IsReread}
use apisnap.Snapshot.Store.Durable.{
  write_snapshot_atomic-read_snapshot, write_snapshot_atomic_frame,
  write_snapshot_atomic-read_snapshot_hidden,
}
use apisnap.Snapshot.Store.Outcome.{write_snapshot_atomic_succeeds, write_snapshot_cas_leaves}
use apisnap.Witnesses.Data.{patterns, memory, toy_blake3, bits}

abbrev is_lower : Char → Bool
is_lower c = leb 97 (code c) && leb (code c) 122

abbrev pub sample : SnapshotFile ℕ
sample = record {
  endpoint_name = "users/list";
  metadata = record {
    recorded_at = "now";
    duration_ms = 12;
    status_code = 200;
    grpc_status_code = none;
    response_headers = [];
    apisnap_version = "1.0";
  };
  masked_body = null;
}

abbrev is_null : Value ℕ → Bool
is_null null = true
is_null _ = false

abbrev is_none : {A : Type 0} → Option A → Bool
is_none none = true
is_none (some a) = false

abbrev is_nil : {A : Type 0} → List A → Bool
is_nil [] = true
is_nil (a ∷ rest) = false

abbrev is_sample : SnapshotFile ℕ → Bool
is_sample s =
    str_eq s.endpoint_name "users/list"
    && (str_eq s.metadata.recorded_at "now"
        && ((s.metadata.duration_ms == 12)
            && ((s.metadata.status_code == 200)
                && (is_none s.metadata.grpc_status_code
                    && (is_nil s.metadata.response_headers
                        && (str_eq s.metadata.apisnap_version "1.0" && is_null s.masked_body))))))

null_only : (v : Value ℕ) → is_null v ≡ true → v ≡ null
null_only null h = refl
null_only v h = cc h

sample_only : (s : SnapshotFile ℕ) → is_sample s ≡ true → s ≡ sample
sample_only s h =
    let name : s.endpoint_name ≡ "users/list" =
      ground (arith, h, eq_iff s.endpoint_name "users/list") in
    let at : s.metadata.recorded_at ≡ "now" =
      ground (arith, h, eq_iff s.metadata.recorded_at "now") in
    let ms : s.metadata.duration_ms ≡ 12 = ground (arith, h) in
    let status : s.metadata.status_code ≡ 200 = ground (arith, h) in
    let grpc : s.metadata.grpc_status_code ≡ none = ground (arith, h) in
    let headers : s.metadata.response_headers ≡ [] = ground (arith, h) in
    let version : s.metadata.apisnap_version ≡ "1.0" =
      ground (arith, h, eq_iff s.metadata.apisnap_version "1.0") in
    let body : s.masked_body ≡ null = null_only s.masked_body (ground (arith, h)) in
    rw (name, at, ms, status, grpc, headers, version, body) refl

abbrev pub crates : Crates ℕ
crates = record {
  is_alphanumeric = is_lower;
  to_string_pretty = λ s. if is_sample s then some (1 ∷ []) else none;
  from_slice = λ text. elim text [ [] ↦ none | byte ∷ bytes ↦ some sample ];
  patterns = patterns;
  aes = record { seal = λ k nonce text. ok text; unseal = λ k nonce sealed. ok sealed };
  blake3 = toy_blake3;
  bits = bits;
  disk = memory;
}

pub crates-IsReread : (s : SnapshotFile ℕ) → IsReread crates s
crates-IsReread = λ s text printed. elim (Bool-cases (is_sample s)) [
  | inl here ↦ printed_sample s text here printed
  | inr other ↦ absurd (ground (arith, printed, other))
]
  where
    printed_sample :
        (s : SnapshotFile ℕ) (text : List ℕ)
        → is_sample s ≡ true
        → (if is_sample s then some (1 ∷ []) else none) ≡ some text
        → (elim text [ [] ↦ none | byte ∷ bytes ↦ some sample ]) ≡ some s
    printed_sample s text here printed =
        let is : text ≡ 1 ∷ [] = ground (arith, printed, here) in rw (is, sample_only s here) refl

pub crates-IsAead : IsAead crates.aes
crates-IsAead = record { unseal-seal = λ k nonce text sealed e. sym e }

abbrev pub plain_store : SnapshotStore
plain_store = new_store "snapshots"

abbrev pub master : SnapshotEncryptor
master = record { key = 1 ∷ 2 ∷ [] }

abbrev pub keyed_store : SnapshotStore
keyed_store = with_encryptor (some master) plain_store

abbrev pub all_well : Io
all_well = record {
  create_dir = true;
  open_cas = true;
  create_file = true;
  stops_after = none;
  sync = true;
  rename = true;
  read = true;
}

-- The disk is full after three bytes.
abbrev disk_full : Io
disk_full = record all_well { stops_after = some 3 }

abbrev pub nonce : List ℕ
nonce = 0 ∷ 1 ∷ 2 ∷ 3 ∷ 4 ∷ 5 ∷ 6 ∷ 7 ∷ 8 ∷ 9 ∷ 10 ∷ 11 ∷ []

abbrev pub empty_dir : Dir crates
empty_dir = record { is_there = false; files = []; objects = [] }

-- The directory with an encrypted snapshot from an earlier run.
abbrev old_dir : Dir crates
old_dir = record { is_there = true; files = ("users_list.snap.enc", 9 ∷ []) ∷ []; objects = [] }

abbrev sample_payload : List ℕ
sample_payload = nonce ++ 1 ∷ []

abbrev written_dir : Dir crates
written_dir = record {
  is_there = true;
  files = ("users_list.snap.enc", sample_payload) ∷ [];
  objects = [];
}

written :
    write_snapshot_atomic crates keyed_store all_well nonce sample empty_dir
    ≡ (ok "snapshots/users_list.snap.enc", written_dir)
unfolding write_snapshot_atomic
written = refl

-- The endpoint `users_list` has the same file as `users/list`.
write_snapshot_atomic-read_snapshot_example :
    read_snapshot crates keyed_store all_well "users_list" written_dir ≡ (ok sample, written_dir)
unfolding sanitize_filename
write_snapshot_atomic-read_snapshot_example =
    write_snapshot_atomic-read_snapshot crates keyed_store crates-IsAead all_well all_well nonce
      sample (crates-IsReread sample) "users_list" "snapshots/users_list.snap.enc" empty_dir
      written_dir refl refl same (inl (λ e. cc e)) written
  where
    same : sanitize_filename crates "users_list" ≡ sanitize_filename crates "users/list"
    same = refl

abbrev full_dir : Dir crates
full_dir = record {
  is_there = true;
  files = ("users_list.snap.enc", 9 ∷ []) ∷ ("users_list.snap.tmp", 0 ∷ 1 ∷ 2 ∷ []) ∷ [];
  objects = [];
}

not_written :
    write_snapshot_atomic crates keyed_store disk_full nonce sample old_dir
    ≡ (err (io "snapshots/users_list.snap.tmp"), full_dir)
unfolding write_snapshot_atomic
not_written = refl

write_snapshot_atomic_frame_example :
    ((read_snapshot crates keyed_store all_well "users/list" full_dir).0
      ≡ (read_snapshot crates keyed_store all_well "users/list" old_dir).0)
    × (exists crates keyed_store "users/list" full_dir
        ≡ exists crates keyed_store "users/list" old_dir)
write_snapshot_atomic_frame_example =
    write_snapshot_atomic_frame crates keyed_store disk_full all_well nonce sample "users/list"
      (err (io "snapshots/users_list.snap.tmp")) old_dir full_dir not_written
      (inl (io "snapshots/users_list.snap.tmp", refl))

abbrev hidden_dir : Dir crates
hidden_dir = record {
  is_there = true;
  files = ("users_list.snap.enc", 9 ∷ []) ∷ ("users_list.snap.json", 1 ∷ []) ∷ [];
  objects = [];
}

written_beside :
    write_snapshot_atomic crates plain_store all_well nonce sample old_dir
    ≡ (ok "snapshots/users_list.snap.json", hidden_dir)
unfolding write_snapshot_atomic
written_beside = refl

old_there :
    lookup (enc_name (sanitize_filename crates sample.endpoint_name)) old_dir.files ≡ some (9 ∷ [])
unfolding sanitize_filename
old_there = refl

write_snapshot_atomic-read_snapshot_hidden_example :
    read_snapshot crates plain_store all_well "users/list" hidden_dir ≡ (
      err (
          invalid_config
            (join crates plain_store (enc_name (sanitize_filename crates "users/list")))
            "snapshot is encrypted with AES-256-GCM; please provide APISNAP_MASTER_KEY to read"),
      hidden_dir,
    )
write_snapshot_atomic-read_snapshot_hidden_example =
    write_snapshot_atomic-read_snapshot_hidden crates plain_store all_well all_well nonce sample
      "snapshots/users_list.snap.json" (9 ∷ []) old_dir hidden_dir refl refl old_there
      written_beside

scanned : scan_unmasked_secrets patterns null ≡ ok tt
unfolding scan_unmasked_secrets
scanned = refl

write_snapshot_atomic_succeeds_example :
    (d : Dir crates) × (write_snapshot_atomic crates plain_store all_well nonce sample empty_dir
      ≡ (ok (join crates plain_store (snapshot_name crates plain_store "users/list")), d))
write_snapshot_atomic_succeeds_example =
    write_snapshot_atomic_succeeds crates plain_store all_well nonce sample (1 ∷ []) empty_dir
      (refl, refl, refl, refl, refl, refl) (inr scanned) (inl refl) refl (inl refl)

abbrev leaky : SnapshotFile ℕ
leaky = record sample { masked_body = string "aws" }

found :
    scan_unmasked_secrets patterns (string "aws")
    ≡ err ("Unmasked AWS Access Key detected at '" <> "$" <> "'")
unfolding scan_unmasked_secrets
found = refl

abbrev aws_hash : NodeHash
aws_hash = 3 ∷ 97 ∷ 119 ∷ 115 ∷ []

abbrev aws_store : Store memory
aws_store = record {
  cache = (aws_hash, string_node "aws") ∷ [];
  disk = (aws_hash, string_node "aws") ∷ [];
}

aws_ingested :
    ingest memory toy_blake3 bits (string "aws") (record { cache = []; disk = [] })
    ≡ (some aws_hash, aws_store)
unfolding ingest put_node write_if_absent compute_hash
aws_ingested = refl

abbrev aws_error : ApiSnapError
aws_error = invalid_config ("snapshot '" <> "users/list" <> "'") (
    "Pre-write secret guard blocked write: "
    <> ("Unmasked AWS Access Key detected at '" <> "$" <> "'"))

write_snapshot_cas_leaves_example :
    (write_snapshot_atomic crates plain_store all_well nonce leaky empty_dir
      ≡ (err aws_error, empty_dir))
    × (write_snapshot_cas crates plain_store all_well nonce leaky empty_dir ≡ (
      err aws_error,
      record empty_dir { is_there = true; objects = (aws_hash, string_node "aws") ∷ [] },
    ))
write_snapshot_cas_leaves_example =
    write_snapshot_cas_leaves crates plain_store all_well nonce leaky
      ("Unmasked AWS Access Key detected at '" <> "$" <> "'") aws_hash aws_store empty_dir refl
      found refl aws_ingested
