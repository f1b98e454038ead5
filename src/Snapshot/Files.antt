-- ===== src/Snapshot/Files.antt =====
-- src/snapshot/snapshot.rs: a snapshot file and its names, the store's settings, and what comes from
-- outside: the crates, for a type of numbers, and the calls of the operating system that succeed.
use Prim.Native.Char.{Char}
use apisnap.Common.{ℕ, String, Bool, true, false, Option, none, List, Dict, ℤ, ◌<>◌}
use apisnap.Json.{Value}
use apisnap.Crypto.{Aes256Gcm, SnapshotEncryptor}
use apisnap.Engine.Masker.{Patterns}
use apisnap.Storage.Merkle.{NumberBits, Disk}

pub record SnapshotMetadata : Type 0 where
  pub recorded_at : String
  pub duration_ms : ℕ
  pub status_code : ℕ
  pub grpc_status_code : Option ℤ
  pub response_headers : Dict String
  pub apisnap_version : String

pub record SnapshotFile (N : Type 0) : Type 0 where
  pub endpoint_name : String
  pub metadata : SnapshotMetadata
  pub masked_body : Value N

pub record SnapshotStore : Type 0 where
  pub base_dir : String
  pub pre_write_secret_scan : Bool
  pub encryptor : Option SnapshotEncryptor
  pub enable_cas : Bool

-- `SnapshotStore::new` and the methods that set it up
abbrev pub new_store : String → SnapshotStore
new_store base_dir = record {
  base_dir = base_dir;
  pre_write_secret_scan = true;
  encryptor = none;
  enable_cas = false;
}

abbrev pub with_secret_scan : Bool → SnapshotStore → SnapshotStore
with_secret_scan enabled store = record store { pre_write_secret_scan = enabled }

abbrev pub with_encryptor : Option SnapshotEncryptor → SnapshotStore → SnapshotStore
with_encryptor encryptor store = record store { encryptor = encryptor }

abbrev pub with_cas : Bool → SnapshotStore → SnapshotStore
with_cas enabled store = record store { enable_cas = enabled }

-- Which calls succeed in a run. A write may stop after some bytes.
pub record Io : Type 0 where
  pub create_dir : Bool
  pub open_cas : Bool
  pub create_file : Bool
  pub stops_after : Option ℕ
  pub sync : Bool
  pub rename : Bool
  pub read : Bool

-- The crates, for a type of numbers.
pub record Crates (N : Type 0) : Type 1 where
  pub is_alphanumeric : Char → Bool
  pub to_string_pretty : SnapshotFile N → Option (List ℕ)
  pub from_slice : List ℕ → Option (SnapshotFile N)
  pub patterns : Patterns N
  pub aes : Aes256Gcm
  pub blake3 : List ℕ → List ℕ
  pub bits : NumberBits N
  pub disk : Disk

-- The names of an endpoint's files, from its sanitized name; `tmp_name` is `with_extension("tmp")`
-- of either.
abbrev pub json_name : String → String
json_name safe_name = safe_name <> ".snap.json"

abbrev pub enc_name : String → String
enc_name safe_name = safe_name <> ".snap.enc"

abbrev pub tmp_name : String → String
tmp_name safe_name = safe_name <> ".snap.tmp"
