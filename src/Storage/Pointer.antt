-- ===== src/Storage/Pointer.antt =====
-- src/storage/pointer.rs: the pointer files of a branch, which name the root of a body in the object
-- store. The text of a pointer, the hash's text and the directory tree are parameters.
pub mod Roundtrip
pub mod View
use apisnap.Common.{
  ℕ, ◌==◌, String, Bool, true, false, Option, none, some, List, [], Dict, insert, lookup, length,
  ◌<>◌, Result, ok, err, if◌then◌else◌,
}
use apisnap.Error.{ApiSnapError, invalid_config, io}
use apisnap.Json.{Value}
use apisnap.Snapshot.Files.{SnapshotFile}
use apisnap.Storage.Merkle.{NodeHash, NumberBits, Disk, Store, reconstruct}

pub record MerkleSnapshotPointer : Type 0 where
  pub endpoint_name : String
  pub root_hash : String
  pub status_code : ℕ
  pub duration_ms : ℕ
  pub recorded_at : String
  pub apisnap_version : String

-- The crates `hex` and `serde_json`, the clock, and the version of the build.
pub record Texts : Type 0 where
  pub hex_encode : List ℕ → String
  pub hex_decode : String → Result String (List ℕ)
  pub to_string_pretty : MerkleSnapshotPointer → Result String String
  pub from_str : String → Result String MerkleSnapshotPointer
  pub now : String
  pub version : String

-- Which calls succeed.
pub record PointerIo : Type 0 where
  pub create_dir : Bool
  pub write : Bool
  -- what a write that fails leaves in the file, if it was opened
  pub torn : Option String
  pub read : Bool

module _ (T : Texts) where
  unfoldable pub new_pointer : String → NodeHash → ℕ → ℕ → MerkleSnapshotPointer
  new_pointer endpoint_name root_hash status_code duration_ms = record {
    endpoint_name = endpoint_name;
    root_hash = T.hex_encode root_hash;
    status_code = status_code;
    duration_ms = duration_ms;
    recorded_at = T.now;
    apisnap_version = T.version;
  }

  abbrev pub pointer_path : String → String → String
  pointer_path branch_dir endpoint_name = branch_dir <> "/" <> endpoint_name <> ".ptr"

  -- The files by path.
  unfoldable pub save :
      PointerIo
      → MerkleSnapshotPointer
      → String
      → Dict String
      → Result ApiSnapError String × Dict String
  unfolding insert
  save run pointer branch_dir files =
      let file_path = pointer_path branch_dir pointer.endpoint_name in
      if run.create_dir
      then elim (T.to_string_pretty pointer) [
        | err e ↦ (err (invalid_config file_path e), files)
        | ok serialized ↦ if run.write then (ok file_path, insert file_path serialized files) else (
          err (io file_path),
          elim run.torn [ none ↦ files | some part ↦ insert file_path part files ],
        )
      ]
      else (err (io branch_dir), files)

  unfoldable pub load : PointerIo → String → Dict String → Result ApiSnapError MerkleSnapshotPointer
  load run ptr_path files = elim (lookup ptr_path files) [
    | none ↦ err (io ptr_path)
    | some content ↦
        if run.read
        then elim (T.from_str content) [
          | ok pointer ↦ ok pointer
          | err e ↦ err (invalid_config ptr_path ("Failed to parse pointer file: " <> e))
        ]
        else err (io ptr_path)
  ]

  abbrev pub snapshot_of_pointer : {N : Type 0} → MerkleSnapshotPointer → Value N → SnapshotFile N
  snapshot_of_pointer pointer ast = record {
    endpoint_name = pointer.endpoint_name;
    metadata = record {
      recorded_at = pointer.recorded_at;
      duration_ms = pointer.duration_ms;
      status_code = pointer.status_code;
      grpc_status_code = none;
      response_headers = [];
      apisnap_version = pointer.apisnap_version;
    };
    masked_body = ast;
  }

  module _ (D : Disk) {N : Type 0} (blake3 : List ℕ → List ℕ) (B : NumberBits N) (fuel : ℕ) where
    abbrev pub restored_snapshot :
        MerkleSnapshotPointer
        → Option (Value N) × Store D
        → Result ApiSnapError (SnapshotFile N) × Store D
    restored_snapshot pointer (none, cas) = (err (io pointer.root_hash), cas)
    restored_snapshot pointer (some ast, cas) = (ok (snapshot_of_pointer pointer ast), cas)

    unfoldable pub reconstruct_pointer :
        MerkleSnapshotPointer → Store D → Result ApiSnapError (SnapshotFile N) × Store D
    unfolding reconstruct
    reconstruct_pointer pointer cas = elim (T.hex_decode pointer.root_hash) [
      | err e ↦ (err (invalid_config pointer.endpoint_name ("Invalid hex root hash: " <> e)), cas)
      | ok hash_bytes ↦
          if length hash_bytes == 32
          then restored_snapshot pointer (reconstruct D blake3 B fuel hash_bytes cas)
          else (err (invalid_config pointer.endpoint_name "Root hash must be 32 bytes"), cas)
    ]
