-- ===== src/Cli/Record.antt =====
-- src/cli/commands.rs: `handle_record`, the loop over the responses. Every round masks the body,
-- observes it in the object store and the timeline, and writes the snapshot. Learning and printing
-- are left out.
pub mod Rounds
pub mod Replay
use apisnap.Common.{
  ℕ, zero, suc, ◌+◌, String, Bool, true, false, Option, none, some, List, [], ◌∷◌, ◌++◌, map,
  Result, ok, err, if◌then◌else◌, is_empty,
}
use apisnap.Error.{ApiSnapError}
use apisnap.Json.{Numbers, Value}
use apisnap.Config.{EndpointConfig, ApiSnapConfig}
use apisnap.Crypto.{SnapshotEncryptor}
use apisnap.Storage.Merkle.{NodeHash, MerkleNode, Store, ingest}
use apisnap.Storage.Timeline.{Ledger, Services, manual_record, record_observation}
use apisnap.Snapshot.Files.{
  SnapshotFile, SnapshotMetadata, SnapshotStore, new_store, with_secret_scan, with_encryptor,
  with_cas,
}
use apisnap.Snapshot.Store.{Dir, write_snapshot_atomic}
use apisnap.Cli.Dispatch.{Event, dispatch_requests}
use apisnap.Cli.{RawResponse, Program, Round, Fetched, filter_endpoints, masked_body_of}
use apisnap.Cli.Test.{Response, fetched, concurrency_of}

-- What the timeline adds to the crates; `millis` is `as f64`.
pub record Observer (J : Numbers) : Type 0 where
  pub hex_encode : List ℕ → String
  pub hex_decode : String → Option (List ℕ)
  pub fuel : ℕ
  pub readable : String → Bool
  pub writable : String → Bool
  pub millis : ℕ → J.F64
  pub version : String

module _ (J : Numbers) (P : Program J) (O : Observer J) (config : ApiSnapConfig J) where
  -- The snapshot directory, the timeline below it, and the cache of `cas_store`, if that could be
  -- opened. The objects on the disk are the directory's, which every store shares.
  pub record State : Type 0 where
    pub dir : Dir P.K
    pub timeline : Ledger J.F64
    pub cas_cache : Option (List (NodeHash × MerkleNode))

  abbrev pub services : Services J
  services = record {
    D = P.K.disk;
    blake3 = P.K.blake3;
    B = P.K.bits;
    nfc = P.nfc;
    value_eq = P.value_eq;
    hex_encode = O.hex_encode;
    hex_decode = O.hex_decode;
    fuel = O.fuel;
    readable = O.readable;
    writable = O.writable;
  }

  abbrev pub record_store : Option SnapshotEncryptor → Bool → SnapshotStore
  record_store encryptor enable_cas = with_cas enable_cas (
      with_encryptor encryptor
        (with_secret_scan config.masking.pre_write_secret_scan (new_store config.snapshot_dir)))

  -- The object store after a call, put back.
  abbrev pub with_store : Store P.K.disk → State → State
  with_store cas st = record st {
    dir = record st.dir { objects = cas.disk };
    cas_cache = some cas.cache;
  }

  -- Ingestion and observation; their errors are ignored.
  unfoldable pub observe :
      Round → EndpointConfig J → RawResponse J.Number → Value J.Number → State → State
  unfolding ingest record_observation
  observe round endpoint raw_res masked_body st = elim st.cas_cache [
    | none ↦ st
    | some cache ↦
        let (ingested, cas) =
          ingest P.K.disk P.K.blake3 P.K.bits masked_body
            (record { cache = cache; disk = st.dir.objects }) in
        elim ingested [
          | none ↦ with_store cas st
          | some node_hash ↦
              let (observed, cas') =
                record_observation J services st.timeline endpoint.name node_hash
                  (O.millis raw_res.duration_ms) raw_res.status_code manual_record round.observed_at
                  cas in
              elim observed [
                | none ↦ with_store cas' st
                | some (timeline, commit) ↦ record (with_store cas' st) { timeline = timeline }
              ]
        ]
  ]

  unfoldable pub snapshot_of :
      Round → EndpointConfig J → RawResponse J.Number → SnapshotFile J.Number
  unfolding masked_body_of
  snapshot_of round endpoint raw_res = record {
    endpoint_name = endpoint.name;
    metadata = record {
      recorded_at = round.recorded_at;
      duration_ms = raw_res.duration_ms;
      status_code = raw_res.status_code;
      grpc_status_code = none;
      response_headers = raw_res.headers;
      apisnap_version = O.version;
    };
    masked_body = masked_body_of J P config endpoint raw_res.body;
  }

  module _ (store : SnapshotStore) where
    abbrev pub wrote :
        State → Result ApiSnapError String × Dir P.K → Result ApiSnapError String × State
    wrote st (r, dir) = (r, record st { dir = dir })

    -- One round: the path of the file, or the error that ends the command.
    unfoldable pub record_one : Fetched J → State → Result ApiSnapError String × State
    unfolding observe snapshot_of write_snapshot_atomic
    record_one f st = elim f.raw_res_result [
      | err e ↦ (err e, st)
      | ok raw_res ↦
          let snapshot = snapshot_of f.round f.endpoint raw_res in
          let observed = observe f.round f.endpoint raw_res snapshot.masked_body st in
          wrote observed
            (write_snapshot_atomic P.K store f.round.run f.round.nonce snapshot observed.dir)
    ]

    -- The loop, with the number of snapshots.
    unfoldable pub record_results : List (Fetched J) → State → Result ApiSnapError ℕ × State
    unfolding record_one
    record_results [] st = (ok 0, st)
    record_results (f ∷ results) st =
        let (one, st') = record_one f st in
        let (rest, st'') = record_results results st' in
        elim one [
          | err e ↦ (err e, st')
          | ok path ↦ elim rest [ err e ↦ (err e, st'') | ok n ↦ (ok (suc n), st'') ]
        ]

  -- `MerkleCasStore::new(..).ok()` makes the directory `.cas`, if it can.
  abbrev pub open_cas : Bool → Dir P.K → Ledger J.F64 → State
  open_cas opens dir timeline =
      if opens
      then record { dir = record dir { is_there = true }; timeline = timeline; cas_cache = some [] }
      else record { dir = dir; timeline = timeline; cas_cache = none }

  -- The command without learning; `none` where the requests have not ended with these events.
  unfoldable pub handle_record :
      Option SnapshotEncryptor
      → Bool
      → Bool
      → Dir P.K
      → Ledger J.F64
      → Option String
      → Option ℕ
      → List (Event (Response J))
      → Option (Result ApiSnapError ℕ × State)
  unfolding dispatch_requests record_results
  handle_record encryptor enable_cas opens dir timeline endpoint_filter concurrency_override
        events =
      let filtered_endpoints = filter_endpoints config.endpoints endpoint_filter in
      if is_empty filtered_endpoints
      then some (ok 0, record { dir = dir; timeline = timeline; cas_cache = none })
      else elim (dispatch_requests (concurrency_of J P config concurrency_override)
          filtered_endpoints events) [
            | none ↦ none
            | some results ↦ some (
                record_results (record_store encryptor enable_cas) (map fetched results)
                  (open_cas opens dir timeline))
          ]
