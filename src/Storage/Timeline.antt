-- ===== src/Storage/Timeline.antt =====
-- src/storage/timeline.rs: the append-only ledger of observations, one file for each endpoint. A
-- file is the list of its lines, oldest first; reading and writing JSON is a crate's, so a line is
-- the commit that it parses to, or one that does not parse, or blank. The clock, `hex`, BLAKE3 and
-- whether a file can be read and appended to are parameters. Left out: an append that stops in the
-- middle of its line, and names that the file system resolves to one file.
pub mod Chain
use mathlib.Core.List.{reverse}
use apisnap.Common.{
  ℕ, zero, suc, ◌+◌, ◌%◌, ◌^◌, String, Bool, true, false, Option, none, some, List, [], ◌∷◌, ◌++◌,
  Dict, lookup, insert, length, leb, ◌==◌, ◌<>◌, is_empty, if◌then◌else◌,
}
use apisnap.Json.{Numbers, Value}
use apisnap.Engine.Differ.{
  DiffKind, added, removed, type_mismatch, DiffReport, default_options, compare_json_ast,
}
use apisnap.Engine.JitRule.{as_bytes}
use apisnap.Storage.Merkle.{NodeHash, NumberBits, Disk, Store, reconstruct}

pub data ObservationSource : Type 0 where
  manual_record shadow_proxy ebpf_capture : ObservationSource
  ci_pipeline : Option String → ObservationSource

pub record DeltaSummary (F64 : Type 0) : Type 0 where
  pub fields_added : ℕ
  pub fields_removed : ℕ
  pub fields_type_changed : ℕ
  pub latency_delta_ms : F64

pub record TimelineCommit (F64 : Type 0) : Type 0 where
  pub commit_id : String
  pub endpoint_name : String
  pub parent_commit : Option String
  pub observed_at : String
  pub source : ObservationSource
  pub response_root_hash : String
  pub latency_ms : F64
  pub status_code : ℕ
  pub structural_delta_summary : DeltaSummary F64

-- A line of a ledger file, by what `from_str` makes of it.
pub data Line (F64 : Type 0) : Type 0 where
  blank malformed : Line F64
  entry : TimelineCommit F64 → Line F64

-- The files under `timeline/`, by endpoint.
abbrev pub Ledger : Type 0 → Type 0
Ledger F64 = Dict (List (Line F64))

module _ {F64 : Type 0} where
  -- The loop of `get_timeline` over the reversed lines, with the commits so far.
  unfoldable pub collect_commits :
      ℕ → List (Line F64) → List (TimelineCommit F64) → List (TimelineCommit F64)
  collect_commits limit [] commits = commits
  collect_commits limit (blank ∷ lines) commits = collect_commits limit lines commits
  collect_commits limit (malformed ∷ lines) commits = collect_commits limit lines commits
  collect_commits limit (entry c ∷ lines) commits =
      let pushed = commits ++ c ∷ [] in
      let rest = collect_commits limit lines pushed in
      if leb limit (length pushed) then pushed else rest

  -- No file is no history. `none` is the error of a file that cannot be read.
  unfoldable pub get_timeline :
      (String → Bool) → Ledger F64 → String → ℕ → Option (List (TimelineCommit F64))
  unfolding collect_commits
  get_timeline readable files endpoint_name limit = elim (lookup endpoint_name files) [
    | none ↦ some []
    | some lines ↦
        if readable endpoint_name then some (collect_commits limit (reverse lines) []) else none
  ]

  abbrev pub lines_of : Ledger F64 → String → List (Line F64)
  lines_of files endpoint_name = elim (lookup endpoint_name files) [
    | none ↦ []
    | some lines ↦ lines
  ]

  -- `none` is the error of a file that cannot be written.
  unfoldable pub append_commit :
      (String → Bool) → Ledger F64 → TimelineCommit F64 → Option (Ledger F64)
  unfolding insert
  append_commit writable files c =
      if writable c.endpoint_name
      then some (insert c.endpoint_name (lines_of files c.endpoint_name ++ entry c ∷ []) files)
      else none

abbrev pub first? : {A : Type 0} → List A → Option A
first? [] = none
first? (a ∷ rest) = some a

-- The loop over the differences of two observations; the counters are `u32`s.
unfoldable pub count_delta :
    {F64 N : Type 0} → List (DiffKind N) → DeltaSummary F64 → DeltaSummary F64
count_delta [] d = d
count_delta (added p v ∷ diffs) d =
    count_delta diffs (record d { fields_added = (d.fields_added + 1) % 2 ^ 32 })
count_delta (removed p v ∷ diffs) d =
    count_delta diffs (record d { fields_removed = (d.fields_removed + 1) % 2 ^ 32 })
count_delta (type_mismatch p s t v w ∷ diffs) d =
    count_delta diffs (record d { fields_type_changed = (d.fields_type_changed + 1) % 2 ^ 32 })
count_delta (_ ∷ diffs) d = count_delta diffs d

-- The crates that the ledger calls, and the store's parameters.
pub record Services (J : Numbers) : Type 1 where
  pub D : Disk
  pub blake3 : List ℕ → List ℕ
  pub B : NumberBits J.Number
  pub nfc : String → String
  pub value_eq : Value J.Number → Value J.Number → Bool
  pub hex_encode : List ℕ → String
  pub hex_decode : String → Option (List ℕ)
  -- the depth to which trees are followed in the store
  pub fuel : ℕ
  pub readable : String → Bool
  pub writable : String → Bool

module _ (J : Numbers) (S : Services J) where
  -- `hex::decode(..)`, and the test on 32 bytes
  unfoldable pub parse_node_hash : String → Option NodeHash
  parse_node_hash hex_str = elim (S.hex_decode hex_str) [
    | none ↦ none
    | some bytes ↦ if length bytes == 32 then some bytes else none
  ]

  abbrev pub no_delta : DeltaSummary J.F64
  no_delta = record {
    fields_added = 0;
    fields_removed = 0;
    fields_type_changed = 0;
    latency_delta_ms = J.zero_f64;
  }

  abbrev pub diff_default : Value J.Number → Value J.Number → List (DiffKind J.Number)
  diff_default = compare_json_ast J S.nfc (default_options J) S.value_eq

  abbrev pub fetch : NodeHash → Store S.D → Option (Value J.Number) × Store S.D
  fetch h cas = reconstruct S.D S.blake3 S.B S.fuel h cas

  -- Both trees are fetched, the old one first; only with both are the differences counted.
  abbrev pub count_if_both :
      Option (Value J.Number) → Option (Value J.Number) → DeltaSummary J.F64 → DeltaSummary J.F64
  count_if_both (some old_ast) (some new_ast) d = count_delta (diff_default old_ast new_ast) d
  count_if_both _ _ d = d

  unfoldable pub delta_from :
      TimelineCommit J.F64 → NodeHash → J.F64 → Store S.D → DeltaSummary J.F64 × Store S.D
  unfolding parse_node_hash count_delta
  delta_from prev root_hash latency_ms cas =
      let d : DeltaSummary J.F64 = record (no_delta) {
        latency_delta_ms = J.sub latency_ms prev.latency_ms;
      } in
      elim (parse_node_hash prev.response_root_hash) [
        | none ↦ (d, cas)
        | some prev_hash ↦
            let (old_ast, cas') = fetch prev_hash cas in
            let (new_ast, cas'') = fetch root_hash cas' in (count_if_both old_ast new_ast d, cas'')
      ]

  abbrev pub delta_of :
      Option (TimelineCommit J.F64) → NodeHash → J.F64 → Store S.D → DeltaSummary J.F64 × Store S.D
  delta_of none root_hash latency_ms cas = (no_delta, cas)
  delta_of (some prev) root_hash latency_ms cas = delta_from prev root_hash latency_ms cas

  abbrev pub parent_id : Option (TimelineCommit J.F64) → Option String
  parent_id none = none
  parent_id (some p) = some p.commit_id

  -- The commit that is built: `timestamp` is what the clock reads.
  abbrev pub new_commit :
      Option (TimelineCommit J.F64)
      → DeltaSummary J.F64
      → String
      → NodeHash
      → J.F64
      → ℕ
      → ObservationSource
      → String
      → TimelineCommit J.F64
  unfolding as_bytes
  new_commit parent delta_summary endpoint_name root_hash latency_ms status_code source timestamp =
      let seed = endpoint_name <> ":" <> S.hex_encode root_hash <> ":" <> timestamp in
      record {
        commit_id = S.hex_encode (S.blake3 (as_bytes seed));
        endpoint_name = endpoint_name;
        parent_commit = parent_id parent;
        observed_at = timestamp;
        source = source;
        response_root_hash = S.hex_encode root_hash;
        latency_ms = latency_ms;
        status_code = status_code;
        structural_delta_summary = delta_summary;
      }

  unfoldable pub record_observation :
      Ledger J.F64
      → String
      → NodeHash
      → J.F64
      → ℕ
      → ObservationSource
      → String
      → Store S.D
      → Option (Ledger J.F64 × TimelineCommit J.F64) × Store S.D
  unfolding get_timeline delta_from append_commit
  record_observation files endpoint_name root_hash latency_ms status_code source timestamp cas =
      elim (get_timeline S.readable files endpoint_name 1) [
        | none ↦ (none, cas)
        | some history ↦
            let parent = first? history in
            let (delta_summary, cas') = delta_of parent root_hash latency_ms cas in
            let commit =
              new_commit parent delta_summary endpoint_name root_hash latency_ms status_code source
                timestamp in
            elim (append_commit S.writable files commit) [
              | none ↦ (none, cas')
              | some files' ↦ (some (files', commit), cas')
            ]
      ]

  -- `none` is an error of either hash or either tree.
  unfoldable pub diff_historical_commits :
      TimelineCommit J.F64
      → TimelineCommit J.F64
      → Store S.D
      → Option (DiffReport J.Number) × Store S.D
  unfolding parse_node_hash
  diff_historical_commits commit_a commit_b cas =
      elim (parse_node_hash commit_a.response_root_hash) [
        | none ↦ (none, cas)
        | some hash_a ↦ elim (parse_node_hash commit_b.response_root_hash) [
          | none ↦ (none, cas)
          | some hash_b ↦
              let (val_a, cas') = fetch hash_a cas in
              elim val_a [
                | none ↦ (none, cas')
                | some a ↦
                    let (val_b, cas'') = fetch hash_b cas' in
                    elim val_b [
                      | none ↦ (none, cas'')
                      | some b ↦
                          let diffs = diff_default a b in
                          (
                            some (record {
                              endpoint_name = commit_a.endpoint_name <> " (Timeline Diff)";
                              differences = diffs;
                              is_match = is_empty diffs;
                              expected_status = commit_a.status_code;
                              actual_status = commit_b.status_code;
                              trace_context = none;
                              trace_link = none;
                            }),
                            cas'',
                          )
                    ]
              ]
        ]
      ]
