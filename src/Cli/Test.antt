-- ===== src/Cli/Test.antt =====
-- src/cli/commands.rs: `handle_test`, the loop over the responses and its verdict. Reading does not
-- change the directory; the printing of the reports is left out.
pub mod Verdict
use apisnap.Common.{
  ℕ, zero, suc, ◌+◌, ltb, String, Bool, true, false, not, ◌&&◌, ◌||◌, Option, none, some, List, [],
  ◌∷◌, ◌++◌, map, Result, ok, err, ◌>>=◌, ◌==◌, if◌then◌else◌, is_empty,
}
use apisnap.Error.{ApiSnapError, diff_mismatch}
use apisnap.Json.{Numbers, Value}
use apisnap.Config.{EndpointConfig, ApiSnapConfig}
use apisnap.Engine.Differ.{DiffReport, DiffKind, passed}
use apisnap.Snapshot.Approvals.{ApprovalLedger, File, load_from_dir, is_approved}
use apisnap.Crypto.{SnapshotEncryptor}
use apisnap.Snapshot.Files.{SnapshotStore, new_store, with_encryptor, Io}
use apisnap.Snapshot.Store.{Dir, read_snapshot}
use apisnap.Cli.Dispatch.{Event, dispatch_requests}
use apisnap.Cli.{
  RawResponse, Program, Round, Fetched, filter_endpoints, masked_body_of, differences_of,
}

module _ (J : Numbers) (P : Program J) (config : ApiSnapConfig J) (store : SnapshotStore)
    (dir : Dir P.K) (approval_ledger : ApprovalLedger) where
  -- The link is there where the endpoint failed or the status is another one.
  abbrev pub trace_link_of : EndpointConfig J → RawResponse J.Number → Bool → Option String
  trace_link_of endpoint raw_res is_match = elim raw_res.trace_context [
    | none ↦ none
    | some (trace_str, link) ↦
        if not is_match || not (raw_res.status_code == endpoint.expected_status)
        then some link
        else none
  ]

  abbrev pub trace_of : RawResponse J.Number → Option String
  trace_of raw_res = elim raw_res.trace_context [
    | none ↦ none
    | some (trace_str, link) ↦ some trace_str
  ]

  unfoldable pub report_of :
      EndpointConfig J → RawResponse J.Number → List (DiffKind J.Number) → DiffReport J.Number
  unfolding is_approved
  report_of endpoint raw_res differences = record {
    endpoint_name = endpoint.name;
    differences = differences;
    is_match = is_empty differences || is_approved endpoint.name approval_ledger;
    expected_status = endpoint.expected_status;
    actual_status = raw_res.status_code;
    trace_context = trace_of raw_res;
    trace_link = trace_link_of endpoint raw_res (is_empty differences);
  }

  -- One round of the loop.
  unfoldable pub test_one : Fetched J → Result ApiSnapError (DiffReport J.Number)
  unfolding read_snapshot masked_body_of differences_of report_of
  test_one f = f.raw_res_result >>= λ raw_res.
      (read_snapshot P.K store f.round.run f.endpoint.name dir).0 >>= λ stored_snapshot. ok (
        report_of f.endpoint raw_res (
          differences_of J P config f.endpoint stored_snapshot.masked_body
            (masked_body_of J P config f.endpoint raw_res.body)))

  -- The loop, with the reports and the number of mismatches. An error ends it.
  unfoldable pub test_results :
      List (Fetched J) → Result ApiSnapError (List (DiffReport J.Number) × ℕ)
  unfolding test_one passed
  test_results [] = ok ([], 0)
  test_results (f ∷ results) = test_one f >>= λ report. test_results results >>= λ rest.
      ok (report ∷ rest.0, (if passed report then 0 else 1) + rest.1)

  -- The end of the command.
  abbrev pub verdict : List (DiffReport J.Number) × ℕ → Result ApiSnapError (Unit {0})
  verdict (reports, total_mismatches) =
      if ltb 0 total_mismatches then err (diff_mismatch "test_suite" total_mismatches) else ok tt

  unfoldable pub test_all : List (Fetched J) → Result ApiSnapError (Unit {0})
  unfolding test_results
  test_all results = test_results results >>= verdict

-- What a task of the dispatch ends with.
abbrev pub Response : Numbers → Type 0
Response J = Result ApiSnapError (RawResponse J.Number) × Round

abbrev pub fetched : {J : Numbers} → EndpointConfig J × Response J → Fetched J
fetched (endpoint, (raw_res_result, round)) = record {
  endpoint = endpoint;
  raw_res_result = raw_res_result;
  round = round;
}

module _ (J : Numbers) (P : Program J) (config : ApiSnapConfig J) where
  -- `SnapshotStore::new(..).with_encryptor(..)`
  abbrev pub test_store : Option SnapshotEncryptor → SnapshotStore
  test_store encryptor = with_encryptor encryptor (new_store config.snapshot_dir)

  -- `load_from_dir(..).unwrap_or_default()`
  abbrev pub approvals_of : File → ApprovalLedger
  approvals_of file = elim (load_from_dir file) [ some approvals ↦ approvals | none ↦ [] ]

  -- `concurrency_override.unwrap_or(config.concurrency)`
  abbrev pub concurrency_of : Option ℕ → ℕ
  concurrency_of none = config.concurrency
  concurrency_of (some n) = n

  -- The command on the endpoints themselves, not on two branch pointers; `none` where the requests
  -- have not ended with these events.
  unfoldable pub handle_test :
      Option SnapshotEncryptor
      → Dir P.K
      → File
      → Option String
      → Option ℕ
      → List (Event (Response J))
      → Option (Result ApiSnapError (Unit {0}))
  unfolding dispatch_requests test_all
  handle_test encryptor dir file endpoint_filter concurrency_override events =
      let filtered_endpoints = filter_endpoints config.endpoints endpoint_filter in
      if is_empty filtered_endpoints
      then some (ok tt)
      else elim (dispatch_requests (concurrency_of concurrency_override) filtered_endpoints
          events) [
            | none ↦ none
            | some results ↦ some (
                test_all J P config (test_store encryptor) dir (approvals_of file)
                  (map fetched results))
          ]
