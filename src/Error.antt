-- ===== src/Error.antt =====
-- src/error.rs: the error type of the program and its exit codes. The foreign error that a variant
-- carries as its `source` is left out; where its text is part of a reason, it is part here too.
use apisnap.Common.{ℕ, String}

pub data ApiSnapError : Type 0 where
  io : (path : String) → ApiSnapError
  network : (url : String) → ApiSnapError
  timeout : (url : String) (timeout_ms : ℕ) → ApiSnapError
  invalid_config : (location reason : String) → ApiSnapError
  malformed_json : (context : String) → ApiSnapError
  snapshot_not_found : (endpoint_name expected_path : String) → ApiSnapError
  diff_mismatch : (endpoint_name : String) (diff_count : ℕ) → ApiSnapError
  fuzz_anomaly_detected : (total_anomalies : ℕ) → ApiSnapError
  open_api_drift : (drift_count : ℕ) → ApiSnapError
  execution : String → ApiSnapError

unfoldable pub exit_code : ApiSnapError → ℕ
exit_code (diff_mismatch name n) = 1
exit_code (fuzz_anomaly_detected n) = 1
exit_code (open_api_drift n) = 1
exit_code (network url) = 2
exit_code (timeout url ms) = 2
exit_code (io path) = 3
exit_code (invalid_config location reason) = 3
exit_code (malformed_json context) = 3
exit_code (snapshot_not_found name path) = 3
exit_code (execution s) = 3
