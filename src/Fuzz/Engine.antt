-- ===== src/Fuzz/Engine.antt =====
-- src/fuzz/engine.rs and `handle_fuzz` of src/cli/commands.rs: the mutated bodies are sent one after
-- the other, and an answer that is a crash, or leaks a stack trace, is an anomaly.
pub mod Accounts
pub mod Resilient
use text.Mathlib.Text.{find?}
use apisnap.Common.{
  ℕ, zero, suc, ◌+◌, ℤ, String, Bool, true, false, ◌||◌, Option, none, some, List, [], ◌∷◌, ◌++◌,
  length, is_empty, leb, ltb, ◌<>◌, show_ℕ, Result, ok, err, if◌then◌else◌,
}
use apisnap.Error.{ApiSnapError, fuzz_anomaly_detected}
use apisnap.Json.{Numbers, Value, object, end}
use apisnap.Config.{EndpointConfig, ApiSnapConfig}
use apisnap.Cli.{RawResponse, filter_endpoints}
use apisnap.Fuzz.Mutator.{MutationCase, generate_mutations}

pub record FuzzResult : Type 0 where
  pub mutation_name : String
  pub description : String
  pub status_code : ℕ
  pub duration_ms : ℕ
  pub is_anomaly : Bool
  pub anomaly_reason : Option String

pub record FuzzReport : Type 0 where
  pub endpoint_name : String
  pub total_mutations : ℕ
  pub resilient_count : ℕ
  pub anomaly_count : ℕ
  pub results : List FuzzResult

-- `s.contains(pattern)`
abbrev pub contains_text : String → String → Bool
contains_text s pattern = elim (find? s pattern) [ none ↦ false | some at ↦ true ]

unfoldable pub has_stack_trace : String → Bool
has_stack_trace body_str =
    contains_text body_str "Traceback (most recent call last)"
    || (contains_text body_str "panic: runtime error"
        || (contains_text body_str "NullPointerException"
            || contains_text body_str "FATAL EXCEPTION"))

-- What the engine calls: the executor, whose answer may depend on the calls before (`calls` of them
-- by this command), the text of a body, the text of an error, and a number from an `i64`.
pub record Fuzzing (J : Numbers) : Type 0 where
  pub execute : (calls : ℕ) → EndpointConfig J → Result ApiSnapError (RawResponse J.Number)
  pub to_string : Value J.Number → String
  pub display : ApiSnapError → String
  pub from_i64 : ℤ → J.Number

module _ (J : Numbers) (F : Fuzzing J) where
  abbrev pub mutated_endpoint : EndpointConfig J → MutationCase J.Number → EndpointConfig J
  mutated_endpoint endpoint case = record endpoint { body = some case.mutated_body }

  unfoldable pub judge :
      MutationCase J.Number → Result ApiSnapError (RawResponse J.Number) → FuzzResult
  unfolding has_stack_trace
  judge case (ok raw_res) =
      let trace = has_stack_trace (F.to_string raw_res.body) in
      record {
        mutation_name = case.name;
        description = case.description;
        status_code = raw_res.status_code;
        duration_ms = raw_res.duration_ms;
        is_anomaly = leb 500 raw_res.status_code || trace;
        anomaly_reason =
            if leb 500 raw_res.status_code
            then some ("Server crashed with HTTP " <> show_ℕ raw_res.status_code)
            else if trace
            then some "Unhandled exception stack trace leaked in response body"
            else none;
      }
  judge case (err e) = record {
    mutation_name = case.name;
    description = case.description;
    status_code = 0;
    duration_ms = 0;
    is_anomaly = true;
    anomaly_reason = some ("Network / Connection Failure: " <> F.display e);
  }

  -- The variables of the loop.
  pub record Tally : Type 0 where
    pub results : List FuzzResult
    pub anomaly_count : ℕ
    pub resilient_count : ℕ

  abbrev pub push_result : FuzzResult → Tally → Tally
  push_result r t = record {
    results = t.results ++ r ∷ [];
    anomaly_count = if r.is_anomaly then t.anomaly_count + 1 else t.anomaly_count;
    resilient_count = if r.is_anomaly then t.resilient_count else t.resilient_count + 1;
  }

  unfoldable pub run_cases : EndpointConfig J → ℕ → List (MutationCase J.Number) → Tally → Tally
  unfolding judge
  run_cases endpoint calls [] t = t
  run_cases endpoint calls (case ∷ mutations) t =
      run_cases endpoint (suc calls) mutations
        (push_result (judge case (F.execute calls (mutated_endpoint endpoint case))) t)

  abbrev pub baseline_body : EndpointConfig J → Value J.Number
  baseline_body endpoint = elim endpoint.body [ some body ↦ body | none ↦ object end ]

  abbrev pub mutations_of : EndpointConfig J → List (MutationCase J.Number)
  mutations_of endpoint = generate_mutations F.from_i64 (baseline_body endpoint)

  unfoldable pub run_fuzz : ℕ → EndpointConfig J → FuzzReport
  unfolding run_cases generate_mutations
  run_fuzz calls endpoint =
      let t =
        run_cases endpoint calls (mutations_of endpoint)
          (record { results = []; anomaly_count = 0; resilient_count = 0 }) in
      record {
        endpoint_name = endpoint.name;
        total_mutations = length t.results;
        resilient_count = t.resilient_count;
        anomaly_count = t.anomaly_count;
        results = t.results;
      }

  -- The loop over the endpoints, with `total_anomalies`.
  unfoldable pub fuzz_endpoints : ℕ → List (EndpointConfig J) → ℕ → ℕ
  unfolding run_fuzz
  fuzz_endpoints calls [] total_anomalies = total_anomalies
  fuzz_endpoints calls (ep ∷ endpoints) total_anomalies =
      fuzz_endpoints (calls + length (mutations_of ep)) endpoints
        (total_anomalies + (run_fuzz calls ep).anomaly_count)

  -- The command, without its output.
  unfoldable pub handle_fuzz : ApiSnapConfig J → Option String → Result {0, 0} ApiSnapError Unit
  unfolding fuzz_endpoints
  handle_fuzz config endpoint_name =
      let endpoints = filter_endpoints config.endpoints endpoint_name in
      let total_anomalies = fuzz_endpoints 0 endpoints 0 in
      if is_empty endpoints
      then ok tt
      else if ltb 0 total_anomalies
      then err (fuzz_anomaly_detected total_anomalies)
      else ok tt
