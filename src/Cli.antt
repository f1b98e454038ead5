-- ===== src/Cli.antt =====
-- src/cli/commands.rs: the commands `record` and `test`, between the network and the terminal. The
-- parts of the program are put together here.
pub mod Dispatch
pub mod Test
pub mod Record
pub mod Branches
use apisnap.Common.{
  ℕ, String, Bool, true, false, Option, none, some, List, [], ◌∷◌, Dict, Result, ok, err, str_eq,
  if◌then◌else◌, is_empty,
}
use apisnap.Error.{ApiSnapError}
use apisnap.Json.{Numbers, Value}
use apisnap.Config.{MaskingConfig, EndpointConfig, ApiSnapConfig, CustomMaskRule}
use apisnap.Engine.Differ.{DiffOptions, DiffKind, compare_json_ast}
use apisnap.Engine.Masker.{MaskContext, new_context, mask_value}
use apisnap.Snapshot.Files.{Crates, Io}

-- What the executors return; the trace is its header and its link to the tracing backend, as
-- src/telemetry/otel.rs renders them.
pub record RawResponse (N : Type 0) : Type 0 where
  pub body : Value N
  pub status_code : ℕ
  pub headers : Dict String
  pub duration_ms : ℕ
  pub trace_context : Option (String × String)

-- The crates, and the comparison's parameters.
pub record Program (J : Numbers) : Type 1 where
  pub K : Crates J.Number
  pub nfc : String → String
  pub value_eq : Value J.Number → Value J.Number → Bool

-- What a round of a command's loop gets from outside: which calls succeed, the random nonce, and what
-- the clock reads at the observation and at the snapshot.
pub record Round : Type 0 where
  pub run : Io
  pub nonce : List ℕ
  pub observed_at : String
  pub recorded_at : String

-- An endpoint and what came back from it.
pub record Fetched (J : Numbers) : Type 0 where
  pub endpoint : EndpointConfig J
  pub raw_res_result : Result ApiSnapError (RawResponse J.Number)
  pub round : Round

abbrev pub filter_endpoints :
    {J : Numbers} → List (EndpointConfig J) → Option String → List (EndpointConfig J)
filter_endpoints endpoints none = endpoints
filter_endpoints [] (some name) = []
filter_endpoints (ep ∷ endpoints) (some name) =
    let rest = filter_endpoints endpoints (some name) in
    if str_eq ep.name name then ep ∷ rest else rest

module _ (J : Numbers) (P : Program J) (config : ApiSnapConfig J) where
  -- `MaskContext::new(..).with_max_depth(..)`
  abbrev pub context_of : EndpointConfig J → MaskContext P.K.patterns.Regex
  context_of endpoint = record (new_context P.K.patterns config.masking endpoint.mask_overrides) {
    max_depth = config.max_depth;
  }

  -- The body as it is recorded and compared.
  unfoldable pub masked_body_of : EndpointConfig J → Value J.Number → Value J.Number
  unfolding mask_value new_context
  masked_body_of endpoint body = mask_value P.K.patterns (context_of endpoint) body

  abbrev pub options_of : EndpointConfig J → DiffOptions J.F64
  options_of endpoint = record {
    float_epsilon = elim endpoint.float_epsilon_override [
      | some eps ↦ eps
      | none ↦ config.float_epsilon
    ];
    normalize_unicode_keys = config.normalize_unicode_keys;
    max_depth = config.max_depth;
    fast_hash_bypass = true;
    array_modes = endpoint.array_modes;
  }

  unfoldable pub differences_of :
      EndpointConfig J → Value J.Number → Value J.Number → List (DiffKind J.Number)
  unfolding compare_json_ast
  differences_of endpoint expected actual =
      compare_json_ast J P.nfc (options_of endpoint) P.value_eq expected actual
