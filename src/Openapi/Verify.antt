-- ===== src/Openapi/Verify.antt =====
-- src/openapi/verify.rs and `handle_openapi_verify` of src/cli/commands.rs: bodies against a
-- specification. The crate `jsonschema`, the two parsers and the file are parameters.
pub mod Counts
pub mod Operations
pub mod Generated
use Prim.Native.String
use apisnap.Common.{
  ℕ, ◌+◌, ◌==◌, ◌||◌, Bool, true, false, String, Option, none, some, List, [], ◌∷◌, ◌++◌, Dict,
  lookup, is_empty, map, ◌<>◌, show_ℕ, str_eq, Result, ok, err, ◌>>=◌, if◌then◌else◌,
}
use apisnap.Error.{ApiSnapError, invalid_config, io, open_api_drift}
use apisnap.Json.{Numbers, Value, null, bool, number, string, array, object, Fields, entries}
use apisnap.Config.{HttpMethod, EndpointConfig, ApiSnapConfig}
use apisnap.Snapshot.Files.{SnapshotFile, Crates, Io}
use apisnap.Snapshot.Store.{Dir}
use apisnap.Cli.{RawResponse, Program, masked_body_of}
use apisnap.Openapi.Generate.{method_name, method_key, normalize_path_key, recorded}

pub record OpenApiVerifyResult : Type 0 where
  pub total_endpoints_checked : ℕ
  pub matched_count : ℕ
  pub drift_count : ℕ
  pub errors : List String

-- `JSONSchema::compile`, and the messages of `validate`, none for a valid body.
pub record Validator (N : Type 0) : Type 1 where
  pub Schema : Type 0
  pub compile : Value N → Result String Schema
  pub validate : Schema → Value N → List String

-- The file system, the parsers, and texts.
pub record Specs (N : Type 0) : Type 0 where
  pub read_to_string : String → Option String
  pub from_yaml : String → Result String (Value N)
  pub from_json : String → Result String (Value N)
  pub to_uppercase : String → String
  pub display : ApiSnapError → String

abbrev pub ends_with : String → String → Bool
ends_with String.[] suffix = str_eq "" suffix
ends_with (String.◌∷◌ c s) suffix = str_eq (String.◌∷◌ c s) suffix || ends_with s suffix

abbrev pub join_lines : List String → String
join_lines [] = ""
join_lines (s ∷ []) = s
join_lines (s ∷ t ∷ lines) = s <> "\n" <> join_lines (t ∷ lines)

module _ {N : Type 0} where
  -- `value.get(key)`
  abbrev pub get_key : String → Value N → Option (Value N)
  get_key k (object fs) = lookup k (entries fs)
  get_key k _ = none

  abbrev pub and_then : Option (Value N) → (Value N → Option (Value N)) → Option (Value N)
  and_then none f = none
  and_then (some v) f = f v

  abbrev pub or_else : Option (Value N) → Option (Value N) → Option (Value N)
  or_else none o = o
  or_else (some v) o = some v

  unfoldable pub find_schema : Dict (Value N) → String → String → ℕ → Option (Value N)
  find_schema paths_obj path_key method_lower status_code =
      let responses =
        and_then (and_then (lookup path_key paths_obj) (λ p. get_key method_lower p))
          (λ op. get_key "responses" op) in
      let resp =
        and_then responses
          (λ resps. or_else (get_key (show_ℕ status_code) resps) (get_key "default" resps)) in
      let media = and_then (and_then resp (λ r. get_key "content" r)) (λ c.
        or_else (get_key "application/json" c)
          (or_else (get_key "application/grpc+json" c) (get_key "*/*" c))) in
      and_then media (λ m. get_key "schema" m)

  unfoldable pub load_openapi_spec : Specs N → String → Result ApiSnapError (Value N)
  load_openapi_spec S spec_path = elim (S.read_to_string spec_path) [
    | none ↦ err (io spec_path)
    | some spec_content ↦
        if ends_with spec_path ".yaml" || ends_with spec_path ".yml"
        then elim (S.from_yaml spec_content) [
          | ok v ↦ ok v
          | err e ↦ err (invalid_config spec_path ("invalid OpenAPI YAML syntax: " <> e))
        ]
        else elim (S.from_json spec_content) [
          | ok v ↦ ok v
          | err e ↦ err (invalid_config spec_path ("invalid OpenAPI JSON syntax: " <> e))
        ]
  ]

  unfoldable pub extract_paths_object : Value N → String → Result ApiSnapError (Dict (Value N))
  extract_paths_object spec_val spec_path = elim (get_key "paths" spec_val) [
    | none ↦ err (invalid_config spec_path "missing 'paths' object in OpenAPI specification")
    | some p ↦ elim p [
      | object fs ↦ ok (entries fs)
      | null ↦ err (invalid_config spec_path "missing 'paths' object in OpenAPI specification")
      | bool b ↦ err (invalid_config spec_path "missing 'paths' object in OpenAPI specification")
      | number n ↦ err (invalid_config spec_path "missing 'paths' object in OpenAPI specification")
      | string s ↦ err (invalid_config spec_path "missing 'paths' object in OpenAPI specification")
      | array vs ↦ err (invalid_config spec_path "missing 'paths' object in OpenAPI specification")
    ]
  ]

-- The counters that the loops pass by reference, with `total_checked`.
abbrev pub no_result : OpenApiVerifyResult
no_result = record { total_endpoints_checked = 0; matched_count = 0; drift_count = 0; errors = [] }

abbrev pub drifted : String → OpenApiVerifyResult → OpenApiVerifyResult
drifted message r = record r { drift_count = r.drift_count + 1; errors = r.errors ++ message ∷ [] }

abbrev pub matches : OpenApiVerifyResult → OpenApiVerifyResult
matches r = record r { matched_count = r.matched_count + 1 }

abbrev pub checked : OpenApiVerifyResult → OpenApiVerifyResult
checked r = record r { total_endpoints_checked = r.total_endpoints_checked + 1 }

module _ (J : Numbers) (V : Validator J.Number) (S : Specs J.Number)
    (paths_obj : Dict (Value J.Number)) where
  abbrev pub missing_message : String → String → String → ℕ → String
  missing_message endpoint_name method path_key status_code =
      "Endpoint '"
      <> endpoint_name
      <> "' ("
      <> S.to_uppercase method
      <> " "
      <> path_key
      <> "): Missing schema definition in OpenAPI spec for status "
      <> show_ℕ status_code

  -- The result of `validate`, of `compile`, and of the search for a schema.
  abbrev pub validated : String → List String → OpenApiVerifyResult → OpenApiVerifyResult
  validated endpoint_name [] r = matches r
  validated endpoint_name (e ∷ es) r =
      drifted
        ("Endpoint '" <> endpoint_name <> "' schema contract violation:\n" <> join_lines (e ∷ es)) r

  abbrev pub compiled :
      Value J.Number → String → Result String V.Schema → OpenApiVerifyResult → OpenApiVerifyResult
  compiled body endpoint_name (ok schema) r = validated endpoint_name (V.validate schema body) r
  compiled body endpoint_name (err e) r =
      drifted ("Endpoint '" <> endpoint_name <> "' invalid OpenAPI JSONSchema definition: " <> e) r

  abbrev pub found :
      Value J.Number
      → String
      → (missing : String) → Option (Value J.Number)
      → OpenApiVerifyResult
      → OpenApiVerifyResult
  found body endpoint_name missing none r = drifted missing r
  found body endpoint_name missing (some schema) r =
      compiled body endpoint_name (V.compile schema) r

  unfoldable pub validate_ast_against_openapi :
      Value J.Number → ℕ → String → String → String → OpenApiVerifyResult → OpenApiVerifyResult
  unfolding find_schema
  validate_ast_against_openapi body status_code endpoint_name method path_key r =
      found body endpoint_name (missing_message endpoint_name method path_key status_code)
        (find_schema paths_obj path_key method status_code) r

  abbrev pub validate_snapshot :
      EndpointConfig J → SnapshotFile J.Number → OpenApiVerifyResult → OpenApiVerifyResult
  validate_snapshot endpoint snapshot r =
      validate_ast_against_openapi snapshot.masked_body snapshot.metadata.status_code endpoint.name
        (method_key endpoint.method) (normalize_path_key endpoint.path) r

  -- One round: no file, a file that cannot be read, or a snapshot.
  abbrev pub verify_one :
      EndpointConfig J
      → Option (Result ApiSnapError (SnapshotFile J.Number))
      → OpenApiVerifyResult
      → Result ApiSnapError OpenApiVerifyResult
  verify_one endpoint none r = ok r
  verify_one endpoint (some (err e)) r = err e
  verify_one endpoint (some (ok snapshot)) r = ok (validate_snapshot endpoint snapshot (checked r))

  -- The recorded snapshots.
  module _ (K : Crates J.Number) (run : Io) (snapshot_dir : String) (d : Dir K) where
    unfoldable pub verify_endpoints :
        List (EndpointConfig J) → OpenApiVerifyResult → Result ApiSnapError OpenApiVerifyResult
    unfolding recorded validate_ast_against_openapi
    verify_endpoints [] r = ok r
    verify_endpoints (endpoint ∷ endpoints) r =
        verify_one endpoint (recorded J K run snapshot_dir d endpoint) r >>= λ r'.
        verify_endpoints endpoints r'

  -- The live answers: each endpoint with what the executor gave for it.
  module _ (P : Program J) (config : ApiSnapConfig J) where
    abbrev pub network_message : EndpointConfig J → ApiSnapError → String
    network_message endpoint e =
        "Live network failure querying '"
        <> endpoint.name
        <> "' ("
        <> method_name endpoint.method
        <> " "
        <> endpoint.path
        <> "): "
        <> S.display e

    unfoldable pub verify_live :
        List (EndpointConfig J × Result ApiSnapError (RawResponse J.Number))
        → OpenApiVerifyResult
        → OpenApiVerifyResult
    unfolding masked_body_of validate_ast_against_openapi
    verify_live [] r = r
    verify_live ((endpoint, err e) ∷ answers) r =
        verify_live answers (drifted (network_message endpoint e) (checked r))
    verify_live ((endpoint, ok raw_res) ∷ answers) r = verify_live answers (
        validate_ast_against_openapi (masked_body_of J P config endpoint raw_res.body)
          raw_res.status_code endpoint.name (method_key endpoint.method)
          (normalize_path_key endpoint.path) (checked r))

-- `verify_openapi_spec`
unfoldable pub verify_openapi_spec :
    (J : Numbers)
    → Validator J.Number
    → Specs J.Number
    → (K : Crates J.Number) → Io
    → Dir K
    → ApiSnapConfig J
    → String
    → Result ApiSnapError OpenApiVerifyResult
unfolding load_openapi_spec extract_paths_object verify_endpoints
verify_openapi_spec J V S K run d config spec_path = load_openapi_spec S spec_path >>= (λ spec_val.
    extract_paths_object spec_val spec_path >>= (λ paths_obj.
      verify_endpoints J V S paths_obj K run config.snapshot_dir d config.endpoints no_result))

-- The end of the command, without its output.
unfoldable pub report_drift : OpenApiVerifyResult → Result {0, 0} ApiSnapError Unit
report_drift result =
    if is_empty result.errors then ok tt else err (open_api_drift result.drift_count)
