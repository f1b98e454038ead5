-- ===== src/Openapi/Generate.antt =====
-- src/openapi/generate.rs: a specification from the recorded snapshots. The YAML printer and the
-- file that is written are left out, and so are the query parameters' order, which is a hash map's.
use Prim.Native.Char.{code}
use apisnap.Common.{
  ◌==◌, Bool, true, false, String, Option, none, some, List, [], ◌∷◌, Dict, insert, lookup,
  is_empty, map, ◌<>◌, show_ℕ, Result, ok, err, ◌>>=◌, if◌then◌else◌,
}
use apisnap.Error.{ApiSnapError}
use apisnap.Json.{Numbers, Value, null, bool, number, string, array, object, entries, from_list}
use apisnap.Config.{HttpMethod, get, post, put, patch, delete, head, options, EndpointConfig}
use apisnap.Snapshot.Files.{SnapshotFile, Crates, Io, new_store}
use apisnap.Snapshot.Store.{Dir, read_snapshot, exists}
use apisnap.Openapi.Infer.{json, infer_schema_from_value}

-- `endpoint.method.to_string().to_lowercase()`
abbrev pub method_key : HttpMethod → String
method_key get = "get"
method_key post = "post"
method_key put = "put"
method_key patch = "patch"
method_key delete = "delete"
method_key head = "head"
method_key options = "options"

-- How a method is printed.
abbrev pub method_name : HttpMethod → String
method_name get = "GET"
method_name post = "POST"
method_name put = "PUT"
method_name patch = "PATCH"
method_name delete = "DELETE"
method_name head = "HEAD"
method_name options = "OPTIONS"

-- `path.starts_with('/')`, and `normalize_path_key` of src/openapi/verify.rs, which is the same.
abbrev pub normalize_path_key : String → String
normalize_path_key String.[] = "/"
normalize_path_key (String.◌∷◌ c path) =
    if code c == b'/' then String.◌∷◌ c path else "/" <> String.◌∷◌ c path

module _ (J : Numbers) (K : Crates J.Number) (run : Io) (snapshot_dir : String) (d : Dir K) where
  -- What the loop has for an endpoint: no file, or what is read.
  unfoldable pub recorded : EndpointConfig J → Option (Result ApiSnapError (SnapshotFile J.Number))
  unfolding exists read_snapshot
  recorded endpoint =
      if exists K (new_store snapshot_dir) endpoint.name d
      then some (read_snapshot K (new_store snapshot_dir) run endpoint.name d).0
      else none

module _ (J : Numbers) (is_int : J.Number → Bool) where
  abbrev pub parameter_of : String × String → Value J.Number
  parameter_of (k, v) = json (
      ("name", string k)
      ∷ ("in", string "query")
      ∷ ("required", bool false)
      ∷ ("schema", json (("type", string "string") ∷ ("example", string v) ∷ []))
      ∷ [])

  -- `{ "application/json": { "schema": .. } }`
  abbrev pub json_content : Value J.Number → Value J.Number
  json_content schema = json (("application/json", json (("schema", schema) ∷ [])) ∷ [])

  abbrev pub with_parameters : Dict String → Dict (Value J.Number) → Dict (Value J.Number)
  with_parameters query_params operation_map =
      if is_empty query_params
      then operation_map
      else insert "parameters" (array (from_list (map parameter_of query_params))) operation_map

  abbrev pub with_request_body :
      Option (Value J.Number) → Dict (Value J.Number) → Dict (Value J.Number)
  with_request_body none operation_map = operation_map
  with_request_body (some body_val) operation_map =
      insert "requestBody"
        (json (
          ("required", bool true)
          ∷ ("content", json_content (infer_schema_from_value is_int body_val))
          ∷ []))
        operation_map

  abbrev pub responses_of : SnapshotFile J.Number → Value J.Number
  responses_of snapshot =
      let status = show_ℕ snapshot.metadata.status_code in
      json (
        (
          status,
          json (
              ("description", string ("HTTP " <> status <> " response recorded by ApiSnap"))
              ∷ ("content", json_content (infer_schema_from_value is_int snapshot.masked_body))
              ∷ []),
        )
        ∷ [])

  unfoldable pub operation_of : EndpointConfig J → SnapshotFile J.Number → Dict (Value J.Number)
  unfolding insert infer_schema_from_value
  operation_of endpoint snapshot = insert "responses" (responses_of snapshot) (
      with_request_body endpoint.body (
        with_parameters endpoint.query_params (
          insert "operationId" (string endpoint.name)
            (insert "summary" (string endpoint.name) []))))

  -- `paths_map.entry(path_key).or_insert_with(..)`, and the operation put into it.
  unfoldable pub add_operation :
      String → String → Value J.Number → Dict (Value J.Number) → Dict (Value J.Number)
  unfolding insert
  add_operation path_key method operation paths_map = elim (lookup path_key paths_map) [
    | none ↦ insert path_key (json (insert method operation [])) paths_map
    | some path_item ↦ elim path_item [
      | object item_obj ↦
          insert path_key (json (insert method operation (entries item_obj))) paths_map
      | null ↦ paths_map
      | bool b ↦ paths_map
      | number n ↦ paths_map
      | string s ↦ paths_map
      | array vs ↦ paths_map
    ]
  ]

  module _ (K : Crates J.Number) (run : Io) (snapshot_dir : String) (d : Dir K) where
    -- One round: no file, a file that cannot be read, or a snapshot.
    abbrev pub generate_one :
        EndpointConfig J
        → Option (Result ApiSnapError (SnapshotFile J.Number))
        → Dict (Value J.Number)
        → Result ApiSnapError (Dict (Value J.Number))
    unfolding operation_of add_operation
    generate_one endpoint none paths_map = ok paths_map
    generate_one endpoint (some (err e)) paths_map = err e
    generate_one endpoint (some (ok snapshot)) paths_map = ok (
        add_operation (normalize_path_key endpoint.path) (method_key endpoint.method)
          (json (operation_of endpoint snapshot)) paths_map)

    unfoldable pub generate_paths :
        List (EndpointConfig J)
        → Dict (Value J.Number)
        → Result ApiSnapError (Dict (Value J.Number))
    unfolding recorded operation_of add_operation
    generate_paths [] paths_map = ok paths_map
    generate_paths (endpoint ∷ endpoints) paths_map =
        generate_one endpoint (recorded J K run snapshot_dir d endpoint) paths_map >>= λ m.
        generate_paths endpoints m

    -- The document, before it is printed.
    unfoldable pub generate_openapi_spec :
        String → List (EndpointConfig J) → Result ApiSnapError (Value J.Number)
    unfolding generate_paths
    generate_openapi_spec base_url endpoints = generate_paths endpoints [] >>= λ paths_map. ok (
        json (
          ("openapi", string "3.1.0")
          ∷ (
            "info",
            json (
                ("title", string "ApiSnap Generated API Specification")
                ∷ ("version", string "1.0.0")
                ∷ (
                  "description",
                  string
                      "Automatically synthesized from golden snapshot regression fixtures by ApiSnap.",
                )
                ∷ []),
          )
          ∷ (
            "servers",
            array (
                from_list (
                  json (("url", string base_url) ∷ ("description", string "Target server") ∷ [])
                  ∷ [])),
          )
          ∷ ("paths", json paths_map)
          ∷ []))
