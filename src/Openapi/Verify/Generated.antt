-- ===== src/Openapi/Verify/Generated.antt =====
-- What was generated from the snapshots, checked against the snapshots.
use apisnap.Common.{
  ◌≡◌, ◌≢◌, ◌⊎◌, refl, sym, ap, ◌∙◌, inl, inr, Bool, String, Option, none, some, List, [], ◌∷◌,
  Dict, eq_iff, eq_refl, All, arith, Result, ok, err, ◌>>=◌,
}
use apisnap.Error.{ApiSnapError}
use apisnap.Json.{Numbers, Value}
use apisnap.Config.{EndpointConfig}
use apisnap.Snapshot.Files.{SnapshotFile, Crates, Io}
use apisnap.Snapshot.Store.{Dir}
use apisnap.Openapi.Infer.{json, infer_schema_from_value}
use apisnap.Openapi.Generate.{
  recorded, operation_of, add_operation, generate_one, generate_paths, method_key,
  normalize_path_key,
}
use apisnap.Openapi.Verify.{
  no_result, OpenApiVerifyResult, Validator, Specs, find_schema, matches, checked, validated,
  compiled, found, missing_message, validate_ast_against_openapi, validate_snapshot, verify_one,
  verify_endpoints,
}
use apisnap.Openapi.Verify.Operations.{
  operation_at, ObjectItems, empty-ObjectItems, operation_at-add_operation,
  add_operation-ObjectItems, find_schema-operation_at,
}

module _ (J : Numbers) (is_int : J.Number → Bool) where
  -- The endpoints have different routes: no other path and method.
  abbrev pub Apart : EndpointConfig J → EndpointConfig J → Type 0
  Apart a b =
      (normalize_path_key a.path ≡ normalize_path_key b.path)
      → method_key a.method ≢ method_key b.method

  abbrev pub DistinctRoutes : List (EndpointConfig J) → Type 0
  DistinctRoutes [] = Unit
  DistinctRoutes (ep ∷ eps) = All (λ other. Apart other ep) eps × DistinctRoutes eps

  module _ (K : Crates J.Number) (run : Io) (dir : String) (d : Dir K) where
    -- What the specification has for an endpoint: its operation, where a snapshot is recorded.
    abbrev Covers : Dict (Value J.Number) → EndpointConfig J → Type 0
    Covers paths ep =
        (recorded J K run dir d ep ≡ none)
        ⊎ ((snapshot : SnapshotFile J.Number) × (recorded J K run dir d ep ≡ some (ok snapshot))
            × (operation_at paths (normalize_path_key ep.path) (method_key ep.method)
                ≡ some (json (operation_of J is_int ep snapshot))))

    -- The specification differs from an earlier one at the routes of the endpoints only.
    abbrev Keeps : List (EndpointConfig J) → Dict (Value J.Number) → Dict (Value J.Number) → Type 0
    Keeps eps before after =
        (ep : EndpointConfig J)
        → All (λ other. Apart other ep) eps
        → operation_at after (normalize_path_key ep.path) (method_key ep.method)
          ≡ operation_at before (normalize_path_key ep.path) (method_key ep.method)

    add_operation-Keeps :
        (ep : EndpointConfig J) (op : Value J.Number) (paths : Dict (Value J.Number))
        → ObjectItems paths
        → Keeps
            (ep ∷ [])
            paths
            (add_operation J is_int (normalize_path_key ep.path) (method_key ep.method) op paths)
    add_operation-Keeps ep op paths ok_items other (apart, _) =
        operation_at-add_operation J is_int (normalize_path_key ep.path) (method_key ep.method)
          (normalize_path_key other.path) (method_key other.method) op paths ok_items
        ∙ ground (
          arith,
          apart,
          eq_iff (normalize_path_key ep.path) (normalize_path_key other.path),
          eq_iff (method_key ep.method) (method_key other.method),
        )

    add_operation-here :
        (ep : EndpointConfig J) (op : Value J.Number) (paths : Dict (Value J.Number))
        → ObjectItems paths
        → operation_at
            (add_operation J is_int (normalize_path_key ep.path) (method_key ep.method) op paths)
            (normalize_path_key ep.path)
            (method_key ep.method)
          ≡ some op
    add_operation-here ep op paths ok_items =
        operation_at-add_operation J is_int (normalize_path_key ep.path) (method_key ep.method)
          (normalize_path_key ep.path) (method_key ep.method) op paths ok_items
        ∙ ground (arith, eq_refl (normalize_path_key ep.path), eq_refl (method_key ep.method))

    Outcome : List (EndpointConfig J) → Dict (Value J.Number) → Dict (Value J.Number) → Type 0
    Outcome eps before after = Keeps eps before after × All (Covers after) eps

    generate_paths-Outcome :
        (eps : List (EndpointConfig J)) (before after : Dict (Value J.Number))
        → ObjectItems before
        → DistinctRoutes eps
        → generate_paths J is_int K run dir d eps before ≡ ok after
        → Outcome eps before after
    unfolding generate_paths Outcome
    generate_paths-Outcome [] before after ok_items routes done =
        let same : before ≡ after = ap (λ r. elim r [ ok x ↦ x | err e ↦ before ]) done in
        (
          λ ep apart.
              ap (λ m. operation_at m (normalize_path_key ep.path) (method_key ep.method))
                (sym same),
          tt,
        )
    generate_paths-Outcome (ep ∷ eps) before after ok_items (apart, routes) done =
        go (recorded J K run dir d ep) refl
          (λ m items. generate_paths-Outcome eps m after items routes) done
      where
        go :
            (o : Option (Result ApiSnapError (SnapshotFile J.Number)))
            → recorded J K run dir d ep ≡ o
            → ((m : Dict (Value J.Number))
                → ObjectItems m
                → generate_paths J is_int K run dir d eps m ≡ ok after
                → Outcome eps m after)
            → (generate_one J is_int K run dir d ep o before >>= λ m.
                generate_paths J is_int K run dir d eps m)
              ≡ ok after
            → Outcome (ep ∷ eps) before after
        go none is rest end =
            let (keeps, covers) = rest before ok_items end in
            (λ other far. keeps other far.1, (inl is, covers))
        go (some (err e)) is rest end = cc
        go (some (ok snapshot)) is rest end =
            let op = json (operation_of J is_int ep snapshot) in
            let now =
              add_operation J is_int (normalize_path_key ep.path) (method_key ep.method) op
                before in
            let (keeps, covers) =
              rest now
                (add_operation-ObjectItems J is_int (normalize_path_key ep.path)
                  (method_key ep.method) op before ok_items)
                end in
            (
              λ other far.
                  keeps other far.1 ∙ add_operation-Keeps ep op before ok_items other (far.0, tt),
              (
                inr (snapshot, is, keeps ep apart ∙ add_operation-here ep op before ok_items),
                covers,
              ),
            )

    module _ (V : Validator J.Number) (S : Specs J.Number) where
      -- The validator takes a recorded body by the schema that is inferred from it.
      abbrev pub SelfValid : EndpointConfig J → Type 0
      SelfValid ep =
          (snapshot : SnapshotFile J.Number)
          → recorded J K run dir d ep ≡ some (ok snapshot)
          → (c : V.Schema) × (V.compile (infer_schema_from_value is_int snapshot.masked_body)
              ≡ ok c)
            × (V.validate c snapshot.masked_body ≡ [])

      -- It ends, with nothing to report beyond what there was.
      abbrev pub EndsClean :
          Dict (Value J.Number) → List (EndpointConfig J) → OpenApiVerifyResult → Type 0
      EndsClean paths eps r =
          (e : OpenApiVerifyResult) × (verify_endpoints J V S paths K run dir d eps r ≡ ok e)
          × (e.drift_count ≡ r.drift_count)
          × (e.errors ≡ r.errors)

      found-valid :
          (paths : Dict (Value J.Number)) (body schema : Value J.Number) (name missing : String)
          (c : V.Schema) (o : Option (Value J.Number)) (r : OpenApiVerifyResult)
          → o ≡ some schema
          → V.compile schema ≡ ok c
          → V.validate c body ≡ []
          → found J V S paths body name missing o r ≡ matches r
      found-valid paths body schema name missing c o r h hc hv =
          ap (λ x. found J V S paths body name missing x r) h
          ∙ ap (λ x. compiled J V S paths body name x r) hc
          ∙ ap (λ x. validated J V S paths name x r) hv

      validate_snapshot-valid :
          (paths : Dict (Value J.Number)) (ep : EndpointConfig J) (snapshot : SnapshotFile J.Number)
          (r : OpenApiVerifyResult)
          → operation_at paths (normalize_path_key ep.path) (method_key ep.method)
            ≡ some (json (operation_of J is_int ep snapshot))
          → ((c : V.Schema) × (V.compile (infer_schema_from_value is_int snapshot.masked_body)
                ≡ ok c)
              × (V.validate c snapshot.masked_body ≡ []))
          → validate_snapshot J V S paths ep snapshot r ≡ matches r
      unfolding validate_ast_against_openapi
      validate_snapshot-valid paths ep snapshot r there (c, hc, hv) =
          found-valid paths snapshot.masked_body
            (infer_schema_from_value is_int snapshot.masked_body) ep.name
            (missing_message J V S paths ep.name (method_key ep.method) (normalize_path_key ep.path)
              snapshot.metadata.status_code)
            c
            (find_schema paths (normalize_path_key ep.path) (method_key ep.method)
              snapshot.metadata.status_code)
            r
            (find_schema-operation_at J is_int paths ep snapshot (normalize_path_key ep.path)
              (method_key ep.method) there)
            hc hv

      verify_endpoints-EndsClean :
          (paths : Dict (Value J.Number)) (eps : List (EndpointConfig J)) (r : OpenApiVerifyResult)
          → All (Covers paths) eps
          → All SelfValid eps
          → EndsClean paths eps r
      unfolding verify_endpoints
      verify_endpoints-EndsClean paths [] r covers valid = (r, refl, refl, refl)
      verify_endpoints-EndsClean paths (ep ∷ eps) r (inl is, covers) (_, valid) =
          let (e, ends, drift, errors) = verify_endpoints-EndsClean paths eps r covers valid in
          (
            e,
            ap
                  (λ o. verify_one J V S paths ep o r >>= λ x.
                    verify_endpoints J V S paths K run dir d eps x)
                  is
                ∙ ends,
            drift,
            errors,
          )
      verify_endpoints-EndsClean paths (ep ∷ eps) r (inr (snapshot, is, there), covers)
            (self, valid) =
          let (e, ends, drift, errors) =
            verify_endpoints-EndsClean paths eps (matches (checked r)) covers valid in
          (
            e,
            ap
                  (λ o. verify_one J V S paths ep o r >>= λ x.
                    verify_endpoints J V S paths K run dir d eps x)
                  is
                ∙ ap (λ x. verify_endpoints J V S paths K run dir d eps x)
                    (validate_snapshot-valid paths ep snapshot (checked r) there (self snapshot is))
                ∙ ends,
            drift,
            errors,
          )

      -- A specification that is generated from the recorded snapshots, checked against the same
      -- snapshots, ends with no drift and no message, where no two endpoints have the same path and
      -- method, and the validator takes each recorded body by the schema inferred from it.
      pub verify_endpoints-generate_paths :
          (eps : List (EndpointConfig J)) (paths : Dict (Value J.Number))
          → generate_paths J is_int K run dir d eps [] ≡ ok paths
          → DistinctRoutes eps
          → All SelfValid eps
          → EndsClean paths eps no_result
      unfolding Outcome
      verify_endpoints-generate_paths eps paths made routes valid =
          let (_, covers) =
            generate_paths-Outcome eps [] paths (empty-ObjectItems J is_int) routes made in
          verify_endpoints-EndsClean paths eps no_result covers valid
