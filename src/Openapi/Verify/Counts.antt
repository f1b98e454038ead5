-- ===== src/Openapi/Verify/Counts.antt =====
-- The counts of a verification, and when the command passes.
use apisnap.Common.{
  ok_inj, ℕ, ◌+◌, ◌≡◌, ◌↔◌, refl, subst, true, String, Option, none, some, List, [], ◌∷◌, Dict,
  length, length-append, arith, Result, ok, err, ◌>>=◌, is_empty,
}
use apisnap.Error.{ApiSnapError}
use apisnap.Json.{Numbers, Value}
use apisnap.Config.{EndpointConfig, ApiSnapConfig}
use apisnap.Snapshot.Files.{SnapshotFile, Crates, Io}
use apisnap.Snapshot.Store.{Dir}
use apisnap.Cli.{RawResponse, Program, masked_body_of}
use apisnap.Openapi.Generate.{recorded, method_key, normalize_path_key}
use apisnap.Openapi.Verify.{
  OpenApiVerifyResult, Validator, Specs, find_schema, load_openapi_spec, extract_paths_object,
  missing_message, validated, compiled, found, verify_one, no_result, drifted, matches, checked,
  validate_ast_against_openapi, verify_endpoints, verify_live, network_message, verify_openapi_spec,
  report_drift,
}

-- Each endpoint that is checked either matches or drifts, and each drift has one message.
abbrev pub IsBalanced : OpenApiVerifyResult → Type 0
IsBalanced r =
    (r.matched_count + r.drift_count ≡ r.total_endpoints_checked)
    × (length r.errors ≡ r.drift_count)

drifted-checked-IsBalanced :
    (m : String) (r : OpenApiVerifyResult) → IsBalanced r → IsBalanced (drifted m (checked r))
drifted-checked-IsBalanced m r (sum, count) =
    (omega (arith, sum), omega (arith, count, length-append r.errors (m ∷ [])))

matches-checked-IsBalanced :
    (r : OpenApiVerifyResult) → IsBalanced r → IsBalanced (matches (checked r))
matches-checked-IsBalanced r (sum, count) = (omega (arith, sum), count)

module _ (J : Numbers) (V : Validator J.Number) (S : Specs J.Number)
    (paths_obj : Dict (Value J.Number)) where
  validated-IsBalanced :
      (name : String) (es : List String) (r : OpenApiVerifyResult)
      → IsBalanced r
      → IsBalanced (validated J V S paths_obj name es (checked r))
  validated-IsBalanced name [] r h = matches-checked-IsBalanced r h
  validated-IsBalanced name (e ∷ es) r h = drifted-checked-IsBalanced _ r h

  found-IsBalanced :
      (body : Value J.Number) (name missing : String) (o : Option (Value J.Number))
      (r : OpenApiVerifyResult)
      → IsBalanced r
      → IsBalanced (found J V S paths_obj body name missing o (checked r))
  found-IsBalanced body name missing none r h = drifted-checked-IsBalanced missing r h
  found-IsBalanced body name missing (some schema) r h = go (V.compile schema)
    where
      go :
          (c : Result String V.Schema)
          → IsBalanced (compiled J V S paths_obj body name c (checked r))
      go (ok c) = validated-IsBalanced name (V.validate c body) r h
      go (err e) = drifted-checked-IsBalanced _ r h

  validate-IsBalanced :
      (body : Value J.Number) (status : ℕ) (name method path : String) (r : OpenApiVerifyResult)
      → IsBalanced r
      → IsBalanced
          (validate_ast_against_openapi J V S paths_obj body status name method path (checked r))
  unfolding validate_ast_against_openapi
  validate-IsBalanced body status name method path r h =
      found-IsBalanced body name (missing_message J V S paths_obj name method path status)
        (find_schema paths_obj path method status) r h

  validated-total :
      (name : String) (es : List String) (r : OpenApiVerifyResult)
      → (validated J V S paths_obj name es r).total_endpoints_checked ≡ r.total_endpoints_checked
  validated-total name [] r = refl
  validated-total name (e ∷ es) r = refl

  found-total :
      (body : Value J.Number) (name missing : String) (o : Option (Value J.Number))
      (r : OpenApiVerifyResult)
      → (found J V S paths_obj body name missing o r).total_endpoints_checked
        ≡ r.total_endpoints_checked
  found-total body name missing none r = refl
  found-total body name missing (some schema) r = go (V.compile schema)
    where
      go :
          (c : Result String V.Schema)
          → (compiled J V S paths_obj body name c r).total_endpoints_checked
            ≡ r.total_endpoints_checked
      go (ok c) = validated-total name (V.validate c body) r
      go (err e) = refl

  validate-total :
      (body : Value J.Number) (status : ℕ) (name method path : String) (r : OpenApiVerifyResult)
      → (validate_ast_against_openapi J V S paths_obj body status name method path
          r).total_endpoints_checked
        ≡ r.total_endpoints_checked
  unfolding validate_ast_against_openapi
  validate-total body status name method path r =
      found-total body name (missing_message J V S paths_obj name method path status)
        (find_schema paths_obj path method status) r

  module _ (K : Crates J.Number) (run : Io) (dir : String) (d : Dir K) where
    verify_endpoints-IsBalanced :
        (eps : List (EndpointConfig J)) (r e : OpenApiVerifyResult)
        → IsBalanced r
        → verify_endpoints J V S paths_obj K run dir d eps r ≡ ok e
        → IsBalanced e
    unfolding verify_endpoints
    verify_endpoints-IsBalanced [] r e h done = subst IsBalanced (ok_inj r e done) h
    verify_endpoints-IsBalanced (ep ∷ eps) r e h done =
        go (recorded J K run dir d ep) (λ x. verify_endpoints-IsBalanced eps x e) done
      where
        go :
            (o : Option (Result ApiSnapError (SnapshotFile J.Number)))
            → ((x : OpenApiVerifyResult)
                → IsBalanced x
                → verify_endpoints J V S paths_obj K run dir d eps x ≡ ok e
                → IsBalanced e)
            → (verify_one J V S paths_obj ep o r >>= λ x.
                verify_endpoints J V S paths_obj K run dir d eps x)
              ≡ ok e
            → IsBalanced e
        go none rest done = rest r h done
        go (some (err x)) rest done = cc
        go (some (ok snapshot)) rest done =
            rest _
              (validate-IsBalanced snapshot.masked_body snapshot.metadata.status_code ep.name
                (method_key ep.method) (normalize_path_key ep.path) r h)
              done

  module _ (P : Program J) (config : ApiSnapConfig J) where
    -- A live verification accounts for every endpoint: it is checked once, and it matches or it
    -- drifts, by its answer or by its failure, with one message for each drift.
    pub verify_live-IsBalanced :
        (answers : List (EndpointConfig J × Result ApiSnapError (RawResponse J.Number)))
        (r : OpenApiVerifyResult)
        → IsBalanced r
        → IsBalanced (verify_live J V S paths_obj P config answers r)
          × ((verify_live J V S paths_obj P config answers r).total_endpoints_checked
              ≡ r.total_endpoints_checked + length answers)
    unfolding verify_live
    verify_live-IsBalanced [] r h = (h, omega arith)
    verify_live-IsBalanced ((ep, err e) ∷ answers) r h =
        let (balanced, total) =
          verify_live-IsBalanced answers _
            (drifted-checked-IsBalanced (network_message J V S paths_obj P config ep e) r h) in
        (balanced, omega (arith, total))
    verify_live-IsBalanced ((ep, ok raw_res) ∷ answers) r h =
        let (balanced, total) = verify_live-IsBalanced answers _ (
          validate-IsBalanced (masked_body_of J P config ep raw_res.body) raw_res.status_code
            ep.name (method_key ep.method) (normalize_path_key ep.path) r h) in
        (
          balanced,
          omega (
            arith,
            total,
            validate-total (masked_body_of J P config ep raw_res.body) raw_res.status_code ep.name
                (method_key ep.method) (normalize_path_key ep.path) (checked r),
          ),
        )

is_empty-length : {A : Type 0} (es : List A) → (is_empty es ≡ true) ↔ (length es ≡ 0)
is_empty-length [] = (λ h. refl, λ h. refl)
is_empty-length (e ∷ es) = (λ h. cc, λ h. absurd (omega (arith, h)))

report_drift-IsBalanced :
    (r : OpenApiVerifyResult)
    → IsBalanced r
    → (report_drift r ≡ ok tt) ↔ (r.matched_count ≡ r.total_endpoints_checked)
unfolding report_drift
report_drift-IsBalanced r (sum, count) = ground (arith, sum, count, is_empty-length r.errors)

-- A verification of the recorded snapshots that ends, ends with as many matches and drifts as there
-- are endpoints checked, with one message for each drift; and the command passes exactly where all
-- of them match.
pub verify_openapi_spec-IsBalanced :
    (J : Numbers) (V : Validator J.Number) (S : Specs J.Number) (K : Crates J.Number) (run : Io)
    (d : Dir K) (config : ApiSnapConfig J) (spec_path : String) (r : OpenApiVerifyResult)
    → verify_openapi_spec J V S K run d config spec_path ≡ ok r
    → IsBalanced r × ((report_drift r ≡ ok tt) ↔ (r.matched_count ≡ r.total_endpoints_checked))
unfolding verify_openapi_spec report_drift
verify_openapi_spec-IsBalanced J V S K run d config spec_path r done =
    go (load_openapi_spec S spec_path) done
  where
    paths :
        (p : Result ApiSnapError (Dict (Value J.Number)))
        → (p >>= λ paths_obj.
            verify_endpoints J V S paths_obj K run config.snapshot_dir d config.endpoints no_result)
          ≡ ok r
        → IsBalanced r
    paths (err e) ended = cc
    paths (ok paths_obj) ended =
        verify_endpoints-IsBalanced J V S paths_obj K run config.snapshot_dir d config.endpoints
          no_result r (omega arith, refl) ended

    go :
        (l : Result ApiSnapError (Value J.Number))
        → (l >>= λ spec_val. extract_paths_object spec_val spec_path >>= λ paths_obj.
            verify_endpoints J V S paths_obj K run config.snapshot_dir d config.endpoints no_result)
          ≡ ok r
        → IsBalanced r × ((report_drift r ≡ ok tt) ↔ (r.matched_count ≡ r.total_endpoints_checked))
    go (err e) ended = cc
    go (ok spec_val) ended =
        let h = paths (extract_paths_object spec_val spec_path) ended in
        (h, report_drift-IsBalanced r h)
