-- ===== src/Fuzz/Engine/Resilient.antt =====
-- What it means that the command passes.
use apisnap.Common.{
  Distinct, ℕ, suc, ◌+◌, ◌<◌, ◌≤◌, ◌≡◌, sym, ap, subst, ◌∙◌, inl, inr, String, false, Option, none,
  some, List, [], ◌∷◌, ◌++◌, length, All, In, lookup, Result, ok, err, Result-cases, arith,
  is_empty, ltb, if◌then◌else◌,
}
use apisnap.Error.{ApiSnapError, fuzz_anomaly_detected}
use apisnap.Json.{Numbers, Value, object, entries, Fields}
use apisnap.Config.{EndpointConfig, ApiSnapConfig}
use apisnap.Cli.{RawResponse, filter_endpoints}
use apisnap.Fuzz.Paths.{PathSeg, key}
use apisnap.Fuzz.Paths.Print.{PlainSegment}
use apisnap.Fuzz.Edit.Lens.{at_path}
use apisnap.Fuzz.Mutator.{MutationCase}
use apisnap.Fuzz.Mutator.Places.{OnlyAt}
use apisnap.Fuzz.Mutator.Complete.{generate_mutations-missing_key}
use apisnap.Fuzz.Engine.{
  Fuzzing, judge, mutated_endpoint, run_fuzz, mutations_of, baseline_body, fuzz_endpoints,
  handle_fuzz, has_stack_trace,
}
use apisnap.Fuzz.Engine.Accounts.{count_anomalies, verdicts, run_fuzz-accounts}

module _ (J : Numbers) (F : Fuzzing J) where
  -- The endpoint is called at some time with this body, and it answers below 500 and without a
  -- stack trace.
  abbrev pub Handled : EndpointConfig J → Value J.Number → Type 0
  Handled endpoint body =
      (calls : ℕ) × (raw_res : RawResponse J.Number) × (F.execute calls
          (record endpoint { body = some body })
        ≡ ok raw_res)
      × (raw_res.status_code < 500)
      × (has_stack_trace (F.to_string raw_res.body) ≡ false)

  judge-low :
      (case : MutationCase J.Number) (r : RawResponse J.Number)
      → (judge J F case (ok r)).is_anomaly ≡ false
      → r.status_code < 500
  unfolding judge
  judge-low case r h = ground (arith, h)

  judge-quiet :
      (case : MutationCase J.Number) (r : RawResponse J.Number)
      → (judge J F case (ok r)).is_anomaly ≡ false
      → has_stack_trace (F.to_string r.body) ≡ false
  unfolding judge
  judge-quiet case r h = ground (arith, h)

  judge-error :
      (case : MutationCase J.Number) (e : ApiSnapError)
      → (judge J F case (err e)).is_anomaly ≡ false
      → ⊥
  unfolding judge
  judge-error case e h = cc

  judge-Handled :
      (endpoint : EndpointConfig J) (calls : ℕ) (case : MutationCase J.Number)
      → (judge J F case (F.execute calls (mutated_endpoint J F endpoint case))).is_anomaly ≡ false
      → Handled endpoint case.mutated_body
  judge-Handled endpoint calls case h =
      elim (Result-cases (F.execute calls (mutated_endpoint J F endpoint case))) [
        | inl (raw_res, e) ↦
            let calm = subst (λ r. (judge J F case r).is_anomaly ≡ false) e h in
            (calls, raw_res, e, judge-low case raw_res calm, judge-quiet case raw_res calm)
        | inr (e, failed) ↦
            absurd
              (judge-error case e (subst (λ r. (judge J F case r).is_anomaly ≡ false) failed h))
      ]

  verdicts-Handled :
      (endpoint : EndpointConfig J) (calls : ℕ) (cs : List (MutationCase J.Number))
      (case : MutationCase J.Number)
      → count_anomalies (verdicts J F endpoint calls cs) ≡ 0
      → In case cs
      → Handled endpoint case.mutated_body
  verdicts-Handled endpoint calls [] case none_bad h = absurd h
  verdicts-Handled endpoint calls (c ∷ cs) case none_bad (inl e) =
      subst (λ x. Handled endpoint x.mutated_body) (sym e)
        (judge-Handled endpoint calls c (ground (arith, none_bad)))
  verdicts-Handled endpoint calls (c ∷ cs) case none_bad (inr h) =
      verdicts-Handled endpoint (suc calls) cs case (ground (arith, none_bad)) h

  fuzz_endpoints-le :
      (calls : ℕ) (eps : List (EndpointConfig J)) (n : ℕ) → n ≤ fuzz_endpoints J F calls eps n
  unfolding fuzz_endpoints
  fuzz_endpoints-le calls [] n = omega arith
  fuzz_endpoints-le calls (x ∷ eps) n = omega (
    arith,
    fuzz_endpoints-le (calls + length (mutations_of J F x)) eps
        (n + (run_fuzz J F calls x).anomaly_count),
  )

  fuzz_endpoints-anomalies :
      (calls : ℕ) (eps : List (EndpointConfig J)) (n : ℕ) (ep : EndpointConfig J)
      → In ep eps
      → fuzz_endpoints J F calls eps n ≡ 0
      → (calls : ℕ) × ((run_fuzz J F calls ep).anomaly_count ≡ 0)
  unfolding fuzz_endpoints
  fuzz_endpoints-anomalies calls [] n ep h e = absurd h
  fuzz_endpoints-anomalies calls (x ∷ eps) n ep (inl same) e = (
    calls,
    subst (λ y. (run_fuzz J F calls y).anomaly_count ≡ 0) (sym same)
        (omega (
          arith,
          e,
          fuzz_endpoints-le (calls + length (mutations_of J F x)) eps
              (n + (run_fuzz J F calls x).anomaly_count),
        )),
  )
  fuzz_endpoints-anomalies calls (x ∷ eps) n ep (inr h) e =
      fuzz_endpoints-anomalies (calls + length (mutations_of J F x)) eps
        (n + (run_fuzz J F calls x).anomaly_count) ep h e

  run_fuzz-Handled :
      (calls : ℕ) (endpoint : EndpointConfig J) (case : MutationCase J.Number)
      → (run_fuzz J F calls endpoint).anomaly_count ≡ 0
      → In case (mutations_of J F endpoint)
      → Handled endpoint case.mutated_body
  run_fuzz-Handled calls endpoint case calm h =
      let (same, anomalies, _, _) = run_fuzz-accounts J F endpoint calls in
      verdicts-Handled endpoint calls (mutations_of J F endpoint) case
        (ap count_anomalies (sym same) ∙ sym anomalies ∙ calm) h

  passed-no_anomaly :
      (eps : List (EndpointConfig J)) (ep : EndpointConfig J)
      → In ep eps
      → ◌≡◌ {A = Result {0, 0} ApiSnapError Unit}
          (if is_empty eps
            then ok tt
            else if ltb 0 (fuzz_endpoints J F 0 eps 0)
            then err (fuzz_anomaly_detected (fuzz_endpoints J F 0 eps 0))
            else ok tt)
          (ok tt)
      → fuzz_endpoints J F 0 eps 0 ≡ 0
  passed-no_anomaly [] ep selected passed = absurd selected
  passed-no_anomaly (x ∷ eps) ep selected passed = ground (arith, passed)

  -- Where the command passes, every selected endpoint was called with every mutated body of its
  -- own, and answered each of these calls with a status below 500 and without a stack trace.
  pub handle_fuzz-Handled :
      (config : ApiSnapConfig J) (endpoint_name : Option String) (ep : EndpointConfig J)
      (case : MutationCase J.Number)
      → handle_fuzz J F config endpoint_name ≡ ok tt
      → In ep (filter_endpoints config.endpoints endpoint_name)
      → In case (mutations_of J F ep)
      → Handled ep case.mutated_body
  unfolding handle_fuzz
  handle_fuzz-Handled config endpoint_name ep case passed selected listed =
      let eps = filter_endpoints config.endpoints endpoint_name in
      let (calls, calm) =
        fuzz_endpoints-anomalies 0 eps 0 ep selected (passed-no_anomaly eps ep selected passed) in
      run_fuzz-Handled calls ep case calm listed

  -- Where the command passes, an endpoint whose body has an object with a key `k`, at any depth,
  -- answered below 500 and without a stack trace a call whose body lacks that key and is the
  -- configured body beside it. The keys on the way are not empty and have no dot and no opening
  -- bracket, the indices fit in 64 bits, and the object's keys are distinct.
  pub handle_fuzz-missing_key :
      (config : ApiSnapConfig J) (endpoint_name : Option String) (ep : EndpointConfig J)
      (p : List PathSeg) (k : String) (fs : Fields J.Number) (w : Value J.Number)
      → handle_fuzz J F config endpoint_name ≡ ok tt
      → In ep (filter_endpoints config.endpoints endpoint_name)
      → All PlainSegment (p ++ key k ∷ [])
      → at_path p (baseline_body J F ep) ≡ some (object fs)
      → lookup k (entries fs) ≡ some w
      → Distinct (entries fs)
      → (body : Value J.Number) × OnlyAt (p ++ key k ∷ []) none (baseline_body J F ep) body
        × Handled ep body
  handle_fuzz-missing_key config endpoint_name ep p k fs w passed selected plain there present
        distinct =
      let (case, listed, only) =
        generate_mutations-missing_key F.from_i64 (baseline_body J F ep) p k fs w plain there
          present distinct in
      (
        case.mutated_body,
        only,
        handle_fuzz-Handled config endpoint_name ep case passed selected listed,
      )
