-- ===== src/Fuzz/Engine/Accounts.antt =====
-- The report of a run: one result for each case, and counts that add up.
use mathlib.Core.List.{append_assoc, append-nil}
use apisnap.Common.{
  ℕ, suc, ◌+◌, ◌≡◌, refl, sym, ap, ◌∙◌, List, [], ◌∷◌, ◌++◌, length, arith, if◌then◌else◌,
}
use apisnap.Json.{Numbers}
use apisnap.Config.{EndpointConfig}
use apisnap.Fuzz.Mutator.{MutationCase}
use apisnap.Fuzz.Engine.{
  FuzzResult, Fuzzing, judge, mutated_endpoint, Tally, push_result, run_cases, run_fuzz,
  mutations_of,
}

abbrev pub count_anomalies : List FuzzResult → ℕ
count_anomalies [] = 0
count_anomalies (r ∷ rs) = (if r.is_anomaly then 1 else 0) + count_anomalies rs

module _ (J : Numbers) (F : Fuzzing J) (endpoint : EndpointConfig J) where
  -- Every case judged by the answer to its own call.
  abbrev pub verdicts : ℕ → List (MutationCase J.Number) → List FuzzResult
  verdicts calls [] = []
  verdicts calls (case ∷ mutations) =
      judge J F case (F.execute calls (mutated_endpoint J F endpoint case))
      ∷ verdicts (suc calls) mutations

  run_cases-results :
      (calls : ℕ) (cs : List (MutationCase J.Number)) (t : Tally J F)
      → (run_cases J F endpoint calls cs t).results ≡ t.results ++ verdicts calls cs
  unfolding run_cases
  run_cases-results calls [] t = sym (append-nil t.results)
  run_cases-results calls (case ∷ cs) t =
      let r = judge J F case (F.execute calls (mutated_endpoint J F endpoint case)) in
      run_cases-results (suc calls) cs (push_result J F r t)
      ∙ append_assoc t.results (r ∷ []) (verdicts (suc calls) cs)

  run_cases-counts :
      (calls : ℕ) (cs : List (MutationCase J.Number)) (t : Tally J F)
      → ((run_cases J F endpoint calls cs t).anomaly_count
          ≡ t.anomaly_count + count_anomalies (verdicts calls cs))
        × ((run_cases J F endpoint calls cs t).resilient_count
              + (run_cases J F endpoint calls cs t).anomaly_count
            ≡ t.resilient_count + t.anomaly_count + length cs)
  unfolding run_cases
  run_cases-counts calls [] t = (omega arith, omega arith)
  run_cases-counts calls (case ∷ cs) t =
      let r = judge J F case (F.execute calls (mutated_endpoint J F endpoint case)) in
      let (anomalies, both) = run_cases-counts (suc calls) cs (push_result J F r t) in
      (ground (arith, anomalies), ground (arith, both))

  length-verdicts :
      (calls : ℕ) (cs : List (MutationCase J.Number)) → length (verdicts calls cs) ≡ length cs
  length-verdicts calls [] = refl
  length-verdicts calls (case ∷ cs) = ap suc (length-verdicts (suc calls) cs)

  -- The results are the verdicts on the cases, in their order, each by the answer to its own call;
  -- the anomaly count is the number of results that are anomalies; and the two counts add up to the
  -- total, the number of cases.
  pub run_fuzz-accounts :
      (calls : ℕ)
      → ((run_fuzz J F calls endpoint).results ≡ verdicts calls (mutations_of J F endpoint))
        × ((run_fuzz J F calls endpoint).anomaly_count
            ≡ count_anomalies (run_fuzz J F calls endpoint).results)
        × ((run_fuzz J F calls endpoint).resilient_count
              + (run_fuzz J F calls endpoint).anomaly_count
            ≡ (run_fuzz J F calls endpoint).total_mutations)
        × ((run_fuzz J F calls endpoint).total_mutations ≡ length (mutations_of J F endpoint))
  unfolding run_fuzz
  run_fuzz-accounts calls =
      let cs = mutations_of J F endpoint in
      let t : Tally J F = record { results = []; anomaly_count = 0; resilient_count = 0 } in
      let same = run_cases-results calls cs t in
      let (anomalies, both) = run_cases-counts calls cs t in
      let size : length (run_cases J F endpoint calls cs t).results ≡ length cs =
        ap length same ∙ length-verdicts calls cs in
      (same, omega (arith, anomalies, ap count_anomalies same), omega (arith, both, size), size)
