-- ===== src/Cli/Test/Verdict.antt =====
-- When the command `test` passes.
use apisnap.Common.{
  ℕ, ◌<◌, ◌≡◌, refl, sym, ap, ◌∙◌, subst, arith, ==_iff, String, true, Bool-cases, ◌⊎◌, inl, inr,
  ◌↔◌, Option, some, Option-cases, List, [], ◌∷◌, map, In, ok, Result-cases, is_empty,
}
use apisnap.Json.{Numbers}
use apisnap.Config.{EndpointConfig, ApiSnapConfig}
use apisnap.Crypto.{SnapshotEncryptor}
use apisnap.Engine.Differ.{DiffReport, DiffKind, passed}
use apisnap.Snapshot.Approvals.{ApprovalLedger, File, is_approved}
use apisnap.Snapshot.Files.{SnapshotFile, SnapshotStore}
use apisnap.Snapshot.Store.{Dir, read_snapshot}
use apisnap.Cli.Dispatch.{Event, join_all, dispatch_requests}
use apisnap.Cli.Dispatch.Complete.{IsCalm}
use apisnap.Cli.Dispatch.Answered.{dispatch_requests-In}
use apisnap.Cli.{RawResponse, Program, Fetched, filter_endpoints, masked_body_of, differences_of}
use apisnap.Cli.Test.{
  report_of, test_one, test_results, test_all, Response, fetched, test_store, approvals_of,
  concurrency_of, handle_test,
}

module _ (J : Numbers) (P : Program J) (config : ApiSnapConfig J) (store : SnapshotStore)
    (dir : Dir P.K) (approval_ledger : ApprovalLedger) where
  -- The endpoint answered with the expected status, its snapshot can be read, and its body does not
  -- differ from it, or the difference is approved.
  pub record Passes (f : Fetched J) : Type 0 where
    pub raw_res : RawResponse J.Number
    pub stored_snapshot : SnapshotFile J.Number
    pub answered : f.raw_res_result ≡ ok raw_res
    pub readable : (read_snapshot P.K store f.round.run f.endpoint.name dir).0 ≡ ok stored_snapshot
    pub status : f.endpoint.expected_status ≡ raw_res.status_code
    pub agrees :
        (differences_of J P config f.endpoint stored_snapshot.masked_body
            (masked_body_of J P config f.endpoint raw_res.body)
          ≡ [])
        ⊎ (is_approved f.endpoint.name approval_ledger ≡ true)

  passed-report_of :
      (endpoint : EndpointConfig J) (raw_res : RawResponse J.Number)
      (differences : List (DiffKind J.Number))
      → (passed (report_of J P config store dir approval_ledger endpoint raw_res differences)
          ≡ true)
        ↔ ((endpoint.expected_status ≡ raw_res.status_code)
            × ((differences ≡ []) ⊎ (is_approved endpoint.name approval_ledger ≡ true)))
  unfolding passed report_of
  passed-report_of endpoint raw_res [] = (
    λ h. (ground (arith, h), inl refl),
    λ h. ground (arith, h.0, (==_iff endpoint.expected_status raw_res.status_code).1 h.0),
  )
  passed-report_of endpoint raw_res (x ∷ differences) = (
    λ h. (ground (arith, h), inr (ground (arith, h))),
    λ h. elim h.1 [
      | inl e ↦ absurd (cc e)
      | inr e ↦ ground (arith, h.0, e, (==_iff endpoint.expected_status raw_res.status_code).1 h.0)
    ],
  )

  -- What `test_one` does with a response and a snapshot.
  test_one-Passes :
      (f : Fetched J)
      → ((report : DiffReport J.Number) × (test_one J P config store dir approval_ledger f
            ≡ ok report)
          × (passed report ≡ true))
        ↔ Passes f
  unfolding test_one
  test_one-Passes f = (λ (report, made, good). forth report made good, back)
    where
      forth :
          (report : DiffReport J.Number)
          → test_one J P config store dir approval_ledger f ≡ ok report
          → passed report ≡ true
          → Passes f
      forth report made good = elim (Result-cases f.raw_res_result) [
        | inr (e, failed) ↦ absurd (ground (arith, made, failed))
        | inl (raw_res, answered) ↦
            elim (Result-cases (read_snapshot P.K store f.round.run f.endpoint.name dir).0) [
              | inr (e, unread) ↦ absurd (ground (arith, made, answered, unread))
              | inl (stored, readable) ↦
                  let differences =
                    differences_of J P config f.endpoint stored.masked_body
                      (masked_body_of J P config f.endpoint raw_res.body) in
                  let is : report_of J P config store dir approval_ledger f.endpoint raw_res
                        differences
                      ≡ report =
                    ground (arith, made, answered, readable) in
                  let both =
                    (passed-report_of f.endpoint raw_res differences).0 (ap passed is ∙ good) in
                  record {
                    raw_res = raw_res;
                    stored_snapshot = stored;
                    answered = answered;
                    readable = readable;
                    status = both.0;
                    agrees = both.1;
                  }
            ]
      ]

      back :
          Passes f
          → (report : DiffReport J.Number) × (test_one J P config store dir approval_ledger f
              ≡ ok report)
            × (passed report ≡ true)
      back p =
          let differences =
            differences_of J P config f.endpoint p.stored_snapshot.masked_body
              (masked_body_of J P config f.endpoint p.raw_res.body) in
          (
            report_of J P config store dir approval_ledger f.endpoint p.raw_res differences,
            ground (arith, p.answered, p.readable),
            (passed-report_of f.endpoint p.raw_res differences).1 (p.status, p.agrees),
          )

  abbrev Accepted : List (Fetched J) → Type 0
  Accepted results =
      (reports : List (DiffReport J.Number)) × (test_results J P config store dir approval_ledger
          results
        ≡ ok (reports, 0))

  test_results-Passes :
      (results : List (Fetched J)) → Accepted results ↔ ((f : Fetched J) → In f results → Passes f)
  unfolding test_results
  test_results-Passes [] = (λ h f nowhere. absurd nowhere, λ h. ([], refl))
  test_results-Passes (f ∷ results) = (
    λ (reports, h). forth (test_results-Passes results).0 reports h,
    back (test_results-Passes results).1,
  )
    where
      forth :
          (Accepted results → (g : Fetched J) → In g results → Passes g)
          → (reports : List (DiffReport J.Number))
          → test_results J P config store dir approval_ledger (f ∷ results) ≡ ok (reports, 0)
          → (g : Fetched J) → In g (f ∷ results)
          → Passes g
      forth ih reports h g here =
          elim (Result-cases (test_one J P config store dir approval_ledger f)) [
            | inr (e, failed) ↦ absurd (ground (arith, h, failed))
            | inl (report, one) ↦
                elim (Result-cases (test_results J P config store dir approval_ledger results)) [
                  | inr (e, failed) ↦ absurd (ground (arith, h, one, failed))
                  | inl ((rest, n), others) ↦
                      let good : passed report ≡ true = ground (arith, h, one, others) in
                      let none_wrong : n ≡ 0 = ground (arith, h, one, others, good) in
                      elim here [
                        | inl is ↦ subst Passes (sym is) ((test_one-Passes f).0 (report, one, good))
                        | inr later ↦ ih (rest, ground (arith, others, none_wrong)) g later
                      ]
                ]
          ]

      back :
          (((g : Fetched J) → In g results → Passes g) → Accepted results)
          → ((g : Fetched J) → In g (f ∷ results) → Passes g)
          → Accepted (f ∷ results)
      back ih all =
          let (report, one, good) = (test_one-Passes f).1 (all f (inl refl)) in
          let (rest, others) = ih (λ g later. all g (inr later)) in
          (report ∷ rest, ground (arith, one, others, good))

  -- The verdict on the responses is success exactly when every endpoint passes: it answered with the
  -- expected status, its snapshot can be read, and its masked body has no difference to the snapshot
  -- or the difference is approved.
  pub test_all-ok_iff :
      (results : List (Fetched J))
      → (test_all J P config store dir approval_ledger results ≡ ok tt)
        ↔ ((f : Fetched J) → In f results → Passes f)
  unfolding test_all
  test_all-ok_iff results = (
    λ h. elim (Result-cases (test_results J P config store dir approval_ledger results)) [
      | inr (e, failed) ↦ absurd (ground (arith, h, failed))
      | inl ((reports, n), all) ↦
          let none_wrong : n ≡ 0 = ground (arith, h, all) in
          (test_results-Passes results).0 (reports, ground (arith, all, none_wrong))
    ],
    λ h. let (reports, all) = (test_results-Passes results).1 h in ground (arith, all),
  )

In-map : {A B : Type 0} (g : A → B) (x : A) (xs : List A) → In x xs → In (g x) (map g xs)
In-map g x [] nowhere = absurd nowhere
In-map g x (y ∷ xs) (inl is) = inl (ap g is)
In-map g x (y ∷ xs) (inr later) = inr (In-map g x xs later)

module _ (J : Numbers) (P : Program J) (config : ApiSnapConfig J) where
  -- If the command passes, with a concurrency of at least one and no task that panics, then the
  -- requests ended with results, in which every endpoint that the filter chose stands with a
  -- response that passes: it was received with the status that this endpoint expects, the endpoint's
  -- snapshot can be read, and the masked body does not differ from it or the difference is approved.
  pub handle_test-Passes :
      (encryptor : Option SnapshotEncryptor) (dir : Dir P.K) (file : File)
      (endpoint_filter : Option String) (concurrency_override : Option ℕ)
      (events : List (Event (Response J))) (e : EndpointConfig J)
      → 0 < concurrency_of J P config concurrency_override
      → IsCalm events
      → handle_test J P config encryptor dir file endpoint_filter concurrency_override events
        ≡ some (ok tt)
      → In e (filter_endpoints config.endpoints endpoint_filter)
      → (results : List (EndpointConfig J × Response J)) × (response : Response J)
        × (dispatch_requests
              (concurrency_of J P config concurrency_override)
              (filter_endpoints config.endpoints endpoint_filter)
              events
            ≡ some results)
        × In (e, response) results
        × Passes J P config
            (test_store J P config encryptor)
            dir
            (approvals_of J P config file)
            (fetched (e, response))
  unfolding handle_test
  handle_test-Passes encryptor dir file endpoint_filter concurrency_override events e positive calm
        h chosen =
      let filtered = filter_endpoints config.endpoints endpoint_filter in
      elim (Bool-cases (is_empty filtered)) [
        | inl none_chosen ↦ absurd (nowhere filtered none_chosen chosen)
        | inr some_chosen ↦
            elim (Option-cases (
              dispatch_requests (concurrency_of J P config concurrency_override) filtered events)) [
                | inl unended ↦ absurd (ground (arith, h, some_chosen, unended))
                | inr (results, ended) ↦
                    let (response, here) =
                      dispatch_requests-In (concurrency_of J P config concurrency_override) filtered
                        events results e positive calm ended chosen in
                    let all : test_all J P config (test_store J P config encryptor) dir
                          (approvals_of J P config file) (map fetched results)
                        ≡ ok tt =
                      ground (arith, h, some_chosen, ended) in
                    (
                      results,
                      response,
                      ended,
                      here,
                      (test_all-ok_iff J P config (test_store J P config encryptor) dir
                            (approvals_of J P config file) (map fetched results)).0
                          all (fetched (e, response)) (In-map fetched (e, response) results here),
                    )
              ]
      ]
    where
      nowhere : (xs : List (EndpointConfig J)) → is_empty xs ≡ true → ¬ In e xs
      nowhere [] empty none_there = none_there
      nowhere (x ∷ xs) empty here = cc empty

  -- With a concurrency of zero no request is made, and the command passes, whatever the endpoints, the
  -- snapshots and the approvals are.
  pub handle_test_zero :
      (encryptor : Option SnapshotEncryptor) (dir : Dir P.K) (file : File)
      (endpoint_filter : Option String) (concurrency_override : Option ℕ)
      → concurrency_of J P config concurrency_override ≡ 0
      → handle_test J P config encryptor dir file endpoint_filter concurrency_override []
        ≡ some (ok tt)
  unfolding handle_test dispatch_requests join_all test_all test_results
  handle_test_zero encryptor dir file endpoint_filter concurrency_override none_allowed =
      elim (Bool-cases (is_empty (filter_endpoints config.endpoints endpoint_filter))) [
        | inl none_chosen ↦ ground (arith, none_chosen)
        | inr some_chosen ↦ rw (some_chosen, none_allowed) refl
      ]
