-- ===== src/Cli/Record/Replay.antt =====
-- A recorded response is one that the command `test` accepts.
use apisnap.Common.{
  ℕ, ◌≡◌, ◌≢◌, refl, sym, ap, ◌∙◌, subst, String, Bool, true, ◌⊎◌, inl, inr, Option, none, List, [],
  ◌∷◌, In, length, lookup, Result, ok,
}
use apisnap.Error.{ApiSnapError}
use apisnap.Json.{Numbers, Value}
use apisnap.Config.{EndpointConfig, ApiSnapConfig}
use apisnap.Crypto.{SnapshotEncryptor, nonce_len}
use apisnap.Crypto.Roundtrip.{IsAead}
use apisnap.Engine.Differ.{compare_json_ast}
use apisnap.Snapshot.Approvals.{ApprovalLedger}
use apisnap.Snapshot.Files.{SnapshotFile, SnapshotStore, enc_name}
use apisnap.Snapshot.Store.{
  Dir, sanitize_filename, read_snapshot, read_encrypted, read_plain, read_file, decrypt_file,
  parse_file,
}
use apisnap.Snapshot.Store.Payload.{IsReread, read_snapshot-files}
use apisnap.Snapshot.Store.Durable.{write_snapshot_atomic-read_snapshot}
use apisnap.Cli.{RawResponse, Program, Round, Fetched, masked_body_of, differences_of}
use apisnap.Cli.Test.{test_all, test_store}
use apisnap.Cli.Test.Verdict.{test_all-ok_iff}
use apisnap.Cli.Record.{Observer, State, snapshot_of, record_store, record_one, record_results}
use apisnap.Cli.Record.Rounds.{
  safe, record_one_lem, record_one-SameFiles, record_results-ok, IsFresh, record_results-SameFiles,
}

module _ (J : Numbers) (P : Program J) (O : Observer J) (config : ApiSnapConfig J) where
  module _ (store : SnapshotStore) where
    -- The safe names of the endpoints are different.
    abbrev pub AreApart : List (Fetched J) → Type 0
    AreApart [] = Unit
    AreApart (f ∷ results) = IsFresh J P O config store f.endpoint.name results × AreApart results

    IsFresh-In :
        (name : String) (results : List (Fetched J)) (f : Fetched J)
        → IsFresh J P O config store name results
        → In f results
        → sanitize_filename P.K name ≢ safe J P O config f.endpoint
    IsFresh-In name [] f fresh nowhere = absurd nowhere
    IsFresh-In name (g ∷ results) f (apart, fresh) (inl is) =
        subst (λ (x : Fetched J). sanitize_filename P.K name ≢ safe J P O config x.endpoint)
          (sym is) apart
    IsFresh-In name (g ∷ results) f (apart, fresh) (inr later) =
        IsFresh-In name results f fresh later

    -- The nonce has 12 bytes, the file can be read, and no old encrypted file hides a plain one.
    abbrev pub IsReady : Dir P.K → Fetched J → Type 0
    IsReady d f =
        (length f.round.nonce ≡ nonce_len)
        × (f.round.run.read ≡ true)
        × ((store.encryptor ≢ none)
            ⊎ (lookup (enc_name (safe J P O config f.endpoint)) d.files ≡ none))

    -- The response was recorded, and its snapshot is what a reader finds.
    abbrev IsRecorded : Dir P.K → Fetched J → Type 0
    IsRecorded d f =
        (raw_res : RawResponse J.Number) × (f.raw_res_result ≡ ok raw_res)
        × ((read_snapshot P.K store f.round.run f.endpoint.name d).0
            ≡ ok (snapshot_of J P O config f.round f.endpoint raw_res))

    -- `serde_json` reads the snapshot of the response back from its text.
    abbrev pub IsPrintable : Fetched J → Type 0
    IsPrintable f =
        (raw_res : RawResponse J.Number)
        → f.raw_res_result ≡ ok raw_res
        → IsReread P.K (snapshot_of J P O config f.round f.endpoint raw_res)

    module _ (L : IsAead P.K.aes) where
      record_one-IsRecorded :
          (f : Fetched J) (st : State J P O config) (path : String)
          → (record_one J P O config store f st).0 ≡ ok path
          → IsReady st.dir f
          → IsPrintable f
          → IsRecorded (record_one J P O config store f st).1.dir f
      unfolding snapshot_of
      record_one-IsRecorded f st path one (size, can, clear) reread =
          let (raw_res, d, answered, same, written) =
            record_one_lem J P O config store f st path one in
          let snapshot = snapshot_of J P O config f.round f.endpoint raw_res in
          let clear' : (store.encryptor ≢ none)
              ⊎ (lookup (enc_name (safe J P O config f.endpoint)) d.files ≡ none) =
            elim clear [
              | inl key ↦ inl key
              | inr absent ↦
                  inr (ap (lookup (enc_name (safe J P O config f.endpoint))) same ∙ absent)
            ] in
          (
            raw_res,
            answered,
            ap (λ (r : Result ApiSnapError (SnapshotFile J.Number) × Dir P.K). r.0)
                (write_snapshot_atomic-read_snapshot P.K store L f.round.run f.round.run
                  f.round.nonce snapshot (reread raw_res answered) f.endpoint.name path d
                  (record_one J P O config store f st).1.dir size can refl clear' written),
          )

      record_results-IsRecorded :
          (results : List (Fetched J)) (st : State J P O config) (n : ℕ)
          → (record_results J P O config store results st).0 ≡ ok n
          → AreApart results
          → ((f : Fetched J) → In f results → IsReady st.dir f)
          → ((f : Fetched J) → In f results → IsPrintable f)
          → (f : Fetched J) → In f results
          → IsRecorded (record_results J P O config store results st).1.dir f
      record_results-IsRecorded [] st n h apart ready reread f nowhere = absurd nowhere
      record_results-IsRecorded (g ∷ results) st n h (fresh, apart) ready reread f (inl first) =
          let (path, m, one, others, is) = record_results-ok J P O config store g results st n h in
          let st1 = (record_one J P O config store g st).1 in
          let (raw_res, answered, readable) =
            record_one-IsRecorded g st path one (ready g (inl refl)) (reread g (inl refl)) in
          let (enc, json) =
            record_results-SameFiles J P O config store results st1 m g.endpoint.name others
              fresh in
          subst (IsRecorded (record_results J P O config store (g ∷ results) st).1.dir) (sym first)
            (subst (λ (s : State J P O config). IsRecorded s.dir g) (sym is)
              (
                raw_res,
                answered,
                read_snapshot-files P.K store g.round.run g.endpoint.name _ _ enc json ∙ readable,
              ))
      record_results-IsRecorded (g ∷ results) st n h (fresh, apart) ready reread f (inr later) =
          let (path, m, one, others, is) = record_results-ok J P O config store g results st n h in
          let st1 = (record_one J P O config store g st).1 in
          subst (λ (s : State J P O config). IsRecorded s.dir f) (sym is)
            (record_results-IsRecorded results st1 m others apart
              (λ x here.
                let (size, can, clear) = ready x (inr here) in
                (
                  size,
                  can,
                  elim clear [
                    | inl key ↦ inl key
                    | inr absent ↦ inr (
                        (record_one-SameFiles J P O config store g st path x.endpoint.name one
                          (λ e. IsFresh-In g.endpoint.name results x fresh here (sym e))).0
                        ∙ absent)
                  ],
                ))
              (λ x here. reread x (inr here)) f later)

  -- The two commands' stores read alike.
  read_alike :
      (encryptor : Option SnapshotEncryptor) (enable_cas : Bool) (round : Round) (name : String)
      (d : Dir P.K)
      → read_snapshot P.K (test_store J P config encryptor) round.run name d
        ≡ read_snapshot P.K (record_store J P O config encryptor enable_cas) round.run name d
  unfolding read_snapshot read_encrypted read_plain read_file decrypt_file parse_file
  read_alike encryptor enable_cas round name d = refl

  differences_of_self :
      (endpoint : EndpointConfig J) (v : Value J.Number)
      → P.value_eq v v ≡ true
      → differences_of J P config endpoint v v ≡ []
  unfolding differences_of compare_json_ast
  differences_of_self endpoint v same = rw same refl

  -- What was recorded passes the test: if `record` writes every response, the safe names of the
  -- endpoints are different, each nonce has 12 bytes, no old encrypted file hides a plain snapshot,
  -- `serde_json` reads each of these snapshots back from the text that it prints of it, and every
  -- status is the expected one, then `test`, with the same key and the same responses, passes,
  -- whatever the approvals are and whether or not `record` also fills the object store. AES-GCM
  -- opens what it seals, and `==` of trees takes every tree for itself.
  pub record_results-test_all :
      (L : IsAead P.K.aes) (encryptor : Option SnapshotEncryptor) (enable_cas : Bool)
      (approval_ledger : ApprovalLedger) (results : List (Fetched J)) (st : State J P O config)
      (n : ℕ)
      → ((v : Value J.Number) → P.value_eq v v ≡ true)
      → (record_results J P O config (record_store J P O config encryptor enable_cas) results st).0
        ≡ ok n
      → AreApart (record_store J P O config encryptor enable_cas) results
      → ((f : Fetched J)
          → In f results
          → IsReady (record_store J P O config encryptor enable_cas) st.dir f)
      → ((f : Fetched J)
          → In f results
          → IsPrintable (record_store J P O config encryptor enable_cas) f)
      → ((f : Fetched J) (raw_res : RawResponse J.Number)
          → In f results
          → f.raw_res_result ≡ ok raw_res
          → f.endpoint.expected_status ≡ raw_res.status_code)
      → test_all J P config
          (test_store J P config encryptor)
          (record_results J P O config
            (record_store J P O config encryptor enable_cas)
            results
            st).1.dir
          approval_ledger
          results
        ≡ ok tt
  unfolding snapshot_of
  record_results-test_all L encryptor enable_cas approval_ledger results st n same h apart ready
        reread statuses =
      let store = record_store J P O config encryptor enable_cas in
      let d = (record_results J P O config store results st).1.dir in
      (test_all-ok_iff J P config (test_store J P config encryptor) d approval_ledger results).1
        (λ f here.
          let (raw_res, answered, readable) =
            record_results-IsRecorded store L results st n h apart ready reread f here in
          record {
            raw_res = raw_res;
            stored_snapshot = snapshot_of J P O config f.round f.endpoint raw_res;
            answered = answered;
            readable =
                ap (λ (r : Result ApiSnapError (SnapshotFile J.Number) × Dir P.K). r.0)
                  (read_alike encryptor enable_cas f.round f.endpoint.name d)
                ∙ readable;
            status = statuses f raw_res here answered;
            agrees = inl (
                differences_of_self f.endpoint (masked_body_of J P config f.endpoint raw_res.body)
                  (same (masked_body_of J P config f.endpoint raw_res.body)));
          })
