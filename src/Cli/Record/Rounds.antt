-- ===== src/Cli/Record/Rounds.antt =====
-- What one round of the recording, and a loop of them, does to the files.
use apisnap.Common.{
  ℕ, ◌≡◌, ◌≢◌, refl, ap, ◌∙◌, arith, String, inl, inr, List, [], ◌∷◌, lookup, ok, Result-cases,
}
use apisnap.Json.{Numbers, Value}
use apisnap.Config.{EndpointConfig, ApiSnapConfig}
use apisnap.Snapshot.Files.{SnapshotStore, enc_name, json_name}
use apisnap.Snapshot.Store.{Dir, sanitize_filename, write_snapshot_atomic}
use apisnap.Snapshot.Store.Durable.{unseen}
use apisnap.Cli.{RawResponse, Program, Round, Fetched}
use apisnap.Cli.Record.{Observer, State, observe, snapshot_of, record_one, record_results}

module _ (J : Numbers) (P : Program J) (O : Observer J) (config : ApiSnapConfig J) where
  observe-files :
      (round : Round) (endpoint : EndpointConfig J) (raw_res : RawResponse J.Number)
      (masked_body : Value J.Number) (st : State J P O config)
      → (observe J P O config round endpoint raw_res masked_body st).dir.files ≡ st.dir.files
  unfolding observe
  observe-files round endpoint raw_res masked_body st = ground arith

  -- The file name of an endpoint, without its extension.
  abbrev pub safe : EndpointConfig J → String
  safe e = sanitize_filename P.K e.name

  module _ (store : SnapshotStore) where
    -- A round that succeeds is a write in a directory with the same files.
    pub record_one_lem :
        (f : Fetched J) (st : State J P O config) (path : String)
        → (record_one J P O config store f st).0 ≡ ok path
        → (raw_res : RawResponse J.Number) × (d : Dir P.K) × (f.raw_res_result ≡ ok raw_res)
          × (d.files ≡ st.dir.files)
          × (write_snapshot_atomic P.K store f.round.run f.round.nonce
                (snapshot_of J P O config f.round f.endpoint raw_res)
                d
              ≡ (ok path, (record_one J P O config store f st).1.dir))
    unfolding record_one
    record_one_lem f st path h = elim (Result-cases f.raw_res_result) [
      | inr (e, failed) ↦ absurd (ground (arith, h, failed))
      | inl (raw_res, answered) ↦
          let snapshot = snapshot_of J P O config f.round f.endpoint raw_res in
          let observed = observe J P O config f.round f.endpoint raw_res snapshot.masked_body st in
          (
            raw_res,
            observed.dir,
            answered,
            observe-files f.round f.endpoint raw_res snapshot.masked_body st,
            (ground (arith, h, answered)),
          )
    ]

    abbrev pub SameFiles : String → Dir P.K → Dir P.K → Type 0
    SameFiles name d d' =
        (lookup (enc_name (sanitize_filename P.K name)) d'.files
          ≡ lookup (enc_name (sanitize_filename P.K name)) d.files)
        × (lookup (json_name (sanitize_filename P.K name)) d'.files
            ≡ lookup (json_name (sanitize_filename P.K name)) d.files)

    pub record_one-SameFiles :
        (f : Fetched J) (st : State J P O config) (path name : String)
        → (record_one J P O config store f st).0 ≡ ok path
        → sanitize_filename P.K name ≢ safe f.endpoint
        → SameFiles name st.dir (record_one J P O config store f st).1.dir
    unfolding snapshot_of
    record_one-SameFiles f st path name h apart =
        let (raw_res, d, answered, same, written) = record_one_lem f st path h in
        let (enc, json) =
          unseen P.K store f.round.run f.round.nonce
            (snapshot_of J P O config f.round f.endpoint raw_res) name (ok path) d
            (record_one J P O config store f st).1.dir written (inr apart) in
        (
          enc ∙ ap (lookup (enc_name (sanitize_filename P.K name))) same,
          json ∙ ap (lookup (json_name (sanitize_filename P.K name))) same,
        )

    -- The rounds of a loop that succeeds.
    pub record_results-ok :
        (f : Fetched J) (results : List (Fetched J)) (st : State J P O config) (n : ℕ)
        → (record_results J P O config store (f ∷ results) st).0 ≡ ok n
        → (path : String) × (m : ℕ) × ((record_one J P O config store f st).0 ≡ ok path)
          × ((record_results J P O config store results (record_one J P O config store f st).1).0
              ≡ ok m)
          × ((record_results J P O config store (f ∷ results) st).1
              ≡ (record_results J P O config store results
                  (record_one J P O config store f st).1).1)
    unfolding record_results
    record_results-ok f results st n h =
        elim (Result-cases (record_one J P O config store f st).0) [
          | inr (e, failed) ↦ absurd (ground (arith, h, failed))
          | inl (path, one) ↦
              elim (Result-cases
                (record_results J P O config store results
                  (record_one J P O config store f st).1).0) [
                    | inr (e, failed) ↦ absurd (ground (arith, h, one, failed))
                    | inl (m, others) ↦ (path, m, one, others, ground (arith, one, others))
                  ]
        ]

    -- No endpoint of the list has the safe name.
    abbrev pub IsFresh : String → List (Fetched J) → Type 0
    IsFresh name [] = Unit
    IsFresh name (f ∷ results) =
        (sanitize_filename P.K name ≢ safe f.endpoint) × IsFresh name results

    pub record_results-SameFiles :
        (results : List (Fetched J)) (st : State J P O config) (n : ℕ) (name : String)
        → (record_results J P O config store results st).0 ≡ ok n
        → IsFresh name results
        → SameFiles name st.dir (record_results J P O config store results st).1.dir
    unfolding record_results
    record_results-SameFiles [] st n name h fresh = (refl, refl)
    record_results-SameFiles (f ∷ results) st n name h (apart, fresh) =
        let (path, m, one, others, is) = record_results-ok f results st n h in
        let (enc, json) = record_one-SameFiles f st path name one apart in
        let (enc', json') =
          record_results-SameFiles results (record_one J P O config store f st).1 m name others
            fresh in
        (
          ap
                (λ (s : State J P O config).
                  lookup (enc_name (sanitize_filename P.K name)) s.dir.files)
                is
              ∙ (enc' ∙ enc),
          ap
                (λ (s : State J P O config).
                  lookup (json_name (sanitize_filename P.K name)) s.dir.files)
                is
              ∙ (json' ∙ json),
        )
