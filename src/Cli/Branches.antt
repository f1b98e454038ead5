-- ===== src/Cli/Branches.antt =====
-- src/cli/commands.rs: `handle_test_branch_pointers`, which compares the snapshots that two branches
-- point to. One object store serves all the pointers. The printing is left out.
use apisnap.Common.{
  ℕ, ◌+◌, ◌≡◌, sym, ap, subst, ◌∙◌, inl, inr, String, Bool, true, false, ◌&&◌, none, some, List, [],
  ◌∷◌, Dict, lookup, is_empty, is_empty-nil, bind-ok, ok_inj, In, ltb, ◌<>◌, arith, Bool-cases,
  Result, ok, err, ◌>>=◌, refl, if◌then◌else◌,
}
use apisnap.Error.{ApiSnapError, diff_mismatch}
use apisnap.Json.{Numbers}
use apisnap.Config.{EndpointConfig, ApiSnapConfig}
use apisnap.Engine.Differ.{DiffReport, passed}
use apisnap.Snapshot.Files.{SnapshotFile}
use apisnap.Storage.Merkle.{Store}
use apisnap.Storage.Merkle.Tree.{view}
use apisnap.Storage.Pointer.View.{reconstruct_pointer-Alike}
use apisnap.Storage.Merkle.View.{SameView}
use apisnap.Storage.Pointer.{
  MerkleSnapshotPointer, Texts, PointerIo, pointer_path, load, reconstruct_pointer,
}
use apisnap.Cli.{Program, differences_of}

module _ (J : Numbers) (P : Program J) (T : Texts) (fuel : ℕ) (config : ApiSnapConfig J)
    (run : PointerIo) (files : Dict String) (baseline_ref candidate_ref : String) where
  abbrev pub there : String → Bool
  there path = elim (lookup path files) [ none ↦ false | some content ↦ true ]

  abbrev pub ptr_path : String → EndpointConfig J → String
  ptr_path ref endpoint = pointer_path T (config.snapshot_dir <> "/" <> ref) endpoint.name

  abbrev pub Cas : Type 0
  Cas = Store P.K.disk

  unfoldable pub branch_report :
      EndpointConfig J
      → MerkleSnapshotPointer
      → MerkleSnapshotPointer
      → SnapshotFile J.Number
      → SnapshotFile J.Number
      → DiffReport J.Number
  unfolding differences_of
  branch_report endpoint base_ptr cand_ptr base_snap cand_snap =
      let differences =
        differences_of J P config endpoint base_snap.masked_body cand_snap.masked_body in
      record {
        endpoint_name = endpoint.name;
        differences = differences;
        is_match = is_empty differences;
        expected_status = base_ptr.status_code;
        actual_status = cand_ptr.status_code;
        trace_context = none;
        trace_link = none;
      }

  -- The two snapshots, one after the other; the store goes on from one to the next.
  abbrev pub both_snapshots :
      Result ApiSnapError (SnapshotFile J.Number) × Cas
      → (Cas → Result ApiSnapError (SnapshotFile J.Number) × Cas)
      → Result ApiSnapError (SnapshotFile J.Number × SnapshotFile J.Number × Cas)
  both_snapshots (err e, cas) next = err e
  both_snapshots (ok base_snap, cas) next =
      (next cas).0 >>= λ cand_snap. ok (base_snap, cand_snap, (next cas).1)

  abbrev pub restore :
      MerkleSnapshotPointer → Cas → Result ApiSnapError (SnapshotFile J.Number) × Cas
  restore pointer cas = reconstruct_pointer T P.K.disk P.K.blake3 P.K.bits fuel pointer cas

  unfoldable pub compare_branches :
      EndpointConfig J → Cas → Result ApiSnapError (DiffReport J.Number × Cas)
  unfolding load branch_report
  compare_branches endpoint cas = load T run (ptr_path baseline_ref endpoint) files >>= λ base_ptr.
      load T run (ptr_path candidate_ref endpoint) files >>= λ cand_ptr.
      both_snapshots (restore base_ptr cas) (restore cand_ptr) >>= λ snaps.
      ok (branch_report endpoint base_ptr cand_ptr snaps.0 snaps.1, snaps.2)

  -- The loop: the number of reports that did not pass. An endpoint without both files is left out.
  unfoldable pub branch_mismatches : List (EndpointConfig J) → Cas → Result ApiSnapError ℕ
  unfolding compare_branches passed
  branch_mismatches [] cas = ok 0
  branch_mismatches (endpoint ∷ endpoints) cas =
      let rest = branch_mismatches endpoints in
      if there (ptr_path baseline_ref endpoint) && there (ptr_path candidate_ref endpoint)
      then (compare_branches endpoint cas >>= λ done. rest done.1 >>= λ total_mismatches.
          ok ((if passed done.0 then 0 else 1) + total_mismatches))
      else rest cas

  unfoldable pub handle_test_branch_pointers : Cas → Result {0, 0} ApiSnapError Unit
  unfolding branch_mismatches
  handle_test_branch_pointers cas = branch_mismatches config.endpoints cas >>= λ total_mismatches.
      if ltb 0 total_mismatches
      then err (
          diff_mismatch ("Branch diff (" <> baseline_ref <> " vs " <> candidate_ref <> ")")
            total_mismatches)
      else ok tt

  -- The snapshots of the two pointers are restored from the store, do not differ, and have one status.
  pub record Agrees (cas : Cas) (endpoint : EndpointConfig J) : Type 0 where
    pub base_ptr : MerkleSnapshotPointer
    pub cand_ptr : MerkleSnapshotPointer
    pub base_snap : SnapshotFile J.Number
    pub cand_snap : SnapshotFile J.Number
    pub base_loaded : load T run (ptr_path baseline_ref endpoint) files ≡ ok base_ptr
    pub cand_loaded : load T run (ptr_path candidate_ref endpoint) files ≡ ok cand_ptr
    pub base_restored : (restore base_ptr cas).0 ≡ ok base_snap
    pub cand_restored : (restore cand_ptr cas).0 ≡ ok cand_snap
    pub same_body :
        differences_of J P config endpoint base_snap.masked_body cand_snap.masked_body ≡ []
    pub same_status : base_ptr.status_code ≡ cand_ptr.status_code

  both_snapshots-ok :
      (r : Result ApiSnapError (SnapshotFile J.Number) × Cas)
      (next : Cas → Result ApiSnapError (SnapshotFile J.Number) × Cas) (a b : SnapshotFile J.Number)
      (after : Cas)
      → both_snapshots r next ≡ ok (a, b, after)
      → (r.0 ≡ ok a) × ((next r.1).0 ≡ ok b) × ((next r.1).1 ≡ after)
  both_snapshots-ok (err e, cas) next a b after h = cc
  both_snapshots-ok (ok x, cas) next a b after h =
      let (y, second, e) = bind-ok (next cas).0 (λ z. ok (x, z, (next cas).1)) (a, b, after) h in
      let same = ok_inj (x, y, (next cas).1) (a, b, after) e in
      (ap ok (ap (λ t. t.0) same), second ∙ ap ok (ap (λ t. t.1) same), ap (λ t. t.2) same)

  passed-branch_report :
      (endpoint : EndpointConfig J) (p q : MerkleSnapshotPointer) (a b : SnapshotFile J.Number)
      → passed (branch_report endpoint p q a b) ≡ true
      → (differences_of J P config endpoint a.masked_body b.masked_body ≡ [])
        × (p.status_code ≡ q.status_code)
  unfolding passed branch_report
  passed-branch_report endpoint p q a b h = (is_empty-nil _ (ground (arith, h)), ground (arith, h))

  -- A comparison that is made: its pointers, its snapshots, and its report.
  compare_branches_lem :
      (endpoint : EndpointConfig J) (cas : Cas) (report : DiffReport J.Number) (after : Cas)
      → compare_branches endpoint cas ≡ ok (report, after)
      → (p : MerkleSnapshotPointer) × (q : MerkleSnapshotPointer) × (a : SnapshotFile J.Number)
        × (b : SnapshotFile J.Number) × (load T run (ptr_path baseline_ref endpoint) files ≡ ok p)
        × (load T run (ptr_path candidate_ref endpoint) files ≡ ok q)
        × ((restore p cas).0 ≡ ok a)
        × ((restore q (restore p cas).1).0 ≡ ok b)
        × ((restore q (restore p cas).1).1 ≡ after)
        × (branch_report endpoint p q a b ≡ report)
  unfolding compare_branches
  compare_branches_lem endpoint cas report after run_ok =
      let (p, loaded, h) =
        bind-ok (load T run (ptr_path baseline_ref endpoint) files) _ (report, after) run_ok in
      let (q, loaded2, h2) =
        bind-ok (load T run (ptr_path candidate_ref endpoint) files) _ (report, after) h in
      let ((a, b, last), snaps, h3) =
        bind-ok (both_snapshots (restore p cas) (restore q)) _ (report, after) h2 in
      let same = ok_inj (branch_report endpoint p q a b, last) (report, after) h3 in
      let (first, second, third) = both_snapshots-ok (restore p cas) (restore q) a b last snaps in
      (p, q, a, b, loaded, loaded2, first, second, third ∙ ap (λ t. t.1) same, ap (λ t. t.0) same)

  compare_branches-SameView :
      (endpoint : EndpointConfig J) (cas : Cas) (report : DiffReport J.Number) (after : Cas)
      → compare_branches endpoint cas ≡ ok (report, after)
      → SameView P.K.disk cas after
  compare_branches-SameView endpoint cas report after run_ok g =
      let (p, q, _, _, _, _, _, _, last, _) =
        compare_branches_lem endpoint cas report after run_ok in
      let between = (restore p cas).1 in
      ap (λ t. view P.K.disk t g) (sym last)
      ∙ (reconstruct_pointer-Alike T P.K.disk P.K.blake3 P.K.bits fuel q between between
            (λ g. refl)).1
          g
      ∙ (reconstruct_pointer-Alike T P.K.disk P.K.blake3 P.K.bits fuel p cas cas (λ g. refl)).1 g

  -- The comparison as of an earlier store that holds the same.
  compare_branches-Agrees :
      (endpoint : EndpointConfig J) (before cas : Cas) (report : DiffReport J.Number) (after : Cas)
      → SameView P.K.disk before cas
      → compare_branches endpoint cas ≡ ok (report, after)
      → passed report ≡ true
      → Agrees before endpoint
  compare_branches-Agrees endpoint before cas report after views run_ok pass =
      let (p, q, a, b, loaded, loaded2, first, second, _, same) =
        compare_branches_lem endpoint cas report after run_ok in
      let (body, status) = passed-branch_report endpoint p q a b (ap passed same ∙ pass) in
      record {
        base_ptr = p;
        cand_ptr = q;
        base_snap = a;
        cand_snap = b;
        base_loaded = loaded;
        cand_loaded = loaded2;
        base_restored =
            (reconstruct_pointer-Alike T P.K.disk P.K.blake3 P.K.bits fuel p before cas views).0
            ∙ first;
        cand_restored =
            (reconstruct_pointer-Alike T P.K.disk P.K.blake3 P.K.bits fuel q before
              (restore p cas).1
              (λ g.
                (reconstruct_pointer-Alike T P.K.disk P.K.blake3 P.K.bits fuel p cas cas
                    (λ g. refl)).1
                  g
                ∙ views g)).0
            ∙ second;
        same_body = body;
        same_status = status;
      }

  abbrev both_there : EndpointConfig J → Bool
  both_there x = there (ptr_path baseline_ref x) && there (ptr_path candidate_ref x)

  -- The count for an endpoint that is compared, and for the others.
  abbrev counted : List (EndpointConfig J) → DiffReport J.Number × Cas → Result ApiSnapError ℕ
  counted eps done = branch_mismatches eps done.1 >>= λ total_mismatches.
      ok ((if passed done.0 then 0 else 1) + total_mismatches)

  branch_mismatches-skip :
      (x : EndpointConfig J) (eps : List (EndpointConfig J)) (cas : Cas)
      → both_there x ≡ false
      → branch_mismatches eps cas ≡ branch_mismatches (x ∷ eps) cas
  unfolding branch_mismatches
  branch_mismatches-skip x eps cas h = ground (arith, h)

  branch_mismatches-pair :
      (x : EndpointConfig J) (eps : List (EndpointConfig J)) (cas : Cas)
      → both_there x ≡ true
      → (compare_branches x cas >>= counted eps) ≡ branch_mismatches (x ∷ eps) cas
  unfolding branch_mismatches
  branch_mismatches-pair x eps cas h =
      ap (λ b. if b then (compare_branches x cas >>= counted eps) else branch_mismatches eps cas)
        (sym h)

  branch_mismatches-Agrees :
      (eps : List (EndpointConfig J)) (before cas : Cas) (endpoint : EndpointConfig J)
      → SameView P.K.disk before cas
      → branch_mismatches eps cas ≡ ok 0
      → In endpoint eps
      → there (ptr_path baseline_ref endpoint) ≡ true
      → there (ptr_path candidate_ref endpoint) ≡ true
      → Agrees before endpoint
  unfolding branch_mismatches
  branch_mismatches-Agrees [] before cas endpoint views h listed base cand = absurd listed
  branch_mismatches-Agrees (x ∷ eps) before cas endpoint views h listed base cand =
      elim (Bool-cases (both_there x)) [
        | inl both ↦
            let ((report, after), compared, h2) =
              bind-ok (compare_branches x cas) (counted eps) 0
                (branch_mismatches-pair x eps cas both ∙ h) in
            let (n, rest, h3) =
              bind-ok (branch_mismatches eps after) (λ n. ok ((if passed report then 0 else 1) + n))
                0 h2 in
            let none_bad : (if passed report then 0 else 1) + n ≡ 0 = ok_inj _ 0 h3 in
            elim listed [
              | inl same ↦ subst (Agrees before) (sym same) (
                  compare_branches-Agrees x before cas report after views compared
                    (ground (arith, none_bad)))
              | inr later ↦
                  branch_mismatches-Agrees eps before after endpoint
                    (λ g. compare_branches-SameView x cas report after compared g ∙ views g)
                    (rest ∙ ap ok (ground (arith, none_bad))) later base cand
            ]
        | inr other ↦ elim listed [
          | inl same ↦ absurd (ground (arith, other, same, base, cand))
          | inr later ↦
              branch_mismatches-Agrees eps before cas endpoint views
                (branch_mismatches-skip x eps cas other ∙ h) later base cand
        ]
      ]

  -- Where the command passes, each endpoint with a pointer file on both branches agrees: both
  -- pointers are loaded, both snapshots are what `reconstruct_pointer` restores from the object
  -- store that the command was given, whatever was restored in between, the comparison of their
  -- bodies reports nothing, and the two statuses are the same.
  pub handle_test_branch_pointers-Agrees :
      (cas : Cas) (endpoint : EndpointConfig J)
      → handle_test_branch_pointers cas ≡ ok tt
      → In endpoint config.endpoints
      → there (ptr_path baseline_ref endpoint) ≡ true
      → there (ptr_path candidate_ref endpoint) ≡ true
      → Agrees cas endpoint
  unfolding handle_test_branch_pointers
  handle_test_branch_pointers-Agrees cas endpoint h listed base cand =
      let (n, ends, h2) = bind-ok (branch_mismatches config.endpoints cas) _ tt h in
      branch_mismatches-Agrees config.endpoints cas cas endpoint (λ g. refl)
        (ends ∙ ap ok (ground (arith, h2))) listed base cand
