-- ===== src/Witnesses/Commands.antt =====
-- The theorems on the commands, applied: one endpoint, one response, three endpoints in flight.
use apisnap.Common.{
  ◌+◌, ◌<◌, ℕ, ◌≤◌, ◌≡◌, refl, arith, ==_iff, eq_refl, Bool, true, false, ◌&&◌, str_eq, ◌==◌, none,
  some, List, [], ◌∷◌, ◌++◌, ok, In, ◌↔◌, inl, inr, subst, sym,
}
use apisnap.Json.{
  Value, null, bool, number, string, array, object, Items, nil, cons, Fields, end, field,
}
use apisnap.Config.{EndpointConfig, ApiSnapConfig, http, get, default_masking}
use apisnap.Snapshot.Approvals.{absent}
use apisnap.Snapshot.Store.{Dir}
use apisnap.Storage.Merkle.{put_node, write_if_absent, compute_hash}
use apisnap.Cli.{RawResponse, Program, Round, Fetched, filter_endpoints}
use apisnap.Cli.Dispatch.{Pool, Event, joined, start, join_all, dispatch_requests}
use apisnap.Cli.Dispatch.Complete.{count_if, join_all_bounded, dispatch_requests_complete}
use apisnap.Cli.Dispatch.Ends.{dispatch_requests_ends}
use apisnap.Cli.Test.{
  test_all, test_store, approvals_of, handle_test, Response, fetched, concurrency_of,
}
use apisnap.Cli.Test.Verdict.{Passes, test_all-ok_iff, handle_test-Passes}
use apisnap.Cli.Record.{Observer, State, record_store, record_results}
use apisnap.Cli.Record.Replay.{IsReady, record_results-test_all}
use apisnap.Witnesses.Data.{naturals, as_is}
use apisnap.Witnesses.Snapshots.{
  crates, crates-IsReread, crates-IsAead, all_well, nonce, empty_dir, master,
}

-- Equality of trees.
unfoldable mutual
  pub same_value : Value ℕ → Value ℕ → Bool
  same_value null null = true
  same_value (bool true) (bool true) = true
  same_value (bool false) (bool false) = true
  same_value (number n) (number m) = n == m
  same_value (string s) (string t) = str_eq s t
  same_value (array vs) (array ws) = same_items vs ws
  same_value (object fs) (object gs) = same_fields fs gs
  same_value _ _ = false

  pub same_items : Items ℕ → Items ℕ → Bool
  same_items nil nil = true
  same_items (cons v vs) (cons w ws) = same_value v w && same_items vs ws
  same_items _ _ = false

  pub same_fields : Fields ℕ → Fields ℕ → Bool
  same_fields end end = true
  same_fields (field j v fs) (field k w gs) = str_eq j k && (same_value v w && same_fields fs gs)
  same_fields _ _ = false

mutual
  unfolding same_value

  same_value_self : (v : Value ℕ) → same_value v v ≡ true
  same_value_self null = refl
  same_value_self (bool true) = refl
  same_value_self (bool false) = refl
  same_value_self (number n) = (==_iff n n).1 refl
  same_value_self (string s) = eq_refl s
  same_value_self (array vs) = same_items_self vs
  same_value_self (object fs) = same_fields_self fs

  same_items_self : (vs : Items ℕ) → same_items vs vs ≡ true
  same_items_self nil = refl
  same_items_self (cons v vs) = rw (same_value_self v, same_items_self vs) refl

  same_fields_self : (fs : Fields ℕ) → same_fields fs fs ≡ true
  same_fields_self end = refl
  same_fields_self (field k v fs) = rw (eq_refl k, same_value_self v, same_fields_self fs) refl

abbrev three : List ℕ
three = 10 ∷ 20 ∷ 30 ∷ []

-- Two tasks in flight; the second ends first.
abbrev ends : List (Event ℕ)
ends = joined 1 200 ∷ joined 1 201 ∷ joined 0 202 ∷ []

dispatched : dispatch_requests 2 three ends ≡ some ((20, 200) ∷ (30, 201) ∷ (10, 202) ∷ [])
unfolding dispatch_requests
dispatched = refl

dispatch_requests_complete_example :
    count_if (λ (x : ℕ × ℕ). x.0 == 30) ((20, 200) ∷ (30, 201) ∷ (10, 202) ∷ [])
    ≡ count_if (λ n. n == 30) three
dispatch_requests_complete_example =
    dispatch_requests_complete 2 three ends ((20, 200) ∷ (30, 201) ∷ (10, 202) ∷ []) (omega arith)
      tt dispatched (λ n. n == 30)

one_ended :
    join_all {R = ℕ} (joined 1 200 ∷ []) (start 2 three)
    ≡ some (record { queue = []; join_set = 10 ∷ 30 ∷ []; results = (20, 200) ∷ [] })
unfolding join_all
one_ended = refl

abbrev in_flight : List ℕ
in_flight = 10 ∷ 30 ∷ []

dispatch_requests_ends_example :
    (1 + (0 + 2) ≡ 3)
    × (in_flight ≡ []
        → dispatch_requests {R = ℕ} 2 three (joined 1 200 ∷ []) ≡ some ((20, 200) ∷ []))
    × ((i res : ℕ)
        → i < 2
        → (q : Pool ℕ ℕ) × (join_all (joined 1 200 ∷ joined i res ∷ []) (start 2 three) ≡ some q))
dispatch_requests_ends_example =
    dispatch_requests_ends 2 three (joined 1 200 ∷ [])
      (record { queue = []; join_set = in_flight; results = (20, 200) ∷ [] }) one_ended

join_all_bounded_example : 2 ≤ 2
join_all_bounded_example =
    join_all_bounded 2 three (joined 1 200 ∷ [])
      (record { queue = []; join_set = 10 ∷ 30 ∷ []; results = (20, 200) ∷ [] }) tt one_ended

abbrev program : Program naturals
program = record { K = crates; nfc = as_is; value_eq = same_value }

abbrev users : EndpointConfig naturals
users = record {
  name = "users/list";
  protocol = http;
  method = get;
  path = "/users";
  headers = [];
  query_params = [];
  body = none;
  expected_status = 200;
  float_epsilon_override = none;
  mask_overrides = [];
  array_modes = [];
  upstream_dependencies = [];
}

abbrev config : ApiSnapConfig naturals
config = record {
  concurrency = 10;
  max_depth = 512;
  float_epsilon = 0;
  normalize_unicode_keys = true;
  masking = default_masking;
  endpoints = users ∷ [];
  snapshot_dir = "snapshots";
}

abbrev response : RawResponse ℕ
response = record {
  body = null;
  status_code = 200;
  headers = [];
  duration_ms = 12;
  trace_context = none;
}

abbrev round : Round
round = record { run = all_well; nonce = nonce; observed_at = "now"; recorded_at = "now" }

abbrev answer : Fetched naturals
answer = record { endpoint = users; raw_res_result = ok response; round = round }

abbrev observer : Observer naturals
observer = record {
  hex_encode = λ bytes. "hex";
  hex_decode = λ text. none;
  fuel = 3;
  readable = λ name. true;
  writable = λ name. true;
  millis = λ n. n;
  version = "1.0";
}

abbrev before : State naturals program observer config
before = record { dir = empty_dir; timeline = []; cas_cache = some [] }

recorded :
    (record_results naturals program observer config
      (record_store naturals program observer config (some master) true)
      (answer ∷ [])
      before).0
    ≡ ok 1
unfolding record_results put_node write_if_absent compute_hash
recorded = refl

ready :
    (f : Fetched naturals)
    → In f (answer ∷ [])
    → IsReady naturals program observer config
        (record_store naturals program observer config (some master) true)
        empty_dir
        f
ready f (inl is) =
    subst
      (IsReady naturals program observer config
        (record_store naturals program observer config (some master) true) empty_dir)
      (sym is) (refl, refl, inl (λ e. cc e))
ready f (inr nowhere) = absurd nowhere

expected :
    (f : Fetched naturals) (raw_res : RawResponse ℕ)
    → In f (answer ∷ [])
    → f.raw_res_result ≡ ok raw_res
    → f.endpoint.expected_status ≡ raw_res.status_code
expected f raw_res (inl is) answered = ground (arith, is, answered)
expected f raw_res (inr nowhere) answered = absurd nowhere

record_results-test_all_example :
    test_all naturals program config
      (test_store naturals program config (some master))
      (record_results naturals program observer config
        (record_store naturals program observer config (some master) true)
        (answer ∷ [])
        before).1.dir
      []
      (answer ∷ [])
    ≡ ok tt
record_results-test_all_example =
    record_results-test_all naturals program observer config crates-IsAead (some master) true []
      (answer ∷ []) before 1 same_value_self recorded (tt, tt) ready
      (λ f here raw_res answered. crates-IsReread _) expected

test_all-ok_iff_example :
    (test_all naturals program config
        (test_store naturals program config (some master))
        empty_dir
        []
        (answer ∷ [])
      ≡ ok tt)
    ↔ ((f : Fetched naturals)
        → In f (answer ∷ [])
        → Passes naturals program config
            (test_store naturals program config (some master))
            empty_dir
            []
            f)
test_all-ok_iff_example =
    test_all-ok_iff naturals program config (test_store naturals program config (some master))
      empty_dir [] (answer ∷ [])

-- The directory of the snapshot, written with the key.
abbrev recorded_dir : Dir crates
recorded_dir = record {
  is_there = true;
  files = ("users_list.snap.enc", nonce ++ 1 ∷ []) ∷ [];
  objects = [];
}

tested :
    handle_test naturals program config
      (some master)
      recorded_dir
      absent
      none
      none
      (joined 0 (ok response, round) ∷ [])
    ≡ some (ok tt)
unfolding handle_test same_value
tested = refl

handle_test-Passes_example :
    (results : List (EndpointConfig naturals × Response naturals)) × (r : Response naturals)
    × (dispatch_requests
          (concurrency_of naturals program config none)
          (filter_endpoints config.endpoints none)
          (joined 0 (ok response, round) ∷ [])
        ≡ some results)
    × In (users, r) results
    × Passes naturals program config
        (test_store naturals program config (some master))
        recorded_dir
        (approvals_of naturals program config absent)
        (fetched (users, r))
handle_test-Passes_example =
    handle_test-Passes naturals program config (some master) recorded_dir absent none none
      (joined 0 (ok response, round) ∷ []) users (omega arith) tt tested (inl refl)
