-- ===== src/Witnesses/Fuzzing.antt =====
-- The theorems on the fuzzer, applied: one endpoint with a nested body, which answers every call.
use apisnap.Common.{
  ℕ, ◌+◌, ◌≡◌, refl, arith, ℤ, pos, negsuc, String, true, none, some, [], ◌∷◌, ok, inl, inr, length,
}
use apisnap.Json.{Value, number, string, object, end, field, Fields}
use apisnap.Config.{EndpointConfig, ApiSnapConfig, http, post, default_masking}
use apisnap.Cli.{RawResponse}
use apisnap.Fuzz.Paths.{PathSeg, key, index, parse_json_path}
use apisnap.Fuzz.Paths.Print.{path_below, parse_json_path-path_below, PlainSegment}
use apisnap.Fuzz.Edit.Lens.{at_path}
use apisnap.Fuzz.Mutator.Places.{OnlyAt}
use apisnap.Fuzz.Mutator.Complete.{
  HasCase, generate_mutations-missing_key, generate_mutations-probes,
}
use apisnap.Fuzz.Engine.{Fuzzing, run_fuzz, handle_fuzz, mutations_of}
use apisnap.Fuzz.Engine.Accounts.{verdicts, count_anomalies, run_fuzz-accounts}
use apisnap.Fuzz.Engine.Resilient.{Handled, handle_fuzz-missing_key}
use apisnap.Witnesses.Data.{naturals}

abbrev plain_key : String → PathSeg
plain_key k = key k

user_plain : PlainSegment (key "user")
user_plain = (
  λ e. cc,
  (
    λ e. omega (arith, e),
    λ e. omega (arith, e),
    (
      λ e. omega (arith, e),
      λ e. omega (arith, e),
      (
        λ e. omega (arith, e),
        λ e. omega (arith, e),
        (λ e. omega (arith, e), λ e. omega (arith, e), tt),
      ),
    ),
  ),
)

id_plain : PlainSegment (key "id")
id_plain = (
  λ e. cc,
  (
    λ e. omega (arith, e),
    λ e. omega (arith, e),
    (λ e. omega (arith, e), λ e. omega (arith, e), tt),
  ),
)

parse_json_path-path_below_example :
    parse_json_path (path_below "$" (key "user" ∷ index 12 ∷ key "id" ∷ []))
    ≡ key "user" ∷ index 12 ∷ key "id" ∷ []
parse_json_path-path_below_example =
    parse_json_path-path_below (key "user" ∷ index 12 ∷ key "id" ∷ [])
      (user_plain, (omega arith, (id_plain, tt)))

abbrev account : Fields ℕ
account = field "id" (number 7) end

abbrev body : Value ℕ
body = object (field "user" (object account) (field "note" (string "a") end))

abbrev natural : ℤ → ℕ
natural (pos n) = n
natural (negsuc n) = 0

at_user : at_path (key "user" ∷ []) body ≡ some (object account)
unfolding at_path
at_user = refl

at_note : at_path (key "note" ∷ []) body ≡ some (string "a")
unfolding at_path
at_note = refl

note_plain : PlainSegment (key "note")
note_plain = (
  λ e. cc,
  (
    λ e. omega (arith, e),
    λ e. omega (arith, e),
    (
      λ e. omega (arith, e),
      λ e. omega (arith, e),
      (
        λ e. omega (arith, e),
        λ e. omega (arith, e),
        (λ e. omega (arith, e), λ e. omega (arith, e), tt),
      ),
    ),
  ),
)

generate_mutations-missing_key_example : HasCase natural body (key "user" ∷ key "id" ∷ []) none
generate_mutations-missing_key_example =
    generate_mutations-missing_key natural body (key "user" ∷ []) "id" account (number 7)
      (user_plain, (id_plain, tt)) at_user refl (refl, tt)

generate_mutations-probes_example : HasCase natural body (key "note" ∷ []) (some (string ""))
generate_mutations-probes_example =
    generate_mutations-probes natural body [] (key "note") (string "a") (string "") (note_plain, tt)
      at_note (inr (inr (inl refl)))

abbrev endpoint : EndpointConfig naturals
endpoint = record {
  name = "users";
  protocol = http;
  method = post;
  path = "/users";
  headers = [];
  query_params = [];
  body = some body;
  expected_status = 200;
  float_epsilon_override = none;
  mask_overrides = [];
  array_modes = [];
  upstream_dependencies = [];
}

abbrev config : ApiSnapConfig naturals
config = record {
  concurrency = 10;
  max_depth = 512;
  float_epsilon = 0;
  normalize_unicode_keys = true;
  masking = default_masking;
  endpoints = endpoint ∷ [];
  snapshot_dir = "snapshots";
}

abbrev refused : RawResponse ℕ
refused = record {
  body = string "bad request";
  status_code = 400;
  headers = [];
  duration_ms = 3;
  trace_context = none;
}

abbrev fuzzing : Fuzzing naturals
fuzzing = record {
  execute = λ calls ep. ok refused;
  to_string = λ v. "bad request";
  display = λ e. "error";
  from_i64 = natural;
}

run_fuzz-accounts_example :
    ((run_fuzz naturals fuzzing 0 endpoint).results
      ≡ verdicts naturals fuzzing endpoint 0 (mutations_of naturals fuzzing endpoint))
    × ((run_fuzz naturals fuzzing 0 endpoint).anomaly_count
        ≡ count_anomalies (run_fuzz naturals fuzzing 0 endpoint).results)
    × ((run_fuzz naturals fuzzing 0 endpoint).resilient_count
          + (run_fuzz naturals fuzzing 0 endpoint).anomaly_count
        ≡ (run_fuzz naturals fuzzing 0 endpoint).total_mutations)
    × ((run_fuzz naturals fuzzing 0 endpoint).total_mutations
        ≡ length (mutations_of naturals fuzzing endpoint))
run_fuzz-accounts_example = run_fuzz-accounts naturals fuzzing endpoint 0

passes : handle_fuzz naturals fuzzing config none ≡ ok tt
unfolding handle_fuzz
passes = refl

handle_fuzz-missing_key_example :
    (sent : Value ℕ) × OnlyAt (key "user" ∷ key "id" ∷ []) none body sent
    × Handled naturals fuzzing endpoint sent
handle_fuzz-missing_key_example =
    handle_fuzz-missing_key naturals fuzzing config none endpoint (key "user" ∷ []) "id" account
      (number 7) passes (inl refl) (user_plain, (id_plain, tt)) at_user refl (refl, tt)
