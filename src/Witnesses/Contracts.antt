-- ===== src/Witnesses/Contracts.antt =====
-- The theorems on the OpenAPI tools, applied: the recorded snapshot of `users/list`, and a validator
-- that takes every body.
use apisnap.Common.{
  if◌then◌else◌, str_eq, String, show_ℕ, ℕ, ◌≡◌, refl, ◌↔◌, Bool, true, false, none, some, [], ◌∷◌,
  Dict, Result, ok, err,
}
use apisnap.Error.{ApiSnapError}
use apisnap.Json.{Value, number, string, object, field, end}
use apisnap.Config.{EndpointConfig, ApiSnapConfig, http, get, default_masking}
use apisnap.Snapshot.Store.{Dir}
use apisnap.Openapi.Infer.{infer_schema_from_value}
use apisnap.Openapi.Infer.Fits.{accepts, fits, format_of}
use apisnap.Openapi.Infer.Exact.{Keyed, accepts-infer_schema_from_value}
use apisnap.Openapi.Generate.{generate_paths}
use apisnap.Openapi.Verify.{
  OpenApiVerifyResult, Validator, Specs, no_result, verify_openapi_spec, report_drift,
}
use apisnap.Openapi.Verify.Counts.{IsBalanced, verify_openapi_spec-IsBalanced}
use apisnap.Openapi.Verify.Generated.{EndsClean, verify_endpoints-generate_paths}
use apisnap.Witnesses.Data.{naturals}
use apisnap.Witnesses.Snapshots.{crates, all_well}

abbrev whole : ℕ → Bool
whole n = true

abbrev recorded_body : Value ℕ
recorded_body = object (
    field "id" (number 7)
      (field "at" (string "<MASKED_EPOCH>") (field "mail" (string "<MASKED_EMAIL>") end)))

abbrev live_body : Value ℕ
live_body =
    object
      (field "mail" (string "a@b.c") (field "at" (number 1700000000) (field "id" (number 8) end)))

bodies_Keyed : Keyed recorded_body × Keyed live_body
unfolding Keyed
bodies_Keyed = (
  ((refl, (refl, (refl, tt))), (tt, (tt, (tt, tt)))),
  ((refl, (refl, (refl, tt))), (tt, (tt, (tt, tt)))),
)

-- A validator that asserts the format `email` alone.
abbrev email_only : String → String → Bool
email_only format text = if str_eq format "email" then str_eq text "a@b.c" else true

accepts-infer_schema_from_value_example :
    accepts whole email_only (infer_schema_from_value whole recorded_body) live_body
    ≡ fits whole email_only whole recorded_body live_body
accepts-infer_schema_from_value_example =
    accepts-infer_schema_from_value whole email_only whole recorded_body live_body bodies_Keyed.0
      bodies_Keyed.1

live_fits : fits whole email_only whole recorded_body live_body ≡ true
unfolding fits format_of
live_fits = refl

-- A placeholder is no email: the recorded text is not of the form that it stands for.
placeholder_does_not :
    fits whole email_only whole (string "<MASKED_EMAIL>") (string "<MASKED_EMAIL>") ≡ false
unfolding fits format_of
placeholder_does_not = refl

-- The recorded body itself has a text where the schema wants an integer.
recorded_does_not : fits whole email_only whole recorded_body recorded_body ≡ false
unfolding fits
recorded_does_not = refl

abbrev users : EndpointConfig naturals
users = record {
  name = "users/list";
  protocol = http;
  method = get;
  path = "/users";
  headers = [];
  query_params = [];
  body = none;
  expected_status = 200;
  float_epsilon_override = none;
  mask_overrides = [];
  array_modes = [];
  upstream_dependencies = [];
}

abbrev config : ApiSnapConfig naturals
config = record {
  concurrency = 10;
  max_depth = 512;
  float_epsilon = 0;
  normalize_unicode_keys = true;
  masking = default_masking;
  endpoints = users ∷ [];
  snapshot_dir = "snapshots";
}

abbrev dir : Dir crates
dir = record { is_there = true; files = ("users_list.snap.json", 1 ∷ []) ∷ []; objects = [] }

abbrev lenient : Validator ℕ
lenient = record { Schema = Unit; compile = λ v. ok tt; validate = λ c v. [] }

abbrev paths_or : Result ApiSnapError (Dict (Value ℕ)) → Dict (Value ℕ)
paths_or (ok paths) = paths
paths_or (err e) = []

abbrev paths : Dict (Value ℕ)
unfolding generate_paths
paths = paths_or (generate_paths naturals whole crates all_well "snapshots" dir (users ∷ []) [])

generated : generate_paths naturals whole crates all_well "snapshots" dir (users ∷ []) [] ≡ ok paths
unfolding generate_paths
generated = refl

abbrev specs : Specs ℕ
specs = record {
  read_to_string = λ path. some "{}";
  from_yaml = λ text. err "not YAML";
  from_json = λ text. ok (object (field "paths" (object end) end));
  to_uppercase = λ text. text;
  display = λ e. "error";
}

verify_endpoints-generate_paths_example :
    EndsClean naturals whole crates all_well "snapshots" dir lenient specs paths
      (users ∷ [])
      no_result
verify_endpoints-generate_paths_example =
    verify_endpoints-generate_paths naturals whole crates all_well "snapshots" dir lenient specs
      (users ∷ []) paths generated (tt, tt) ((λ snapshot e. (tt, refl, refl)), tt)

abbrev drifting : OpenApiVerifyResult
drifting = record {
  total_endpoints_checked = 1;
  matched_count = 0;
  drift_count = 1;
  errors =
      "Endpoint 'users/list' (get /users): Missing schema definition in OpenAPI spec for status 200"
      ∷ [];
}

verified :
    verify_openapi_spec naturals lenient specs crates all_well dir config "spec.json" ≡ ok drifting
unfolding verify_openapi_spec show_ℕ
verified = refl

verify_openapi_spec-IsBalanced_example :
    IsBalanced drifting
    × ((report_drift drifting ≡ ok tt)
        ↔ (drifting.matched_count ≡ drifting.total_endpoints_checked))
verify_openapi_spec-IsBalanced_example =
    verify_openapi_spec-IsBalanced naturals lenient specs crates all_well dir config "spec.json"
      drifting verified
