-- ===== src/Importer/Curl.antt =====
-- src/importer/curl.rs: an endpoint from a command line of cURL. What the program takes from the
-- standard library and from the crates `url` and `serde_json` is the parameter `Words`.
pub mod Tokens
pub mod Encode
pub mod Quotes
pub mod Base64
use Prim.Native.Char.{Char, code}
use Prim.Native.String
use text.Mathlib.Text.{starts_with}
use apisnap.Common.{
  ℕ, zero, suc, ◌+◌, ◌*◌, ◌/◌, ◌%◌, ◌==◌, ◌≡◌, refl, not, ◌&&◌, ◌||◌, String, Bool, true, false,
  Option, none, some, List, [], ◌∷◌, ◌++◌, Dict, insert, ◌<>◌, str_eq, Result, ok, err, ◌>>=◌,
  if◌then◌else◌,
}
use apisnap.Error.{ApiSnapError, invalid_config}
use apisnap.Json.{Numbers, Value}
use apisnap.Config.{HttpMethod, get, post, put, patch, delete, head, options, EndpointConfig, http}
use apisnap.Engine.JitRule.{push_char, as_bytes}
use apisnap.Importer.Curl.Tokens.{tokenize_command}
use apisnap.Importer.Curl.Encode.{base64_simple}
use apisnap.Openapi.Generate.{method_key}

-- What is taken from elsewhere: `trim`, `to_uppercase`, `char::is_alphanumeric`, the bytes' text, the
-- path and the query of a parsed URL, and `serde_json::from_str`.
pub record Words (N : Type 0) : Type 0 where
  pub trim : String → String
  pub to_uppercase : String → String
  pub is_alphanumeric : Char → Bool
  pub parse_url : String → Result String (String × Option String)
  pub from_str : String → Option (Value N)

pub data Flag : Type 0 where
  request header data_flag user positional : Flag

abbrev pub flag_of : String → Flag
flag_of token =
    if str_eq token "-X" || str_eq token "--request"
    then request
    else if str_eq token "-H" || str_eq token "--header"
    then header
    else if str_eq token "-d"
        || (str_eq token "--data"
            || (str_eq token "--data-raw"
                || (str_eq token "--data-binary" || str_eq token "--data-ascii")))
    then data_flag
    else if str_eq token "-u" || str_eq token "--user"
    then user
    else positional

abbrev pub is_get : HttpMethod → Bool
is_get get = true
is_get _ = false

-- `split_once(':')`, with the text before it so far.
abbrev pub split_colon : String → String → Option (String × String)
split_colon front String.[] = none
split_colon front (String.◌∷◌ c s) = elim (code c == b':') [
  | true ↦ some (front, s)
  | false ↦ split_colon (push_char front c) s
]

-- The variables of the loop over the tokens.
pub record Parsed : Type 0 where
  pub method : HttpMethod
  pub url_str : Option String
  pub headers : Dict String
  pub body_str : Option String

module _ (J : Numbers) (W : Words J.Number) where
  unfoldable pub parse_method : String → HttpMethod
  parse_method s =
      let upper = W.to_uppercase s in
      if str_eq upper "POST"
      then post
      else if str_eq upper "PUT"
      then put
      else if str_eq upper "DELETE"
      then delete
      else if str_eq upper "PATCH"
      then patch
      else if str_eq upper "HEAD"
      then head
      else if str_eq upper "OPTIONS"
      then options
      else get

  unfoldable pub take_header : String → Parsed → Parsed
  unfolding insert
  take_header header_line p = elim (split_colon "" header_line) [
    | none ↦ p
    | some (k, v) ↦ record p { headers = insert (W.trim k) (W.trim v) p.headers }
  ]

  abbrev pub take_data : String → Parsed → Parsed
  take_data arg p = record p {
    body_str = some arg;
    method = if is_get p.method then post else p.method;
  }

  unfoldable pub take_user : String → Parsed → Parsed
  unfolding insert base64_simple as_bytes
  take_user user_pass p = record p {
    headers = insert "Authorization" ("Basic " <> base64_simple (as_bytes user_pass)) p.headers;
  }

  abbrev pub take_positional : String → Parsed → Parsed
  take_positional token p =
      if starts_with token "-"
      then p
      else elim p.url_str [ none ↦ record p { url_str = some token } | some url ↦ p ]

  -- The loop: a flag with an argument takes two tokens; a flag that ends the line takes one, and does
  -- nothing.
  unfoldable pub parse_args : List String → Parsed → Parsed
  unfolding parse_method take_header take_user
  parse_args [] p = p
  parse_args (token ∷ []) p = elim (flag_of token) [
    | request ↦ p
    | header ↦ p
    | data_flag ↦ p
    | user ↦ p
    | positional ↦ take_positional token p
  ]
  parse_args (token ∷ arg ∷ tokens) p = elim (flag_of token) [
    | request ↦ parse_args tokens (record p { method = parse_method arg })
    | header ↦ parse_args tokens (take_header arg p)
    | data_flag ↦ parse_args tokens (take_data arg p)
    | user ↦ parse_args tokens (take_user arg p)
    | positional ↦ parse_args (arg ∷ tokens) (take_positional token p)
  ]

  abbrev pub sanitized : String → String
  sanitized String.[] = ""
  sanitized (String.◌∷◌ c path) =
      (if W.is_alphanumeric c then String.◌∷◌ c String.[] else "_") <> sanitized path

  -- `trim_matches('_')`
  abbrev pub trim_start : String → String
  trim_start String.[] = ""
  trim_start (String.◌∷◌ c s) =
      let rest = trim_start s in if code c == b'_' then rest else String.◌∷◌ c s

  abbrev pub trim_end : String → String
  trim_end String.[] = ""
  trim_end (String.◌∷◌ c s) =
      let rest = trim_end s in if str_eq rest "" && code c == b'_' then "" else String.◌∷◌ c rest

  unfoldable pub generate_endpoint_slug : HttpMethod → String → String
  generate_endpoint_slug method path =
      let clean_path = trim_end (trim_start (sanitized path)) in
      if str_eq clean_path ""
      then method_key method <> "_root"
      else method_key method <> "_" <> clean_path

  abbrev pub endpoint_of : Parsed → String → EndpointConfig J
  endpoint_of p path = record {
    name = generate_endpoint_slug p.method path;
    protocol = http;
    method = p.method;
    path = path;
    headers = p.headers;
    query_params = [];
    body = elim p.body_str [ none ↦ none | some b ↦ W.from_str b ];
    expected_status = 200;
    float_epsilon_override = none;
    mask_overrides = [];
    array_modes = [];
    upstream_dependencies = [];
  }

  abbrev pub path_of : String × Option String → String
  path_of (path, none) = path
  path_of (path, some query) = path <> "?" <> query

  abbrev pub refuse : {A : Type 0} → String → Result ApiSnapError A
  refuse reason = err (invalid_config "curl_import" reason)

  abbrev pub finish : Parsed → Result ApiSnapError (EndpointConfig J)
  finish p = elim p.url_str [
    | none ↦ refuse "No URL found in cURL command"
    | some raw_url ↦ elim (W.parse_url raw_url) [
      | err e ↦ refuse ("Invalid URL '" <> raw_url <> "': " <> e)
      | ok url ↦ ok (endpoint_of p (path_of url))
    ]
  ]

  abbrev pub tail : List String → List String
  tail [] = []
  tail (t ∷ tokens) = tokens

  unfoldable pub parse : String → Result ApiSnapError (EndpointConfig J)
  unfolding tokenize_command parse_args generate_endpoint_slug
  parse curl_cmd =
      let trimmed = W.trim curl_cmd in
      if starts_with trimmed "curl"
      then finish (
          parse_args (tail (tokenize_command trimmed))
            (record { method = get; url_str = none; headers = []; body_str = none }))
      else refuse "Command must start with 'curl'"
