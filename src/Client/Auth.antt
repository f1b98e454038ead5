-- ===== src/Client/Auth.antt =====
-- src/client/auth.rs: the providers that sign a request. The HTTP client is a parameter: what its
-- request builder is, which header names and values it takes, and what the token endpoint answers.
-- The token cache is shared by concurrent calls; Cache has their steps.
pub mod Cache
use apisnap.Common.{
  ℕ, ◌+◌, ◌*◌, ◌≡◌, refl, String, Bool, true, false, Option, none, some, List, [], ◌∷◌, Dict,
  insert, lookup, ltb, leb, ◌<>◌, show_ℕ, ◌&&◌, Result, ok, err, is_empty, if◌then◌else◌,
}
use apisnap.Error.{ApiSnapError, invalid_config, network}

pub data AuthConfig : Type 0 where
  bearer : (token : String) → AuthConfig
  api_key : (header_name api_key : String) → AuthConfig
  basic : (username : String) (password : Option String) → AuthConfig
  oauth2_client_credentials :
      (token_url client_id client_secret : String) (scopes : List String)
      (custom_params : Dict String)
      → AuthConfig

-- `Instant`, in nanoseconds.
abbrev pub from_secs : ℕ → ℕ
from_secs n = n * 1000000000

pub record TokenCache : Type 0 where
  pub access_token : String
  pub expires_at : ℕ

-- The check that both paths make: the cached token, unless it expires within 30 seconds.
abbrev pub fresh_token : ℕ → Option TokenCache → Option String
fresh_token now none = none
fresh_token now (some cache) =
    if ltb (now + from_secs 30) cache.expires_at then some cache.access_token else none

-- What the token endpoint answers: no connection, a status and a body, and for a success the parsed
-- text, or the parser's message.
pub data TokenAnswer : Type 0 where
  no_connection : TokenAnswer
  refused : (status body : String) → TokenAnswer
  unreadable : (message : String) → TokenAnswer
  granted : (access_token : String) (expires_in : Option ℕ) → TokenAnswer

abbrev pub default_expires_in : ℕ
default_expires_in = 3600

-- `serde` fills in the default.
abbrev pub expires_in_of : Option ℕ → ℕ
expires_in_of none = default_expires_in
expires_in_of (some n) = n

abbrev pub join_spaces : List String → String
join_spaces [] = ""
join_spaces (s ∷ []) = s
join_spaces (s ∷ t ∷ scopes) = s <> " " <> join_spaces (t ∷ scopes)

-- The custom parameters are inserted last.
abbrev pub insert_all : Dict String → Dict String → Dict String
insert_all [] form = form
insert_all ((k, v) ∷ custom_params) form = insert_all custom_params (insert k v form)

unfoldable pub token_form : String → String → List String → Dict String → Dict String
unfolding insert
token_form client_id client_secret scopes custom_params =
    let form =
      insert "client_secret" client_secret
        (insert "client_id" client_id (insert "grant_type" "client_credentials" [])) in
    insert_all custom_params
      (if is_empty scopes then form else insert "scope" (join_spaces scopes) form)

-- From the answer on, under the write lock: the result, and the cache. The time of the expiry is
-- taken to be one that an `Instant` can hold; beyond that the code panics, and caches nothing.
unfoldable pub store_answer :
    String → ℕ → TokenAnswer → Option TokenCache → Result ApiSnapError String × Option TokenCache
store_answer token_url now no_connection cache = (err (network token_url), cache)
store_answer token_url now (refused status body) cache = (
  err (
      invalid_config ("oauth2.token_endpoint '" <> token_url <> "'")
        ("Token endpoint returned HTTP " <> status <> ": " <> body)),
  cache,
)
store_answer token_url now (unreadable e) cache = (
  err (
      invalid_config ("oauth2.token_response from '" <> token_url <> "'")
        ("failed to parse token response: " <> e)),
  cache,
)
store_answer token_url now (granted access_token expires_in) cache = (
  ok access_token,
  some (record {
    access_token = access_token;
    expires_at = now + from_secs (expires_in_of expires_in);
  }),
)

-- `HeaderName::from_str` and `HeaderValue::from_str`, with their messages, and the request builder.
pub record Http : Type 1 where
  pub Builder : Type 0
  pub header_name : String → Result String String
  pub header_value : String → Result String String
  pub header : String → String → Builder → Builder
  pub basic_auth : String → Option String → Builder → Builder

pub data AuthProvider : Type 0 where
  static_bearer_auth : (token : String) → AuthProvider
  api_key_auth : (header_name api_key : String) → AuthProvider
  basic_auth : (username : String) (password : Option String) → AuthProvider
  oauth2_client_credentials_auth :
      (token_url client_id client_secret : String) (scopes : List String)
      (custom_params : Dict String)
      → AuthProvider

module _ (H : Http) where
  -- `ApiKeyAuth::new`
  unfoldable pub new_api_key_auth : String → String → Result ApiSnapError AuthProvider
  new_api_key_auth header_name key = elim (H.header_name header_name) [
    | err e ↦ err (
        invalid_config "auth.api_key.header_name"
          ("invalid header name '" <> header_name <> "': " <> e))
    | ok h_name ↦ elim (H.header_value key) [
      | err e ↦ err (invalid_config "auth.api_key.api_key" ("invalid header value: " <> e))
      | ok h_val ↦ ok (api_key_auth h_name h_val)
    ]
  ]

  -- `none` where the code panics: `expect` on the result above.
  unfoldable pub create_auth_provider : AuthConfig → Option AuthProvider
  unfolding new_api_key_auth
  create_auth_provider (bearer token) = some (static_bearer_auth token)
  create_auth_provider (api_key header_name key) = elim (new_api_key_auth header_name key) [
    | ok provider ↦ some provider
    | err e ↦ none
  ]
  create_auth_provider (basic username password) = some (basic_auth username password)
  create_auth_provider
        (oauth2_client_credentials token_url client_id client_secret scopes custom_params) =
      some (oauth2_client_credentials_auth token_url client_id client_secret scopes custom_params)

  abbrev pub with_bearer : String → String → String → H.Builder → Result ApiSnapError H.Builder
  with_bearer location reason token builder = elim (H.header_value ("Bearer " <> token)) [
    | err e ↦ err (invalid_config location (reason <> e))
    | ok header_val ↦ ok (H.header "authorization" header_val builder)
  ]

  -- `apply`, where a call of `get_valid_token` has the result `token_result`.
  unfoldable pub apply :
      AuthProvider → Result ApiSnapError String → H.Builder → Result ApiSnapError H.Builder
  apply (static_bearer_auth token) token_result builder =
      with_bearer "auth.bearer.token" "invalid header value: " token builder
  apply (api_key_auth header_name key) token_result builder = ok (H.header header_name key builder)
  apply (basic_auth username password) token_result builder =
      ok (H.basic_auth username password builder)
  apply (oauth2_client_credentials_auth url id secret scopes params) (err e) builder = err e
  apply (oauth2_client_credentials_auth url id secret scopes params) (ok token) builder =
      with_bearer "oauth2.token" "invalid token header value: " token builder
