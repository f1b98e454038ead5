-- ===== src/Config.antt =====
-- src/config/config.rs: the configuration. The settings of the transport that no function here
-- reads (gRPC, time-outs, authentication) are left out.
use apisnap.Common.{ℕ, String, Bool, true, false, Option, List, [], Dict}
use apisnap.Json.{Numbers, Value}

pub data Protocol : Type 0 where
  http grpc : Protocol

pub data HttpMethod : Type 0 where
  get post put patch delete head options : HttpMethod

pub data ArrayDiffMode : Type 0 where
  ordered set : ArrayDiffMode

pub record UpstreamDependency : Type 0 where
  pub upstream_endpoint : String
  pub consumed_json_paths : List String
  pub owning_team : Option String

pub record CustomMaskRule : Type 0 where
  pub json_path : String
  pub replacement : String
  pub pattern : Option String

pub record MaskingConfig : Type 0 where
  pub enable_builtin_heuristics : Bool
  pub strict_pii_mode : Bool
  pub unmask_allow_list : List String
  pub pre_write_secret_scan : Bool
  pub custom_rules : List CustomMaskRule

-- `MaskingConfig::default()`
abbrev pub default_masking : MaskingConfig
default_masking = record {
  enable_builtin_heuristics = true;
  strict_pii_mode = false;
  unmask_allow_list = [];
  pre_write_secret_scan = true;
  custom_rules = [];
}

pub record EndpointConfig (J : Numbers) : Type 0 where
  pub name : String
  pub protocol : Protocol
  pub method : HttpMethod
  pub path : String
  pub headers : Dict String
  pub query_params : Dict String
  pub body : Option (Value J.Number)
  pub expected_status : ℕ
  pub float_epsilon_override : Option J.F64
  pub mask_overrides : List CustomMaskRule
  pub array_modes : Dict ArrayDiffMode
  pub upstream_dependencies : List UpstreamDependency

pub record ApiSnapConfig (J : Numbers) : Type 0 where
  pub concurrency : ℕ
  pub max_depth : ℕ
  pub float_epsilon : J.F64
  pub normalize_unicode_keys : Bool
  pub masking : MaskingConfig
  pub endpoints : List (EndpointConfig J)
  pub snapshot_dir : String
