-- ===== src/Engine/Masker.antt =====
-- src/engine/masker.rs: the removal of noise and secrets from JSON trees. The regular expressions
-- are the crate `regex`'s, and stand in the parameter `Patterns`.
pub mod Segments
pub mod Luhn
pub mod Strict
pub mod Idempotent
pub mod Precedence
pub mod Overrides
pub mod Secrets
use Prim.Native.Char.{Char, code}
use Prim.Native.String
use text.Mathlib.Text.{starts_with}
use apisnap.Common.{
  ℕ, zero, suc, ◌+◌, ◌*◌, ◌-◌, ◌%◌, ◌≡◌, refl, String, Bool, true, false, not, ◌&&◌, ◌||◌, Option,
  none, some, List, [], ◌∷◌, ◌++◌, map, Dict, lookup, insert, length, get_elem?, ltb, leb, ◌==◌,
  str_eq, ◌<>◌, show_ℕ, if◌then◌else◌,
}
use apisnap.Json.{
  Value, null, bool, number, string, array, object, Items, nil, cons, Fields, end, field,
}
use apisnap.Config.{CustomMaskRule, MaskingConfig}
use apisnap.Engine.JitRule.{fnv1a_hash, no_match, compile_rules, new_engine}
use apisnap.Engine.Masker.Luhn.{is_credit_card_luhn}
use apisnap.Engine.Masker.Segments.{
  PathSegment, root, key, index, wildcard_array, parse_json_path_to_segments, segments_match,
  segments_to_string_path,
}

-- The patterns of the crate `regex`, compiled from a text or named by the source, and the printing
-- of a number.
pub record Patterns (N : Type 0) : Type 1 where
  pub Regex : Type 0
  pub compile : String → Option Regex
  pub replace_all : Regex → String → String → String
  pub is_uuid : String → Bool
  pub is_jwt : String → Bool
  pub is_object_id : String → Bool
  pub is_ssn : String → Bool
  pub is_email : String → Bool
  pub is_iso8601 : String → Bool
  pub is_unix_epoch : String → Bool
  pub is_key_time_hint : String → Bool
  pub is_aws_key : String → Bool
  pub has_private_key_header : String → Bool
  pub show_number : N → String

pub record ParsedMaskRule : Type 0 where
  pub segments : List PathSegment
  pub rule : CustomMaskRule

pub record MaskContext (Regex : Type 0) : Type 0 where
  pub enable_builtin_heuristics : Bool
  pub strict_pii_mode : Bool
  pub max_depth : ℕ
  pub unmask_allow_list : List String
  pub tokenized_rules : List ParsedMaskRule
  pub precompiled_patterns : Dict Regex
  pub jit_match_fn : Option (List ℕ → ℕ)

abbrev pub str_contains : List String → String → Bool
str_contains [] s = false
str_contains (x ∷ xs) s = if str_eq x s then true else str_contains xs s

-- `s.ends_with('>')`
unfoldable pub ends_with_gt : String → Bool
ends_with_gt String.[] = false
ends_with_gt (String.◌∷◌ c String.[]) = code c == b'>'
ends_with_gt (String.◌∷◌ c (String.◌∷◌ d s)) = ends_with_gt (String.◌∷◌ d s)

unfoldable pub is_masked_token : String → Bool
unfolding ends_with_gt
is_masked_token s = starts_with s "<MASKED_" && ends_with_gt s

unfoldable pub is_leaf : {N : Type 0} → Value N → Bool
is_leaf (string s) = true
is_leaf (number n) = true
is_leaf (bool b) = true
is_leaf null = false
is_leaf (array vs) = false
is_leaf (object fs) = false

-- The loop of `match_tokenized_rule` over all rules.
unfoldable pub first_match : List ParsedMaskRule → List PathSegment → Option CustomMaskRule
first_match [] current = none
first_match (p ∷ rules) current =
    if segments_match p.segments current then some p.rule else first_match rules current

abbrev pub is_key : PathSegment → Bool
is_key (key k) = true
is_key _ = false

abbrev pub all_keys : List PathSegment → Bool
all_keys [] = true
all_keys (s ∷ segments) = is_key s && all_keys segments

abbrev pub segment_hash : PathSegment → ℕ
segment_hash (key k) = fnv1a_hash k
segment_hash _ = 0

abbrev pub skip_root : List PathSegment → List PathSegment
skip_root [] = []
skip_root (s ∷ segments) = segments

abbrev pub rule_of : ParsedMaskRule → CustomMaskRule
rule_of p = p.rule

abbrev pub rule_number : List ParsedMaskRule → ℕ → Option CustomMaskRule
rule_number rules i = elim (get_elem? rules i) [ some p ↦ some p.rule | none ↦ none ]

module _ {Regex : Type 0} where
  unfoldable pub match_tokenized_rule : MaskContext Regex → List PathSegment → Option CustomMaskRule
  unfolding first_match
  match_tokenized_rule ctx current = elim ctx.jit_match_fn [
    | none ↦ first_match ctx.tokenized_rules current
    | some jit_fn ↦
        let match_idx = jit_fn (map segment_hash (skip_root current)) in
        if all_keys (skip_root current) && ltb 1 (length current)
        then if not (match_idx == no_match) && ltb match_idx (length ctx.tokenized_rules)
          then rule_number ctx.tokenized_rules match_idx
          else first_match ctx.tokenized_rules current
        else first_match ctx.tokenized_rules current
  ]

abbrev pub masked_uuid : String
masked_uuid = "<MASKED_UUID>"

abbrev pub masked_jwt : String
masked_jwt = "<MASKED_JWT>"

abbrev pub masked_object_id : String
masked_object_id = "<MASKED_OBJECT_ID>"

abbrev pub masked_timestamp : String
masked_timestamp = "<MASKED_TIMESTAMP>"

abbrev pub masked_epoch : String
masked_epoch = "<MASKED_EPOCH>"

abbrev pub masked_credit_card : String
masked_credit_card = "<MASKED_CREDIT_CARD>"

abbrev pub masked_ssn : String
masked_ssn = "<MASKED_SSN>"

abbrev pub masked_email : String
masked_email = "<MASKED_EMAIL>"

abbrev pub redacted : String
redacted = "<REDACTED>"

abbrev pub depth_exceeded : String
depth_exceeded = "<DEPTH_EXCEEDED>"

module _ {N : Type 0} (R : Patterns N) where
  open R use {
    Regex, compile, replace_all, is_uuid, is_jwt, is_object_id, is_ssn, is_email, is_iso8601,
    is_unix_epoch, is_key_time_hint, is_aws_key, has_private_key_header, show_number,
  }

  abbrev add_pattern : CustomMaskRule → Dict Regex → Dict Regex
  add_pattern rule patterns = elim rule.pattern [
    | none ↦ patterns
    | some pattern_str ↦ elim (lookup pattern_str patterns) [
      | some _ ↦ patterns
      | none ↦ elim (compile pattern_str) [
        | some re ↦ insert pattern_str re patterns
        | none ↦ patterns
      ]
    ]
  ]

  -- The two loops of `MaskContext::new`, over the rules one after the other.
  unfoldable pub tokenize : List CustomMaskRule → List ParsedMaskRule
  unfolding parse_json_path_to_segments
  tokenize [] = []
  tokenize (rule ∷ rules) =
      record { segments = parse_json_path_to_segments rule.json_path; rule = rule } ∷ tokenize rules

  unfoldable pub compile_patterns : List CustomMaskRule → Dict Regex → Dict Regex
  unfolding insert
  compile_patterns [] patterns = patterns
  compile_patterns (rule ∷ rules) patterns = compile_patterns rules (add_pattern rule patterns)

  abbrev pub rule_paths : List CustomMaskRule → List String
  rule_paths [] = []
  rule_paths (rule ∷ rules) = rule.json_path ∷ rule_paths rules

  abbrev pub jit_of : List CustomMaskRule → Option (List ℕ → ℕ)
  jit_of [] = none
  jit_of (rule ∷ rules) = some (compile_rules (rule_paths (rule ∷ rules)) new_engine).0

  unfoldable pub new_context : MaskingConfig → List CustomMaskRule → MaskContext Regex
  unfolding tokenize compile_patterns
  new_context global_config overrides = record {
    enable_builtin_heuristics = global_config.enable_builtin_heuristics;
    strict_pii_mode = global_config.strict_pii_mode;
    max_depth = 512;
    unmask_allow_list = global_config.unmask_allow_list;
    tokenized_rules = tokenize (global_config.custom_rules ++ overrides);
    precompiled_patterns = compile_patterns (global_config.custom_rules ++ overrides) [];
    jit_match_fn = jit_of (global_config.custom_rules ++ overrides);
  }

  unfoldable pub apply_pattern : Regex → String → Value N → Value N
  apply_pattern re replacement (string s) = string (replace_all re s replacement)
  apply_pattern re replacement v = v

  unfoldable pub apply_custom_rule : Value N → CustomMaskRule → Dict Regex → Value N
  unfolding apply_pattern
  apply_custom_rule v rule patterns = elim rule.pattern [
    | none ↦ string rule.replacement
    | some pattern_str ↦ elim (lookup pattern_str patterns) [
      | some re ↦ apply_pattern re rule.replacement v
      | none ↦ v
    ]
  ]

  -- The ladder over the patterns.
  unfoldable pub mask_text : String → String
  unfolding is_credit_card_luhn
  mask_text s =
      if is_uuid s
      then masked_uuid
      else if is_jwt s
      then masked_jwt
      else if is_object_id s
      then masked_object_id
      else if is_ssn s
      then masked_ssn
      else if is_credit_card_luhn s
      then masked_credit_card
      else if is_email s
      then masked_email
      else if is_iso8601 s
      then masked_timestamp
      else s

  unfoldable pub mask_string : MaskContext Regex → String → String
  mask_string ctx s =
      if ctx.enable_builtin_heuristics then if is_masked_token s then s else mask_text s else s

  abbrev pub has_time_hint : Option String → Bool
  has_time_hint none = false
  has_time_hint (some k) = is_key_time_hint k

  unfoldable pub mask_number : MaskContext Regex → N → Option String → Value N
  mask_number ctx num parent_key =
      if ctx.enable_builtin_heuristics
        && (has_time_hint parent_key && is_unix_epoch (show_number num))
      then string masked_epoch
      else number num

  -- Steps 1 and 2 of `mask_recursive`, and before them the depth; `inner` is what the match on the
  -- variant makes of the value.
  unfoldable pub guarded : MaskContext Regex → Value N → List PathSegment → ℕ → Value N → Value N
  guarded ctx val current_segments depth inner =
      if ltb ctx.max_depth depth
      then string depth_exceeded
      else elim (match_tokenized_rule ctx current_segments) [
        | some rule ↦ apply_custom_rule val rule ctx.precompiled_patterns
        | none ↦
            if ctx.strict_pii_mode
              && (is_leaf val
                  && not (
                      str_contains ctx.unmask_allow_list
                        (segments_to_string_path current_segments)))
            then string redacted
            else inner
      ]

  module _ (ctx : MaskContext Regex) where
    unfoldable mutual
      pub mask_recursive : Value N → List PathSegment → Option String → ℕ → Value N
      mask_recursive null segs parent_key depth = guarded ctx null segs depth null
      mask_recursive (bool b) segs parent_key depth = guarded ctx (bool b) segs depth (bool b)
      mask_recursive (number n) segs parent_key depth =
          guarded ctx (number n) segs depth (mask_number ctx n parent_key)
      mask_recursive (string s) segs parent_key depth =
          guarded ctx (string s) segs depth (string (mask_string ctx s))
      mask_recursive (array vs) segs parent_key depth =
          guarded ctx (array vs) segs depth (array (mask_items vs zero segs parent_key (suc depth)))
      mask_recursive (object fs) segs parent_key depth =
          guarded ctx (object fs) segs depth (object (mask_fields fs segs (suc depth)))

      pub mask_items : Items N → ℕ → List PathSegment → Option String → ℕ → Items N
      mask_items nil idx segs parent_key depth = nil
      mask_items (cons v vs) idx segs parent_key depth =
          cons (mask_recursive v (segs ++ index idx ∷ []) parent_key depth)
            (mask_items vs (suc idx) segs parent_key depth)

      pub mask_fields : Fields N → List PathSegment → ℕ → Fields N
      mask_fields end segs depth = end
      mask_fields (field k v fs) segs depth =
          field k (mask_recursive v (segs ++ key k ∷ []) (some k) depth) (mask_fields fs segs depth)

    unfoldable pub mask_value : Value N → Value N
    unfolding mask_recursive guarded match_tokenized_rule apply_custom_rule is_leaf mask_string
        mask_text is_masked_token mask_number segments_to_string_path
    mask_value val = mask_recursive val (root ∷ []) none 0
