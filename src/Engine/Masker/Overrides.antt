-- ===== src/Engine/Masker/Overrides.antt =====
-- Which of an endpoint's rules applies in the context that `MaskContext::new` builds: the global
-- rules come first, the endpoint's overrides behind them.
use apisnap.Common.{
  ℕ, zero, suc, ◌+◌, ◌<◌, ◌≤◌, ◌≡◌, refl, ap, ◌∙◌, arith, inl, inr, Option-cases, String, true,
  false, some, List, [], ◌∷◌, ◌++◌, map, length, get_elem?,
}
use apisnap.Config.{CustomMaskRule, MaskingConfig}
use apisnap.Engine.JitRule.{rule_hashes, fnv1a_hash, no_match, compile_rules}
use apisnap.Engine.JitRule.Lookup.{last_index, any_extends}
use apisnap.Engine.Masker.Segments.{PathSegment, root, parse_json_path_to_segments, segments_match}
use apisnap.Engine.Masker.{
  Patterns, MaskContext, jit_of, all_keys, skip_root, rule_number, match_tokenized_rule, tokenize,
  rule_paths, new_context,
}
use apisnap.Engine.Masker.Precedence.{keys_path, match_tokenized_rule-last}

last_index-lt :
    (idx : ℕ) (rules : List (List ℕ)) (q : List ℕ) (i : ℕ)
    → last_index idx rules q ≡ some i
    → idx + length rules ≤ no_match
    → i < idx + length rules
last_index-lt idx [] q i e room = absurd (ground (arith, e))
last_index-lt idx (p ∷ rules) q i e room = elim (Option-cases (last_index (suc idx) rules q)) [
  | inr (j, later) ↦ ground (arith, e, later, last_index-lt (suc idx) rules q i)
  | inl last ↦ ground (arith, e, last)
]

module _ {N : Type 0} (R : Patterns N) where
  length-tokenize : (rules : List CustomMaskRule) → length (tokenize R rules) ≡ length rules
  unfolding tokenize
  length-tokenize [] = refl
  length-tokenize (r ∷ rules) = ap suc (length-tokenize rules)

  length-rule_paths :
      (rules : List CustomMaskRule) → length (map rule_hashes (rule_paths R rules)) ≡ length rules
  length-rule_paths [] = refl
  length-rule_paths (r ∷ rules) = ap suc (length-rule_paths rules)

  rule_number-tokenize :
      (rules : List CustomMaskRule) (i : ℕ) → rule_number (tokenize R rules) i ≡ get_elem? rules i
  unfolding tokenize
  rule_number-tokenize [] i = refl
  rule_number-tokenize (r ∷ rules) zero = refl
  rule_number-tokenize (r ∷ rules) (suc i) = rule_number-tokenize rules i

  match_tokenized_rule-get_elem? :
      (ctx : MaskContext R.Regex) (rules : List CustomMaskRule) (k : String) (ks : List String)
      (i : ℕ)
      → ctx.jit_match_fn ≡ jit_of R rules
      → ctx.tokenized_rules ≡ tokenize R rules
      → last_index 0 (map rule_hashes (rule_paths R rules)) (map fnv1a_hash (k ∷ ks)) ≡ some i
      → any_extends (map rule_hashes (rule_paths R rules)) (map fnv1a_hash (k ∷ ks)) ≡ false
      → length rules ≤ no_match
      → match_tokenized_rule ctx (root ∷ keys_path (k ∷ ks)) ≡ get_elem? rules i
  unfolding compile_rules
  match_tokenized_rule-get_elem? ctx [] k ks i jit known last alone room = absurd (cc last)
  match_tokenized_rule-get_elem? ctx (r ∷ rules) k ks i jit known last alone room =
      let all = r ∷ rules in
      let size = length-rule_paths all in
      let bound : i < length all = omega (
        arith,
        size,
        last_index-lt 0 (map rule_hashes (rule_paths R all)) (map fnv1a_hash (k ∷ ks)) i last
            (omega (arith, size)),
      ) in
      let found =
        match_tokenized_rule-last ctx (rule_paths R all) k ks i jit last alone (omega arith)
          (omega (arith, ap length known, length-tokenize all)) in
      found ∙ (ap (λ ps. rule_number ps i) known ∙ rule_number-tokenize all i)

  -- At a path of object keys the last of the rules for that path applies, so an endpoint's override
  -- replaces a global rule: in the context made of at most 2^32 - 1 rules, if rule `i` is the last
  -- whose path has the hashes of the keys, and no rule's path goes on from there, rule `i` applies.
  pub new_context-last :
      (global_config : MaskingConfig) (overrides : List CustomMaskRule) (k : String)
      (ks : List String) (i : ℕ)
      → last_index 0
          (map rule_hashes (rule_paths R (global_config.custom_rules ++ overrides)))
          (map fnv1a_hash (k ∷ ks))
        ≡ some i
      → any_extends
          (map rule_hashes (rule_paths R (global_config.custom_rules ++ overrides)))
          (map fnv1a_hash (k ∷ ks))
        ≡ false
      → length (global_config.custom_rules ++ overrides) ≤ no_match
      → match_tokenized_rule (new_context R global_config overrides) (root ∷ keys_path (k ∷ ks))
        ≡ get_elem? (global_config.custom_rules ++ overrides) i
  unfolding new_context
  new_context-last global_config overrides k ks i last alone room =
      match_tokenized_rule-get_elem? (new_context R global_config overrides)
        (global_config.custom_rules ++ overrides) k ks i refl refl last alone room

  -- At a path with an array index the first of the rules that match applies, so a global rule
  -- replaces an endpoint's override: if the first global rule matches there, it applies, whatever
  -- the overrides are.
  pub new_context-first :
      (global_config : MaskingConfig) (overrides rest : List CustomMaskRule) (g : CustomMaskRule)
      (current : List PathSegment)
      → global_config.custom_rules ≡ g ∷ rest
      → all_keys (skip_root current) ≡ false
      → segments_match (parse_json_path_to_segments g.json_path) current ≡ true
      → match_tokenized_rule (new_context R global_config overrides) current ≡ some g
  unfolding new_context match_tokenized_rule tokenize
  new_context-first global_config overrides rest g current e indexed matches =
      rw e (rw (indexed, matches))
