-- ===== src/Witnesses/Engine.antt =====
-- The theorems on the compiled rules and on the masker, applied.
use apisnap.Common.{
  ℕ, ◌≡◌, ◌≢◌, refl, arith, String, Bool, true, false, Option, none, some, List, [], ◌∷◌, map,
  subst, if◌then◌else◌,
}
use apisnap.Config.{CustomMaskRule}
use apisnap.Engine.JitRule.{
  rule_hashes, fnv1a_hash, insert_rule, update_child, build_from, build_trie, no_match, eval_trie,
  compile_trie,
}
use apisnap.Engine.JitRule.Lookup.{last_index, any_extends, build_trie_complete}
use apisnap.Engine.Masker.{MaskContext, first_match, match_tokenized_rule, mask_value}
use apisnap.Engine.Masker.Segments.{PathSegment, root, key, segments_match}
use apisnap.Engine.Masker.Precedence.{match_tokenized_rule-last}
use apisnap.Engine.Masker.Strict.{IsSafe, mask_value-IsSafe}
use apisnap.Engine.Masker.Idempotent.{mask_value_idem}
use apisnap.Witnesses.Data.{user, patterns}

abbrev twice : List (List ℕ)
twice = (1 ∷ 2 ∷ []) ∷ (3 ∷ []) ∷ (1 ∷ 2 ∷ []) ∷ []

found_twice : eval_trie (build_trie twice) (1 ∷ 2 ∷ 9 ∷ []) ≢ no_match
unfolding eval_trie build_trie insert_rule update_child build_from
found_twice e = absurd (omega (arith, e))

build_trie_complete_example : eval_trie (build_trie twice) (1 ∷ 2 ∷ 9 ∷ []) ≡ 2
build_trie_complete_example = build_trie_complete twice (1 ∷ 2 ∷ []) (9 ∷ []) 2 refl refl

abbrev hide_name : String → CustomMaskRule
hide_name replacement = record {
  json_path = "$.user.name";
  replacement = replacement;
  pattern = none;
}

abbrev name_paths : List String
name_paths = "$.user.name" ∷ "$.user.name" ∷ []

abbrev name_path : List PathSegment
name_path = root ∷ key "user" ∷ key "name" ∷ []

abbrev two_rules : MaskContext String
two_rules = record {
  enable_builtin_heuristics = true;
  strict_pii_mode = false;
  max_depth = 512;
  unmask_allow_list = [];
  tokenized_rules =
      record { segments = name_path; rule = hide_name "A" }
      ∷ record { segments = name_path; rule = hide_name "B" }
      ∷ [];
  precompiled_patterns = [];
  jit_match_fn = some (compile_trie name_paths);
}

name_last :
    last_index 0 (map rule_hashes name_paths) (map fnv1a_hash ("user" ∷ "name" ∷ [])) ≡ some 1
unfolding rule_hashes fnv1a_hash
name_last = refl

name_alone :
    any_extends (map rule_hashes name_paths) (map fnv1a_hash ("user" ∷ "name" ∷ [])) ≡ false
unfolding rule_hashes fnv1a_hash
name_alone = refl

-- The second of two rules for one path applies.
match_tokenized_rule-last_example : match_tokenized_rule two_rules name_path ≡ some (hide_name "B")
match_tokenized_rule-last_example =
    match_tokenized_rule-last two_rules name_paths "user" ("name" ∷ []) 1 refl name_last name_alone
      (λ e. absurd (omega (arith, e))) (omega arith)

abbrev without_jit : MaskContext String
without_jit = record two_rules { jit_match_fn = none }

plain_if :
    (first second : Bool) (rule : CustomMaskRule)
    → (if first then some (hide_name "A") else if second then some (hide_name "B") else none)
      ≡ some rule
    → rule.pattern ≡ none
plain_if true second rule e =
    subst (λ (o : Option CustomMaskRule). elim o [ none ↦ Unit | some r ↦ r.pattern ≡ none ]) e refl
plain_if false true rule e =
    subst (λ (o : Option CustomMaskRule). elim o [ none ↦ Unit | some r ↦ r.pattern ≡ none ]) e refl
plain_if false false rule e = cc e

plain :
    (segs : List PathSegment) (rule : CustomMaskRule)
    → match_tokenized_rule without_jit segs ≡ some rule
    → rule.pattern ≡ none
unfolding match_tokenized_rule first_match
plain segs rule e = plain_if (segments_match name_path segs) (segments_match name_path segs) rule e

mask_value_idem_example :
    mask_value patterns without_jit (mask_value patterns without_jit user)
    ≡ mask_value patterns without_jit user
mask_value_idem_example = mask_value_idem patterns without_jit plain user

abbrev strict : MaskContext String
strict = record two_rules {
  strict_pii_mode = true;
  unmask_allow_list = "$.id" ∷ [];
  tokenized_rules = [];
  jit_match_fn = none;
}

no_rules : (segs : List PathSegment) → match_tokenized_rule strict segs ≡ none
unfolding match_tokenized_rule first_match
no_rules segs = refl

mask_value-IsSafe_example : IsSafe ("$.id" ∷ []) (mask_value patterns strict user) (root ∷ [])
mask_value-IsSafe_example = mask_value-IsSafe patterns strict refl no_rules user
