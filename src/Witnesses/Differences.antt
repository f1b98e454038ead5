-- ===== src/Witnesses/Differences.antt =====
-- The theorems on the comparison and on the blast radius, applied.
use apisnap.Common.{
  ℕ, ◌≤◌, ◌≡◌, refl, arith, ==_iff, String, true, false, none, some, [], ◌∷◌, ◌&&◌, ◌⊎◌, inl, inr,
  In, ◌∙◌, btree_insert, ◌↔◌, subst, sym, ap, is_empty,
}
use apisnap.Json.{null, nesting}
use apisnap.Config.{ordered, set, UpstreamDependency, EndpointConfig, http, get}
use apisnap.Engine.Differ.{
  DiffKind, removed, DiffOptions, default_options, array_mode, collect_from, numbers_match,
  compare_json_ast,
}
use apisnap.Engine.Differ.Same.{Same}
use apisnap.Engine.Differ.Complete.{
  compare_json_ast_sound, compare_json_ast-eq-nil_iff, compare_json_ast_self,
}
use apisnap.Engine.BlastRadius.{BlastRadiusFinding, critical, calculate, classify, paths_of}
use apisnap.Engine.BlastRadius.Consumers.{breaking_path}
use apisnap.Engine.BlastRadius.Reach.{calculate_complete}
use apisnap.Witnesses.Data.{naturals, as_is, never_equal, user, user_reordered, user_reduced}

abbrev set_options : DiffOptions ℕ
set_options = record (default_options naturals) { array_modes = ("$.tags", set) ∷ [] }

quiet : compare_json_ast naturals as_is set_options never_equal user user_reordered ≡ []
unfolding compare_json_ast collect_from btree_insert array_mode
quiet = refl

compare_json_ast_sound_example :
    ((true && never_equal user user_reordered) ≡ true)
    ⊎ Same naturals as_is set_options user user_reordered "$"
compare_json_ast_sound_example =
    compare_json_ast_sound naturals as_is set_options never_equal user user_reordered quiet

all_ordered : (p : String) → array_mode (default_options naturals) p ≡ ordered
unfolding array_mode
all_ordered p = refl

shallow : nesting user ≤ 512
unfolding nesting
shallow = omega arith

compare_json_ast-eq-nil_iff_example :
    (compare_json_ast naturals as_is (default_options naturals) never_equal user user_reduced ≡ [])
    ↔ (((true && never_equal user user_reduced) ≡ true)
        ⊎ Same naturals as_is (default_options naturals) user user_reduced "$")
compare_json_ast-eq-nil_iff_example =
    compare_json_ast-eq-nil_iff naturals as_is (default_options naturals) never_equal user
      user_reduced all_ordered shallow

self_match : (x : ℕ) → numbers_match naturals 0 x x ≡ true
unfolding numbers_match
self_match x = ground (arith, (==_iff x x).1 refl)

compare_json_ast_self_example :
    compare_json_ast naturals as_is set_options never_equal user user ≡ []
compare_json_ast_self_example =
    compare_json_ast_self naturals as_is set_options never_equal user self_match shallow

abbrev on_tags : UpstreamDependency
on_tags = record {
  upstream_endpoint = "get_user";
  consumed_json_paths = "$.tags" ∷ "$.id" ∷ [];
  owning_team = some "billing";
}

abbrev on_tag : UpstreamDependency
on_tag = record {
  upstream_endpoint = "get_user";
  consumed_json_paths = "$.tags[0]" ∷ [];
  owning_team = none;
}

abbrev consumer : UpstreamDependency → EndpointConfig naturals
consumer dep = record {
  name = "invoice";
  protocol = http;
  method = get;
  path = "/invoice";
  headers = [];
  query_params = [];
  body = none;
  expected_status = 200;
  float_epsilon_override = none;
  mask_overrides = [];
  array_modes = [];
  upstream_dependencies = dep ∷ [];
}

abbrev no_tags : DiffKind ℕ
no_tags = removed "$.tags" null

calculate_complete_example :
    (f : BlastRadiusFinding) × In f
      (calculate naturals "get_user" (no_tags ∷ []) (consumer on_tags ∷ [])).findings
    × (f.affected_endpoint ≡ "invoice")
    × (f.affected_team ≡ some "billing")
    × (f.severity ≡ critical)
    × In "$.tags" f.triggering_paths
unfolding breaking_path
calculate_complete_example =
    calculate_complete naturals "get_user" (no_tags ∷ []) (consumer on_tags ∷ []) no_tags "$.tags"
      (consumer on_tags) on_tags (inl refl) refl (inl refl) (inl refl) refl (inr (inl refl))

abbrev tags_finding : BlastRadiusFinding
tags_finding = record {
  affected_endpoint = "invoice";
  affected_team = some "billing";
  triggering_paths = "$.tags" ∷ [];
  severity = critical;
}

tags_found :
    In tags_finding (calculate naturals "get_user" (no_tags ∷ []) (consumer on_tags ∷ [])).findings
unfolding calculate
tags_found = inl refl

only : {A : Type 0} (x y : A) → In x (y ∷ []) → x ≡ y
only x y (inl same) = same
only x y (inr nowhere) = absurd nowhere

tag_apart :
    (c : EndpointConfig naturals) (dep : UpstreamDependency)
    → In c (consumer on_tag ∷ [])
    → In dep c.upstream_dependencies
    → dep.upstream_endpoint ≡ "get_user"
    → (is_empty dep.consumed_json_paths ≡ false)
      × ((p : String) → In p dep.consumed_json_paths → ¬ In p (paths_of (no_tags ∷ [])))
unfolding paths_of classify
tag_apart c dep hc hd e =
    let is_c = only c (consumer on_tag) hc in
    let is_dep =
      only dep on_tag
        (subst (λ (x : EndpointConfig naturals). In dep x.upstream_dependencies) is_c hd) in
    let names : dep.consumed_json_paths ≡ "$.tags[0]" ∷ [] =
      ap (λ (x : UpstreamDependency). x.consumed_json_paths) is_dep in
    (
      ap is_empty names,
      λ p hp both.
          absurd
            (distinct (sym (only p "$.tags[0]" (subst (In p) names hp)) ∙ only p "$.tags" both)),
    )
  where
    distinct : ¬ (◌≡◌ {A = String} "$.tags[0]" "$.tags")
    distinct e = cc e
