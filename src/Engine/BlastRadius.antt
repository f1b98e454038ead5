-- ===== src/Engine/BlastRadius.antt =====
-- src/engine/blast_radius.rs: which consumers of an endpoint its differences reach.
pub mod Consumers
pub mod Reach
use apisnap.Common.{
  String, Bool, true, false, ◌||◌, not, Option, List, [], ◌∷◌, ◌++◌, map, for_each, is_empty,
  str_eq, if◌then◌else◌,
}
use apisnap.Json.{Numbers}
use apisnap.Config.{UpstreamDependency, EndpointConfig}
use apisnap.Engine.Differ.{
  DiffKind, added, removed, modified, type_mismatch, array_length_mismatch, depth_exceeded,
}

pub data BlastSeverity : Type 0 where
  critical warning : BlastSeverity

pub record BlastRadiusFinding : Type 0 where
  pub affected_endpoint : String
  pub affected_team : Option String
  pub triggering_paths : List String
  pub severity : BlastSeverity

pub record BlastRadiusReport : Type 0 where
  pub changed_endpoint : String
  pub modified_paths : List String
  pub findings : List BlastRadiusFinding

unfoldable pub is_clean : BlastRadiusReport → Bool
is_clean r = is_empty r.findings

-- `HashSet::contains`
abbrev pub contains : List String → String → Bool
contains [] p = false
contains (q ∷ ps) p = if str_eq q p then true else contains ps p

-- The match in the first loop: a difference's path, and whether it breaks a consumer.
unfoldable pub classify : {N : Type 0} → DiffKind N → String × Bool
classify (removed p v) = (p, true)
classify (type_mismatch p s t v w) = (p, true)
classify (added p v) = (p, false)
classify (modified p v w) = (p, false)
classify (array_length_mismatch p m n) = (p, true)
classify (depth_exceeded p n) = (p, true)

-- `modified_paths`, which is `all_diff_paths` too, and `critical_paths` after the first loop
unfoldable pub paths_of : {N : Type 0} → List (DiffKind N) → List String
unfolding classify
paths_of [] = []
paths_of (d ∷ ds) = (classify d).0 ∷ paths_of ds

unfoldable pub critical_of : {N : Type 0} → List (DiffKind N) → List String
unfolding classify
critical_of [] = []
critical_of (d ∷ ds) =
    let rest = critical_of ds in if (classify d).1 then (classify d).0 ∷ rest else rest

-- The loop over `dep.consumed_json_paths`: the triggered paths and `has_critical`.
unfoldable pub triggered : List String → List String → List String → List String × Bool
triggered all critical_paths [] = ([], false)
triggered all critical_paths (p ∷ ps) =
    let (paths, has_critical) = triggered all critical_paths ps in
    if contains all p
    then (p ∷ paths, contains critical_paths p || has_critical)
    else (paths, has_critical)

-- The two branches on whether the dependency names the paths that it consumes.
unfoldable pub consumption : List String → List String → List String → List String × Bool
unfolding triggered
consumption all critical_paths consumed =
    if is_empty consumed
    then (all, not (is_empty critical_paths))
    else triggered all critical_paths consumed

abbrev pub finding : String → UpstreamDependency → List String → Bool → BlastRadiusFinding
finding consumer dep paths has_critical = record {
  affected_endpoint = consumer;
  affected_team = dep.owning_team;
  triggering_paths = paths;
  severity = if has_critical then critical else warning;
}

-- The body of the loops over endpoints and their dependencies: at most one finding is pushed.
unfoldable pub dependency_findings :
    String → List String → List String → String → UpstreamDependency → List BlastRadiusFinding
dependency_findings changed all critical_paths consumer dep =
    let (paths, has_critical) = consumption all critical_paths dep.consumed_json_paths in
    if str_eq dep.upstream_endpoint changed
    then if is_empty paths then [] else finding consumer dep paths has_critical ∷ []
    else []

module _ (J : Numbers) where
  unfoldable pub calculate :
      String → List (DiffKind J.Number) → List (EndpointConfig J) → BlastRadiusReport
  unfolding paths_of critical_of consumption dependency_findings
  calculate changed diffs all_endpoints = record {
    changed_endpoint = changed;
    modified_paths = paths_of diffs;
    findings = for_each all_endpoints λ consumer.
        for_each consumer.upstream_dependencies
          (dependency_findings changed (paths_of diffs) (critical_of diffs) consumer.name);
  }
