-- ===== src/Engine/BlastRadius/Reach.antt =====
-- Which findings the calculator reports: all that a breaking difference calls for, and no other.
use apisnap.Common.{
  ◌≡◌, ◌⊎◌, inl, inr, refl, ap, sym, subst, ◌∙◌, String, Bool, true, false, some, List, [], ◌∷◌,
  for_each, is_empty, In, In-for_each, In-for_each_cases, arith, if◌then◌else◌,
}
use apisnap.Json.{Numbers}
use apisnap.Config.{UpstreamDependency, EndpointConfig}
use apisnap.Engine.Differ.{DiffKind}
use apisnap.Engine.BlastRadius.{
  critical, warning, BlastRadiusFinding, paths_of, critical_of, consumption, dependency_findings,
  calculate, is_clean,
}
use apisnap.Engine.BlastRadius.Consumers.{
  breaking_path, classify-breaking_path, In-paths_of, In-critical_of, critical_of-paths_of,
  consumption-breaking, consumption-In, consumption-critical, finding_for, dependency_findings-In,
  In-dependency_findings,
}

module _ (J : Numbers) (changed : String) (diffs : List (DiffKind J.Number))
    (all_endpoints : List (EndpointConfig J)) where
  -- No breaking difference is missed: if a removed field, a type mismatch, a changed array length or
  -- an exceeded depth is reported at a path that a consumer of the changed endpoint names, or the
  -- consumer names no path at all, then the report holds a critical finding for that consumer and
  -- its team, and the path is among those that trigger it.
  pub calculate_complete :
      (d : DiffKind J.Number) (p : String) (c : EndpointConfig J) (dep : UpstreamDependency)
      → In d diffs
      → breaking_path d ≡ some p
      → In c all_endpoints
      → In dep c.upstream_dependencies
      → dep.upstream_endpoint ≡ changed
      → (is_empty dep.consumed_json_paths ≡ true) ⊎ In p dep.consumed_json_paths
      → (f : BlastRadiusFinding) × In f (calculate J changed diffs all_endpoints).findings
        × (f.affected_endpoint ≡ c.name)
        × (f.affected_team ≡ dep.owning_team)
        × (f.severity ≡ critical)
        × In p f.triggering_paths
  unfolding calculate
  calculate_complete d p c dep hd breaking hc hdep e consumed =
      let all = paths_of diffs in
      let crit = critical_of diffs in
      let (at, breaks_it) = classify-breaking_path d p breaking in
      let (path, breaks) =
        consumption-breaking all crit dep.consumed_json_paths p consumed
          (subst (λ q. In q all) at (In-paths_of diffs d hd))
          (subst (λ q. In q crit) at (In-critical_of diffs d hd breaks_it)) in
      (
        finding_for all crit c.name dep,
        In-for_each all_endpoints
            (λ consumer.
              for_each consumer.upstream_dependencies
                (dependency_findings changed all crit consumer.name))
            c (finding_for all crit c.name dep) hc
            (In-for_each c.upstream_dependencies (dependency_findings changed all crit c.name) dep
              (finding_for all crit c.name dep) hdep
              (In-dependency_findings all crit changed c.name dep p e path)),
        refl,
        refl,
        rw breaks,
        path,
      )

  -- Every finding is about a consumer of the changed endpoint and its team. It has a path; all its
  -- paths are paths of differences, which the consumer names, unless it names none; and a critical
  -- one has the path of a breaking difference among them.
  pub calculate_sound :
      (f : BlastRadiusFinding)
      → In f (calculate J changed diffs all_endpoints).findings
      → (c : EndpointConfig J) × (dep : UpstreamDependency) × In c all_endpoints
        × In dep c.upstream_dependencies
        × (dep.upstream_endpoint ≡ changed)
        × (f.affected_endpoint ≡ c.name)
        × (f.affected_team ≡ dep.owning_team)
        × ((p : String) × In p f.triggering_paths)
        × ((p : String)
            → In p f.triggering_paths
            → In p (paths_of diffs)
              × ((is_empty dep.consumed_json_paths ≡ true) ⊎ In p dep.consumed_json_paths))
        × (f.severity ≡ critical
            → (p : String) × In p f.triggering_paths × In p (critical_of diffs))
  unfolding calculate
  calculate_sound f h =
      let all = paths_of diffs in
      let crit = critical_of diffs in
      let (c, hc, h') = In-for_each_cases all_endpoints _ f h in
      let (dep, hdep, h'') =
        In-for_each_cases c.upstream_dependencies (dependency_findings changed all crit c.name) f
          h' in
      let (e, is, reached) = dependency_findings-In all crit changed c.name dep f h'' in
      (
        c,
        dep,
        hc,
        hdep,
        e,
        ap (λ (x : BlastRadiusFinding). x.affected_endpoint) is,
        ap (λ (x : BlastRadiusFinding). x.affected_team) is,
        let (p, hp) = first (consumption all crit dep.consumed_json_paths).0 reached in
            (p, subst (λ (x : BlastRadiusFinding). In p x.triggering_paths) (sym is) hp),
        λ p hp.
            consumption-In all crit dep.consumed_json_paths p
              (subst (λ (x : BlastRadiusFinding). In p x.triggering_paths) is hp),
        λ sev.
            subst (λ (x : BlastRadiusFinding). (p : String) × In p x.triggering_paths × In p crit)
              (sym is)
              (consumption-critical all crit (critical_of-paths_of diffs) dep.consumed_json_paths
                (severe _ (sym (ap (λ (x : BlastRadiusFinding). x.severity) is) ∙ sev))),
      )
    where
      severe : (b : Bool) → (if b then critical else warning) ≡ critical → b ≡ true
      severe b hb = ground arith

      first : (ps : List String) → is_empty ps ≡ false → (p : String) × In p ps
      first [] nothing = absurd (cc nothing)
      first (p ∷ ps) something = (p, inl refl)

  -- Paths are compared as whole texts: if every dependency on the changed endpoint names its paths,
  -- and none of them is literally the path of a difference, the report is clean, also where a
  -- difference is at an ancestor of a consumed path.
  pub calculate-is_clean :
      ((c : EndpointConfig J) (dep : UpstreamDependency)
        → In c all_endpoints
        → In dep c.upstream_dependencies
        → dep.upstream_endpoint ≡ changed
        → (is_empty dep.consumed_json_paths ≡ false)
          × ((p : String) → In p dep.consumed_json_paths → ¬ In p (paths_of diffs)))
      → is_clean (calculate J changed diffs all_endpoints) ≡ true
  unfolding is_clean
  calculate-is_clean apart = no_items (calculate J changed diffs all_endpoints).findings (λ f h.
      let (c, dep, hc, hdep, e, _, _, (p, hp), paths, _) = calculate_sound f h in
      let (named, unlike) = apart c dep hc hdep e in
      let (reached, consumed) = paths p hp in
      elim consumed [
        | inl nothing ↦ absurd (cc (named, nothing))
        | inr is_named ↦ unlike p is_named reached
      ])
    where
      no_items :
          (fs : List BlastRadiusFinding)
          → ((f : BlastRadiusFinding) → In f fs → ⊥)
          → is_empty fs ≡ true
      no_items [] none_in = refl
      no_items (f ∷ fs) none_in = absurd (none_in f (inl refl))
