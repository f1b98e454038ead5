-- ===== src/Engine/BlastRadius/Consumers.antt =====
-- What one dependency of a consumer contributes to the report.
use apisnap.Common.{
  ◌≡◌, ◌⊎◌, inl, inr, refl, ap, sym, subst, ◌∙◌, String, true, false, not, Option, none, some, List,
  [], ◌∷◌, is_empty, str_eq, In, arith, eq_iff, Bool-cases,
}
use apisnap.Config.{UpstreamDependency}
use apisnap.Engine.Differ.{
  DiffKind, added, removed, modified, type_mismatch, array_length_mismatch, depth_exceeded,
}
use apisnap.Engine.BlastRadius.{
  BlastRadiusFinding, contains, classify, paths_of, critical_of, triggered, consumption,
  dependency_findings, finding,
}

In-contains : (ps : List String) (p : String) → In p ps → contains ps p ≡ true
In-contains [] p h = absurd h
In-contains (q ∷ ps) p (inl e) = ground (arith, eq_iff q p)
In-contains (q ∷ ps) p (inr h) = ground (arith, In-contains ps p h)

contains-In : (ps : List String) (p : String) → contains ps p ≡ true → In p ps
contains-In [] p h = cc h
contains-In (q ∷ ps) p h = elim (Bool-cases (str_eq q p)) [
  | inl same ↦ inl (sym ((eq_iff q p).0 same))
  | inr differ ↦ inr (contains-In ps p (ground (arith, differ, h)))
]

-- The path of a difference that breaks a consumer: a removed field, another type, another length of
-- an array, or a tree too deep to compare.
unfoldable pub breaking_path : {N : Type 0} → DiffKind N → Option String
breaking_path (removed p v) = some p
breaking_path (type_mismatch p s t v w) = some p
breaking_path (array_length_mismatch p m n) = some p
breaking_path (depth_exceeded p n) = some p
breaking_path (added p v) = none
breaking_path (modified p v w) = none

module _ {N : Type 0} where
  pub classify-breaking_path :
      (d : DiffKind N) (p : String)
      → breaking_path d ≡ some p
      → ((classify d).0 ≡ p) × ((classify d).1 ≡ true)
  unfolding breaking_path classify
  classify-breaking_path (removed q v) p h = (cc, refl)
  classify-breaking_path (type_mismatch q s t v w) p h = (cc, refl)
  classify-breaking_path (array_length_mismatch q m n) p h = (cc, refl)
  classify-breaking_path (depth_exceeded q n) p h = (cc, refl)
  classify-breaking_path (added q v) p h = absurd (cc h)
  classify-breaking_path (modified q v w) p h = absurd (cc h)

  pub In-paths_of :
      (ds : List (DiffKind N)) (d : DiffKind N) → In d ds → In (classify d).0 (paths_of ds)
  unfolding paths_of
  In-paths_of [] d h = absurd h
  In-paths_of (x ∷ ds) d (inl e) = inl (ap (λ y. (classify y).0) e)
  In-paths_of (x ∷ ds) d (inr h) = inr (In-paths_of ds d h)

  pub In-critical_of :
      (ds : List (DiffKind N)) (d : DiffKind N)
      → In d ds
      → (classify d).1 ≡ true
      → In (classify d).0 (critical_of ds)
  unfolding critical_of
  In-critical_of [] d h c = absurd h
  In-critical_of (x ∷ ds) d (inl e) c =
      rw (ap (λ y. (classify y).1) (sym e) ∙ c) (inl (ap (λ y. (classify y).0) e))
  In-critical_of (x ∷ ds) d (inr h) c = elim (Bool-cases (classify x).1) [
    | inl breaking ↦ rw breaking (inr (In-critical_of ds d h c))
    | inr harmless ↦ rw harmless (In-critical_of ds d h c)
  ]

  pub critical_of-paths_of :
      (ds : List (DiffKind N)) (p : String) → In p (critical_of ds) → In p (paths_of ds)
  unfolding critical_of paths_of
  critical_of-paths_of [] p h = absurd h
  critical_of-paths_of (x ∷ ds) p h = elim (Bool-cases (classify x).1) [
    | inl breaking ↦ elim (rw (breaking, critical_of) at h) [
      | inl e ↦ inl e
      | inr later ↦ inr (critical_of-paths_of ds p later)
    ]
    | inr harmless ↦ inr (critical_of-paths_of ds p (rw (harmless, critical_of) at h))
  ]

module _ (all crit : List String) where
  -- A breaking path that is consumed is triggered, and makes the finding critical.
  triggered-breaking :
      (consumed : List String) (p : String)
      → In p consumed
      → In p all
      → In p crit
      → In p (triggered all crit consumed).0 × ((triggered all crit consumed).1 ≡ true)
  unfolding triggered
  triggered-breaking [] p h a c = absurd h
  triggered-breaking (q ∷ ps) p (inl e) a c =
      let a' : contains all q ≡ true = In-contains all q (subst (λ x. In x all) e a) in
      let c' : contains crit q ≡ true = In-contains crit q (subst (λ x. In x crit) e c) in
      rw (a', c') (inl e, refl)
  triggered-breaking (q ∷ ps) p (inr h) a c =
      let (here, breaks) = triggered-breaking ps p h a c in
      elim (Bool-cases (contains all q)) [
        | inl hit ↦ rw (hit, breaks) (inr here, ground arith)
        | inr miss ↦ rw miss (here, breaks)
      ]

  -- Every triggered path is consumed, and is one of the differences' paths.
  triggered-In :
      (consumed : List String) (p : String)
      → In p (triggered all crit consumed).0
      → In p all × In p consumed
  unfolding triggered
  triggered-In [] p h = absurd h
  triggered-In (q ∷ ps) p h = elim (Bool-cases (contains all q)) [
    | inl hit ↦ elim (rw (hit, triggered) at h) [
      | inl e ↦ (subst (λ x. In x all) (sym e) (contains-In all q hit), inl e)
      | inr later ↦ let (a, c) = triggered-In ps p later in (a, inr c)
    ]
    | inr miss ↦ let (a, c) = triggered-In ps p (rw (miss, triggered) at h) in (a, inr c)
  ]

  -- A critical verdict has a breaking path among the triggered ones.
  triggered-critical :
      (consumed : List String)
      → (triggered all crit consumed).1 ≡ true
      → (p : String) × In p (triggered all crit consumed).0 × In p crit
  unfolding triggered
  triggered-critical [] h = cc h
  triggered-critical (q ∷ ps) h = elim (Bool-cases (contains all q)) [
    | inl hit ↦ elim (Bool-cases (contains crit q)) [
      | inl breaks ↦ (q, rw hit (inl refl), contains-In crit q breaks)
      | inr harmless ↦
          let (p, hp, hc) = triggered-critical ps (ground (arith, h, hit, harmless)) in
          (p, rw hit (inr hp), hc)
    ]
    | inr miss ↦
        let (p, hp, hc) = triggered-critical ps (ground (arith, h, miss)) in (p, rw miss hp, hc)
  ]

  pub consumption-breaking :
      (consumed : List String) (p : String)
      → (is_empty consumed ≡ true) ⊎ In p consumed
      → In p all
      → In p crit
      → In p (consumption all crit consumed).0 × ((consumption all crit consumed).1 ≡ true)
  unfolding consumption
  consumption-breaking [] p h a c = (a, nonempty crit c)
    where
      nonempty : (ps : List String) → In p ps → not (is_empty ps) ≡ true
      nonempty [] hp = absurd hp
      nonempty (q ∷ ps) hp = refl
  consumption-breaking (q ∷ ps) p (inl e) a c = absurd (cc e)
  consumption-breaking (q ∷ ps) p (inr h) a c = triggered-breaking (q ∷ ps) p h a c

  pub consumption-In :
      (consumed : List String) (p : String)
      → In p (consumption all crit consumed).0
      → In p all × ((is_empty consumed ≡ true) ⊎ In p consumed)
  unfolding consumption
  consumption-In [] p h = (h, inl refl)
  consumption-In (q ∷ ps) p h = let (a, c) = triggered-In (q ∷ ps) p h in (a, inr c)

  pub consumption-critical :
      ((p : String) → In p crit → In p all)
      → (consumed : List String) → (consumption all crit consumed).1 ≡ true
      → (p : String) × In p (consumption all crit consumed).0 × In p crit
  unfolding consumption
  consumption-critical sub [] h = first crit refl h
    where
      first :
          (ps : List String)
          → ps ≡ crit
          → not (is_empty ps) ≡ true
          → (p : String) × In p all × In p crit
      first [] e g = absurd (cc g)
      first (q ∷ ps) e g =
          let hq : In q crit = subst (λ l. In q l) e (inl refl) in (q, sub q hq, hq)
  consumption-critical sub (q ∷ ps) h = triggered-critical (q ∷ ps) h

  -- The finding for a dependency, with what it consumes of the differences.
  abbrev pub finding_for : String → UpstreamDependency → BlastRadiusFinding
  finding_for consumer dep =
      finding consumer dep (consumption all crit dep.consumed_json_paths).0
        (consumption all crit dep.consumed_json_paths).1

  pub dependency_findings-In :
      (changed consumer : String) (dep : UpstreamDependency) (f : BlastRadiusFinding)
      → In f (dependency_findings changed all crit consumer dep)
      → (dep.upstream_endpoint ≡ changed)
        × (f ≡ finding_for consumer dep)
        × (is_empty (consumption all crit dep.consumed_json_paths).0 ≡ false)
  unfolding dependency_findings
  dependency_findings-In changed consumer dep f h =
      elim (Bool-cases (str_eq dep.upstream_endpoint changed)) [
        | inl same ↦ elim (Bool-cases (is_empty (consumption all crit dep.consumed_json_paths).0)) [
          | inl nothing ↦ absurd (rw (same, nothing, dependency_findings) at h)
          | inr reached ↦ elim (rw (same, reached, dependency_findings) at h) [
            | inl e ↦ ((eq_iff dep.upstream_endpoint changed).0 same, e, reached)
            | inr other ↦ absurd other
          ]
        ]
        | inr differ ↦ absurd (rw (differ, dependency_findings) at h)
      ]

  In-is_empty : (ps : List String) (p : String) → In p ps → is_empty ps ≡ false
  In-is_empty [] p h = absurd h
  In-is_empty (q ∷ ps) p h = refl

  pub In-dependency_findings :
      (changed consumer : String) (dep : UpstreamDependency) (p : String)
      → dep.upstream_endpoint ≡ changed
      → In p (consumption all crit dep.consumed_json_paths).0
      → In (finding_for consumer dep) (dependency_findings changed all crit consumer dep)
  unfolding dependency_findings
  In-dependency_findings changed consumer dep p e h =
      rw ((eq_iff dep.upstream_endpoint changed).1 e, In-is_empty _ p h) (inl refl)
