-- ===== src/Engine/JitRule/Cache.antt =====
-- src/engine/jit_rule.rs: the cache of compiled functions, whose key is a hash of the rules' bytes.
use apisnap.Common.{
  ℕ, ◌≡◌, refl, ap, sym, ◌∙◌, arith, Bool-cases, Option-cases, inl, inr, String, some, List, ◌==◌,
  ==_iff,
}
use apisnap.Engine.JitRule.{
  ruleset_bytes, compute_ruleset_hash, CraneliftRuleEngine, cached, compile_trie, compile_rules,
  fnv1a_from,
}

-- Every function in the cache was compiled from one of the rule sets in use, and stands under that
-- set's hash.
pub record IsFaithful (Used : List String → Type 0) (compiled : CraneliftRuleEngine) : Type 0 where
  pub origin :
      (h : ℕ) (f : List ℕ → ℕ)
      → cached h compiled ≡ some f
      → (paths : List String) × Used paths
        × (compute_ruleset_hash paths ≡ h)
        × (f ≡ compile_trie paths)

-- No two of the rule sets in use have the same hash.
pub record NoCollision (Used : List String → Type 0) : Type 0 where
  pub distinct :
      (p q : List String)
      → Used p
      → Used q
      → compute_ruleset_hash p ≡ compute_ruleset_hash q
      → p ≡ q

-- If no two rule sets in use have the same hash, then on an engine whose cache holds functions of
-- such sets, `compile_rules` returns the function of the rules that it is given, cached or not, and
-- leaves an engine of that kind.
pub compile_rules-IsFaithful :
    (Used : List String → Type 0) (C : NoCollision Used) (compiled : CraneliftRuleEngine)
    (paths : List String)
    → IsFaithful Used compiled
    → Used paths
    → ((compile_rules paths compiled).0 ≡ compile_trie paths)
      × IsFaithful Used (compile_rules paths compiled).1
unfolding compile_rules
compile_rules-IsFaithful Used C compiled paths faithful used =
    let key = compute_ruleset_hash paths in
    elim (Option-cases (cached key compiled)) [
      | inr (f, hit) ↦
          let (old, used', same, is) = faithful.origin key f hit in
          rw (hit, compile_rules)
            (is ∙ ap compile_trie (C.distinct old paths used' used same), faithful)
      | inl miss ↦
          rw (miss, compile_rules)
            (
              refl,
              record {
                origin = λ h f e. elim (Bool-cases (key == h)) [
                  | inl here ↦ (paths, used, (==_iff key h).0 here, ground (arith, e, here))
                  | inr later ↦ faithful.origin h f (ground (arith, e, later))
                ];
              },
            )
    ]

-- Two rule sets whose paths give the same bytes when they are joined share one function, whichever
-- was compiled first: after a call with the one, a call with the other returns the same function,
-- whatever the cache held.
pub compile_rules_stale :
    (p q : List String) (compiled : CraneliftRuleEngine)
    → ruleset_bytes p ≡ ruleset_bytes q
    → (compile_rules q (compile_rules p compiled).1).0 ≡ (compile_rules p compiled).0
unfolding compile_rules compute_ruleset_hash
compile_rules_stale p q compiled joined =
    let key = compute_ruleset_hash p in
    let same : compute_ruleset_hash q ≡ key = sym (ap (fnv1a_from 0xcbf29ce484222325) joined) in
    elim (Option-cases (cached key compiled)) [
      | inr (f, hit) ↦ ground (arith, hit, same)
      | inl miss ↦ ground (arith, miss, same, (==_iff key key).1 refl)
    ]
