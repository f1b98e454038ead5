-- ===== src/Engine/JitRule/Lookup.antt =====
-- The compiled matcher against the list of rules: which rule it returns, and when.
use apisnap.Common.{
  ℕ, suc, ◌%◌, ◌^◌, ◌≡◌, ◌≢◌, refl, sym, ap, inl, inr, Bool, true, false, ◌||◌, Option, none, some,
  List, [], ◌∷◌, ◌++◌, ◌==◌, arith, Bool-cases, if◌then◌else◌,
}
use apisnap.Engine.JitRule.{
  PathTrieNode, node, Children, leaf, child, empty_trie, update_child, insert_rule, build_from,
  build_trie, no_match, eval_trie, eval_children,
}

abbrev pub same_path : List ℕ → List ℕ → Bool
same_path [] [] = true
same_path (g ∷ gs) (h ∷ hs) = if g == h then same_path gs hs else false
same_path _ _ = false

-- `q` is a proper prefix of `p`.
abbrev pub extends : List ℕ → List ℕ → Bool
extends [] [] = false
extends (g ∷ gs) [] = true
extends [] (h ∷ hs) = false
extends (g ∷ gs) (h ∷ hs) = if g == h then extends gs hs else false

abbrev pub any_extends : List (List ℕ) → List ℕ → Bool
any_extends [] q = false
any_extends (p ∷ rules) q = extends p q || any_extends rules q

-- The index of the last rule with exactly the path `q`, the first rule's index being `idx`.
abbrev pub last_index : ℕ → List (List ℕ) → List ℕ → Option ℕ
last_index idx [] q = none
last_index idx (p ∷ rules) q = elim (last_index (suc idx) rules q) [
  | some i ↦ some i
  | none ↦ if same_path p q then some (idx % 2 ^ 32) else none
]

-- The index that a tree holds at a path, and whether there is anything below that path.
mutual
  pub rule_at : PathTrieNode → List ℕ → Option ℕ
  rule_at (node r cs) [] = r
  rule_at (node r cs) (h ∷ hs) = child_rule_at cs h hs

  pub child_rule_at : Children → ℕ → List ℕ → Option ℕ
  child_rule_at leaf h hs = none
  child_rule_at (child g t cs) h hs = elim (g == h) [
    | true ↦ rule_at t hs
    | false ↦ child_rule_at cs h hs
  ]

mutual
  pub below : PathTrieNode → List ℕ → Bool
  below (node r leaf) [] = false
  below (node r (child g t cs)) [] = true
  below (node r cs) (h ∷ hs) = child_below cs h hs

  pub child_below : Children → ℕ → List ℕ → Bool
  child_below leaf h hs = false
  child_below (child g t cs) h hs = elim (g == h) [
    | true ↦ below t hs
    | false ↦ child_below cs h hs
  ]

-- Updating the child of `g` changes what is at `h` only if `h` is `g`.
child_rule_at-update :
    (rec : PathTrieNode → PathTrieNode) (g h : ℕ) (hs : List ℕ) (cs : Children) (x : Option ℕ)
    (b : Bool)
    → ((t : PathTrieNode) → rule_at (rec t) hs ≡ (if b then x else rule_at t hs))
    → child_rule_at (update_child rec g cs) h hs
      ≡ (if g == h then (if b then x else child_rule_at cs g hs) else child_rule_at cs h hs)
unfolding update_child rule_at
child_rule_at-update rec g h [] leaf x b e = ground (arith, e empty_trie)
child_rule_at-update rec g h (k ∷ hs) leaf x b e = ground (arith, e empty_trie)
child_rule_at-update rec g h hs (child j t cs) x b e =
    ground (arith, e t, child_rule_at-update rec g h hs cs x b e)

child_below-update :
    (rec : PathTrieNode → PathTrieNode) (g h : ℕ) (hs : List ℕ) (cs : Children) (b : Bool)
    → ((t : PathTrieNode) → below (rec t) hs ≡ (b || below t hs))
    → child_below (update_child rec g cs) h hs
      ≡ (if g == h then (b || child_below cs g hs) else child_below cs h hs)
unfolding update_child below
child_below-update rec g h [] leaf b e = ground (arith, e empty_trie)
child_below-update rec g h (k ∷ hs) leaf b e = ground (arith, e empty_trie)
child_below-update rec g h hs (child j t cs) b e =
    ground (arith, e t, child_below-update rec g h hs cs b e)

rule_at-insert_rule :
    (p : List ℕ) (i : ℕ) (q : List ℕ) (t : PathTrieNode)
    → rule_at (insert_rule p i t) q ≡ (if same_path p q then some i else rule_at t q)
unfolding insert_rule rule_at
rule_at-insert_rule [] i [] (node r cs) = refl
rule_at-insert_rule [] i (h ∷ q) (node r cs) = refl
rule_at-insert_rule (g ∷ p) i [] (node r cs) = refl
rule_at-insert_rule (g ∷ p) i (h ∷ q) (node r cs) = ground (
  arith,
  child_rule_at-update (insert_rule p i) g h q cs (some i) (same_path p q)
      (λ t. rule_at-insert_rule p i q t),
)

below-insert_rule :
    (p : List ℕ) (i : ℕ) (q : List ℕ) (t : PathTrieNode)
    → below (insert_rule p i t) q ≡ (extends p q || below t q)
unfolding insert_rule below
below-insert_rule [] i [] (node r leaf) = refl
below-insert_rule [] i [] (node r (child g t cs)) = refl
below-insert_rule [] i (h ∷ q) (node r cs) = refl
below-insert_rule (g ∷ p) i [] (node r leaf) = refl
below-insert_rule (g ∷ p) i [] (node r (child h t cs)) = ground arith
below-insert_rule (g ∷ p) i (h ∷ q) (node r cs) = ground (
  arith,
  child_below-update (insert_rule p i) g h q cs (extends p q) (λ t. below-insert_rule p i q t),
)

rule_at-build_from :
    (idx : ℕ) (rules : List (List ℕ)) (t : PathTrieNode) (q : List ℕ)
    → rule_at (build_from idx rules t) q
      ≡ elim (last_index idx rules q) [ some i ↦ some i | none ↦ rule_at t q ]
unfolding build_from
rule_at-build_from idx [] t q = refl
rule_at-build_from idx (p ∷ rules) t q = ground (
  arith,
  rule_at-build_from (suc idx) rules (insert_rule p (idx % 2 ^ 32) t) q,
  rule_at-insert_rule p (idx % 2 ^ 32) q t,
)

below-build_from :
    (idx : ℕ) (rules : List (List ℕ)) (t : PathTrieNode) (q : List ℕ)
    → below (build_from idx rules t) q ≡ (any_extends rules q || below t q)
unfolding build_from
below-build_from idx [] t q = refl
below-build_from idx (p ∷ rules) t q = ground (
  arith,
  below-build_from (suc idx) rules (insert_rule p (idx % 2 ^ 32) t) q,
  below-insert_rule p (idx % 2 ^ 32) q t,
)

mutual
  unfolding eval_trie rule_at below

  eval_trie_complete :
      (t : PathTrieNode) (p rest : List ℕ) (i : ℕ)
      → rule_at t p ≡ some i
      → below t p ≡ false
      → eval_trie t (p ++ rest) ≡ i
  eval_trie_complete (node none leaf) [] rest i r b = cc r
  eval_trie_complete (node (some j) leaf) [] rest i r b = ground (arith, r)
  eval_trie_complete (node r (child g t cs)) [] rest i e b = cc b
  eval_trie_complete (node none cs) (h ∷ p) rest i r b = eval_children_complete cs h p rest i r b
  eval_trie_complete (node (some j) leaf) (h ∷ p) rest i r b = cc r
  eval_trie_complete (node (some j) (child g t cs)) (h ∷ p) rest i r b =
      eval_children_complete (child g t cs) h p rest i r b

  eval_children_complete :
      (cs : Children) (h : ℕ) (p rest : List ℕ) (i : ℕ)
      → child_rule_at cs h p ≡ some i
      → child_below cs h p ≡ false
      → eval_children cs h (p ++ rest) ≡ i
  eval_children_complete leaf h p rest i r b = cc r
  eval_children_complete (child g t cs) h p rest i r b =
      ground (arith, eval_trie_complete t p rest i, eval_children_complete cs h p rest i)

-- A prefix of the hashes is the path of the rule that is returned.
abbrev Found : PathTrieNode → List ℕ → ℕ → Type 0
Found t hs i = (p : List ℕ) × (rest : List ℕ) × (hs ≡ p ++ rest) × (rule_at t p ≡ some i)

abbrev ChildFound : Children → ℕ → List ℕ → ℕ → Type 0
ChildFound cs h hs i =
    (p : List ℕ) × (rest : List ℕ) × (hs ≡ p ++ rest) × (child_rule_at cs h p ≡ some i)

mutual
  unfolding eval_trie rule_at

  eval_trie_sound :
      (t : PathTrieNode) (hs : List ℕ) (i : ℕ) → eval_trie t hs ≡ i → i ≢ no_match → Found t hs i
  eval_trie_sound (node (some j) leaf) hs i e n = ([], hs, refl, ap some e)
  eval_trie_sound (node none leaf) [] i e n = absurd (n (sym e))
  eval_trie_sound (node none leaf) (h ∷ hs) i e n = absurd (n (sym e))
  eval_trie_sound (node none (child g t cs)) [] i e n = absurd (n (sym e))
  eval_trie_sound (node (some j) (child g t cs)) [] i e n = absurd (n (sym e))
  eval_trie_sound (node none (child g t cs)) (h ∷ hs) i e n =
      let (p, rest, eq, r) = eval_children_sound (child g t cs) h hs i e n in
      (h ∷ p, rest, ap (λ l. h ∷ l) eq, r)
  eval_trie_sound (node (some j) (child g t cs)) (h ∷ hs) i e n =
      let (p, rest, eq, r) = eval_children_sound (child g t cs) h hs i e n in
      (h ∷ p, rest, ap (λ l. h ∷ l) eq, r)

  eval_children_sound :
      (cs : Children) (h : ℕ) (hs : List ℕ) (i : ℕ)
      → eval_children cs h hs ≡ i
      → i ≢ no_match
      → ChildFound cs h hs i
  eval_children_sound leaf h hs i e n = absurd (n (sym e))
  eval_children_sound (child g t cs) h hs i e n = elim (Bool-cases (h == g)) [
    | inl same ↦
        let (p, rest, eq, r) = eval_trie_sound t hs i (ground (arith, e, same)) n in
        (p, rest, eq, ground (arith, r, same))
    | inr differ ↦
        let (p, rest, eq, r) = eval_children_sound cs h hs i (ground (arith, e, differ)) n in
        (p, rest, eq, ground (arith, r, differ))
  ]

-- What the compiled matcher returns, unless it is the sentinel, is the index of the last rule with
-- some path, and the hashes that it was given begin with that path.
pub build_trie_sound :
    (rules : List (List ℕ)) (hs : List ℕ)
    → eval_trie (build_trie rules) hs ≢ no_match
    → (p : List ℕ) × (rest : List ℕ) × (hs ≡ p ++ rest)
      × (last_index 0 rules p ≡ some (eval_trie (build_trie rules) hs))
unfolding build_trie rule_at
build_trie_sound rules hs n =
    let (p, rest, e, r) =
      eval_trie_sound (build_trie rules) hs (eval_trie (build_trie rules) hs) refl n in
    (p, rest, e, in_rules p r)
  where
    in_rules :
        (p : List ℕ) {i : ℕ} → rule_at (build_trie rules) p ≡ some i → last_index 0 rules p ≡ some i
    in_rules [] r = ground (arith, rule_at-build_from 0 rules empty_trie [], r)
    in_rules (h ∷ p) r = ground (arith, rule_at-build_from 0 rules empty_trie (h ∷ p), r)

-- A rule that no other rule extends is found for every path that begins with its own, however long,
-- and of several rules with that path it is the last one.
pub build_trie_complete :
    (rules : List (List ℕ)) (p rest : List ℕ) (i : ℕ)
    → last_index 0 rules p ≡ some i
    → any_extends rules p ≡ false
    → eval_trie (build_trie rules) (p ++ rest) ≡ i
unfolding build_trie below
build_trie_complete rules p rest i last alone =
    eval_trie_complete (build_trie rules) p rest i
      (ground (arith, rule_at-build_from 0 rules empty_trie p, last)) (not_below p alone)
  where
    not_below : (q : List ℕ) → any_extends rules q ≡ false → below (build_trie rules) q ≡ false
    not_below [] a = ground (arith, below-build_from 0 rules empty_trie [], a)
    not_below (h ∷ q) a = ground (arith, below-build_from 0 rules empty_trie (h ∷ q), a)
