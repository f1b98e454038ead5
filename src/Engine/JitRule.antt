-- ===== src/Engine/JitRule.antt =====
-- src/engine/jit_rule.rs: the prefix tree of masking rules. The machine code that Cranelift makes of
-- the emitted blocks is read as `eval_trie`, one clause for each block; the tree's nodes keep their
-- children in insertion order, since every hash is there once and the order of tests is no matter.
pub mod Lookup
pub mod Cache
use Prim.Native.Nat.{bit_xor, ◌-◌}
use Prim.Native.Char.{Char, code}
use Prim.Native.String
use apisnap.Common.{
  ℕ, zero, suc, ◌+◌, ◌*◌, ◌/◌, ◌%◌, ◌^◌, String, Bool, true, false, Option, none, some, List, [],
  ◌∷◌, ◌++◌, map, ◌≡◌, refl, ltb, ◌==◌, ◌<>◌, if◌then◌else◌,
}

-- The bytes of a character in UTF-8.
unfoldable pub utf8 : ℕ → List ℕ
utf8 c =
    if ltb c 128
    then c ∷ []
    else if ltb c 2048
    then (192 + c / 64) ∷ (128 + c % 64) ∷ []
    else if ltb c 65536
    then (224 + c / 4096) ∷ (128 + c / 64 % 64) ∷ (128 + c % 64) ∷ []
    else (240 + c / 262144) ∷ (128 + c / 4096 % 64) ∷ (128 + c / 64 % 64) ∷ (128 + c % 64) ∷ []

-- `s.as_bytes()`
unfoldable pub as_bytes : String → List ℕ
unfolding utf8
as_bytes String.[] = []
as_bytes (String.◌∷◌ c s) = utf8 (code c) ++ as_bytes s

unfoldable pub fnv1a_from : ℕ → List ℕ → ℕ
fnv1a_from hash [] = hash
fnv1a_from hash (byte ∷ bytes) = fnv1a_from (bit_xor hash byte * 0x100000001b3 % 2 ^ 64) bytes

unfoldable pub fnv1a_hash : String → ℕ
unfolding as_bytes fnv1a_from
fnv1a_hash s = fnv1a_from 0xcbf29ce484222325 (as_bytes s)

mutual
  pub data PathTrieNode : Type 0 where
    -- `rule_index` and `children`
    node : Option ℕ → Children → PathTrieNode

  pub data Children : Type 0 where
    leaf : Children
    child : ℕ → PathTrieNode → Children → Children

-- `PathTrieNode::default()`
abbrev pub empty_trie : PathTrieNode
empty_trie = node none leaf

-- `node.children.entry(h).or_default()`, with what is then done to that child.
unfoldable pub update_child : (PathTrieNode → PathTrieNode) → ℕ → Children → Children
update_child rec h leaf = child h (rec empty_trie) leaf
update_child rec h (child g t cs) =
    if g == h then child g (rec t) cs else child g t (update_child rec h cs)

-- The walk down the segments' hashes; the last node takes the rule's index.
unfoldable pub insert_rule : List ℕ → ℕ → PathTrieNode → PathTrieNode
unfolding update_child
insert_rule [] idx (node r cs) = node (some idx) cs
insert_rule (h ∷ hs) idx (node r cs) = node r (update_child (insert_rule hs idx) h cs)

-- `path.trim_start_matches('$')`
unfoldable pub trim_dollars : String → String
trim_dollars String.[] = ""
trim_dollars (String.◌∷◌ c s) =
    let rest = trim_dollars s in if code c == b'$' then rest else String.◌∷◌ c s

abbrev pub push_char : String → Char → String
push_char s c = s <> String.◌∷◌ c String.[]

abbrev pub nonempty : String → List String
nonempty String.[] = []
nonempty s = s ∷ []

-- `.split('.').filter(|s| !s.is_empty())`, with the segment read so far.
unfoldable pub split_dots : String → String → List String
split_dots current String.[] = nonempty current
split_dots current (String.◌∷◌ c s) = elim (code c == b'.') [
  | true ↦ nonempty current ++ split_dots "" s
  | false ↦ split_dots (push_char current c) s
]

unfoldable pub rule_hashes : String → List ℕ
unfolding trim_dollars split_dots fnv1a_hash
rule_hashes path = map fnv1a_hash (split_dots "" (trim_dollars path))

-- The loop over the rules, from rule `idx` on; an index is kept as a `u32`.
unfoldable pub build_from : ℕ → List (List ℕ) → PathTrieNode → PathTrieNode
unfolding insert_rule
build_from idx [] t = t
build_from idx (hs ∷ rules) t = build_from (suc idx) rules (insert_rule hs (idx % 2 ^ 32) t)

unfoldable pub build_trie : List (List ℕ) → PathTrieNode
unfolding build_from
build_trie rules = build_from 0 rules empty_trie

-- `u32::MAX`, what the compiled function returns where no rule matches
abbrev pub no_match : ℕ
no_match = 2 ^ 32 - 1

-- The blocks that `emit_trie_level` emits for a node, run on the hashes that are left.
unfoldable mutual
  pub eval_trie : PathTrieNode → List ℕ → ℕ
  eval_trie (node (some idx) leaf) hs = idx
  eval_trie (node r cs) [] = no_match
  eval_trie (node r cs) (h ∷ hs) = eval_children cs h hs

  pub eval_children : Children → ℕ → List ℕ → ℕ
  eval_children leaf h hs = no_match
  eval_children (child g t cs) h hs = elim (h == g) [
    | true ↦ eval_trie t hs
    | false ↦ eval_children cs h hs
  ]

-- Steps 1 to 3 of `compile_rules`: the function that the rules are compiled to.
unfoldable pub compile_trie : List String → List ℕ → ℕ
unfolding build_trie eval_trie rule_hashes
compile_trie paths hashes = eval_trie (build_trie (map rule_hashes paths)) hashes

-- `compute_ruleset_hash`: the bytes of all paths, one after the other.
abbrev pub ruleset_bytes : List String → List ℕ
ruleset_bytes [] = []
ruleset_bytes (p ∷ paths) = as_bytes p ++ ruleset_bytes paths

unfoldable pub compute_ruleset_hash : List String → ℕ
unfolding as_bytes fnv1a_from
compute_ruleset_hash paths = fnv1a_from 0xcbf29ce484222325 (ruleset_bytes paths)

-- `compiled`, with the newest entry in front.
abbrev pub CraneliftRuleEngine : Type 0
CraneliftRuleEngine = List (ℕ × (List ℕ → ℕ))

abbrev pub new_engine : CraneliftRuleEngine
new_engine = []

abbrev pub cached : ℕ → CraneliftRuleEngine → Option (List ℕ → ℕ)
cached rules_hash [] = none
cached rules_hash ((h, f) ∷ compiled) =
    if h == rules_hash then some f else cached rules_hash compiled

-- The function, and the engine afterwards.
unfoldable pub compile_rules :
    List String → CraneliftRuleEngine → (List ℕ → ℕ) × CraneliftRuleEngine
unfolding compute_ruleset_hash compile_trie
compile_rules paths compiled = elim (cached (compute_ruleset_hash paths) compiled) [
  | some f ↦ (f, compiled)
  | none ↦ (compile_trie paths, (compute_ruleset_hash paths, compile_trie paths) ∷ compiled)
]

-- The repository's own test of the engine.
test_rules :
    (compile_rules ("$.user.profile.token" ∷ "$.order.items.price" ∷ []) new_engine).0
      (fnv1a_hash "order" ∷ fnv1a_hash "items" ∷ fnv1a_hash "price" ∷ [])
    ≡ 1
unfolding compile_rules
test_rules = refl
