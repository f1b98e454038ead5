-- ===== src/Engine/Masker/Precedence.antt =====
-- Which custom rule applies at a path where several are given.
use mathlib.Core.List.{append-nil}
use apisnap.Common.{
  ℕ, ◌<◌, ◌≡◌, ◌≢◌, refl, String, true, false, some, List, [], ◌∷◌, map, length, lt→ltb, arith,
}
use apisnap.Engine.JitRule.{compile_trie, no_match, rule_hashes, fnv1a_hash}
use apisnap.Engine.JitRule.Lookup.{last_index, any_extends, build_trie_complete}
use apisnap.Engine.Masker.Segments.{PathSegment, root, key}
use apisnap.Engine.Masker.{MaskContext, match_tokenized_rule, rule_number, all_keys, segment_hash}

abbrev pub keys_path : List String → List PathSegment
keys_path [] = []
keys_path (k ∷ ks) = key k ∷ keys_path ks

all_keys-keys_path : (ks : List String) → all_keys (keys_path ks) ≡ true
all_keys-keys_path [] = refl
all_keys-keys_path (k ∷ ks) = all_keys-keys_path ks

map-segment_hash : (ks : List String) → map segment_hash (keys_path ks) ≡ map fnv1a_hash ks
map-segment_hash [] = refl
map-segment_hash (k ∷ ks) = rw (map-segment_hash ks)

compiled :
    (paths ks : List String) (i : ℕ)
    → last_index 0 (map rule_hashes paths) (map fnv1a_hash ks) ≡ some i
    → any_extends (map rule_hashes paths) (map fnv1a_hash ks) ≡ false
    → compile_trie paths (map segment_hash (keys_path ks)) ≡ i
unfolding compile_trie
compiled paths ks i last alone = rw (map-segment_hash ks) (
    rw (append-nil) at
      (build_trie_complete (map rule_hashes paths) (map fnv1a_hash ks) [] i last alone))

-- At a path of object keys, given to a context whose matcher is compiled from its rules: if rule `i`
-- is the last of those with the path's hashes, and no rule goes on from there, then rule `i` applies,
-- whatever rules with the same path stand before it.
pub match_tokenized_rule-last :
    {Regex : Type 0} (ctx : MaskContext Regex) (paths : List String) (k : String) (ks : List String)
    (i : ℕ)
    → ctx.jit_match_fn ≡ some (compile_trie paths)
    → last_index 0 (map rule_hashes paths) (map fnv1a_hash (k ∷ ks)) ≡ some i
    → any_extends (map rule_hashes paths) (map fnv1a_hash (k ∷ ks)) ≡ false
    → i ≢ no_match
    → i < length ctx.tokenized_rules
    → match_tokenized_rule ctx (root ∷ keys_path (k ∷ ks)) ≡ rule_number ctx.tokenized_rules i
unfolding match_tokenized_rule
match_tokenized_rule-last ctx paths k ks i jit last alone real known =
    rw (jit, match_tokenized_rule)
      (rw (compiled paths (k ∷ ks) i last alone, all_keys-keys_path ks, lt→ltb _ _ known)
        (ground (arith, real)))
