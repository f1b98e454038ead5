-- ===== src/Storage/Merkle/Tree.antt =====
-- The Merkle tree of a value, without a store: its nodes and hashes, and what comes back from them.
use Prim.Native.Nat.{Ordering}
use Prim.Native.String.{compare}
use apisnap.Common.{
  ℕ, ◌≡◌, refl, ap, ap₂, ◌∙◌, if◌then◌else◌, Bool, false, String, true, Option, none, some, List,
  [], ◌∷◌, ◌==◌, ==_iff, arith, Dict, insert, Bool-cases, inl, inr,
}
use apisnap.Json.{
  Value, null, bool, number, string, array, object, Items, nil, cons, Fields, end, field,
  from_entries,
}
use apisnap.Storage.Merkle.{
  NodeHash, same_hash, MerkleNode, null_node, bool_node, number_node, string_node, array_node,
  object_node, NumberBits, canonicalize_number, insert_sorted, sort_entries, compute_hash, Disk,
  Store, cache_get,
}

pub same_hash→eq : (g h : NodeHash) → same_hash g h ≡ true → g ≡ h
same_hash→eq [] [] e = refl
same_hash→eq [] (b ∷ h) e = cc e
same_hash→eq (a ∷ g) [] e = cc e
same_hash→eq (a ∷ g) (b ∷ h) e = elim (Bool-cases (a == b)) [
  | inl same ↦ ap₂ ◌∷◌ ((==_iff a b).0 same) (same_hash→eq g h (ground (arith, e, same)))
  | inr differ ↦ absurd (ground (arith, e, differ))
]

pub same_hash_refl : (h : NodeHash) → same_hash h h ≡ true
same_hash_refl [] = refl
same_hash_refl (a ∷ h) = ground (arith, same_hash_refl h)

module _ {N : Type 0} (blake3 : List ℕ → List ℕ) (B : NumberBits N) where
  unfoldable mutual
    pub node_of : Value N → MerkleNode
    node_of null = null_node
    node_of (bool b) = bool_node b
    node_of (number n) = number_node (canonicalize_number B n)
    node_of (string s) = string_node s
    node_of (array vs) = array_node (hashes_of vs)
    node_of (object fs) = object_node (sort_entries (entry_hashes fs))

    pub hashes_of : Items N → List NodeHash
    hashes_of nil = []
    hashes_of (cons v vs) = compute_hash blake3 (node_of v) ∷ hashes_of vs

    pub entry_hashes : Fields N → List (String × NodeHash)
    entry_hashes end = []
    entry_hashes (field k v fs) = (k, compute_hash blake3 (node_of v)) ∷ entry_hashes fs

  -- The root hash of a value: a function of the value alone.
  abbrev pub hash_of : Value N → NodeHash
  hash_of v = compute_hash blake3 (node_of v)

abbrev is_gt : Ordering → Bool
is_gt Ordering.gt = true
is_gt _ = false

-- The entries in the order of their keys, equal keys in the order in which they came.
module _ {V : Type 0} where
  unfoldable pub placed : String × V → List (String × V) → List (String × V)
  placed (k, v) [] = (k, v) ∷ []
  placed (k, v) ((j, w) ∷ es) =
      let behind = (j, w) ∷ placed (k, v) es in
      if is_gt (compare k j) then behind else (k, v) ∷ (j, w) ∷ es

  unfoldable pub by_key : List (String × V) → List (String × V)
  unfolding placed
  by_key [] = []
  by_key (e ∷ es) = placed e (by_key es)

  placed-insert_sorted :
      (e : String × V) (es : List (String × V)) → placed e es ≡ insert_sorted e es
  unfolding placed insert_sorted
  placed-insert_sorted (k, v) [] = refl
  placed-insert_sorted (k, v) ((j, w) ∷ es) = ground (arith, placed-insert_sorted (k, v) es)

  pub by_key-sort_entries : (es : List (String × V)) → by_key es ≡ sort_entries es
  unfolding by_key sort_entries
  by_key-sort_entries [] = refl
  by_key-sort_entries (e ∷ es) =
      placed-insert_sorted e (by_key es) ∙ ap (insert_sorted e) (by_key-sort_entries es)

abbrev pub insert_all : {V : Type 0} → Dict V → Dict V → Dict V
insert_all [] m = m
insert_all ((k, v) ∷ es) m = insert_all es (insert k v m)

module _ {N : Type 0} (B : NumberBits N) where
  -- What a number comes back as: an integer of 64 bits as itself, and any other number as what its
  -- float is read as, or 0 where that is none.
  abbrev pub restored_number : N → N
  restored_number n = elim (B.as_i64 n) [
    | some i ↦ n
    | none ↦ elim (B.as_f64 n) [
      | some f ↦ elim (B.from_f64 f) [ some m ↦ m | none ↦ B.from_i64 0 ]
      | none ↦ elim (B.from_f64 0) [ some m ↦ m | none ↦ B.from_i64 0 ]
    ]
  ]

  -- What a value comes back as: its objects sorted by key, its numbers as above.
  unfoldable mutual
    pub restored : Value N → Value N
    restored null = null
    restored (bool b) = bool b
    restored (number n) = number (restored_number n)
    restored (string s) = string s
    restored (array vs) = array (restored_items vs)
    restored (object fs) = object (from_entries (insert_all (by_key (restored_entries fs)) []))

    pub restored_items : Items N → Items N
    restored_items nil = nil
    restored_items (cons v vs) = cons (restored v) (restored_items vs)

    pub restored_entries : Fields N → Dict (Value N)
    restored_entries end = []
    restored_entries (field k v fs) = (k, restored v) ∷ restored_entries fs

-- What a store holds under a hash, in its cache or else on disk.
module _ (D : Disk) where
  unfoldable pub view : Store D → NodeHash → Option MerkleNode
  view s h = elim (cache_get h s.cache) [ some n ↦ some n | none ↦ D.read s.disk h ]

  -- The second store holds all that the first one does.
  abbrev pub Extends : Store D → Store D → Type 0
  Extends s t = (h : NodeHash) (n : MerkleNode) → view s h ≡ some n → view t h ≡ some n

module _ {N : Type 0} (blake3 : List ℕ → List ℕ) (B : NumberBits N) where
  -- Every node of the tree of a value has the property.
  unfoldable mutual
    pub AllNodes : (MerkleNode → Type 0) → Value N → Type 0
    AllNodes P null = P null_node
    AllNodes P (bool b) = P (bool_node b)
    AllNodes P (number n) = P (number_node (canonicalize_number B n))
    AllNodes P (string t) = P (string_node t)
    AllNodes P (array vs) = P (node_of blake3 B (array vs)) × AllNodesItems P vs
    AllNodes P (object fs) = P (node_of blake3 B (object fs)) × AllNodesFields P fs

    pub AllNodesItems : (MerkleNode → Type 0) → Items N → Type 0
    AllNodesItems P nil = Unit
    AllNodesItems P (cons v vs) = AllNodes P v × AllNodesItems P vs

    pub AllNodesFields : (MerkleNode → Type 0) → Fields N → Type 0
    AllNodesFields P end = Unit
    AllNodesFields P (field k v fs) = AllNodes P v × AllNodesFields P fs

  module _ (P Q : MerkleNode → Type 0) (f : (n : MerkleNode) → P n → Q n) where
    mutual
      unfolding AllNodes

      pub AllNodes-map : (v : Value N) → AllNodes P v → AllNodes Q v
      AllNodes-map null h = f _ h
      AllNodes-map (bool b) h = f _ h
      AllNodes-map (number n) h = f _ h
      AllNodes-map (string r) h = f _ h
      AllNodes-map (array vs) (h, hs) = (f _ h, AllNodesItems-map vs hs)
      AllNodes-map (object fs) (h, hs) = (f _ h, AllNodesFields-map fs hs)

      pub AllNodesItems-map : (vs : Items N) → AllNodesItems P vs → AllNodesItems Q vs
      AllNodesItems-map nil h = tt
      AllNodesItems-map (cons v vs) (h, hs) = (AllNodes-map v h, AllNodesItems-map vs hs)

      pub AllNodesFields-map : (fs : Fields N) → AllNodesFields P fs → AllNodesFields Q fs
      AllNodesFields-map end h = tt
      AllNodesFields-map (field k v fs) (h, hs) = (AllNodes-map v h, AllNodesFields-map fs hs)

-- The store holds the node under its hash.
abbrev pub Holds : (D : Disk) → (List ℕ → List ℕ) → Store D → MerkleNode → Type 0
Holds D blake3 s n = view D s (compute_hash blake3 n) ≡ some n
