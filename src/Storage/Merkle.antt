-- ===== src/Storage/Merkle.antt =====
-- src/storage/merkle.rs: trees cut into nodes that name their children by hash. An `io::Error` is
-- `none`; what was written before it stays, so the store comes back beside it. BLAKE3, the numbers'
-- conversions (an `i64` and an `f64` as their 64 bits) and the file system are parameters.
pub mod Tree
pub mod View
pub mod Bytes
pub mod Ingest
pub mod Reconstruct
use Prim.Native.Nat.{Ordering}
use Prim.Native.String.{compare}
use apisnap.Common.{
  ℕ, zero, suc, ◌+◌, ◌*◌, ◌/◌, ◌%◌, ◌^◌, String, Bool, true, false, ◌≡◌, refl, arith, ◌<◌, Option,
  none, some, List, [], ◌∷◌, ◌++◌, Dict, insert, length, ◌==◌, ltb, if◌then◌else◌,
}
use apisnap.Json.{
  Value, null, bool, number, string, array, object, Items, nil, cons, Fields, end, field, from_list,
  from_entries,
}
use apisnap.Engine.JitRule.{as_bytes}

-- A `NodeHash`: the bytes of a BLAKE3 hash.
abbrev pub NodeHash : Type 0
NodeHash = List ℕ

abbrev pub same_hash : NodeHash → NodeHash → Bool
same_hash [] [] = true
same_hash (a ∷ g) (b ∷ h) = if a == b then same_hash g h else false
same_hash _ _ = false

pub data MerkleNode : Type 0 where
  null_node : MerkleNode
  bool_node : Bool → MerkleNode
  number_node : List ℕ → MerkleNode
  string_node : String → MerkleNode
  array_node : List NodeHash → MerkleNode
  object_node : List (String × NodeHash) → MerkleNode

-- `to_be_bytes` and `from_be_bytes` of 64 bits
unfoldable pub to_be_bytes : ℕ → List ℕ
to_be_bytes n =
    (n / 2 ^ 56 % 256)
    ∷ (n / 2 ^ 48 % 256)
    ∷ (n / 2 ^ 40 % 256)
    ∷ (n / 2 ^ 32 % 256)
    ∷ (n / 2 ^ 24 % 256)
    ∷ (n / 2 ^ 16 % 256)
    ∷ (n / 2 ^ 8 % 256)
    ∷ (n % 256)
    ∷ []

unfoldable pub from_be_bytes : ℕ → List ℕ → ℕ
from_be_bytes acc [] = acc
from_be_bytes acc (b ∷ bs) = from_be_bytes (acc * 256 + b) bs

-- `(n as u32).to_le_bytes()`
unfoldable pub to_le_bytes : ℕ → List ℕ
to_le_bytes n = (n % 256) ∷ (n / 2 ^ 8 % 256) ∷ (n / 2 ^ 16 % 256) ∷ (n / 2 ^ 24 % 256) ∷ []

-- `serde_json::Number`, its integers and floats as 64 bits.
pub record NumberBits (N : Type 0) : Type 0 where
  pub as_i64 : N → Option ℕ
  pub as_f64 : N → Option ℕ
  pub from_i64 : ℕ → N
  pub from_f64 : ℕ → Option N

module _ {N : Type 0} (B : NumberBits N) where
  unfoldable pub canonicalize_number : N → List ℕ
  unfolding to_be_bytes
  canonicalize_number n = elim (B.as_i64 n) [
    | some i ↦ 0 ∷ to_be_bytes i
    | none ↦ elim (B.as_f64 n) [ some f ↦ 1 ∷ to_be_bytes f | none ↦ 1 ∷ to_be_bytes 0 ]
  ]

  -- The first eight bytes behind the tag; fewer, or none at all, stand for 0.
  unfoldable pub decanonicalize_number : List ℕ → N
  unfolding from_be_bytes
  decanonicalize_number (tag ∷ b0 ∷ b1 ∷ b2 ∷ b3 ∷ b4 ∷ b5 ∷ b6 ∷ b7 ∷ rest) =
      let bits = from_be_bytes 0 (b0 ∷ b1 ∷ b2 ∷ b3 ∷ b4 ∷ b5 ∷ b6 ∷ b7 ∷ []) in
      if tag == 0
      then B.from_i64 bits
      else elim (B.from_f64 bits) [ some n ↦ n | none ↦ B.from_i64 0 ]
  decanonicalize_number _ = B.from_i64 0

-- `entries.sort_by(|a, b| a.0.cmp(&b.0))`, which is stable
module _ {V : Type 0} where
  unfoldable pub insert_sorted : String × V → List (String × V) → List (String × V)
  insert_sorted (k, v) [] = (k, v) ∷ []
  insert_sorted (k, v) ((j, w) ∷ es) =
      let rest = insert_sorted (k, v) es in
      elim (compare k j) [ Ordering.gt ↦ (j, w) ∷ rest | _ ↦ (k, v) ∷ (j, w) ∷ es ]

  unfoldable pub sort_entries : List (String × V) → List (String × V)
  unfolding insert_sorted
  sort_entries [] = []
  sort_entries (e ∷ es) = insert_sorted e (sort_entries es)

module _ (blake3 : List ℕ → List ℕ) where
  abbrev pub children_bytes : List NodeHash → List ℕ
  children_bytes [] = []
  children_bytes (h ∷ hs) = h ++ children_bytes hs

  abbrev pub entries_bytes : List (String × NodeHash) → List ℕ
  entries_bytes [] = []
  entries_bytes ((k, h) ∷ es) = blake3 (as_bytes k) ++ (h ++ entries_bytes es)

  -- What the hasher is fed.
  unfoldable pub hasher_input : MerkleNode → List ℕ
  unfolding to_le_bytes
  hasher_input null_node = 0 ∷ []
  hasher_input (bool_node b) = 1 ∷ (if b then 1 else 0) ∷ []
  hasher_input (number_node bs) = 2 ∷ bs
  hasher_input (string_node s) = 3 ∷ as_bytes s
  hasher_input (array_node hs) = 4 ∷ (to_le_bytes (length hs) ++ children_bytes hs)
  hasher_input (object_node es) = 5 ∷ (to_le_bytes (length es) ++ entries_bytes es)

  unfoldable pub compute_hash : MerkleNode → NodeHash
  unfolding hasher_input as_bytes
  compute_hash node = blake3 (hasher_input node)

-- The directory of objects. `write` is the whole of serialising, making the directory, writing the
-- temporary file and renaming it; `read` is reading the file and deserialising it.
pub record Disk : Type 1 where
  pub State : Type 0
  pub exists : State → NodeHash → Bool
  pub read : State → NodeHash → Option MerkleNode
  pub write : State → NodeHash → MerkleNode → Option State

abbrev pub cache_get : NodeHash → List (NodeHash × MerkleNode) → Option MerkleNode
cache_get h [] = none
cache_get h ((g, n) ∷ cache) = if same_hash g h then some n else cache_get h cache

module _ (D : Disk) where
  pub record Store : Type 0 where
    pub cache : List (NodeHash × MerkleNode)
    pub disk : D.State

  -- A method that may fail with an `io::Error`.
  abbrev pub Io : Type 0 → Type 0
  Io A = Store → Option A × Store

  -- `?`
  abbrev pub continue : {A B : Type 0} → Option A × Store → (A → Io B) → Option B × Store
  continue (none, s) f = (none, s)
  continue (some a, s) f = f a s

  -- `HashMap::insert`, at the front: a lookup finds the newest entry.
  abbrev pub remember : NodeHash → MerkleNode → Store → Store
  remember h n s = record s { cache = (h, n) ∷ s.cache }

  unfoldable pub write_if_absent : NodeHash → MerkleNode → Io (Unit {0})
  write_if_absent h n s = elim (cache_get h s.cache) [
    | some _ ↦ (some tt, s)
    | none ↦ if D.exists s.disk h then (some tt, remember h n s) else elim (D.write s.disk h n) [
      | none ↦ (none, s)
      | some d ↦ (some tt, remember h n (record s { disk = d }))
    ]
  ]

  unfoldable pub load : NodeHash → Io MerkleNode
  load h s = elim (cache_get h s.cache) [
    | some n ↦ (some n, s)
    | none ↦ elim (D.read s.disk h) [ none ↦ (none, s) | some n ↦ (some n, remember h n s) ]
  ]

  module _ {N : Type 0} (blake3 : List ℕ → List ℕ) (B : NumberBits N) where
    -- The end of `ingest`: the node is hashed, and written if it is new.
    unfoldable pub put_node : MerkleNode → Io NodeHash
    put_node node s =
        continue (write_if_absent (compute_hash blake3 node) node s)
          (λ _ t. (some (compute_hash blake3 node), t))

    unfoldable mutual
      pub ingest : Value N → Io NodeHash
      ingest null s = put_node null_node s
      ingest (bool b) s = put_node (bool_node b) s
      ingest (number n) s = put_node (number_node (canonicalize_number B n)) s
      ingest (string t) s = put_node (string_node t) s
      ingest (array vs) s =
          continue (ingest_items vs s) (λ children. put_node (array_node children))
      ingest (object fs) s =
          continue (ingest_fields fs s) (λ entries. put_node (object_node (sort_entries entries)))

      pub ingest_items : Items N → Io (List NodeHash)
      ingest_items nil s = (some [], s)
      ingest_items (cons v vs) s =
          continue (ingest v s) (λ h t. continue (ingest_items vs t) (λ hs u. (some (h ∷ hs), u)))

      pub ingest_fields : Fields N → Io (List (String × NodeHash))
      ingest_fields end s = (some [], s)
      ingest_fields (field k v fs) s =
          continue (ingest v s)
            (λ h t. continue (ingest_fields fs t) (λ es u. (some ((k, h) ∷ es), u)))

    module _ (rec : NodeHash → Io (Value N)) where
      unfoldable pub rebuild_children : List NodeHash → Io (List (Value N))
      rebuild_children [] s = (some [], s)
      rebuild_children (h ∷ hs) s =
          continue (rec h s) (λ v t. continue (rebuild_children hs t) (λ vs u. (some (v ∷ vs), u)))

      -- The loop with `map.insert`, from the map built so far.
      unfoldable pub rebuild_entries :
          List (String × NodeHash) → Dict (Value N) → Io (Dict (Value N))
      rebuild_entries [] m s = (some m, s)
      rebuild_entries ((k, h) ∷ es) m s =
          continue (rec h s) (λ v t. rebuild_entries es (insert k v m) t)

      unfoldable pub rebuild : MerkleNode → Io (Value N)
      unfolding rebuild_children rebuild_entries
      rebuild null_node s = (some null, s)
      rebuild (bool_node b) s = (some (bool b), s)
      rebuild (number_node bs) s = (some (number (decanonicalize_number B bs)), s)
      rebuild (string_node t) s = (some (string t), s)
      rebuild (array_node hs) s =
          continue (rebuild_children hs s) (λ vs t. (some (array (from_list vs)), t))
      rebuild (object_node es) s =
          continue (rebuild_entries es [] s) (λ m t. (some (object (from_entries m)), t))

    -- The recursion follows hashes, so it takes fuel; `Storage.Merkle.Reconstruct` has the amount.
    unfoldable pub reconstruct : ℕ → NodeHash → Io (Value N)
    unfolding load rebuild decanonicalize_number insert
    reconstruct zero h s = (none, s)
    reconstruct (suc fuel) h s = continue (load h s) (rebuild (reconstruct fuel))
