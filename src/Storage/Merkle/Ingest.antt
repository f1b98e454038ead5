-- ===== src/Storage/Merkle/Ingest.antt =====
-- What `ingest` leaves in the store: every node of the value, under a root hash that is the value's
-- own, and nothing lost.
use apisnap.Common.{
  ℕ, ◌≡◌, refl, sym, ap, subst, ◌∙◌, ◌⊎◌, inl, inr, true, Option, some, List, arith, Bool-cases,
  Option-cases, if◌then◌else◌,
}
use apisnap.Json.{
  Value, null, bool, number, string, array, object, Items, nil, cons, Fields, end, field,
}
use apisnap.Storage.Merkle.{
  NodeHash, same_hash, MerkleNode, null_node, bool_node, number_node, string_node, array_node,
  object_node, NumberBits, canonicalize_number, sort_entries, compute_hash, Disk, Store, remember,
  cache_get, write_if_absent, put_node, ingest, ingest_items, ingest_fields,
}
use apisnap.Storage.Merkle.Tree.{
  same_hash→eq, same_hash_refl, node_of, hashes_of, entry_hashes, hash_of, view, Extends, AllNodes,
  AllNodesItems, AllNodesFields, AllNodes-map, AllNodesItems-map, AllNodesFields-map, Holds,
}

-- A directory in which files can be written: what was written is read back, and nothing else
-- changes.
pub record IsWritable (D : Disk) : Type 0 where
  pub writes :
      (d : D.State) (h : NodeHash) (n : MerkleNode) → (e : D.State) × (D.write d h n ≡ some e)
  pub reads :
      (d e : D.State) (h g : NodeHash) (n : MerkleNode)
      → D.write d h n ≡ some e
      → D.read e g ≡ (if same_hash h g then some n else D.read d g)
  pub exist :
      (d e : D.State) (h g : NodeHash) (n : MerkleNode)
      → D.write d h n ≡ some e
      → D.exists e g ≡ (if same_hash h g then true else D.exists d g)

-- The nodes that occur at all, on which the hash has no collision.
pub record NoCollision (blake3 : List ℕ → List ℕ) (Occurs : MerkleNode → Type 0) : Type 0 where
  pub distinct :
      (m n : MerkleNode)
      → Occurs m
      → Occurs n
      → compute_hash blake3 m ≡ compute_hash blake3 n
      → m ≡ n

-- Every object in the store occurs, and lies under its own hash; every file can be read.
pub record IsSound (D : Disk) (blake3 : List ℕ → List ℕ) (Occurs : MerkleNode → Type 0)
    (s : Store D) : Type 0 where
  pub known :
      (h : NodeHash) (n : MerkleNode) → view D s h ≡ some n → Occurs n × (compute_hash blake3 n ≡ h)
  pub readable :
      (h : NodeHash) → D.exists s.disk h ≡ true → (n : MerkleNode) × (view D s h ≡ some n)

module _ (D : Disk) (W : IsWritable D) (blake3 : List ℕ → List ℕ) (Occurs : MerkleNode → Type 0)
    (C : NoCollision blake3 Occurs) where
  -- The store after a step that adds at most the node.
  abbrev Added : Store D → MerkleNode → Store D → Type 0
  Added s node t = IsSound D blake3 Occurs t × Extends D s t × Holds D blake3 t node

  grow :
      (s t : Store D) (node : MerkleNode)
      → IsSound D blake3 Occurs s
      → Occurs node
      → ((g : NodeHash)
          → view D t g ≡ (if same_hash (compute_hash blake3 node) g then some node else view D s g))
      → ((g : NodeHash)
          → D.exists t.disk g ≡ true
          → (same_hash (compute_hash blake3 node) g ≡ true) ⊎ (D.exists s.disk g ≡ true))
      → Added s node t
  grow s t node sound occurs views files = (
    record {
      known = λ g n e. elim (Bool-cases (same_hash (compute_hash blake3 node) g)) [
        | inl same ↦
            let is : node ≡ n = ground (arith, views g, e, same) in
            (subst Occurs is occurs, ap (compute_hash blake3) (sym is) ∙ same_hash→eq _ g same)
        | inr differ ↦ sound.known g n (ground (arith, views g, e, differ))
      ];
      readable = λ g there. elim (Bool-cases (same_hash (compute_hash blake3 node) g)) [
        | inl same ↦ (node, rw (views g, same))
        | inr differ ↦ elim (files g there) [
          | inl same ↦ absurd (cc (same, differ))
          | inr old ↦ let (n, e) = sound.readable g old in (n, rw (views g, differ) e)
        ]
      ];
    },
    λ g n e. elim (Bool-cases (same_hash (compute_hash blake3 node) g)) [
      | inl same ↦
          let (o, hash) = sound.known g n e in
          rw (views g, same)
            (ap some (C.distinct node n occurs o (same_hash→eq _ g same ∙ sym hash)))
      | inr differ ↦ rw (views g, differ) e
    ],
    rw (views (compute_hash blake3 node), same_hash_refl (compute_hash blake3 node)),
  )

  put_node_lem :
      {N : Type 0} (B : NumberBits N) (node : MerkleNode) (s : Store D)
      → IsSound D blake3 Occurs s
      → Occurs node
      → (t : Store D) × (put_node D blake3 B node s ≡ (some (compute_hash blake3 node), t))
        × IsSound D blake3 Occurs t
        × Extends D s t
        × Holds D blake3 t node
  unfolding put_node write_if_absent view
  put_node_lem B node s sound occurs =
      let h = compute_hash blake3 node in
      elim (Option-cases (cache_get h s.cache)) [
        | inr (m, hit) ↦
            let (o, hash) = sound.known h m (ground (arith, hit)) in
            (
              s,
              ground (arith, hit),
              sound,
              λ g n e. e,
              ground (arith, hit, C.distinct m node o occurs hash),
            )
        | inl miss ↦ elim (Bool-cases (D.exists s.disk h)) [
          | inl there ↦
              let (sound', more, holds) =
                grow s (remember D h node s) node sound occurs (λ g. ground arith) (λ g e. inr e) in
              (remember D h node s, ground (arith, miss, there), sound', more, holds)
          | inr absent ↦
              let (d, written) = W.writes s.disk h node in
              let t = remember D h node (record s { disk = d }) in
              let (sound', more, holds) =
                grow s t node sound occurs (λ g. ground (arith, W.reads s.disk d h g node written))
                  (λ g e. ground (arith, W.exist s.disk d h g node written, e)) in
              (t, ground (arith, miss, absent, written), sound', more, holds)
        ]
      ]

  module _ {N : Type 0} (B : NumberBits N) where
    -- A run that ends with the value `a` in a store that holds more, and of which `Q` is true.
    abbrev Runs : {A : Type 0} → Store D → Option A × Store D → A → (Store D → Type 0) → Type 0
    Runs s run a Q =
        (t : Store D) × (run ≡ (some a, t)) × IsSound D blake3 Occurs t × Extends D s t × Q t

    mutual
      unfolding ingest node_of AllNodes

      ingest_run :
          (v : Value N) (s : Store D)
          → IsSound D blake3 Occurs s
          → AllNodes blake3 B Occurs v
          → Runs s
              (ingest D blake3 B v s)
              (hash_of blake3 B v)
              (λ t. AllNodes blake3 B (Holds D blake3 t) v)
      ingest_run null s sound o = put_node_lem B null_node s sound o
      ingest_run (bool b) s sound o = put_node_lem B (bool_node b) s sound o
      ingest_run (number n) s sound o =
          put_node_lem B (number_node (canonicalize_number B n)) s sound o
      ingest_run (string r) s sound o = put_node_lem B (string_node r) s sound o
      ingest_run (array vs) s sound (o, os) =
          let (t, run, sound', more, held) = ingest_items_run vs s sound os in
          let (u, put, sound'', more', top) =
            put_node_lem B (array_node (hashes_of blake3 B vs)) t sound' o in
          (
            u,
            rw run put,
            sound'',
            λ h n e. more' h n (more h n e),
            (
              top,
              AllNodesItems-map blake3 B (Holds D blake3 t) (Holds D blake3 u) (λ n e. more' _ n e)
                  vs held,
            ),
          )
      ingest_run (object fs) s sound (o, os) =
          let (t, run, sound', more, held) = ingest_fields_run fs s sound os in
          let (u, put, sound'', more', top) =
            put_node_lem B (object_node (sort_entries (entry_hashes blake3 B fs))) t sound' o in
          (
            u,
            rw run put,
            sound'',
            λ h n e. more' h n (more h n e),
            (
              top,
              AllNodesFields-map blake3 B (Holds D blake3 t) (Holds D blake3 u) (λ n e. more' _ n e)
                  fs held,
            ),
          )

      ingest_items_run :
          (vs : Items N) (s : Store D)
          → IsSound D blake3 Occurs s
          → AllNodesItems blake3 B Occurs vs
          → Runs s
              (ingest_items D blake3 B vs s)
              (hashes_of blake3 B vs)
              (λ t. AllNodesItems blake3 B (Holds D blake3 t) vs)
      ingest_items_run nil s sound o = (s, refl, sound, λ h n e. e, tt)
      ingest_items_run (cons v vs) s sound (o, os) =
          let (t, run, sound', more, held) = ingest_run v s sound o in
          let (u, rest, sound'', more', holds) = ingest_items_run vs t sound' os in
          (
            u,
            rw run (rw rest),
            sound'',
            λ h n e. more' h n (more h n e),
            (
              AllNodes-map blake3 B (Holds D blake3 t) (Holds D blake3 u) (λ n e. more' _ n e) v
                  held,
              holds,
            ),
          )

      ingest_fields_run :
          (fs : Fields N) (s : Store D)
          → IsSound D blake3 Occurs s
          → AllNodesFields blake3 B Occurs fs
          → Runs s
              (ingest_fields D blake3 B fs s)
              (entry_hashes blake3 B fs)
              (λ t. AllNodesFields blake3 B (Holds D blake3 t) fs)
      ingest_fields_run end s sound o = (s, refl, sound, λ h n e. e, tt)
      ingest_fields_run (field k v fs) s sound (o, os) =
          let (t, run, sound', more, held) = ingest_run v s sound o in
          let (u, rest, sound'', more', holds) = ingest_fields_run fs t sound' os in
          (
            u,
            rw run (rw rest),
            sound'',
            λ h n e. more' h n (more h n e),
            (
              AllNodes-map blake3 B (Holds D blake3 t) (Holds D blake3 u) (λ n e. more' _ n e) v
                  held,
              holds,
            ),
          )

    -- With a writable directory, and no collision among the nodes that occur: on a sound store,
    -- `ingest` succeeds and returns the value's own root hash, whatever the store held; afterwards
    -- the store is sound, holds all that it held, and holds every node of the value.
    pub ingest-root :
        (v : Value N) (s : Store D)
        → IsSound D blake3 Occurs s
        → AllNodes blake3 B Occurs v
        → (t : Store D) × (ingest D blake3 B v s ≡ (some (hash_of blake3 B v), t))
          × IsSound D blake3 Occurs t
          × Extends D s t
          × AllNodes blake3 B (Holds D blake3 t) v
    ingest-root v s sound o = ingest_run v s sound o
