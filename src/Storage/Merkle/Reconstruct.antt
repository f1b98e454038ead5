-- ===== src/Storage/Merkle/Reconstruct.antt =====
-- What comes back from the store by a root hash.
use Prim.Native.Nat.{Ordering}
use Prim.Native.String.{compare}
use apisnap.Common.{
  ℕ, zero, suc, ◌<◌, ◌≡◌, refl, ap, ◌∙◌, String, Option, some, List, [], ◌∷◌, All, Dict, insert,
  arith,
}
use apisnap.Json.{
  Value, null, bool, number, string, array, object, Items, nil, cons, Fields, end, field, items,
  entries, from_list, nesting, nesting_items, nesting_fields,
}
use apisnap.Storage.Merkle.{
  NodeHash, MerkleNode, null_node, bool_node, number_node, string_node, array_node, object_node,
  NumberBits, canonicalize_number, insert_sorted, sort_entries, compute_hash, Disk, Store, Io,
  rebuild_children, rebuild_entries, reconstruct, ingest,
}
use apisnap.Storage.Merkle.Tree.{
  by_key, by_key-sort_entries, node_of, hashes_of, entry_hashes, hash_of, restored, restored_items,
  restored_entries, insert_all, view, AllNodes, AllNodesItems, AllNodesFields, AllNodes-map,
  AllNodesItems-map, AllNodesFields-map, Holds,
}
use apisnap.Storage.Merkle.Bytes.{IsBits, decanonicalize-canonicalize}
use apisnap.Storage.Merkle.View.{SameView, load_lem}
use apisnap.Storage.Merkle.Ingest.{IsWritable, NoCollision, IsSound, ingest-root}

-- The same keys, each with the image of its value.
abbrev map_values : {V W : Type 0} → (V → W) → List (String × V) → List (String × W)
map_values f [] = []
map_values f ((k, v) ∷ es) = (k, f v) ∷ map_values f es

module _ {V W : Type 0} (f : V → W) where
  insert_sorted-map_values :
      (k : String) (v : V) (es : List (String × V))
      → insert_sorted (k, f v) (map_values f es) ≡ map_values f (insert_sorted (k, v) es)
  unfolding insert_sorted
  insert_sorted-map_values k v [] = refl
  insert_sorted-map_values k v ((j, w) ∷ es) = ground (arith, insert_sorted-map_values k v es)

  sort_entries-map_values :
      (es : List (String × V)) → sort_entries (map_values f es) ≡ map_values f (sort_entries es)
  unfolding sort_entries
  sort_entries-map_values [] = refl
  sort_entries-map_values ((k, v) ∷ es) =
      ap (insert_sorted (k, f v)) (sort_entries-map_values es)
      ∙ insert_sorted-map_values k v (sort_entries es)

module _ {V : Type 0} (P : String × V → Type 0) where
  All-insert_sorted :
      (e : String × V) (es : List (String × V)) → P e → All P es → All P (insert_sorted e es)
  unfolding insert_sorted
  All-insert_sorted (k, v) [] h hs = (h, tt)
  All-insert_sorted (k, v) ((j, w) ∷ es) h hs =
      elim (compare k j)
        as (λ o.
          All P (elim o [
            | Ordering.gt ↦ (j, w) ∷ insert_sorted (k, v) es
            | _ ↦ (k, v) ∷ (j, w) ∷ es
          ])) [
            | Ordering.lt ↦ (h, hs)
            | Ordering.eq ↦ (h, hs)
            | Ordering.gt ↦ (hs.0, All-insert_sorted (k, v) es h hs.1)
          ]

  All-sort_entries : (es : List (String × V)) → All P es → All P (sort_entries es)
  unfolding sort_entries
  All-sort_entries [] h = tt
  All-sort_entries (e ∷ es) (h, hs) =
      All-insert_sorted e (sort_entries es) h (All-sort_entries es hs)

module _ (D : Disk) {N : Type 0} (blake3 : List ℕ → List ℕ) (B : NumberBits N) where
  entry_hashes-map_values :
      (fs : Fields N) → entry_hashes blake3 B fs ≡ map_values (hash_of blake3 B) (entries fs)
  unfolding node_of
  entry_hashes-map_values end = refl
  entry_hashes-map_values (field k v fs) =
      ap (λ es. (k, hash_of blake3 B v) ∷ es) (entry_hashes-map_values fs)

  restored_entries-map_values :
      (fs : Fields N) → restored_entries B fs ≡ map_values (restored B) (entries fs)
  unfolding restored
  restored_entries-map_values end = refl
  restored_entries-map_values (field k v fs) =
      ap (λ es. (k, restored B v) ∷ es) (restored_entries-map_values fs)

  -- A value that is in the store, and is nested less deep than the fuel.
  abbrev Within : ℕ → Store D → Value N → Type 0
  Within f s v = (nesting v < f) × AllNodes blake3 B (Holds D blake3 s) v

  Within-mono :
      (f : ℕ) (s t : Store D) → SameView D s t → (v : Value N) → Within f s v → Within f t v
  Within-mono f s t same v (h, hold) = (
    h,
    AllNodes-map blake3 B (Holds D blake3 s) (Holds D blake3 t)
        (λ n e. same (compute_hash blake3 n) ∙ e) v hold,
  )

  -- A run that returns `a` and leaves what the store holds as it was.
  abbrev Returns : {A : Type 0} → Store D → Option A × Store D → A → Type 0
  Returns s run a = (t : Store D) × (run ≡ (some a, t)) × SameView D s t

  module _ (rec : NodeHash → Io D (Value N)) (f : ℕ)
      (ih : (v : Value N) (s : Store D)
        → Within f s v
        → Returns s (rec (hash_of blake3 B v) s) (restored B v)) where
    rebuild_children_run :
        (vs : Items N) (s : Store D)
        → nesting_items vs < f
        → AllNodesItems blake3 B (Holds D blake3 s) vs
        → Returns s
            (rebuild_children D blake3 B rec (hashes_of blake3 B vs) s)
            (items (restored_items B vs))
    unfolding rebuild_children node_of restored AllNodes nesting
    rebuild_children_run nil s h hold = (s, refl, λ g. refl)
    rebuild_children_run (cons v vs) s h (hold, holds) =
        let (t, run, same) = ih v s (omega arith, hold) in
        let (u, rest, same') =
          rebuild_children_run vs t (omega arith) (AllNodesItems-same vs holds t same) in
        (u, rw run (rw rest), λ g. same' g ∙ same g)
      where
        AllNodesItems-same :
            (ws : Items N)
            → AllNodesItems blake3 B (Holds D blake3 s) ws
            → (t : Store D) → SameView D s t
            → AllNodesItems blake3 B (Holds D blake3 t) ws
        AllNodesItems-same ws hs t same =
            AllNodesItems-map blake3 B (Holds D blake3 s) (Holds D blake3 t)
              (λ n e. same (compute_hash blake3 n) ∙ e) ws hs

    rebuild_entries_run :
        (es : List (String × Value N)) (m : Dict (Value N)) (s : Store D)
        → All (λ (k, v). Within f s v) es
        → Returns s
            (rebuild_entries D blake3 B rec (map_values (hash_of blake3 B) es) m s)
            (insert_all (map_values (restored B) es) m)
    unfolding rebuild_entries
    rebuild_entries_run [] m s h = (s, refl, λ g. refl)
    rebuild_entries_run ((k, v) ∷ es) m s (h, hs) =
        let (t, run, same) = ih v s h in
        let (u, rest, same') =
          rebuild_entries_run es (insert k (restored B v) m) t (All-Within es s t same hs) in
        (u, rw run rest, λ g. same' g ∙ same g)
      where
        All-Within :
            (xs : List (String × Value N)) (s t : Store D)
            → SameView D s t
            → All (λ (k, v). Within f s v) xs
            → All (λ (k, v). Within f t v) xs
        All-Within [] s t same hs = tt
        All-Within ((k, v) ∷ xs) s t same (h, hs) =
            (Within-mono f s t same v h, All-Within xs s t same hs)

    entries-Within :
        (fs : Fields N) (s : Store D)
        → nesting_fields fs < f
        → AllNodesFields blake3 B (Holds D blake3 s) fs
        → All (λ (k, v). Within f s v) (entries fs)
    unfolding AllNodes nesting
    entries-Within end s h hold = tt
    entries-Within (field k v fs) s h (hold, holds) =
        ((omega arith, hold), entries-Within fs s (omega arith) holds)

  from_list-items : (vs : Items N) → from_list (items vs) ≡ vs
  from_list-items nil = refl
  from_list-items (cons v vs) = ap (cons v) (from_list-items vs)

  sorted_hashes :
      (fs : Fields N)
      → sort_entries (entry_hashes blake3 B fs)
        ≡ map_values (hash_of blake3 B) (sort_entries (entries fs))
  sorted_hashes fs =
      ap sort_entries (entry_hashes-map_values fs)
      ∙ sort_entries-map_values (hash_of blake3 B) (entries fs)

  sorted_restored :
      (fs : Fields N)
      → by_key (restored_entries B fs) ≡ map_values (restored B) (sort_entries (entries fs))
  sorted_restored fs =
      by_key-sort_entries (restored_entries B fs)
      ∙ ap sort_entries (restored_entries-map_values fs)
      ∙ sort_entries-map_values (restored B) (entries fs)

  -- With fuel beyond the nesting of a value whose nodes are all in the store, its root hash gives
  -- back the value, its objects sorted by key; the store holds what it held.
  reconstruct_run :
      (L : IsBits B) (f : ℕ) (v : Value N) (s : Store D)
      → Within f s v
      → Returns s (reconstruct D blake3 B f (hash_of blake3 B v) s) (restored B v)
  unfolding reconstruct node_of restored AllNodes nesting
  reconstruct_run L zero v s (h, hold) = absurd (omega arith)
  reconstruct_run L (suc f) null s (h, hold) =
      let (t, run, same) = load_lem D _ null_node s hold in (t, rw run, same)
  reconstruct_run L (suc f) (bool b) s (h, hold) =
      let (t, run, same) = load_lem D _ (bool_node b) s hold in (t, rw run, same)
  reconstruct_run L (suc f) (number n) s (h, hold) =
      let (t, run, same) = load_lem D _ (number_node (canonicalize_number B n)) s hold in
      (t, rw run (ap (λ m. (some (number m), t)) (decanonicalize-canonicalize B L n)), same)
  reconstruct_run L (suc f) (string r) s (h, hold) =
      let (t, run, same) = load_lem D _ (string_node r) s hold in (t, rw run, same)
  reconstruct_run L (suc f) (array vs) s (h, (hold, holds)) =
      let (t, run, same) = load_lem D _ (array_node (hashes_of blake3 B vs)) s hold in
      let (u, rest, same') =
        rebuild_children_run (reconstruct D blake3 B f) f (λ x st w. reconstruct_run L f x st w) vs
          t (omega arith)
          (AllNodesItems-map blake3 B (Holds D blake3 s) (Holds D blake3 t)
            (λ n e. same (compute_hash blake3 n) ∙ e) vs holds) in
      (u, rw run (rw rest (rw from_list-items)), λ g. same' g ∙ same g)
  reconstruct_run L (suc f) (object fs) s (h, (hold, holds)) =
      let (t, run, same) =
        load_lem D _ (object_node (sort_entries (entry_hashes blake3 B fs))) s hold in
      let within =
        entries-Within (reconstruct D blake3 B f) f (λ x st w. reconstruct_run L f x st w) fs t
          (omega arith)
          (AllNodesFields-map blake3 B (Holds D blake3 s) (Holds D blake3 t)
            (λ n e. same (compute_hash blake3 n) ∙ e) fs holds) in
      let (u, rest, same') =
        rebuild_entries_run (reconstruct D blake3 B f) f (λ x st w. reconstruct_run L f x st w)
          (sort_entries (entries fs)) [] t
          (All-sort_entries (λ (k, v). Within f t v) (entries fs) within) in
      (u, rw (run, sorted_hashes fs) (rw (rest, sorted_restored fs)), λ g. same' g ∙ same g)

-- Round trip. With a writable directory, no collision among the nodes that occur, and integers and
-- floats of 64 bits: on a sound store `ingest` succeeds, and with fuel beyond the nesting of the
-- value, `reconstruct` of the hash that it returned, on the store that it left, succeeds and gives
-- the value back, with the keys of its objects sorted, each number that is an `i64` as it was, and
-- any other number as its `f64` is read, or as 0 where that is no number; the store still holds what
-- it held.
pub reconstruct-ingest :
    (D : Disk) (W : IsWritable D) {N : Type 0} (blake3 : List ℕ → List ℕ)
    (Occurs : MerkleNode → Type 0) (C : NoCollision blake3 Occurs) (B : NumberBits N) (L : IsBits B)
    (v : Value N) (s : Store D) (f : ℕ)
    → IsSound D blake3 Occurs s
    → AllNodes blake3 B Occurs v
    → nesting v < f
    → (h : NodeHash) × (t : Store D) × (u : Store D) × (ingest D blake3 B v s ≡ (some h, t))
      × (reconstruct D blake3 B f h t ≡ (some (restored B v), u))
      × ((g : NodeHash) → view D u g ≡ view D t g)
reconstruct-ingest D W blake3 Occurs C B L v s f sound occurs room =
    let (t, run, _, _, hold) = ingest-root D W blake3 Occurs C B v s sound occurs in
    let (u, back, same) = reconstruct_run D blake3 B L f v t (room, hold) in
    (hash_of blake3 B v, t, u, run, back, same)
