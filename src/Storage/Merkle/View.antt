-- ===== src/Storage/Merkle/View.antt =====
-- Reading from the store: what a value is rebuilt to depends on what the store holds, which it leaves
-- as it was, whether the reading succeeds or not.
use apisnap.Common.{
  ℕ, zero, suc, ◌≡◌, refl, ap, sym, ◌∙◌, subst, inl, inr, String, Option, none, some, List, [], ◌∷◌,
  Dict, insert, arith, Bool-cases, Option-cases,
}
use apisnap.Json.{Value}
use apisnap.Storage.Merkle.{
  NodeHash, same_hash, MerkleNode, null_node, bool_node, number_node, string_node, array_node,
  object_node, NumberBits, Disk, Store, Io, remember, continue, cache_get, load, rebuild_children,
  rebuild_entries, rebuild, reconstruct,
}
use apisnap.Storage.Merkle.Tree.{same_hash→eq, view}

module _ (D : Disk) where
  abbrev pub SameView : Store D → Store D → Type 0
  SameView s t = (h : NodeHash) → view D t h ≡ view D s h

  pub load_lem :
      (h : NodeHash) (n : MerkleNode) (s : Store D)
      → view D s h ≡ some n
      → (t : Store D) × (load D h s ≡ (some n, t)) × SameView s t
  unfolding load view
  load_lem h n s e = elim (Option-cases (cache_get h s.cache)) [
    | inr (m, hit) ↦ (s, ground (arith, hit, e), λ g. refl)
    | inl miss ↦ (
      remember D h n s,
      ground (arith, miss, e),
      λ g. elim (Bool-cases (same_hash h g)) [
        | inl same ↦ ground (arith, same, ap (view D s) (same_hash→eq h g same), e)
        | inr differ ↦ ground (arith, differ)
      ],
    )
  ]

  -- The two runs have one result, on stores that hold the same.
  abbrev Alike : {A : Type 0} → Option A × Store D → Option A × Store D → Type 0
  Alike r q = (r.0 ≡ q.0) × SameView r.1 q.1

  -- A run is decided by what the store holds.
  abbrev ByView : {A : Type 0} → Io D A → Type 0
  ByView run = (s t : Store D) → SameView s t → Alike (run s) (run t)

  -- A run leaves what the store holds.
  abbrev Keeps : {A : Type 0} → Io D A → Type 0
  Keeps run = (s : Store D) → SameView s (run s).1

  continue-ByView :
      {A B : Type 0} (r q : Option A × Store D) (f : A → Io D B)
      → Alike r q
      → ((a : A) → ByView (f a))
      → Alike (continue D r f) (continue D q f)
  continue-ByView (none, s) (none, t) f (same, views) h = (refl, views)
  continue-ByView (none, s) (some b, t) f (same, views) h = absurd (cc same)
  continue-ByView (some a, s) (none, t) f (same, views) h = absurd (cc same)
  continue-ByView (some a, s) (some b, t) f (same, views) h =
      let is : a ≡ b = ap (λ o. elim o [ none ↦ a | some x ↦ x ]) same in
      subst (λ x. Alike (f a s) (f x t)) is (h a s t views)

  continue-Keeps :
      {A B : Type 0} (s : Store D) (r : Option A × Store D) (f : A → Io D B)
      → SameView s r.1
      → ((a : A) → Keeps (f a))
      → SameView s (continue D r f).1
  continue-Keeps s (none, t) f views h = views
  continue-Keeps s (some a, t) f views h = λ g. h a t g ∙ views g

  load-view : (h : NodeHash) (s : Store D) → (load D h s).0 ≡ view D s h
  unfolding load view
  load-view h s = ground arith

  load-unread : (h : NodeHash) (s : Store D) → view D s h ≡ none → (load D h s).1 ≡ s
  unfolding load view
  load-unread h s absent = elim (Option-cases (cache_get h s.cache)) [
    | inr (m, hit) ↦ absurd (ground (arith, absent, hit))
    | inl miss ↦ ground (arith, absent, miss)
  ]

  load-Keeps : (h : NodeHash) → Keeps (load D h)
  load-Keeps h s = elim (Option-cases (view D s h)) [
    | inr (n, e) ↦ let (t, run, same) = load_lem h n s e in λ g. ap (λ r. view D r.1 g) run ∙ same g
    | inl absent ↦ λ g. ap (λ t. view D t g) (load-unread h s absent)
  ]

  load-ByView : (h : NodeHash) → ByView (load D h)
  load-ByView h s t same = (
    load-view h s ∙ sym (same h) ∙ sym (load-view h t),
    λ g. load-Keeps h t g ∙ same g ∙ sym (load-Keeps h s g),
  )

  module _ {N : Type 0} (blake3 : List ℕ → List ℕ) (B : NumberBits N) where
    module _ (rec : NodeHash → Io D (Value N)) (decided : (h : NodeHash) → ByView (rec h)) where
      rebuild_children-ByView : (hs : List NodeHash) → ByView (rebuild_children D blake3 B rec hs)
      unfolding rebuild_children
      rebuild_children-ByView [] s t same = (refl, same)
      rebuild_children-ByView (h ∷ hs) s t same =
          continue-ByView (rec h s) (rec h t) _ (decided h s t same) (λ v s t same.
            continue-ByView (rebuild_children D blake3 B rec hs s)
              (rebuild_children D blake3 B rec hs t) _ (rebuild_children-ByView hs s t same)
              (λ vs s t same. (refl, same)))

      rebuild_entries-ByView :
          (es : List (String × NodeHash)) (m : Dict (Value N))
          → ByView (rebuild_entries D blake3 B rec es m)
      unfolding rebuild_entries
      rebuild_entries-ByView [] m s t same = (refl, same)
      rebuild_entries-ByView ((k, h) ∷ es) m s t same =
          continue-ByView (rec h s) (rec h t) _ (decided h s t same)
            (λ v. rebuild_entries-ByView es (insert k v m))

      rebuild-ByView : (n : MerkleNode) → ByView (rebuild D blake3 B rec n)
      unfolding rebuild
      rebuild-ByView null_node s t same = (refl, same)
      rebuild-ByView (bool_node b) s t same = (refl, same)
      rebuild-ByView (number_node bs) s t same = (refl, same)
      rebuild-ByView (string_node r) s t same = (refl, same)
      rebuild-ByView (array_node hs) s t same =
          continue-ByView (rebuild_children D blake3 B rec hs s)
            (rebuild_children D blake3 B rec hs t) _ (rebuild_children-ByView hs s t same)
            (λ vs s t same. (refl, same))
      rebuild-ByView (object_node es) s t same =
          continue-ByView (rebuild_entries D blake3 B rec es [] s)
            (rebuild_entries D blake3 B rec es [] t) _ (rebuild_entries-ByView es [] s t same)
            (λ m s t same. (refl, same))

    module _ (rec : NodeHash → Io D (Value N)) (kept : (h : NodeHash) → Keeps (rec h)) where
      rebuild_children-Keeps : (hs : List NodeHash) → Keeps (rebuild_children D blake3 B rec hs)
      unfolding rebuild_children
      rebuild_children-Keeps [] s = λ g. refl
      rebuild_children-Keeps (h ∷ hs) s = continue-Keeps s (rec h s) _ (kept h s) (λ v t.
          continue-Keeps t (rebuild_children D blake3 B rec hs t) _ (rebuild_children-Keeps hs t)
            (λ vs u g. refl))

      rebuild_entries-Keeps :
          (es : List (String × NodeHash)) (m : Dict (Value N))
          → Keeps (rebuild_entries D blake3 B rec es m)
      unfolding rebuild_entries
      rebuild_entries-Keeps [] m s = λ g. refl
      rebuild_entries-Keeps ((k, h) ∷ es) m s =
          continue-Keeps s (rec h s) _ (kept h s) (λ v. rebuild_entries-Keeps es (insert k v m))

      rebuild-Keeps : (n : MerkleNode) → Keeps (rebuild D blake3 B rec n)
      unfolding rebuild
      rebuild-Keeps null_node s = λ g. refl
      rebuild-Keeps (bool_node b) s = λ g. refl
      rebuild-Keeps (number_node bs) s = λ g. refl
      rebuild-Keeps (string_node r) s = λ g. refl
      rebuild-Keeps (array_node hs) s =
          continue-Keeps s (rebuild_children D blake3 B rec hs s) _ (rebuild_children-Keeps hs s)
            (λ vs t g. refl)
      rebuild-Keeps (object_node es) s =
          continue-Keeps s (rebuild_entries D blake3 B rec es [] s) _
            (rebuild_entries-Keeps es [] s) (λ m t g. refl)

    -- With any fuel and for any hash, found or not.
    pub reconstruct-Keeps : (fuel : ℕ) (h : NodeHash) → Keeps (reconstruct D blake3 B fuel h)
    unfolding reconstruct
    reconstruct-Keeps zero h s = λ g. refl
    reconstruct-Keeps (suc fuel) h s =
        continue-Keeps s (load D h s) _ (load-Keeps h s)
          (rebuild-Keeps (reconstruct D blake3 B fuel) (reconstruct-Keeps fuel))

    pub reconstruct-ByView : (fuel : ℕ) (h : NodeHash) → ByView (reconstruct D blake3 B fuel h)
    unfolding reconstruct
    reconstruct-ByView zero h s t same = (refl, same)
    reconstruct-ByView (suc fuel) h s t same =
        continue-ByView (load D h s) (load D h t) _ (load-ByView h s t same)
          (rebuild-ByView (reconstruct D blake3 B fuel) (reconstruct-ByView fuel))
