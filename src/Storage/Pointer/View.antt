-- ===== src/Storage/Pointer/View.antt =====
-- Restoring the body of a pointer against what the object store holds.
use apisnap.Common.{
  ℕ, ◌==◌, ◌≡◌, refl, sym, ap, ◌∙◌, inl, inr, true, Option, none, some, List, length, arith,
  Bool-cases, Result-cases, ok,
}
use apisnap.Json.{Value}
use apisnap.Storage.Merkle.{NumberBits, Disk, Store, reconstruct}
use apisnap.Storage.Merkle.Tree.{view}
use apisnap.Storage.Merkle.View.{SameView, reconstruct-Keeps, reconstruct-ByView}
use apisnap.Storage.Pointer.{MerkleSnapshotPointer, Texts, restored_snapshot, reconstruct_pointer}

module _ (T : Texts) (D : Disk) {N : Type 0} (blake3 : List ℕ → List ℕ) (B : NumberBits N)
    (fuel : ℕ) where
  reconstruct_pointer_run :
      (pointer : MerkleSnapshotPointer) (h : List ℕ) (s : Store D)
      → T.hex_decode pointer.root_hash ≡ ok h
      → (length h == 32) ≡ true
      → reconstruct_pointer T D blake3 B fuel pointer s
        ≡ restored_snapshot T D blake3 B fuel pointer (reconstruct D blake3 B fuel h s)
  unfolding reconstruct_pointer
  reconstruct_pointer_run pointer h s good long = ground (arith, good, long)

  -- Restoring is decided by what the store holds, and leaves that.
  pub reconstruct_pointer-Alike :
      (pointer : MerkleSnapshotPointer) (s t : Store D)
      → SameView D s t
      → ((reconstruct_pointer T D blake3 B fuel pointer s).0
          ≡ (reconstruct_pointer T D blake3 B fuel pointer t).0)
        × SameView D s (reconstruct_pointer T D blake3 B fuel pointer s).1
  unfolding reconstruct_pointer
  reconstruct_pointer-Alike pointer s t same =
      elim (Result-cases (T.hex_decode pointer.root_hash)) [
        | inr (e, bad) ↦ (ground (arith, bad), λ g. ground (arith, bad))
        | inl (h, good) ↦ elim (Bool-cases (length h == 32)) [
          | inr short ↦ (ground (arith, good, short), λ g. ground (arith, good, short))
          | inl long ↦
              let rebuilt = reconstruct D blake3 B fuel h in
              (
                ap (λ r. r.0) (reconstruct_pointer_run pointer h s good long)
                    ∙ restored_snapshot-same pointer (rebuilt s) (rebuilt t)
                        (reconstruct-ByView D blake3 B fuel h s t same).0
                    ∙ ap (λ r. r.0) (sym (reconstruct_pointer_run pointer h t good long)),
                λ g.
                    ap (λ r. view D r.1 g) (reconstruct_pointer_run pointer h s good long)
                    ∙ ap (λ u. view D u g) (restored_snapshot-store pointer (rebuilt s))
                    ∙ reconstruct-Keeps D blake3 B fuel h s g,
              )
        ]
      ]
    where
      restored_snapshot-same :
          (p : MerkleSnapshotPointer) (r q : Option (Value N) × Store D)
          → r.0 ≡ q.0
          → (restored_snapshot T D blake3 B fuel p r).0
            ≡ (restored_snapshot T D blake3 B fuel p q).0
      restored_snapshot-same p (none, s) (none, t) h = refl
      restored_snapshot-same p (none, s) (some v, t) h = absurd (cc h)
      restored_snapshot-same p (some v, s) (none, t) h = absurd (cc h)
      restored_snapshot-same p (some v, s) (some w, t) h = cc

      restored_snapshot-store :
          (p : MerkleSnapshotPointer) (r : Option (Value N) × Store D)
          → (restored_snapshot T D blake3 B fuel p r).1 ≡ r.1
      restored_snapshot-store p (none, s) = refl
      restored_snapshot-store p (some v, s) = refl
