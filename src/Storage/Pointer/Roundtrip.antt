-- ===== src/Storage/Pointer/Roundtrip.antt =====
-- A body that is stored, pointed to, and brought back.
use apisnap.Common.{ℕ, ◌≡◌, String, List, ok}
use apisnap.Json.{Value}
use apisnap.Storage.Merkle.{NumberBits, Disk}
use apisnap.Storage.Merkle.Tree.{hash_of}
use apisnap.Storage.Pointer.{MerkleSnapshotPointer, Texts, new_pointer}

-- What is printed is read back: hashes by `hex`, and by `serde_json` the pointers that it prints.
pub record IsFaithful (T : Texts) : Type 0 where
  pub hex_decode-encode : (bytes : List ℕ) → T.hex_decode (T.hex_encode bytes) ≡ ok bytes
  pub from_str-to_string :
      (p : MerkleSnapshotPointer) (text : String)
      → T.to_string_pretty p ≡ ok text
      → T.from_str text ≡ ok p

module _ (T : Texts) (L : IsFaithful T) where
  module _ (D : Disk) {N : Type 0} (blake3 : List ℕ → List ℕ) (B : NumberBits N) where
    module _ (v : Value N) (name : String) (status ms : ℕ) where
      -- The pointer to a body's root hash.
      abbrev pub pointer_to : MerkleSnapshotPointer
      pointer_to = new_pointer T name (hash_of blake3 B v) status ms
