-- ===== src/Witnesses/Storage.antt =====
-- The theorems on the object store and the timeline, applied.
use apisnap.Common.{ℕ, ◌<◌, ◌≡◌, refl, arith, String, true, none, some, [], ◌∷◌, inl, inr}
use apisnap.Json.{nesting}
use apisnap.Storage.Merkle.{compute_hash, NodeHash, Store, ingest, reconstruct}
use apisnap.Storage.Merkle.Tree.{node_of, restored, view, AllNodes}
use apisnap.Storage.Merkle.Reconstruct.{reconstruct-ingest}
use apisnap.Storage.Timeline.{
  shadow_proxy, TimelineCommit, blank, malformed, entry, Ledger, Services,
}
use apisnap.Witnesses.Data.{
  bits-IsBits, naturals, as_is, never_equal, memory, memory-IsWritable, toy_blake3, pair, Occurs,
  toy-NoCollision, bits, fresh, fresh-IsSound,
}

pair-Occurs : AllNodes toy_blake3 bits Occurs pair
unfolding AllNodes node_of compute_hash
pair-Occurs = (inr refl, (inl refl, (inl refl, tt)))

shallow : nesting pair < 3
unfolding nesting
shallow = omega arith

reconstruct-ingest_example :
    (h : NodeHash) × (t : Store memory) × (u : Store memory) × (ingest memory toy_blake3 bits pair
        fresh
      ≡ (some h, t))
    × (reconstruct memory toy_blake3 bits 3 h t ≡ (some (restored bits pair), u))
    × ((g : NodeHash) → view memory u g ≡ view memory t g)
reconstruct-ingest_example =
    reconstruct-ingest memory memory-IsWritable toy_blake3 Occurs toy-NoCollision bits bits-IsBits
      pair fresh 3 fresh-IsSound pair-Occurs shallow

abbrev commit : String → TimelineCommit ℕ
commit id = record {
  commit_id = id;
  endpoint_name = "get_user";
  parent_commit = none;
  observed_at = "today";
  source = shadow_proxy;
  response_root_hash = "00";
  latency_ms = 12;
  status_code = 200;
  structural_delta_summary = record {
    fields_added = 0;
    fields_removed = 0;
    fields_type_changed = 0;
    latency_delta_ms = 0;
  };
}

abbrev ledger : Ledger ℕ
ledger =
    ("get_user", entry (commit "one") ∷ blank ∷ entry (commit "two") ∷ malformed ∷ [])
    ∷ ("list_users", entry (commit "three") ∷ [])
    ∷ []

abbrev services : Services naturals
services = record {
  D = memory;
  blake3 = toy_blake3;
  B = bits;
  nfc = as_is;
  value_eq = never_equal;
  hex_encode = λ bytes. "hex";
  hex_decode = λ text. none;
  fuel = 3;
  readable = λ name. true;
  writable = λ name. true;
}
