-- ===== src/Witnesses/Branches.antt =====
-- The theorems on the pointers of branches, applied: a hash of 32 bytes in unary digits, a printer
-- that prints one pointer, and two branches that point to one root.
use Prim.Native.Char.{code}
use Prim.Native.String.append
use text.Mathlib.TextLemmas.{append_assoc}
use apisnap.Common.{
  ℕ, zero, suc, ◌+◌, ◌==◌, ◌≡◌, refl, ap, ◌∙◌, arith, eq_iff, str_eq, ◌&&◌, Bool, true, false,
  String, none, List, [], ◌∷◌, Dict, ◌<>◌, ◌⊎◌, inl, ok, err, if◌then◌else◌,
}
use apisnap.Config.{EndpointConfig, ApiSnapConfig, http, get, default_masking}
use apisnap.Storage.Merkle.{NodeHash, MerkleNode, null_node, array_node, Store, compute_hash}
use apisnap.Storage.Merkle.Tree.{node_of}
use apisnap.Storage.Pointer.{
  MerkleSnapshotPointer, Texts, PointerIo, new_pointer, reconstruct_pointer,
}
use apisnap.Storage.Pointer.Roundtrip.{IsFaithful, pointer_to}
use apisnap.Engine.Differ.{array_mode}
use apisnap.Cli.{Program}
use apisnap.Cli.Branches.{Agrees, handle_test_branch_pointers, handle_test_branch_pointers-Agrees}
use apisnap.Witnesses.Data.{naturals, as_is, never_equal, memory, pair, bits}
use apisnap.Witnesses.Snapshots.{crates}

-- A digit `0` after as many `1` as a byte says.
abbrev ones : ℕ → String
ones zero = "0"
ones (suc n) = "1" <> ones n

abbrev unary : List ℕ → String
unary [] = ""
unary (n ∷ ns) = ones n <> unary ns

abbrev counted : ℕ → String → List ℕ
counted n String.[] = []
counted n (String.◌∷◌ c s) = elim (code c == b'1') [
  | true ↦ counted (suc n) s
  | false ↦ n ∷ counted 0 s
]

counted-ones : (m n : ℕ) (t : String) → counted m (ones n <> t) ≡ (m + n) ∷ counted 0 t
counted-ones m zero t =
    rw (append.cons "0" "" t, append.nil t) (ap (λ k. k ∷ counted 0 t) (omega arith))
counted-ones m (suc n) t =
    rw (append_assoc "1" (ones n) t, append.cons "1" "" (ones n <> t), append.nil (ones n <> t))
      (counted-ones (suc m) n t ∙ ap (λ k. k ∷ counted 0 t) (omega arith))

counted-unary : (ns : List ℕ) → counted 0 (unary ns) ≡ ns
counted-unary [] = refl
counted-unary (n ∷ ns) =
    counted-ones 0 n (unary ns)
    ∙ ap (λ k. k ∷ counted 0 (unary ns)) (omega arith)
    ∙ ap (λ l. n ∷ l) (counted-unary ns)

-- 32 bytes, of which the first tells the kind of a node.
abbrev zeros : ℕ → List ℕ
zeros zero = []
zeros (suc n) = 0 ∷ zeros n

abbrev padded : List ℕ → List ℕ
padded [] = 0 ∷ zeros 31
padded (b ∷ bytes) = b ∷ zeros 31

abbrev Occurs : MerkleNode → Type 0
Occurs n = (n ≡ null_node) ⊎ (n ≡ array_node ((0 ∷ zeros 31) ∷ (0 ∷ zeros 31) ∷ []))

abbrev pair_hash : NodeHash
pair_hash = 4 ∷ zeros 31

abbrev expected : MerkleSnapshotPointer
expected = record {
  endpoint_name = "users";
  root_hash = unary pair_hash;
  status_code = 200;
  duration_ms = 12;
  recorded_at = "now";
  apisnap_version = "1.0";
}

abbrev is_expected : MerkleSnapshotPointer → Bool
is_expected p =
    str_eq p.endpoint_name "users"
    && (str_eq p.root_hash (unary pair_hash)
        && (p.status_code == 200
            && (p.duration_ms == 12
                && (str_eq p.recorded_at "now" && str_eq p.apisnap_version "1.0"))))

expected_only : (p : MerkleSnapshotPointer) → is_expected p ≡ true → expected ≡ p
expected_only p h =
    let name : p.endpoint_name ≡ "users" = ground (arith, h, eq_iff p.endpoint_name "users") in
    let root : p.root_hash ≡ unary pair_hash =
      ground (arith, h, eq_iff p.root_hash (unary pair_hash)) in
    let status : p.status_code ≡ 200 = ground (arith, h) in
    let ms : p.duration_ms ≡ 12 = ground (arith, h) in
    let at : p.recorded_at ≡ "now" = ground (arith, h, eq_iff p.recorded_at "now") in
    let version : p.apisnap_version ≡ "1.0" = ground (arith, h, eq_iff p.apisnap_version "1.0") in
    rw (name, root, status, ms, at, version) refl

abbrev texts : Texts
texts = record {
  hex_encode = unary;
  hex_decode = λ text. ok (counted 0 text);
  to_string_pretty = λ p. if is_expected p then ok "{}" else err "not this one";
  from_str = λ text. ok expected;
  now = "now";
  version = "1.0";
}

texts-IsFaithful : IsFaithful texts
texts-IsFaithful = record {
  hex_decode-encode = λ bytes. ap ok (counted-unary bytes);
  from_str-to_string = λ p text printed. ap ok (expected_only p (ground (arith, printed)));
}

abbrev all_well : PointerIo
all_well = record { create_dir = true; write = true; torn = none; read = true }

printed :
    texts.to_string_pretty
      (pointer_to texts texts-IsFaithful memory padded bits pair "users" 200 12)
    ≡ ok "{}"
unfolding new_pointer compute_hash node_of
printed = refl

abbrev pair_pointer : MerkleSnapshotPointer
pair_pointer = pointer_to texts texts-IsFaithful memory padded bits pair "users" 200 12

abbrev users : EndpointConfig naturals
users = record {
  name = "users";
  protocol = http;
  method = get;
  path = "/users";
  headers = [];
  query_params = [];
  body = none;
  expected_status = 200;
  float_epsilon_override = none;
  mask_overrides = [];
  array_modes = [];
  upstream_dependencies = [];
}

abbrev config : ApiSnapConfig naturals
config = record {
  concurrency = 10;
  max_depth = 512;
  float_epsilon = 0;
  normalize_unicode_keys = true;
  masking = default_masking;
  endpoints = users ∷ [];
  snapshot_dir = "snapshots";
}

abbrev program : Program naturals
program = record { K = crates; nfc = as_is; value_eq = never_equal }

abbrev files : Dict String
files = ("snapshots/main/users.ptr", "{}") ∷ ("snapshots/change/users.ptr", "{}") ∷ []

abbrev cas : Store memory
cas = record {
  cache =
      (pair_hash, array_node ((0 ∷ zeros 31) ∷ (0 ∷ zeros 31) ∷ []))
      ∷ (0 ∷ zeros 31, null_node)
      ∷ [];
  disk = [];
}

passes :
    handle_test_branch_pointers naturals program texts 3 config all_well files "main" "change" cas
    ≡ ok tt
unfolding handle_test_branch_pointers reconstruct_pointer array_mode
passes = refl

handle_test_branch_pointers-Agrees_example :
    Agrees naturals program texts 3 config all_well files "main" "change" cas users
handle_test_branch_pointers-Agrees_example =
    handle_test_branch_pointers-Agrees naturals program texts 3 config all_well files "main"
      "change" cas users passes (inl refl) refl refl
