-- ===== src/Witnesses/Data.antt =====
-- Concrete data: numbers and floats that are natural numbers, patterns that are plain tests, a disk
-- in memory, a hash without collisions on the nodes that occur.
use apisnap.Common.{
  ℕ, ◌-◌, ◌^◌, ◌≡◌, refl, String, Bool, true, false, Option, none, some, List, [], ◌∷◌, ltb, leb,
  ◌==◌, str_eq, show_ℕ, arith, ◌⊎◌, if◌then◌else◌,
}
use apisnap.Json.{Numbers, Value, null, number, string, array, object, nil, cons, end, field}
use apisnap.Engine.Masker.{Patterns}
use apisnap.Storage.Merkle.{
  NodeHash, MerkleNode, null_node, array_node, NumberBits, cache_get, Disk, Store, compute_hash,
}
use apisnap.Storage.Merkle.Tree.{view}
use apisnap.Storage.Merkle.Bytes.{IsBits}
use apisnap.Storage.Merkle.Ingest.{IsWritable, NoCollision, IsSound}

abbrev pub naturals : Numbers
naturals = record {
  Number = ℕ;
  F64 = ℕ;
  eq = ◌==◌;
  as_f64 = some;
  zero_f64 = 0;
  lt = ltb;
  le = leb;
  sub = ◌-◌;
  abs = λ x. x;
}

abbrev pub as_is : String → String
as_is s = s

abbrev pub never_equal : Value ℕ → Value ℕ → Bool
never_equal v w = false

abbrev pub user : Value ℕ
user = object (field "id" (number 7) (field "tags" (array (cons (string "a") (cons null nil))) end))

-- The same user, its keys in the other order.
abbrev pub user_reordered : Value ℕ
user_reordered =
    object (field "tags" (array (cons (string "a") (cons null nil))) (field "id" (number 7) end))

-- The user without its tags.
abbrev pub user_reduced : Value ℕ
user_reduced = object (field "id" (number 7) end)

abbrev pub patterns : Patterns ℕ
patterns = record {
  Regex = String;
  compile = some;
  replace_all = λ pattern text replacement. if str_eq pattern text then replacement else text;
  is_uuid = str_eq "uuid";
  is_jwt = str_eq "jwt";
  is_object_id = str_eq "object id";
  is_ssn = str_eq "ssn";
  is_email = str_eq "email";
  is_iso8601 = str_eq "now";
  is_unix_epoch = str_eq "1700000000";
  is_key_time_hint = str_eq "created_at";
  is_aws_key = str_eq "aws";
  has_private_key_header = str_eq "private";
  show_number = show_ℕ;
}

abbrev is_some : {A : Type 0} → Option A → Bool
is_some none = false
is_some (some a) = true

abbrev pub memory : Disk
memory = record {
  State = List (NodeHash × MerkleNode);
  exists = λ d h. is_some (cache_get h d);
  read = λ d h. cache_get h d;
  write = λ d h n. some ((h, n) ∷ d);
}

pub memory-IsWritable : IsWritable memory
memory-IsWritable = record {
  writes = λ d h n. ((h, n) ∷ d, refl);
  reads = λ d e h g n w. ground (arith, w);
  exist = λ d e h g n w. ground (arith, w);
}

-- The hasher's input itself: it has no collision on the nodes below.
abbrev pub toy_blake3 : List ℕ → List ℕ
toy_blake3 bytes = bytes

abbrev pub pair : Value ℕ
pair = array (cons null (cons null nil))

abbrev pub pair_node : MerkleNode
pair_node = array_node ((0 ∷ []) ∷ (0 ∷ []) ∷ [])

abbrev pub Occurs : MerkleNode → Type 0
Occurs n = (n ≡ null_node) ⊎ (n ≡ pair_node)

pub toy-NoCollision : NoCollision toy_blake3 Occurs
unfolding compute_hash
toy-NoCollision = record { distinct = λ m n hm hn e. ground (arith, hm, hn, e) }

abbrev pub bits : NumberBits ℕ
bits = record {
  as_i64 = λ n. if ltb n (2 ^ 64) then some n else none;
  as_f64 = λ n. none;
  from_i64 = λ n. n;
  from_f64 = some;
}

pub bits-IsBits : IsBits bits
bits-IsBits = record {
  as_i64-bound = λ n i h. ground (arith, h);
  as_f64-bound = λ n f h. absurd (cc h);
  from_i64-as_i64 = λ n i h. ground (arith, h);
}

abbrev pub fresh : Store memory
fresh = record { cache = []; disk = [] }

pub fresh-IsSound : IsSound memory toy_blake3 Occurs fresh
unfolding view
fresh-IsSound = record { known = λ h n e. absurd (cc e); readable = λ h e. absurd (cc e) }
