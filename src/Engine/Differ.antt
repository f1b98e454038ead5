-- ===== src/Engine/Differ.antt =====
-- src/engine/differ.rs: the comparison of two JSON trees. What the code pushes onto `out` is the
-- list that a function here returns. The recursion is on fuel; `Engine.Differ.Depth` says how much
-- is enough. The normalisation of keys (`nfc`, a crate's) and `==` of whole trees are parameters.
pub mod Same
pub mod Claims
pub mod Sound
pub mod Depth
pub mod Alike
pub mod Complete
use apisnap.Common.{
  ℕ, zero, suc, ◌+◌, min, String, Bool, true, false, ◌&&◌, Option, none, some, List, [], ◌∷◌, ◌++◌,
  Dict, lookup, keys, btree_insert, length, drop, is_empty, for_each, ltb, ◌==◌, str_eq, at_index,
  ◌<>◌, if◌then◌else◌,
}
use apisnap.Config.{ArrayDiffMode, ordered, set}
use apisnap.Json.{
  Numbers, Value, null, bool, number, string, array, object, Items, Fields, items, entries,
}

pub data DiffKind (N : Type 0) : Type 0 where
  added : String → Value N → DiffKind N
  removed : String → Value N → DiffKind N
  modified : String → Value N → Value N → DiffKind N
  type_mismatch : String → String → String → Value N → Value N → DiffKind N
  array_length_mismatch : String → ℕ → ℕ → DiffKind N
  depth_exceeded : String → ℕ → DiffKind N

unfoldable pub json_path : {N : Type 0} → DiffKind N → String
json_path (added p v) = p
json_path (removed p v) = p
json_path (modified p v w) = p
json_path (type_mismatch p s t v w) = p
json_path (array_length_mismatch p m n) = p
json_path (depth_exceeded p n) = p

pub record DiffReport (N : Type 0) : Type 0 where
  pub endpoint_name : String
  pub differences : List (DiffKind N)
  pub is_match : Bool
  pub expected_status : ℕ
  pub actual_status : ℕ
  pub trace_context : Option String
  pub trace_link : Option String

unfoldable pub passed : {N : Type 0} → DiffReport N → Bool
passed r = r.is_match && r.expected_status == r.actual_status

unfoldable pub value_type_name : {N : Type 0} → Value N → String
value_type_name null = "null"
value_type_name (bool b) = "boolean"
value_type_name (number n) = "number"
value_type_name (string s) = "string"
value_type_name (array vs) = "array"
value_type_name (object fs) = "object"

pub record DiffOptions (F64 : Type 0) : Type 0 where
  pub float_epsilon : F64
  pub normalize_unicode_keys : Bool
  pub max_depth : ℕ
  pub fast_hash_bypass : Bool
  pub array_modes : Dict ArrayDiffMode

-- `DiffOptions::default()`
abbrev pub default_options : (J : Numbers) → DiffOptions J.F64
default_options J = record {
  float_epsilon = J.zero_f64;
  normalize_unicode_keys = true;
  max_depth = 512;
  fast_hash_bypass = true;
  array_modes = [];
}

-- `options.array_modes.get(path).copied().unwrap_or(Ordered)`
unfoldable pub array_mode : {F64 : Type 0} → DiffOptions F64 → String → ArrayDiffMode
array_mode options path = elim (lookup path options.array_modes) [
  | some mode ↦ mode
  | none ↦ ordered
]

module _ (nfc : String → String) {V : Type 0} where
  -- `map.iter().map(|(k, v)| (k.nfc().collect(), v)).collect::<BTreeMap<_, _>>()`: of two keys that
  -- become one, the later entry stays.
  unfoldable pub collect_from : Bool → Dict V → Dict V → Dict V
  collect_from normalize [] acc = acc
  collect_from normalize ((k, v) ∷ m) acc =
      collect_from normalize m (btree_insert (if normalize then nfc k else k) v acc)

  abbrev pub normalized : Bool → Dict V → Dict V
  normalized normalize m = collect_from normalize m []

module _ (J : Numbers) where
  open J use {Number, F64, eq, as_f64, zero_f64, lt, le, sub, abs}

  unfoldable pub numbers_match : F64 → Number → Number → Bool
  numbers_match eps e_num a_num =
      if lt zero_f64 eps
      then elim (as_f64 e_num) [
        | some e_f ↦ elim (as_f64 a_num) [
          | some a_f ↦ le (abs (sub e_f a_f)) eps
          | none ↦ eq e_num a_num
        ]
        | none ↦ eq e_num a_num
      ]
      else eq e_num a_num

-- `vec![false; actual.len()]`
abbrev pub none_matched : {A : Type 0} → List A → List Bool
none_matched [] = []
none_matched (a ∷ rest) = false ∷ none_matched rest

-- What is pushed for one node alone.
module _ {N : Type 0} (path : String) where
  -- One round of the first two loops over keys.
  unfoldable pub removed_at : Dict (Value N) → Dict (Value N) → String → List (DiffKind N)
  removed_at e a key = elim (lookup key a) [
    | some _ ↦ []
    | none ↦ elim (lookup key e) [ some v ↦ removed (path <> "." <> key) v ∷ [] | none ↦ [] ]
  ]

  unfoldable pub added_at : Dict (Value N) → Dict (Value N) → String → List (DiffKind N)
  added_at e a key = elim (lookup key e) [
    | some _ ↦ []
    | none ↦ elim (lookup key a) [ some v ↦ added (path <> "." <> key) v ∷ [] | none ↦ [] ]
  ]

  -- `a_arr.iter().enumerate().skip(e_arr.len())`
  unfoldable pub added_from : ℕ → List (Value N) → List (DiffKind N)
  added_from i [] = []
  added_from i (a ∷ bs) = added (at_index path i) a ∷ added_from (suc i) bs

  -- The loop over the items that stayed free.
  unfoldable pub unclaimed : List (Value N) → List Bool → List (DiffKind N)
  unclaimed (a ∷ bs) (true ∷ matched) = unclaimed bs matched
  unclaimed (a ∷ bs) (false ∷ matched) = added (path <> "[*]") a ∷ unclaimed bs matched
  unclaimed _ _ = []

-- The cases of `diff_recursive` for one node. `rec` is the call on a child, at the child's path.
module _ {N : Type 0} (rec : Value N → Value N → String → List (DiffKind N)) (path : String) where
  -- One round of the third loop over keys.
  unfoldable pub common_at : Dict (Value N) → Dict (Value N) → String → List (DiffKind N)
  common_at e a key = elim (lookup key e) [
    | some v ↦ elim (lookup key a) [ some w ↦ rec v w (path <> "." <> key) | none ↦ [] ]
    | none ↦ []
  ]

  unfoldable pub diff_objects : Dict (Value N) → Dict (Value N) → List (DiffKind N)
  unfolding removed_at added_at common_at
  diff_objects e a =
      for_each (keys e) (removed_at path e a)
      ++ (for_each (keys a) (added_at path e a) ++ for_each (keys e) (common_at e a))

  -- `for i in 0..min_len`, from index `i` on
  unfoldable pub diff_pairs : ℕ → List (Value N) → List (Value N) → List (DiffKind N)
  diff_pairs i (e ∷ es) (a ∷ bs) = rec e a (at_index path i) ++ diff_pairs (suc i) es bs
  diff_pairs i _ _ = []

  unfoldable pub diff_ordered : List (Value N) → List (Value N) → List (DiffKind N)
  unfolding diff_pairs added_from
  diff_ordered es bs =
      (if length es == length bs
        then []
        else array_length_mismatch path (length es) (length bs) ∷ [])
      ++ (diff_pairs 0 es bs
          ++ (if ltb (length es) (length bs)
              then added_from path (length es) (drop (length es) bs)
              else []))

  -- The inner loop of `diff_array_as_set`: the first free item that has no difference to `e_item`
  -- is marked, if there is one.
  unfoldable pub claim : Value N → List (Value N) → List Bool → Option (List Bool)
  claim e_item (a ∷ bs) (true ∷ matched) = elim (claim e_item bs matched) [
    | none ↦ none
    | some rest ↦ some (true ∷ rest)
  ]
  claim e_item (a ∷ bs) (false ∷ matched) =
      if is_empty (rec e_item a path)
      then some (true ∷ matched)
      else elim (claim e_item bs matched) [ none ↦ none | some rest ↦ some (false ∷ rest) ]
  claim e_item _ _ = none

  -- The outer loop, with the marks that it leaves.
  unfoldable pub claim_all :
      List (Value N) → List (Value N) → List Bool → List (DiffKind N) × List Bool
  claim_all [] actual matched = ([], matched)
  claim_all (e ∷ es) actual matched = elim (claim e actual matched) [
    | some matched' ↦ claim_all es actual matched'
    | none ↦
        let (out, matched') = claim_all es actual matched in
        (removed (path <> "[*]") e ∷ out, matched')
  ]

  unfoldable pub diff_array_as_set : List (Value N) → List (Value N) → List (DiffKind N)
  unfolding claim claim_all unclaimed
  diff_array_as_set es bs =
      let (out, matched) = claim_all es bs (none_matched bs) in out ++ unclaimed path bs matched

module _ (J : Numbers) (nfc : String → String) (options : DiffOptions J.F64) where
  open J use {Number}

  -- Step 2 of `diff_recursive`, the match on the two variants. The last clause is the code's
  -- `unreachable!`: step 1 has returned.
  unfoldable pub diff_variants :
      (Value Number → Value Number → String → List (DiffKind Number))
      → Value Number
      → Value Number
      → String
      → List (DiffKind Number)
  unfolding numbers_match diff_objects diff_ordered diff_array_as_set
  diff_variants rec (object e_map) (object a_map) path =
      diff_objects rec path (normalized nfc options.normalize_unicode_keys (entries e_map))
        (normalized nfc options.normalize_unicode_keys (entries a_map))
  diff_variants rec (array e_arr) (array a_arr) path = elim (array_mode options path) [
    | ordered ↦ diff_ordered rec path (items e_arr) (items a_arr)
    | set ↦ diff_array_as_set rec path (items e_arr) (items a_arr)
  ]
  diff_variants rec (string e_str) (string a_str) path =
      if str_eq e_str a_str then [] else modified path (string e_str) (string a_str) ∷ []
  diff_variants rec (number e_num) (number a_num) path =
      if numbers_match J options.float_epsilon e_num a_num
      then []
      else modified path (number e_num) (number a_num) ∷ []
  diff_variants rec (bool true) (bool true) path = []
  diff_variants rec (bool false) (bool false) path = []
  diff_variants rec (bool e_bool) (bool a_bool) path =
      modified path (bool e_bool) (bool a_bool) ∷ []
  diff_variants rec _ _ path = []

  unfoldable pub diff_recursive :
      ℕ → ℕ → Value Number → Value Number → String → List (DiffKind Number)
  unfolding diff_variants value_type_name
  diff_recursive zero depth expected actual path = depth_exceeded path options.max_depth ∷ []
  diff_recursive (suc fuel) depth expected actual path =
      if ltb options.max_depth depth
      then depth_exceeded path options.max_depth ∷ []
      else if str_eq (value_type_name expected) (value_type_name actual)
      then diff_variants (diff_recursive fuel (suc depth)) expected actual path
      else type_mismatch path (value_type_name expected) (value_type_name actual) expected actual
        ∷ []

  module _ (value_eq : Value Number → Value Number → Bool) where
    unfoldable pub compare_json_ast : Value Number → Value Number → List (DiffKind Number)
    unfolding diff_recursive
    compare_json_ast expected actual =
        if options.fast_hash_bypass && value_eq expected actual
        then []
        else diff_recursive (suc options.max_depth) 0 expected actual "$"
