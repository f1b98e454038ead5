-- ===== src/Fuzz/Mutator.antt =====
-- src/fuzz/mutator.rs: the mutations of a body. The numbers that are tried come from `from_i64`.
pub mod Places
pub mod Visits
pub mod Complete
use apisnap.Common.{
  ℕ, zero, suc, ◌-◌, ◌^◌, ℤ, pos, negsuc, String, List, [], ◌∷◌, ◌++◌, map, Dict, keys, ◌<>◌,
  at_index,
}
use apisnap.Json.{
  Value, null, bool, number, string, array, object, Items, nil, cons, Fields, end, field, entries,
}
use apisnap.Fuzz.Paths.{key_path}
use apisnap.Fuzz.Edit.{replace_path_in_ast, remove_path_in_ast}

pub record MutationCase (N : Type 0) : Type 0 where
  pub name : String
  pub description : String
  pub mutated_body : Value N

-- `"A".repeat(n)`
unfoldable pub repeat_a : ℕ → String
repeat_a zero = ""
repeat_a (suc n) = "A" <> repeat_a n

module _ {N : Type 0} (from_i64 : ℤ → N) (root : Value N) where
  -- One case: the body with a value at a path.
  abbrev pub replaced : String → String → Value N → String → MutationCase N
  replaced name description replacement path = record {
    name = name <> path;
    description = description <> path <> "'";
    mutated_body = replace_path_in_ast root path replacement;
  }

  unfoldable pub missing_key : String → String → MutationCase N
  unfolding remove_path_in_ast
  missing_key current_path k = record {
    name = "missing_key_" <> k;
    description = "Omit required key '" <> key_path current_path k <> "'";
    mutated_body = remove_path_in_ast root (key_path current_path k);
  }

  unfoldable pub null_key : String → String → MutationCase N
  unfolding replace_path_in_ast
  null_key current_path k = record {
    name = "null_key_" <> k;
    description = "Set key '" <> key_path current_path k <> "' to null";
    mutated_body = replace_path_in_ast root (key_path current_path k) null;
  }

  abbrev pub missing_keys : String → List String → List (MutationCase N)
  missing_keys current_path ks = map (missing_key current_path) ks

  abbrev pub null_keys : String → List String → List (MutationCase N)
  null_keys current_path ks = map (null_key current_path) ks

  -- The four probes of a text.
  abbrev pub string_cases : String → List (MutationCase N)
  string_cases current_path =
      replaced "sqli_" "SQL injection boundary probe at '" (string "' OR '1'='1 --") current_path
      ∷ replaced "xss_" "XSS script injection probe at '" (string "<script>alert('xss')</script>")
          current_path
      ∷ replaced "empty_str_" "Empty string at '" (string "") current_path
      ∷ replaced "oversized_" "Oversized 16KB buffer at '" (string (repeat_a 16384)) current_path
      ∷ []

  abbrev pub number_cases : String → List (MutationCase N)
  number_cases current_path =
      replaced "max_int_" "Max signed 64-bit integer at '" (number (from_i64 (pos (2 ^ 63 - 1))))
        current_path
      ∷ replaced "negative_" "Negative value (-1) at '" (number (from_i64 (negsuc 0))) current_path
      ∷ replaced "zero_" "Zero (0) at '" (number (from_i64 (pos 0))) current_path
      ∷ []

  abbrev pub empty_array_case : String → MutationCase N
  empty_array_case = replaced "empty_array_" "Empty array `[]` at '" (array nil)

  unfoldable mutual
    pub mutate_recursive : Value N → String → List (MutationCase N)
    mutate_recursive (object fs) current_path =
        missing_keys current_path (keys (entries fs))
        ++ (null_keys current_path (keys (entries fs)) ++ mutate_fields fs current_path)
    mutate_recursive (string s) current_path = string_cases current_path
    mutate_recursive (number n) current_path = number_cases current_path
    mutate_recursive (array vs) current_path =
        empty_array_case current_path ∷ mutate_items vs 0 current_path
    mutate_recursive null current_path = []
    mutate_recursive (bool b) current_path = []

    pub mutate_items : Items N → ℕ → String → List (MutationCase N)
    mutate_items nil idx current_path = []
    mutate_items (cons item vs) idx current_path =
        mutate_recursive item (at_index current_path idx) ++ mutate_items vs (suc idx) current_path

    pub mutate_fields : Fields N → String → List (MutationCase N)
    mutate_fields end current_path = []
    mutate_fields (field k child fs) current_path =
        mutate_recursive child (key_path current_path k) ++ mutate_fields fs current_path

  unfoldable pub generate_mutations : List (MutationCase N)
  unfolding mutate_recursive
  generate_mutations =
      record {
        name = "null_payload";
        description = "Empty / Null request payload";
        mutated_body = null;
      }
      ∷ record {
        name = "empty_object";
        description = "Empty object `{}` payload";
        mutated_body = object end;
      }
      ∷ mutate_recursive root "$"
