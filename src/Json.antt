-- ===== src/Json.antt =====
-- JSON syntax trees: the constructors of `serde_json::Value`, on which every part of the program
-- matches. Its numbers and the double-precision floats are not implemented here: they are the
-- parameter `Numbers`. An object keeps its entries in insertion order (Cargo.toml switches on the
-- feature `preserve_order`).
use apisnap.Common.{◌≡◌, refl, ap, ℕ, suc, max, String, Bool, Option, List, [], ◌∷◌, Dict}

-- `serde_json::Number` and `f64`, with the operations that the program calls.
pub record Numbers : Type 1 where
  pub Number : Type 0
  pub F64 : Type 0
  -- `==` on `Number`
  pub eq : Number → Number → Bool
  pub as_f64 : Number → Option F64
  -- `0.0`, `<`, `<=`, `-` and `abs` on `f64`
  pub zero_f64 : F64
  pub lt : F64 → F64 → Bool
  pub le : F64 → F64 → Bool
  pub sub : F64 → F64 → F64
  pub abs : F64 → F64

mutual
  pub data Value (N : Type 0) : Type 0 where
    null : Value N
    bool : Bool → Value N
    number : N → Value N
    string : String → Value N
    array : Items N → Value N
    object : Fields N → Value N

  pub data Items (N : Type 0) : Type 0 where
    nil : Items N
    cons : Value N → Items N → Items N

  pub data Fields (N : Type 0) : Type 0 where
    end : Fields N
    field : String → Value N → Fields N → Fields N

module _ {N : Type 0} where
  abbrev pub items : Items N → List (Value N)
  items nil = []
  items (cons v vs) = v ∷ items vs

  abbrev pub entries : Fields N → Dict (Value N)
  entries end = []
  entries (field k v fs) = (k, v) ∷ entries fs

  abbrev pub from_list : List (Value N) → Items N
  from_list [] = nil
  from_list (v ∷ vs) = cons v (from_list vs)

  abbrev pub from_entries : Dict (Value N) → Fields N
  from_entries [] = end
  from_entries ((k, v) ∷ m) = field k v (from_entries m)

  pub entries-from_entries : (m : Dict (Value N)) → entries (from_entries m) ≡ m
  entries-from_entries [] = refl
  entries-from_entries ((k, v) ∷ m) = ap (λ r. (k, v) ∷ r) (entries-from_entries m)

  pub items-from_list : (vs : List (Value N)) → items (from_list vs) ≡ vs
  items-from_list [] = refl
  items-from_list (v ∷ vs) = ap (λ r. v ∷ r) (items-from_list vs)

-- How deep arrays and objects are nested.
module _ {N : Type 0} where
  unfoldable mutual
    pub nesting : Value N → ℕ
    nesting null = 0
    nesting (bool b) = 0
    nesting (number n) = 0
    nesting (string s) = 0
    nesting (array vs) = suc (nesting_items vs)
    nesting (object fs) = suc (nesting_fields fs)

    pub nesting_items : Items N → ℕ
    nesting_items nil = 0
    nesting_items (cons v vs) = max (nesting v) (nesting_items vs)

    pub nesting_fields : Fields N → ℕ
    nesting_fields end = 0
    nesting_fields (field k v fs) = max (nesting v) (nesting_fields fs)
