-- ===== src/Engine/Differ/Same.antt =====
-- What two trees that do not differ have in common, said without the differ: the relation `Same`,
-- for the comparison options and the position in the document.
use mathlib.Core.List.{Perm}
use apisnap.Common.{
  at_index, ℕ, zero, suc, ◌≡◌, ◌↔◌, String, Bool, true, Option, none, some, List, [], ◌∷◌, lookup,
  ◌<>◌,
}
use apisnap.Json.{
  Numbers, Value, null, bool, number, string, array, object, Items, Fields, items, entries,
}
use apisnap.Config.{ordered, set}
use apisnap.Engine.Differ.{DiffOptions, array_mode, numbers_match, normalized}

module _ (J : Numbers) (nfc : String → String) (options : DiffOptions J.F64) where
  open J use {Number}

  -- The value of an object's key, its keys in the form in which they are compared.
  abbrev pub member : Fields Number → String → Option (Value Number)
  member fs key = lookup key (normalized nfc options.normalize_unicode_keys (entries fs))

  mutual
    pub data Same : Value Number → Value Number → String → Type 0 where
      same_null : {path : String} → Same null null path
      same_bool : {b : Bool} {path : String} → Same (bool b) (bool b) path
      same_string : {s : String} {path : String} → Same (string s) (string s) path
      same_number :
          {m n : Number} {path : String}
          → numbers_match J options.float_epsilon m n ≡ true
          → Same (number m) (number n) path
      -- ordered arrays: as long as each other, and the same at every index
      same_array :
          {vs ws : Items Number} {path : String}
          → array_mode options path ≡ ordered
          → SamePairs zero (items vs) (items ws) path
          → Same (array vs) (array ws) path
      -- arrays as sets: the same in some order
      same_set :
          {vs ws : Items Number} {path : String} (matching : List (Value Number))
          → array_mode options path ≡ set
          → Perm matching (items ws)
          → SameAll (items vs) matching path
          → Same (array vs) (array ws) path
      -- objects: the same keys, and the same values at them, whatever the order of the keys
      same_object :
          {vs ws : Fields Number} {path : String}
          → ((key : String) → (member vs key ≡ none) ↔ (member ws key ≡ none))
          → ((key : String) (v w : Value Number)
              → member vs key ≡ some v
              → member ws key ≡ some w
              → Same v w (path <> "." <> key))
          → Same (object vs) (object ws) path

    pub data SamePairs : ℕ → List (Value Number) → List (Value Number) → String → Type 0 where
      pairs_nil : {i : ℕ} {path : String} → SamePairs i [] [] path
      pairs_cons :
          {i : ℕ} {v w : Value Number} {vs ws : List (Value Number)} {path : String}
          → Same v w (at_index path i)
          → SamePairs (suc i) vs ws path
          → SamePairs i (v ∷ vs) (w ∷ ws) path

    pub data SameAll : List (Value Number) → List (Value Number) → String → Type 0 where
      all_nil : {path : String} → SameAll [] [] path
      all_cons :
          {v w : Value Number} {vs ws : List (Value Number)} {path : String}
          → Same v w path
          → SameAll vs ws path
          → SameAll (v ∷ vs) (w ∷ ws) path
