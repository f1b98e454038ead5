-- ===== src/Openapi/Infer/Fits.antt =====
-- What a schema means, by the keywords that an inferred schema has: `type`, `items`, `properties` and
-- `required`, and by `format`, of which `conforms` says what the validator takes; the others, `example`
-- and `description`, are annotations. And what the inference promises, without schemas: the values
-- that have the form of a given one.
use apisnap.Common.{
  Bool, true, false, ◌&&◌, String, Option, none, some, List, [], ◌∷◌, Dict, keys, lookup, str_eq,
  if◌then◌else◌,
}
use apisnap.Json.{
  Value, null, bool, number, string, array, object, Items, nil, cons, Fields, end, field, entries,
  items,
}
use apisnap.Engine.Masker.{
  masked_uuid, masked_timestamp, masked_email, masked_jwt, masked_object_id, masked_credit_card,
  masked_ssn, masked_epoch,
}

-- The format that a placeholder stands for.
unfoldable pub format_of : String → Option String
format_of s =
    if str_eq s masked_uuid
    then some "uuid"
    else if str_eq s masked_timestamp
    then some "date-time"
    else if str_eq s masked_email
    then some "email"
    else if str_eq s masked_jwt
    then some "jwt"
    else if str_eq s masked_object_id
    then some "objectid"
    else if str_eq s masked_credit_card
    then some "credit-card"
    else if str_eq s masked_ssn
    then some "ssn"
    else none

module _ {N : Type 0} where
  abbrev pub has_key : Dict (Value N) → String → Bool
  has_key m k = elim (lookup k m) [ none ↦ false | some v ↦ true ]

  abbrev pub get : String → Value N → Option (Value N)
  get k (object fs) = lookup k (entries fs)
  get k _ = none

  -- Every text of the list is a key of the object.
  abbrev pub requires : List (Value N) → Dict (Value N) → Bool
  requires [] m = true
  requires (string k ∷ ks) m = has_key m k && requires ks m
  requires (_ ∷ ks) m = requires ks m

  abbrev pub required_of : Value N → List (Value N)
  required_of schema = elim (get "required" schema) [
    | none ↦ []
    | some v ↦ elim v [
      | null ↦ []
      | bool b ↦ []
      | number n ↦ []
      | string s ↦ []
      | array ks ↦ items ks
      | object fs ↦ []
    ]
  ]

  -- `integral` is what the validator takes for an integer, and `conforms` which texts it takes for a
  -- format: all of them where it does not assert this format.
  module _ (integral : N → Bool) (conforms : String → String → Bool) where
    abbrev pub type_name_matches : String → Value N → Bool
    type_name_matches t null = str_eq t "null"
    type_name_matches t (bool b) = str_eq t "boolean"
    type_name_matches t (number n) = if str_eq t "integer" then integral n else str_eq t "number"
    type_name_matches t (string s) = str_eq t "string"
    type_name_matches t (array vs) = str_eq t "array"
    type_name_matches t (object fs) = str_eq t "object"

    abbrev pub type_matches : Option (Value N) → Value N → Bool
    type_matches none w = true
    type_matches (some (string t)) w = type_name_matches t w
    type_matches (some _) w = false

    abbrev pub format_matches : Option (Value N) → String → Bool
    format_matches (some (string f)) s = conforms f s
    format_matches _ s = true

    unfoldable mutual
      pub accepts : Value N → Value N → Bool
      accepts schema null = type_matches (get "type" schema) null
      accepts schema (bool b) = type_matches (get "type" schema) (bool b)
      accepts schema (number n) = type_matches (get "type" schema) (number n)
      accepts schema (string s) =
          type_matches (get "type" schema) (string s) && format_matches (get "format" schema) s
      accepts schema (array vs) =
          type_matches (get "type" schema) (array vs) && accepts_items (get "items" schema) vs
      accepts schema (object fs) =
          type_matches (get "type" schema) (object fs)
          && (requires (required_of schema) (entries fs)
              && accepts_fields (get "properties" schema) fs)

      pub accepts_items : Option (Value N) → Items N → Bool
      accepts_items none vs = true
      accepts_items (some schema) nil = true
      accepts_items (some schema) (cons v vs) = accepts schema v && accepts_items (some schema) vs

      pub accepts_fields : Option (Value N) → Fields N → Bool
      accepts_fields none fs = true
      accepts_fields (some properties) end = true
      accepts_fields (some properties) (field k v fs) =
          elim (get k properties) [ none ↦ true | some schema ↦ accepts schema v ]
          && accepts_fields (some properties) fs

    -- All keys of the first are keys of the second.
    abbrev pub keys_in : List String → Dict (Value N) → Bool
    keys_in [] m = true
    keys_in (k ∷ ks) m = has_key m k && keys_in ks m

    abbrev pub all_of : (Value N → Bool) → Items N → Bool
    all_of test nil = true
    all_of test (cons w ws) = test w && all_of test ws

    abbrev pub in_array : (Items N → Bool) → Value N → Bool
    in_array test (array ws) = test ws
    in_array test _ = false

    abbrev pub in_object : (Fields N → Bool) → Value N → Bool
    in_object test (object gs) = test gs
    in_object test _ = false

    -- A text, of the format if there is one.
    abbrev pub text_of : Option String → Value N → Bool
    text_of none (string t) = true
    text_of (some f) (string t) = conforms f t
    text_of o _ = false

    -- `w` has the form of `v`: the same kind, where a masked epoch stands for an integer, and where
    -- another placeholder stands for a text of its format; an object
    -- with all keys of `v`, and forms of its values there; an array of items with the form of the
    -- first item of `v`.
    module _ (is_int : N → Bool) where
      unfoldable mutual
        pub fits : Value N → Value N → Bool
        fits null w = type_name_matches "null" w
        fits (bool b) w = type_name_matches "boolean" w
        fits (number n) w =
            if is_int n then type_name_matches "integer" w else type_name_matches "number" w
        fits (string s) w =
            if str_eq s masked_epoch then type_name_matches "integer" w else text_of (format_of s) w
        fits (array vs) w = in_array (λ ws. fits_items vs ws) w
        fits (object fs) w =
            in_object (λ gs. keys_in (keys (entries fs)) (entries gs) && fits_fields fs gs) w

        pub fits_items : Items N → Items N → Bool
        fits_items nil ws = true
        fits_items (cons v vs) ws = all_of (λ w. fits v w) ws

        pub fits_fields : Fields N → Fields N → Bool
        fits_fields end gs = true
        fits_fields (field k v fs) gs =
            elim (lookup k (entries gs)) [ none ↦ true | some w ↦ fits v w ] && fits_fields fs gs
