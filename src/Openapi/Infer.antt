-- ===== src/Openapi/Infer.antt =====
-- src/openapi/schema_infer.rs: the schema of a masked body, itself a JSON value.
pub mod Fits
pub mod Leaves
pub mod Keywise
pub mod Exact
use apisnap.Common.{
  ℕ, ◌≡◌, refl, Bool, true, false, String, List, [], ◌∷◌, ◌++◌, Dict, insert, str_eq, if◌then◌else◌,
}
use apisnap.Json.{
  Value, null, bool, number, string, array, object, Items, nil, cons, Fields, end, field,
  from_entries, from_list,
}
use apisnap.Engine.Masker.{
  masked_uuid, masked_timestamp, masked_email, masked_jwt, masked_object_id, masked_credit_card,
  masked_ssn, masked_epoch, redacted,
}

module _ {N : Type 0} where
  -- `json!({..})`, with its values
  abbrev pub json : Dict (Value N) → Value N
  json m = object (from_entries m)

  unfoldable pub infer_string_schema : String → Value N
  infer_string_schema s =
      if str_eq s masked_uuid
      then json (
          ("type", string "string")
          ∷ ("format", string "uuid")
          ∷ ("example", string "550e8400-e29b-41d4-a716-446655440000")
          ∷ [])
      else if str_eq s masked_timestamp
      then json (
          ("type", string "string")
          ∷ ("format", string "date-time")
          ∷ ("example", string "2026-08-30T00:00:00Z")
          ∷ [])
      else if str_eq s masked_email
      then json (
          ("type", string "string")
          ∷ ("format", string "email")
          ∷ ("example", string "user@example.com")
          ∷ [])
      else if str_eq s masked_jwt
      then json (
          ("type", string "string")
          ∷ ("format", string "jwt")
          ∷ ("description", string "JWT Bearer Token")
          ∷ [])
      else if str_eq s masked_object_id
      then json (
          ("type", string "string")
          ∷ ("format", string "objectid")
          ∷ ("example", string "507f1f77bcf86cd799439011")
          ∷ [])
      else if str_eq s masked_credit_card
      then json (("type", string "string") ∷ ("format", string "credit-card") ∷ [])
      else if str_eq s masked_ssn
      then json (("type", string "string") ∷ ("format", string "ssn") ∷ [])
      else if str_eq s masked_epoch
      then json (("type", string "integer") ∷ ("description", string "Unix epoch timestamp") ∷ [])
      else if str_eq s redacted
      then json
          (("type", string "string") ∷ ("description", string "Redacted sensitive field") ∷ [])
      else json (("type", string "string") ∷ ("example", string s) ∷ [])

  -- `{ "type": "object", "properties": .., "required": .. }`
  abbrev pub object_schema : Dict (Value N) → List (Value N) → Value N
  object_schema properties required = json (
      ("type", string "object")
      ∷ ("properties", json properties)
      ∷ ("required", array (from_list required))
      ∷ [])

  abbrev pub array_schema : Value N → Value N
  array_schema item_schema = json (("type", string "array") ∷ ("items", item_schema) ∷ [])

  -- `is_i64() || is_u64()` is the argument `is_int`.
  module _ (is_int : N → Bool) where
    unfoldable mutual
      pub infer_schema_from_value : Value N → Value N
      infer_schema_from_value null = json (("type", string "null") ∷ [])
      infer_schema_from_value (bool b) = json (("type", string "boolean") ∷ [])
      infer_schema_from_value (number num) =
          if is_int num
          then json (("type", string "integer") ∷ [])
          else json (("type", string "number") ∷ [])
      infer_schema_from_value (string s) = infer_string_schema s
      infer_schema_from_value (array arr) = array_schema (infer_items arr)
      infer_schema_from_value (object map) = infer_fields map [] []

      -- The first item's; `{}` where there is none.
      pub infer_items : Items N → Value N
      infer_items nil = object end
      infer_items (cons item arr) = infer_schema_from_value item

      -- The loop, with `properties` and `required`.
      pub infer_fields : Fields N → Dict (Value N) → List (Value N) → Value N
      infer_fields end properties required = object_schema properties required
      infer_fields (field k v map) properties required =
          infer_fields map (insert k (infer_schema_from_value v) properties)
            (required ++ string k ∷ [])
