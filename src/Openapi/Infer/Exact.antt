-- ===== src/Openapi/Infer/Exact.antt =====
-- An inferred schema accepts exactly the values of the form of the body that it was inferred from.
use apisnap.Common.{
  Bool, true, ◌&&◌, ◌≡◌, refl, sym, ap, ap₂, subst, ◌∙◌, inl, inr, String, Option, none, some, List,
  [], ◌∷◌, ◌++◌, Dict, Distinct, keys, lookup, insert, lookup-insert, str_eq, eq_iff, arith, map,
  Option-cases, Bool-cases,
}
use mathlib.Core.List.{append_assoc, append-nil}
use apisnap.Json.{
  entries-from_entries, items-from_list, Value, null, bool, number, string, array, object, Items,
  nil, cons, Fields, end, field, entries,
}
use apisnap.Openapi.Infer.{
  json, object_schema, array_schema, infer_schema_from_value, infer_items, infer_fields,
}
use apisnap.Openapi.Infer.Fits.{
  has_key, requires, accepts, accepts_items, accepts_fields, keys_in, all_of, in_array, in_object,
  fits, fits_items, fits_fields,
}
use apisnap.Openapi.Infer.Leaves.{accepts-leaf, accepts-infer_string_schema, accepts-number}
use apisnap.Openapi.Infer.Keywise.{fits_fields-field, fits_fields-end}

-- The keys of every object of the value are distinct.
module _ {N : Type 0} where
  unfoldable mutual
    pub Keyed : Value N → Type 0
    Keyed null = Unit
    Keyed (bool b) = Unit
    Keyed (number n) = Unit
    Keyed (string s) = Unit
    Keyed (array vs) = KeyedItems vs
    Keyed (object fs) = Distinct (entries fs) × KeyedFields fs

    pub KeyedItems : Items N → Type 0
    KeyedItems nil = Unit
    KeyedItems (cons v vs) = Keyed v × KeyedItems vs

    pub KeyedFields : Fields N → Type 0
    KeyedFields end = Unit
    KeyedFields (field k v fs) = Keyed v × KeyedFields fs

module _ {N : Type 0} (integral : N → Bool) (conforms : String → String → Bool)
    (is_int : N → Bool) where
  infer_props : Fields N → Dict (Value N) → Dict (Value N)
  infer_props end properties = properties
  infer_props (field k v fs) properties =
      infer_props fs (insert k (infer_schema_from_value is_int v) properties)

  infer_fields_lem :
      (fs : Fields N) (properties : Dict (Value N)) (required : List (Value N))
      → infer_fields is_int fs properties required
        ≡ object_schema (infer_props fs properties) (required ++ map string (keys (entries fs)))
  unfolding infer_schema_from_value infer_props
  infer_fields_lem end properties required =
      ap (object_schema properties) (sym (append-nil required))
  infer_fields_lem (field k v fs) properties required =
      infer_fields_lem fs (insert k (infer_schema_from_value is_int v) properties)
        (required ++ string k ∷ [])
      ∙ ap (object_schema (infer_props fs (insert k (infer_schema_from_value is_int v) properties)))
          (append_assoc required (string k ∷ []) (map string (keys (entries fs))))

  inferred : Option (Value N) → Option (Value N)
  inferred none = none
  inferred (some v) = some (infer_schema_from_value is_int v)

  lookup-infer_props :
      (j : String) (fs : Fields N) (properties : Dict (Value N))
      → Distinct (entries fs)
      → lookup j (infer_props fs properties) ≡ elim (lookup j (entries fs)) [
        | none ↦ lookup j properties
        | some v ↦ some (infer_schema_from_value is_int v)
      ]
  unfolding infer_props inferred
  lookup-infer_props j end properties h = refl
  lookup-infer_props j (field k v fs) properties (fresh, distinct) = ground (
    arith,
    lookup-infer_props j fs (insert k (infer_schema_from_value is_int v) properties) distinct,
    lookup-insert k j (infer_schema_from_value is_int v) properties,
    eq_iff k j,
    fresh,
  )

  accepts-empty : (w : Value N) → accepts integral conforms (object end) w ≡ true
  unfolding accepts
  accepts-empty w = accepts-leaf integral conforms is_int (object end) w refl refl refl refl

  lookup-infer_props_new :
      (j : String) (fs : Fields N)
      → Distinct (entries fs)
      → lookup j (infer_props fs []) ≡ inferred (lookup j (entries fs))
  unfolding inferred
  lookup-infer_props_new j fs distinct = ground (arith, lookup-infer_props j fs [] distinct)

  accepts_items-empty :
      (ws : Items N) → accepts_items integral conforms (some (object end)) ws ≡ true
  unfolding accepts
  accepts_items-empty nil = refl
  accepts_items-empty (cons w ws) = ground (arith, accepts-empty w, accepts_items-empty ws)

  requires-keys :
      (ks : List String) (m : Dict (Value N))
      → requires (map string ks) m ≡ keys_in integral conforms ks m
  requires-keys [] m = refl
  requires-keys (k ∷ ks) m = ap (λ b. has_key m k && b) (requires-keys ks m)

  accepts_items-all_of :
      (schema : Value N) (test : Value N → Bool) (ws : Items N)
      → ((x : Value N) → Keyed x → accepts integral conforms schema x ≡ test x)
      → KeyedItems ws
      → accepts_items integral conforms (some schema) ws ≡ all_of integral conforms test ws
  unfolding accepts Keyed
  accepts_items-all_of schema test nil h k = refl
  accepts_items-all_of schema test (cons w ws) h (kw, k) =
      ground (arith, h w kw, accepts_items-all_of schema test ws h k)

  accepts-array_schema :
      (item w : Value N) (test : Items N → Bool)
      → ((ws : Items N) → KeyedItems ws → accepts_items integral conforms (some item) ws ≡ test ws)
      → Keyed w
      → accepts integral conforms (array_schema item) w ≡ in_array integral conforms test w
  unfolding accepts Keyed
  accepts-array_schema item (array ws) test h k = h ws k
  accepts-array_schema item _ test h k = refl

  accepts-object_schema :
      (properties : Dict (Value N)) (required : List (Value N)) (w : Value N)
      (test : Fields N → Bool)
      → ((gs : Fields N)
          → Keyed (object gs)
          → (requires required (entries gs)
              && accepts_fields integral conforms (some (json properties)) gs)
            ≡ test gs)
      → Keyed w
      → accepts integral conforms (object_schema properties required) w
        ≡ in_object integral conforms test w
  unfolding accepts
  accepts-object_schema properties required (object gs) test h k =
      rw (items-from_list required) (h gs k)
  accepts-object_schema properties required _ test h k = refl

  accepts_fields-fits :
      (fs : Fields N) (properties : Dict (Value N)) (gs : Fields N)
      → ((k : String) → lookup k properties ≡ inferred (lookup k (entries fs)))
      → ((k : String) (v x : Value N)
          → lookup k (entries fs) ≡ some v
          → Keyed x
          → accepts integral conforms (infer_schema_from_value is_int v) x
            ≡ fits integral conforms is_int v x)
      → Distinct (entries fs)
      → Keyed (object gs)
      → accepts_fields integral conforms (some (json properties)) gs
        ≡ fits_fields integral conforms is_int fs gs
  unfolding accepts Keyed inferred
  accepts_fields-fits fs properties end same h d k =
      sym (fits_fields-end integral conforms is_int fs)
  accepts_fields-fits fs properties (field j w gs) same h d ((fresh, distinct), (kw, kgs)) =
      rw (entries-from_entries properties) (elim (Option-cases (lookup j (entries fs))) [
        | inl missing ↦ ground (
          arith,
          missing,
          same j,
          fits_fields-field integral conforms is_int j w fs gs d fresh,
          accepts_fields-fits fs properties gs same h d (distinct, kgs),
        )
        | inr (v, e) ↦ ground (
          arith,
          e,
          same j,
          h j v w e kw,
          fits_fields-field integral conforms is_int j w fs gs d fresh,
          accepts_fields-fits fs properties gs same h d (distinct, kgs),
        )
      ])

  mutual
    unfolding infer_schema_from_value fits Keyed inferred

    accepts-infer_value :
        (v w : Value N)
        → Keyed v
        → Keyed w
        → accepts integral conforms (infer_schema_from_value is_int v) w
          ≡ fits integral conforms is_int v w
    accepts-infer_value null w kv kw =
        accepts-leaf integral conforms is_int (json (("type", string "null") ∷ [])) w refl refl refl
          refl
    accepts-infer_value (bool b) w kv kw =
        accepts-leaf integral conforms is_int (json (("type", string "boolean") ∷ [])) w refl refl
          refl refl
    accepts-infer_value (number n) w kv kw = accepts-number integral conforms is_int n w
    accepts-infer_value (string s) w kv kw =
        accepts-infer_string_schema integral conforms is_int s w
    accepts-infer_value (array vs) w kv kw =
        accepts-array_schema (infer_items is_int vs) w (fits_items integral conforms is_int vs)
          (λ ws k. accepts-infer_items vs ws kv k) kw
    accepts-infer_value (object fs) w (distinct, kv) kw =
        ap (λ schema. accepts integral conforms schema w) (infer_fields_lem fs [] [])
        ∙ accepts-object_schema (infer_props fs []) (map string (keys (entries fs))) w
            (λ gs.
              keys_in integral conforms (keys (entries fs)) (entries gs)
              && fits_fields integral conforms is_int fs gs)
            (λ gs k.
              ap₂ (λ a b. a && b) (requires-keys (keys (entries fs)) (entries gs))
                (accepts_fields-fits fs (infer_props fs []) gs
                  (λ j. lookup-infer_props_new j fs distinct) (accepts-infer_at fs kv) distinct k))
            kw

    accepts-infer_items :
        (vs ws : Items N)
        → KeyedItems vs
        → KeyedItems ws
        → accepts_items integral conforms (some (infer_items is_int vs)) ws
          ≡ fits_items integral conforms is_int vs ws
    accepts-infer_items nil ws kv kw = accepts_items-empty ws
    accepts-infer_items (cons v vs) ws (kv, _) kw =
        accepts_items-all_of (infer_schema_from_value is_int v)
          (λ w. fits integral conforms is_int v w) ws (λ x kx. accepts-infer_value v x kv kx) kw

    accepts-infer_at :
        (fs : Fields N)
        → KeyedFields fs
        → (k : String) (v x : Value N) → lookup k (entries fs) ≡ some v
        → Keyed x
        → accepts integral conforms (infer_schema_from_value is_int v) x
          ≡ fits integral conforms is_int v x
    accepts-infer_at end kf k v x h kx = cc
    accepts-infer_at (field j u fs) (ku, kf) k v x h kx = elim (Bool-cases (str_eq j k)) [
      | inl same ↦
          let is : u ≡ v = ground (arith, same, h) in
          subst
            (λ y.
              accepts integral conforms (infer_schema_from_value is_int y) x
              ≡ fits integral conforms is_int y x)
            is (accepts-infer_value u x ku kx)
      | inr other ↦ accepts-infer_at fs kf k v x (ground (arith, other, h)) kx
    ]

  -- The schema that is inferred from a body accepts exactly the values that have the form of the
  -- body: an object needs all its keys, with values of the forms of its values; each item of an
  -- array needs the form of the first one of the body's array; where the body has a masked epoch,
  -- an integer; and where it has the placeholder of a UUID, a timestamp, an email, a JWT, an object
  -- id, a card or a social security number, a text that the validator takes for that format. The
  -- keys of every object are distinct, in the body and in the value.
  pub accepts-infer_schema_from_value :
      (v w : Value N)
      → Keyed v
      → Keyed w
      → accepts integral conforms (infer_schema_from_value is_int v) w
        ≡ fits integral conforms is_int v w
  accepts-infer_schema_from_value v w kv kw = accepts-infer_value v w kv kw
