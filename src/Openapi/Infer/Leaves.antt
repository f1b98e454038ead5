-- ===== src/Openapi/Infer/Leaves.antt =====
-- A schema with a type only: those of null, a boolean, a number and a string.
use apisnap.Common.{
  Bool, true, ◌&&◌, Option, ◌≡◌, refl, sym, ap, subst, ◌∙◌, inl, inr, String, none, some, [], ◌∷◌,
  str_eq, eq_iff, arith, Bool-cases, if◌then◌else◌,
}
use apisnap.Json.{Value, null, bool, number, string, array, object}
use apisnap.Engine.Masker.{masked_epoch}
use apisnap.Openapi.Infer.{json, infer_string_schema, infer_schema_from_value}
use apisnap.Openapi.Infer.Fits.{
  get, type_matches, type_name_matches, format_matches, format_of, text_of, accepts, fits,
}

module _ {N : Type 0} (integral : N → Bool) (conforms : String → String → Bool)
    (is_int : N → Bool) where
  -- The format, which is of a text only.
  abbrev format_fits : Option (Value N) → Value N → Bool
  format_fits o (string t) = format_matches integral conforms o t
  format_fits o _ = true

  -- A schema without the keywords of arrays and objects.
  accepts-format :
      (schema w : Value N)
      → get "items" schema ≡ none
      → get "properties" schema ≡ none
      → get "required" schema ≡ none
      → accepts integral conforms schema w ≡ (
          type_matches integral conforms (get "type" schema) w
          && format_fits (get "format" schema) w)
  unfolding accepts
  accepts-format schema null hi hp hr = ground arith
  accepts-format schema (bool b) hi hp hr = ground arith
  accepts-format schema (number n) hi hp hr = ground arith
  accepts-format schema (string s) hi hp hr = refl
  accepts-format schema (array vs) hi hp hr = ground (arith, hi)
  accepts-format schema (object fs) hi hp hr = ground (arith, hp, hr)

  no_format : (o : Option (Value N)) (w : Value N) → o ≡ none → format_fits o w ≡ true
  no_format o null h = refl
  no_format o (bool b) h = refl
  no_format o (number n) h = refl
  no_format o (string s) h = ap (λ x. format_matches integral conforms x s) h
  no_format o (array vs) h = refl
  no_format o (object fs) h = refl

  -- A schema with a type only.
  pub accepts-leaf :
      (schema w : Value N)
      → get "items" schema ≡ none
      → get "properties" schema ≡ none
      → get "required" schema ≡ none
      → get "format" schema ≡ none
      → accepts integral conforms schema w ≡ type_matches integral conforms (get "type" schema) w
  accepts-leaf schema w hi hp hr hf =
      accepts-format schema w hi hp hr
      ∙ ap (λ b. type_matches integral conforms (get "type" schema) w && b)
          (no_format (get "format" schema) w hf)
      ∙ and_true (type_matches integral conforms (get "type" schema) w)
    where
      and_true : (b : Bool) → (b && true) ≡ b
      and_true b = ground arith

  type-infer_string_schema :
      (s : String)
      → get {N = N} "type" (infer_string_schema s)
        ≡ some (string (if str_eq s masked_epoch then "integer" else "string"))
  unfolding infer_string_schema
  type-infer_string_schema s = elim (Bool-cases (str_eq s masked_epoch)) [
    | inl epoch ↦
        subst
          (λ t.
            get {N = N} "type" (infer_string_schema t)
            ≡ some (string (if str_eq t masked_epoch then "integer" else "string")))
          (sym ((eq_iff s masked_epoch).0 epoch)) refl
    | inr other ↦ ground (arith, other)
  ]

  others-infer_string_schema :
      (s : String)
      → (get {N = N} "items" (infer_string_schema s) ≡ none)
        × (get {N = N} "properties" (infer_string_schema s) ≡ none)
        × (get {N = N} "required" (infer_string_schema s) ≡ none)
  unfolding infer_string_schema
  others-infer_string_schema s = (ground arith, ground arith, ground arith)

  abbrev as_text : Option String → Option (Value N)
  as_text none = none
  as_text (some f) = some (string f)

  format-infer_string_schema :
      (s : String) → get {N = N} "format" (infer_string_schema s) ≡ as_text (format_of s)
  unfolding infer_string_schema format_of
  format-infer_string_schema s = ground arith

  string_fits :
      (o : Option String) (w : Value N)
      → (type_name_matches integral conforms "string" w && format_fits (as_text o) w)
        ≡ text_of integral conforms o w
  string_fits none null = refl
  string_fits none (bool b) = refl
  string_fits none (number n) = refl
  string_fits none (string t) = refl
  string_fits none (array vs) = refl
  string_fits none (object fs) = refl
  string_fits (some f) null = refl
  string_fits (some f) (bool b) = refl
  string_fits (some f) (number n) = refl
  string_fits (some f) (string t) = refl
  string_fits (some f) (array vs) = refl
  string_fits (some f) (object fs) = refl

  integer_fits :
      (o : Option (Value N)) (w : Value N)
      → (type_name_matches integral conforms "integer" w && format_fits o w)
        ≡ type_name_matches integral conforms "integer" w
  integer_fits o null = refl
  integer_fits o (bool b) = refl
  integer_fits o (number n) = ground arith
  integer_fits o (string t) = refl
  integer_fits o (array vs) = refl
  integer_fits o (object fs) = refl

  pub accepts-infer_string_schema :
      (s : String) (w : Value N)
      → accepts integral conforms (infer_string_schema s) w
        ≡ fits integral conforms is_int (string s) w
  unfolding fits
  accepts-infer_string_schema s w =
      let (hi, hp, hr) = others-infer_string_schema s in
      accepts-format (infer_string_schema s) w hi hp hr
      ∙ ap
          (λ t.
            type_matches integral conforms t w
            && format_fits (get "format" (infer_string_schema s)) w)
          (type-infer_string_schema s)
      ∙ elim (Bool-cases (str_eq s masked_epoch)) [
        | inl epoch ↦ rw epoch (integer_fits (get "format" (infer_string_schema s)) w)
        | inr other ↦ rw other (
            ap (λ o. type_name_matches integral conforms "string" w && format_fits o w)
              (format-infer_string_schema s)
            ∙ string_fits (format_of s) w)
      ]

  pub accepts-number :
      (n : N) (w : Value N)
      → accepts integral conforms (infer_schema_from_value is_int (number n)) w
        ≡ fits integral conforms is_int (number n) w
  unfolding infer_schema_from_value fits
  accepts-number n w = elim (Bool-cases (is_int n)) [
    | inl whole ↦
        rw whole (accepts-leaf (json (("type", string "integer") ∷ [])) w refl refl refl refl)
    | inr other ↦
        rw other (accepts-leaf (json (("type", string "number") ∷ [])) w refl refl refl refl)
  ]
