-- ===== src/Openapi/Infer/Keywise.antt =====
-- The check of an object's fields, field by field of either object.
use apisnap.Common.{
  Bool, true, ◌&&◌, ◌≡◌, refl, String, Option, none, some, Distinct, lookup, eq_iff, arith,
}
use apisnap.Json.{Value, Fields, end, field, entries}
use apisnap.Openapi.Infer.Fits.{fits, fits_fields}

module _ {N : Type 0} (integral : N → Bool) (conforms : String → String → Bool)
    (is_int : N → Bool) where
  -- What the values at the keys that two objects share have to do with each other.
  abbrev pub agrees : Option (Value N) → Value N → Bool
  agrees o w = elim o [ none ↦ true | some v ↦ fits integral conforms is_int v w ]

  fits_fields-fresh :
      (k : String) (w : Value N) (fs gs : Fields N)
      → lookup k (entries fs) ≡ none
      → fits_fields integral conforms is_int fs (field k w gs)
        ≡ fits_fields integral conforms is_int fs gs
  unfolding fits
  fits_fields-fresh k w end gs h = refl
  fits_fields-fresh k w (field j v fs) gs h =
      ground (arith, h, eq_iff k j, eq_iff j k, fits_fields-fresh k w fs gs (ground (arith, h)))

  -- The check key by key of the second object is the one key by key of the first.
  pub fits_fields-field :
      (k : String) (w : Value N) (fs gs : Fields N)
      → Distinct (entries fs)
      → lookup k (entries gs) ≡ none
      → fits_fields integral conforms is_int fs (field k w gs)
        ≡ (agrees (lookup k (entries fs)) w && fits_fields integral conforms is_int fs gs)
  unfolding fits
  fits_fields-field k w end gs d h = refl
  fits_fields-field k w (field j v fs) gs (fresh, distinct) h = ground (
    arith,
    fresh,
    h,
    eq_iff j k,
    eq_iff k j,
    fits_fields-fresh k w fs gs,
    fits_fields-field k w fs gs distinct h,
  )

  pub fits_fields-end : (fs : Fields N) → fits_fields integral conforms is_int fs end ≡ true
  unfolding fits
  fits_fields-end end = refl
  fits_fields-end (field k v fs) = fits_fields-end fs
