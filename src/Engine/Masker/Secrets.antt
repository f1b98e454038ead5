-- ===== src/Engine/Masker/Secrets.antt =====
-- src/engine/masker.rs: `scan_unmasked_secrets`, the search for credentials before a snapshot is
-- written, and which texts it refuses.
use apisnap.Common.{
  ℕ, zero, suc, ◌≡◌, refl, subst, sym, ap, arith, ◌↔◌, ◌⊎◌, inl, inr, Bool-cases, Result-cases,
  String, true, false, List, [], ◌∷◌, ◌++◌, ◌<>◌, at_index, Result, ok, err, ◌>>=◌, In,
  if◌then◌else◌,
}
use apisnap.Json.{
  Value, null, bool, number, string, array, object, Items, nil, cons, Fields, end, field,
}
use apisnap.Engine.Masker.{Patterns, is_masked_token}

module _ {N : Type 0} (R : Patterns N) where
  -- The case of a string. The error is the text that is returned.
  unfoldable pub scan_string : String → String → Result String (Unit {0})
  unfolding is_masked_token
  scan_string s path =
      if is_masked_token s
      then ok tt
      else if R.is_aws_key s
      then err ("Unmasked AWS Access Key detected at '" <> path <> "'")
      else if R.has_private_key_header s
      then err ("Unmasked RSA/EC Private Key block detected at '" <> path <> "'")
      else ok tt

  unfoldable mutual
    pub scan_recursive : Value N → String → Result String (Unit {0})
    scan_recursive null path = ok tt
    scan_recursive (bool b) path = ok tt
    scan_recursive (number n) path = ok tt
    scan_recursive (string s) path = scan_string s path
    scan_recursive (array vs) path = scan_items vs zero path
    scan_recursive (object fs) path = scan_fields fs path

    pub scan_items : Items N → ℕ → String → Result String (Unit {0})
    scan_items nil idx path = ok tt
    scan_items (cons v vs) idx path =
        scan_recursive v (at_index path idx) >>= λ _. scan_items vs (suc idx) path

    pub scan_fields : Fields N → String → Result String (Unit {0})
    scan_fields end path = ok tt
    scan_fields (field k v fs) path =
        scan_recursive v (path <> "." <> k) >>= λ _. scan_fields fs path

  unfoldable pub scan_unmasked_secrets : Value N → Result String (Unit {0})
  unfolding scan_recursive scan_string
  scan_unmasked_secrets val = scan_recursive val "$"

module _ {N : Type 0} where
  -- All strings of a tree with their paths, in the order of the document.
  unfoldable mutual
    pub strings_of : Value N → String → List (String × String)
    strings_of null path = []
    strings_of (bool b) path = []
    strings_of (number n) path = []
    strings_of (string s) path = (s, path) ∷ []
    strings_of (array vs) path = strings_of_items vs zero path
    strings_of (object fs) path = strings_of_fields fs path

    pub strings_of_items : Items N → ℕ → String → List (String × String)
    strings_of_items nil idx path = []
    strings_of_items (cons v vs) idx path =
        strings_of v (at_index path idx) ++ strings_of_items vs (suc idx) path

    pub strings_of_fields : Fields N → String → List (String × String)
    strings_of_fields end path = []
    strings_of_fields (field k v fs) path =
        strings_of v (path <> "." <> k) ++ strings_of_fields fs path

module _ {N : Type 0} (R : Patterns N) where
  -- The first error in a list of strings.
  abbrev pub first_error : List (String × String) → Result String (Unit {0})
  first_error [] = ok tt
  first_error ((s, path) ∷ rest) = scan_string R s path >>= λ _. first_error rest

  first_error-append :
      (xs ys : List (String × String))
      → first_error (xs ++ ys) ≡ (first_error xs >>= λ _. first_error ys)
  first_error-append [] ys = refl
  first_error-append ((s, path) ∷ xs) ys = elim (Result-cases (scan_string R s path)) [
    | inl (_, e) ↦ rw e (first_error-append xs ys)
    | inr (_, e) ↦ rw e
  ]

  last_step : (r : Result String (Unit {0})) → r ≡ (r >>= λ _. ok tt)
  last_step (ok x) = refl
  last_step (err e) = refl

  mutual
    unfolding scan_recursive strings_of

    scan_recursive-first_error :
        (v : Value N) (path : String) → scan_recursive R v path ≡ first_error (strings_of v path)
    scan_recursive-first_error null path = refl
    scan_recursive-first_error (bool b) path = refl
    scan_recursive-first_error (number n) path = refl
    scan_recursive-first_error (string s) path = last_step (scan_string R s path)
    scan_recursive-first_error (array vs) path = scan_items-first_error vs zero path
    scan_recursive-first_error (object fs) path = scan_fields-first_error fs path

    scan_items-first_error :
        (vs : Items N) (idx : ℕ) (path : String)
        → scan_items R vs idx path ≡ first_error (strings_of_items vs idx path)
    scan_items-first_error nil idx path = refl
    scan_items-first_error (cons v vs) idx path =
        rw
          (
            scan_recursive-first_error v (at_index path idx),
            scan_items-first_error vs (suc idx) path,
          )
          (sym (
            first_error-append (strings_of v (at_index path idx))
              (strings_of_items vs (suc idx) path)))

    scan_fields-first_error :
        (fs : Fields N) (path : String)
        → scan_fields R fs path ≡ first_error (strings_of_fields fs path)
    scan_fields-first_error end path = refl
    scan_fields-first_error (field k v fs) path =
        rw (scan_recursive-first_error v (path <> "." <> k), scan_fields-first_error fs path)
          (sym (first_error-append (strings_of v (path <> "." <> k)) (strings_of_fields fs path)))

  -- A masked token, or a text that is neither an access key nor has the header of a private key.
  abbrev pub IsClean : String → Type 0
  IsClean s =
      (is_masked_token s ≡ true) ⊎ ((R.is_aws_key s ≡ false) × (R.has_private_key_header s ≡ false))

  scan_string-IsClean : (s path : String) → (scan_string R s path ≡ ok tt) ↔ IsClean s
  unfolding scan_string
  scan_string-IsClean s path = (λ h. clean_of h, λ clean. ground (arith, clean))
    where
      clean_of : scan_string R s path ≡ ok tt → IsClean s
      clean_of h = elim (Bool-cases (is_masked_token s)) [
        | inl token ↦ inl token
        | inr plain ↦ inr (ground (arith, h, plain), ground (arith, h, plain))
      ]

  first_error-IsClean :
      (xs : List (String × String))
      → (first_error xs ≡ ok tt) ↔ ((s path : String) → In (s, path) xs → IsClean s)
  first_error-IsClean [] = (λ h s path here. absurd here, λ h. refl)
  first_error-IsClean ((s, path) ∷ xs) = (
    λ h r p here. elim (Result-cases (scan_string R s path)) [
      | inr (_, e) ↦ absurd (ground (arith, e, h))
      | inl (_, e) ↦ elim here [
        | inl first ↦
            subst IsClean (sym (ap (λ (x : String × String). x.0) first))
              ((scan_string-IsClean s path).0 e)
        | inr later ↦ (first_error-IsClean xs).0 (ground (arith, e, h)) r p later
      ]
    ],
    λ h.
        rw ((scan_string-IsClean s path).1 (h s path (inl refl)))
          ((first_error-IsClean xs).1 (λ r p here. h r p (inr here))),
  )

  -- The scan lets a tree pass exactly when each of its strings, however deep, is a masked token or
  -- neither an access key nor a text with the header of a private key.
  pub scan_unmasked_secrets_iff :
      (v : Value N)
      → (scan_unmasked_secrets R v ≡ ok tt)
        ↔ ((s path : String) → In (s, path) (strings_of v "$") → IsClean s)
  unfolding scan_unmasked_secrets
  scan_unmasked_secrets_iff v =
      rw (scan_recursive-first_error v "$") (first_error-IsClean (strings_of v "$"))
