-- ===== src/Wasm/ShadowFilter.antt =====
-- src/wasm/shadow_filter.rs: the bodies of the two clusters are gathered chunk by chunk, and their
-- structures compared. The crate `simd_json` parses; its trees have the constructors of `Value`.
pub mod Shape
pub mod Stream
use apisnap.Common.{
  ℕ, String, Bool, true, false, ◌&&◌, ◌||◌, not, Option, none, some, List, [], ◌∷◌, ◌++◌, Dict,
  lookup, length, Result, ok, err, ◌==◌, is_empty, str_eq, if◌then◌else◌,
}
use apisnap.Json.{
  Value, null, bool, number, string, array, object, Items, nil, cons, Fields, end, field, items,
  entries,
}

pub record ShadowSession : Type 0 where
  pub context_id : ℕ
  pub baseline_body : List ℕ
  pub candidate_body : List ℕ
  pub streaming_complete : Bool

abbrev pub new_session : ℕ → ShadowSession
new_session context_id = record {
  context_id = context_id;
  baseline_body = [];
  candidate_body = [];
  streaming_complete = false;
}

unfoldable pub on_body_chunk : String → List ℕ → Bool → ShadowSession → ShadowSession
on_body_chunk role chunk end_of_stream s =
    let received : ShadowSession =
      if str_eq role "candidate"
      then record s { candidate_body = s.candidate_body ++ chunk }
      else record s { baseline_body = s.baseline_body ++ chunk } in
    if end_of_stream then record received { streaming_complete = true } else received

-- The two texts of `check_structural_drift`'s errors, without the parser's own message.
pub data DriftError : Type 0 where
  baseline_json candidate_json : DriftError

-- `b.get(k)` is there for every key of `a`.
abbrev pub has_keys : {V W : Type 0} → Dict V → Dict W → Bool
has_keys [] b = true
has_keys ((k, v) ∷ a) b = elim (lookup k b) [ none ↦ false | some w ↦ has_keys a b ]

-- `ak == bk` on the sets of keys
abbrev pub same_keys : {V W : Type 0} → Dict V → Dict W → Bool
same_keys a b = has_keys a b && has_keys b a

module _ {N : Type 0} where
  unfoldable mutual
    pub structurally_drifted : Value N → Value N → Bool
    structurally_drifted (object ao) (object bo) =
        if same_keys (entries ao) (entries bo) then any_drifted ao (entries bo) else true
    structurally_drifted (object ao) _ = true
    structurally_drifted _ (object bo) = true
    structurally_drifted (array aa) (array ba) =
        not (length (items aa) == length (items ba)) || any_item_drifted aa (items ba)
    structurally_drifted (array aa) _ = true
    structurally_drifted _ (array ba) = true
    structurally_drifted _ _ = false

    -- `ao.iter().any(..)`
    pub any_drifted : Fields N → Dict (Value N) → Bool
    any_drifted end bo = false
    any_drifted (field k av ao) bo = elim (lookup k bo) [
      | none ↦ true
      | some bv ↦ structurally_drifted av bv || any_drifted ao bo
    ]

    -- `aa.iter().zip(ba.iter()).any(..)`
    pub any_item_drifted : Items N → List (Value N) → Bool
    any_item_drifted nil bs = false
    any_item_drifted (cons x aa) [] = false
    any_item_drifted (cons x aa) (y ∷ bs) = structurally_drifted x y || any_item_drifted aa bs

  -- `parse` is `simd_json::to_borrowed_value`; `none` is its error.
  module _ (parse : List ℕ → Option (Value N)) where
    unfoldable pub check_structural_drift : ShadowSession → Result DriftError Bool
    unfolding structurally_drifted
    check_structural_drift s =
        if is_empty s.baseline_body || is_empty s.candidate_body
        then ok false
        else elim (parse s.baseline_body) [
          | none ↦ err baseline_json
          | some a ↦ elim (parse s.candidate_body) [
            | none ↦ err candidate_json
            | some b ↦ ok (structurally_drifted a b)
          ]
        ]
