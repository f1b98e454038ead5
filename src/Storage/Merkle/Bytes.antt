-- ===== src/Storage/Merkle/Bytes.antt =====
-- Numbers as their eight bytes.
use apisnap.Common.{ℕ, ◌^◌, ◌<◌, ◌≡◌, refl, ap, ◌∙◌, arith, inl, inr, none, some, Option-cases, ◌∷◌}
use apisnap.Storage.Merkle.{
  to_be_bytes, from_be_bytes, NumberBits, canonicalize_number, decanonicalize_number,
}
use apisnap.Storage.Merkle.Tree.{restored_number}

-- What `serde_json` says of its numbers: an `i64` and an `f64` have 64 bits, and the number made from
-- the `i64` of a number is that number.
pub record IsBits {N : Type 0} (B : NumberBits N) : Type 0 where
  pub as_i64-bound : (n : N) (i : ℕ) → B.as_i64 n ≡ some i → i < 2 ^ 64
  pub as_f64-bound : (n : N) (f : ℕ) → B.as_f64 n ≡ some f → f < 2 ^ 64
  pub from_i64-as_i64 : (n : N) (i : ℕ) → B.as_i64 n ≡ some i → B.from_i64 i ≡ n

from_be_bytes-to_be_bytes : (n : ℕ) → n < 2 ^ 64 → from_be_bytes 0 (to_be_bytes n) ≡ n
unfolding from_be_bytes to_be_bytes
from_be_bytes-to_be_bytes n h = omega (arith, h)

module _ {N : Type 0} (B : NumberBits N) where
  decanonicalize_number-int :
      (n : ℕ)
      → decanonicalize_number B (0 ∷ to_be_bytes n) ≡ B.from_i64 (from_be_bytes 0 (to_be_bytes n))
  unfolding decanonicalize_number to_be_bytes
  decanonicalize_number-int n = refl

  decanonicalize_number-float :
      (n : ℕ)
      → decanonicalize_number B (1 ∷ to_be_bytes n)
        ≡ elim (B.from_f64 (from_be_bytes 0 (to_be_bytes n))) [ some m ↦ m | none ↦ B.from_i64 0 ]
  unfolding decanonicalize_number to_be_bytes
  decanonicalize_number-float n = refl

  -- A float of 64 bits through its bytes.
  float_back :
      (f : ℕ)
      → f < 2 ^ 64
      → decanonicalize_number B (1 ∷ to_be_bytes f)
        ≡ elim (B.from_f64 f) [ some m ↦ m | none ↦ B.from_i64 0 ]
  float_back f h =
      decanonicalize_number-float f
      ∙ ap (λ x. elim (B.from_f64 x) [ some m ↦ m | none ↦ B.from_i64 0 ])
          (from_be_bytes-to_be_bytes f h)

  -- A number through its bytes.
  pub decanonicalize-canonicalize :
      (L : IsBits B) (n : N)
      → decanonicalize_number B (canonicalize_number B n) ≡ restored_number B n
  unfolding canonicalize_number
  decanonicalize-canonicalize L n = elim (Option-cases (B.as_i64 n)) [
    | inr (i, int) ↦
        ap (λ bs. decanonicalize_number B bs) (ground (arith, int))
        ∙ decanonicalize_number-int i
        ∙ ap B.from_i64 (from_be_bytes-to_be_bytes i (L.as_i64-bound n i int))
        ∙ L.from_i64-as_i64 n i int
        ∙ ground (arith, int)
    | inl not_int ↦ elim (Option-cases (B.as_f64 n)) [
      | inr (f, float) ↦
          ap (λ bs. decanonicalize_number B bs) (ground (arith, not_int, float))
          ∙ float_back f (L.as_f64-bound n f float)
          ∙ ground (arith, not_int, float)
      | inl neither ↦
          ap (λ bs. decanonicalize_number B bs) (ground (arith, not_int, neither))
          ∙ float_back 0 (omega arith)
          ∙ ground (arith, not_int, neither)
    ]
  ]
