-- ===== src/Engine/Masker/Luhn.antt =====
-- src/engine/masker.rs: `is_credit_card_luhn`, the check of card numbers.
pub mod Errors
use Prim.Native.Nat.{◌-◌}
use Prim.Native.Char.{Char, code}
use Prim.Native.String
use apisnap.Common.{
  ℕ, ◌+◌, ◌*◌, ◌%◌, String, Bool, true, false, not, ◌&&◌, ◌||◌, List, [], ◌∷◌, length, ltb, leb,
  ◌==◌, if◌then◌else◌,
}

-- `s.chars().filter_map(|c| c.to_digit(10))`, the last digit first (`.iter().rev()`)
unfoldable pub digits_onto : List ℕ → String → List ℕ
digits_onto acc String.[] = acc
digits_onto acc (String.◌∷◌ c s) =
    digits_onto (if leb 48 (code c) && leb (code c) 57 then (code c - 48) ∷ acc else acc) s

-- One digit's share of the sum.
unfoldable pub luhn_digit : Bool → ℕ → ℕ
luhn_digit alternate d = if alternate then (if ltb 9 (d * 2) then d * 2 - 9 else d * 2) else d

unfoldable pub luhn_sum : Bool → List ℕ → ℕ
unfolding luhn_digit
luhn_sum alternate [] = 0
luhn_sum alternate (d ∷ ds) = luhn_digit alternate d + luhn_sum (not alternate) ds

unfoldable pub luhn_check : List ℕ → Bool
unfolding luhn_sum
luhn_check reversed =
    if ltb (length reversed) 13 || ltb 19 (length reversed)
    then false
    else luhn_sum false reversed % 10 == 0

unfoldable pub is_credit_card_luhn : String → Bool
unfolding digits_onto luhn_check
is_credit_card_luhn s = luhn_check (digits_onto [] s)
