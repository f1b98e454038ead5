-- ===== src/Common/Text.antt =====
-- Texts: joining, and decimal numbers as `format!("{i}")` writes them.
use Prim.Native.Nat.{ℕ, zero, suc, ◌/◌, ◌%◌}
use Prim.Native.String.{String, ◌++◌}
use mathlib.Core.Path.{◌≡◌, refl}
use apisnap.Common.Tests.{ltb, ◌==◌, if◌then◌else◌}

infixr 65 ◌<>◌
abbrev pub ◌<>◌ : String → String → String
s <> t = s ++ t

abbrev pub digit : ℕ → String
digit n =
    if n == 0
    then "0"
    else if n == 1
    then "1"
    else if n == 2
    then "2"
    else if n == 3
    then "3"
    else if n == 4
    then "4"
    else if n == 5
    then "5"
    else if n == 6
    then "6"
    else if n == 7
    then "7"
    else if n == 8
    then "8"
    else "9"

-- The digits of a number, the last one first in time; a number has at most as many as its value.
unfoldable pub show_digits : ℕ → ℕ → String
show_digits zero n = digit (n % 10)
show_digits (suc f) n =
    let front = show_digits f (n / 10) in if ltb n 10 then digit n else front <> digit (n % 10)

unfoldable pub show_ℕ : ℕ → String
unfolding show_digits
show_ℕ n = show_digits n n

show_ℕ_1205 : show_ℕ 1205 ≡ "1205"
unfolding show_ℕ
show_ℕ_1205 = refl

-- `format!("{path}[{i}]")`
abbrev pub at_index : String → ℕ → String
at_index path i = path <> "[" <> show_ℕ i <> "]"
