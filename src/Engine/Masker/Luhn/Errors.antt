-- ===== src/Engine/Masker/Luhn/Errors.antt =====
-- Which slips in a card number the check notices.
use Prim.Native.Nat.{◌-◌}
use Prim.Native.Char.{Char, code}
use Prim.Native.String.append
use mathlib.Core.List.{append_assoc}
use apisnap.Common.{
  ℕ, ◌+◌, ◌%◌, ◌≤◌, ◌≡◌, ◌≢◌, refl, sym, ap, ◌∙◌, ◌⊎◌, inl, inr, arith, Bool-cases, String, Bool,
  true, false, not, ◌&&◌, List, [], ◌∷◌, ◌++◌, ◌<>◌, leb, if◌then◌else◌,
}
use apisnap.Engine.Masker.Luhn.{digits_onto, luhn_digit, luhn_sum, luhn_check, is_credit_card_luhn}

-- Whether the digit behind a list of digits is doubled.
abbrev turn : Bool → List ℕ → Bool
turn alternate [] = alternate
turn alternate (d ∷ ds) = turn (not alternate) ds

luhn_sum-append :
    (alternate : Bool) (ds es : List ℕ)
    → luhn_sum alternate (ds ++ es) ≡ luhn_sum alternate ds + luhn_sum (turn alternate ds) es
unfolding luhn_sum
luhn_sum-append alternate [] es = omega arith
luhn_sum-append alternate (d ∷ ds) es = omega (arith, luhn_sum-append (not alternate) ds es)

-- Two digits have the same share modulo 10 only if they are the same.
luhn_digit-injective :
    (alternate : Bool) (d e r : ℕ)
    → d ≤ 9
    → e ≤ 9
    → (r + luhn_digit alternate d) % 10 ≡ (r + luhn_digit alternate e) % 10
    → d ≡ e
unfolding luhn_digit
luhn_digit-injective alternate d e r hd he h = ground arith

-- Two neighbours have the same shares in either order only if they are the same, or 0 and 9.
luhn_digit-swap :
    (alternate : Bool) (d e r : ℕ)
    → d ≤ 9
    → e ≤ 9
    → (r + luhn_digit alternate d + luhn_digit (not alternate) e) % 10
      ≡ (r + luhn_digit alternate e + luhn_digit (not alternate) d) % 10
    → (d ≡ e) ⊎ (d + 9 ≡ e) ⊎ (e + 9 ≡ d)
unfolding luhn_digit
luhn_digit-swap alternate d e r hd he h = ground arith

abbrev pub IsDigit : Char → Type 0
IsDigit c = (48 ≤ code c) × (code c ≤ 57)

-- The digits of a text, the last one first, stand before those collected so far.
digits_onto-append : (acc : List ℕ) (s : String) → digits_onto acc s ≡ digits_onto [] s ++ acc
unfolding digits_onto
digits_onto-append acc String.[] = refl
digits_onto-append acc (String.◌∷◌ c s) = elim (Bool-cases (leb 48 (code c) && leb (code c) 57)) [
  | inl is ↦ rw is (
      digits_onto-append ((code c - 48) ∷ acc) s
      ∙ (sym (append_assoc (digits_onto [] s) ((code c - 48) ∷ []) acc)
          ∙ ap (λ (l : List ℕ). l ++ acc) (sym (digits_onto-append ((code c - 48) ∷ []) s))))
  | inr other ↦ rw other (digits_onto-append acc s)
]

digits_onto-<> :
    (acc : List ℕ) (s t : String) → digits_onto acc (s <> t) ≡ digits_onto (digits_onto acc s) t
unfolding digits_onto
digits_onto-<> acc String.[] t = rw append.nil
digits_onto-<> acc (String.◌∷◌ c s) t =
    rw append.cons
      (digits_onto-<> (if leb 48 (code c) && leb (code c) 57 then (code c - 48) ∷ acc else acc) s t)

-- The digits around one digit of a text.
digits_around :
    (s t : String) (c : Char)
    → IsDigit c
    → digits_onto [] (s <> String.◌∷◌ c t) ≡ digits_onto [] t ++ (code c - 48) ∷ digits_onto [] s
unfolding digits_onto
digits_around s t c (lo, hi) =
    let is : (leb 48 (code c) && leb (code c) 57) ≡ true = ground arith in
    digits_onto-<> [] s (String.◌∷◌ c t)
    ∙ rw is (digits_onto-append ((code c - 48) ∷ digits_onto [] s) t)

digits_around_two :
    (s t : String) (c d : Char)
    → IsDigit c
    → IsDigit d
    → digits_onto [] (s <> String.◌∷◌ c (String.◌∷◌ d t))
      ≡ digits_onto [] t ++ (code d - 48) ∷ (code c - 48) ∷ digits_onto [] s
unfolding digits_onto
digits_around_two s t c d hc (lo, hi) =
    let is : (leb 48 (code d) && leb (code d) 57) ≡ true = ground arith in
    digits_around s (String.◌∷◌ d t) c hc
    ∙ rw (is, digits_onto-append ((code d - 48) ∷ []) t)
        (append_assoc (digits_onto [] t) ((code d - 48) ∷ []) ((code c - 48) ∷ digits_onto [] s))

luhn_check-sum : (ds : List ℕ) → luhn_check ds ≡ true → luhn_sum false ds % 10 ≡ 0
unfolding luhn_check
luhn_check-sum ds h = ground (arith, h)

sum_around :
    (post pre : List ℕ) (d : ℕ)
    → luhn_sum false (post ++ d ∷ pre)
      ≡ luhn_sum false post + luhn_digit (turn false post) d + luhn_sum (not (turn false post)) pre
unfolding luhn_sum
sum_around post pre d = omega (arith, luhn_sum-append false post (d ∷ pre))

luhn_check_same :
    (post pre : List ℕ) (d e : ℕ)
    → d ≤ 9
    → e ≤ 9
    → luhn_check (post ++ d ∷ pre) ≡ true
    → luhn_check (post ++ e ∷ pre) ≡ true
    → d ≡ e
luhn_check_same post pre d e hd he hold new =
    let a = luhn_check-sum (post ++ d ∷ pre) hold in
    let b = luhn_check-sum (post ++ e ∷ pre) new in
    luhn_digit-injective (turn false post) d e
      (luhn_sum false post + luhn_sum (not (turn false post)) pre) hd he
      (omega (arith, a, b, sum_around post pre d, sum_around post pre e))

sum_around_two :
    (post pre : List ℕ) (d e : ℕ)
    → luhn_sum false (post ++ d ∷ e ∷ pre)
      ≡ luhn_sum false post
        + luhn_digit (turn false post) d
        + luhn_digit (not (turn false post)) e
        + luhn_sum (not (not (turn false post))) pre
unfolding luhn_sum
sum_around_two post pre d e = omega (arith, luhn_sum-append false post (d ∷ e ∷ pre))

luhn_check_swapped :
    (post pre : List ℕ) (d e : ℕ)
    → d ≤ 9
    → e ≤ 9
    → luhn_check (post ++ d ∷ e ∷ pre) ≡ true
    → luhn_check (post ++ e ∷ d ∷ pre) ≡ true
    → (d ≡ e) ⊎ (d + 9 ≡ e) ⊎ (e + 9 ≡ d)
luhn_check_swapped post pre d e hd he hold new =
    let a = luhn_check-sum (post ++ d ∷ e ∷ pre) hold in
    let b = luhn_check-sum (post ++ e ∷ d ∷ pre) new in
    luhn_digit-swap (turn false post) d e
      (luhn_sum false post + luhn_sum (not (not (turn false post))) pre) hd he
      (omega (arith, a, b, sum_around_two post pre d e, sum_around_two post pre e d))

refuse : (b : Bool) → ¬ (b ≡ true) → b ≡ false
refuse true no_way = absurd (no_way refl)
refuse false no_way = refl

-- In a text that passes for a card number, whatever stands between its digits, no single digit can
-- be replaced by another one: the text with that digit changed does not pass.
pub is_credit_card_luhn-substitution :
    (s t : String) (c d : Char)
    → IsDigit c
    → IsDigit d
    → code c ≢ code d
    → is_credit_card_luhn (s <> String.◌∷◌ c t) ≡ true
    → is_credit_card_luhn (s <> String.◌∷◌ d t) ≡ false
unfolding is_credit_card_luhn
is_credit_card_luhn-substitution s t c d hc hd apart old = refuse _ λ new. apart (
    omega (
      arith,
      luhn_check_same (digits_onto [] t) (digits_onto [] s) (code c - 48) (code d - 48)
          (omega (arith, hc.1)) (omega (arith, hd.1)) (rw (digits_around s t c hc) at old)
          (rw (digits_around s t d hd) at new),
      hc.0,
      hd.0,
    ))

-- Nor can two different digits that stand next to each other be exchanged, unless they are 0 and 9.
pub is_credit_card_luhn-transposition :
    (s t : String) (c d : Char)
    → IsDigit c
    → IsDigit d
    → code c ≢ code d
    → code c + 9 ≢ code d
    → code d + 9 ≢ code c
    → is_credit_card_luhn (s <> String.◌∷◌ c (String.◌∷◌ d t)) ≡ true
    → is_credit_card_luhn (s <> String.◌∷◌ d (String.◌∷◌ c t)) ≡ false
unfolding is_credit_card_luhn
is_credit_card_luhn-transposition s t c d hc hd apart up down old = refuse _ λ new.
    elim (luhn_check_swapped (digits_onto [] t) (digits_onto [] s) (code d - 48) (code c - 48)
      (omega (arith, hd.1)) (omega (arith, hc.1)) (rw (digits_around_two s t c d hc hd) at old)
      (rw (digits_around_two s t d c hd hc) at new)) [
        | inl same ↦ apart (omega (arith, same, hc.0, hd.0))
        | inr (inl less) ↦ down (omega (arith, less, hc.0, hd.0))
        | inr (inr more) ↦ up (omega (arith, more, hc.0, hd.0))
      ]
