-- ===== src/Fuzz/Paths/Numerals.antt =====
-- An index that is printed in decimal is read back, and read inside brackets up to the closing one.
use Prim.Native.Char.{Char, code}
use Prim.Native.String.append
use text.Mathlib.TextLemmas.{append-nil, append_assoc}
use apisnap.Common.{
  ℕ, zero, suc, ◌+◌, ◌*◌, ◌/◌, ◌%◌, ◌^◌, ◌≤◌, ◌<◌, ◌≡◌, refl, sym, ap, subst, ◌∙◌, inl, inr, String,
  some, ltb, ◌<>◌, show_ℕ, show_digits, digit, arith, Bool-cases,
}
use apisnap.Engine.Masker.Segments.{parse_usize, parse_digits}
use apisnap.Fuzz.Paths.{in_index, parse_chars}

IsDecimal : ℕ → Type 0
IsDecimal d = (c : Char) × (digit d ≡ String.◌∷◌ c String.[]) × (code c ≡ 48 + d)

digit-IsDecimal : (d : ℕ) → d < 10 → IsDecimal d
unfolding IsDecimal
digit-IsDecimal zero h = ("0", refl, refl)
digit-IsDecimal (suc zero) h = ("1", refl, refl)
digit-IsDecimal (suc (suc zero)) h = ("2", refl, refl)
digit-IsDecimal (suc (suc (suc zero))) h = ("3", refl, refl)
digit-IsDecimal (suc (suc (suc (suc zero)))) h = ("4", refl, refl)
digit-IsDecimal (suc (suc (suc (suc (suc zero))))) h = ("5", refl, refl)
digit-IsDecimal (suc (suc (suc (suc (suc (suc zero)))))) h = ("6", refl, refl)
digit-IsDecimal (suc (suc (suc (suc (suc (suc (suc zero))))))) h = ("7", refl, refl)
digit-IsDecimal (suc (suc (suc (suc (suc (suc (suc (suc zero)))))))) h = ("8", refl, refl)
digit-IsDecimal (suc (suc (suc (suc (suc (suc (suc (suc (suc zero))))))))) h = ("9", refl, refl)
digit-IsDecimal (suc (suc (suc (suc (suc (suc (suc (suc (suc (suc d)))))))))) h =
    absurd (omega arith)

cons-text : (c : Char) (t : String) → String.◌∷◌ c String.[] <> t ≡ String.◌∷◌ c t
cons-text c t = append.cons c String.[] t ∙ ap (λ r. String.◌∷◌ c r) (append.nil t)

parse_digits-digit :
    (d acc : ℕ) (t : String)
    → d < 10
    → parse_digits acc (digit d <> t) ≡ parse_digits (acc * 10 + d) t
unfolding parse_digits IsDecimal
parse_digits-digit d acc t h =
    let (c, e, n) = digit-IsDecimal d h in rw (e, cons-text c t) (ground (arith, n))

parse_chars-digit :
    (d : ℕ) (num t : String)
    → d < 10
    → parse_chars (in_index num) (digit d <> t) ≡ parse_chars (in_index (num <> digit d)) t
unfolding parse_chars IsDecimal
parse_chars-digit d num t h =
    let (c, e, n) = digit-IsDecimal d h in rw (e, cons-text c t) (ground (arith, n))

-- The digits of `n`, read after the digits of 0; `f` bounds how many there are.
parse_digits-show_digits :
    (f n : ℕ) (t : String) → n ≤ f → parse_digits 0 (show_digits f n <> t) ≡ parse_digits n t
unfolding show_digits
parse_digits-show_digits zero n t h =
    parse_digits-digit (n % 10) 0 t (omega arith) ∙ ap (λ k. parse_digits k t) (omega arith)
parse_digits-show_digits (suc f) n t h = elim (Bool-cases (ltb n 10)) [
  | inl small ↦
      rw small (
        parse_digits-digit n 0 t (ground (arith, small)) ∙ ap (λ k. parse_digits k t) (omega arith))
  | inr large ↦
      rw (large, append_assoc (show_digits f (n / 10)) (digit (n % 10)) t)
        (parse_digits-show_digits f (n / 10) (digit (n % 10) <> t) (ground (arith, h, large))
          ∙ parse_digits-digit (n % 10) (n / 10) t (omega arith)
          ∙ ap (λ k. parse_digits k t) (omega arith))
]

parse_chars-show_digits :
    (f n : ℕ) (num t : String)
    → n ≤ f
    → parse_chars (in_index num) (show_digits f n <> t)
      ≡ parse_chars (in_index (num <> show_digits f n)) t
unfolding show_digits
parse_chars-show_digits zero n num t h = parse_chars-digit (n % 10) num t (omega arith)
parse_chars-show_digits (suc f) n num t h = elim (Bool-cases (ltb n 10)) [
  | inl small ↦ rw small (parse_chars-digit n num t (ground (arith, small)))
  | inr large ↦
      rw
        (
          large,
          append_assoc (show_digits f (n / 10)) (digit (n % 10)) t,
          sym (append_assoc num (show_digits f (n / 10)) (digit (n % 10))),
        )
        (parse_chars-show_digits f (n / 10) num (digit (n % 10) <> t) (ground (arith, h, large))
          ∙ parse_chars-digit (n % 10) (num <> show_digits f (n / 10)) t (omega arith))
]

-- The text starts with a digit.
abbrev Numeral : String → Type 0
Numeral String.[] = ⊥
Numeral (String.◌∷◌ c s) = 48 ≤ code c

digit-Numeral : (d : ℕ) (t : String) → d < 10 → Numeral (digit d <> t)
unfolding IsDecimal
digit-Numeral d t h =
    let (c, e, n) = digit-IsDecimal d h in rw (e, cons-text c t) (omega (arith, n))

show_digits-Numeral : (f n : ℕ) (t : String) → n ≤ f → Numeral (show_digits f n <> t)
unfolding show_digits
show_digits-Numeral zero n t h = digit-Numeral (n % 10) t (omega arith)
show_digits-Numeral (suc f) n t h = elim (Bool-cases (ltb n 10)) [
  | inl small ↦ rw small (digit-Numeral n t (ground (arith, small)))
  | inr large ↦
      rw (large, append_assoc (show_digits f (n / 10)) (digit (n % 10)) t)
        (show_digits-Numeral f (n / 10) (digit (n % 10) <> t) (ground (arith, h, large)))
]

-- A leading digit is no sign.
parse_usize-Numeral : (s : String) → Numeral s → parse_usize s ≡ parse_digits 0 s
unfolding parse_usize
parse_usize-Numeral String.[] h = absurd h
parse_usize-Numeral (String.◌∷◌ c String.[]) h = refl
parse_usize-Numeral (String.◌∷◌ c (String.◌∷◌ d s)) h = ground arith

-- A number that fits in 64 bits is read back from its decimal digits.
pub parse_usize-show_ℕ : (n : ℕ) → n < 2 ^ 64 → parse_usize (show_ℕ n) ≡ some n
unfolding show_ℕ parse_digits
parse_usize-show_ℕ n h =
    subst (λ s. parse_usize s ≡ some n) (append-nil (show_digits n n))
      (parse_usize-Numeral (show_digits n n <> "") (show_digits-Numeral n n "" (omega arith))
        ∙ parse_digits-show_digits n n "" (omega arith)
        ∙ ground arith)

-- What stands between brackets is collected.
pub parse_chars-show_ℕ :
    (n : ℕ) (num t : String)
    → parse_chars (in_index num) (show_ℕ n <> t) ≡ parse_chars (in_index (num <> show_ℕ n)) t
unfolding show_ℕ
parse_chars-show_ℕ n num t = parse_chars-show_digits n n num t (omega arith)
