-- ===== src/Importer/Curl/Base64.antt =====
-- The encoder of the importer against a decoder.
use Prim.Native.Char.{Char, code}
use Prim.Native.String.append
use text.Mathlib.TextLemmas.{append-nil as text_nil}
use apisnap.Common.{
  ℕ, zero, suc, ◌+◌, ◌*◌, ◌/◌, ◌%◌, ◌-◌, ◌<◌, leb, ◌≡◌, ◌≢◌, refl, sym, ap, ◌∙◌, inl, inr, String,
  Bool, true, false, not, ◌&&◌, List, [], ◌∷◌, ◌++◌, All, subst, ◌<>◌, ◌==◌, arith, Bool-cases,
  if◌then◌else◌,
}
use apisnap.Importer.Curl.Encode.{sextet, triple, first, second, third, fourth, base64_simple}

-- The value of a character in the base64 alphabet of RFC 4648; 64 for the others.
unfoldable pub place : Char → ℕ
place c =
    let n = code c in
    if leb 65 n && leb n 90
    then n - 65
    else if leb 97 n && leb n 122
    then n - 71
    else if leb 48 n && leb n 57
    then n + 4
    else if n == 43
    then 62
    else if n == 47
    then 63
    else 64

-- Four characters are three bytes, or fewer where the last are `=`.
unfoldable pub decoded : Char → Char → Char → Char → List ℕ
unfolding place
decoded a b c d =
    let one = place a * 4 + place b / 16 in
    let two = place b % 16 * 16 + place c / 4 in
    let three = place c % 4 * 64 + place d in
    if code c == 61
    then one ∷ []
    else if code d == 61
    then one ∷ two ∷ []
    else one ∷ two ∷ three ∷ []

unfoldable pub decode : String → List ℕ
unfolding decoded
decode String.[] = []
decode (String.◌∷◌ a String.[]) = []
decode (String.◌∷◌ a (String.◌∷◌ b String.[])) = []
decode (String.◌∷◌ a (String.◌∷◌ b (String.◌∷◌ c String.[]))) = []
decode (String.◌∷◌ a (String.◌∷◌ b (String.◌∷◌ c (String.◌∷◌ d s)))) = decoded a b c d ++ decode s

-- Each entry of the table is one character, at its own place, and not `=`.
good_char : ℕ → String → Bool
unfolding place
good_char n String.[] = false
good_char n (String.◌∷◌ c String.[]) = (place c == n) && not (code c == 61)
good_char n (String.◌∷◌ c (String.◌∷◌ d s)) = false

all_below : ℕ → (ℕ → Bool) → Bool
all_below zero test = true
all_below (suc n) test = test n && all_below n test

table_is_good : all_below 64 (λ n. good_char n (sextet n)) ≡ true
unfolding all_below good_char
table_is_good = refl

all_below-get : (m n : ℕ) (test : ℕ → Bool) → all_below m test ≡ true → n < m → test n ≡ true
unfolding all_below
all_below-get zero n test h l = absurd (omega arith)
all_below-get (suc m) n test h l = elim (Bool-cases (n == m)) [
  | inl same ↦
      let is : m ≡ n = ground (arith, same) in subst (λ k. test k ≡ true) is (ground (arith, h))
  | inr other ↦ all_below-get m n test (ground (arith, h)) (ground (arith, l, other))
]

InTable : ℕ → Type 0
InTable n = (c : Char) × (sextet n ≡ String.◌∷◌ c String.[]) × (place c ≡ n) × (code c ≢ 61)

good_char-place :
    (n : ℕ) (c : Char) → good_char n (String.◌∷◌ c String.[]) ≡ true → (place c ≡ n) × (code c ≢ 61)
unfolding good_char
good_char-place n c good = (ground (arith, good), ground (arith, good))

good_char-InTable : (n : ℕ) (s : String) → sextet n ≡ s → good_char n s ≡ true → InTable n
unfolding InTable good_char
good_char-InTable n String.[] e good = cc
good_char-InTable n (String.◌∷◌ c String.[]) e good =
    (c, e, (good_char-place n c good).0, (good_char-place n c good).1)
good_char-InTable n (String.◌∷◌ c (String.◌∷◌ d s)) e good = cc

sextet-InTable : (n : ℕ) → n < 64 → InTable n
sextet-InTable n h =
    good_char-InTable n (sextet n) refl
      (all_below-get 64 n (λ m. good_char m (sextet m)) table_is_good h)

join_char :
    (x : String) (c : Char) (s : String) → x ≡ String.◌∷◌ c String.[] → x <> s ≡ String.◌∷◌ c s
join_char x c s e =
    ap (λ y. y <> s) e ∙ append.cons c String.[] s ∙ ap (λ r. String.◌∷◌ c r) (append.nil s)

join_four :
    (x y z w s : String) (a b c d : Char)
    → x ≡ String.◌∷◌ a String.[]
    → y ≡ String.◌∷◌ b String.[]
    → z ≡ String.◌∷◌ c String.[]
    → w ≡ String.◌∷◌ d String.[]
    → x <> y <> z <> w <> s ≡ String.◌∷◌ a (String.◌∷◌ b (String.◌∷◌ c (String.◌∷◌ d s)))
join_four x y z w s a b c d ex ey ez ew =
    join_char x a (y <> z <> w <> s) ex
    ∙ ap (λ r. String.◌∷◌ a r)
        (join_char y b (z <> w <> s) ey
          ∙ ap (λ r. String.◌∷◌ b r)
              (join_char z c (w <> s) ez ∙ ap (λ r. String.◌∷◌ c r) (join_char w d s ew)))

-- The three bytes of a round, from its four sextets.
bytes_of_sextets :
    (b0 b1 b2 : ℕ)
    → b0 < 256
    → b1 < 256
    → b2 < 256
    → (triple b0 b1 b2 / 262144 % 64 * 4 + triple b0 b1 b2 / 4096 % 64 / 16 ≡ b0)
      × (triple b0 b1 b2 / 4096 % 64 % 16 * 16 + triple b0 b1 b2 / 64 % 64 / 4 ≡ b1)
      × (triple b0 b1 b2 / 64 % 64 % 4 * 64 + triple b0 b1 b2 % 64 ≡ b2)
bytes_of_sextets b0 b1 b2 h0 h1 h2 = (omega arith, omega arith, omega arith)

decoded_all :
    (a b c d : Char)
    → code c ≢ 61
    → code d ≢ 61
    → decoded a b c d
      ≡ (place a * 4 + place b / 16)
        ∷ (place b % 16 * 16 + place c / 4)
        ∷ (place c % 4 * 64 + place d)
        ∷ []
unfolding decoded
decoded_all a b c d nc nd = ground (arith, nc, nd)

decoded_two :
    (a b c : Char)
    → code c ≢ 61
    → decoded a b c "=" ≡ (place a * 4 + place b / 16) ∷ (place b % 16 * 16 + place c / 4) ∷ []
unfolding decoded
decoded_two a b c nc = ground (arith, nc)

decoded_one : (a b : Char) → decoded a b "=" "=" ≡ (place a * 4 + place b / 16) ∷ []
unfolding decoded
decoded_one a b = refl

one_byte : (x y p q b : ℕ) → x ≡ p → y ≡ q → p * 4 + q / 16 ≡ b → x * 4 + y / 16 ≡ b
one_byte x y p q b hx hy h = rw (hx, hy) h

two_byte : (x y p q b : ℕ) → x ≡ p → y ≡ q → p % 16 * 16 + q / 4 ≡ b → x % 16 * 16 + y / 4 ≡ b
two_byte x y p q b hx hy h = rw (hx, hy) h

three_byte : (x y p q b : ℕ) → x ≡ p → y ≡ q → p % 4 * 64 + q ≡ b → x % 4 * 64 + y ≡ b
three_byte x y p q b hx hy h = rw (hx, hy) h

cons_same : (x y : ℕ) (xs ys : List ℕ) → x ≡ y → xs ≡ ys → x ∷ xs ≡ y ∷ ys
cons_same x y xs ys h k = cc

decode-base64_simple_round :
    (b0 b1 b2 : ℕ) (input : List ℕ)
    → b0 < 256
    → b1 < 256
    → b2 < 256
    → decode (base64_simple (b0 ∷ b1 ∷ b2 ∷ input)) ≡ b0 ∷ b1 ∷ b2 ∷ decode (base64_simple input)
unfolding decode base64_simple InTable
decode-base64_simple_round b0 b1 b2 input h0 h1 h2 =
    let t = triple b0 b1 b2 in
    let (a, ea, pa, na) = sextet-InTable (t / 262144 % 64) (omega arith) in
    let (b, eb, pb, nb) = sextet-InTable (t / 4096 % 64) (omega arith) in
    let (c, ec, pc, nc) = sextet-InTable (t / 64 % 64) (omega arith) in
    let (d, ed, pd, nd) = sextet-InTable (t % 64) (omega arith) in
    let (one, two, three) = bytes_of_sextets b0 b1 b2 h0 h1 h2 in
    ap decode (
      join_four (first t) (second t) (third t) (fourth t) (base64_simple input) a b c d ea eb ec ed)
    ∙ ap (λ l. l ++ decode (base64_simple input)) (decoded_all a b c d nc nd)
    ∙ cons_same _ _ _ _ (one_byte _ _ _ _ b0 pa pb one) (
        cons_same _ _ _ _ (two_byte _ _ _ _ b1 pb pc two)
          (cons_same _ _ _ _ (three_byte _ _ _ _ b2 pc pd three) refl))

-- The encoding of bytes is decoded to them, in the alphabet of RFC 4648 with `+` and `/`.
pub decode-base64_simple : (bs : List ℕ) → All (λ b. b < 256) bs → decode (base64_simple bs) ≡ bs
unfolding decode base64_simple InTable
decode-base64_simple [] h = refl
decode-base64_simple (b0 ∷ []) (h0, _) =
    let t = triple b0 0 0 in
    let (a, ea, pa, na) = sextet-InTable (t / 262144 % 64) (omega arith) in
    let (b, eb, pb, nb) = sextet-InTable (t / 4096 % 64) (omega arith) in
    let (one, _, _) = bytes_of_sextets b0 0 0 h0 (omega arith) (omega arith) in
    ap (λ x. decode (first t <> second t <> "=" <> x)) (sym (text_nil "="))
    ∙ ap decode (join_four (first t) (second t) "=" "=" "" a b "=" "=" ea eb refl refl)
    ∙ ap (λ l. l ++ []) (decoded_one a b)
    ∙ cons_same _ _ _ _ (one_byte _ _ _ _ b0 pa pb one) refl
decode-base64_simple (b0 ∷ b1 ∷ []) (h0, (h1, _)) =
    let t = triple b0 b1 0 in
    let (a, ea, pa, na) = sextet-InTable (t / 262144 % 64) (omega arith) in
    let (b, eb, pb, nb) = sextet-InTable (t / 4096 % 64) (omega arith) in
    let (c, ec, pc, nc) = sextet-InTable (t / 64 % 64) (omega arith) in
    let (one, two, _) = bytes_of_sextets b0 b1 0 h0 h1 (omega arith) in
    ap (λ x. decode (first t <> second t <> third t <> x)) (sym (text_nil "="))
    ∙ ap decode (join_four (first t) (second t) (third t) "=" "" a b c "=" ea eb ec refl)
    ∙ ap (λ l. l ++ []) (decoded_two a b c nc)
    ∙ cons_same _ _ _ _ (one_byte _ _ _ _ b0 pa pb one)
        (cons_same _ _ _ _ (two_byte _ _ _ _ b1 pb pc two) refl)
decode-base64_simple (b0 ∷ b1 ∷ b2 ∷ bs) (h0, (h1, (h2, h))) =
    decode-base64_simple_round b0 b1 b2 bs h0 h1 h2
    ∙ ap (λ l. b0 ∷ b1 ∷ b2 ∷ l) (decode-base64_simple bs h)
