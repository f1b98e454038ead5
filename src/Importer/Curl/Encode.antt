-- ===== src/Importer/Curl/Encode.antt =====
-- src/importer/curl.rs: the encoder of the credentials.
use apisnap.Common.{ℕ, zero, suc, ◌+◌, ◌*◌, ◌/◌, ◌%◌, ◌≡◌, refl, String, List, [], ◌∷◌, ◌<>◌}
use apisnap.Engine.JitRule.{as_bytes}

-- The character of the table at a place, as a text.
abbrev pub char_of : ℕ → String → String
char_of n String.[] = ""
char_of zero (String.◌∷◌ c set) = String.◌∷◌ c String.[]
char_of (suc n) (String.◌∷◌ c set) = char_of n set

abbrev pub base64_set : String
base64_set = "ABCDEFGHIJKLMNOPQRSTUVWXYZabcdefghijklmnopqrstuvwxyz0123456789+/"

abbrev pub sextet : ℕ → String
sextet n = char_of n base64_set

-- `(b0 << 16) | (b1 << 8) | b2`, and `(triple >> 18) & 63` and the three after it.
abbrev pub triple : ℕ → ℕ → ℕ → ℕ
triple b0 b1 b2 = b0 * 65536 + b1 * 256 + b2

abbrev pub first : ℕ → String
first t = sextet (t / 262144 % 64)

abbrev pub second : ℕ → String
second t = sextet (t / 4096 % 64)

abbrev pub third : ℕ → String
third t = sextet (t / 64 % 64)

abbrev pub fourth : ℕ → String
fourth t = sextet (t % 64)

-- A round takes up to three bytes.
unfoldable pub base64_simple : List ℕ → String
base64_simple [] = ""
base64_simple (b0 ∷ []) = first (triple b0 0 0) <> second (triple b0 0 0) <> "=" <> "="
base64_simple (b0 ∷ b1 ∷ []) =
    first (triple b0 b1 0) <> second (triple b0 b1 0) <> third (triple b0 b1 0) <> "="
base64_simple (b0 ∷ b1 ∷ b2 ∷ input) =
    first (triple b0 b1 b2)
    <> second (triple b0 b1 b2)
    <> third (triple b0 b1 b2)
    <> fourth (triple b0 b1 b2)
    <> base64_simple input

encoded : base64_simple (as_bytes "user:pass") ≡ "dXNlcjpwYXNz"
unfolding base64_simple as_bytes
encoded = refl

encoded_short : base64_simple (as_bytes "ab") ≡ "YWI="
unfolding base64_simple as_bytes
encoded_short = refl
