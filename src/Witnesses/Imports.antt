-- ===== src/Witnesses/Imports.antt =====
-- The theorems on the importer, applied.
use apisnap.Common.{◌≡◌, arith, [], ◌∷◌}
use apisnap.Importer.Curl.Tokens.{tokenize_command}
use apisnap.Importer.Curl.Encode.{base64_simple}
use apisnap.Importer.Curl.Quotes.{IsWord, quoted, tokenize_command-quoted}
use apisnap.Importer.Curl.Base64.{decode, decode-base64_simple}

tokenize_command-quoted_example :
    tokenize_command (quoted ("curl" ∷ "a b" ∷ [])) ≡ "curl" ∷ "a b" ∷ []
tokenize_command-quoted_example =
    tokenize_command-quoted ("curl" ∷ "a b" ∷ []) (curl_IsWord, (blank_IsWord, tt))
  where
    curl_IsWord : IsWord "curl"
    curl_IsWord = (
      λ e. cc,
      (
        λ e. omega (arith, e),
        λ e. omega (arith, e),
        (
          λ e. omega (arith, e),
          λ e. omega (arith, e),
          (
            λ e. omega (arith, e),
            λ e. omega (arith, e),
            (λ e. omega (arith, e), λ e. omega (arith, e), tt),
          ),
        ),
      ),
    )

    blank_IsWord : IsWord "a b"
    blank_IsWord = (
      λ e. cc,
      (
        λ e. omega (arith, e),
        λ e. omega (arith, e),
        (
          λ e. omega (arith, e),
          λ e. omega (arith, e),
          (λ e. omega (arith, e), λ e. omega (arith, e), tt),
        ),
      ),
    )

decode-base64_simple_example :
    decode (base64_simple (0 ∷ 255 ∷ 16 ∷ 65 ∷ [])) ≡ 0 ∷ 255 ∷ 16 ∷ 65 ∷ []
decode-base64_simple_example =
    decode-base64_simple (0 ∷ 255 ∷ 16 ∷ 65 ∷ [])
      (omega arith, (omega arith, (omega arith, (omega arith, tt))))
