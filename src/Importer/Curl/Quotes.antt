-- ===== src/Importer/Curl/Quotes.antt =====
-- Words in single quotes come back from the tokenizer as they are.
use Prim.Native.Char.{Char, code}
use Prim.Native.String.append
use mathlib.Core.List.{append_assoc, append-nil}
use text.Mathlib.TextLemmas.{append-nil as text_nil, append_assoc as text_assoc}
use apisnap.Common.{
  ◌≡◌, ◌≢◌, refl, sym, ap, ◌∙◌, String, true, false, List, [], ◌∷◌, ◌++◌, All, ◌<>◌, arith,
}
use apisnap.Engine.JitRule.{push_char}
use apisnap.Importer.Curl.Tokens.{
  Tokenizer, token_step, token_loop, new_tokenizer, tokenize_command, push_token,
}

-- No character of the word is a single quote or a backslash.
abbrev pub Quotable : String → Type 0
Quotable String.[] = Unit
Quotable (String.◌∷◌ c s) = (code c ≢ 39) × (code c ≢ 92) × Quotable s

abbrev pub IsWord : String → Type 0
IsWord w = (w ≢ "") × Quotable w

-- The words, each in single quotes and with a blank after it.
abbrev pub quoted : List String → String
quoted [] = ""
quoted (w ∷ ws) = "'" <> w <> "'" <> " " <> quoted ws

abbrev inside : List String → String → Tokenizer
inside tokens current = record {
  tokens = tokens;
  current = current;
  in_single_quote = true;
  in_double_quote = false;
  escaped = false;
}

token_loop-inside :
    (w : String) (tokens : List String) (current rest : String)
    → Quotable w
    → token_loop (w <> rest) (inside tokens current)
      ≡ token_loop rest (inside tokens (current <> w))
unfolding token_loop
token_loop-inside String.[] tokens current rest h = rw (append.nil rest, text_nil current) refl
token_loop-inside (String.◌∷◌ c w) tokens current rest (no_quote, no_escape, h) =
    rw (append.cons c w rest) (
      ap (λ t. token_loop (w <> rest) t) step
      ∙ token_loop-inside w tokens (push_char current c) rest h
      ∙ ap (λ x. token_loop rest (inside tokens x)) joined)
  where
    step : token_step c (inside tokens current) ≡ inside tokens (push_char current c)
    step = ground (arith, no_quote, no_escape)

    joined : push_char current c <> w ≡ current <> String.◌∷◌ c w
    joined =
        text_assoc current (String.◌∷◌ c String.[]) w
        ∙ ap (λ x. current <> x)
            (append.cons c String.[] w ∙ ap (λ x. String.◌∷◌ c x) (append.nil w))

token_loop-cons :
    (c : Char) (rest : String) (t : Tokenizer)
    → token_loop (String.◌∷◌ c String.[] <> rest) t ≡ token_loop rest (token_step c t)
unfolding token_loop
token_loop-cons c rest t = rw (append.cons c String.[] rest, append.nil rest) refl

push_token-IsWord :
    (w : String) (tokens : List String) → w ≢ "" → push_token w tokens ≡ tokens ++ w ∷ []
push_token-IsWord String.[] tokens h = absurd (h refl)
push_token-IsWord (String.◌∷◌ c w) tokens h = refl

abbrev after_quote : List String → String → Tokenizer
after_quote tokens current = record (inside tokens current) { in_single_quote = false }

token_loop-quoted :
    (ws : List String) (tokens : List String)
    → All IsWord ws
    → token_loop (quoted ws) (new_tokenizer tokens) ≡ tokens ++ ws
unfolding token_loop token_step
token_loop-quoted [] tokens h = sym (append-nil tokens)
token_loop-quoted (w ∷ ws) tokens ((some_text, plain), h) =
    token_loop-cons "'" (w <> "'" <> " " <> quoted ws) (new_tokenizer tokens)
    ∙ token_loop-inside w tokens "" ("'" <> " " <> quoted ws) plain
    ∙ ap (λ x. token_loop ("'" <> " " <> quoted ws) (inside tokens x)) (append.nil w)
    ∙ token_loop-cons "'" (" " <> quoted ws) (inside tokens w)
    ∙ token_loop-cons " " (quoted ws) (after_quote tokens w)
    ∙ ap (λ x. token_loop (quoted ws) (new_tokenizer x)) (push_token-IsWord w tokens some_text)
    ∙ token_loop-quoted ws (tokens ++ w ∷ []) h
    ∙ append_assoc tokens (w ∷ []) ws

-- Words that are not empty and have no single quote and no backslash, each written in single quotes
-- and followed by a blank, come back from the tokenizer as they are, whatever blanks and double
-- quotes are in them.
pub tokenize_command-quoted : (ws : List String) → All IsWord ws → tokenize_command (quoted ws) ≡ ws
unfolding tokenize_command
tokenize_command-quoted ws h = token_loop-quoted ws [] h
