-- ===== src/Importer/Curl/Tokens.antt =====
-- src/importer/curl.rs: the words of a command line.
use Prim.Native.Char.{Char, code}
use apisnap.Common.{
  ℕ, ◌==◌, ◌≡◌, refl, not, ◌&&◌, ◌||◌, String, Bool, true, false, List, [], ◌∷◌, ◌++◌,
  if◌then◌else◌,
}
use apisnap.Engine.JitRule.{push_char}

-- The variables of `tokenize_command`.
pub record Tokenizer : Type 0 where
  pub tokens : List String
  pub current : String
  pub in_single_quote : Bool
  pub in_double_quote : Bool
  pub escaped : Bool

abbrev pub is_blank : ℕ → Bool
is_blank c = c == b' ' || (c == 9 || (c == 13 || c == 10))

abbrev pub push_token : String → List String → List String
push_token String.[] tokens = tokens
push_token (String.◌∷◌ c current) tokens = tokens ++ String.◌∷◌ c current ∷ []

-- One round of the loop.
unfoldable pub token_step : Char → Tokenizer → Tokenizer
token_step c t =
    if t.escaped
    then record t { current = push_char t.current c; escaped = false }
    else if code c == 92
    then record t { escaped = true }
    else if code c == 39 && not t.in_double_quote
    then record t { in_single_quote = not t.in_single_quote }
    else if code c == 34 && not t.in_single_quote
    then record t { in_double_quote = not t.in_double_quote }
    else if is_blank (code c) && (not t.in_single_quote && not t.in_double_quote)
    then record t { tokens = push_token t.current t.tokens; current = "" }
    else record t { current = push_char t.current c }

unfoldable pub token_loop : String → Tokenizer → List String
unfolding token_step
token_loop String.[] t = push_token t.current t.tokens
token_loop (String.◌∷◌ c cmd) t = token_loop cmd (token_step c t)

abbrev pub new_tokenizer : List String → Tokenizer
new_tokenizer tokens = record {
  tokens = tokens;
  current = "";
  in_single_quote = false;
  in_double_quote = false;
  escaped = false;
}

unfoldable pub tokenize_command : String → List String
unfolding token_loop
tokenize_command cmd = token_loop cmd (new_tokenizer [])

tokens_of_a_command :
    tokenize_command "curl -H \"A: b\" 'x y'" ≡ "curl" ∷ "-H" ∷ "A: b" ∷ "x y" ∷ []
unfolding tokenize_command
tokens_of_a_command = refl
