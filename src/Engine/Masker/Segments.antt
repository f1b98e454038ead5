-- ===== src/Engine/Masker/Segments.antt =====
-- src/engine/masker.rs: JSON paths as segments.
use Prim.Native.Nat.{◌-◌}
use Prim.Native.Char.{code}
use apisnap.Common.{
  ℕ, ◌+◌, ◌*◌, ◌^◌, ◌≡◌, refl, String, Bool, true, false, ◌&&◌, Option, none, some, List, [], ◌∷◌,
  ◌++◌, ltb, leb, ◌==◌, str_eq, ◌<>◌, show_ℕ, if◌then◌else◌,
}
use apisnap.Engine.JitRule.{trim_dollars, push_char}

pub data PathSegment : Type 0 where
  root : PathSegment
  key : String → PathSegment
  index : ℕ → PathSegment
  wildcard_array : PathSegment

-- The digits of `s.parse::<usize>()`, most significant first.
unfoldable pub parse_digits : ℕ → String → Option ℕ
parse_digits n String.[] = if ltb n (2 ^ 64) then some n else none
parse_digits n (String.◌∷◌ c s) =
    let rest = parse_digits (n * 10 + (code c - 48)) s in
    if leb 48 (code c) && leb (code c) 57 then rest else none

-- `s.parse::<usize>()`: digits, behind a `+` if there is one.
unfoldable pub parse_usize : String → Option ℕ
unfolding parse_digits
parse_usize String.[] = none
parse_usize (String.◌∷◌ c String.[]) = parse_digits 0 (String.◌∷◌ c String.[])
parse_usize (String.◌∷◌ c (String.◌∷◌ d s)) =
    if code c == b'+'
    then parse_digits 0 (String.◌∷◌ d s)
    else parse_digits 0 (String.◌∷◌ c (String.◌∷◌ d s))

-- What is pushed for a key that ends, and for the text between brackets.
abbrev pub flush_key : String → List PathSegment
flush_key String.[] = []
flush_key (String.◌∷◌ c s) = key (String.◌∷◌ c s) ∷ []

unfoldable pub flush_index : String → List PathSegment
unfolding parse_usize
flush_index num_str =
    if str_eq num_str "*"
    then wildcard_array ∷ []
    else elim (parse_usize num_str) [ some idx ↦ index idx ∷ [] | none ↦ [] ]

pub data ParseMode : Type 0 where
  -- outside brackets, with `current_key`
  in_key : String → ParseMode
  -- inside brackets, with `num_str`
  in_index : String → ParseMode

-- The two nested loops over the characters.
unfoldable pub parse_loop : ParseMode → String → List PathSegment
unfolding flush_index
parse_loop (in_key current_key) String.[] = flush_key current_key
parse_loop (in_index num_str) String.[] = flush_index num_str
parse_loop (in_key current_key) (String.◌∷◌ ch s) = elim (code ch == b'.') [
  | true ↦ flush_key current_key ++ parse_loop (in_key "") s
  | false ↦ elim (code ch == b'[') [
    | true ↦ flush_key current_key ++ parse_loop (in_index "") s
    | false ↦ parse_loop (in_key (push_char current_key ch)) s
  ]
]
parse_loop (in_index num_str) (String.◌∷◌ c s) = elim (code c == b']') [
  | true ↦ flush_index num_str ++ parse_loop (in_key "") s
  | false ↦ parse_loop (in_index (push_char num_str c)) s
]

unfoldable pub parse_json_path_to_segments : String → List PathSegment
unfolding parse_loop trim_dollars
parse_json_path_to_segments path = root ∷ parse_loop (in_key "") (trim_dollars path)

parse_test :
    parse_json_path_to_segments "$.data.items[*][12].id"
    ≡ root ∷ key "data" ∷ key "items" ∷ wildcard_array ∷ index 12 ∷ key "id" ∷ []
unfolding parse_json_path_to_segments
parse_test = refl

abbrev pub segment_matches : PathSegment → PathSegment → Bool
segment_matches root root = true
segment_matches (key k1) (key k2) = str_eq k1 k2
segment_matches (index i1) (index i2) = i1 == i2
segment_matches wildcard_array (index i) = true
segment_matches _ _ = false

-- The lengths are compared, then the segments in pairs.
unfoldable pub segments_match : List PathSegment → List PathSegment → Bool
segments_match [] [] = true
segments_match (r ∷ rule_segments) (c ∷ current) =
    segment_matches r c && segments_match rule_segments current
segments_match _ _ = false

abbrev pub segment_text : PathSegment → String
segment_text (key k) = "." <> k
segment_text (index i) = "[" <> show_ℕ i <> "]"
segment_text wildcard_array = "[*]"
segment_text root = ""

abbrev pub segments_text : List PathSegment → String
segments_text [] = ""
segments_text (s ∷ segments) = segment_text s <> segments_text segments

-- The first segment, the root, is skipped.
unfoldable pub segments_to_string_path : List PathSegment → String
segments_to_string_path [] = "$"
segments_to_string_path (s ∷ segments) = "$" <> segments_text segments
