-- ===== src/Fuzz/Paths.antt =====
-- src/fuzz/mutator.rs: the text of a path and its segments.
pub mod Numerals
pub mod Print
use Prim.Native.Char.{code}
use Prim.Native.String
use apisnap.Common.{
  ℕ, ◌≡◌, refl, String, Bool, true, false, Option, none, some, List, [], ◌∷◌, ◌++◌, ◌==◌, str_eq,
  ◌<>◌, at_index, if◌then◌else◌,
}
use apisnap.Engine.JitRule.{trim_dollars, push_char}
use apisnap.Engine.Masker.Segments.{parse_usize}

pub data PathSeg : Type 0 where
  key : String → PathSeg
  index : ℕ → PathSeg

abbrev pub push_key : String → List PathSeg
push_key String.[] = []
push_key current_key = key current_key ∷ []

unfoldable pub push_index : String → List PathSeg
unfolding parse_usize
push_index num_str = elim (parse_usize num_str) [ some idx ↦ index idx ∷ [] | none ↦ [] ]

-- Outside brackets with `current_key`, or inside them with `num_str`.
pub data Reading : Type 0 where
  in_key in_index : String → Reading

-- The loop over the characters, and the inner one up to the closing bracket.
unfoldable pub parse_chars : Reading → String → List PathSeg
unfolding push_index
parse_chars (in_key current_key) String.[] = push_key current_key
parse_chars (in_index num_str) String.[] = push_index num_str
parse_chars (in_key current_key) (String.◌∷◌ ch s) = elim (code ch == b'.') [
  | true ↦ push_key current_key ++ parse_chars (in_key "") s
  | false ↦ elim (code ch == b'[') [
    | true ↦ push_key current_key ++ parse_chars (in_index "") s
    | false ↦ parse_chars (in_key (push_char current_key ch)) s
  ]
]
parse_chars (in_index num_str) (String.◌∷◌ c s) = elim (code c == b']') [
  | true ↦ push_index num_str ++ parse_chars (in_key "") s
  | false ↦ parse_chars (in_index (push_char num_str c)) s
]

unfoldable pub parse_json_path : String → List PathSeg
unfolding trim_dollars parse_chars
parse_json_path path = parse_chars (in_key "") (trim_dollars path)

-- How `mutate_recursive` writes the path of a child.
abbrev pub key_path : String → String → String
key_path current_path k = if str_eq current_path "$" then "$." <> k else current_path <> "." <> k

abbrev pub child_path : String → PathSeg → String
child_path current_path (key k) = key_path current_path k
child_path current_path (index idx) = at_index current_path idx

parsed : parse_json_path "$.user.tags[12].id" ≡ key "user" ∷ key "tags" ∷ index 12 ∷ key "id" ∷ []
unfolding parse_json_path
parsed = refl

-- A dot in a key makes two segments of it.
parsed_dot : parse_json_path (key_path "$" "a.b") ≡ key "a" ∷ key "b" ∷ []
unfolding parse_json_path
parsed_dot = refl
