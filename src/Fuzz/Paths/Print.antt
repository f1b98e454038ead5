-- ===== src/Fuzz/Paths/Print.antt =====
-- A path is printed from its segments; reading it back gives them.
use Prim.Native.Char.{code}
use Prim.Native.String.append
use mathlib.Core.List.{append-nil}
use text.Mathlib.TextLemmas.{append-nil as text_nil, append_assoc}
use apisnap.Common.{
  ℕ, ◌^◌, ◌<◌, ◌≡◌, ◌≢◌, refl, sym, ap, ◌∙◌, inl, inr, String, List, [], ◌∷◌, ◌++◌, All, ◌<>◌,
  show_ℕ, str_eq, arith, eq_iff, Bool-cases,
}
use apisnap.Engine.JitRule.{trim_dollars}
use apisnap.Fuzz.Paths.{
  PathSeg, key, index, push_key, push_index, in_key, in_index, parse_chars, parse_json_path,
  key_path, child_path,
}
use apisnap.Fuzz.Paths.Numerals.{parse_usize-show_ℕ, parse_chars-show_ℕ}

-- No character of the key is a dot or a bracket that opens.
abbrev pub PlainText : String → Type 0
PlainText String.[] = Unit
PlainText (String.◌∷◌ c s) = (code c ≢ b'.') × (code c ≢ b'[') × PlainText s

-- A segment that its text determines.
abbrev pub PlainSegment : PathSeg → Type 0
PlainSegment (key k) = (k ≢ "") × PlainText k
PlainSegment (index i) = i < 2 ^ 64

-- The path of the value that the segments lead to, below `path`.
abbrev pub path_below : String → List PathSeg → String
path_below path [] = path
path_below path (s ∷ segments) = path_below (child_path path s) segments

abbrev text_of : List PathSeg → String
text_of [] = ""
text_of (key k ∷ segments) = "." <> k <> text_of segments
text_of (index i ∷ segments) = "[" <> show_ℕ i <> "]" <> text_of segments

pub key_path_lem : (path k : String) → key_path path k ≡ path <> "." <> k
key_path_lem path k = elim (Bool-cases (str_eq path "$")) [
  | inl same ↦ rw (same, (eq_iff path "$").0 same) (append_assoc "$" "." k)
  | inr other ↦ rw other refl
]

path_below_lem :
    (segments : List PathSeg) (path : String) → path_below path segments ≡ path <> text_of segments
path_below_lem [] path = sym (text_nil path)
path_below_lem (key k ∷ segments) path =
    rw (path_below_lem segments (key_path path k), key_path_lem path k)
      (append_assoc path ("." <> k) (text_of segments)
        ∙ ap (λ r. path <> r) (append_assoc "." k (text_of segments)))
path_below_lem (index i ∷ segments) path =
    rw (path_below_lem segments (child_path path (index i))) (
      append_assoc path ("[" <> show_ℕ i <> "]") (text_of segments)
      ∙ ap (λ r. path <> r)
          (append_assoc "[" (show_ℕ i <> "]") (text_of segments)
            ∙ ap (λ r. "[" <> r) (append_assoc (show_ℕ i) "]" (text_of segments))))

parse_chars-key :
    (k current_key t : String)
    → PlainText k
    → parse_chars (in_key current_key) (k <> t) ≡ parse_chars (in_key (current_key <> k)) t
unfolding parse_chars
parse_chars-key String.[] cur t h = rw (append.nil t, text_nil cur) refl
parse_chars-key (String.◌∷◌ c k) cur t (h, g, plain) = rw (append.cons c k t) (
    ground (
      arith,
      h,
      g,
      parse_chars-key k (cur <> String.◌∷◌ c String.[]) t plain,
      append_assoc cur (String.◌∷◌ c String.[]) k,
      append.cons c String.[] k,
      append.nil k,
    ))

push_key-PlainSegment : (k : String) → k ≢ "" → push_key k ≡ key k ∷ []
push_key-PlainSegment String.[] h = absurd (h refl)
push_key-PlainSegment (String.◌∷◌ c k) h = refl

parse_chars-dot :
    (cur t : String)
    → parse_chars (in_key cur) ("." <> t) ≡ push_key cur ++ parse_chars (in_key "") t
unfolding parse_chars
parse_chars-dot cur t = rw (append.cons "." "" t, append.nil t) refl

parse_chars-open :
    (cur t : String)
    → parse_chars (in_key cur) ("[" <> t) ≡ push_key cur ++ parse_chars (in_index "") t
unfolding parse_chars
parse_chars-open cur t = rw (append.cons "[" "" t, append.nil t) refl

parse_chars-close :
    (num t : String)
    → parse_chars (in_index num) ("]" <> t) ≡ push_index num ++ parse_chars (in_key "") t
unfolding parse_chars
parse_chars-close num t = rw (append.cons "]" "" t, append.nil t) refl

push_index-show_ℕ : (i : ℕ) → i < 2 ^ 64 → push_index (show_ℕ i) ≡ index i ∷ []
unfolding push_index
push_index-show_ℕ i small = ground (arith, parse_usize-show_ℕ i small)

parse_chars-text_of :
    (segments : List PathSeg) (cur : String)
    → All PlainSegment segments
    → parse_chars (in_key cur) (text_of segments) ≡ push_key cur ++ segments
unfolding parse_chars
parse_chars-text_of [] cur plain = sym (append-nil (push_key cur))
parse_chars-text_of (key k ∷ segments) cur ((some_text, is_plain), plain) =
    parse_chars-dot cur (k <> text_of segments)
    ∙ ap (λ l. push_key cur ++ l)
        (parse_chars-key k "" (text_of segments) is_plain
          ∙ rw (append.nil k)
              (parse_chars-text_of segments k plain ∙ rw (push_key-PlainSegment k some_text) refl))
parse_chars-text_of (index i ∷ segments) cur (small, plain) =
    parse_chars-open cur (show_ℕ i <> "]" <> text_of segments)
    ∙ ap (λ l. push_key cur ++ l)
        (parse_chars-show_ℕ i "" ("]" <> text_of segments)
          ∙ rw (append.nil (show_ℕ i)) (
              parse_chars-close (show_ℕ i) (text_of segments)
              ∙ rw (push_index-show_ℕ i small)
                  (ap (λ l. index i ∷ l) (parse_chars-text_of segments "" plain))))

trim_dollars-text_of :
    (segments : List PathSeg) → trim_dollars ("$" <> text_of segments) ≡ text_of segments
unfolding trim_dollars
trim_dollars-text_of [] = refl
trim_dollars-text_of (key k ∷ segments) =
    rw
      (
        append.cons "$" "" ("." <> k <> text_of segments),
        append.nil ("." <> k <> text_of segments),
        append.cons "." "" (k <> text_of segments),
      )
      refl
trim_dollars-text_of (index i ∷ segments) =
    rw
      (
        append.cons "$" "" ("[" <> show_ℕ i <> "]" <> text_of segments),
        append.nil ("[" <> show_ℕ i <> "]" <> text_of segments),
        append.cons "[" "" (show_ℕ i <> "]" <> text_of segments),
      )
      refl

-- The path that the fuzzer writes for a list of keys and indices, starting from "$", is parsed to
-- exactly these segments, where each key is not empty and has no dot and no opening bracket, and
-- each index fits in 64 bits.
pub parse_json_path-path_below :
    (segments : List PathSeg)
    → All PlainSegment segments
    → parse_json_path (path_below "$" segments) ≡ segments
unfolding parse_json_path
parse_json_path-path_below segments plain =
    rw (path_below_lem segments "$", trim_dollars-text_of segments)
      (parse_chars-text_of segments "" plain)
