-- ===== src/Wasm/ShadowFilter/Stream.antt =====
-- The bodies that arrive chunk by chunk, the chunks of the two clusters in any order.
use mathlib.Core.List.{append_assoc, append-nil}
use apisnap.Common.{
  ℕ, ◌≡◌, sym, ◌∙◌, arith, String, Bool, true, false, Bool-cases, inl, inr, Option, List, [], ◌∷◌,
  ◌++◌, str_eq, if◌then◌else◌,
}
use apisnap.Json.{Value}
use apisnap.Wasm.ShadowFilter.{ShadowSession, new_session, on_body_chunk, check_structural_drift}

-- The arguments of one call of `on_body_chunk`.
pub record Chunk : Type 0 where
  pub role : String
  pub bytes : List ℕ
  pub end_of_stream : Bool

-- The calls, one after the other.
abbrev pub receive : List Chunk → ShadowSession → ShadowSession
receive [] s = s
receive (c ∷ chunks) s = receive chunks (on_body_chunk c.role c.bytes c.end_of_stream s)

-- What the chunks of the candidate, or of the other cluster, come to.
abbrev pub body_of : Bool → List Chunk → List ℕ
body_of candidate [] = []
body_of candidate (c ∷ chunks) =
    (if candidate
      then (if str_eq c.role "candidate" then c.bytes else [])
      else (if str_eq c.role "candidate" then [] else c.bytes))
    ++ body_of candidate chunks

receive-candidate_body :
    (chunks : List Chunk) (s : ShadowSession)
    → (receive chunks s).candidate_body ≡ s.candidate_body ++ body_of true chunks
unfolding on_body_chunk
receive-candidate_body [] s = sym (append-nil s.candidate_body)
receive-candidate_body (c ∷ chunks) s =
    let next = on_body_chunk c.role c.bytes c.end_of_stream s in
    let rest = receive-candidate_body chunks next in
    elim (Bool-cases (str_eq c.role "candidate")) [
      | inl here ↦
          ground (arith, rest, here, append_assoc s.candidate_body c.bytes (body_of true chunks))
      | inr other ↦ ground (arith, rest, other)
    ]

receive-baseline_body :
    (chunks : List Chunk) (s : ShadowSession)
    → (receive chunks s).baseline_body ≡ s.baseline_body ++ body_of false chunks
unfolding on_body_chunk
receive-baseline_body [] s = sym (append-nil s.baseline_body)
receive-baseline_body (c ∷ chunks) s =
    let next = on_body_chunk c.role c.bytes c.end_of_stream s in
    let rest = receive-baseline_body chunks next in
    elim (Bool-cases (str_eq c.role "candidate")) [
      | inl here ↦ ground (arith, rest, here)
      | inr other ↦
          ground (arith, rest, other, append_assoc s.baseline_body c.bytes (body_of false chunks))
    ]

module _ {N : Type 0} (parse : List ℕ → Option (Value N)) where
  check-bodies :
      (s t : ShadowSession)
      → s.baseline_body ≡ t.baseline_body
      → s.candidate_body ≡ t.candidate_body
      → check_structural_drift parse s ≡ check_structural_drift parse t
  unfolding check_structural_drift
  check-bodies s t baseline candidate = ground (arith, baseline, candidate)

  -- How the bodies are cut into chunks, and how the chunks of the two clusters are mixed, does not
  -- matter: two sessions whose clusters sent the same bytes come to the same verdict or error.
  pub check_structural_drift-receive :
      (i j : ℕ) (chunks chunks' : List Chunk)
      → body_of false chunks ≡ body_of false chunks'
      → body_of true chunks ≡ body_of true chunks'
      → check_structural_drift parse (receive chunks (new_session i))
        ≡ check_structural_drift parse (receive chunks' (new_session j))
  check_structural_drift-receive i j chunks chunks' baseline candidate =
      check-bodies (receive chunks (new_session i)) (receive chunks' (new_session j))
        (receive-baseline_body chunks (new_session i)
          ∙ (baseline ∙ sym (receive-baseline_body chunks' (new_session j))))
        (receive-candidate_body chunks (new_session i)
          ∙ (candidate ∙ sym (receive-candidate_body chunks' (new_session j))))
