-- ===== src/Storage/Timeline/Chain.antt =====
-- The ledger as history: what is read back, and how commits hang together.
use mathlib.Core.List.{reverse, append_assoc, append-nil}
use apisnap.Common.{
  ℕ, zero, suc, ◌+◌, ◌-◌, max, ◌≡◌, refl, sym, inl, inr, String, Bool, true, some, List, [], ◌∷◌,
  ◌++◌, lookup, length, length-append, take, arith, Option-cases,
}
use apisnap.Storage.Timeline.{
  TimelineCommit, Line, blank, malformed, entry, Ledger, collect_commits, get_timeline, lines_of,
}

take-nil : {A : Type 0} → (n : ℕ) → take {A = A} n [] ≡ []
take-nil zero = refl
take-nil (suc n) = refl

module _ {F64 : Type 0} where
  abbrev pub commits_in : List (Line F64) → List (TimelineCommit F64)
  commits_in [] = []
  commits_in (blank ∷ lines) = commits_in lines
  commits_in (malformed ∷ lines) = commits_in lines
  commits_in (entry c ∷ lines) = c ∷ commits_in lines

  -- All commits of an endpoint, newest first.
  abbrev pub history : Ledger F64 → String → List (TimelineCommit F64)
  history files endpoint_name = commits_in (reverse (lines_of files endpoint_name))

  -- `k` is the room that is left.
  collect_commits_lem :
      (limit k : ℕ) (lines : List (Line F64)) (acc : List (TimelineCommit F64))
      → max 1 limit ≡ suc k + length acc
      → collect_commits limit lines acc ≡ acc ++ take (suc k) (commits_in lines)
  unfolding collect_commits
  collect_commits_lem limit k [] acc h = sym (append-nil acc)
  collect_commits_lem limit k (blank ∷ lines) acc h = collect_commits_lem limit k lines acc h
  collect_commits_lem limit k (malformed ∷ lines) acc h = collect_commits_lem limit k lines acc h
  collect_commits_lem limit zero (entry c ∷ lines) acc h =
      ground (arith, h, length-append acc (c ∷ []))
  collect_commits_lem limit (suc k) (entry c ∷ lines) acc h =
      let fits : max 1 limit ≡ suc k + length (acc ++ c ∷ []) =
        omega (arith, h, length-append acc (c ∷ [])) in
      let go = collect_commits_lem limit k lines (acc ++ c ∷ []) fits in
      let joined = append_assoc acc (c ∷ []) (take (suc k) (commits_in lines)) in
      ground (arith, fits, go, joined)

  -- Of a file that can be read, `get_timeline` returns the newest commits of the endpoint, newest first, as many as the limit
  -- allows, and lines that do not parse are passed over; a limit of zero allows one commit.
  pub get_timeline-take :
      (readable : String → Bool) (files : Ledger F64) (endpoint_name : String) (limit : ℕ)
      → readable endpoint_name ≡ true
      → get_timeline readable files endpoint_name limit
        ≡ some (take (max 1 limit) (history files endpoint_name))
  unfolding get_timeline
  get_timeline-take readable files endpoint_name limit can =
      elim (Option-cases (lookup endpoint_name files)) [
        | inl e ↦ ground (arith, e, take-nil {A = TimelineCommit F64} (max 1 limit))
        | inr (lines, e) ↦
            let k = max 1 limit - 1 in
            let room : max 1 limit ≡ suc k + 0 = omega arith in
            let go = collect_commits_lem limit k (reverse lines) [] room in
            let one : max 1 limit ≡ suc k = omega arith in ground (arith, can, e, go, one)
      ]
