-- ===== src/Witnesses/Tokens.antt =====
-- The theorems on the token cache, applied: two tasks, and tokens that live for ten seconds.
use apisnap.Common.{◌≢◌, refl, String, some, [], ◌∷◌, Result}
use apisnap.Error.{ApiSnapError}
use apisnap.Client.Auth.{TokenAnswer, granted, store_answer}
use apisnap.Client.Auth.Cache.{
  returned, Shared, read_path, write_path, answer_path, Step, reads, writes, answers, Run, stays,
  silently, asking, new_shared, answered,
}
use apisnap.Client.Auth.Cache.Atomic.{
  IsLocked, new_shared-IsLocked, Step-IsLocked, Refines, Step-Refines,
}
use apisnap.Client.Auth.Cache.Once.{Spaced, new_shared-Spaced, Moves, new_shared-Moves}

abbrev url : String
url = "https://auth.example.com/token"

abbrev short : TokenAnswer
short = granted "abc" (some 10)

abbrev s0 : Shared
s0 = new_shared 0

abbrev s1 : Shared
s1 = read_path 1 s0

abbrev s2 : Shared
s2 = write_path 1 s1

abbrev s3 : Shared
s3 = answer_path url 1 short s2

abbrev s4 : Shared
s4 = read_path 2 s3

abbrev s5 : Shared
s5 = write_path 2 s4

abbrev s6 : Shared
s6 = answer_path url 2 short s5

asked : Run url s0 ((0, short) ∷ (0, short) ∷ []) s6
unfolding read_path write_path answer_path store_answer
asked = silently (reads 1 refl refl) (
    silently (writes 1 refl refl) (
      asking 0 short (answers 1 short refl) (
        silently (reads 2 refl refl)
          (silently (writes 2 refl refl) (asking 0 short (answers 2 short refl) stays)))))

new_shared-Spaced_example : Spaced ((0, short) ∷ (0, short) ∷ [])
new_shared-Spaced_example = new_shared-Spaced url 0 asked

still_calling : (r : Result ApiSnapError String) → s6.phase 3 ≢ returned r
unfolding read_path write_path answer_path store_answer
still_calling r e = cc

new_shared-Moves_example : Moves url 3 s6
new_shared-Moves_example = new_shared-Moves url 0 3 asked still_calling

locked : IsLocked s2
unfolding read_path write_path
locked =
    Step-IsLocked url (writes 1 refl refl)
      (Step-IsLocked url (reads 1 refl refl) (new_shared-IsLocked 0))

answered_step : Step url s2 (answered 0 short) s3
unfolding read_path write_path answer_path
answered_step = answers 1 short refl

Step-Refines_example : Refines url s2 (answered 0 short) s3 × IsLocked s3
Step-Refines_example = Step-Refines url answered_step locked
