-- ===== src/Client/Auth/Cache.antt =====
-- src/client/auth.rs: `get_valid_token`, called by any number of tasks on one cache behind a
-- read-write lock. A step is what a task does between two awaits; the clock may tick between them.
-- The read lock is held within one step only, so the state records the write lock alone.
pub mod Atomic
pub mod Once
use apisnap.Common.{
  ℕ, ◌+◌, ◌≡◌, refl, Bool, true, false, Option, none, some, List, [], ◌∷◌, ◌==◌, Result, ok, err,
  String, if◌then◌else◌,
}
use apisnap.Error.{ApiSnapError}
use apisnap.Client.Auth.{TokenCache, TokenAnswer, fresh_token, store_answer}

-- Where a task is.
pub data Phase : Type 0 where
  -- before the read lock
  calling : Phase
  -- before the write lock
  waiting : Phase
  -- with the write lock, at the token endpoint
  fetching : Phase
  returned : Result ApiSnapError String → Phase

pub record Shared : Type 0 where
  pub now : ℕ
  pub cache : Option TokenCache
  -- the task that has the write lock
  pub writer : Option ℕ
  pub phase : ℕ → Phase

abbrev pub set_phase : ℕ → Phase → (ℕ → Phase) → ℕ → Phase
set_phase t p phase u = if t == u then p else phase u

abbrev pub tick : ℕ → Shared → Shared
tick d s = record s { now = s.now + d }

-- The fast path.
unfoldable pub read_path : ℕ → Shared → Shared
read_path t s = elim (fresh_token s.now s.cache) [
  | some token ↦ record s { phase = set_phase t (returned (ok token)) s.phase }
  | none ↦ record s { phase = set_phase t waiting s.phase }
]

-- The write lock is taken, and the cache is looked at again.
unfoldable pub write_path : ℕ → Shared → Shared
write_path t s = elim (fresh_token s.now s.cache) [
  | some token ↦ record s { phase = set_phase t (returned (ok token)) s.phase }
  | none ↦ record s { writer = some t; phase = set_phase t fetching s.phase }
]

-- The answer comes, and the lock is released.
unfoldable pub answer_path : String → ℕ → TokenAnswer → Shared → Shared
unfolding store_answer
answer_path token_url t answer s =
    let (result, cache) = store_answer token_url s.now answer s.cache in
    record {
      now = s.now;
      cache = cache;
      writer = none;
      phase = set_phase t (returned result) s.phase;
    }

-- What happens to the cache in a step: a token is asked for and the answer comes at a time, or
-- nothing.
pub data Effect : Type 0 where
  silent : Effect
  answered : ℕ → TokenAnswer → Effect

module _ (token_url : String) where
  pub data Step : Shared → Effect → Shared → Type 0 where
    ticks : {s : Shared} (d : ℕ) → Step s silent (tick d s)
    calls :
        {s : Shared} (t : ℕ) (r : Result ApiSnapError String)
        → s.phase t ≡ returned r
        → Step s silent (record s { phase = set_phase t calling s.phase })
    reads :
        {s : Shared} (t : ℕ) → s.phase t ≡ calling → s.writer ≡ none → Step s silent (read_path t s)
    writes :
        {s : Shared} (t : ℕ)
        → s.phase t ≡ waiting
        → s.writer ≡ none
        → Step s silent (write_path t s)
    answers :
        {s : Shared} (t : ℕ) (answer : TokenAnswer)
        → s.phase t ≡ fetching
        → Step s (answered s.now answer) (answer_path token_url t answer s)

  -- A run, with the answers that came in it, in their order.
  pub data Run : Shared → List (ℕ × TokenAnswer) → Shared → Type 0 where
    stays : {s : Shared} → Run s [] s
    silently :
        {s m e : Shared} {l : List (ℕ × TokenAnswer)} → Step s silent m → Run m l e → Run s l e
    asking :
        {s m e : Shared} {l : List (ℕ × TokenAnswer)} (n : ℕ) (answer : TokenAnswer)
        → Step s (answered n answer) m
        → Run m l e
        → Run s ((n, answer) ∷ l) e

-- No call yet: nothing cached, no lock taken.
abbrev pub new_shared : ℕ → Shared
new_shared now = record { now = now; cache = none; writer = none; phase = λ t. calling }
