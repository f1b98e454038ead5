-- ===== src/Client/Auth/Cache/Once.antt =====
-- How often a token is asked for, and that no task waits for ever.
use apisnap.Common.{
  ℕ, ◌+◌, ◌≤◌, ◌≡◌, ◌≢◌, ◌⊎◌, refl, subst, ◌∙◌, inl, inr, none, some, List, [], ◌∷◌, All, arith,
  Option-cases, Result, String,
}
use apisnap.Error.{ApiSnapError}
use apisnap.Client.Auth.{
  TokenCache, TokenAnswer, no_connection, refused, unreadable, granted, fresh_token, store_answer,
  from_secs, expires_in_of,
}
use apisnap.Client.Auth.Cache.{
  Phase, calling, waiting, fetching, returned, Shared, answer_path, Effect, silent, answered, Step,
  ticks, calls, reads, writes, answers, Run, stays, silently, asking, new_shared,
}
use apisnap.Client.Auth.Cache.Atomic.{
  IsLocked, new_shared-IsLocked, Step-IsLocked, read_path-stale, read_path-fresh, write_path-stale,
  write_path-fresh,
}

-- When the token of an answer expires.
abbrev pub expiry : ℕ → TokenAnswer → ℕ
expiry now (granted token expires_in) = now + from_secs (expires_in_of expires_in)
expiry now _ = 0

-- An answer comes to whom asks, and a token is asked for only in the last 30 seconds of those before.
abbrev pub Spaced : List (ℕ × TokenAnswer) → Type 0
Spaced [] = Unit
Spaced ((now, answer) ∷ l) =
    All (λ (later, _). expiry now answer ≤ later + from_secs 30) l × Spaced l

-- A token that expires at `b` or later is cached, or the last 30 seconds before `b` have come.
abbrev Covered : ℕ → Shared → Type 0
Covered b s =
    (b ≤ s.now + from_secs 30) ⊎ ((c : TokenCache) × (s.cache ≡ some c) × (b ≤ c.expires_at))

stale-Covered :
    (b : ℕ) (s : Shared) → Covered b s → fresh_token s.now s.cache ≡ none → b ≤ s.now + from_secs 30
stale-Covered b s (inl h) stale = h
stale-Covered b s (inr (c, e, h)) stale = ground (arith, e, h, stale)

-- What keeps the clock and the cache.
same-Covered :
    (b : ℕ) (s m : Shared) → m.now ≡ s.now → m.cache ≡ s.cache → Covered b s → Covered b m
same-Covered b s m clock cache (inl h) = inl (omega (arith, clock, h))
same-Covered b s m clock cache (inr (c, e, h)) = inr (c, cache ∙ e, h)

answer_path-clock :
    (url : String) (t : ℕ) (answer : TokenAnswer) (s : Shared)
    → (answer_path url t answer s).now ≡ s.now
unfolding answer_path
answer_path-clock url t answer s = refl

answer_path-Covered :
    (url : String) (t : ℕ) (answer : TokenAnswer) (s : Shared)
    → Covered (expiry s.now answer) (answer_path url t answer s)
unfolding answer_path store_answer
answer_path-Covered url t no_connection s = inl (omega arith)
answer_path-Covered url t (refused status body) s = inl (omega arith)
answer_path-Covered url t (unreadable message) s = inl (omega arith)
answer_path-Covered url t (granted token expires_in) s = inr (_, refl, omega arith)

-- Where an answer comes, no fresh token is cached, and then its own is, where it grants one.
abbrev Asked : Effect → Shared → Shared → Type 0
Asked silent s m = Unit
Asked (answered now answer) s m =
    (now ≡ s.now) × (fresh_token s.now s.cache ≡ none) × Covered (expiry now answer) m

module _ (url : String) where
  Step-Asked : {s m : Shared} {e : Effect} → Step url s e m → IsLocked s → Asked e s m
  Step-Asked (ticks d) locked = tt
  Step-Asked (calls t r at) locked = tt
  Step-Asked (reads t at free) locked = tt
  Step-Asked (writes t at free) locked = tt
  Step-Asked {s = s} (answers t answer at) locked =
      (refl, locked.stale t (locked.fetching_writer t at), answer_path-Covered url t answer s)

  Step-Covered :
      (b : ℕ) {s m : Shared} {e : Effect} → Step url s e m → IsLocked s → Covered b s → Covered b m
  Step-Covered b {s = s} (ticks d) locked (inl h) = inl (omega (arith, h))
  Step-Covered b {s = s} (ticks d) locked (inr h) = inr h
  Step-Covered b {s = s} (calls t r at) locked h = h
  Step-Covered b {s = s} (reads t at free) locked h =
      elim (Option-cases (fresh_token s.now s.cache)) [
        | inl stale ↦ subst (Covered b) (read_path-stale t s stale) h
        | inr (token, e) ↦ subst (Covered b) (read_path-fresh t s token e) h
      ]
  Step-Covered b {s = s} (writes t at free) locked h =
      elim (Option-cases (fresh_token s.now s.cache)) [
        | inl stale ↦ subst (Covered b) (write_path-stale t s stale) h
        | inr (token, e) ↦ subst (Covered b) (write_path-fresh t s token e) h
      ]
  Step-Covered b {s = s} (answers t answer at) locked h = inl (
      rw (answer_path-clock url t answer s)
        (stale-Covered b s h (locked.stale t (locked.fetching_writer t at))))

  later_answers :
      (b : ℕ) {s e : Shared} {l : List (ℕ × TokenAnswer)}
      → Run url s l e
      → IsLocked s
      → Covered b s
      → All (λ (later, _). b ≤ later + from_secs 30) l
  later_answers b stays locked h = tt
  later_answers b (silently step run) locked h =
      later_answers b run (Step-IsLocked url step locked) (Step-Covered b step locked h)
  later_answers b {s = s} (asking now answer step run) locked h =
      let (clock, stale, _) = Step-Asked step locked in
      (
        omega (arith, clock, stale-Covered b s h stale),
        later_answers b run (Step-IsLocked url step locked) (Step-Covered b step locked h),
      )

  Run-Spaced : {s e : Shared} {l : List (ℕ × TokenAnswer)} → Run url s l e → IsLocked s → Spaced l
  Run-Spaced stays locked = tt
  Run-Spaced (silently step run) locked = Run-Spaced run (Step-IsLocked url step locked)
  Run-Spaced (asking now answer step run) locked =
      let (_, _, covered) = Step-Asked step locked in
      let kept = Step-IsLocked url step locked in
      (later_answers (expiry now answer) run kept covered, Run-Spaced run kept)

  -- However many tasks call on one new cache, and however their steps and the clock's mix: after an
  -- answer that grants a token for some time, no further answer of the token endpoint comes before
  -- the last 30 seconds of that time.
  pub new_shared-Spaced :
      (now : ℕ) {e : Shared} {l : List (ℕ × TokenAnswer)} → Run url (new_shared now) l e → Spaced l
  new_shared-Spaced now run = Run-Spaced run (new_shared-IsLocked now)

  Run-IsLocked :
      {s e : Shared} {l : List (ℕ × TokenAnswer)} → Run url s l e → IsLocked s → IsLocked e
  Run-IsLocked stays locked = locked
  Run-IsLocked (silently step run) locked = Run-IsLocked run (Step-IsLocked url step locked)
  Run-IsLocked (asking now answer step run) locked =
      Run-IsLocked run (Step-IsLocked url step locked)

  -- The next step of a task, or of the one that it waits for; it is not the clock's.
  abbrev pub Moves : ℕ → Shared → Type 0
  Moves t s =
      ((s.phase t ≡ calling) × (s.writer ≡ none))
      ⊎ ((s.phase t ≡ waiting) × (s.writer ≡ none))
      ⊎ ((u : ℕ) × (s.phase u ≡ fetching))

  -- In every state that a run on a new cache reaches, a task that has no result yet can take its
  -- next step, or some task is at the token endpoint, whose answer gives the lock back.
  pub new_shared-Moves :
      (now : ℕ) {s : Shared} {l : List (ℕ × TokenAnswer)} (t : ℕ)
      → Run url (new_shared now) l s
      → ((r : Result ApiSnapError String) → s.phase t ≢ returned r)
      → Moves t s
  new_shared-Moves now {s = s} t run pending = go (s.phase t) refl
    where
      locked : IsLocked s
      locked = Run-IsLocked run (new_shared-IsLocked now)

      free : (p : Phase) → s.phase t ≡ p → (s.writer ≡ none) ⊎ ((u : ℕ) × (s.phase u ≡ fetching))
      free p e = elim (Option-cases s.writer) [
        | inl none_has ↦ inl none_has
        | inr (u, has) ↦ inr (u, locked.writer_fetching u has)
      ]

      go : (p : Phase) → s.phase t ≡ p → Moves t s
      go calling e = elim (free calling e) [ inl h ↦ inl (e, h) | inr h ↦ inr (inr h) ]
      go waiting e = elim (free waiting e) [ inl h ↦ inr (inl (e, h)) | inr h ↦ inr (inr h) ]
      go fetching e = inr (inr (t, e))
      go (returned r) e = absurd (pending r e)
