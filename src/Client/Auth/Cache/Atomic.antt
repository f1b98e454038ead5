-- ===== src/Client/Auth/Cache/Atomic.antt =====
-- The interleaved calls against calls that happen at once.
use apisnap.Common.{
  ℕ, ◌+◌, ◌≡◌, ◌≢◌, ◌⊎◌, refl, sym, ap, subst, ◌∙◌, inl, inr, Option, none, some, true, ◌==◌,
  ==_iff, if◌then◌else◌, arith, Bool-cases, Option-cases, Result, ok, String,
}
use apisnap.Error.{ApiSnapError}
use apisnap.Client.Auth.{TokenCache, TokenAnswer, fresh_token, store_answer}
use apisnap.Client.Auth.Cache.{
  Phase, calling, waiting, fetching, returned, Shared, set_phase, read_path, write_path,
  answer_path, Effect, silent, answered, Step, ticks, calls, reads, writes, answers, new_shared,
}

-- A call that nothing comes between, at one time: the answer is used only where it is asked for.
unfoldable pub get_valid_token :
    String → ℕ → TokenAnswer → Option TokenCache → Result ApiSnapError String × Option TokenCache
unfolding store_answer
get_valid_token token_url now answer cache = elim (fresh_token now cache) [
  | some token ↦ (ok token, cache)
  | none ↦ store_answer token_url now answer cache
]

-- The task that has the lock is the one that asks for a token, and none is cached that is fresh.
pub record IsLocked (s : Shared) : Type 0 where
  pub fetching_writer : (t : ℕ) → s.phase t ≡ fetching → s.writer ≡ some t
  pub writer_fetching : (t : ℕ) → s.writer ≡ some t → s.phase t ≡ fetching
  pub stale : (t : ℕ) → s.writer ≡ some t → fresh_token s.now s.cache ≡ none

pub new_shared-IsLocked : (now : ℕ) → IsLocked (new_shared now)
new_shared-IsLocked now = record {
  fetching_writer = λ t h. cc;
  writer_fetching = λ t h. cc;
  stale = λ t h. cc;
}

fresh_token-later :
    (now d : ℕ) (cache : Option TokenCache)
    → fresh_token now cache ≡ none
    → fresh_token (now + d) cache ≡ none
fresh_token-later now d none h = refl
fresh_token-later now d (some c) h = ground (arith, h)

-- Setting the phase of a task that is not fetching, with the lock free or another's.
moved-IsLocked :
    (s : Shared) (t : ℕ) (p : Phase)
    → IsLocked s
    → s.phase t ≢ fetching
    → p ≢ fetching
    → IsLocked (record s { phase = set_phase t p s.phase })
moved-IsLocked s t p locked was is = record {
  fetching_writer = λ u h. ground (arith, h, locked.fetching_writer u, is);
  writer_fetching = λ u h. ground (arith, was, locked.writer_fetching u h, ==_iff t u);
  stale = λ u h. locked.stale u h;
}

abbrev pub moved : ℕ → Phase → Shared → Shared
moved t p s = record s { phase = set_phase t p s.phase }

pub read_path-stale :
    (t : ℕ) (s : Shared) → fresh_token s.now s.cache ≡ none → moved t waiting s ≡ read_path t s
unfolding read_path
read_path-stale t s h =
    ap (λ o. elim o [ some token ↦ moved t (returned (ok token)) s | none ↦ moved t waiting s ])
      (sym h)

pub read_path-fresh :
    (t : ℕ) (s : Shared) (token : String)
    → fresh_token s.now s.cache ≡ some token
    → moved t (returned (ok token)) s ≡ read_path t s
unfolding read_path
read_path-fresh t s token h =
    ap (λ o. elim o [ some token ↦ moved t (returned (ok token)) s | none ↦ moved t waiting s ])
      (sym h)

abbrev pub locking : ℕ → Shared → Shared
locking t s = record s { writer = some t; phase = set_phase t fetching s.phase }

pub write_path-stale :
    (t : ℕ) (s : Shared) → fresh_token s.now s.cache ≡ none → locking t s ≡ write_path t s
unfolding write_path
write_path-stale t s h =
    ap (λ o. elim o [ some token ↦ moved t (returned (ok token)) s | none ↦ locking t s ]) (sym h)

pub write_path-fresh :
    (t : ℕ) (s : Shared) (token : String)
    → fresh_token s.now s.cache ≡ some token
    → moved t (returned (ok token)) s ≡ write_path t s
unfolding write_path
write_path-fresh t s token h =
    ap (λ o. elim o [ some token ↦ moved t (returned (ok token)) s | none ↦ locking t s ]) (sym h)

locking-IsLocked :
    (t : ℕ) (s : Shared)
    → IsLocked s
    → s.writer ≡ none
    → fresh_token s.now s.cache ≡ none
    → IsLocked (locking t s)
locking-IsLocked t s locked free stale = record {
  fetching_writer = λ u h. ground (arith, h, free, locked.fetching_writer u, ==_iff t u);
  writer_fetching = λ u h. ground (arith, h, ==_iff t u);
  stale = λ u h. stale;
}

answer_path-IsLocked :
    (url : String) (t : ℕ) (answer : TokenAnswer) (s : Shared)
    → IsLocked s
    → s.phase t ≡ fetching
    → IsLocked (answer_path url t answer s)
unfolding answer_path
answer_path-IsLocked url t answer s locked at = record {
  fetching_writer = λ u h.
      ground (arith, h, at, locked.fetching_writer u, locked.fetching_writer t at, ==_iff t u);
  writer_fetching = λ u h. cc;
  stale = λ u h. cc;
}

module _ (url : String) where
  -- Every step keeps the lock in order: a task that has it is asking for a token, no other task is,
  -- and no fresh token is cached meanwhile.
  pub Step-IsLocked : {s m : Shared} {e : Effect} → Step url s e m → IsLocked s → IsLocked m
  Step-IsLocked {s = s} (ticks d) locked = record {
    fetching_writer = locked.fetching_writer;
    writer_fetching = locked.writer_fetching;
    stale = λ u h. fresh_token-later s.now d s.cache (locked.stale u h);
  }
  Step-IsLocked {s = s} (calls t r at) locked =
      moved-IsLocked s t calling locked (λ e. cc) (λ e. cc)
  Step-IsLocked {s = s} (reads t at free) locked = elim (Option-cases (fresh_token s.now s.cache)) [
    | inl stale ↦
        subst IsLocked (read_path-stale t s stale)
          (moved-IsLocked s t waiting locked (λ e. cc) (λ e. cc))
    | inr (token, e) ↦
        subst IsLocked (read_path-fresh t s token e)
          (moved-IsLocked s t (returned (ok token)) locked (λ e. cc) (λ e. cc))
  ]
  Step-IsLocked {s = s} (writes t at free) locked =
      elim (Option-cases (fresh_token s.now s.cache)) [
        | inl stale ↦
            subst IsLocked (write_path-stale t s stale) (locking-IsLocked t s locked free stale)
        | inr (token, e) ↦
            subst IsLocked (write_path-fresh t s token e)
              (moved-IsLocked s t (returned (ok token)) locked (λ e. cc) (λ e. cc))
      ]
  Step-IsLocked {s = s} (answers t answer at) locked = answer_path-IsLocked url t answer s locked at

get_valid_token-fresh :
    (url : String) (now : ℕ) (answer : TokenAnswer) (cache : Option TokenCache) (token : String)
    → fresh_token now cache ≡ some token
    → get_valid_token url now answer cache ≡ (ok token, cache)
unfolding get_valid_token
get_valid_token-fresh url now answer cache token h =
    ap (λ o. elim o [ some token ↦ (ok token, cache) | none ↦ store_answer url now answer cache ]) h

get_valid_token-stale :
    (url : String) (now : ℕ) (answer : TokenAnswer) (cache : Option TokenCache)
    → fresh_token now cache ≡ none
    → get_valid_token url now answer cache ≡ store_answer url now answer cache
unfolding get_valid_token
get_valid_token-stale url now answer cache h =
    ap (λ o. elim o [ some token ↦ (ok token, cache) | none ↦ store_answer url now answer cache ]) h

-- What a step is against calls that happen at once. Where no answer comes, the cache stays as it is,
-- and a result that a task gets is the one of a call at once, whatever the endpoint would answer.
-- Where an answer comes, one task gets the result of a call at once with this answer, which leaves the
-- cache as the step does, and the other tasks stay where they are.
unfoldable pub Refines : String → Shared → Effect → Shared → Type 0
Refines url s silent m =
    ((t : ℕ) (r : Result ApiSnapError String)
      → m.phase t ≡ returned r
      → (s.phase t ≡ returned r)
        ⊎ ((answer : TokenAnswer) → get_valid_token url s.now answer s.cache ≡ (r, m.cache)))
    × (m.cache ≡ s.cache)
Refines url s (answered n answer) m =
    (t : ℕ) × (s.phase t ≡ fetching)
    × (n ≡ s.now)
    × (m.phase t ≡ returned (get_valid_token url n answer s.cache).0)
    × (m.cache ≡ (get_valid_token url n answer s.cache).1)
    × ((u : ℕ) → u ≢ t → m.phase u ≡ s.phase u)

unreturned-Refines :
    (url : String) (s m : Shared) (t : ℕ) (p : Phase)
    → ((r : Result ApiSnapError String) → p ≢ returned r)
    → m.phase ≡ set_phase t p s.phase
    → m.cache ≡ s.cache
    → Refines url s silent m
unfolding Refines
unreturned-Refines url s m t p pending phases same =
    (λ u r h. ground (arith, pending r, ap (λ f. f u) phases, h), same)

returned_inj : (q r : Result ApiSnapError String) → returned q ≡ returned r → q ≡ r
returned_inj q r h = cc

fresh-Refines :
    (url : String) (s : Shared) (t : ℕ) (token : String)
    → fresh_token s.now s.cache ≡ some token
    → Refines url s silent (moved t (returned (ok token)) s)
unfolding Refines
fresh-Refines url s t token fresh = (
  λ u r h. elim (Bool-cases (t == u)) [
    | inl here ↦ inr (λ answer.
        get_valid_token-fresh url s.now answer s.cache token fresh
        ∙ ap (λ x. (x, s.cache)) (returned_inj (ok token) r (ground (arith, here, h))))
    | inr other ↦ inl (ground (arith, other, h))
  ],
  refl,
)

answer_path-Refines :
    (url : String) (t : ℕ) (answer : TokenAnswer) (s : Shared)
    → s.phase t ≡ fetching
    → fresh_token s.now s.cache ≡ none
    → Refines url s (answered s.now answer) (answer_path url t answer s)
unfolding answer_path Refines
answer_path-Refines url t answer s at stale =
    let once = get_valid_token-stale url s.now answer s.cache stale in
    (
      t,
      at,
      refl,
      ap (λ b. if b then returned (store_answer url s.now answer s.cache).0 else s.phase t)
            (eq_refl_ℕ t)
          ∙ ap (λ x. returned x.0) (sym once),
      ap (λ x. x.1) (sym once),
      λ u other. elim (Bool-cases (t == u)) [
        | inl here ↦ absurd (other (sym ((==_iff t u).0 here)))
        | inr apart ↦ ground (arith, apart)
      ],
    )
  where
    eq_refl_ℕ : (n : ℕ) → (n == n) ≡ true
    eq_refl_ℕ n = (==_iff n n).1 refl

module _ (url : String) where
  Step-Refines_once : {s m : Shared} {e : Effect} → Step url s e m → IsLocked s → Refines url s e m
  unfolding Refines
  Step-Refines_once {s = s} (ticks d) locked = (λ u r h. inl h, refl)
  Step-Refines_once {s = s} (calls t r at) locked =
      unreturned-Refines url s (moved t calling s) t calling (λ r e. cc) refl refl
  Step-Refines_once {s = s} (reads t at free) locked =
      elim (Option-cases (fresh_token s.now s.cache)) [
        | inl stale ↦
            subst (Refines url s silent) (read_path-stale t s stale)
              (unreturned-Refines url s (moved t waiting s) t waiting (λ r e. cc) refl refl)
        | inr (token, e) ↦
            subst (Refines url s silent) (read_path-fresh t s token e)
              (fresh-Refines url s t token e)
      ]
  Step-Refines_once {s = s} (writes t at free) locked =
      elim (Option-cases (fresh_token s.now s.cache)) [
        | inl stale ↦
            subst (Refines url s silent) (write_path-stale t s stale)
              (unreturned-Refines url s (locking t s) t fetching (λ r e. cc) refl refl)
        | inr (token, e) ↦
            subst (Refines url s silent) (write_path-fresh t s token e)
              (fresh-Refines url s t token e)
      ]
  Step-Refines_once {s = s} (answers t answer at) locked =
      answer_path-Refines url t answer s at (locked.stale t (locked.fetching_writer t at))

  -- Every step of the interleaved tasks, from a state where the lock is in order, leaves the lock in
  -- order, and refines calls that happen at once: without an answer of the endpoint the cache stays
  -- as it is, and a result that a task gets is the one that such a call gives at this time on this
  -- cache, whatever the endpoint would answer; with an answer, the task that asked gets the result
  -- of such a call with this answer, the cache becomes the one that the call leaves, and no other
  -- task moves. In order means: the task that has the lock is the one that asks for a token, and no
  -- fresh token is cached meanwhile.
  pub Step-Refines :
      {s m : Shared} {e : Effect} → Step url s e m → IsLocked s → Refines url s e m × IsLocked m
  Step-Refines step locked = (Step-Refines_once step locked, Step-IsLocked url step locked)
