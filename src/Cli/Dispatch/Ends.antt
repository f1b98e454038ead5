-- ===== src/Cli/Dispatch/Ends.antt =====
-- The loop of the dispatch comes to an end, in as many rounds as there are endpoints.
use apisnap.Common.{
  ℕ, zero, suc, ◌+◌, ◌<◌, ◌≡◌, refl, ap, ◌∙◌, arith, some, Option-cases, inl, inr, length-append,
  List, [], ◌∷◌, ◌++◌, take, drop, length,
}
use apisnap.Cli.Dispatch.{
  Pool, Event, joined, panicked, take_task, start, spawn_next, join_next, join_all,
  dispatch_requests,
}
use apisnap.Cli.Dispatch.Complete.{length-take_task}

-- Any task of the set may end, with any response.
take_task-in_range :
    {A : Type 0} (i : ℕ) (xs : List A)
    → i < length xs
    → (x : A) × (rest : List A) × (take_task i xs ≡ some (x, rest))
take_task-in_range i [] h = absurd (omega (arith, h))
take_task-in_range zero (x ∷ xs) h = (x, xs, refl)
take_task-in_range (suc i) (x ∷ xs) h =
    let (y, rest, there) = take_task-in_range i xs (omega (arith, h)) in
    (y, x ∷ rest, ground (arith, there))

module _ {E R : Type 0} where
  -- The rounds to come.
  abbrev pub remaining : Pool E R → ℕ
  remaining p = length p.queue + length p.join_set

  remaining-spawn_next :
      (queue tasks : List E) (results : List (E × R))
      → remaining (spawn_next queue tasks results) ≡ length queue + length tasks
  unfolding spawn_next
  remaining-spawn_next [] tasks results = refl
  remaining-spawn_next (next_ep ∷ queue) tasks results =
      omega (arith, length-append tasks (next_ep ∷ []))

  remaining-join_next :
      (event : Event R) (p q : Pool E R)
      → join_next event p ≡ some q
      → suc (remaining q) ≡ remaining p
  unfolding join_next
  remaining-join_next (joined i res) p q h = elim (Option-cases (take_task i p.join_set)) [
    | inl none_there ↦ absurd (ground (arith, h, none_there))
    | inr ((e, rest), there) ↦
        let is : spawn_next p.queue rest (p.results ++ (e, res) ∷ []) ≡ q =
          ground (arith, h, there) in
        omega (
          arith,
          ap remaining is,
          remaining-spawn_next p.queue rest (p.results ++ (e, res) ∷ []),
          length-take_task i p.join_set rest e there,
        )
  ]
  remaining-join_next (panicked i) p q h = elim (Option-cases (take_task i p.join_set)) [
    | inl none_there ↦ absurd (ground (arith, h, none_there))
    | inr ((e, rest), there) ↦
        let is : record p { join_set = rest } ≡ q = ground (arith, h, there) in
        omega (arith, ap remaining is, length-take_task i p.join_set rest e there)
  ]

  remaining-join_all :
      (events : List (Event R)) (p q : Pool E R)
      → join_all events p ≡ some q
      → length events + remaining q ≡ remaining p
  unfolding join_all
  remaining-join_all [] p q h = let is : p ≡ q = ground (arith, h) in omega (arith, ap remaining is)
  remaining-join_all (event ∷ events) p q h = elim (Option-cases (join_next event p)) [
    | inl stuck ↦ absurd (ground (arith, h, stuck))
    | inr (m, next) ↦ omega (
      arith,
      remaining-join_next event p m next,
      remaining-join_all events m q (ground (arith, h, next)),
    )
  ]

  join_all-append :
      (events : List (Event R)) (event : Event R) (p q : Pool E R)
      → join_all events p ≡ some q
      → join_all (events ++ event ∷ []) p ≡ join_next event q
  unfolding join_all
  join_all-append [] event p q h = elim (Option-cases (join_next event p)) [
    | inl stuck ↦ ground (arith, h, stuck)
    | inr (m, next) ↦ ground (arith, h, next)
  ]
  join_all-append (e ∷ events) event p q h = elim (Option-cases (join_next e p)) [
    | inl stuck ↦ absurd (ground (arith, h, stuck))
    | inr (m, next) ↦
        ground (arith, next, join_all-append events event m q (ground (arith, h, next)))
  ]

  join_next-in_range :
      (i : ℕ) (res : R) (p : Pool E R)
      → i < length p.join_set
      → (q : Pool E R) × (join_next (joined i res) p ≡ some q)
  unfolding join_next
  join_next-in_range i res p h =
      let (e, rest, there) = take_task-in_range i p.join_set h in
      (spawn_next p.queue rest (p.results ++ (e, res) ∷ []), ground (arith, there))

  settled :
      (concurrency : ℕ) (endpoints : List E) (events : List (Event R)) (q : Pool E R)
      → join_all events (start concurrency endpoints) ≡ some q
      → q.join_set ≡ []
      → dispatch_requests concurrency endpoints events ≡ some q.results
  unfolding dispatch_requests
  settled concurrency endpoints events q runs idle = ground (arith, runs, idle)

  -- The loop comes to an end under every schedule and whatever the responses are, panics included:
  -- after any rounds, the rounds made, the queue and the tasks in flight are together as many as the
  -- endpoints, so there are never more rounds than endpoints; where no task is in flight the loop
  -- ends there with its results, and otherwise every task in flight can end next, with every
  -- response.
  pub dispatch_requests_ends :
      (concurrency : ℕ) (endpoints : List E) (events : List (Event R)) (p : Pool E R)
      → join_all events (start concurrency endpoints) ≡ some p
      → (length events + (length p.queue + length p.join_set) ≡ length endpoints)
        × (p.join_set ≡ [] → dispatch_requests concurrency endpoints events ≡ some p.results)
        × ((i : ℕ) (res : R)
            → i < length p.join_set
            → (q : Pool E R) × (join_all (events ++ joined i res ∷ []) (start concurrency endpoints)
                ≡ some q))
  dispatch_requests_ends concurrency endpoints events p runs = (
    omega (
      arith,
      remaining-join_all events (start concurrency endpoints) p runs,
      length-take-drop concurrency endpoints,
    ),
    settled concurrency endpoints events p runs,
    λ i res small.
        let (q, next) = join_next-in_range i res p small in
        (q, join_all-append events (joined i res) (start concurrency endpoints) p runs ∙ next),
  )
    where
      length-take-drop :
          {A : Type 0} (n : ℕ) (xs : List A) → length (drop n xs) + length (take n xs) ≡ length xs
      length-take-drop zero xs = omega arith
      length-take-drop (suc n) [] = omega arith
      length-take-drop (suc n) (x ∷ xs) = omega (arith, length-take-drop n xs)
