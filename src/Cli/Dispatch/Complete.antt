-- ===== src/Cli/Dispatch/Complete.antt =====
-- Every endpoint is requested once, whatever the order in which the tasks end, and never more than
-- `concurrency` of them at a time.
use apisnap.Common.{
  ℕ, zero, suc, ◌+◌, ◌≤◌, ◌<◌, ◌≡◌, refl, sym, ap, ◌∙◌, arith, Bool, some, Option-cases, inl, inr,
  subst, ◌⊎◌, length-append, List, [], ◌∷◌, ◌++◌, take, drop, length, if◌then◌else◌,
}
use apisnap.Cli.Dispatch.{
  Pool, Event, joined, panicked, take_task, start, spawn_next, join_next, join_all,
  dispatch_requests,
}

-- How many satisfy a test.
abbrev pub count_if : {A : Type 0} → (A → Bool) → List A → ℕ
count_if f [] = 0
count_if f (x ∷ xs) = (if f x then 1 else 0) + count_if f xs

pub count_if-append :
    {A : Type 0} (f : A → Bool) (xs ys : List A)
    → count_if f (xs ++ ys) ≡ count_if f xs + count_if f ys
count_if-append f [] ys = omega arith
count_if-append f (x ∷ xs) ys = omega (arith, count_if-append f xs ys)

count_if-take-drop :
    {A : Type 0} (f : A → Bool) (n : ℕ) (xs : List A)
    → count_if f (take n xs) + count_if f (drop n xs) ≡ count_if f xs
count_if-take-drop f zero xs = omega arith
count_if-take-drop f (suc n) [] = omega arith
count_if-take-drop f (suc n) (x ∷ xs) = omega (arith, count_if-take-drop f n xs)

-- A schedule in which no task panics.
abbrev pub IsCalm : {R : Type 0} → List (Event R) → Type 0
IsCalm [] = Unit
IsCalm (joined i r ∷ events) = IsCalm events
IsCalm (panicked i ∷ events) = ⊥

count_if-take_task :
    {E : Type 0} (f : E → Bool) (i : ℕ) (tasks rest : List E) (e : E)
    → take_task i tasks ≡ some (e, rest)
    → count_if f tasks ≡ count_if f (e ∷ rest)
count_if-take_task f i [] rest e h = absurd (cc h)
count_if-take_task f zero (x ∷ tasks) rest e h = ground (arith, h)
count_if-take_task f (suc i) (x ∷ tasks) rest e h = elim (Option-cases (take_task i tasks)) [
  | inl none_there ↦ absurd (ground (arith, h, none_there))
  | inr ((found, others), there) ↦
      ground (arith, h, there, count_if-take_task f i tasks others found there)
]

pub length-take_task :
    {E : Type 0} (i : ℕ) (tasks rest : List E) (e : E)
    → take_task i tasks ≡ some (e, rest)
    → length tasks ≡ suc (length rest)
length-take_task i [] rest e h = absurd (cc h)
length-take_task zero (x ∷ tasks) rest e h = ground (arith, h)
length-take_task (suc i) (x ∷ tasks) rest e h = elim (Option-cases (take_task i tasks)) [
  | inl none_there ↦ absurd (ground (arith, h, none_there))
  | inr ((found, others), there) ↦
      ground (arith, h, there, length-take_task i tasks others found there)
]

module _ {E R : Type 0} where
  -- The endpoints of the three lists that satisfy a test.
  abbrev total : (E → Bool) → Pool E R → ℕ
  total f p =
      count_if f p.queue + (count_if f p.join_set + count_if (λ (x : E × R). f x.0) p.results)

  -- As many tasks as allowed are in flight while the queue has endpoints, and never more.
  record IsFull (concurrency : ℕ) (p : Pool E R) : Type 0 where
    pub bound : length p.join_set ≤ concurrency
    pub full : p.queue ≡ [] ⊎ (length p.join_set ≡ concurrency)

  spawn_next-total :
      (f : E → Bool) (queue tasks : List E) (results : List (E × R))
      → total f (spawn_next queue tasks results)
        ≡ count_if f queue + (count_if f tasks + count_if (λ (x : E × R). f x.0) results)
  unfolding spawn_next
  spawn_next-total f [] tasks results = refl
  spawn_next-total f (next_ep ∷ queue) tasks results =
      omega (arith, count_if-append f tasks (next_ep ∷ []))

  spawn_next-IsFull :
      (concurrency : ℕ) (queue tasks : List E) (results : List (E × R))
      → suc (length tasks) ≤ concurrency
      → (queue ≡ []) ⊎ (suc (length tasks) ≡ concurrency)
      → IsFull concurrency (spawn_next queue tasks results)
  unfolding spawn_next
  spawn_next-IsFull concurrency [] tasks results bound full = record {
    bound = omega arith;
    full = inl refl;
  }
  spawn_next-IsFull concurrency (next_ep ∷ queue) tasks results bound (inl empty) =
      absurd (cc empty)
  spawn_next-IsFull concurrency (next_ep ∷ queue) tasks results bound (inr full) = record {
    bound = omega (arith, length-append tasks (next_ep ∷ []));
    full = inr (omega (arith, length-append tasks (next_ep ∷ [])));
  }

  -- One round keeps both.
  join_next-keeps :
      (concurrency i : ℕ) (res : R) (p q : Pool E R)
      → join_next (joined i res) p ≡ some q
      → IsFull concurrency p
      → ((f : E → Bool) → total f q ≡ total f p) × IsFull concurrency q
  unfolding join_next
  join_next-keeps concurrency i res p q h full = elim (Option-cases (take_task i p.join_set)) [
    | inl none_there ↦ absurd (ground (arith, h, none_there))
    | inr ((e, rest), there) ↦
        let size = length-take_task i p.join_set rest e there in
        let is : spawn_next p.queue rest (p.results ++ (e, res) ∷ []) ≡ q =
          ground (arith, h, there) in
        (
          λ f.
              ap (total f) (sym is)
              ∙ (spawn_next-total f p.queue rest (p.results ++ (e, res) ∷ [])
                  ∙ omega (
                    arith,
                    count_if-take_task f i p.join_set rest e there,
                    count_if-append (λ (x : E × R). f x.0) p.results ((e, res) ∷ []),
                  )),
          subst (IsFull concurrency) is (
              spawn_next-IsFull concurrency p.queue rest (p.results ++ (e, res) ∷ [])
                (omega (arith, size, full.bound))
                (elim full.full [
                  | inl empty ↦ inl empty
                  | inr level ↦ inr (omega (arith, size, level))
                ])),
        )
  ]

  join_all-keeps :
      (concurrency : ℕ) (events : List (Event R)) (p q : Pool E R)
      → IsCalm events
      → join_all events p ≡ some q
      → IsFull concurrency p
      → ((f : E → Bool) → total f q ≡ total f p) × IsFull concurrency q
  unfolding join_all
  join_all-keeps concurrency [] p q calm h full =
      let is : p ≡ q = ground (arith, h) in
      (λ f. ap (total f) (sym is), subst (IsFull concurrency) is full)
  join_all-keeps concurrency (panicked i ∷ events) p q calm h full = absurd calm
  join_all-keeps concurrency (joined i res ∷ events) p q calm h full =
      elim (Option-cases (join_next (joined i res) p)) [
        | inl stuck ↦ absurd (ground (arith, h, stuck))
        | inr (m, next) ↦
            let (same, full') = join_next-keeps concurrency i res p m next full in
            let (same', full'') =
              join_all-keeps concurrency events m q calm (ground (arith, h, next)) full' in
            (λ f. same' f ∙ same f, full'')
      ]

  start-IsFull :
      (concurrency : ℕ) (endpoints : List E)
      → IsFull concurrency (start {R = R} concurrency endpoints)
  start-IsFull concurrency endpoints = record {
    bound = length-take-le concurrency endpoints;
    full = all_or concurrency endpoints;
  }
    where
      length-take-le : (n : ℕ) (xs : List E) → length (take n xs) ≤ n
      length-take-le zero xs = omega arith
      length-take-le (suc n) [] = omega arith
      length-take-le (suc n) (x ∷ xs) = omega (arith, length-take-le n xs)

      all_or : (n : ℕ) (xs : List E) → (drop n xs ≡ []) ⊎ (length (take n xs) ≡ n)
      all_or zero xs = inr refl
      all_or (suc n) [] = inl refl
      all_or (suc n) (x ∷ xs) = elim (all_or n xs) [ inl e ↦ inl e | inr e ↦ inr (ap suc e) ]

  -- While the tasks end without a panic, at most `concurrency` of them are in flight.
  pub join_all_bounded :
      (concurrency : ℕ) (endpoints : List E) (events : List (Event R)) (p : Pool E R)
      → IsCalm events
      → join_all events (start concurrency endpoints) ≡ some p
      → length p.join_set ≤ concurrency
  join_all_bounded concurrency endpoints events p calm h =
      (join_all-keeps concurrency events (start concurrency endpoints) p calm h
        (start-IsFull concurrency endpoints)).1.bound

  -- Where the loop ends without a panic, no endpoint is left in the queue.
  pub idle_queue :
      (concurrency : ℕ) (endpoints : List E) (events : List (Event R)) (p : Pool E R)
      → 0 < concurrency
      → IsCalm events
      → join_all events (start concurrency endpoints) ≡ some p
      → p.join_set ≡ []
      → p.queue ≡ []
  idle_queue concurrency endpoints events p positive calm ended idle =
      elim (join_all-keeps concurrency events (start concurrency endpoints) p calm ended
        (start-IsFull concurrency endpoints)).1.full [
          | inl e ↦ e
          | inr e ↦ absurd (omega (arith, e, ap length idle, positive))
        ]

  -- With a concurrency of at least one and no panic, every endpoint is requested once, in whatever
  -- order the tasks end: for every test, the results have as many endpoints that satisfy it as the
  -- configuration has.
  pub dispatch_requests_complete :
      (concurrency : ℕ) (endpoints : List E) (events : List (Event R)) (results : List (E × R))
      → 0 < concurrency
      → IsCalm events
      → dispatch_requests concurrency endpoints events ≡ some results
      → (f : E → Bool) → count_if (λ (x : E × R). f x.0) results ≡ count_if f endpoints
  unfolding dispatch_requests
  dispatch_requests_complete concurrency endpoints events results positive calm h f =
      elim (Option-cases (join_all events (start concurrency endpoints))) [
        | inl stuck ↦ absurd (ground (arith, h, stuck))
        | inr (p, ended) ↦
            let (same, full) =
              join_all-keeps concurrency events (start concurrency endpoints) p calm ended
                (start-IsFull concurrency endpoints) in
            let idle : p.join_set ≡ [] = ground (arith, h, ended) in
            let is : p.results ≡ results = ground (arith, h, ended) in
            let no_queue = idle_queue concurrency endpoints events p positive calm ended idle in
            ap (count_if (λ (x : E × R). f x.0)) (sym is)
            ∙ omega (
              arith,
              same f,
              ap (count_if f) idle,
              ap (count_if f) no_queue,
              count_if-take-drop f concurrency endpoints,
            )
      ]
