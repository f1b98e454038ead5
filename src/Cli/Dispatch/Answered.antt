-- ===== src/Cli/Dispatch/Answered.antt =====
-- No endpoint is lost: where the loop ends, each one is among the results, with its response.
use apisnap.Common.{
  ℕ, zero, suc, ◌<◌, ◌≡◌, ap, subst, arith, some, Option-cases, ◌⊎◌, inl, inr, In, List, [], ◌∷◌,
  ◌++◌, take, drop,
}
use apisnap.Cli.Dispatch.{
  Pool, Event, joined, panicked, take_task, start, spawn_next, join_next, join_all,
  dispatch_requests,
}
use apisnap.Cli.Dispatch.Complete.{IsCalm, idle_queue}

module _ {A : Type 0} where
  In-append : (x : A) (xs ys : List A) → In x xs ⊎ In x ys → In x (xs ++ ys)
  In-append x [] ys (inl nowhere) = absurd nowhere
  In-append x [] ys (inr h) = h
  In-append x (z ∷ xs) ys (inl (inl is)) = inl is
  In-append x (z ∷ xs) ys (inl (inr h)) = inr (In-append x xs ys (inl h))
  In-append x (z ∷ xs) ys (inr h) = inr (In-append x xs ys (inr h))

  In-take-drop : (n : ℕ) (x : A) (xs : List A) → In x xs → In x (drop n xs) ⊎ In x (take n xs)
  In-take-drop zero x xs h = inl h
  In-take-drop (suc n) x [] h = absurd h
  In-take-drop (suc n) x (z ∷ xs) (inl is) = inr (inl is)
  In-take-drop (suc n) x (z ∷ xs) (inr h) = elim (In-take-drop n x xs h) [
    | inl later ↦ inl later
    | inr now ↦ inr (inr now)
  ]

  take_task-In :
      (i : ℕ) (x y : A) (xs rest : List A)
      → take_task i xs ≡ some (y, rest)
      → In x xs
      → (x ≡ y) ⊎ In x rest
  take_task-In i x y [] rest h here = absurd here
  take_task-In zero x y (z ∷ xs) rest h (inl is) = inl (ground (arith, h, is))
  take_task-In zero x y (z ∷ xs) rest h (inr later) =
      let same : xs ≡ rest = ground (arith, h) in inr (subst (In x) same later)
  take_task-In (suc i) x y (z ∷ xs) rest h here = elim (Option-cases (take_task i xs)) [
    | inl none_there ↦ absurd (ground (arith, h, none_there))
    | inr ((found, others), there) ↦
        let same : found ≡ y = ground (arith, h, there) in
        let tail : z ∷ others ≡ rest = ground (arith, h, there) in
        elim here [
          | inl is ↦ inr (subst (In x) tail (inl is))
          | inr later ↦ elim (take_task-In i x found xs others there later) [
            | inl e ↦ inl (subst (λ w. x ≡ w) same e)
            | inr other ↦ inr (subst (In x) tail (inr other))
          ]
        ]
  ]

module _ {E R : Type 0} where
  -- The endpoint is in the queue, in flight, or among the results.
  data Somewhere (e : E) (p : Pool E R) : Type 0 where
    queued : In e p.queue → Somewhere e p
    flying : In e p.join_set → Somewhere e p
    answered : (r : R) → In (e, r) p.results → Somewhere e p

  spawn_next-Somewhere :
      (e : E) (queue tasks : List E) (results : List (E × R))
      → Somewhere e (record { queue = queue; join_set = tasks; results = results })
      → Somewhere e (spawn_next queue tasks results)
  unfolding spawn_next
  spawn_next-Somewhere e [] tasks results h = h
  spawn_next-Somewhere e (next_ep ∷ queue) tasks results (queued (inl is)) =
      flying (In-append e tasks (next_ep ∷ []) (inr (inl is)))
  spawn_next-Somewhere e (next_ep ∷ queue) tasks results (queued (inr later)) = queued later
  spawn_next-Somewhere e (next_ep ∷ queue) tasks results (flying h) =
      flying (In-append e tasks (next_ep ∷ []) (inl h))
  spawn_next-Somewhere e (next_ep ∷ queue) tasks results (answered r h) = answered r h

  ended-Somewhere :
      (e x : E) (i : ℕ) (res : R) (rest : List E) (p : Pool E R)
      → take_task i p.join_set ≡ some (x, rest)
      → Somewhere e p
      → Somewhere e
          (record { queue = p.queue; join_set = rest; results = p.results ++ (x, res) ∷ [] })
  ended-Somewhere e x i res rest p there (queued h) = queued h
  ended-Somewhere e x i res rest p there (answered r h) =
      answered r (In-append (e, r) p.results ((x, res) ∷ []) (inl h))
  ended-Somewhere e x i res rest p there (flying h) =
      elim (take_task-In i e x p.join_set rest there h) [
        | inl is ↦
            answered res
              (In-append (e, res) p.results ((x, res) ∷ []) (inr (inl (ap (λ y. (y, res)) is))))
        | inr other ↦ flying other
      ]

  join_all-Somewhere :
      (events : List (Event R)) (e : E) (p q : Pool E R)
      → IsCalm events
      → join_all events p ≡ some q
      → Somewhere e p
      → Somewhere e q
  unfolding join_all join_next
  join_all-Somewhere [] e p q calm h at =
      let is : p ≡ q = ground (arith, h) in subst (Somewhere e) is at
  join_all-Somewhere (panicked i ∷ events) e p q calm h at = absurd calm
  join_all-Somewhere (joined i res ∷ events) e p q calm h at =
      elim (Option-cases (take_task i p.join_set)) [
        | inl none_there ↦ absurd (ground (arith, h, none_there))
        | inr ((x, rest), there) ↦
            join_all-Somewhere events e (spawn_next p.queue rest (p.results ++ (x, res) ∷ [])) q
              calm (ground (arith, h, there))
              (spawn_next-Somewhere e p.queue rest (p.results ++ (x, res) ∷ [])
                (ended-Somewhere e x i res rest p there at))
      ]

  -- With a concurrency of at least one and no panic, each endpoint is among the results.
  pub dispatch_requests-In :
      (concurrency : ℕ) (endpoints : List E) (events : List (Event R)) (results : List (E × R))
      (e : E)
      → 0 < concurrency
      → IsCalm events
      → dispatch_requests concurrency endpoints events ≡ some results
      → In e endpoints
      → (r : R) × In (e, r) results
  unfolding dispatch_requests
  dispatch_requests-In concurrency endpoints events results e positive calm h listed =
      elim (Option-cases (join_all events (start concurrency endpoints))) [
        | inl stuck ↦ absurd (ground (arith, h, stuck))
        | inr (p, ended) ↦
            let idle : p.join_set ≡ [] = ground (arith, h, ended) in
            let is : p.results ≡ results = ground (arith, h, ended) in
            let no_queue = idle_queue concurrency endpoints events p positive calm ended idle in
            elim (join_all-Somewhere events e (start concurrency endpoints) p calm ended
              (elim (In-take-drop concurrency e endpoints listed) [
                | inl later ↦ queued later
                | inr now ↦ flying now
              ])) [
                | queued here ↦ absurd (subst (In e) no_queue here)
                | flying here ↦ absurd (subst (In e) idle here)
                | answered r here ↦ (r, subst (In (e, r)) is here)
              ]
      ]
