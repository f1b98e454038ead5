-- ===== src/Cli/Dispatch.antt =====
-- src/cli/commands.rs: `dispatch_requests`, the queue of endpoints and the tasks in flight. A task
-- ends when the runtime says so: the ends, in their order, are the argument `events`.
pub mod Complete
pub mod Answered
pub mod Ends
use apisnap.Common.{
  ℕ, zero, suc, Bool, true, false, Option, none, some, List, [], ◌∷◌, ◌++◌, take, drop, is_empty,
  if◌then◌else◌,
}

-- `queue`, `join_set` and `results`
pub record Pool (E R : Type 0) : Type 0 where
  pub queue : List E
  pub join_set : List E
  pub results : List (E × R)

-- What `join_next` gives: a task of the set has ended with its response, or has panicked.
pub data Event (R : Type 0) : Type 0 where
  joined : ℕ → R → Event R
  panicked : ℕ → Event R

-- The task at a place, and the others.
abbrev pub take_task : {E : Type 0} → ℕ → List E → Option (E × List E)
take_task i [] = none
take_task zero (e ∷ tasks) = some (e, tasks)
take_task (suc i) (e ∷ tasks) = elim (take_task i tasks) [
  | none ↦ none
  | some (found, rest) ↦ some (found, e ∷ rest)
]

module _ {E R : Type 0} where
  -- The first batch of tasks.
  abbrev pub start : ℕ → List E → Pool E R
  start concurrency endpoints = record {
    queue = drop concurrency endpoints;
    join_set = take concurrency endpoints;
    results = [];
  }

  -- The next endpoint of the queue, if there is one, becomes a task.
  unfoldable pub spawn_next : List E → List E → List (E × R) → Pool E R
  spawn_next [] tasks results = record { queue = []; join_set = tasks; results = results }
  spawn_next (next_ep ∷ queue) tasks results = record {
    queue = queue;
    join_set = tasks ++ next_ep ∷ [];
    results = results;
  }

  -- One round of the `while` loop; a panic leaves no result, and starts no other task. `none` is an
  -- event of no task.
  unfoldable pub join_next : Event R → Pool E R → Option (Pool E R)
  unfolding spawn_next
  join_next (joined i res) p = elim (take_task i p.join_set) [
    | none ↦ none
    | some (endpoint, tasks) ↦ some (spawn_next p.queue tasks (p.results ++ (endpoint, res) ∷ []))
  ]
  join_next (panicked i) p = elim (take_task i p.join_set) [
    | none ↦ none
    | some (endpoint, tasks) ↦ some (record p { join_set = tasks })
  ]

  unfoldable pub join_all : List (Event R) → Pool E R → Option (Pool E R)
  unfolding join_next
  join_all [] p = some p
  join_all (event ∷ events) p = elim (join_next event p) [
    | none ↦ none
    | some q ↦ join_all events q
  ]

  -- `none`: the loop has not ended with these events.
  unfoldable pub dispatch_requests : ℕ → List E → List (Event R) → Option (List (E × R))
  unfolding join_all
  dispatch_requests concurrency endpoints events =
      elim (join_all events (start concurrency endpoints)) [
        | none ↦ none
        | some p ↦ if is_empty p.join_set then some p.results else none
      ]
