-- ===== src/McpServer/Tools/Fetch.antt =====
-- The goroutines of getRecentFailures in internal/mcpserver/tools.go: one for each submission, of which
-- at most six hold the semaphore. A schedule names the goroutine that moves next.
pub mod Moves
pub mod Schedules
use buildpulse_mcp.Common.{
  ℕ, zero, suc, ◌+◌, ltb, map, Option, none, some, bind, List, [], ◌∷◌, if◌then◌else◌,
}
use buildpulse_mcp.McpServer.Platform.{map_option}

abbrev pub max_concurrent_fetches : ℕ
max_concurrent_fetches = 6

-- Before `sem <- struct{}{}`, in the GET, after results[i] is written, and after `<-sem`.
pub data Phase : Type 0 where
  waiting fetching stored finished : Phase

-- `slot` is results[i]; `none` has ok false.
pub record Task (A R : Type 0) : Type 0 where
  pub item : A
  pub phase : Phase
  pub slot : Option R

abbrev pub spawn : {A R : Type 0} → A → Task A R
spawn a = record { item = a; phase = waiting; slot = none }

-- 1 if the semaphore counts the task
abbrev pub held : Phase → ℕ
held waiting = 0
held fetching = 1
held stored = 1
held finished = 0

module _ {A R : Type 0} where
  abbrev pub holders : List (Task A R) → ℕ
  holders [] = 0
  holders (t ∷ ts) = held t.phase + holders ts

  -- results
  abbrev pub results : List (Task A R) → List (Option R)
  results [] = []
  results (t ∷ ts) = t.slot ∷ results ts

-- `fetch` is the GET and its decoding, `none` on an error.
module _ {A R : Type 0} (fetch : A → Option R) where
  abbrev pub next : ℕ → Task A R → Phase → Option (Task A R)
  next in_use t waiting =
      if ltb in_use max_concurrent_fetches then some (record t { phase = fetching }) else none
  next in_use t fetching = some (record t { phase = stored; slot = fetch t.item })
  next in_use t stored = some (record t { phase = finished })
  next in_use t finished = none

  abbrev pub step_task : ℕ → Task A R → Option (Task A R)
  step_task in_use t = next in_use t t.phase

  -- The i-th task moves; `none` if it blocks or has ended.
  unfoldable pub move : ℕ → ℕ → List (Task A R) → Option (List (Task A R))
  move in_use i [] = none
  move in_use zero (t ∷ ts) = map_option (λ t'. t' ∷ ts) (step_task in_use t)
  move in_use (suc i) (t ∷ ts) = map_option (◌∷◌ t) (move in_use i ts)

  unfoldable pub run : List ℕ → List (Task A R) → Option (List (Task A R))
  run [] ts = some ts
  run (i ∷ schedule) ts = bind (move (holders ts) i ts) (run schedule)

  unfoldable pub fetch_all : List A → List (Option R)
  fetch_all items = map fetch items
