-- ===== src/McpServer/Tools/Fetch/Schedules.antt =====
-- Every schedule of the goroutines ends, within the semaphore, with the same results.
use buildpulse_mcp.Common.{
  ℕ, suc, ◌*◌, ◌≤◌, ◌<◌, ◌≡◌, ◌⊎◌, inl, inr, refl, ◌∙◌, ap, Bool-cases, length, ltb, map, Option,
  some, List, [], ◌∷◌, arith,
}
use buildpulse_mcp.McpServer.Tools.Fetch.{
  max_concurrent_fetches, Phase, waiting, fetching, stored, finished, Task, spawn, holders, results,
  step_task, move, run, fetch_all,
}
use buildpulse_mcp.McpServer.Tools.Fetch.Moves.{
  left, work, filled, IsFor, spawned, spawned-IsFor, work-spawned, holders-spawned, run-Ran,
}

module _ {A R : Type 0} (fetch : A → Option R) where
  abbrev pub CanMove : ℕ → List (Task A R) → Type 0
  CanMove in_use ts = (i : ℕ) × (ts' : List (Task A R)) × (move fetch in_use i ts ≡ some ts')

  CanMove-cons :
      (in_use : ℕ) (t : Task A R) (ts : List (Task A R))
      → CanMove in_use ts
      → CanMove in_use (t ∷ ts)
  unfolding move
  CanMove-cons in_use t ts (i, ts', h) = (suc i, t ∷ ts', rw h refl)

  CanMove-head :
      (in_use : ℕ) (t t' : Task A R) (ts : List (Task A R))
      → step_task fetch in_use t ≡ some t'
      → CanMove in_use (t ∷ ts)
  unfolding move
  CanMove-head in_use t t' ts h = (0, t' ∷ ts, rw h refl)

  -- If no task can move, none holds the semaphore, and those that wait, wait for it.
  abbrev IsStuck : ℕ → List (Task A R) → Type 0
  IsStuck in_use ts = (holders ts ≡ 0) × (in_use < max_concurrent_fetches → work ts ≡ 0)

  progress-head :
      (in_use : ℕ) (t : Task A R) (ts : List (Task A R)) (phase : Phase)
      → t.phase ≡ phase
      → IsStuck in_use ts
      → CanMove in_use (t ∷ ts) ⊎ IsStuck in_use (t ∷ ts)
  progress-head in_use t ts waiting e (none_held, ends) =
      elim (Bool-cases (ltb in_use max_concurrent_fetches)) [
        | inl room ↦
            inl (CanMove-head in_use t (record t { phase = fetching }) ts (rw (e, room) refl))
        | inr full ↦ inr (rw (e, none_held) refl, λ h. absurd (ground arith))
      ]
  progress-head in_use t ts fetching e stuck =
      inl (CanMove-head in_use t (record t { phase = stored; slot = fetch t.item }) ts (rw e refl))
  progress-head in_use t ts stored e stuck =
      inl (CanMove-head in_use t (record t { phase = finished }) ts (rw e refl))
  progress-head in_use t ts finished e (none_held, ends) =
      inr (rw (e, none_held) refl, λ h. rw (e, ends h) refl)

  progress : (in_use : ℕ) (ts : List (Task A R)) → CanMove in_use ts ⊎ IsStuck in_use ts
  progress in_use [] = inr (refl, λ h. refl)
  progress in_use (t ∷ ts) = elim (progress in_use ts) [
    | inl moves ↦ inl (CanMove-cons in_use t ts moves)
    | inr stuck ↦ progress-head in_use t ts t.phase refl stuck
  ]

  done_phase : (phase : Phase) → left phase ≡ 0 → phase ≡ finished
  done_phase finished h = refl
  done_phase waiting h = absurd (omega arith)
  done_phase fetching h = absurd (omega arith)
  done_phase stored h = absurd (omega arith)

  results-done :
      (items : List A) (ts : List (Task A R))
      → IsFor fetch items ts
      → work ts ≡ 0
      → results ts ≡ fetch_all fetch items
  unfolding fetch_all
  results-done [] [] f h = refl
  results-done [] (t ∷ ts) f h = absurd f
  results-done (a ∷ items) [] f h = absurd f
  results-done (a ∷ items) (t ∷ ts) (item, slot, f) h =
      let done = done_phase t.phase (omega arith) in
      let full : t.slot ≡ fetch a = slot ∙ ap (filled fetch a) done in
      rw (full, results-done items ts f (omega arith)) refl

  -- Whatever goroutine moves whenever it can, there are at most three moves for each submission, at
  -- most six goroutines hold the semaphore at any time, and as long as not all have ended, one of
  -- them can move. When none can move, all have ended, and the results are those of fetching one
  -- submission after the other, each at the place of its submission.
  pub schedules_end :
      (items : List A) (schedule : List ℕ) (ts : List (Task A R))
      → run fetch schedule (map spawn items) ≡ some ts
      → (length schedule ≤ 3 * length items)
        × (holders ts ≤ max_concurrent_fetches)
        × (CanMove (holders ts) ts
            ⊎ ((length schedule ≡ 3 * length items) × (results ts ≡ fetch_all fetch items)))
  schedules_end items schedule ts h =
      let all = work-spawned fetch items in
      let few : holders (spawned fetch items) ≤ max_concurrent_fetches =
        omega (arith, holders-spawned fetch items) in
      let (f, w, u) =
        run-Ran fetch schedule items (spawned fetch items) ts (spawned-IsFor fetch items) few h in
      (
        omega (arith, w, all),
        u,
        elim (progress (holders ts) ts) [
          | inl moves ↦ inl moves
          | inr (none_held, ends) ↦
              let over = ends (omega arith) in
              inr (omega (arith, w, all, over), results-done items ts f over)
        ],
      )
