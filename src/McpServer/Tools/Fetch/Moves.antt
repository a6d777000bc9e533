-- ===== src/McpServer/Tools/Fetch/Moves.antt =====
-- What a move of a goroutine, and a schedule of moves, leaves of the tasks.
use buildpulse_mcp.Common.{
  ℕ, zero, suc, ◌+◌, ◌*◌, ◌≤◌, ◌<◌, ◌≡◌, ◌⊎◌, inl, inr, refl, ap, subst, Bool-cases, if◌then◌else◌,
  length, ltb, map, Option, none, some, Option-cases, List, [], ◌∷◌, arith,
}
use buildpulse_mcp.McpServer.Tools.Fetch.{
  max_concurrent_fetches, Phase, waiting, fetching, stored, finished, Task, spawn, held, holders,
  next, step_task, move, run,
}

some-injective : {A : Type 0} {a b : A} → some a ≡ some b → a ≡ b
some-injective h = cc

-- The moves that a task has left.
abbrev pub left : Phase → ℕ
left waiting = 3
left fetching = 2
left stored = 1
left finished = 0

module _ {A R : Type 0} where
  abbrev pub work : List (Task A R) → ℕ
  work [] = 0
  work (t ∷ ts) = left t.phase + work ts

module _ {A R : Type 0} (fetch : A → Option R) where
  -- What a task's slot holds.
  abbrev pub filled : A → Phase → Option R
  filled a waiting = none
  filled a fetching = none
  filled a stored = fetch a
  filled a finished = fetch a

  -- The tasks are those of the items, in their order, and each slot is written once its GET ended.
  abbrev pub IsFor : List A → List (Task A R) → Type 0
  IsFor [] [] = Unit
  IsFor (a ∷ items) (t ∷ ts) = (t.item ≡ a) × (t.slot ≡ filled a t.phase) × IsFor items ts
  IsFor [] (t ∷ ts) = ⊥
  IsFor (a ∷ items) [] = ⊥

  abbrev pub spawned : List A → List (Task A R)
  spawned items = map spawn items

  pub spawned-IsFor : (items : List A) → IsFor items (spawned items)
  spawned-IsFor [] = tt
  spawned-IsFor (a ∷ items) = (refl, refl, spawned-IsFor items)

  pub work-spawned : (items : List A) → work (spawned items) ≡ 3 * length items
  work-spawned [] = refl
  work-spawned (a ∷ items) = omega (arith, work-spawned items)

  pub holders-spawned : (items : List A) → holders (spawned items) ≡ 0
  holders-spawned [] = refl
  holders-spawned (a ∷ items) = omega (arith, holders-spawned items)

  -- A move uses up work, takes the semaphore only below the limit, and keeps the slots right.
  abbrev Advances : ℕ → List A → List (Task A R) → List (Task A R) → Type 0
  Advances in_use items ts ts' =
      IsFor items ts'
      × (work ts' + 1 ≡ work ts)
      × ((holders ts' ≤ holders ts)
          ⊎ ((in_use < max_concurrent_fetches) × (holders ts' ≡ holders ts + 1)))

  abbrev TaskAdvances : ℕ → A → Task A R → Task A R → Type 0
  TaskAdvances in_use a t t' =
      (t'.item ≡ a)
      × (t'.slot ≡ filled a t'.phase)
      × (left t'.phase + 1 ≡ left t.phase)
      × ((held t'.phase ≤ held t.phase)
          ⊎ ((in_use < max_concurrent_fetches) × (held t'.phase ≡ held t.phase + 1)))

  next-TaskAdvances :
      (in_use : ℕ) (a : A) (t t' : Task A R) (phase : Phase)
      → t.phase ≡ phase
      → t.item ≡ a
      → t.slot ≡ filled a phase
      → next fetch in_use t phase ≡ some t'
      → TaskAdvances in_use a t t'
  next-TaskAdvances in_use a t t' waiting e i s h =
      elim (Bool-cases (ltb in_use max_concurrent_fetches)) [
        | inl room ↦
            let same : record t { phase = fetching } ≡ t' = some-injective (
              subst (λ b. (if b then some (record t { phase = fetching }) else none) ≡ some t') room
                h) in
            subst (TaskAdvances in_use a t) same (i, s, rw e refl, inr (ground arith, rw e refl))
        | inr full ↦ absurd (ground arith)
      ]
  next-TaskAdvances in_use a t t' fetching e i s h =
      subst (TaskAdvances in_use a t) (some-injective h)
        (i, ap fetch i, rw e refl, inl (rw e (omega arith)))
  next-TaskAdvances in_use a t t' stored e i s h =
      subst (TaskAdvances in_use a t) (some-injective h) (i, s, rw e refl, inl (rw e (omega arith)))
  next-TaskAdvances in_use a t t' finished e i s h = absurd (cc)

  move-Advances :
      (in_use i : ℕ) (items : List A) (ts ts' : List (Task A R))
      → IsFor items ts
      → move fetch in_use i ts ≡ some ts'
      → Advances in_use items ts ts'
  unfolding move
  move-Advances in_use i items [] ts' f h = absurd (cc)
  move-Advances in_use i [] (t ∷ ts) ts' f h = absurd f
  move-Advances in_use zero (a ∷ items) (t ∷ ts) ts' (item, slot, f) h =
      elim (Option-cases (step_task fetch in_use t)) [
        | inl blocked ↦ absurd (cc)
        | inr (t', moves) ↦
            let (i', s', l, u) = next-TaskAdvances in_use a t t' t.phase refl item slot moves in
            let same : t' ∷ ts ≡ ts' = cc in
            subst (Advances in_use (a ∷ items) (t ∷ ts)) same
              ((i', s', f), omega (arith, l), ground (arith, u))
      ]
  move-Advances in_use (suc i) (a ∷ items) (t ∷ ts) ts' (item, slot, f) h =
      elim (Option-cases (move fetch in_use i ts)) [
        | inl blocked ↦ absurd (cc)
        | inr (rest, moves) ↦
            let (f', l, u) = move-Advances in_use i items ts rest f moves in
            let same : t ∷ rest ≡ ts' = cc in
            subst (Advances in_use (a ∷ items) (t ∷ ts)) same
              ((item, slot, f'), omega (arith, l), ground (arith, u))
      ]

  -- What a schedule leaves of the tasks.
  abbrev pub Ran : List ℕ → List A → List (Task A R) → List (Task A R) → Type 0
  Ran schedule items ts ts' =
      IsFor items ts'
      × (work ts' + length schedule ≡ work ts)
      × (holders ts' ≤ max_concurrent_fetches)

  pub run-Ran :
      (schedule : List ℕ) (items : List A) (ts ts' : List (Task A R))
      → IsFor items ts
      → holders ts ≤ max_concurrent_fetches
      → run fetch schedule ts ≡ some ts'
      → Ran schedule items ts ts'
  unfolding run
  run-Ran [] items ts ts' f few h = subst (Ran [] items ts) (some-injective h) (f, omega arith, few)
  run-Ran (i ∷ schedule) items ts ts' f few h = elim (Option-cases (move fetch (holders ts) i ts)) [
    | inl blocked ↦ absurd (cc)
    | inr (mid, moves) ↦
        let (f', w, u) = move-Advances (holders ts) i items ts mid f moves in
        let rest : run fetch schedule mid ≡ some ts' = cc in
        let (g, w', u') = run-Ran schedule items mid ts' f' (ground arith) rest in
        (g, omega (arith, w, w'), u')
  ]
