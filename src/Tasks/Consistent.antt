-- ===== src/Tasks/Consistent.antt =====
-- The executor's tables, and what each operation does to them (kernel/src/task/executor.rs).
use zulu_os.Base.{
  ℕ, ◌+◌, ◌≤◌, ◌<◌, ◌≡◌, refl, sym, ◌∙◌, ap, List, [], ◌∷◌, ◌++◌, none, some, arith, ◌==◌,
  if◌then◌else◌, length, length-append, inl, inr, Bool-cases, Option-cases,
}
use mathlib.Core.List.{append_assoc, append-nil}
use zulu_os.Tasks.Maps.{lookup, insert, lookup-insert, lookup-remove}
use zulu_os.Tasks.Queue.{ArrayQueue}
use zulu_os.Tasks.{Polled, Task, Executor, executor_new, spawn, wake_all, waker_entry, settle}

module _ (A : ArrayQueue) (F : Type 0) (poll : F → ℕ → Polled F) where
  open A use {Q, push, pop, items, capacity}

  -- A task is filed under its id, a cached waker wakes the task that it is filed under, and only
  -- live tasks have one.
  pub record IsConsistent (e : Executor A F poll) : Type 0 where
    pub keys : (id : ℕ) (t : Task F) → lookup id e.tasks ≡ some t → t.id ≡ id
    pub wakers : (id w : ℕ) → lookup id e.waker_cache ≡ some w → w ≡ id
    pub cached : (id : ℕ) → lookup id e.tasks ≡ none → lookup id e.waker_cache ≡ none

  pub executor_new-IsConsistent : IsConsistent (executor_new A F poll)
  unfolding executor_new lookup
  executor_new-IsConsistent = record {
    keys = λ id t e. absurd (ground arith);
    wakers = λ id w e. absurd (ground arith);
    cached = λ id e. refl;
  }

  -- Waking tasks with room for all of them appends their ids, in order.
  pub wake_all_lem :
      (ids : List ℕ) (q : Q)
      → length (items q) + length ids ≤ capacity q
      → (q' : Q) × (wake_all A F poll ids q ≡ some q')
        × (items q' ≡ items q ++ ids)
        × (capacity q' ≡ capacity q)
  unfolding wake_all
  wake_all_lem [] q h = (q, refl, sym (append-nil (items q)), refl)
  wake_all_lem (id ∷ ids) q h =
      let (q1, e1, i1, c1) = A.push_room id q (omega arith) in
      let (q2, e2, i2, c2) =
        wake_all_lem ids q1 (omega (arith, ap length i1, length-append (items q) (id ∷ []), c1)) in
      (q2, rw e1 e2, i2 ∙ ap (λ l. l ++ ids) i1 ∙ append_assoc (items q) (id ∷ []) ids, c2 ∙ c1)

  -- `spawn` of a new id with room in the queue files the task, queues it, and touches no other
  -- task.
  pub spawn_lem :
      (e : Executor A F poll) (task : Task F)
      → IsConsistent e
      → lookup task.id e.tasks ≡ none
      → length (items e.task_queue) < capacity e.task_queue
      → (e' : Executor A F poll) × (spawn A F poll e task ≡ some e')
        × IsConsistent e'
        × ((j : ℕ) → lookup j e'.tasks ≡ (if task.id == j then some task else lookup j e.tasks))
        × (items e'.task_queue ≡ items e.task_queue ++ (task.id ∷ []))
  unfolding spawn
  spawn_lem e task ok fresh room =
      let (q, eq, iq, cq) = A.push_room task.id e.task_queue room in
      (
        record e { tasks = insert task.id task e.tasks; task_queue = q },
        rw (fresh, spawn, eq),
        record {
          keys = λ id t h. ground (arith, lookup-insert task.id id task e.tasks, ok.keys id t);
          wakers = ok.wakers;
          cached = λ id h. ground (arith, lookup-insert task.id id task e.tasks, ok.cached id);
        },
        λ j. lookup-insert task.id j task e.tasks,
        iq,
      )

  -- The waker that a task is polled with wakes that task, and is in the cache afterwards.
  pub waker_entry_lem :
      (e : Executor A F poll) (id : ℕ)
      → IsConsistent e
      → (cache : List (ℕ × ℕ)) × (waker_entry A F poll id e.waker_cache ≡ (id, cache))
        × ((j : ℕ) → lookup j cache ≡ (if id == j then some id else lookup j e.waker_cache))
  unfolding waker_entry
  waker_entry_lem e id ok = elim (Option-cases (lookup id e.waker_cache)) [
    | inl new ↦ (
      insert id id e.waker_cache,
      rw (new, waker_entry),
      λ j. lookup-insert id j id e.waker_cache,
    )
    | inr (w, old) ↦ (
      e.waker_cache,
      rw (old, waker_entry) (ground (arith, ok.wakers id w old)),
      λ j. ground (arith, ok.wakers id w old, old),
    )
  ]

  -- What a poll leaves: a task that is ready is forgotten with its waker, another one is kept
  -- with its future as polled, no other task changes, and the tables still agree.
  pub settle_lem :
      (e : Executor A F poll) (id : ℕ) (task : Task F) (p : Polled F) (cache : List (ℕ × ℕ)) (q : Q)
      → IsConsistent e
      → lookup id e.tasks ≡ some task
      → ((j : ℕ) → lookup j cache ≡ (if id == j then some id else lookup j e.waker_cache))
      → IsConsistent (settle A F poll e id task p cache q)
        × ((j : ℕ)
            → lookup j (settle A F poll e id task p cache q).tasks ≡ (
                if id == j
                then (if p.ready then none else some (record task { future = p.future }))
                else lookup j e.tasks))
  unfolding settle
  settle_lem e id task p cache q ok live c = elim (Bool-cases p.ready) [
    | inl ready ↦ rw ready (
      record {
        keys = λ j t h. ground (arith, lookup-remove id j e.tasks, ok.keys j t);
        wakers = λ j w h. ground (arith, lookup-remove id j cache, c j, ok.wakers j w);
        cached = λ j h.
            ground (arith, lookup-remove id j e.tasks, lookup-remove id j cache, c j, ok.cached j);
      },
      λ j. lookup-remove id j e.tasks,
    )
    | inr pending ↦
        let kept : Task F = record task { future = p.future } in
        rw pending (
          record {
            keys = λ j t h.
                ground (arith, lookup-insert id j kept e.tasks, ok.keys j t, ok.keys id task live);
            wakers = λ j w h. ground (arith, c j, ok.wakers j w);
            cached = λ j h. ground (arith, lookup-insert id j kept e.tasks, c j, ok.cached j);
          },
          λ j. lookup-insert id j kept e.tasks,
        )
  ]
