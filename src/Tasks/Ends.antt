-- ===== src/Tasks/Ends.antt =====
-- The loop of `run_ready_tasks` (kernel/src/task/executor.rs): a round of it, and its end.
use zulu_os.Base.{
  ℕ, zero, suc, ◌+◌, ◌≤◌, ◌<◌, ◌≡◌, refl, ◌∙◌, ap, List, [], ◌++◌, none, some, arith, ◌==◌,
  if◌then◌else◌, length, length-append, inl, inr, Bool-cases, Option-cases, List-cases,
}
use zulu_os.Tasks.Maps.{lookup, total, total-insert, total-remove}
use zulu_os.Tasks.Queue.{ArrayQueue}
use zulu_os.Tasks.{Polled, Task, Executor, settle, poll_task, run_popped, run_ready_tasks, done}
use zulu_os.Tasks.Consistent.{IsConsistent, wake_all_lem, waker_entry_lem, settle_lem}

module _ (A : ArrayQueue) (F : Type 0) (poll : F → ℕ → Polled F) where
  open A use {Q, pop, items, capacity}

  settle_queue :
      (e : Executor A F poll) (id : ℕ) (task : Task F) (p : Polled F) (cache : List (ℕ × ℕ)) (q : Q)
      → (settle A F poll e id task p cache q).task_queue ≡ q
  unfolding settle
  settle_queue e id task p cache q = ground arith

  run_popped_settles :
      (e : Executor A F poll) (id : ℕ) (task : Task F)
      → IsConsistent A F poll e
      → lookup id e.tasks ≡ some task
      → length (items e.task_queue) + length (poll task.future id).woken ≤ capacity e.task_queue
      → (cache : List (ℕ × ℕ)) × (q : Q) × (run_popped A F poll e id
          ≡ some (settle A F poll e id task (poll task.future id) cache q))
        × ((j : ℕ) → lookup j cache ≡ (if id == j then some id else lookup j e.waker_cache))
        × (items q ≡ items e.task_queue ++ (poll task.future id).woken)
        × (capacity q ≡ capacity e.task_queue)
  unfolding run_popped poll_task
  run_popped_settles e id task ok live room =
      let (cache, ec, lc) = waker_entry_lem A F poll e id ok in
      let (q, eq, iq, cq) = wake_all_lem A F poll (poll task.future id).woken e.task_queue room in
      (cache, q, rw (live, run_popped, ec, eq), lc, iq, cq)

  -- A popped task that is live is polled once, with a waker for itself. If the queue has room for
  -- the tasks woken meanwhile they are queued in order, the task is forgotten if it is ready,
  -- else kept as polled, no other task changes, and the tables still agree.
  pub run_popped_polls :
      (e : Executor A F poll) (id : ℕ) (task : Task F)
      → IsConsistent A F poll e
      → lookup id e.tasks ≡ some task
      → length (items e.task_queue) + length (poll task.future id).woken ≤ capacity e.task_queue
      → (e' : Executor A F poll) × (run_popped A F poll e id ≡ some e')
        × IsConsistent A F poll e'
        × ((j : ℕ)
            → lookup j e'.tasks ≡ (
                if id == j
                then (if (poll task.future id).ready
                    then none
                    else some (record task { future = (poll task.future id).future }))
                else lookup j e.tasks))
        × (items e'.task_queue ≡ items e.task_queue ++ (poll task.future id).woken)
  run_popped_polls e id task ok live room =
      let p : Polled F = poll task.future id in
      let (cache, q, er, lc, iq, cq) = run_popped_settles e id task ok live room in
      let (ok', ls) = settle_lem A F poll e id task p cache q ok live lc in
      (
        settle A F poll e id task p cache q,
        er,
        ok',
        ls,
        ap items (settle_queue e id task p cache q) ∙ iq,
      )

  -- An id whose task is gone is dropped: nothing is polled.
  pub run_popped_stale :
      (e : Executor A F poll) (id : ℕ)
      → lookup id e.tasks ≡ none
      → run_popped A F poll e id ≡ some e
  unfolding run_popped
  run_popped_stale e id gone = rw (gone, run_popped)

  -- A budget for wake-ups: a poll pays for each task that it wakes.
  module _ (cost : F → ℕ) where
    abbrev pub Pays : Type 0
    Pays =
        (f : F) (id : ℕ)
        → (if (poll f id).ready then 0 else cost (poll f id).future) + length (poll f id).woken
          ≤ cost f

    abbrev pub task_cost : Task F → ℕ
    task_cost t = cost t.future

    -- The ids in the queue and the budgets of the tasks: each round uses up one at least.
    abbrev pub potential : Executor A F poll → ℕ
    potential e = length (items e.task_queue) + total task_cost e.tasks

    pub settle-total :
        (e : Executor A F poll) (id : ℕ) (task : Task F) (p : Polled F) (cache : List (ℕ × ℕ))
        (q : Q)
        → lookup id e.tasks ≡ some task
        → (if p.ready then 0 else cost p.future) + length p.woken ≤ cost task.future
        → total task_cost (settle A F poll e id task p cache q).tasks + length p.woken
          ≤ total task_cost e.tasks
    unfolding settle
    settle-total e id task p cache q live pays = elim (Bool-cases p.ready) [
      | inl ready ↦ ground (arith, total-remove task_cost id task e.tasks live)
      | inr pending ↦
          ground
            (arith, total-insert task_cost id task (record task { future = p.future }) e.tasks live)
    ]

    pub live_round :
        (e : Executor A F poll) (id : ℕ) (task : Task F)
        → Pays
        → IsConsistent A F poll e
        → lookup id e.tasks ≡ some task
        → potential e ≤ capacity e.task_queue
        → (e' : Executor A F poll) × (run_popped A F poll e id ≡ some e')
          × IsConsistent A F poll e'
          × (potential e' ≤ potential e)
          × (capacity e'.task_queue ≡ capacity e.task_queue)
          × (total task_cost e'.tasks ≤ total task_cost e.tasks)
    live_round e id task pays ok live room =
        let p : Polled F = poll task.future id in
        let paid : length p.woken ≤ total task_cost e.tasks =
          omega (arith, settle-total e id task p [] e.task_queue live (pays task.future id)) in
        let (cache, q, er, lc, iq, cq) = run_popped_settles e id task ok live (omega arith) in
        let e' : Executor A F poll = settle A F poll e id task p cache q in
        (
          e',
          er,
          (settle_lem A F poll e id task p cache q ok live lc).0,
          omega (
            arith,
            settle-total e id task p cache q live (pays task.future id),
            ap (λ k. length (items k)) (settle_queue e id task p cache q),
            ap length iq,
            length-append (items e.task_queue) p.woken,
          ),
          ap capacity (settle_queue e id task p cache q) ∙ cq,
          omega (arith, settle-total e id task p cache q live (pays task.future id)),
        )

    -- The loop comes to its end with an empty queue, and no budget has grown.
    pub run_ready_tasks_drains :
        (fuel : ℕ) (e : Executor A F poll)
        → Pays
        → IsConsistent A F poll e
        → potential e ≤ capacity e.task_queue
        → potential e < fuel
        → (e' : Executor A F poll) × (run_ready_tasks A F poll fuel e ≡ done e')
          × (items e'.task_queue ≡ [])
          × IsConsistent A F poll e'
          × (capacity e'.task_queue ≡ capacity e.task_queue)
          × (total task_cost e'.tasks ≤ total task_cost e.tasks)
    unfolding run_ready_tasks
    run_ready_tasks_drains zero e pays ok room enough = absurd (omega arith)
    run_ready_tasks_drains (suc fuel) e pays ok room enough =
        elim (List-cases (items e.task_queue)) [
          | inl empty ↦ (
            e,
            rw (A.pop_empty e.task_queue empty, run_ready_tasks),
            empty,
            ok,
            refl,
            omega arith,
          )
          | inr (id, rest, some_ids) ↦
              let (q, eq, iq, cq) = A.pop_first e.task_queue id rest some_ids in
              let e1 : Executor A F poll = record e { task_queue = q } in
              let ok1 : IsConsistent A F poll e1 = record {
                keys = ok.keys;
                wakers = ok.wakers;
                cached = ok.cached;
              } in
              let less : potential e1 + 1 ≡ potential e =
                omega (arith, ap length iq, ap length some_ids) in
              elim (Option-cases (lookup id e.tasks)) [
                | inl gone ↦
                    let (e2, r2, i2, ok2, cap2, low2) =
                      run_ready_tasks_drains fuel e1 pays ok1 (omega (arith, cq)) (omega arith) in
                    (
                      e2,
                      rw (eq, run_ready_tasks, run_popped_stale e1 id gone) r2,
                      i2,
                      ok2,
                      omega (arith, cap2, cq),
                      low2,
                    )
                | inr (task, live) ↦
                    let (e2, er, ok2, lower, cap2, low2) =
                      live_round e1 id task pays ok1 live (omega (arith, cq)) in
                    let (e3, r3, i3, ok3, cap3, low3) =
                      run_ready_tasks_drains fuel e2 pays ok2 (omega (arith, cq, cap2))
                        (omega arith) in
                    (
                      e3,
                      rw (eq, run_ready_tasks, er) r3,
                      i3,
                      ok3,
                      omega (arith, cap3, cap2, cq),
                      omega (arith, low2, low3),
                    )
              ]
        ]

    -- Where every poll pays for the tasks that it wakes, and the queue has room for the whole
    -- potential, the loop of `run_ready_tasks` does not panic and comes to an end, with nothing
    -- left to poll.
    pub run_ready_tasks_ends :
        (fuel : ℕ) (e : Executor A F poll)
        → Pays
        → IsConsistent A F poll e
        → potential e ≤ capacity e.task_queue
        → potential e < fuel
        → (e' : Executor A F poll) × (run_ready_tasks A F poll fuel e ≡ done e')
          × (items e'.task_queue ≡ [])
          × IsConsistent A F poll e'
    run_ready_tasks_ends fuel e pays ok room enough =
        let (e', r, empty, ok', same, lower) = run_ready_tasks_drains fuel e pays ok room enough in
        (e', r, empty, ok')
