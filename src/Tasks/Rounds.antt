-- ===== src/Tasks/Rounds.antt =====
-- The whole of `Executor::run` (kernel/src/task/executor.rs): rounds of the ready tasks and of sleep,
-- with what interrupts wake meanwhile.
use zulu_os.Base.{
  suc, sym, ℕ, ◌+◌, ◌≤◌, ◌<◌, ◌≡◌, refl, ◌∙◌, ap, Bool, true, false, List, [], ◌∷◌, ◌++◌, Option,
  none, some, arith, length, length-append,
}
use mathlib.Core.List.{append_assoc}
use zulu_os.Tasks.Maps.{lookup, total}
use zulu_os.Tasks.Queue.{ArrayQueue}
use zulu_os.Tasks.{
  Polled, Task, Executor, Run, done, panicked, out_of_fuel, wake_all, run_ready_tasks,
}
use zulu_os.Tasks.Consistent.{IsConsistent, wake_all_lem}
use zulu_os.Tasks.Fair.{Absent, polled, waiting_polled}
use zulu_os.Tasks.Ends.{Pays, task_cost, potential, run_ready_tasks_drains}

-- The tasks that interrupts wake in a round once the queue is found empty: before interrupts are
-- masked for the test, and from the test's branch on, which is where a sleep ends.
pub record Woken : Type 0 where
  pub late : List ℕ
  pub asleep : List ℕ

infixl 5 ◌>>=◌
abbrev pub ◌>>=◌ : {S T : Type 0} → Run S → (S → Run T) → Run T
done s >>= f = f s
panicked >>= f = panicked
out_of_fuel >>= f = out_of_fuel

abbrev pub or_panic : {S : Type 0} → Option S → Run S
or_panic none = panicked
or_panic (some s) = done s

unfoldable pub is_nil : List ℕ → Bool
is_nil [] = true
is_nil (x ∷ xs) = false

abbrev pub sleeps : List Woken → List Bool
sleeps [] = []
sleeps (woken ∷ rounds) = is_nil woken.late ∷ sleeps rounds

module _ (A : ArrayQueue) (F : Type 0) (poll : F → ℕ → Polled F) where
  open A use {Q, is_empty, items, capacity}

  -- `sleep_if_idle`: whether the core sleeps, and the executor after it.
  pub sleep_if_idle : Woken → Executor A F poll → Option (Bool × Executor A F poll)
  sleep_if_idle woken e = elim (wake_all A F poll woken.late e.task_queue) [
    | none ↦ none
    | some queue ↦ elim (wake_all A F poll woken.asleep queue) [
      | none ↦ none
      | some queue' ↦ some (is_empty queue, record e { task_queue = queue' })
    ]
  ]

  -- The first rounds of `run`, as many as there are in the list, and the ready tasks of the next one:
  -- in which rounds the core sleeps, and the executor.
  pub run : ℕ → List Woken → Executor A F poll → Run (List Bool × Executor A F poll)
  run fuel [] e = do e' ← run_ready_tasks A F poll fuel e; done ([], e')
  run fuel (woken ∷ rounds) e = do
    e1 ← run_ready_tasks A F poll fuel e
    (slept, e2) ← or_panic (sleep_if_idle woken e1)
    (answers, e3) ← run fuel rounds e2
    done (slept ∷ answers, e3)

  is_empty-is_nil : (q : Q) (l : List ℕ) → items q ≡ l → is_empty q ≡ is_nil l
  unfolding is_nil
  is_empty-is_nil q [] e = A.is_empty_nil q e
  is_empty-is_nil q (x ∷ xs) e = A.is_empty_cons q x xs e

  -- With an empty queue and room for all that interrupts wake.
  pub sleep_if_idle_lem :
      (woken : Woken) (e : Executor A F poll)
      → items e.task_queue ≡ []
      → length woken.late + length woken.asleep ≤ capacity e.task_queue
      → (q : Q) × (sleep_if_idle woken e ≡ some (is_nil woken.late, record e { task_queue = q }))
        × (items q ≡ woken.late ++ woken.asleep)
        × (capacity q ≡ capacity e.task_queue)
  unfolding sleep_if_idle
  sleep_if_idle_lem woken e empty room =
      let none_held : length (items e.task_queue) ≡ 0 = ap length empty in
      let (q, eq, iq, cq) =
        wake_all_lem A F poll woken.late e.task_queue (omega (arith, none_held)) in
      let held : items q ≡ woken.late = iq ∙ ap (λ l. l ++ woken.late) empty in
      let (q', eq', iq', cq') =
        wake_all_lem A F poll woken.asleep q (omega (arith, ap length held, cq)) in
      (
        q',
        rw (eq, sleep_if_idle, eq', is_empty-is_nil q woken.late held) refl,
        iq' ∙ ap (λ l. l ++ woken.asleep) held,
        omega (arith, cq, cq'),
      )

  module _ (cost : F → ℕ) where
    -- What interrupts wake in each round fits into a queue, next to the budgets.
    abbrev pub AllFit : ℕ → List Woken → Type 0
    AllFit room [] = Unit {0}
    AllFit room (woken ∷ rounds) =
        (length woken.late + length woken.asleep ≤ room) × AllFit room rounds

    -- Where the tables of the executor agree, every poll pays for the tasks that it wakes, the queue has
    -- room for the whole potential and, next to the budgets, for what interrupts wake in each round,
    -- and each round has more fuel than the queue has room for: `run` does not panic however many
    -- rounds it goes through. The core sleeps in just those rounds in which no task was woken
    -- before the test, and after the ready tasks of the round that follows nothing is left in
    -- the queue.
    pub run_lem :
        (rounds : List Woken) (fuel room : ℕ) (e : Executor A F poll)
        → Pays A F poll cost
        → IsConsistent A F poll e
        → potential A F poll cost e ≤ capacity e.task_queue
        → room + total (task_cost A F poll cost) e.tasks ≤ capacity e.task_queue
        → AllFit room rounds
        → capacity e.task_queue < fuel
        → (e' : Executor A F poll) × (run fuel rounds e ≡ done (sleeps rounds, e'))
          × (items e'.task_queue ≡ [])
          × IsConsistent A F poll e'
    unfolding run
    run_lem [] fuel room e pays ok fits budget fit enough =
        let (e', r, empty, ok', cap, low) =
          run_ready_tasks_drains A F poll cost fuel e pays ok fits (omega arith) in
        (e', rw (r, run) refl, empty, ok')
    run_lem (woken ∷ rounds) fuel room e pays ok fits budget fit enough =
        let (e1, r1, empty, ok1, cap, low) =
          run_ready_tasks_drains A F poll cost fuel e pays ok fits (omega arith) in
        let (q, r2, iq, cq) = sleep_if_idle_lem woken e1 empty (omega (arith, fit.0, cap)) in
        let e2 : Executor A F poll = record e1 { task_queue = q } in
        let ok2 : IsConsistent A F poll e2 = record {
          keys = ok1.keys;
          wakers = ok1.wakers;
          cached = ok1.cached;
        } in
        let (e3, r3, end, ok3) =
          run_lem rounds fuel room e2 pays ok2
            (omega
              (arith, ap length iq, length-append woken.late woken.asleep, cap, cq, fit.0, low))
            (omega (arith, cap, cq, low)) fit.1 (omega (arith, cap, cq)) in
        (e3, rw (r1, run, r2, r3) refl, end, ok3)

    -- Where the tables of the executor agree, every poll pays for the tasks that it wakes, and the queue has
    -- room for the whole potential and for what interrupts wake: a live task that an interrupt wakes
    -- while the core sleeps, and that is not among those woken before it, is polled in the ready
    -- tasks of the next round, as soon as these have been polled once.
    pub woken_polled :
        (late before after : List ℕ) (e : Executor A F poll) (id : ℕ) (task : Task F)
        → Pays A F poll cost
        → IsConsistent A F poll e
        → items e.task_queue ≡ []
        → total (task_cost A F poll cost) e.tasks + length late + length (before ++ id ∷ after)
          ≤ capacity e.task_queue
        → Absent id (late ++ before)
        → lookup id e.tasks ≡ some task
        → (e1 : Executor A F poll) × (e2 : Executor A F poll) × (sleep_if_idle
              (record { late = late; asleep = before ++ id ∷ after })
              e
            ≡ some (is_nil late, e1))
          × ((fuel : ℕ)
              → run_ready_tasks A F poll (suc (length (late ++ before) + fuel)) e1
                ≡ run_ready_tasks A F poll fuel e2)
          × (lookup id e2.tasks ≡ polled A F poll cost id task)
    woken_polled late before after e id task pays ok empty room away live =
        let woken : Woken = record { late = late; asleep = before ++ id ∷ after } in
        let (q, slept, iq, cq) = sleep_if_idle_lem woken e empty (omega (arith, room)) in
        let e1 : Executor A F poll = record e { task_queue = q } in
        let ok1 : IsConsistent A F poll e1 = record {
          keys = ok.keys;
          wakers = ok.wakers;
          cached = ok.cached;
        } in
        let (e2, go, left) =
          waiting_polled A F poll cost (late ++ before) after e1 id task pays ok1
            (omega (arith, room, cq, ap length iq, length-append late (before ++ id ∷ after)))
            (iq ∙ sym (append_assoc late before (id ∷ after))) away live in
        (e1, e2, slept, go, left)
