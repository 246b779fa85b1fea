-- ===== src/Tasks.antt =====
-- kernel/src/task/mod.rs and executor.rs: tasks and the executor. A panic is `none`.
pub mod Maps
pub mod Queue
pub mod Consistent
pub mod Ends
pub mod Fair
pub mod Rounds
pub mod Sleep
pub mod Simple
pub mod Samples
mod Tests
use zulu_os.Base.{
  ℕ, zero, suc, ◌+◌, ◌%◌, Bool, true, false, List, [], ◌∷◌, Option, none, some, ◌>>=◌, usize_mod,
  if◌then◌else◌,
}
use Maps.{lookup, insert, remove}
use Queue.{ArrayQueue}

-- What one call of `poll` on a future does: its answer, the future after it, and the tasks that are
-- woken while it runs, by the future itself or by interrupts, in order.
pub record Polled (F : Type 0) : Type 0 where
  pub ready : Bool
  pub future : F
  pub woken : List ℕ

pub record Task (F : Type 0) : Type 0 where
  pub future : F
  pub id : ℕ

abbrev pub max_tasks : ℕ
max_tasks = 128

-- `TaskId::new`: the id, and the counter after it. An atomic addition wraps.
pub task_id_new : ℕ → ℕ × ℕ
task_id_new next_id = (next_id, (next_id + 1) % usize_mod)

-- `Task::new`
pub task_new : {F : Type 0} → F → ℕ → Task F × ℕ
unfolding task_id_new
task_new future next_id =
    let (id, next_id') = task_id_new next_id in (record { future = future; id = id }, next_id')

-- How a loop ends: by its test, in a panic, or not within the fuel.
pub data Run (S : Type 0) : Type 0 where
  done : S → Run S
  panicked out_of_fuel : Run S

-- `poll` is handed the id that the waker holds.
module _ (A : ArrayQueue) (F : Type 0) (poll : F → ℕ → Polled F) where
  open A use {Q, push, pop, is_empty}

  -- A waker is the id that it pushes; the queue that it pushes to is the executor's.
  pub record Executor : Type 0 where
    pub tasks : List (ℕ × Task F)
    pub task_queue : Q
    pub waker_cache : List (ℕ × ℕ)

  pub executor_new : Executor
  executor_new = record { tasks = []; task_queue = A.new max_tasks; waker_cache = [] }

  pub spawn : Executor → Task F → Option Executor
  spawn e task = elim (lookup task.id e.tasks) [
    | some old ↦ none
    | none ↦ do
      queue ← push task.id e.task_queue
      some (record e { tasks = insert task.id task e.tasks; task_queue = queue })
  ]

  -- `TaskWaker::wake_task`, for each task woken during a poll
  pub wake_all : List ℕ → Q → Option Q
  wake_all [] queue = some queue
  wake_all (id ∷ ids) queue = do queue' ← push id queue; wake_all ids queue'

  -- `waker_cache.entry(id).or_insert_with(…)`: the waker, and the cache after it
  pub waker_entry : ℕ → List (ℕ × ℕ) → ℕ × List (ℕ × ℕ)
  waker_entry id cache = elim (lookup id cache) [
    | some waker ↦ (waker, cache)
    | none ↦ (id, insert id id cache)
  ]

  -- what the poll of a task leaves behind
  pub settle : Executor → ℕ → Task F → Polled F → List (ℕ × ℕ) → Q → Executor
  settle e id task polled cache queue =
      if polled.ready
      then record { tasks = remove id e.tasks; task_queue = queue; waker_cache = remove id cache }
      else record {
        tasks = insert id (record task { future = polled.future }) e.tasks;
        task_queue = queue;
        waker_cache = cache;
      }

  pub poll_task : Executor → ℕ → Task F → Option Executor
  unfolding waker_entry settle
  poll_task e id task = do
    let (waker, cache) = waker_entry id e.waker_cache
    let polled = poll task.future waker
    queue ← wake_all polled.woken e.task_queue
    some (settle e id task polled cache queue)

  -- the body of the loop of `run_ready_tasks`, for a popped id
  pub run_popped : Executor → ℕ → Option Executor
  run_popped e id = elim (lookup id e.tasks) [ none ↦ some e | some task ↦ poll_task e id task ]

  pub run_ready_tasks : ℕ → Executor → Run Executor
  run_ready_tasks zero e = out_of_fuel
  run_ready_tasks (suc fuel) e = elim (pop e.task_queue) [
    | none ↦ done e
    | some (id, queue) ↦ elim (run_popped (record e { task_queue = queue }) id) [
      | none ↦ panicked
      | some e' ↦ run_ready_tasks fuel e'
    ]
  ]
