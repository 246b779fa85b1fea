-- ===== src/Tasks/Tests.antt =====
-- The executor's theorems at concrete tasks.
use zulu_os.Base.{
  ℕ, zero, suc, ◌+◌, ◌≤◌, ◌≡◌, refl, true, false, List, [], ◌∷◌, some, length, arith, if◌then◌else◌,
}
use zulu_os.Tasks.Maps.{lookup, total}
use zulu_os.Tasks.{Task, Executor, run_ready_tasks, done}
use zulu_os.Tasks.Consistent.{IsConsistent}
use zulu_os.Tasks.Fair.{waiting_polled}
use zulu_os.Tasks.Rounds.{Woken, is_nil, run, run_lem, sleep_if_idle, woken_polled}
use zulu_os.Tasks.Sleep.{
  Cpu, Reach, here, next_step, disables, tests, enables, halted, running, after_test, halted_idle,
}
use zulu_os.Base.{Bool, true, false, ◌<◌, ◌==◌}
use zulu_os.Tasks.Simple.{simple_run, IsGoal, AllReached, simple_run_ends}
use zulu_os.Tasks.Samples.{list_queue, count_down, none_in}

-- A task with three turns to go, and an executor that holds it.
abbrev three_turns : Task ℕ
three_turns = record { future = 3; id = 7 }

abbrev one_task : Executor list_queue ℕ count_down
one_task = record {
  tasks = (7, three_turns) ∷ [];
  task_queue = record { limit = 128; held = 7 ∷ [] };
  waker_cache = [];
}

one_task-IsConsistent : IsConsistent list_queue ℕ count_down one_task
unfolding lookup
one_task-IsConsistent = record {
  keys = λ id t e. ground arith;
  wakers = λ id w e. absurd (ground arith);
  cached = λ id e. refl;
}

count_down-Pays :
    (f id : ℕ)
    → (if (count_down f id).ready then 0 else (count_down f id).future)
        + length (count_down f id).woken
      ≤ f
unfolding count_down
count_down-Pays zero id = omega arith
count_down-Pays (suc n) id = omega arith

-- A round in which 7 is woken during the sleep, and one in which an id of no task is woken before it.
abbrev two_rounds : List Woken
two_rounds = (record { late = []; asleep = 7 ∷ [] }) ∷ (record { late = 9 ∷ []; asleep = [] }) ∷ []

run_lem_example :
    (e' : Executor list_queue ℕ count_down) × (run list_queue ℕ count_down 200 two_rounds one_task
      ≡ done (true ∷ false ∷ [], e'))
    × (e'.task_queue.held ≡ [])
    × IsConsistent list_queue ℕ count_down e'
unfolding total is_nil
run_lem_example =
    run_lem list_queue ℕ count_down (λ f. f) two_rounds 200 1 one_task count_down-Pays
      one_task-IsConsistent (omega arith) (omega arith) (omega arith, (omega arith, tt))
      (omega arith)

-- Two tasks, the second one behind the first.
abbrev two_tasks : Executor list_queue ℕ count_down
two_tasks = record {
  tasks = (3, record { future = 1; id = 3 }) ∷ (7, three_turns) ∷ [];
  task_queue = record { limit = 128; held = 3 ∷ 7 ∷ [] };
  waker_cache = [];
}

two_tasks-IsConsistent : IsConsistent list_queue ℕ count_down two_tasks
unfolding lookup
two_tasks-IsConsistent = record {
  keys = λ id t e. ground arith;
  wakers = λ id w e. absurd (ground arith);
  cached = λ id e. refl;
}

waiting_polled_example :
    (e' : Executor list_queue ℕ count_down) × ((fuel : ℕ)
      → run_ready_tasks list_queue ℕ count_down (suc (1 + fuel)) two_tasks
        ≡ run_ready_tasks list_queue ℕ count_down fuel e')
    × (lookup 7 e'.tasks ≡ some (record { future = 2; id = 7 }))
unfolding lookup total count_down
waiting_polled_example =
    waiting_polled list_queue ℕ count_down (λ f. f) (3 ∷ []) [] two_tasks 7 three_turns
      count_down-Pays two_tasks-IsConsistent (omega arith) refl (omega arith, tt) refl

-- An executor that has nothing to do, and whose task 7 is woken in its sleep, behind an id of no task.
abbrev idle_executor : Executor list_queue ℕ count_down
idle_executor = record {
  tasks = (7, three_turns) ∷ [];
  task_queue = record { limit = 128; held = [] };
  waker_cache = [];
}

idle_executor-IsConsistent : IsConsistent list_queue ℕ count_down idle_executor
unfolding lookup
idle_executor-IsConsistent = record {
  keys = λ id t e. ground arith;
  wakers = λ id w e. absurd (ground arith);
  cached = λ id e. refl;
}

woken_polled_example :
    (e1 : Executor list_queue ℕ count_down) × (e2 : Executor list_queue ℕ count_down)
    × (sleep_if_idle list_queue ℕ count_down
          (record { late = []; asleep = 9 ∷ 7 ∷ [] })
          idle_executor
        ≡ some (true, e1))
    × ((fuel : ℕ)
        → run_ready_tasks list_queue ℕ count_down (suc (1 + fuel)) e1
          ≡ run_ready_tasks list_queue ℕ count_down fuel e2)
    × (lookup 7 e2.tasks ≡ some (record { future = 2; id = 7 }))
unfolding lookup total count_down is_nil
woken_polled_example =
    woken_polled list_queue ℕ count_down (λ f. f) [] (9 ∷ []) [] idle_executor 7 three_turns
      count_down-Pays idle_executor-IsConsistent refl (omega arith) (omega arith, tt) refl

-- The CPU goes to sleep; with a task in the queue it would not.
abbrev cpu_at : Cpu list_queue
cpu_at = record {
  place = running;
  interrupts = true;
  task_queue = record { limit = 128; held = [] };
}

abbrev asleep_cpu : Cpu list_queue
asleep_cpu = record {
  place = halted;
  interrupts = true;
  task_queue = record { limit = 128; held = [] };
}

asleep_cpu_reached : Reach list_queue cpu_at asleep_cpu
unfolding after_test none_in
asleep_cpu_reached =
    next_step (next_step (next_step here (disables refl refl)) (tests refl refl))
      (enables true refl refl)

halted_idle_example : none_in [] ≡ true
halted_idle_example = halted_idle list_queue cpu_at asleep_cpu refl asleep_cpu_reached refl

-- A future of the simple executor: the polls that it still needs, and the number that it prints then.
unfoldable counts : ℕ × ℕ → List ℕ → Bool × ((ℕ × ℕ) × List ℕ)
counts (zero, name) printed = (true, ((0, name), name ∷ printed))
counts (suc n, name) printed = (false, ((n, name), printed))

counts-Progresses : (f : ℕ × ℕ) (w : List ℕ) → (counts f w).0 ≡ false → (counts f w).1.0.0 < f.0
unfolding counts
counts-Progresses (zero, name) w e = absurd (cc)
counts-Progresses (suc n, name) w e = omega arith

unfoldable has : ℕ → List ℕ → Bool
has name [] = false
has name (n ∷ printed) = if n == name then true else has name printed

abbrev PrintedBy : ℕ × ℕ → List ℕ → Type 0
PrintedBy f w = has f.1 w ≡ true

counts-reached : (f : ℕ × ℕ) (w : List ℕ) → (counts f w).0 ≡ true → PrintedBy f (counts f w).1.1
unfolding counts has
counts-reached (zero, name) w e = ground arith
counts-reached (suc n, name) w e = absurd (cc)

counts-passed_on :
    (f : ℕ × ℕ) (w v : List ℕ)
    → (counts f w).0 ≡ false
    → PrintedBy (counts f w).1.0 v
    → PrintedBy f v
unfolding counts
counts-passed_on (zero, name) w v e goal = goal
counts-passed_on (suc n, name) w v e goal = goal

counts-kept : (f g : ℕ × ℕ) (w : List ℕ) → PrintedBy g w → PrintedBy g (counts f w).1.1
unfolding counts has
counts-kept (zero, name) g w goal = ground arith
counts-kept (suc n, name) g w goal = goal

counts-IsGoal : IsGoal (ℕ × ℕ) (List ℕ) counts (λ f. f.0) PrintedBy
counts-IsGoal = record {
  reached = counts-reached;
  passed_on = counts-passed_on;
  kept = counts-kept;
}

abbrev two_futures : List (Task (ℕ × ℕ))
two_futures = record { future = (3, 70); id = 7 } ∷ record { future = (1, 80); id = 8 } ∷ []

simple_run_ends_example :
    (v : List ℕ) × (simple_run (ℕ × ℕ) (List ℕ) counts 8 two_futures []
      ≡ done (record { task_queue = [] }, v))
    × AllReached (ℕ × ℕ) (List ℕ) counts (λ f. f.0) PrintedBy two_futures v
simple_run_ends_example =
    simple_run_ends (ℕ × ℕ) (List ℕ) counts (λ f. f.0) PrintedBy 8 two_futures [] counts-Progresses
      counts-IsGoal (omega arith)
