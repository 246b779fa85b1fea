-- ===== src/Tasks/Simple.antt =====
-- kernel/src/task/simple_executor.rs: the executor that polls its tasks in turn.
use zulu_os.Base.{
  ℕ, zero, suc, ◌+◌, ◌<◌, ◌≡◌, refl, ap, sym, ◌∙◌, subst, Bool, true, false, List, [], ◌∷◌, ◌++◌,
  arith, if◌then◌else◌, inl, inr, Bool-cases,
}
use zulu_os.Tasks.{Task, Run, done, out_of_fuel}

-- `poll` is what a future does with a waker that wakes nothing, in a state of everything outside: whether
-- it is ready, the future after the call, and what it leaves outside.
module _ (F W : Type 0) (poll : F → W → Bool × (F × W)) where
  pub record SimpleExecutor : Type 0 where
    pub task_queue : List (Task F)

  pub simple_new : SimpleExecutor
  simple_new = record { task_queue = [] }

  pub simple_spawn : SimpleExecutor → Task F → SimpleExecutor
  simple_spawn e task = record { task_queue = e.task_queue ++ (task ∷ []) }

  -- The queue after one task of it was popped and polled, and the outside.
  pub run_first : Task F → List (Task F) → W → List (Task F) × W
  run_first task queue w = if (poll task.future w).0 then (queue, (poll task.future w).1.1) else (
    queue ++ (record task { future = (poll task.future w).1.0 } ∷ []),
    (poll task.future w).1.1,
  )

  -- The loop of `run`, on fuel.
  pub simple_run : ℕ → List (Task F) → W → Run (SimpleExecutor × W)
  unfolding run_first
  simple_run zero queue w = out_of_fuel
  simple_run (suc fuel) [] w = done (record { task_queue = [] }, w)
  simple_run (suc fuel) (task ∷ queue) w =
      simple_run fuel ((run_first task queue w).0) ((run_first task queue w).1)

  module _ (turns : F → ℕ) (Goal : F → W → Type 0) where
    -- Each poll that is not ready brings the future nearer to its end.
    abbrev pub Progresses : Type 0
    Progresses = (f : F) (w : W) → (poll f w).0 ≡ false → turns (poll f w).1.0 < turns f

    -- A poll that is ready reaches the goal of its future, a poll that is not leaves it to the rest of
    -- the future, and no poll undoes a goal that is reached.
    pub record IsGoal : Type 0 where
      pub reached : (f : F) (w : W) → (poll f w).0 ≡ true → Goal f (poll f w).1.1
      pub passed_on : (f : F) (w v : W) → (poll f w).0 ≡ false → Goal (poll f w).1.0 v → Goal f v
      pub kept : (f g : F) (w : W) → Goal g w → Goal g (poll f w).1.1

    abbrev pub AllReached : List (Task F) → W → Type 0
    AllReached [] w = Unit {0}
    AllReached (task ∷ queue) w = Goal task.future w × AllReached queue w

    abbrev pub polls_left : List (Task F) → ℕ
    polls_left [] = 0
    polls_left (task ∷ queue) = suc (turns task.future) + polls_left queue

    polls_left-append :
        (queue more : List (Task F))
        → polls_left (queue ++ more) ≡ polls_left queue + polls_left more
    polls_left-append [] more = omega arith
    polls_left-append (task ∷ queue) more = omega (arith, polls_left-append queue more)

    run_first-polls_left :
        (task : Task F) (queue : List (Task F)) (w : W)
        → Progresses
        → polls_left (run_first task queue w).0 < polls_left (task ∷ queue)
    unfolding run_first
    run_first-polls_left task queue w progresses = elim (Bool-cases ((poll task.future w).0)) [
      | inl ready ↦ rw (ready, run_first) (omega arith)
      | inr pending ↦
          let later : Task F = record task { future = (poll task.future w).1.0 } in
          rw (pending, run_first)
            (omega (arith, polls_left-append queue (later ∷ []), progresses task.future w pending))
    ]

    AllReached-split :
        (queue : List (Task F)) (last : Task F) (w : W)
        → AllReached (queue ++ last ∷ []) w
        → AllReached queue w × Goal last.future w
    AllReached-split [] last w all = (tt, all.0)
    AllReached-split (task ∷ queue) last w all =
        let (front, back) = AllReached-split queue last w all.1 in ((all.0, front), back)

    simple_run-keeps :
        (fuel : ℕ) (queue : List (Task F)) (w v : W) (g : F)
        → IsGoal
        → Goal g w
        → simple_run fuel queue w ≡ done (record { task_queue = [] }, v)
        → Goal g v
    unfolding simple_run run_first
    simple_run-keeps zero queue w v g ok goal e = absurd (cc)
    simple_run-keeps (suc fuel) [] w v g ok goal e = subst (Goal g) (ground arith) goal
    simple_run-keeps (suc fuel) (task ∷ queue) w v g ok goal e =
        elim (Bool-cases ((poll task.future w).0)) [
          | inl ready ↦
              simple_run-keeps fuel queue ((poll task.future w).1.1) v g ok
                (ok.kept task.future g w goal) (ground arith)
          | inr pending ↦
              simple_run-keeps fuel
                (queue ++ (record task { future = (poll task.future w).1.0 } ∷ []))
                ((poll task.future w).1.1) v g ok (ok.kept task.future g w goal) (ground arith)
        ]

    -- Where every poll that is not ready brings its future nearer to its end, `run` comes to an
    -- end and leaves no task, and the goal of every task that was in the queue is reached, whatever
    -- the futures' goals are, if a poll that is ready reaches the goal of its future, a poll that is
    -- not leaves it to the rest of the future, and no poll undoes one that is reached. The polls that
    -- are left bound the rounds.
    pub simple_run_ends :
        (fuel : ℕ) (queue : List (Task F)) (w : W)
        → Progresses
        → IsGoal
        → polls_left queue < fuel
        → (v : W) × (simple_run fuel queue w ≡ done (record { task_queue = [] }, v))
          × AllReached queue v
    unfolding simple_run run_first
    simple_run_ends zero queue w progresses ok enough = absurd (omega arith)
    simple_run_ends (suc fuel) [] w progresses ok enough = (w, refl, tt)
    simple_run_ends (suc fuel) (task ∷ queue) w progresses ok enough =
        let (v, e, all) =
          simple_run_ends fuel ((run_first task queue w).0) ((run_first task queue w).1) progresses
            ok (omega (arith, run_first-polls_left task queue w progresses)) in
        let w1 : W = (poll task.future w).1.1 in
        let later : Task F = record task { future = (poll task.future w).1.0 } in
        elim (Bool-cases ((poll task.future w).0)) [
          | inl ready ↦
              let popped : run_first task queue w ≡ (queue, w1) = rw (ready, run_first) refl in
              let e1 : simple_run fuel queue w1 ≡ done (record { task_queue = [] }, v) =
                sym (ap (λ r. simple_run fuel r.0 r.1) popped) ∙ e in
              let its : Goal task.future v =
                simple_run-keeps fuel queue w1 v task.future ok (ok.reached task.future w ready)
                  e1 in
              (v, e, (its, subst (λ r. AllReached r.0 v) popped all))
          | inr pending ↦
              let pushed : run_first task queue w ≡ (queue ++ later ∷ [], w1) =
                rw (pending, run_first) refl in
              let (front, back) =
                AllReached-split queue later v (subst (λ r. AllReached r.0 v) pushed all) in
              (v, e, (ok.passed_on task.future w v pending back, front))
        ]
