-- ===== src/Tasks/Sleep.antt =====
-- Going to sleep: `Executor::sleep_if_idle` of kernel/src/task/executor.rs and
-- `wait_for_interrupts_if` of kernel/src/sys.rs, with interrupts between any two instructions that
-- leave them on. An interrupt may wake tasks, which pushes to the queue.
use zulu_os.Base.{ℕ, ◌≡◌, refl, Bool, true, false, some}
use zulu_os.Tasks.Queue.{ArrayQueue}

-- Where the CPU is: in the executor, after `disable`, after the test (with its answer), or halted.
pub data Place : Type 0 where
  running masked halted : Place
  tested : Bool → Place

-- An interrupt ends `hlt`.
unfoldable pub awake : Place → Place
awake halted = running
awake running = running
awake masked = masked
awake (tested b) = tested b

module _ (A : ArrayQueue) where
  open A use {Q, push, is_empty}

  pub record Cpu : Type 0 where
    pub place : Place
    pub interrupts : Bool
    pub task_queue : Q

  -- The branch taken on the test: `enable_and_hlt`, or `enable`.
  unfoldable pub after_test : Bool → Place
  after_test true = halted
  after_test false = running

  pub data Step (s t : Cpu) : Type 0 where
    disables : s.place ≡ running → t ≡ record s { place = masked; interrupts = false } → Step s t
    tests : s.place ≡ masked → t ≡ record s { place = tested (is_empty s.task_queue) } → Step s t
    enables :
        (answer : Bool)
        → s.place ≡ tested answer
        → t ≡ record s { place = after_test answer; interrupts = true }
        → Step s t
    interrupted :
        (id : ℕ) (queue : Q)
        → s.interrupts ≡ true
        → push id s.task_queue ≡ some queue
        → t ≡ record s { place = awake s.place; task_queue = queue }
        → Step s t

  pub data Reach (s : Cpu) : Cpu → Type 0 where
    here : Reach s s
    next_step : {t u : Cpu} → Reach s t → Step t u → Reach s u

  -- Interrupts are off from `disable` to the test's branch, an answer still holds, and a CPU that
  -- sleeps has an empty queue.
  pub record IsQuiet (s : Cpu) : Type 0 where
    pub off_masked : s.place ≡ masked → s.interrupts ≡ false
    pub off_tested : (b : Bool) → s.place ≡ tested b → s.interrupts ≡ false
    pub answer : (b : Bool) → s.place ≡ tested b → is_empty s.task_queue ≡ b
    pub asleep : s.place ≡ halted → is_empty s.task_queue ≡ true

  awake-IsQuiet :
      (p : Place) (s : Cpu) (queue : Q)
      → s.place ≡ p
      → s.interrupts ≡ true
      → IsQuiet s
      → IsQuiet (record s { place = awake p; task_queue = queue })
  unfolding awake
  awake-IsQuiet running s queue e on q = record {
    off_masked = λ h. absurd (cc);
    off_tested = λ b h. absurd (cc);
    answer = λ b h. absurd (cc);
    asleep = λ h. absurd (cc);
  }
  awake-IsQuiet halted s queue e on q = record {
    off_masked = λ h. absurd (cc);
    off_tested = λ b h. absurd (cc);
    answer = λ b h. absurd (cc);
    asleep = λ h. absurd (cc);
  }
  awake-IsQuiet masked s queue e on q = absurd (cc (q.off_masked e))
  awake-IsQuiet (tested b) s queue e on q = absurd (cc (q.off_tested b e))

  enables-IsQuiet :
      (b : Bool) (s : Cpu)
      → s.place ≡ tested b
      → IsQuiet s
      → IsQuiet (record s { place = after_test b; interrupts = true })
  unfolding after_test
  enables-IsQuiet true s e q = record {
    off_masked = λ h. absurd (cc);
    off_tested = λ b h. absurd (cc);
    answer = λ b h. absurd (cc);
    asleep = λ h. q.answer true e;
  }
  enables-IsQuiet false s e q = record {
    off_masked = λ h. absurd (cc);
    off_tested = λ b h. absurd (cc);
    answer = λ b h. absurd (cc);
    asleep = λ h. absurd (cc);
  }

  pub Step-IsQuiet : (s t : Cpu) → Step s t → IsQuiet s → IsQuiet t
  Step-IsQuiet s t (disables e et) q = rw et (record {
    off_masked = λ h. refl;
    off_tested = λ b h. refl;
    answer = λ b h. absurd (cc);
    asleep = λ h. absurd (cc);
  })
  Step-IsQuiet s t (tests e et) q = rw et (record {
    off_masked = λ h. q.off_masked e;
    off_tested = λ b h. q.off_masked e;
    answer = λ b h. cc;
    asleep = λ h. absurd (cc);
  })
  Step-IsQuiet s t (enables b e et) q = rw et (enables-IsQuiet b s e q)
  Step-IsQuiet s t (interrupted id queue on e et) q =
      rw et (awake-IsQuiet s.place s queue refl on q)

  Reach-IsQuiet : (s t : Cpu) → IsQuiet s → Reach s t → IsQuiet t
  Reach-IsQuiet s t q here = q
  Reach-IsQuiet s t q (next_step {t = m} r st) = Step-IsQuiet m t st (Reach-IsQuiet s m q r)

  -- From a state where the executor runs, and whenever interrupts come, the CPU never sleeps
  -- while a woken task waits in the queue.
  pub halted_idle :
      (s t : Cpu) → s.place ≡ running → Reach s t → t.place ≡ halted → is_empty t.task_queue ≡ true
  halted_idle s t e r h = (Reach-IsQuiet s t started r).asleep h
    where
      started : IsQuiet s
      started = record {
        off_masked = λ h. absurd (cc);
        off_tested = λ b h. absurd (cc);
        answer = λ b h. absurd (cc);
        asleep = λ h. absurd (cc);
      }
