-- ===== src/Keyboard.antt =====
-- kernel/src/task/keyboard.rs: scancodes go from the interrupt handler through a queue to the
-- stream that a task polls. A panic is `none`.
pub mod Races
pub mod Wakeups
pub mod Keypresses
pub mod Typing
pub mod Samples
mod Tests
use zulu_os.Base.{ℕ, ◌+◌, ◌≡◌, Bool, true, false, List, [], ◌∷◌, ◌++◌, Option, none, some, ◌>>=◌}
use zulu_os.Tasks.Queue.{ArrayQueue}

-- What the stream takes from `AtomicWaker` of `futures-util`; a waker is the id of its task.
pub record AtomicWaker : Type 1 where
  pub W : Type 0
  pub new : W
  pub register : ℕ → W → W
  pub take : W → Option ℕ × W
  pub registered : W → Option ℕ
  pub new_empty : registered new ≡ none
  pub register_lem : (id : ℕ) (w : W) → registered (register id w) ≡ some id
  pub take_lem : (w : W) → ((take w).0 ≡ registered w) × (registered (take w).1 ≡ none)

-- `Poll<Option<u8>>`; the stream never ends.
pub data Poll : Type 0 where
  ready : ℕ → Poll
  pending : Poll

module _ (A : ArrayQueue) (K : AtomicWaker) where
  open A use {Q, push, pop}
  open K use {W, register, take}

  -- The two statics, and what the handler has done besides: the tasks woken, newest first, and the
  -- warnings printed.
  pub record Statics : Type 0 where
    pub scancode_queue : Option Q
    pub waker : W
    pub woken : List ℕ
    pub warnings : ℕ

  -- `ScancodeStream::new`: the queue is made once.
  pub stream_new : Statics → Statics
  stream_new s = elim s.scancode_queue [
    | none ↦ record s { scancode_queue = some (A.new 128) }
    | some queue ↦ s
  ]

  -- `queue.pop()`: the scancode, if there is one; no queue is a panic.
  pub pop_scancode : Statics → Option (Option ℕ × Statics)
  pop_scancode s = do
    queue ← s.scancode_queue
    elim (pop queue) [
      | none ↦ some (none, s)
      | some (scancode, queue') ↦ some (some scancode, record s { scancode_queue = some queue' })
    ]

  -- `WAKER.register(cx.waker())`
  pub register_waker : ℕ → Statics → Statics
  register_waker id s = record s { waker = register id s.waker }

  -- `let _ = WAKER.take()`
  pub drop_waker : Statics → Statics
  drop_waker s = record s { waker = (take s.waker).1 }

  -- the second look into the queue
  pub poll_again : Statics → Option (Poll × Statics)
  unfolding pop_scancode drop_waker
  poll_again s = do
    (found, s') ← pop_scancode s
    elim found [ none ↦ some (pending, s') | some scancode ↦ some (ready scancode, drop_waker s') ]

  -- `poll_next`, with no interrupt in between
  pub poll_next : ℕ → Statics → Option (Poll × Statics)
  unfolding pop_scancode register_waker poll_again
  poll_next id s = do
    (found, s') ← pop_scancode s
    elim found [
      | none ↦ poll_again (register_waker id s')
      | some scancode ↦ some (ready scancode, s')
    ]

  -- `WAKER.wake()`
  pub wake : Statics → Statics
  wake s = elim ((take s.waker).0) [
    | none ↦ record s { waker = (take s.waker).1 }
    | some id ↦ record s { waker = (take s.waker).1; woken = id ∷ s.woken }
  ]

  -- `add_scancode`, which the keyboard interrupt runs; a full queue drops the scancode.
  pub add_scancode : ℕ → Statics → Statics
  unfolding wake
  add_scancode scancode s = elim s.scancode_queue [
    | none ↦ record s { warnings = s.warnings + 1 }
    | some queue ↦ elim (push scancode queue) [
      | none ↦ s
      | some queue' ↦ wake (record s { scancode_queue = some queue' })
    ]
  ]
