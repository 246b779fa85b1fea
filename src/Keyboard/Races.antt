-- ===== src/Keyboard/Races.antt =====
-- The steps of `poll_next` and the keyboard interrupt between any two of them
-- (kernel/src/task/keyboard.rs).
use zulu_os.Base.{ℕ, ◌≡◌, ◌⊎◌, List, [], ◌∷◌, ◌++◌, none, some}
use zulu_os.Tasks.Queue.{ArrayQueue}
use zulu_os.Keyboard.{
  AtomicWaker, ready, pending, Statics, pop_scancode, register_waker, poll_again, add_scancode,
}

-- Where the task is in `poll_next`: outside it (or about to return a scancode), past the first
-- look into the queue, past the registration, or asleep after it returned `Pending`.
pub data Place : Type 0 where
  outside looked registered_waker asleep : Place

module _ (A : ArrayQueue) (K : AtomicWaker) (task : ℕ) where
  open A use {Q, items, capacity}

  -- `noted` is the tasks that had been woken when the waker was registered.
  pub record Scene : Type 0 where
    pub place : Place
    pub statics : Statics A K
    pub noted : List ℕ

  -- The steps of the task that polls the stream, and the keyboard interrupt between any two of
  -- them. A poll may begin whenever the task is outside or asleep: executors may poll too often.
  pub data Step (s t : Scene) : Type 0 where
    finds :
        (scancode : ℕ) (s' : Statics A K)
        → (s.place ≡ outside) ⊎ (s.place ≡ asleep)
        → pop_scancode A K s.statics ≡ some (some scancode, s')
        → t ≡ record s { place = outside; statics = s' }
        → Step s t
    misses :
        (s' : Statics A K)
        → (s.place ≡ outside) ⊎ (s.place ≡ asleep)
        → pop_scancode A K s.statics ≡ some (none, s')
        → t ≡ record s { place = looked; statics = s' }
        → Step s t
    registers :
        s.place ≡ looked
        → t ≡ record {
          place = registered_waker;
          statics = register_waker A K task s.statics;
          noted = s.statics.woken;
        }
        → Step s t
    finds_again :
        (scancode : ℕ) (s' : Statics A K)
        → s.place ≡ registered_waker
        → poll_again A K s.statics ≡ some (ready scancode, s')
        → t ≡ record s { place = outside; statics = s' }
        → Step s t
    sleeps :
        (s' : Statics A K)
        → s.place ≡ registered_waker
        → poll_again A K s.statics ≡ some (pending, s')
        → t ≡ record s { place = asleep; statics = s' }
        → Step s t
    strikes :
        (scancode : ℕ) → t ≡ record s { statics = add_scancode A K scancode s.statics } → Step s t

  pub data Reach (s : Scene) : Scene → Type 0 where
    here : Reach s s
    next_step : {t u : Scene} → Reach s t → Step t u → Reach s u

  -- The task has been woken since the registration.
  abbrev pub Woken : Scene → Type 0
  Woken s = (news : List ℕ) × (s.statics.woken ≡ news ++ (task ∷ s.noted))

  -- Its waker is still registered, and nothing has been woken.
  abbrev pub Waiting : Scene → Type 0
  Waiting s = (K.registered s.statics.waker ≡ some task) × (s.statics.woken ≡ s.noted)

  -- While the task sleeps: it has been woken, or its waker is registered and the queue is empty.
  abbrev pub Covered : Scene → Type 0
  Covered s = (q : Q) → s.statics.scancode_queue ≡ some q → Woken s ⊎ (Waiting s × (items q ≡ []))

  pub record IsCovered (s : Scene) : Type 0 where
    pub armed : s.place ≡ registered_waker → (Woken s ⊎ Waiting s)
    pub covered : s.place ≡ asleep → Covered s
