-- ===== src/Keyboard/Typing.antt =====
-- From the keyboard to the screen (kernel/src/task/keyboard.rs): the task of `print_keypresses`, polled
-- when the interrupt has woken it.
pub mod Strikes
pub mod Polls
pub mod Shown
use zulu_os.Base.{
  ℕ, zero, suc, ◌+◌, ◌-◌, ◌≤◌, ◌<◌, ◌≡◌, refl, sym, ◌∙◌, ap, Bool, List, [], ◌∷◌, ◌++◌, Option,
  none, some, ◌>>=◌, arith, length, length-append, subst, dec_lt, take, map, Option-cases, inl, inr,
}
use mathlib.Core.List.{append_assoc, append-nil}
use zulu_os.Vga.{Volatile, Writer, shown_byte}
use zulu_os.Vga.Document.{Document, Shows, type_bytes}
use zulu_os.Tasks.Queue.{ArrayQueue}
use zulu_os.Keyboard.{
  AtomicWaker, Poll, ready, pending, Statics, pop_scancode, register_waker, poll_again, poll_next,
  wake, stream_new, add_scancode,
}
use zulu_os.Keyboard.Keypresses.{
  Decoder, print_event, print_keypresses, keys_text, print_keypresses_lem,
}

-- What the queue keeps of the scancodes that come while the task sleeps, batch by batch.
abbrev pub kept : ℕ → List (List ℕ) → List ℕ
kept limit [] = []
kept limit (batch ∷ batches) = take limit batch ++ kept limit batches

module _ (A : ArrayQueue) (W : AtomicWaker) where
  open A use {Q, items, capacity}
  open W use {registered}

  -- The interrupts of a batch of scancodes.
  pub strike : List ℕ → Statics A W → Statics A W
  strike [] s = s
  strike (scancode ∷ scancodes) s = strike scancodes (add_scancode A W scancode s)

  -- The queue has the scancodes.
  pub record Holds (limit : ℕ) (held : List ℕ) (s : Statics A W) : Type 0 where
    pub queue : Q
    pub is_queue : s.scancode_queue ≡ some queue
    pub held_items : items queue ≡ held
    pub limited : capacity queue ≡ limit

  -- The task waits: nothing is queued, and its waker is registered.
  pub record IsWaiting (limit id : ℕ) (s : Statics A W) : Type 0 where
    pub none_held : Holds limit [] s
    pub on_call : registered s.waker ≡ some id

module _ (V : Volatile) (K : Decoder) (A : ArrayQueue) (W : AtomicWaker) where
  open V use {Cell}
  open K use {Keys, add_byte}

  -- The task between two polls: the decoder that it holds, the screen and the statics.
  pub record Typing : Type 0 where
    pub keys : Keys
    pub writer : Writer Cell
    pub statics : Statics A W

  -- One poll of the future, with no interrupt in between: it goes round the loop until the stream is
  -- pending.
  pub poll_keypresses : ℕ → ℕ → Typing → Option Typing
  poll_keypresses zero id t = none
  poll_keypresses (suc fuel) id t = elim (poll_next A W id t.statics) [
    | none ↦ none
    | some (pending, s) ↦ some (record t { statics = s })
    | some (ready scancode, s) ↦ elim (print_event V K (add_byte scancode t.keys) t.writer) [
      | none ↦ none
      | some (keys, w) ↦ poll_keypresses fuel id (record { keys = keys; writer = w; statics = s })
    ]
  ]

  -- A batch comes, and the executor polls the task if it has been woken.
  pub type_batch : ℕ → List ℕ → Typing → Option Typing
  type_batch fuel batch t =
      let s = strike A W batch (record t.statics { woken = [] }) in
      elim (s.woken) [
        | [] ↦ some (record t { statics = s })
        | task ∷ others ↦ poll_keypresses fuel task (record t { statics = s })
      ]

  pub type_batches : ℕ → List (List ℕ) → Typing → Option Typing
  type_batches fuel [] t = some t
  type_batches fuel (batch ∷ batches) t = do
    t' ← type_batch fuel batch t
    type_batches fuel batches t'

  -- The task starts, and then the batches come.
  pub typing : ℕ → ℕ → List (List ℕ) → Typing → Option Typing
  unfolding type_batches
  typing fuel id batches t = do
    t' ← poll_keypresses fuel id (record t { statics = stream_new A W t.statics })
    type_batches fuel batches t'
