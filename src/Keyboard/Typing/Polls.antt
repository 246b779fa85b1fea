-- ===== src/Keyboard/Typing/Polls.antt =====
-- One poll of the future of `print_keypresses` (kernel/src/task/keyboard.rs).
use zulu_os.Base.{
  ℕ, zero, suc, ◌<◌, ◌≡◌, refl, ◌∙◌, ap, List, [], ◌∷◌, none, some, arith, length, Option-cases,
  inl, inr,
}
use zulu_os.Vga.{Volatile, Writer}
use zulu_os.Tasks.Queue.{ArrayQueue}
use zulu_os.Keyboard.{
  AtomicWaker, ready, pending, Statics, pop_scancode, register_waker, poll_again, poll_next,
}
use zulu_os.Keyboard.Keypresses.{Decoder, print_event, print_keypresses}
use zulu_os.Keyboard.Typing.{Holds, IsWaiting, Typing, poll_keypresses}

module _ (V : Volatile) (K : Decoder) (A : ArrayQueue) (W : AtomicWaker) where
  open V use {Cell}
  open K use {Keys, add_byte}
  open A use {Q, items, capacity}
  open W use {registered}

  poll_next-ready :
      (limit id x : ℕ) (xs : List ℕ) (s : Statics A W)
      → Holds A W limit (x ∷ xs) s
      → (s' : Statics A W) × (poll_next A W id s ≡ some (ready x, s')) × Holds A W limit xs s'
  unfolding poll_next pop_scancode
  poll_next-ready limit id x xs s h =
      let (q', e, i, c) = A.pop_first h.queue x xs h.held_items in
      (
        record s { scancode_queue = some q' },
        rw (h.is_queue, e) refl,
        record { queue = q'; is_queue = refl; held_items = i; limited = c ∙ h.limited },
      )

  registered_waits :
      (limit id : ℕ) (s : Statics A W)
      → Holds A W limit [] s
      → IsWaiting A W limit id (register_waker A W id s)
  unfolding register_waker
  registered_waits limit id s h = record {
    none_held = record {
      queue = h.queue;
      is_queue = h.is_queue;
      held_items = h.held_items;
      limited = h.limited;
    };
    on_call = W.register_lem id s.waker;
  }

  pop_scancode-none :
      (limit : ℕ) (s : Statics A W) → Holds A W limit [] s → pop_scancode A W s ≡ some (none, s)
  unfolding pop_scancode
  pop_scancode-none limit s h = ground (arith, h.is_queue, A.pop_empty h.queue h.held_items)

  poll_next-pending :
      (limit id : ℕ) (s : Statics A W)
      → Holds A W limit [] s
      → poll_next A W id s ≡ some (pending, register_waker A W id s)
  unfolding poll_next poll_again
  poll_next-pending limit id s h =
      rw
        (
          pop_scancode-none limit s h,
          pop_scancode-none limit (register_waker A W id s)
              (registered_waits limit id s h).none_held,
        )
        refl

  -- A poll prints what the queue has, and leaves the task waiting.
  pub poll_keypresses_lem :
      (fuel limit id : ℕ) (held : List ℕ) (t : Typing V K A W) (keys : Keys) (w : Writer Cell)
      → Holds A W limit held t.statics
      → length held < fuel
      → print_keypresses V K held t.keys t.writer ≡ some (keys, w)
      → (s : Statics A W) × (poll_keypresses V K A W fuel id t
          ≡ some (record { keys = keys; writer = w; statics = s }))
        × IsWaiting A W limit id s
  unfolding poll_keypresses print_keypresses
  poll_keypresses_lem zero limit id held t keys w h enough e = absurd (omega arith)
  poll_keypresses_lem (suc fuel) limit id [] t keys w h enough e =
      let same : t.keys ≡ keys = ap (λ o. elim o [ none ↦ t.keys | some r ↦ r.0 ]) e in
      let same_w : t.writer ≡ w = ap (λ o. elim o [ none ↦ t.writer | some r ↦ r.1 ]) e in
      (
        register_waker A W id t.statics,
        rw (poll_next-pending limit id t.statics h, poll_keypresses, same, same_w) refl,
        registered_waits limit id t.statics h,
      )
  poll_keypresses_lem (suc fuel) limit id (x ∷ xs) t keys w h enough e =
      let (s, ep, rest) = poll_next-ready limit id x xs t.statics h in
      let r = print_event V K (add_byte x t.keys) t.writer in
      elim (Option-cases r) [
        | inl panics ↦ absurd (ground (arith, e, panics))
        | inr ((keys1, w1), printed) ↦
            let t1 : Typing V K A W = record { keys = keys1; writer = w1; statics = s } in
            let (s', e', waits) =
              poll_keypresses_lem fuel limit id xs t1 keys w rest (omega arith) (rw printed at e) in
            (s', rw (ep, poll_keypresses, printed) e', waits)
      ]
