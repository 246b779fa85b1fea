-- ===== src/Interrupts/Served.antt =====
-- Interrupts of the devices from the table to the end of their handlers (kernel/src/interrupts.rs).
use zulu_os.Base.{ℕ, ◌<◌, ◌≡◌, refl, ◌∙◌, List, [], ◌∷◌, ◌++◌, some, arith, length}
use zulu_os.Tasks.Queue.{ArrayQueue}
use zulu_os.Keyboard.{AtomicWaker, add_scancode}
use zulu_os.Keyboard.Wakeups.{add_scancode_room}
use zulu_os.Interrupts.{
  ChainedPics, pic_1_offset, timer, keyboard, as_u8, Devices, end_interrupt,
  timer_interrupt_handler_fn, keyboard_interrupt_handler_fn, interrupt, idt, set_interrupt,
}

module _ (A : ArrayQueue) (K : AtomicWaker) (C : ChainedPics) where
  open A use {items, capacity}
  open C use {primary_offset, in_service}

  timer_ends :
      (d : Devices A K C) (first : ℕ) (rest : List ℕ)
      → primary_offset d.pics ≡ pic_1_offset
      → in_service d.pics ≡ first ∷ rest
      → (in_service (end_interrupt A K C timer d).pics ≡ rest)
        × (primary_offset (end_interrupt A K C timer d).pics ≡ pic_1_offset)
  unfolding end_interrupt as_u8
  timer_ends d first rest at served =
      let (e, kept) =
        C.notify_lem 32 first rest d.pics (omega (arith, at)) (omega (arith, at)) served in
      (e, kept ∙ at)

  -- An interrupt of the keyboard, while it is the most urgent one in service at a primary
  -- controller that starts at 32, is ended by its handler, though the handler names the timer's.
  -- Where the queue exists and has room, the scancode is behind those that wait, and the task
  -- that waits for one, if any, is woken. The interrupt 32 runs the handler of the timer.
  pub interrupt_lem :
      (d : Devices A K C) (scancode : ℕ) (rest : List ℕ) (q : A.Q)
      → primary_offset d.pics ≡ pic_1_offset
      → in_service d.pics ≡ as_u8 keyboard ∷ rest
      → d.statics.scancode_queue ≡ some q
      → length (items q) < capacity q
      → (d' : Devices A K C) × (q' : A.Q) × (interrupt A K C (as_u8 keyboard) scancode d ≡ some d')
        × (in_service d'.pics ≡ rest)
        × (primary_offset d'.pics ≡ pic_1_offset)
        × (d'.statics.scancode_queue ≡ some q')
        × (items q' ≡ items q ++ (scancode ∷ []))
        × ((task : ℕ)
            → K.registered d.statics.waker ≡ some task
            → d'.statics.woken ≡ task ∷ d.statics.woken)
        × (interrupt A K C (as_u8 timer) scancode d ≡ some (timer_interrupt_handler_fn A K C d))
  unfolding interrupt idt set_interrupt as_u8 keyboard_interrupt_handler_fn
  interrupt_lem d scancode rest q at served made room =
      let d1 : Devices A K C = record d { statics = add_scancode A K scancode d.statics } in
      let (e, kept) = timer_ends d1 (as_u8 keyboard) rest at served in
      let (q', eq, iq, woken) = add_scancode_room A K d.statics q scancode made room in
      (end_interrupt A K C timer d1, q', refl, e, kept, eq, iq, woken, refl)
