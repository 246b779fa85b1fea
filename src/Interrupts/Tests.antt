-- ===== src/Interrupts/Tests.antt =====
-- A key struck at a concrete pair of controllers.
use zulu_os.Base.{ℕ, ◌≡◌, refl, [], ◌∷◌, some, arith}
use zulu_os.Tasks.Samples.{ListQueue, list_queue}
use zulu_os.Keyboard.Samples.{one_cell}
use zulu_os.Interrupts.{timer, keyboard, as_u8, Devices, timer_interrupt_handler_fn, interrupt}
use zulu_os.Interrupts.Samples.{controllers}
use zulu_os.Interrupts.Served.{interrupt_lem}

abbrev keys : ListQueue
keys = record { limit = 128; held = 30 ∷ [] }

abbrev struck : Devices list_queue one_cell controllers
struck = record {
  pics = record { offset = 32; served = 33 ∷ [] };
  statics = record { scancode_queue = some keys; waker = some 5; woken = []; warnings = 0 };
}

interrupt_lem_example :
    (d' : Devices list_queue one_cell controllers) × (q' : ListQueue) × (interrupt list_queue
        one_cell controllers
        (as_u8 keyboard)
        31
        struck
      ≡ some d')
    × (d'.pics.served ≡ [])
    × (d'.pics.offset ≡ 32)
    × (d'.statics.scancode_queue ≡ some q')
    × (q'.held ≡ 30 ∷ 31 ∷ [])
    × ((task : ℕ) → some 5 ≡ some task → d'.statics.woken ≡ task ∷ [])
    × (interrupt list_queue one_cell controllers (as_u8 timer) 31 struck
        ≡ some (timer_interrupt_handler_fn list_queue one_cell controllers struck))
unfolding as_u8
interrupt_lem_example =
    interrupt_lem list_queue one_cell controllers struck 31 [] keys refl refl refl (omega arith)
