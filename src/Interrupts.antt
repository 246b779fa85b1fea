-- ===== src/Interrupts.antt =====
-- kernel/src/interrupts.rs: the descriptor table, and the handlers of the timer and the keyboard.
pub mod Served
pub mod Faults
pub mod Samples
mod Tests
use zulu_os.Base.{ℕ, ◌+◌, ◌≤◌, ◌<◌, ◌≡◌, List, [], ◌∷◌, Option, none, some, ◌==◌, if◌then◌else◌}
use zulu_os.Tasks.Queue.{ArrayQueue}
use zulu_os.Keyboard.{AtomicWaker, Statics, add_scancode}
use zulu_os.Segments.{double_fault_stack_index, page_fault_stack_index}

-- `ChainedPics` of the crate `pic8259`: two controllers, each with eight interrupts from its offset on.
-- `in_service` are the interrupts of the primary one whose handlers have not ended them, the most
-- urgent first. The end of an interrupt of the primary one goes to that controller, which ends its most
-- urgent one, whichever the number is.
pub record ChainedPics : Type 1 where
  pub Pics : Type 0
  pub new : ℕ → ℕ → Pics
  pub initialize : Pics → Pics
  pub notify_end_of_interrupt : ℕ → Pics → Pics
  pub primary_offset : Pics → ℕ
  pub in_service : Pics → List ℕ
  pub new_lem :
      (first second : ℕ)
      → (primary_offset (initialize (new first second)) ≡ first)
        × (in_service (initialize (new first second)) ≡ [])
  pub notify_lem :
      (i first : ℕ) (rest : List ℕ) (p : Pics)
      → primary_offset p ≤ i
      → i < primary_offset p + 8
      → in_service p ≡ first ∷ rest
      → (in_service (notify_end_of_interrupt i p) ≡ rest)
        × (primary_offset (notify_end_of_interrupt i p) ≡ primary_offset p)

abbrev pub pic_1_offset : ℕ
pic_1_offset = 32

abbrev pub pic_2_offset : ℕ
pic_2_offset = pic_1_offset + 8

pub data InterruptIndex : Type 0 where
  timer keyboard : InterruptIndex

-- `as_u8` and `as_usize`: the variants count on from the first one's value.
unfoldable pub as_u8 : InterruptIndex → ℕ
as_u8 timer = pic_1_offset
as_u8 keyboard = pic_1_offset + 1

-- The functions that the table names.
pub data Handler : Type 0 where
  breakpoint_handler divide_error_handler double_fault_handler page_fault_handler
        timer_interrupt_handler keyboard_interrupt_handler :
      Handler

-- An entry of the table, and `InterruptDescriptorTable` with the entries that the kernel sets.
pub record Entry : Type 0 where
  pub handler : Option Handler
  pub stack_index : Option ℕ

pub record InterruptDescriptorTable : Type 0 where
  pub breakpoint : Entry
  pub divide_error : Entry
  pub double_fault : Entry
  pub page_fault : Entry
  pub interrupts : ℕ → Entry

abbrev pub missing : Entry
missing = record { handler = none; stack_index = none }

abbrev pub set_handler_fn : Handler → Entry → Entry
set_handler_fn h e = record e { handler = some h }

abbrev pub set_stack_index : ℕ → Entry → Entry
set_stack_index n e = record e { stack_index = some n }

unfoldable pub set_interrupt : ℕ → Handler → InterruptDescriptorTable → InterruptDescriptorTable
set_interrupt n h t = record t {
  interrupts = λ k. if n == k then set_handler_fn h (t.interrupts k) else t.interrupts k;
}

-- The static `IDT`.
unfoldable pub idt : InterruptDescriptorTable
unfolding set_interrupt as_u8
idt = set_interrupt (as_u8 keyboard) keyboard_interrupt_handler (
    set_interrupt (as_u8 timer) timer_interrupt_handler (record {
      breakpoint = set_handler_fn breakpoint_handler missing;
      divide_error = set_handler_fn divide_error_handler missing;
      double_fault =
          set_stack_index double_fault_stack_index (set_handler_fn double_fault_handler missing);
      page_fault =
          set_stack_index page_fault_stack_index (set_handler_fn page_fault_handler missing);
      interrupts = λ k. missing;
    }))

module _ (A : ArrayQueue) (K : AtomicWaker) (C : ChainedPics) where
  open C use {Pics, notify_end_of_interrupt}

  -- What the two handlers change.
  pub record Devices : Type 0 where
    pub pics : Pics
    pub statics : Statics A K

  -- `PICS.lock().notify_end_of_interrupt(…)`
  pub end_interrupt : InterruptIndex → Devices → Devices
  unfolding as_u8
  end_interrupt index d = record d { pics = notify_end_of_interrupt (as_u8 index) d.pics }

  pub timer_interrupt_handler_fn : Devices → Devices
  unfolding end_interrupt
  timer_interrupt_handler_fn d = end_interrupt timer d

  -- The byte is what the port 0x60 gives. The end is that of the timer's interrupt, here as well.
  pub keyboard_interrupt_handler_fn : ℕ → Devices → Devices
  unfolding end_interrupt
  keyboard_interrupt_handler_fn scancode d =
      end_interrupt timer (record d { statics = add_scancode A K scancode d.statics })

  -- The device interrupt `n`, through the table; the others do not come back to what they interrupt, or
  -- stop it.
  pub interrupt : ℕ → ℕ → Devices → Option Devices
  unfolding idt
  interrupt n port d = elim ((idt.interrupts n).handler) [
    | none ↦ none
    | some h ↦ elim h [
      | timer_interrupt_handler ↦ some (timer_interrupt_handler_fn d)
      | keyboard_interrupt_handler ↦ some (keyboard_interrupt_handler_fn port d)
      | breakpoint_handler ↦ none
      | divide_error_handler ↦ none
      | double_fault_handler ↦ none
      | page_fault_handler ↦ none
    ]
  ]
