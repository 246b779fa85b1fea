-- ===== src/Keyboard/Tests.antt =====
-- The scancode stream's theorem at a concrete race.
use zulu_os.Base.{ℕ, ◌+◌, ◌≡◌, refl, arith, List, [], ◌∷◌, ◌++◌, none, some, inl}
use zulu_os.Tasks.Samples.{list_queue, push_back, pop_of}
use zulu_os.Vga.Document.{Shows, type_bytes}
use zulu_os.Vga.Samples.{plain, blank_writer, empty_document, blank_writer-Shows}
use zulu_os.Keyboard.Keypresses.{Decoder}
use zulu_os.Keyboard.{Statics, pop_scancode, register_waker, poll_again, wake, add_scancode}
use zulu_os.Keyboard.Typing.{IsWaiting, Typing, typing}
use zulu_os.Keyboard.Typing.Shown.{typing_lem}
use zulu_os.Keyboard.Samples.{one_cell}
use zulu_os.Keyboard.Races.{
  Scene, Reach, here, next_step, misses, registers, sleeps, strikes, outside, asleep,
}
use zulu_os.Keyboard.Wakeups.{no_lost_scancode}

abbrev quiet : Statics list_queue one_cell
quiet = record {
  scancode_queue = some (record { limit = 128; held = [] });
  waker = none;
  woken = [];
  warnings = 0;
}

abbrev polling : Scene list_queue one_cell 5
polling = record { place = outside; statics = quiet; noted = [] }

-- The task slept, and then a key came.
abbrev struck : Scene list_queue one_cell 5
struck = record {
  place = asleep;
  statics = record {
    scancode_queue = some (record { limit = 128; held = 30 ∷ [] });
    waker = none;
    woken = 5 ∷ [];
    warnings = 0;
  };
  noted = [];
}

struck_reached : Reach list_queue one_cell 5 polling struck
unfolding pop_scancode register_waker poll_again wake add_scancode push_back pop_of
struck_reached =
    next_step
      (next_step
        (next_step (next_step here (misses quiet (inl refl) refl refl)) (registers refl refl))
        (sleeps (record quiet { waker = some 5 }) refl refl refl))
      (strikes 30 refl)

no_lost_scancode_example : (news : List ℕ) × (5 ∷ [] ≡ news ++ (5 ∷ []))
no_lost_scancode_example =
    no_lost_scancode list_queue one_cell 5 polling struck (record { limit = 128; held = 30 ∷ [] })
      30 [] refl struck_reached refl refl refl

-- A keyboard whose scancodes are its characters.
abbrev plain_keys : Decoder
plain_keys = record {
  Keys = ℕ;
  KeyEvent = ℕ;
  DecodedKey = ℕ;
  add_byte = λ scancode keys. (some (some scancode), keys + 1);
  process_keyevent = λ event keys. (some event, keys);
  text_of = λ key. key ∷ [];
}

-- The statics before the task starts.
abbrev no_queue : Statics list_queue one_cell
no_queue = record { scancode_queue = none; waker = none; woken = []; warnings = 0 }

abbrev fresh_task : Typing plain plain_keys list_queue one_cell
fresh_task = record { keys = 0; writer = blank_writer; statics = no_queue }

typing_lem_example :
    (t' : Typing plain plain_keys list_queue one_cell) × (typing plain plain_keys list_queue
        one_cell 129 5
        ((b'o' ∷ []) ∷ [] ∷ (b'k' ∷ b'!' ∷ []) ∷ [])
        fresh_task
      ≡ some t')
    × Shows plain t'.writer
        (type_bytes blank_writer.color_code (b'o' ∷ b'k' ∷ b'!' ∷ []) empty_document)
    × IsWaiting list_queue one_cell 128 5 t'.statics
typing_lem_example =
    typing_lem plain plain_keys list_queue one_cell 129 5
      ((b'o' ∷ []) ∷ [] ∷ (b'k' ∷ b'!' ∷ []) ∷ []) fresh_task empty_document (omega arith) refl
      blank_writer-Shows
