-- ===== src/Vga/Tests.antt =====
-- Runs and witnesses for kernel/src/vga_buffer.rs.
use zulu_os.Base.{ℕ, List, ◌≡◌, refl, [], ◌∷◌, ◌++◌, some}
use zulu_os.Vga.{
  ScreenChar, Writer, color_code_new, yellow, black, print_bytes, write_string, pink, white,
}
use zulu_os.Vga.Document.{Document, Shows, type_bytes}
use zulu_os.Base.{true, false}
use zulu_os.Vga.{write_byte}
use zulu_os.Vga.Document.{type_byte}
use zulu_os.Vga.Locked.{
  outside, masked, Core, masks, locks, writes, unlocks, unmasks, interrupted, Reach, here,
  next_step,
}
use zulu_os.Vga.Locked.Whole.{joined, IsFresh, never_spins, prints_whole}
use zulu_os.Vga.Refine.{write_byte_refines, print_bytes_refines, AllShownAs, write_string_shows}
use zulu_os.Vga.Samples.{plain, blank_writer, empty_document, blank_writer-Shows}
use zulu_os.Vga.Text.{print_bytes-text, text, printed}

-- Yellow on black, `(0 << 4) | 14`.
default_color_code : color_code_new yellow black ≡ 14
unfolding color_code_new
default_color_code = refl

pink_on_white : color_code_new pink white ≡ 253
unfolding color_code_new
pink_on_white = refl

print_bytes_refines_example :
    (w' : Writer ScreenChar) × (print_bytes plain (b'h' ∷ b'\n' ∷ b'i' ∷ []) blank_writer ≡ some w')
    × (w'.color_code ≡ blank_writer.color_code)
    × Shows plain w' (type_bytes blank_writer.color_code (b'h' ∷ b'\n' ∷ b'i' ∷ []) empty_document)
print_bytes_refines_example =
    print_bytes_refines plain (b'h' ∷ b'\n' ∷ b'i' ∷ []) blank_writer empty_document
      blank_writer-Shows

print_bytes-text_example :
    (w' : Writer ScreenChar) × (d' : Document) × (print_bytes plain
        (b'h' ∷ b'\n' ∷ b'i' ∷ [])
        blank_writer
      ≡ some w')
    × Shows plain w' d'
    × (text d' ≡ text empty_document ++ printed blank_writer.color_code (b'h' ∷ b'\n' ∷ b'i' ∷ []))
print_bytes-text_example =
    print_bytes-text plain (b'h' ∷ b'\n' ∷ b'i' ∷ []) blank_writer empty_document blank_writer-Shows

write_string_shows_example :
    (text : List ℕ) × (w' : Writer ScreenChar) × AllShownAs plain (b'h' ∷ 7 ∷ b'\n' ∷ []) text
    × (write_string plain (b'h' ∷ 7 ∷ b'\n' ∷ []) blank_writer ≡ some w')
    × (w'.color_code ≡ blank_writer.color_code)
    × Shows plain w' (type_bytes blank_writer.color_code text empty_document)
write_string_shows_example =
    write_string_shows plain (b'h' ∷ 7 ∷ b'\n' ∷ []) blank_writer empty_document blank_writer-Shows

-- A core that prints `a`, and is interrupted by a handler that prints `b`.
abbrev fresh_core : Core plain
fresh_core = record {
  place = outside;
  interrupted_code = [];
  interrupts = true;
  locked = false;
  writer = blank_writer;
  texts = [];
}

fresh_core-IsFresh : IsFresh plain fresh_core
fresh_core-IsFresh = record { place = refl; no_handler = refl; lock_free = refl; no_texts = refl }

abbrev a_written :
    (w' : Writer ScreenChar) × (write_byte plain blank_writer b'a' ≡ some w')
    × (w'.color_code ≡ blank_writer.color_code)
    × Shows plain w' (type_byte blank_writer.color_code b'a' empty_document)
a_written = write_byte_refines plain blank_writer empty_document b'a' blank_writer-Shows

abbrev a_core : Core plain
a_core = record fresh_core { writer = a_written.0; texts = (b'a' ∷ []) ∷ [] }

a_printed : Reach plain fresh_core a_core
a_printed =
    next_step
      (next_step
        (next_step
          (next_step (next_step here (masks (b'a' ∷ []) refl refl))
            (locks true (b'a' ∷ []) refl refl refl))
          (writes true b'a' [] a_written.0 refl a_written.1 refl))
        (unlocks true refl refl))
      (unmasks true refl refl)

abbrev in_handler : Core plain
in_handler = record a_core {
  place = masked false (b'b' ∷ []);
  interrupted_code = outside ∷ [];
  interrupts = false;
}

never_spins_example : in_handler.locked ≡ false
never_spins_example =
    never_spins plain fresh_core in_handler false (b'b' ∷ []) fresh_core-IsFresh
      (next_step (next_step a_printed (interrupted refl refl)) (masks (b'b' ∷ []) refl refl)) refl

prints_whole_example : print_bytes plain (joined a_core.texts) blank_writer ≡ some a_written.0
prints_whole_example = prints_whole plain fresh_core a_core fresh_core-IsFresh a_printed refl
