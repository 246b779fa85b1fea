-- ===== src/Vga/Samples.antt =====
-- A console in memory, for runs and witnesses: plain cells, and a blank screen.
use zulu_os.Base.{
  ℕ, zero, suc, ◌-◌, ◌<◌, ◌≡◌, refl, List, [], ◌∷◌, some, arith, replicate, get_elem?-replicate,
  get_or,
}
use zulu_os.Vga.{ScreenChar, Volatile, Writer, buffer_height, buffer_width, read_at}
use zulu_os.Vga.Scroll.{blank_char}
use zulu_os.Vga.Document.{Document, Shows}

-- A cell that is its character.
abbrev pub plain : Volatile
plain = record { Cell = ScreenChar; read = λ c. c; write = λ c v. v; read-write = λ c v. refl }

abbrev pub blank_screen : List (List ScreenChar)
blank_screen = replicate 25 (replicate 80 (blank_char 14))

abbrev pub blank_writer : Writer ScreenChar
blank_writer = record { column_position = 0; color_code = 14; chars = blank_screen }

abbrev pub empty_document : Document
empty_document = record { current = []; above = [] }

pub blank_screen-read_at :
    (i j : ℕ)
    → i < buffer_height
    → j < buffer_width
    → read_at plain blank_screen i j ≡ some (blank_char 14)
unfolding read_at
blank_screen-read_at i j hi hj = ground (
  arith,
  get_elem?-replicate 25 i (replicate 80 (blank_char 14)) hi,
  get_elem?-replicate 80 j (blank_char 14) hj,
)

shown-empty : (k j : ℕ) → get_or (get_or ([] ∷ []) k []) j (blank_char 14) ≡ blank_char 14
shown-empty zero j = refl
shown-empty (suc k) j = refl

pub blank_writer-Shows : Shows plain blank_writer empty_document
blank_writer-Shows = record {
  column = refl;
  fits = omega arith;
  cells = λ i j hi hj. ground (arith, blank_screen-read_at i j hi hj, shown-empty (24 - i) j);
}
