-- ===== src/Vga/Text.antt =====
-- The text of a document of `Vga.Document`: its characters in reading order, line breaks left out.
use mathlib.Core.List.{append_assoc, append-nil}
use zulu_os.Base.{
  ℕ, ◌≡◌, sym, ◌∙◌, List, [], ◌∷◌, ◌++◌, some, leb, ◌==◌, if◌then◌else◌, length, inl, inr,
  Bool-cases, ap,
}
use zulu_os.Vga.{ScreenChar, Volatile, Writer, buffer_width, print_bytes}
use zulu_os.Vga.Document.{Document, break_line, type_byte, type_bytes, Shows}
use zulu_os.Vga.Refine.{print_bytes_refines}

abbrev pub finished : List (List ScreenChar) → List ScreenChar
finished [] = []
finished (l ∷ ls) = finished ls ++ l

abbrev pub text : Document → List ScreenChar
text d = finished d.above ++ d.current

-- What printed bytes add to the text.
abbrev pub typed : ℕ → ℕ → List ScreenChar
typed color_code byte =
    if byte == b'\n' then [] else record { ascii_character = byte; color_code = color_code } ∷ []

abbrev pub printed : ℕ → List ℕ → List ScreenChar
printed color_code [] = []
printed color_code (byte ∷ bytes) = typed color_code byte ++ printed color_code bytes

text-break_line : (d : Document) → text (break_line d) ≡ text d
text-break_line d = append-nil (text d)

abbrev newest : ℕ → ℕ → List ScreenChar
newest color_code byte = record { ascii_character = byte; color_code = color_code } ∷ []

text-type_byte : (c byte : ℕ) (d : Document) → text (type_byte c byte d) ≡ text d ++ typed c byte
unfolding type_byte
text-type_byte c byte d = elim (Bool-cases (byte == b'\n')) [
  | inl nl ↦ rw nl (text-break_line d ∙ sym (append-nil (text d)))
  | inr other ↦ elim (Bool-cases (leb buffer_width (length d.current))) [
    | inl full ↦ rw (other, full)
    | inr room ↦ rw (other, room) (sym (append_assoc (finished d.above) d.current (newest c byte)))
  ]
]

text-type_bytes :
    (c : ℕ) (bytes : List ℕ) (d : Document)
    → text (type_bytes c bytes d) ≡ text d ++ printed c bytes
unfolding type_bytes
text-type_bytes c [] d = sym (append-nil (text d))
text-type_bytes c (byte ∷ bytes) d =
    text-type_bytes c bytes (type_byte c byte d)
    ∙ ap (λ l. l ++ printed c bytes) (text-type_byte c byte d)
    ∙ append_assoc (text d) (typed c byte) (printed c bytes)

-- Printing bytes to a screen that shows a document does not panic, and leaves the screen showing a
-- document whose text is the old text followed by the bytes in order, less the newlines: no
-- character is lost or made up, whatever lines are broken.
pub print_bytes-text :
    (V : Volatile) (bytes : List ℕ) (w : Writer V.Cell) (d : Document)
    → Shows V w d
    → (w' : Writer V.Cell) × (d' : Document) × (print_bytes V bytes w ≡ some w')
      × Shows V w' d'
      × (text d' ≡ text d ++ printed w.color_code bytes)
print_bytes-text V bytes w d s =
    let (w', e, c, s') = print_bytes_refines V bytes w d s in
    (w', type_bytes w.color_code bytes d, e, s', text-type_bytes w.color_code bytes d)
