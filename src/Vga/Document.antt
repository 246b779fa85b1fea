-- ===== src/Vga/Document.antt =====
-- The document that kernel/src/vga_buffer.rs stands for: lines of at most 80 characters without
-- end, of which the screen has the last 25.
use zulu_os.Base.{
  ℕ, ◌-◌, ◌≤◌, ◌<◌, ◌≡◌, List, [], ◌∷◌, ◌++◌, some, leb, ◌==◌, if◌then◌else◌, length, get_or,
}
use zulu_os.Vga.{ScreenChar, Volatile, Writer, buffer_height, buffer_width, read_at}
use zulu_os.Vga.Scroll.{blank_char}

-- The line being written, and the finished ones, newest first.
pub record Document : Type 0 where
  pub current : List ScreenChar
  pub above : List (List ScreenChar)

abbrev pub break_line : Document → Document
break_line d = record { current = []; above = d.current ∷ d.above }

abbrev pub append_char : ScreenChar → Document → Document
append_char v d = record { current = d.current ++ (v ∷ []); above = d.above }

unfoldable pub type_byte : ℕ → ℕ → Document → Document
type_byte color_code byte d =
    if byte == b'\n'
    then break_line d
    else append_char (record { ascii_character = byte; color_code = color_code })
        (if leb buffer_width (length d.current) then break_line d else d)

unfoldable pub type_bytes : ℕ → List ℕ → Document → Document
type_bytes color_code [] d = d
type_bytes color_code (byte ∷ bytes) d = type_bytes color_code bytes (type_byte color_code byte d)

-- The character that the document has at a place of the screen: its current line is at the bottom.
abbrev pub shown : ℕ → Document → ℕ → ℕ → ScreenChar
shown color_code d i j =
    get_or (get_or (d.current ∷ d.above) (buffer_height - 1 - i) []) j (blank_char color_code)

module _ (V : Volatile) where
  open V use {Cell}

  -- The screen shows the end of the document, and the next character goes where it ends.
  pub record Shows (w : Writer Cell) (d : Document) : Type 0 where
    pub column : w.column_position ≡ length d.current
    pub fits : length d.current ≤ buffer_width
    pub cells :
        (i j : ℕ)
        → i < buffer_height
        → j < buffer_width
        → read_at V w.chars i j ≡ some (shown w.color_code d i j)
