-- ===== src/Vga.antt =====
-- kernel/src/vga_buffer.rs: the text console. A panic (an index out of bounds) is `none`.
pub mod Cells
pub mod Scroll
pub mod Document
pub mod Refine
pub mod Text
pub mod Locked
pub mod Samples
mod Tests
use zulu_os.Base.{
  ℕ, zero, suc, ◌+◌, ◌-◌, ◌*◌, ◌%◌, ◌≡◌, bit_or, List, [], ◌∷◌, Option, none, some, ◌>>=◌, leb,
  ◌==◌, ◌&&◌, ◌||◌, if◌then◌else◌, get_elem?, set,
}

pub data Color : Type 0 where
  black blue green cyan red magenta brown light_gray : Color
  dark_gray light_blue light_green light_cyan light_red pink yellow white : Color

-- `as u8`
unfoldable pub color_value : Color → ℕ
color_value black = 0
color_value blue = 1
color_value green = 2
color_value cyan = 3
color_value red = 4
color_value magenta = 5
color_value brown = 6
color_value light_gray = 7
color_value dark_gray = 8
color_value light_blue = 9
color_value light_green = 10
color_value light_cyan = 11
color_value light_red = 12
color_value pink = 13
color_value yellow = 14
color_value white = 15

-- `ColorCode::new`; the shift is in `u8`.
unfoldable pub color_code_new : Color → Color → ℕ
unfolding color_value
color_code_new foreground background =
    bit_or (color_value background * 16 % 256) (color_value foreground)

pub record ScreenChar : Type 0 where
  pub ascii_character : ℕ
  pub color_code : ℕ

-- The `volatile` crate's cell, with the one fact that the console relies on.
pub record Volatile : Type 1 where
  pub Cell : Type 0
  pub read : Cell → ScreenChar
  pub write : Cell → ScreenChar → Cell
  pub read-write : (c : Cell) (v : ScreenChar) → read (write c v) ≡ v

abbrev pub buffer_height : ℕ
buffer_height = 25

abbrev pub buffer_width : ℕ
buffer_width = 80

pub record Writer (Cell : Type 0) : Type 0 where
  pub column_position : ℕ
  pub color_code : ℕ
  pub chars : List (List Cell)

-- the match of `write_string`
abbrev pub shown_byte : ℕ → ℕ
shown_byte byte = if leb 0x20 byte && leb byte 0x7e || byte == b'\n' then byte else 0xfe

module _ (V : Volatile) where
  open V use {Cell, read, write}

  -- `self.buffer.chars[row][col].read()`
  pub read_at : List (List Cell) → ℕ → ℕ → Option ScreenChar
  read_at chars row col = do
    cells ← get_elem? chars row
    cell ← get_elem? cells col
    some (read cell)

  -- `self.buffer.chars[row][col].write(value)`
  pub write_at : List (List Cell) → ℕ → ℕ → ScreenChar → Option (List (List Cell))
  write_at chars row col value = do
    cells ← get_elem? chars row
    cell ← get_elem? cells col
    some (set chars row (set cells col (write cell value)))

  -- `for col in 0..BUFFER_WIDTH` of `new_line`, with `left` columns to go
  pub copy_cols : ℕ → ℕ → ℕ → List (List Cell) → Option (List (List Cell))
  copy_cols zero row col chars = some chars
  copy_cols (suc left) row col chars = do
    character ← read_at chars row col
    chars' ← write_at chars (row - 1) col character
    copy_cols left row (col + 1) chars'

  -- `for row in 1..BUFFER_HEIGHT`, with `left` rows to go
  pub copy_rows : ℕ → ℕ → List (List Cell) → Option (List (List Cell))
  copy_rows zero row chars = some chars
  copy_rows (suc left) row chars = do
    chars' ← copy_cols buffer_width row 0 chars
    copy_rows left (row + 1) chars'

  -- the loop of `clear_row`
  pub fill_cols : ℕ → ℕ → ℕ → ScreenChar → List (List Cell) → Option (List (List Cell))
  fill_cols zero row col blank chars = some chars
  fill_cols (suc left) row col blank chars = do
    chars' ← write_at chars row col blank
    fill_cols left row (col + 1) blank chars'

  pub clear_row : Writer Cell → ℕ → Option (Writer Cell)
  clear_row w row = do
    chars' ←
        fill_cols buffer_width row 0 (record { ascii_character = b' '; color_code = w.color_code })
          w.chars
    some (record w { chars = chars' })

  pub new_line : Writer Cell → Option (Writer Cell)
  new_line w = do
    chars' ← copy_rows (buffer_height - 1) 1 w.chars
    w' ← clear_row (record w { chars = chars' }) (buffer_height - 1)
    some (record w' { column_position = 0 })

  -- the end of `write_byte`: the byte is stored at the column, on the bottom row
  pub put_byte : Writer Cell → ℕ → Option (Writer Cell)
  put_byte w byte = do
    chars' ←
        write_at w.chars (buffer_height - 1) w.column_position
          (record { ascii_character = byte; color_code = w.color_code })
    some (record w { chars = chars'; column_position = w.column_position + 1 })

  pub write_byte : Writer Cell → ℕ → Option (Writer Cell)
  write_byte w byte =
      if byte == b'\n'
      then new_line w
      else if leb buffer_width w.column_position
      then (new_line w >>= λ w'. put_byte w' byte)
      else put_byte w byte

  -- the loop of `print_bytes`
  pub print_bytes : List ℕ → Writer Cell → Option (Writer Cell)
  print_bytes [] w = some w
  print_bytes (byte ∷ bytes) w = do w' ← write_byte w byte; print_bytes bytes w'

  -- `write_string` over the bytes of the text
  pub write_string : List ℕ → Writer Cell → Option (Writer Cell)
  write_string [] w = some w
  write_string (byte ∷ bytes) w = do w' ← write_byte w (shown_byte byte); write_string bytes w'
