-- ===== src/Vga/Scroll.antt =====
-- The loops of `new_line` and `clear_row` of kernel/src/vga_buffer.rs.
use zulu_os.Base.{
  ℕ, zero, suc, ◌+◌, ◌-◌, ◌≤◌, ◌<◌, ◌≡◌, refl, List, Option, some, ◌&&◌, arith, leb, ltb, ◌==◌,
  if◌then◌else◌, inl, inr, Bool-cases,
}
use zulu_os.Vga.{
  ScreenChar, Volatile, Writer, buffer_height, buffer_width, read_at, copy_cols, copy_rows,
  fill_cols, clear_row, new_line,
}
use zulu_os.Vga.Cells.{Shaped, Reads, written, write_at_lem}

abbrev pub blank_char : ℕ → ScreenChar
blank_char color_code = record { ascii_character = b' '; color_code = color_code }

module _ (V : Volatile) where
  open V use {Cell}

  -- The fallible step succeeds, and its grid reads as the function says.
  abbrev pub Becomes : Option (List (List Cell)) → (ℕ → ℕ → Option ScreenChar) → Type 0
  Becomes m f = (chars' : List (List Cell)) × (m ≡ some chars') × Reads V chars' f

  abbrev copied : List (List Cell) → ℕ → ℕ → ℕ → ℕ → ℕ → Option ScreenChar
  copied chars left row col i j =
      if i + 1 == row && leb col j && ltb j (col + left)
      then read_at V chars row j
      else read_at V chars i j

  abbrev filled : List (List Cell) → ℕ → ℕ → ℕ → ScreenChar → ℕ → ℕ → Option ScreenChar
  filled chars left row col v i j =
      if i == row && leb col j && ltb j (col + left) then some v else read_at V chars i j

  abbrev shifted : List (List Cell) → ℕ → ℕ → ℕ → ℕ → Option ScreenChar
  shifted chars left row i j =
      if leb row (i + 1) && ltb (i + 1) (row + left) && ltb j buffer_width
      then read_at V chars (i + 1) j
      else read_at V chars i j

  written-Shaped :
      (chars chars' : List (List Cell)) (row col : ℕ) (v : ScreenChar)
      → Shaped V chars
      → Reads V chars' (written V chars row col v)
      → Shaped V chars'
  written-Shaped chars chars' row col v s r i j hi hj = elim (Bool-cases (i == row && j == col)) [
    | inl hit ↦ (v, ground (arith, r i j))
    | inr miss ↦ ((s i j hi hj).0, ground (arith, r i j, (s i j hi hj).1))
  ]

  copied-Shaped :
      (chars chars' : List (List Cell)) (left row col : ℕ)
      → row < buffer_height
      → Shaped V chars
      → Reads V chars' (copied chars left row col)
      → Shaped V chars'
  copied-Shaped chars chars' left row col hr s r i j hi hj =
      elim (Bool-cases (i + 1 == row && leb col j && ltb j (col + left))) [
        | inl hit ↦ ((s row j hr hj).0, ground (arith, r i j, (s row j hr hj).1))
        | inr miss ↦ ((s i j hi hj).0, ground (arith, r i j, (s i j hi hj).1))
      ]

  copy_cols_lem :
      (left row col : ℕ) (chars : List (List Cell))
      → Shaped V chars
      → 1 ≤ row
      → row < buffer_height
      → col + left ≤ buffer_width
      → Becomes (copy_cols V left row col chars) (copied chars left row col)
  unfolding copy_cols
  copy_cols_lem zero row col chars s h1 hr hc = (chars, refl, λ i j. ground arith)
  copy_cols_lem (suc left) row col chars s h1 hr hc =
      let (x, ex) = s row col hr (omega arith) in
      let (chars1, e1, r1) =
        write_at_lem V chars (row - 1) col x ((s (row - 1) col (omega arith) (omega arith)).1) in
      let (chars2, e2, r2) =
        copy_cols_lem left row (col + 1) chars1 (written-Shaped chars chars1 (row - 1) col x s r1)
          h1 hr (omega arith) in
      (chars2, ground arith, λ i j. ground (arith, r2 i j, r1 i j, r1 row j))

  copy_rows_lem :
      (left row : ℕ) (chars : List (List Cell))
      → Shaped V chars
      → 1 ≤ row
      → row + left ≤ buffer_height
      → Becomes (copy_rows V left row chars) (shifted chars left row)
  unfolding copy_rows
  copy_rows_lem zero row chars s h1 hr = (chars, refl, λ i j. ground arith)
  copy_rows_lem (suc left) row chars s h1 hr =
      let (chars1, e1, r1) =
        copy_cols_lem buffer_width row 0 chars s h1 (omega arith) (omega arith) in
      let (chars2, e2, r2) =
        copy_rows_lem left (row + 1) chars1
          (copied-Shaped chars chars1 buffer_width row 0 (omega arith) s r1) (omega arith)
          (omega arith) in
      (chars2, ground arith, λ i j. ground (arith, r2 i j, r1 i j, r1 (i + 1) j))

  fill_cols_lem :
      (left row col : ℕ) (v : ScreenChar) (chars : List (List Cell))
      → Shaped V chars
      → row < buffer_height
      → col + left ≤ buffer_width
      → Becomes (fill_cols V left row col v chars) (filled chars left row col v)
  unfolding fill_cols
  fill_cols_lem zero row col v chars s hr hc = (chars, refl, λ i j. ground arith)
  fill_cols_lem (suc left) row col v chars s hr hc =
      let (chars1, e1, r1) = write_at_lem V chars row col v ((s row col hr (omega arith)).1) in
      let (chars2, e2, r2) =
        fill_cols_lem left row (col + 1) v chars1 (written-Shaped chars chars1 row col v s r1) hr
          (omega arith) in
      (chars2, ground arith, λ i j. ground (arith, r2 i j, r1 i j))

  shifted-Shaped :
      (chars chars' : List (List Cell)) (left row : ℕ)
      → row + left ≤ buffer_height
      → Shaped V chars
      → Reads V chars' (shifted chars left row)
      → Shaped V chars'
  shifted-Shaped chars chars' left row hr s r i j hi hj =
      elim (Bool-cases (leb row (i + 1) && ltb (i + 1) (row + left) && ltb j buffer_width)) [
        | inl hit ↦ let (x, ex) = s (i + 1) j (ground arith) hj in (x, ground (arith, r i j))
        | inr miss ↦ ((s i j hi hj).0, ground (arith, r i j, (s i j hi hj).1))
      ]

  -- The screen after a new line, cell by cell.
  abbrev pub scrolled : List (List Cell) → ℕ → ℕ → ℕ → Option ScreenChar
  scrolled chars color_code i j =
      if ltb (i + 1) buffer_height && ltb j buffer_width
      then read_at V chars (i + 1) j
      else if i + 1 == buffer_height && ltb j buffer_width
      then some (blank_char color_code)
      else read_at V chars i j

  -- On a whole grid `new_line` does not panic: every row moves up by one, the top row is lost, the
  -- bottom row is blank in the writer's colour, the column is 0, and the colour stays.
  pub new_line_lem :
      (w : Writer Cell)
      → Shaped V w.chars
      → (w' : Writer Cell) × (new_line V w ≡ some w')
        × (w'.column_position ≡ 0)
        × (w'.color_code ≡ w.color_code)
        × Reads V w'.chars (scrolled w.chars w.color_code)
  unfolding new_line clear_row
  new_line_lem w s =
      let (chars1, e1, r1) =
        copy_rows_lem (buffer_height - 1) 1 w.chars s (omega arith) (omega arith) in
      let (chars2, e2, r2) =
        fill_cols_lem buffer_width (buffer_height - 1) 0 (blank_char w.color_code) chars1
          (shifted-Shaped w.chars chars1 (buffer_height - 1) 1 (omega arith) s r1) (omega arith)
          (omega arith) in
      (
        record w { chars = chars2; column_position = 0 },
        ground arith,
        refl,
        refl,
        λ i j. ground (arith, r2 i j, r1 i j),
      )
