-- ===== src/Vga/Cells.antt =====
-- The grid of kernel/src/vga_buffer.rs as a function of row and column: what one write and the
-- loops of `new_line` and `clear_row` do to each cell.
use zulu_os.Base.{
  ℕ, ◌<◌, ◌≡◌, List, Option, some, ◌&&◌, arith, ◌==◌, if◌then◌else◌, get_elem?, set, inl, inr,
  Option-cases, Bool-cases, get_elem?-set_self, get_elem?-set_ne,
}
use zulu_os.Vga.{ScreenChar, Volatile, buffer_height, buffer_width, read_at, write_at}

module _ (V : Volatile) where
  open V use {Cell, read, write}

  -- Every cell of the 25 by 80 grid is there.
  abbrev pub Shaped : List (List Cell) → Type 0
  Shaped chars =
      (row col : ℕ)
      → row < buffer_height
      → col < buffer_width
      → (x : ScreenChar) × (read_at V chars row col ≡ some x)

  -- `chars'` reads as the function `f` says.
  abbrev pub Reads : List (List Cell) → (ℕ → ℕ → Option ScreenChar) → Type 0
  Reads chars f = (i j : ℕ) → read_at V chars i j ≡ f i j

  abbrev pub written : List (List Cell) → ℕ → ℕ → ScreenChar → ℕ → ℕ → Option ScreenChar
  written chars row col v i j = if i == row && j == col then some v else read_at V chars i j

  -- Reading where a write landed, with the row and the cell that the write found.
  read_at-set :
      (chars : List (List Cell)) (row col : ℕ) (v : ScreenChar) (cells : List Cell) (cell : Cell)
      → get_elem? chars row ≡ some cells
      → get_elem? cells col ≡ some cell
      → Reads (set chars row (set cells col (write cell v))) (written chars row col v)
  unfolding read_at
  read_at-set chars row col v cells cell er ec i j = elim (Bool-cases (i == row)) [
    | inl ei ↦ elim (Bool-cases (j == col)) [
      | inl ej ↦ ground (
        arith,
        get_elem?-set_self chars row (set cells col (write cell v)) er,
        get_elem?-set_self cells col (write cell v) ec,
        V.read-write cell v,
      )
      | inr nj ↦ ground (
        arith,
        get_elem?-set_self chars row (set cells col (write cell v)) er,
        get_elem?-set_ne cells col j (write cell v),
      )
    ]
    | inr ni ↦ ground (arith, get_elem?-set_ne chars row i (set cells col (write cell v)))
  ]

  -- A write to a cell of the grid succeeds, and changes that cell alone.
  pub write_at_lem :
      (chars : List (List Cell)) (row col : ℕ) (v : ScreenChar) {x : ScreenChar}
      → read_at V chars row col ≡ some x
      → (chars' : List (List Cell)) × (write_at V chars row col v ≡ some chars')
        × Reads chars' (written chars row col v)
  unfolding read_at write_at
  write_at_lem chars row col v h = elim (Option-cases (get_elem? chars row)) [
    | inl e ↦ absurd (ground arith)
    | inr (cells, er) ↦ elim (Option-cases (get_elem? cells col)) [
      | inl e ↦ absurd (ground arith)
      | inr (cell, ec) ↦ (
        set chars row (set cells col (write cell v)),
        ground arith,
        read_at-set chars row col v cells cell er ec,
      )
    ]
  ]
