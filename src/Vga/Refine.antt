-- ===== src/Vga/Refine.antt =====
-- The console of kernel/src/vga_buffer.rs against the document of `Vga.Document`.
use zulu_os.Base.{
  ◌≤◌, ◌≢◌, ◌⊎◌, ℕ, zero, suc, ◌+◌, ◌-◌, ◌<◌, ◌≡◌, refl, List, [], ◌∷◌, ◌++◌, some, true, false,
  arith, leb, ltb, ◌==◌, if◌then◌else◌, length, get_or, inl, inr, Bool-cases, length-append, ◌∙◌,
  subst, fun_ext, ◌>>=◌, get_or-append_last, get_or-append_ne, map, ap,
}
use zulu_os.Vga.{
  ScreenChar, Volatile, Writer, buffer_height, buffer_width, put_byte, write_byte, print_bytes,
  write_string, new_line, shown_byte,
}
use zulu_os.Vga.Cells.{Shaped, write_at_lem}
use zulu_os.Vga.Scroll.{blank_char, new_line_lem}
use zulu_os.Vga.Document.{Document, break_line, append_char, type_byte, type_bytes, shown, Shows}

head_unread :
    (l m : List ScreenChar) (ls : List (List ScreenChar)) (k : ℕ)
    → 0 < k
    → get_or (l ∷ ls) k [] ≡ get_or (m ∷ ls) k []
head_unread l m ls zero h = absurd (omega arith)
head_unread l m ls (suc k) h = refl

module _ (V : Volatile) where
  open V use {Cell}

  pub Shows-Shaped : (w : Writer Cell) (d : Document) → Shows V w d → Shaped V w.chars
  Shows-Shaped w d s i j hi hj = (shown w.color_code d i j, s.cells i j hi hj)

  shown-break_line :
      (c : ℕ) (d : Document) (i j : ℕ)
      → i + 1 < buffer_height
      → shown c (break_line d) i j ≡ shown c d (i + 1) j
  shown-break_line c d i j h =
      ap (λ k. get_or (get_or ([] ∷ d.current ∷ d.above) k []) j (blank_char c)) e
    where
      e : buffer_height - 1 - i ≡ suc (buffer_height - 1 - (i + 1))
      e = omega arith

  shown_bottom :
      (c : ℕ) (d : Document) (i j : ℕ)
      → i + 1 ≡ buffer_height
      → shown c d i j ≡ get_or d.current j (blank_char c)
  shown_bottom c d i j h = ap (λ k. get_or (get_or (d.current ∷ d.above) k []) j (blank_char c)) e
    where
      e : buffer_height - 1 - i ≡ zero
      e = omega arith

  append_char-above :
      (c : ℕ) (v : ScreenChar) (d : Document) (i j : ℕ)
      → i + 1 < buffer_height
      → shown c (append_char v d) i j ≡ shown c d i j
  append_char-above c v d i j h =
      ap (λ l. get_or l j (blank_char c))
        (head_unread (d.current ++ (v ∷ [])) d.current d.above (buffer_height - 1 - i)
          (omega arith))

  append_char_bottom :
      (c : ℕ) (v : ScreenChar) (d : Document) (i j : ℕ)
      → i + 1 ≡ buffer_height
      → shown c (append_char v d) i j ≡ (if j == length d.current then v else shown c d i j)
  append_char_bottom c v d i j h = ground (
    arith,
    shown_bottom c (append_char v d) i j,
    shown_bottom c d i j,
    get_or-append_last d.current v (blank_char c) j,
    get_or-append_ne d.current v (blank_char c) j,
  )

  new_line_refines :
      (w : Writer Cell) (d : Document)
      → Shows V w d
      → (w' : Writer Cell) × (new_line V w ≡ some w')
        × (w'.color_code ≡ w.color_code)
        × Shows V w' (break_line d)
  new_line_refines w d s =
      let (w', e, col, color, r) = new_line_lem V w (Shows-Shaped w d s) in
      (
        w',
        e,
        color,
        record {
          column = ground arith;
          fits = omega arith;
          cells = λ i j hi hj. elim (Bool-cases (ltb (i + 1) buffer_height)) [
            | inl up ↦
                ground (arith, r i j, s.cells (i + 1) j, shown-break_line w.color_code d i j, color)
            | inr low ↦ ground (arith, r i j, shown_bottom w.color_code (break_line d) i j, color)
          ];
        },
      )

  put_byte_refines :
      (w : Writer Cell) (d : Document) (byte : ℕ)
      → Shows V w d
      → length d.current < buffer_width
      → (w' : Writer Cell) × (put_byte V w byte ≡ some w')
        × (w'.color_code ≡ w.color_code)
        × Shows V w' (append_char (record { ascii_character = byte; color_code = w.color_code }) d)
  unfolding put_byte
  put_byte_refines w d byte s room =
      let v : ScreenChar = record { ascii_character = byte; color_code = w.color_code } in
      let c : ℕ = w.column_position in
      let (chars', e, r) =
        write_at_lem V w.chars (buffer_height - 1) c v
          (s.cells (buffer_height - 1) c (omega arith) (omega (arith, s.column))) in
      (
        record w { chars = chars'; column_position = w.column_position + 1 },
        ground arith,
        refl,
        record {
          column = omega (arith, s.column, length-append d.current (v ∷ []));
          fits = omega (arith, length-append d.current (v ∷ []));
          cells = λ i j hi hj. ground (
            arith,
            r i j,
            s.column,
            s.cells i j hi hj,
            append_char-above w.color_code v d i j,
            append_char_bottom w.color_code v d i j,
          );
        },
      )

  -- On a screen that shows a document `write_byte` does not panic, and the screen then shows the
  -- document with the byte typed; the colour stays.
  pub write_byte_refines :
      (w : Writer Cell) (d : Document) (byte : ℕ)
      → Shows V w d
      → (w' : Writer Cell) × (write_byte V w byte ≡ some w')
        × (w'.color_code ≡ w.color_code)
        × Shows V w' (type_byte w.color_code byte d)
  unfolding write_byte type_byte
  write_byte_refines w d byte s = elim (Bool-cases (byte == b'\n')) [
    | inl nl ↦ rw nl (new_line_refines w d s)
    | inr other ↦ elim (Bool-cases (leb buffer_width (length d.current))) [
      | inl full ↦
          let (w1, e1, c1, s1) = new_line_refines w d s in
          let (w2, e2, c2, s2) = put_byte_refines w1 (break_line d) byte s1 (omega arith) in
          let wfull : leb buffer_width w.column_position ≡ true = ground (arith, s.column) in
          simp (other, full, wfull, e1)
            (
              w2,
              e2,
              c2 ∙ c1,
              subst
                  (λ c. Shows V w2 (
                    append_char (record { ascii_character = byte; color_code = c }) (break_line d)))
                  c1 s2,
            )
      | inr room ↦
          let wroom : leb buffer_width w.column_position ≡ false = ground (arith, s.column) in
          simp (other, room, wroom) (put_byte_refines w d byte s (ground arith))
    ]
  ]

  -- Printing bytes to a screen that shows a document never panics, and the screen then shows the
  -- document with these bytes typed, in order; the colour stays.
  pub print_bytes_refines :
      (bytes : List ℕ) (w : Writer Cell) (d : Document)
      → Shows V w d
      → (w' : Writer Cell) × (print_bytes V bytes w ≡ some w')
        × (w'.color_code ≡ w.color_code)
        × Shows V w' (type_bytes w.color_code bytes d)
  unfolding print_bytes type_bytes
  print_bytes_refines [] w d s = (w, refl, refl, s)
  print_bytes_refines (byte ∷ bytes) w d s =
      let (w1, e1, c1, s1) = write_byte_refines w d byte s in
      let (w2, e2, c2, s2) = print_bytes_refines bytes w1 (type_byte w.color_code byte d) s1 in
      (
        w2,
        rw e1 e2,
        c2 ∙ c1,
        subst (λ c. Shows V w2 (type_bytes c bytes (type_byte w.color_code byte d))) c1 s2,
      )

  -- `write_string` is `print_bytes` of what it shows for each byte.
  pub write_string-eq-print_bytes :
      (bytes : List ℕ) (w : Writer Cell)
      → write_string V bytes w ≡ print_bytes V (map shown_byte bytes) w
  unfolding write_string print_bytes
  write_string-eq-print_bytes [] w = refl
  write_string-eq-print_bytes (byte ∷ bytes) w =
      ap (λ k. write_byte V w (shown_byte byte) >>= k) (fun_ext (write_string-eq-print_bytes bytes))

  -- What a byte of a text is shown as: printable ASCII and the newline as they are, all else as 254.
  abbrev pub ShownAs : ℕ → ℕ → Type 0
  ShownAs byte c =
      (((32 ≤ byte) × (byte ≤ 126)) ⊎ (byte ≡ 10) → c ≡ byte)
      × ((byte < 32) ⊎ (126 < byte) → byte ≢ 10 → c ≡ 254)

  abbrev pub AllShownAs : List ℕ → List ℕ → Type 0
  AllShownAs [] [] = Unit {0}
  AllShownAs [] (c ∷ cs) = ⊥
  AllShownAs (byte ∷ bytes) [] = ⊥
  AllShownAs (byte ∷ bytes) (c ∷ cs) = ShownAs byte c × AllShownAs bytes cs

  shown_bytes : (bytes : List ℕ) → AllShownAs bytes (map shown_byte bytes)
  shown_bytes [] = tt
  shown_bytes (byte ∷ bytes) =
      ((λ plain. ground arith, λ other ne. ground arith), shown_bytes bytes)

  -- `write_string` on a screen that shows a document does not panic, keeps the colour, and types one
  -- character for each byte of the text, in order: the byte itself where it is from 0x20 to 0x7e or a
  -- newline, and 0xfe where it is neither.
  pub write_string_shows :
      (bytes : List ℕ) (w : Writer Cell) (d : Document)
      → Shows V w d
      → (text : List ℕ) × (w' : Writer Cell) × AllShownAs bytes text
        × (write_string V bytes w ≡ some w')
        × (w'.color_code ≡ w.color_code)
        × Shows V w' (type_bytes w.color_code text d)
  write_string_shows bytes w d s =
      let (w', e, c, s') = print_bytes_refines (map shown_byte bytes) w d s in
      (map shown_byte bytes, w', shown_bytes bytes, write_string-eq-print_bytes bytes w ∙ e, c, s')
