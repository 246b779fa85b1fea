-- ===== src/Keyboard/Keypresses.antt =====
-- `print_keypresses` of kernel/src/task/keyboard.rs, on the scancodes that its stream gives.
use zulu_os.Base.{
  ℕ, ◌≡◌, refl, sym, ◌∙◌, subst, List, [], ◌∷◌, ◌++◌, Option, none, some, ◌>>=◌, map,
}
use zulu_os.Vga.{Volatile, Writer, write_string, shown_byte}
use zulu_os.Vga.Document.{Document, Shows, type_byte, type_bytes}
use zulu_os.Vga.Refine.{print_bytes_refines, write_string-eq-print_bytes}

-- `Keyboard` of the crate `pc_keyboard`, and how the two kinds of its keys are printed.
pub record Decoder : Type 1 where
  pub Keys : Type 0
  pub KeyEvent : Type 0
  pub DecodedKey : Type 0
  pub add_byte : ℕ → Keys → Option (Option KeyEvent) × Keys
  pub process_keyevent : KeyEvent → Keys → Option DecodedKey × Keys
  pub text_of : DecodedKey → List ℕ

module _ (V : Volatile) (K : Decoder) where
  open V use {Cell}
  open K use {Keys, KeyEvent, DecodedKey, add_byte, process_keyevent, text_of}

  -- `print!` of a key, if there is one
  pub print_key : Option DecodedKey → Writer Cell → Option (Writer Cell)
  print_key none w = some w
  print_key (some key) w = write_string V (text_of key) w

  pub print_event : Option (Option KeyEvent) × Keys → Writer Cell → Option (Keys × Writer Cell)
  unfolding print_key
  print_event (none, keys) w = some (keys, w)
  print_event (some none, keys) w = some (keys, w)
  print_event (some (some event), keys) w = do
    w' ← print_key (process_keyevent event keys).0 w
    some ((process_keyevent event keys).1, w')

  -- The loop, on a run of scancodes.
  unfoldable pub print_keypresses : List ℕ → Keys → Writer Cell → Option (Keys × Writer Cell)
  unfolding print_event
  print_keypresses [] keys w = some (keys, w)
  print_keypresses (scancode ∷ scancodes) keys w = do
    (keys', w') ← print_event (add_byte scancode keys) w
    print_keypresses scancodes keys' w'

  -- What a step of the decoder makes of a scancode: the text of its key, if any, and its next state.
  abbrev pub key_text : Option DecodedKey → List ℕ
  key_text none = []
  key_text (some key) = text_of key

  abbrev pub event_text : Option (Option KeyEvent) × Keys → List ℕ
  event_text (none, keys) = []
  event_text (some none, keys) = []
  event_text (some (some event), keys) = key_text (process_keyevent event keys).0

  abbrev pub event_keys : Option (Option KeyEvent) × Keys → Keys
  event_keys (none, keys) = keys
  event_keys (some none, keys) = keys
  event_keys (some (some event), keys) = (process_keyevent event keys).1

  -- The text of the keys that the decoder makes of the scancodes, one key after the other.
  abbrev pub keys_text : List ℕ → Keys → List ℕ
  keys_text [] keys = []
  keys_text (scancode ∷ scancodes) keys =
      event_text (add_byte scancode keys)
      ++ keys_text scancodes (event_keys (add_byte scancode keys))

  type_bytes-append :
      (c : ℕ) (xs ys : List ℕ) (d : Document)
      → type_bytes c (map shown_byte (xs ++ ys)) d
        ≡ type_bytes c (map shown_byte ys) (type_bytes c (map shown_byte xs) d)
  unfolding type_bytes
  type_bytes-append c [] ys d = refl
  type_bytes-append c (x ∷ xs) ys d = type_bytes-append c xs ys (type_byte c (shown_byte x) d)

  -- What the loop leaves on the screen.
  record Printed (text : List ℕ) (d : Document) (w w' : Writer Cell) : Type 0 where
    same_color : w'.color_code ≡ w.color_code
    shows : Shows V w' (type_bytes w.color_code (map shown_byte text) d)

  print_key_lem :
      (key : Option DecodedKey) (w : Writer Cell) (d : Document)
      → Shows V w d
      → (w' : Writer Cell) × (print_key key w ≡ some w') × Printed (key_text key) d w w'
  unfolding print_key type_bytes
  print_key_lem none w d s = (w, refl, record { same_color = refl; shows = s })
  print_key_lem (some key) w d s =
      let (w', e, c, s') = print_bytes_refines V (map shown_byte (text_of key)) w d s in
      (w', write_string-eq-print_bytes V (text_of key) w ∙ e, record { same_color = c; shows = s' })

  further :
      (xs ys : List ℕ) (d : Document) (w w1 w2 : Writer Cell)
      → Printed xs d w w1
      → Printed ys (type_bytes w.color_code (map shown_byte xs) d) w1 w2
      → Printed (xs ++ ys) d w w2
  further xs ys d w w1 w2 p1 p2 = record {
    same_color = p2.same_color ∙ p1.same_color;
    shows = subst (Shows V w2) (sym (type_bytes-append w.color_code xs ys d)) (
        subst
          (λ c.
            Shows V w2
              (type_bytes c (map shown_byte ys) (type_bytes w.color_code (map shown_byte xs) d)))
          p1.same_color p2.shows);
  }

  print_event_lem :
      (r : Option (Option KeyEvent) × Keys) (w : Writer Cell) (d : Document)
      → Shows V w d
      → (w' : Writer Cell) × (print_event r w ≡ some (event_keys r, w'))
        × Printed (event_text r) d w w'
  unfolding print_event type_bytes
  print_event_lem (none, keys) w d s = (w, refl, record { same_color = refl; shows = s })
  print_event_lem (some none, keys) w d s = (w, refl, record { same_color = refl; shows = s })
  print_event_lem (some (some event), keys) w d s =
      let (w', e, p) = print_key_lem (process_keyevent event keys).0 w d s in (w', rw e refl, p)

  keypresses-Printed :
      (scancodes : List ℕ) (keys : Keys) (w : Writer Cell) (d : Document)
      → Shows V w d
      → (keys' : Keys) × (w' : Writer Cell) × (print_keypresses scancodes keys w ≡ some (keys', w'))
        × Printed (keys_text scancodes keys) d w w'
  unfolding print_keypresses type_bytes
  keypresses-Printed [] keys w d s = (keys, w, refl, record { same_color = refl; shows = s })
  keypresses-Printed (scancode ∷ scancodes) keys w d s =
      let r : Option (Option KeyEvent) × Keys = add_byte scancode keys in
      let (w1, e1, p1) = print_event_lem r w d s in
      let (keys2, w2, e2, p2) = keypresses-Printed scancodes (event_keys r) w1 _ p1.shows in
      (
        keys2,
        w2,
        rw (e1, print_keypresses) e2,
        further (event_text r) (keys_text scancodes (event_keys r)) d w w1 w2 p1 p2,
      )

  -- The keys that are typed appear on the screen: the loop of `print_keypresses` does not panic on any run
  -- of scancodes, and the screen shows the text of the decoded keys behind what it showed before.
  pub print_keypresses_lem :
      (scancodes : List ℕ) (keys : Keys) (w : Writer Cell) (d : Document)
      → Shows V w d
      → (keys' : Keys) × (w' : Writer Cell) × (print_keypresses scancodes keys w ≡ some (keys', w'))
        × Shows V w' (type_bytes w.color_code (map shown_byte (keys_text scancodes keys)) d)
  print_keypresses_lem scancodes keys w d s =
      let (keys', w', e, p) = keypresses-Printed scancodes keys w d s in (keys', w', e, p.shows)
