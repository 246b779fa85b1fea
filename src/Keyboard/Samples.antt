-- ===== src/Keyboard/Samples.antt =====
-- A waker's cell as a value: test data for the keyboard.
use zulu_os.Base.{ℕ, Option, none, some, refl}
use zulu_os.Keyboard.{AtomicWaker}

-- A cell that holds one task's id.
abbrev pub one_cell : AtomicWaker
one_cell = record {
  W = Option ℕ;
  new = none;
  register = λ id w. some id;
  take = λ w. (w, none);
  registered = λ w. w;
  new_empty = refl;
  register_lem = λ id w. refl;
  take_lem = λ w. (refl, refl);
}
