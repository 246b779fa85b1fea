-- ===== src/Vga/Locked/Whole.antt =====
-- What printing on one core guarantees (kernel/src/vga_buffer.rs, kernel/src/sys.rs).
use zulu_os.Base.{
  ℕ, ◌≡◌, refl, sym, ◌∙◌, ap, Bool, true, false, List, [], ◌∷◌, ◌++◌, none, some, subst,
  Option-cases, inl, inr, arith,
}
use mathlib.Core.List.{append_assoc, append-nil}
use zulu_os.Vga.{Volatile, Writer, write_byte, print_bytes}
use zulu_os.Vga.Locked.{
  Place, outside, masked, holding, unlocked, Core, Step, masks, locks, writes, unlocks, unmasks,
  interrupted, returns, Reach, here, next_step,
}

abbrev pub joined : List (List ℕ) → List ℕ
joined [] = []
joined (text ∷ texts) = text ++ joined texts

joined-append : (xs ys : List (List ℕ)) → joined (xs ++ ys) ≡ joined xs ++ joined ys
joined-append [] ys = refl
joined-append (x ∷ xs) ys =
    ap (λ l. x ++ l) (joined-append xs ys) ∙ sym (append_assoc x (joined xs) (joined ys))

-- Whether the code holds the lock, and what it has still to print.
abbrev holds : Place → Bool
holds outside = false
holds (masked on bytes) = false
holds (holding on bytes) = true
holds (unlocked on) = false

abbrev to_go : Place → List ℕ
to_go outside = []
to_go (masked on bytes) = []
to_go (holding on bytes) = bytes
to_go (unlocked on) = []

abbrev AllOutside : List Place → Type 0
AllOutside [] = Unit {0}
AllOutside (place ∷ code) = (place ≡ outside) × AllOutside code

module _ (V : Volatile) where
  open V use {Cell}

  print_bytes-append :
      (xs ys : List ℕ) (w w' : Writer Cell)
      → print_bytes V xs w ≡ some w'
      → print_bytes V (xs ++ ys) w ≡ print_bytes V ys w'
  unfolding print_bytes
  print_bytes-append [] ys w w' e =
      ap (λ o. elim o [ none ↦ print_bytes V ys w | some x ↦ print_bytes V ys x ]) e
  print_bytes-append (x ∷ xs) ys w w' e = elim (Option-cases (write_byte V w x)) [
    | inl panics ↦ absurd (ground (arith, e, panics))
    | inr (w1, written) ↦ rw written (print_bytes-append xs ys w1 w' (rw written at e))
  ]

  print_bytes-one :
      (byte : ℕ) (w w' : Writer Cell)
      → write_byte V w byte ≡ some w'
      → print_bytes V (byte ∷ []) w ≡ some w'
  unfolding print_bytes
  print_bytes-one byte w w' e = rw e refl

  -- The lock is held by the code that runs or by none, interrupted code is outside, and the bytes of all
  -- texts but those to go have been printed, one text after the other.
  record IsWhole (start : Writer Cell) (s : Core V) : Type 0 where
    lock : s.locked ≡ holds s.place
    when_on : s.interrupts ≡ true → s.place ≡ outside
    behind : AllOutside s.interrupted_code
    printed : List ℕ
    bytes_so_far : joined s.texts ≡ printed ++ to_go s.place
    on_screen : print_bytes V printed start ≡ some s.writer

  Step-IsWhole :
      (start : Writer Cell) (s t : Core V) → Step V s t → IsWhole start s → IsWhole start t
  Step-IsWhole start s t (masks bytes e et) h = rw et (record {
    lock = h.lock ∙ ap holds e;
    when_on = λ on. absurd (cc);
    behind = h.behind;
    printed = h.printed;
    bytes_so_far = h.bytes_so_far ∙ ap (λ p. h.printed ++ to_go p) e;
    on_screen = h.on_screen;
  })
  Step-IsWhole start s t (locks on bytes e free et) h =
      let so_far : joined s.texts ≡ h.printed =
        h.bytes_so_far ∙ ap (λ p. h.printed ++ to_go p) e ∙ append-nil h.printed in
      rw et (record {
        lock = refl;
        when_on = λ was_on. absurd (cc (h.when_on was_on));
        behind = h.behind;
        printed = h.printed;
        bytes_so_far =
            joined-append s.texts (bytes ∷ [])
            ∙ ap (λ l. joined s.texts ++ l) (append-nil bytes)
            ∙ ap (λ l. l ++ bytes) so_far;
        on_screen = h.on_screen;
      })
  Step-IsWhole start s t (writes on byte bytes w e written et) h = rw et (record {
    lock = h.lock ∙ ap holds e;
    when_on = λ was_on. absurd (cc (h.when_on was_on));
    behind = h.behind;
    printed = h.printed ++ byte ∷ [];
    bytes_so_far =
        h.bytes_so_far
        ∙ ap (λ p. h.printed ++ to_go p) e
        ∙ sym (append_assoc h.printed (byte ∷ []) bytes);
    on_screen =
        print_bytes-append h.printed (byte ∷ []) start s.writer h.on_screen
        ∙ print_bytes-one byte s.writer w written;
  })
  Step-IsWhole start s t (unlocks on e et) h = rw et (record {
    lock = refl;
    when_on = λ was_on. absurd (cc (h.when_on was_on));
    behind = h.behind;
    printed = h.printed;
    bytes_so_far = h.bytes_so_far ∙ ap (λ p. h.printed ++ to_go p) e;
    on_screen = h.on_screen;
  })
  Step-IsWhole start s t (unmasks on e et) h = rw et (record {
    lock = h.lock ∙ ap holds e;
    when_on = λ now_on. refl;
    behind = h.behind;
    printed = h.printed;
    bytes_so_far = h.bytes_so_far ∙ ap (λ p. h.printed ++ to_go p) e;
    on_screen = h.on_screen;
  })
  Step-IsWhole start s t (interrupted was_on et) h = rw et (record {
    lock = h.lock ∙ ap holds (h.when_on was_on);
    when_on = λ now_on. refl;
    behind = (h.when_on was_on, h.behind);
    printed = h.printed;
    bytes_so_far = h.bytes_so_far ∙ ap (λ p. h.printed ++ to_go p) (h.when_on was_on);
    on_screen = h.on_screen;
  })
  Step-IsWhole start s t (returns place code e ec et) h =
      let (came, rest) = subst AllOutside ec h.behind in
      rw et (record {
        lock = h.lock ∙ ap holds (e ∙ sym came);
        when_on = λ now_on. came;
        behind = rest;
        printed = h.printed;
        bytes_so_far = h.bytes_so_far ∙ ap (λ p. h.printed ++ to_go p) (e ∙ sym came);
        on_screen = h.on_screen;
      })

  -- A core before anything is printed: no handler runs, and the lock is free.
  pub record IsFresh (s : Core V) : Type 0 where
    pub place : s.place ≡ outside
    pub no_handler : s.interrupted_code ≡ []
    pub lock_free : s.locked ≡ false
    pub no_texts : s.texts ≡ []

  Reach-IsWhole : (s t : Core V) → IsFresh s → Reach V s t → IsWhole s.writer t
  unfolding print_bytes
  Reach-IsWhole s t f here = record {
    lock = f.lock_free ∙ sym (ap holds f.place);
    when_on = λ on. f.place;
    behind = subst AllOutside (sym f.no_handler) tt;
    printed = [];
    bytes_so_far = ap joined f.no_texts ∙ sym (ap to_go f.place);
    on_screen = refl;
  }
  Reach-IsWhole s t f (next_step {t = m} r step) =
      Step-IsWhole s.writer m t step (Reach-IsWhole s m f r)

  -- However interrupts come, and whatever their handlers print, code that is about to take the lock
  -- finds it free: neither a handler nor the code that it interrupted ever spins on it.
  pub never_spins :
      (s t : Core V) (on : Bool) (bytes : List ℕ)
      → IsFresh s
      → Reach V s t
      → t.place ≡ masked on bytes
      → t.locked ≡ false
  never_spins s t on bytes f r e = (Reach-IsWhole s t f r).lock ∙ ap holds e

  -- Whenever the code that runs is outside of `print_bytes`, be it a handler or not, the writer is as
  -- after the texts printed whole, one after the other, in the order in which they got the lock.
  pub prints_whole :
      (s t : Core V)
      → IsFresh s
      → Reach V s t
      → t.place ≡ outside
      → print_bytes V (joined t.texts) s.writer ≡ some t.writer
  prints_whole s t f r e =
      let h = Reach-IsWhole s t f r in
      ap (λ l. print_bytes V l s.writer)
        (h.bytes_so_far ∙ ap (λ p. h.printed ++ to_go p) e ∙ append-nil h.printed)
      ∙ h.on_screen
