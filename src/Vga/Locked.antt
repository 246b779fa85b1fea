-- ===== src/Vga/Locked.antt =====
-- `print_bytes` of kernel/src/vga_buffer.rs on one core: the lock around the writer, `without_interrupts`
-- of kernel/src/sys.rs, and interrupt handlers that print themselves, between any two steps.
pub mod Whole
use zulu_os.Base.{ℕ, ◌≡◌, Bool, true, false, List, [], ◌∷◌, ◌++◌, some}
use zulu_os.Vga.{Volatile, Writer, write_byte}

-- Where a piece of code is: outside of `print_bytes`; in `without_interrupts`, which keeps whether
-- interrupts were on, before it has the lock, with the lock and some bytes to go, or after it.
pub data Place : Type 0 where
  outside : Place
  masked : Bool → List ℕ → Place
  holding : Bool → List ℕ → Place
  unlocked : Bool → Place

module _ (V : Volatile) where
  open V use {Cell}

  -- The code that runs, what it has interrupted, innermost first, the interrupt flag, the lock, the writer
  -- behind it, and the texts that were to be printed, in the order in which they got the lock.
  pub record Core : Type 0 where
    pub place : Place
    pub interrupted_code : List Place
    pub interrupts : Bool
    pub locked : Bool
    pub writer : Writer Cell
    pub texts : List (List ℕ)

  -- A lock that is taken makes the code spin: it has no step. An interrupt starts its handler, which
  -- may print, with interrupts off; `iretq` goes back to where interrupts were on.
  pub data Step (s t : Core) : Type 0 where
    masks :
        (bytes : List ℕ)
        → s.place ≡ outside
        → t ≡ record s { place = masked s.interrupts bytes; interrupts = false }
        → Step s t
    locks :
        (on : Bool) (bytes : List ℕ)
        → s.place ≡ masked on bytes
        → s.locked ≡ false
        → t ≡ record s { place = holding on bytes; locked = true; texts = s.texts ++ bytes ∷ [] }
        → Step s t
    writes :
        (on : Bool) (byte : ℕ) (bytes : List ℕ) (w : Writer Cell)
        → s.place ≡ holding on (byte ∷ bytes)
        → write_byte V s.writer byte ≡ some w
        → t ≡ record s { place = holding on bytes; writer = w }
        → Step s t
    unlocks :
        (on : Bool)
        → s.place ≡ holding on []
        → t ≡ record s { place = unlocked on; locked = false }
        → Step s t
    unmasks :
        (on : Bool)
        → s.place ≡ unlocked on
        → t ≡ record s { place = outside; interrupts = on }
        → Step s t
    interrupted :
        s.interrupts ≡ true
        → t ≡ record s {
          place = outside;
          interrupted_code = s.place ∷ s.interrupted_code;
          interrupts = false;
        }
        → Step s t
    returns :
        (place : Place) (code : List Place)
        → s.place ≡ outside
        → s.interrupted_code ≡ place ∷ code
        → t ≡ record s { place = place; interrupted_code = code; interrupts = true }
        → Step s t

  pub data Reach (s : Core) : Core → Type 0 where
    here : Reach s s
    next_step : {t u : Core} → Reach s t → Step t u → Reach s u
