-- ===== src/Interrupts/Samples.antt =====
-- A pair of controllers as a list: test data for the interrupts.
use zulu_os.Base.{ℕ, ◌+◌, ◌≤◌, ◌<◌, ◌≡◌, refl, ◌&&◌, List, [], ◌∷◌, ltb, leb, if◌then◌else◌, arith}
use zulu_os.Interrupts.{ChainedPics}

pub record Controller : Type 0 where
  pub offset : ℕ
  pub served : List ℕ

unfoldable pub rest_of : List ℕ → List ℕ
rest_of [] = []
rest_of (x ∷ xs) = xs

unfoldable pub notify : ℕ → Controller → Controller
notify i p =
    if leb p.offset i && ltb i (p.offset + 8) then record p { served = rest_of p.served } else p

pub notify_rest :
    (i first : ℕ) (rest : List ℕ) (p : Controller)
    → p.offset ≤ i
    → i < p.offset + 8
    → p.served ≡ first ∷ rest
    → ((notify i p).served ≡ rest) × ((notify i p).offset ≡ p.offset)
unfolding notify rest_of
notify_rest i first rest p lo hi e = (ground arith, ground arith)

abbrev pub controllers : ChainedPics
controllers = record {
  Pics = Controller;
  new = λ first second. record { offset = first; served = [] };
  initialize = λ p. p;
  notify_end_of_interrupt = notify;
  primary_offset = λ p. p.offset;
  in_service = λ p. p.served;
  new_lem = λ first second. (refl, refl);
  notify_lem = notify_rest;
}
