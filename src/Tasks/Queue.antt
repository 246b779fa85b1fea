-- ===== src/Tasks/Queue.antt =====
-- What kernel/src/task/ takes from the crate `crossbeam-queue`: a bounded queue, first in first
-- out.
use zulu_os.Base.{
  ℕ, ◌≤◌, ◌<◌, ◌≡◌, Bool, true, false, List, [], ◌∷◌, ◌++◌, Option, none, some, length,
}

-- `items` is what the queue holds, oldest first.
pub record ArrayQueue : Type 1 where
  pub Q : Type 0
  pub new : ℕ → Q
  pub push : ℕ → Q → Option Q
  pub pop : Q → Option (ℕ × Q)
  pub is_empty : Q → Bool
  pub items : Q → List ℕ
  pub capacity : Q → ℕ
  pub items_new : (n : ℕ) → items (new n) ≡ []
  pub capacity_new : (n : ℕ) → capacity (new n) ≡ n
  pub push_room :
      (x : ℕ) (q : Q)
      → length (items q) < capacity q
      → (q' : Q) × (push x q ≡ some q')
        × (items q' ≡ items q ++ (x ∷ []))
        × (capacity q' ≡ capacity q)
  pub push_full : (x : ℕ) (q : Q) → capacity q ≤ length (items q) → push x q ≡ none
  pub pop_empty : (q : Q) → items q ≡ [] → pop q ≡ none
  pub pop_first :
      (q : Q) (x : ℕ) (xs : List ℕ)
      → items q ≡ x ∷ xs
      → (q' : Q) × (pop q ≡ some (x, q')) × (items q' ≡ xs) × (capacity q' ≡ capacity q)
  pub is_empty_nil : (q : Q) → items q ≡ [] → is_empty q ≡ true
  pub is_empty_cons : (q : Q) (x : ℕ) (xs : List ℕ) → items q ≡ x ∷ xs → is_empty q ≡ false
