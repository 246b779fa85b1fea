-- ===== src/Tasks/Samples.antt =====
-- A list as the bounded queue, and a future that counts down: test data for the executor.
use zulu_os.Base.{
  ℕ, zero, suc, ◌≤◌, ◌<◌, ◌≡◌, refl, Bool, true, false, List, [], ◌∷◌, ◌++◌, Option, none, some,
  length, arith, if◌then◌else◌, ltb,
}
use zulu_os.Tasks.Queue.{ArrayQueue}
use zulu_os.Tasks.{Polled}

pub record ListQueue : Type 0 where
  pub limit : ℕ
  pub held : List ℕ

unfoldable pub push_back : ℕ → ListQueue → Option ListQueue
push_back x q =
    if ltb (length q.held) q.limit then some (record q { held = q.held ++ (x ∷ []) }) else none

unfoldable pub pop_of : List ℕ → ℕ → Option (ℕ × ListQueue)
pop_of [] limit = none
pop_of (x ∷ xs) limit = some (x, record { limit = limit; held = xs })

unfoldable pub none_in : List ℕ → Bool
none_in [] = true
none_in (x ∷ xs) = false

pub push_back_room :
    (x : ℕ) (q : ListQueue)
    → length q.held < q.limit
    → (q' : ListQueue) × (push_back x q ≡ some q')
      × (q'.held ≡ q.held ++ (x ∷ []))
      × (q'.limit ≡ q.limit)
unfolding push_back
push_back_room x q room = (record q { held = q.held ++ (x ∷ []) }, ground arith, refl, refl)

pub push_back_full : (x : ℕ) (q : ListQueue) → q.limit ≤ length q.held → push_back x q ≡ none
unfolding push_back
push_back_full x q full = ground arith

pub pop_of-nil : (limit : ℕ) (l : List ℕ) → l ≡ [] → pop_of l limit ≡ none
unfolding pop_of
pop_of-nil limit l e = rw (e, pop_of) refl

pub pop_of-cons :
    (limit : ℕ) (l : List ℕ) (x : ℕ) (xs : List ℕ)
    → l ≡ x ∷ xs
    → (q' : ListQueue) × (pop_of l limit ≡ some (x, q')) × (q'.held ≡ xs) × (q'.limit ≡ limit)
unfolding pop_of
pop_of-cons limit l x xs e = (record { limit = limit; held = xs }, rw (e, pop_of) refl, refl, refl)

pub none_in-nil : (l : List ℕ) → l ≡ [] → none_in l ≡ true
unfolding none_in
none_in-nil l e = rw (e, none_in) refl

pub none_in-cons : (l : List ℕ) (x : ℕ) (xs : List ℕ) → l ≡ x ∷ xs → none_in l ≡ false
unfolding none_in
none_in-cons l x xs e = rw (e, none_in) refl

abbrev pub list_queue : ArrayQueue
list_queue = record {
  Q = ListQueue;
  new = λ n. record { limit = n; held = [] };
  push = push_back;
  pop = λ q. pop_of q.held q.limit;
  is_empty = λ q. none_in q.held;
  items = λ q. q.held;
  capacity = λ q. q.limit;
  items_new = λ n. refl;
  capacity_new = λ n. refl;
  push_room = push_back_room;
  push_full = push_back_full;
  pop_empty = λ q e. pop_of-nil q.limit q.held e;
  pop_first = λ q x xs e. pop_of-cons q.limit q.held x xs e;
  is_empty_nil = λ q e. none_in-nil q.held e;
  is_empty_cons = λ q x xs e. none_in-cons q.held x xs e;
}

-- A future that gives up its turn, and wakes itself, as often as its number says.
unfoldable pub count_down : ℕ → ℕ → Polled ℕ
count_down zero id = record { ready = true; future = 0; woken = [] }
count_down (suc n) id = record { ready = false; future = n; woken = id ∷ [] }
