-- ===== src/Tasks/Maps.antt =====
-- Maps with numbers as keys, as association lists: what `BTreeMap` is used for in
-- kernel/src/task/executor.rs.
use zulu_os.Base.{
  leb, Bool-cases, inl, inr, length, ◌∙◌, ℕ, ◌+◌, ◌≤◌, ◌≡◌, ◌≢◌, refl, List, [], ◌∷◌, Option, none,
  some, arith, ◌==◌, if◌then◌else◌,
}

module _ {ℓ} {V : Type ℓ} where
  unfoldable pub lookup : ℕ → List (ℕ × V) → Option V
  lookup key [] = none
  lookup key ((first, value) ∷ rest) = if first == key then some value else lookup key rest

  unfoldable pub insert : ℕ → V → List (ℕ × V) → List (ℕ × V)
  insert key value [] = (key, value) ∷ []
  insert key value ((first, old) ∷ rest) =
      if first == key then (key, value) ∷ rest else (first, old) ∷ insert key value rest

  unfoldable pub remove : ℕ → List (ℕ × V) → List (ℕ × V)
  remove key [] = []
  remove key ((first, value) ∷ rest) =
      if first == key then remove key rest else (first, value) ∷ remove key rest

  pub lookup-insert :
      (key other : ℕ) (value : V) (rest : List (ℕ × V))
      → lookup other (insert key value rest)
        ≡ (if key == other then some value else lookup other rest)
  unfolding insert lookup
  lookup-insert key other value [] = refl
  lookup-insert key other value ((first, old) ∷ rest) =
      ground (arith, lookup-insert key other value rest)

  pub lookup-remove :
      (k j : ℕ) (m : List (ℕ × V)) → lookup j (remove k m) ≡ (if k == j then none else lookup j m)
  unfolding lookup remove
  lookup-remove k j [] = ground arith
  lookup-remove k j ((i, w) ∷ m) = ground (arith, lookup-remove k j m)

  -- The total of a measure over the values.
  unfoldable pub total : (V → ℕ) → List (ℕ × V) → ℕ
  total f [] = 0
  total f ((j, w) ∷ m) = f w + total f m

  pub total-insert :
      (f : V → ℕ) (k : ℕ) (old v : V) (m : List (ℕ × V))
      → lookup k m ≡ some old
      → total f (insert k v m) + f old ≡ total f m + f v
  unfolding total insert lookup
  total-insert f k old v [] e = absurd (ground arith)
  total-insert f k old v ((i, w) ∷ m) e = ground (arith, total-insert f k old v m)

  total-remove-le : (f : V → ℕ) (k : ℕ) (m : List (ℕ × V)) → total f (remove k m) ≤ total f m
  unfolding total remove
  total-remove-le f k [] = omega arith
  total-remove-le f k ((i, w) ∷ m) = ground (arith, total-remove-le f k m)

  pub total-remove :
      (f : V → ℕ) (k : ℕ) (old : V) (m : List (ℕ × V))
      → lookup k m ≡ some old
      → total f (remove k m) + f old ≤ total f m
  unfolding total remove lookup
  total-remove f k old [] e = absurd (ground arith)
  total-remove f k old ((i, w) ∷ m) e =
      ground (arith, total-remove f k old m, total-remove-le f k m)

  -- The entries in the order of their keys, as a `BTreeMap` gives them.
  unfoldable pub place : ℕ → V → List (ℕ × V) → List (ℕ × V)
  place key value [] = (key, value) ∷ []
  place key value ((first, old) ∷ rest) =
      if leb key first
      then (key, value) ∷ (first, old) ∷ rest
      else (first, old) ∷ place key value rest

  unfoldable pub by_key : List (ℕ × V) → List (ℕ × V)
  unfolding place
  by_key [] = []
  by_key ((key, value) ∷ rest) = place key value (by_key rest)

  lookup-place :
      (key other : ℕ) (value : V) (rest : List (ℕ × V))
      → lookup other (place key value rest)
        ≡ (if key == other then some value else lookup other rest)
  unfolding lookup place
  lookup-place key other value [] = refl
  lookup-place key other value ((first, old) ∷ rest) =
      ground (arith, lookup-place key other value rest)

  pub lookup-by_key : (other : ℕ) (m : List (ℕ × V)) → lookup other (by_key m) ≡ lookup other m
  unfolding lookup by_key
  lookup-by_key other [] = refl
  lookup-by_key other ((key, value) ∷ rest) =
      ground (arith, lookup-place key other value (by_key rest), lookup-by_key other rest)

  -- Each key stands once.
  abbrev pub IsMap : List (ℕ × V) → Type ℓ
  IsMap [] = Unit
  IsMap ((key, value) ∷ rest) = (lookup key rest ≡ none) × IsMap rest

  place-IsMap :
      (key : ℕ) (value : V) (m : List (ℕ × V))
      → lookup key m ≡ none
      → IsMap m
      → IsMap (place key value m)
  unfolding lookup place
  place-IsMap key value [] fresh ok = (refl, tt)
  place-IsMap key value ((first, old) ∷ rest) fresh ok = elim (Bool-cases (leb key first)) [
    | inl before ↦ rw before (fresh, ok)
    | inr behind ↦ rw behind (
      ground (arith, lookup-place key first value rest),
      place-IsMap key value rest (ground arith) ok.1,
    )
  ]

  pub by_key-IsMap : (m : List (ℕ × V)) → IsMap m → IsMap (by_key m)
  unfolding by_key
  by_key-IsMap [] ok = tt
  by_key-IsMap ((key, value) ∷ rest) ok =
      place-IsMap key value (by_key rest) (lookup-by_key key rest ∙ ok.0) (by_key-IsMap rest ok.1)

  pub insert-IsMap : (key : ℕ) (value : V) (m : List (ℕ × V)) → IsMap m → IsMap (insert key value m)
  unfolding insert lookup
  insert-IsMap key value [] ok = (refl, tt)
  insert-IsMap key value ((first, old) ∷ rest) ok = elim (Bool-cases (first == key)) [
    | inl same ↦ rw same (ground arith, ok.1)
    | inr other ↦
        rw other
          (ground (arith, lookup-insert key first value rest), insert-IsMap key value rest ok.1)
  ]

  pub length-insert :
      (key : ℕ) (value : V) (m : List (ℕ × V)) → length (insert key value m) ≤ length m + 1
  unfolding insert
  length-insert key value [] = omega arith
  length-insert key value ((first, old) ∷ rest) = ground (arith, length-insert key value rest)

  length-place :
      (key : ℕ) (value : V) (m : List (ℕ × V)) → length (place key value m) ≡ length m + 1
  unfolding place
  length-place key value [] = refl
  length-place key value ((first, old) ∷ rest) = ground (arith, length-place key value rest)

  pub length-by_key : (m : List (ℕ × V)) → length (by_key m) ≡ length m
  unfolding by_key
  length-by_key [] = refl
  length-by_key ((key, value) ∷ rest) =
      omega (arith, length-place key value (by_key rest), length-by_key rest)

  -- An entry behind the first one is at another key, and found past it.
  pub lookup_behind :
      (key other : ℕ) (value found : V) (rest : List (ℕ × V))
      → lookup key rest ≡ none
      → lookup other rest ≡ some found
      → (key ≢ other) × (lookup other ((key, value) ∷ rest) ≡ some found)
  unfolding lookup
  lookup_behind key other value found rest fresh e =
      let apart : key ≢ other = λ same. absurd (cc) in (apart, ground (arith, apart))
