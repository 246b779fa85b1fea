-- ===== src/Keyboard/Typing/Strikes.antt =====
-- A batch of keyboard interrupts (`add_scancode` of kernel/src/task/keyboard.rs).
use zulu_os.Base.{
  ℕ, zero, suc, ◌-◌, ◌≤◌, ◌<◌, ◌≡◌, refl, sym, ◌∙◌, ap, List, [], ◌∷◌, ◌++◌, Option, none, some,
  arith, length, length-append, subst, dec_lt, take, Option-cases, inl, inr,
}
use mathlib.Core.List.{append_assoc, append-nil}
use zulu_os.Tasks.Queue.{ArrayQueue}
use zulu_os.Keyboard.{AtomicWaker, Statics, wake, add_scancode}
use zulu_os.Keyboard.Typing.{Holds, IsWaiting, strike}

module _ (A : ArrayQueue) (W : AtomicWaker) where
  open A use {Q, items, capacity}
  open W use {registered}

  wake-queue : (s : Statics A W) → (wake A W s).scancode_queue ≡ s.scancode_queue
  unfolding wake
  wake-queue s = elim (Option-cases (W.take s.waker).0) [
    | inl off ↦ rw (off, wake) refl
    | inr (id, on) ↦ rw (on, wake) refl
  ]

  -- Whom a waker wakes.
  abbrev called : Option ℕ → List ℕ → List ℕ
  called none woken = woken
  called (some id) woken = id ∷ woken

  wake-woken :
      (s : Statics A W)
      → ((wake A W s).woken ≡ called (registered s.waker) s.woken)
        × (registered (wake A W s).waker ≡ none)
  unfolding wake
  wake-woken s =
      let (same, gone) = W.take_lem s.waker in
      elim (Option-cases (W.take s.waker).0) [
        | inl off ↦ (rw (off, wake, sym same, off) refl, rw (off, wake) gone)
        | inr (id, on) ↦ (rw (on, wake, sym same, on) refl, rw (on, wake) gone)
      ]

  add_full :
      (limit x : ℕ) (held : List ℕ) (s : Statics A W)
      → Holds A W limit held s
      → limit ≤ length held
      → add_scancode A W x s ≡ s
  unfolding add_scancode
  add_full limit x held s h full =
      let size : length (items h.queue) ≡ length held = ap length h.held_items in
      ground (arith, h.is_queue, A.push_full x h.queue (omega (arith, h.limited, size)))

  add_room :
      (limit x : ℕ) (held : List ℕ) (s : Statics A W)
      → Holds A W limit held s
      → length held < limit
      → ((add_scancode A W x s).woken ≡ called (registered s.waker) s.woken)
        × (registered (add_scancode A W x s).waker ≡ none)
        × Holds A W limit (held ++ x ∷ []) (add_scancode A W x s)
  unfolding add_scancode
  add_room limit x held s h room =
      let size : length (items h.queue) ≡ length held = ap length h.held_items in
      let (q', e, i, c) = A.push_room x h.queue (omega (arith, h.limited, size)) in
      let s1 : Statics A W = record s { scancode_queue = some q' } in
      let added : add_scancode A W x s ≡ wake A W s1 = ground (arith, h.is_queue, e) in
      let (woken, off) = wake-woken s1 in
      (
        ap (λ t. t.woken) added ∙ woken,
        ap (λ t. registered t.waker) added ∙ off,
        record {
          queue = q';
          is_queue = ap (λ t. t.scancode_queue) added ∙ wake-queue s1;
          held_items = i ∙ ap (λ l. l ++ x ∷ []) h.held_items;
          limited = c ∙ h.limited;
        },
      )

  pub take-nil : (n : ℕ) → take {A = ℕ} n [] ≡ []
  take-nil zero = refl
  take-nil (suc n) = refl

  take_more :
      (limit x : ℕ) (xs held : List ℕ)
      → length held < limit
      → (held ++ x ∷ []) ++ take (limit - length (held ++ x ∷ [])) xs
        ≡ held ++ take (limit - length held) (x ∷ xs)
  take_more limit x xs held room =
      let size : limit - length held ≡ suc (limit - length (held ++ x ∷ [])) =
        omega (arith, length-append held (x ∷ [])) in
      append_assoc held (x ∷ []) (take (limit - length (held ++ x ∷ [])) xs)
      ∙ ap (λ n. held ++ take n (x ∷ xs)) (sym size)

  pub length-take : (n : ℕ) (xs : List ℕ) → length (take n xs) ≤ n
  length-take zero xs = omega arith
  length-take (suc n) [] = omega arith
  length-take (suc n) (x ∷ xs) = omega (arith, length-take n xs)

  -- The rest of a batch, once the waker is taken.
  strike_later :
      (limit : ℕ) (xs held : List ℕ) (s : Statics A W)
      → Holds A W limit held s
      → registered s.waker ≡ none
      → ((strike A W xs s).woken ≡ s.woken)
        × Holds A W limit (held ++ take (limit - length held) xs) (strike A W xs s)
  unfolding strike
  strike_later limit [] held s h off = (
    refl,
    subst (λ l. Holds A W limit l s)
        (sym (append-nil held) ∙ ap (λ l. held ++ l) (sym (take-nil (limit - length held)))) h,
  )
  strike_later limit (x ∷ xs) held s h off = elim (dec_lt (length held) limit) [
    | yes room ↦
        let (woken, off', h') = add_room limit x held s h room in
        let (same, h2) = strike_later limit xs (held ++ x ∷ []) (add_scancode A W x s) h' off' in
        (
          same ∙ woken ∙ ap (λ o. called o s.woken) off,
          subst (λ l. Holds A W limit l (strike A W xs (add_scancode A W x s)))
              (take_more limit x xs held room) h2,
        )
    | no full ↦
        let same : add_scancode A W x s ≡ s = add_full limit x held s h (omega arith) in
        let (woken, h2) = strike_later limit xs held s h off in
        let none_left : limit - length held ≡ 0 = omega arith in
        (
          ap (λ t. (strike A W xs t).woken) same ∙ woken,
          subst
              (λ t. Holds A W limit (held ++ take (limit - length held) (x ∷ xs)) (strike A W xs t))
              (sym same)
              (subst (λ l. Holds A W limit l (strike A W xs s))
                (ap (λ n. held ++ take n xs) none_left
                  ∙ ap (λ n. held ++ take n (x ∷ xs)) (sym none_left))
                h2),
        )
  ]

  -- A batch that comes while the task waits wakes it, once, unless it is empty.
  pub strike_lem :
      (limit id x : ℕ) (xs : List ℕ) (s : Statics A W)
      → 0 < limit
      → IsWaiting A W limit id s
      → s.woken ≡ []
      → ((strike A W (x ∷ xs) s).woken ≡ id ∷ [])
        × Holds A W limit (take limit (x ∷ xs)) (strike A W (x ∷ xs) s)
  unfolding strike
  strike_lem limit id x xs s pos waits fresh =
      let all : limit - 0 ≡ limit = omega arith in
      let (woken, off, h) = add_room limit x [] s waits.none_held pos in
      let (same, h2) = strike_later limit xs (x ∷ []) (add_scancode A W x s) h off in
      (
        same ∙ woken ∙ ap (λ o. called o s.woken) waits.on_call ∙ ap (λ l. id ∷ l) fresh,
        subst (λ l. Holds A W limit l (strike A W xs (add_scancode A W x s)))
            (take_more limit x xs [] pos ∙ ap (λ n. take n (x ∷ xs)) all) h2,
      )
