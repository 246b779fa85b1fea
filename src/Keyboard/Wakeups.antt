-- ===== src/Keyboard/Wakeups.antt =====
-- The invariant of the steps of `Keyboard.Races` (kernel/src/task/keyboard.rs).
use zulu_os.Base.{
  ℕ, ◌+◌, ◌<◌, ◌≡◌, ◌≢◌, ◌⊎◌, inl, inr, refl, sym, ◌∙◌, ap, List, [], ◌∷◌, ◌++◌, none, some, arith,
  length, dec_lt, List-cases, Option-cases,
}
use mathlib.Core.List.{append_assoc}
use zulu_os.Tasks.Queue.{ArrayQueue}
use zulu_os.Keyboard.{
  AtomicWaker, pending, Statics, pop_scancode, register_waker, poll_again, wake, add_scancode,
}
use zulu_os.Keyboard.Races.{
  Place, outside, looked, registered_waker, asleep, Scene, Step, finds, misses, registers,
  finds_again, sleeps, strikes, Reach, here, next_step, IsCovered,
}

module _ (A : ArrayQueue) (K : AtomicWaker) where
  open A use {Q, items, capacity}
  open K use {take}

  -- A look into the queue takes its first scancode, or finds it empty and changes nothing.
  pub pop_scancode-cases :
      (s : Statics A K) (q : Q)
      → s.scancode_queue ≡ some q
      → ((items q ≡ []) × (pop_scancode A K s ≡ some (none, s)))
        ⊎ ((scancode : ℕ) × (q' : Q) × (pop_scancode A K s
              ≡ some (some scancode, record s { scancode_queue = some q' }))
            × (items q ≡ scancode ∷ items q')
            × (capacity q' ≡ capacity q))
  unfolding pop_scancode
  pop_scancode-cases s q h = elim (List-cases (items q)) [
    | inl empty ↦ inl (empty, ground (arith, A.pop_empty q empty))
    | inr (x, rest, full) ↦
        let (q', e, i, c) = A.pop_first q x rest full in
        inr (x, q', ground arith, full ∙ ap (λ l. x ∷ l) (sym i), c)
  ]

  pop_scancode_uninit : (s : Statics A K) → s.scancode_queue ≡ none → pop_scancode A K s ≡ none
  unfolding pop_scancode
  pop_scancode_uninit s h = ground arith

  -- `wake` wakes the registered task, if there is one.
  wake_lem :
      (s : Statics A K)
      → ((wake A K s).scancode_queue ≡ s.scancode_queue)
        × ((news : List ℕ) × ((wake A K s).woken ≡ news ++ s.woken))
        × ((id : ℕ) → K.registered s.waker ≡ some id → (wake A K s).woken ≡ id ∷ s.woken)
        × (K.registered (wake A K s).waker ≡ none)
  unfolding wake
  wake_lem s = (
    ground arith,
    woken_more,
    λ id h. ground (arith, K.take_lem s.waker),
    ground (arith, K.take_lem s.waker),
  )
    where
      woken_more : (news : List ℕ) × ((wake A K s).woken ≡ news ++ s.woken)
      woken_more = elim (Option-cases ((take s.waker).0)) [
        | inl nobody ↦ ([], ground arith)
        | inr (id, one) ↦ (id ∷ [], ground arith)
      ]

  -- The interrupt drops the scancode of a full queue; else it queues it and wakes.
  add_scancode-cases :
      (s : Statics A K) (q : Q) (scancode : ℕ)
      → s.scancode_queue ≡ some q
      → (add_scancode A K scancode s ≡ s)
        ⊎ ((q' : Q) × (add_scancode A K scancode s
              ≡ wake A K (record s { scancode_queue = some q' }))
            × (capacity q' ≡ capacity q))
  unfolding add_scancode
  add_scancode-cases s q scancode h = elim (dec_lt (length (items q)) (capacity q)) [
    | yes room ↦ let (q', e, i, c) = A.push_room scancode q room in inr (q', ground arith, c)
    | no full ↦ inl (ground (arith, A.push_full scancode q (omega arith)))
  ]

  -- With room in the queue the scancode goes behind those that wait, and whoever waits for one is woken.
  pub add_scancode_room :
      (s : Statics A K) (q : Q) (scancode : ℕ)
      → s.scancode_queue ≡ some q
      → length (items q) < capacity q
      → (q' : Q) × ((add_scancode A K scancode s).scancode_queue ≡ some q')
        × (items q' ≡ items q ++ (scancode ∷ []))
        × ((task : ℕ)
            → K.registered s.waker ≡ some task
            → (add_scancode A K scancode s).woken ≡ task ∷ s.woken)
  unfolding add_scancode
  add_scancode_room s q scancode h room =
      let (q', e, i, c) = A.push_room scancode q room in
      let s1 : Statics A K = record s { scancode_queue = some q' } in
      let added : add_scancode A K scancode s ≡ wake A K s1 = ground arith in
      let (wq, more, wr, wn) = wake_lem s1 in
      (
        q',
        ap (λ t. t.scancode_queue) added ∙ wq,
        i,
        λ task reg. ap (λ t. t.woken) added ∙ wr task reg,
      )

  add_scancode_uninit :
      (s : Statics A K) (scancode : ℕ)
      → s.scancode_queue ≡ none
      → add_scancode A K scancode s ≡ record s { warnings = s.warnings + 1 }
  unfolding add_scancode
  add_scancode_uninit s scancode h = ground arith

  module _ (task : ℕ) where
    strikes-IsCovered :
        (s : Scene A K task) (scancode : ℕ)
        → IsCovered A K task s
        → IsCovered A K task (record s { statics = add_scancode A K scancode s.statics })
    strikes-IsCovered s scancode v = elim (Option-cases s.statics.scancode_queue) [
      | inl none_yet ↦
          rw (add_scancode_uninit s.statics scancode none_yet)
            (record { armed = v.armed; covered = λ at p hp. absurd (cc) })
      | inr (q, h) ↦ elim (add_scancode-cases s.statics q scancode h) [
        | inl same ↦ rw same v
        | inr (q', e, c) ↦
            let (wq, (more, wl), wr, wn) =
              wake_lem (record s.statics { scancode_queue = some q' }) in
            rw e (record {
              armed = λ at. elim (v.armed at) [
                | inl (news, late) ↦ inl (
                  more ++ news,
                  wl ∙ ap (λ l. more ++ l) late ∙ sym (append_assoc more news (task ∷ s.noted)),
                )
                | inr (reg, still) ↦ inl ([], wr task reg ∙ ap (λ l. task ∷ l) still)
              ];
              covered = λ at p hp. elim (v.covered at q h) [
                | inl (news, late) ↦ inl (
                  more ++ news,
                  wl ∙ ap (λ l. more ++ l) late ∙ sym (append_assoc more news (task ∷ s.noted)),
                )
                | inr ((reg, still), none_left) ↦ inl ([], wr task reg ∙ ap (λ l. task ∷ l) still)
              ];
            })
      ]
    ]

    -- A poll that gives up leaves everything as it is, and found the queue empty.
    poll_again_gives_up :
        (s s' : Statics A K)
        → poll_again A K s ≡ some (pending, s')
        → (s' ≡ s) × ((q : Q) → s.scancode_queue ≡ some q → items q ≡ [])
    unfolding poll_again
    poll_again_gives_up s s' e = elim (Option-cases s.scancode_queue) [
      | inl none_yet ↦ absurd (ground (arith, pop_scancode_uninit s none_yet))
      | inr (q, h) ↦ elim (pop_scancode-cases s q h) [
        | inl (empty, miss) ↦ (ground (arith, miss), λ p hp. ground (arith, empty, h, hp))
        | inr (x, q', found, i, c) ↦ absurd (ground (arith, found))
      ]
    ]

    uncovered :
        (s : Scene A K task) (p : Place)
        → s.place ≡ p
        → (p ≢ registered_waker)
        → p ≢ asleep
        → IsCovered A K task s
    uncovered s p e m n = record { armed = λ at. absurd (m (cc)); covered = λ at. absurd (n (cc)) }

    Step-IsCovered :
        (s t : Scene A K task) → Step A K task s t → IsCovered A K task s → IsCovered A K task t
    unfolding register_waker
    Step-IsCovered s t (finds x s' at e et) v =
        uncovered t outside (cc) (λ h. absurd (cc)) (λ h. absurd (cc))
    Step-IsCovered s t (misses s' at e et) v =
        uncovered t looked (cc) (λ h. absurd (cc)) (λ h. absurd (cc))
    Step-IsCovered s t (registers at et) v = rw et (record {
      armed = λ h. inr (K.register_lem task s.statics.waker, refl);
      covered = λ h. absurd (cc);
    })
    Step-IsCovered s t (finds_again x s' at e et) v =
        uncovered t outside (cc) (λ h. absurd (cc)) (λ h. absurd (cc))
    Step-IsCovered s t (sleeps s' at e et) v =
        let (same, none_left) = poll_again_gives_up s.statics s' e in
        rw (et, same)
          (record {
            armed = λ h. absurd (cc);
            covered = λ h q hq. elim (v.armed at) [
              | inl woken ↦ inl woken
              | inr waiting ↦ inr (waiting, none_left q hq)
            ];
          })
    Step-IsCovered s t (strikes x et) v = rw et (strikes-IsCovered s x v)

    Reach-IsCovered :
        (s t : Scene A K task) → IsCovered A K task s → Reach A K task s t → IsCovered A K task t
    Reach-IsCovered s t v here = v
    Reach-IsCovered s t v (next_step {t = m} r st) = Step-IsCovered m t st (Reach-IsCovered s m v r)

    -- From a state where the task is outside `poll_next`, and wherever the keyboard interrupt
    -- strikes: when the task sleeps in `poll_next` and a scancode waits in the queue, the task
    -- has been woken since the poll registered its waker.
    pub no_lost_scancode :
        (s t : Scene A K task) (q : Q) (scancode : ℕ) (rest : List ℕ)
        → s.place ≡ outside
        → Reach A K task s t
        → t.place ≡ asleep
        → t.statics.scancode_queue ≡ some q
        → items q ≡ scancode ∷ rest
        → (news : List ℕ) × (t.statics.woken ≡ news ++ (task ∷ t.noted))
    no_lost_scancode s t q scancode rest e r at h waits =
        elim ((Reach-IsCovered s t (uncovered s outside e (λ h. absurd (cc)) (λ h. absurd (cc)))
            r).covered
          at q h) [ inl woken ↦ woken | inr (waiting, empty) ↦ absurd (ground arith) ]
