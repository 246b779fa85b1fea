-- ===== src/Boot/Stack.antt =====
-- The pages of the user program's stack (kernel/src/main.rs).
use zulu_os.Base.{
  ℕ, zero, suc, ◌+◌, ◌*◌, ◌<◌, ◌≤◌, ◌≡◌, refl, subst, true, false, inl, inr, Bool-cases, some,
  if◌then◌else◌, arith,
}
use zulu_os.Paging.{Paging, page_run}
use zulu_os.Mapping.{PageMapper, map_page_lem}
use zulu_os.Elf.{Object}
use zulu_os.Elf.Flags.{among}
use zulu_os.Segments.{Descriptors}
use zulu_os.Interrupts.{ChainedPics}
use zulu_os.Boot.{map_stack, stack_flags}

module _ (P : Paging) (O : Object P) (M : PageMapper P) (D : Descriptors) (C : ChainedPics) where
  open M use {S, flags_of, frames_left, Free}

  -- With four frames for each, free pages in a row are mapped for the stack, each on a frame of its own,
  -- and no other page is touched.
  pub map_stack_lem :
      (n first : ℕ) (s : S)
      → M.Sound s
      → ((i : ℕ) → i < n → Free s (first + i * 4096))
      → 4 * n ≤ frames_left s
      → (s' : S) × (map_stack P O M D C (page_run n first) s ≡ some s')
        × ((q : ℕ)
            → flags_of s' q
              ≡ (if among q (page_run n first) then some (stack_flags P O M D C) else flags_of s q))
        × (frames_left s ≤ frames_left s' + 4 * n)
        × M.Sound s'
        × ((q : ℕ) → among q (page_run n first) ≡ true → M.Alone s' q)
        × ((q : ℕ) → among q (page_run n first) ≡ false → M.Alone s q → M.Alone s' q)
        × ((q : ℕ) → among q (page_run n first) ≡ false → Free s q → Free s' q)
  unfolding map_stack
  map_stack_lem zero first s sound free room = (
    s,
    refl,
    λ q. refl,
    omega arith,
    sound,
    λ q here. absurd (ground arith),
    λ q out was. was,
    λ q out was. was,
  )
  map_stack_lem (suc n) first s sound free room =
      let here : first + 0 * 4096 ≡ first = omega arith in
      let (s1, e1, f1, left1, sound1, alone1, alones1, others1) =
        map_page_lem P M first (stack_flags P O M D C) s sound
          (subst (Free s) here (free 0 (omega arith))) (omega arith) in
      let (s2, e2, f2, left2, sound2, alone2, alones2, others2) =
        map_stack_lem n (first + 4096) s1 sound1
          (λ i lt.
            let shift : first + suc i * 4096 ≡ first + 4096 + i * 4096 = omega arith in
            others1 (first + 4096 + i * 4096) (omega arith)
              (subst (Free s) shift (free (suc i) (omega arith))))
          (omega (arith, left1)) in
      (
        s2,
        rw (e1, e2) refl,
        λ q. ground (arith, f1 q, f2 q),
        omega (arith, left1, left2),
        sound2,
        λ q mine. elim (Bool-cases (among q (page_run n (first + 4096)))) [
          | inl later ↦ alone2 q later
          | inr now ↦
              let its : first ≡ q = ground arith in alones2 q now (subst (M.Alone s1) its alone1)
        ],
        λ q out was. alones2 q (ground arith) (alones1 q (ground arith) was),
        λ q out was. others2 q (ground arith) (others1 q (ground arith) was),
      )
