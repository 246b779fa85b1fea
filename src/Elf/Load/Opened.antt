-- ===== src/Elf/Load/Opened.antt =====
-- The pages of a program between the loops of `load` (kernel/src/elf/mod.rs): open for writing, then as the
-- table says.
use zulu_os.Base.{
  ℕ, ◌*◌, ◌/◌, ◌≡◌, refl, ◌∙◌, ap, true, List, Option, some, arith, inl, inr, Bool-cases,
}
use zulu_os.Tasks.Maps.{lookup, by_key, lookup-by_key}
use zulu_os.Paging.{Paging, Flag, present, writable, user_accessible, no_execute}
use zulu_os.Mapping.{PageMapper}
use zulu_os.Elf.{Object, ElfSegment, flag_number}
use zulu_os.Elf.Flags.{allows-some}
use zulu_os.Elf.Load.Table.{touched, IsTable}
use zulu_os.Elf.Load.Mapped.{open_flags, final_flags}
use zulu_os.Elf.Load.Copied.{CanWrite}

module _ (P : Paging) (O : Object P) (M : PageMapper P) where
  open M use {S, flags_of, byte_at, frames_left, Free}
  open P use {contains}

  -- A page of the table while the segments are copied.
  pub opened :
      (table : List (ℕ × P.Flags)) (q : ℕ) (flags : P.Flags) (was now : Option P.Flags)
      → now ≡ open_flags P O M (lookup q (by_key table)) was
      → lookup q table ≡ some flags
      → now ≡ some (O.union flags (O.only writable))
  opened table q flags was now e found =
      e ∙ ap (λ o. open_flags P O M o was) (lookup-by_key q table ∙ found)

  pub opened-CanWrite :
      (table : List (ℕ × P.Flags)) (ss : List (ElfSegment P O)) (s s1 : S) (a : ℕ)
      → IsTable P O ss table
      → ((q : ℕ) → flags_of s1 q ≡ open_flags P O M (lookup q (by_key table)) (flags_of s q))
      → ((q : ℕ) (flags : P.Flags) → lookup q (by_key table) ≡ some flags → M.Alone s1 q)
      → touched P O ss (a / 4096 * 4096) ≡ true
      → CanWrite P O M s1 a
  unfolding flag_number
  opened-CanWrite table ss s s1 a ok f1 alone t =
      let q : ℕ = a / 4096 * 4096 in
      let (flags, found, pres) = allows-some P O table q present (ok.is_present q t) in
      (
        O.union flags (O.only writable),
        opened table q flags (flags_of s q) (flags_of s1 q) (f1 q) found,
        ground (arith, O.contains_union flags (O.only writable) present),
        ground (
          arith,
          O.contains_union flags (O.only writable) writable,
          O.contains_only writable writable,
        ),
        alone q flags (lookup-by_key q table ∙ found),
      )

  pub opened-Alone :
      (table : List (ℕ × P.Flags)) (ss : List (ElfSegment P O)) (s1 : S) (q : ℕ)
      → IsTable P O ss table
      → ((q : ℕ) (flags : P.Flags) → lookup q (by_key table) ≡ some flags → M.Alone s1 q)
      → touched P O ss q ≡ true
      → M.Alone s1 q
  opened-Alone table ss s1 q ok alone t =
      let (flags, found, pres) = allows-some P O table q present (ok.is_present q t) in
      alone q flags (lookup-by_key q table ∙ found)

  writable_still :
      (flags : P.Flags)
      → contains flags writable ≡ true
      → (f : Flag) → contains (O.union flags (O.only writable)) f ≡ contains flags f
  unfolding flag_number
  writable_still flags keeps present =
      ground
        (arith, O.contains_union flags (O.only writable) present, O.contains_only writable present)
  writable_still flags keeps writable =
      ground (arith, O.contains_union flags (O.only writable) writable)
  writable_still flags keeps user_accessible = ground (
    arith,
    O.contains_union flags (O.only writable) user_accessible,
    O.contains_only writable user_accessible,
  )
  writable_still flags keeps no_execute = ground (
    arith,
    O.contains_union flags (O.only writable) no_execute,
    O.contains_only writable no_execute,
  )

  -- Writable again or for good, the page ends with the flags of the table.
  pub final-contains :
      (flags : P.Flags) (now : Option P.Flags)
      → now ≡ final_flags P O M (some flags) (some (O.union flags (O.only writable)))
      → (g : P.Flags) × (now ≡ some g) × ((f : Flag) → contains g f ≡ contains flags f)
  unfolding flag_number
  final-contains flags now e = elim (Bool-cases (contains flags writable)) [
    | inr takes ↦ (flags, ground arith, λ f. refl)
    | inl keeps ↦ (O.union flags (O.only writable), ground arith, writable_still flags keeps)
  ]
