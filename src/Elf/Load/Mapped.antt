-- ===== src/Elf/Load/Mapped.antt =====
-- The two loops over the pages of a program (kernel/src/elf/mod.rs): the one that maps them, and the
-- one that takes the write permission back.
use zulu_os.Base.{
  ℕ, ◌*◌, ◌≤◌, ◌≡◌, refl, ◌∙◌, List, [], ◌∷◌, Option, none, some, if◌then◌else◌, arith, length, inl,
  inr, Bool-cases, Option-cases, subst,
}
use zulu_os.Tasks.Maps.{lookup, IsMap, lookup_behind}
use zulu_os.Paging.{Paging, writable}
use zulu_os.Mapping.{PageMapper, map_page_lem}
use zulu_os.Elf.{Object}
use zulu_os.Elf.Load.{map_table, protect_table}

module _ (P : Paging) (O : Object P) (M : PageMapper P) where
  open M use {S, flags_of, byte_at, frames_left, Free, Sound, Alone}

  -- The flags of a page of the table while the segments are copied, and what else a page has.
  abbrev pub open_flags : Option P.Flags → Option P.Flags → Option P.Flags
  open_flags none was = was
  open_flags (some flags) was = some (O.union flags (O.only writable))

  pub map_table_lem :
      (table : List (ℕ × P.Flags)) (s : S)
      → IsMap table
      → Sound s
      → ((q : ℕ) (flags : P.Flags) → lookup q table ≡ some flags → Free s q)
      → 4 * length table ≤ frames_left s
      → (s' : S) × (map_table P O M table s ≡ some s')
        × ((q : ℕ) → flags_of s' q ≡ open_flags (lookup q table) (flags_of s q))
        × ((q : ℕ) (flags : P.Flags) → lookup q table ≡ some flags → Alone s' q)
        × ((q : ℕ) → lookup q table ≡ none → Alone s q → Alone s' q)
  unfolding map_table lookup
  map_table_lem [] s ok sound free room =
      (s, refl, λ q. refl, λ q flags found. absurd (ground arith), λ q out was. was)
  map_table_lem ((page, flags) ∷ rest) s ok sound free room =
      let (s1, e1, f1, left1, sound1, alone1, others1, free1) =
        map_page_lem P M page (O.union flags (O.only writable)) s sound
          (free page flags (ground arith)) (omega arith) in
      let (s2, e2, f2, alone2, others2) =
        map_table_lem rest s1 ok.1 sound1
          (λ q old found.
            let (ne, l) = lookup_behind page q flags old rest ok.0 found in
            free1 q ne (free q old l))
          (omega arith) in
      (
        s2,
        rw e1 e2,
        λ q. ground (arith, f2 q, f1 q),
        λ q old found. elim (Option-cases (lookup q rest)) [
          | inr (later, l) ↦ alone2 q later l
          | inl absent ↦
              let here : page ≡ q = ground arith in others2 q absent (subst (Alone s1) here alone1)
        ],
        λ q out was. others2 q (ground arith) (others1 q (ground arith) was),
      )

  abbrev pub final_flags : Option P.Flags → Option P.Flags → Option P.Flags
  final_flags none was = was
  final_flags (some flags) was = if P.contains flags writable then was else some flags

  pub protect_table_lem :
      (table : List (ℕ × P.Flags)) (s : S)
      → IsMap table
      → ((q : ℕ) (flags : P.Flags)
          → lookup q table ≡ some flags
          → (old : P.Flags) × (flags_of s q ≡ some old))
      → (s' : S) × (protect_table P O M table s ≡ some s')
        × ((q : ℕ) → flags_of s' q ≡ final_flags (lookup q table) (flags_of s q))
        × ((q : ℕ) → Alone s q → Alone s' q)
        × ((b : ℕ) → byte_at s' b ≡ byte_at s b)
  unfolding protect_table lookup
  protect_table_lem [] s ok mapped = (s, refl, λ q. refl, λ q u. u, λ b. refl)
  protect_table_lem ((page, flags) ∷ rest) s ok mapped =
      elim (Bool-cases (P.contains flags writable)) [
        | inl keeps ↦
            let (s2, e2, f2, l2, b2) =
              protect_table_lem rest s ok.1 (λ q old found.
                mapped q old ((lookup_behind page q flags old rest ok.0 found).1)) in
            (s2, rw keeps e2, λ q. ground (arith, f2 q), l2, b2)
        | inr takes ↦
            let (old, was) = mapped page flags (ground arith) in
            let (s1, e1, f1, l1, b1) = M.update_flags_lem page flags old s was in
            let (s2, e2, f2, l2, b2) = protect_table_lem rest s1 ok.1 (λ q older found.
              let (ne, l) = lookup_behind page q flags older rest ok.0 found in
              let (g, h) = mapped q older l in (g, ground (arith, f1 q, ne))) in
            (
              s2,
              rw (takes, e1) e2,
              λ q. ground (arith, f2 q, f1 q),
              λ q u. l2 q (l1 q u),
              λ b. b2 b ∙ b1 b,
            )
      ]
