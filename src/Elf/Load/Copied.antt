-- ===== src/Elf/Load/Copied.antt =====
-- The loop that copies the segments of a program into memory (kernel/src/elf/mod.rs).
use zulu_os.Base.{
  ℕ, zero, suc, ◌+◌, ◌-◌, ◌*◌, ◌/◌, ◌<◌, ◌≤◌, ◌≡◌, refl, ◌∙◌, ap, Bool, true, ◌&&◌, List, [], ◌∷◌,
  ◌++◌, Option, some, if◌then◌else◌, arith, length, get_or, get_elem?_in, leb, ltb, inl, inr,
  Bool-cases,
}
use zulu_os.Paging.{Paging, present, writable}
use zulu_os.Mapping.{PageMapper}
use zulu_os.Elf.{Object, ElfSegment}
use zulu_os.Elf.Load.{is_load, copy_bytes, copy_segment, copy_segments}

module _ (P : Paging) (O : Object P) (M : PageMapper P) where
  open M use {S, flags_of, byte_at}

  abbrev pub IsMapped : S → ℕ → Type 0
  IsMapped s b = (flags : P.Flags) × (flags_of s (b / 4096 * 4096) ≡ some flags)

  abbrev pub CanWrite : S → ℕ → Type 0
  CanWrite s a =
      (flags : P.Flags) × (flags_of s (a / 4096 * 4096) ≡ some flags)
      × (P.contains flags present ≡ true)
      × (P.contains flags writable ≡ true)
      × M.Alone s (a / 4096 * 4096)

  -- The state after writes: the same pages, and the bytes as the function says.
  abbrev pub Writes : Option S → S → (ℕ → ℕ) → Type 0
  Writes m s f =
      (s' : S) × (m ≡ some s')
      × ((q : ℕ) → flags_of s' q ≡ flags_of s q)
      × ((q : ℕ) → M.Alone s q → M.Alone s' q)
      × ((b : ℕ) → IsMapped s b → byte_at s' b ≡ f b)

  pub copy_bytes_lem :
      (bytes : List ℕ) (n src dst : ℕ) (s : S)
      → src + n ≤ length bytes
      → ((a : ℕ) → dst ≤ a → a < dst + n → CanWrite s a)
      → Writes (copy_bytes P O M bytes n src dst s) s (λ b.
        if leb dst b && ltb b (dst + n) then get_or bytes (src + (b - dst)) 0 else byte_at s b)
  unfolding copy_bytes
  copy_bytes_lem bytes zero src dst s fits can = (s, refl, λ q. refl, λ q u. u, λ b m. ground arith)
  copy_bytes_lem bytes (suc n) src dst s fits can =
      let (g, at, pr, wr, own) = can dst (omega arith) (omega arith) in
      let (s1, e1, f1, l1, b1) = M.write_byte_lem dst (get_or bytes src 0) g s at pr wr own in
      let (s2, e2, f2, l2, b2) =
        copy_bytes_lem bytes n (src + 1) (dst + 1) s1 (omega arith) (λ a lo hi.
          let (h, at', pr', wr', own') = can a (omega arith) (omega arith) in
          (h, f1 (a / 4096 * 4096) ∙ at', pr', wr', l1 (a / 4096 * 4096) own')) in
      (
        s2,
        rw (get_elem?_in bytes src 0 (omega arith), e1) e2,
        λ q. f2 q ∙ f1 q,
        λ q u. l2 q (l1 q u),
        λ b (h, m). ground (arith, b2 b (h, f1 (b / 4096 * 4096) ∙ m), b1 b h m),
      )

  -- The bytes of a segment that the file has, if it is one that is loaded.
  abbrev pub covers : ElfSegment P O → ℕ → Bool
  covers section b =
      is_load section.ty
      && (leb section.addr.start b
          && ltb b (section.addr.start + (section.file_end - section.file_start)))

  abbrev pub file_byte : List ℕ → ElfSegment P O → ℕ → ℕ
  file_byte bytes section b = get_or bytes (section.file_start + (b - section.addr.start)) 0

  -- What the segments leave at an address, in their order.
  abbrev pub loaded : List ℕ → List (ElfSegment P O) → ℕ → ℕ → ℕ
  loaded bytes [] b was = was
  loaded bytes (section ∷ segments) b was =
      loaded bytes segments b (if covers section b then file_byte bytes section b else was)

  -- The file has the bytes of the segment, and its memory may be written.
  pub record IsCopied (bytes : List ℕ) (s : S) (section : ElfSegment P O) : Type 0 where
    pub ordered : section.file_start ≤ section.file_end
    pub in_file : section.file_end ≤ length bytes
    pub can : (a : ℕ) → covers section a ≡ true → CanWrite s a

  abbrev pub AllCopied : List ℕ → S → List (ElfSegment P O) → Type 0
  AllCopied bytes s [] = Unit {0}
  AllCopied bytes s (section ∷ segments) =
      (is_load section.ty ≡ true → IsCopied bytes s section) × AllCopied bytes s segments

  copy_segment_lem :
      (bytes : List ℕ) (section : ElfSegment P O) (s : S)
      → (is_load section.ty ≡ true → IsCopied bytes s section)
      → Writes
          (copy_segment P O M bytes section s)
          s
          (λ b. if covers section b then file_byte bytes section b else byte_at s b)
  unfolding copy_segment
  copy_segment_lem bytes section s ok = elim (Bool-cases (is_load section.ty)) [
    | inr other ↦ rw other (s, refl, λ q. refl, λ q u. u, λ b m. refl)
    | inl yes_load ↦
        let c = ok yes_load in
        let o : leb section.file_start section.file_end ≡ true = ground (arith, c.ordered) in
        let i : leb section.file_end (length bytes) ≡ true = ground (arith, c.in_file) in
        rw (yes_load, o, i)
          (copy_bytes_lem bytes (section.file_end - section.file_start) section.file_start
            section.addr.start s (omega (arith, c.ordered, c.in_file))
            (λ a lo hi. c.can a (ground arith)))
  ]

  AllCopied-mono :
      (bytes : List ℕ) (s s' : S) (segments : List (ElfSegment P O))
      → ((q : ℕ) → flags_of s' q ≡ flags_of s q)
      → ((q : ℕ) → M.Alone s q → M.Alone s' q)
      → AllCopied bytes s segments
      → AllCopied bytes s' segments
  AllCopied-mono bytes s s' [] same own ok = tt
  AllCopied-mono bytes s s' (section ∷ segments) same own ok = (
    λ yes_load.
        let c = ok.0 yes_load in
        record {
          ordered = c.ordered;
          in_file = c.in_file;
          can = λ a cov.
              let (g, at, pr, wr, u) = c.can a cov in
              (g, same (a / 4096 * 4096) ∙ at, pr, wr, own (a / 4096 * 4096) u);
        },
    AllCopied-mono bytes s s' segments same own ok.1,
  )

  pub copy_segments_lem :
      (bytes : List ℕ) (segments : List (ElfSegment P O)) (s : S)
      → AllCopied bytes s segments
      → Writes (copy_segments P O M bytes segments s) s (λ b. loaded bytes segments b (byte_at s b))
  unfolding copy_segments
  copy_segments_lem bytes [] s ok = (s, refl, λ q. refl, λ q u. u, λ b m. refl)
  copy_segments_lem bytes (section ∷ segments) s ok =
      let (s1, e1, f1, l1, b1) = copy_segment_lem bytes section s ok.0 in
      let (s2, e2, f2, l2, b2) =
        copy_segments_lem bytes segments s1 (AllCopied-mono bytes s s1 segments f1 l1 ok.1) in
      (
        s2,
        rw e1 e2,
        λ q. f2 q ∙ f1 q,
        λ q u. l2 q (l1 q u),
        λ b m. b2 b (m.0, f1 (b / 4096 * 4096) ∙ m.1) ∙ ap (loaded bytes segments b) (b1 b m),
      )

  -- A segment's byte stays where no later segment covers it.
  pub loaded_last :
      (bytes : List ℕ) (before after : List (ElfSegment P O)) (section : ElfSegment P O) (b was : ℕ)
      → covers section b ≡ true
      → loaded bytes after b (file_byte bytes section b) ≡ file_byte bytes section b
      → loaded bytes (before ++ section ∷ after) b was ≡ file_byte bytes section b
  loaded_last bytes [] after section b was cov later =
      let mine : (if covers section b then file_byte bytes section b else was)
          ≡ file_byte bytes section b =
        ground arith in
      ap (loaded bytes after b) mine ∙ later
  loaded_last bytes (first ∷ before) after section b was cov later =
      loaded_last bytes before after section b
        (if covers first b then file_byte bytes first b else was) cov later
