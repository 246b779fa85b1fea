-- ===== src/Elf/Load/Granted.antt =====
-- What a loaded segment's pages allow (`load` of kernel/src/elf/mod.rs).
use zulu_os.Base.{
  ℕ, ◌+◌, ◌*◌, ◌/◌, ◌<◌, ◌≤◌, ◌≡◌, ◌≢◌, sym, ◌∙◌, ap, subst, true, List, [], ◌∷◌, ◌++◌, some,
}
use zulu_os.Tasks.Maps.{lookup}
use zulu_os.Paging.{Paging, Flag, present, user_accessible, no_execute}
use zulu_os.Mapping.{PageMapper}
use zulu_os.Elf.{Object, ElfSegment, collect_pages}
use zulu_os.Elf.Flags.{allows, allows-some}
use zulu_os.Elf.Pages.{Low, collect_pages_grants}
use zulu_os.Elf.Load.Table.{AllPresent}

pub present_runs : present ≢ no_execute
present_runs e = cc

pub user_runs : user_accessible ≢ no_execute
user_runs e = cc

module _ (P : Paging) (O : Object P) (M : PageMapper P) where
  open M use {S, flags_of}
  open P use {contains}

  pub AllPresent-middle :
      (before after : List (ElfSegment P O)) (s : ElfSegment P O)
      → AllPresent P O (before ++ s ∷ after)
      → contains s.flags present ≡ true
  AllPresent-middle [] after s ok = ok.0
  AllPresent-middle (first ∷ before) after s ok = AllPresent-middle before after s ok.1

  -- The page of an address in a segment, in a state whose pages have the flags of the table.
  pub segment_granted :
      (ss : List (ElfSegment P O)) (table : List (ℕ × P.Flags)) (s : S)
      → Low P O ss
      → AllPresent P O ss
      → collect_pages P O ss [] ≡ some table
      → ((q : ℕ) (flags : P.Flags)
          → lookup q table ≡ some flags
          → (g : P.Flags) × (flags_of s q ≡ some g)
            × ((f : Flag) → contains g f ≡ contains flags f))
      → (before after : List (ElfSegment P O)) (section : ElfSegment P O) (b : ℕ)
      → ss ≡ before ++ section ∷ after
      → section.addr.start ≤ b
      → b < section.addr.start + section.addr.len
      → (g : P.Flags) × (flags_of s (b / 4096 * 4096) ≡ some g)
        × ((f : Flag) → f ≢ no_execute → contains section.flags f ≡ true → contains g f ≡ true)
  segment_granted ss table s low pres e own before after section b split lo hi =
      let q : ℕ = b / 4096 * 4096 in
      let (table', e', grants) =
        collect_pages_grants P O before after section (subst (Low P O) split low) in
      let collected : some table' ≡ some table =
        sym e' ∙ sym (ap (λ l. collect_pages P O l []) split) ∙ e in
      let same : table' ≡ table = cc in
      let here = λ (f : Flag) (ne : f ≢ no_execute) (has : contains section.flags f ≡ true).
        allows-some P O table q f
          (ap (λ t. allows P O t q f) (sym same) ∙ grants b f lo hi ne has) in
      let (flags, found, x) =
        here present present_runs
          (AllPresent-middle before after section (subst (AllPresent P O) split pres)) in
      let (g, at, like) = own q flags found in
      (
        g,
        at,
        λ f ne has.
            let (flags', found', has') = here f ne has in
            let one : flags ≡ flags' = cc in like f ∙ ap (λ x. contains x f) one ∙ has',
      )
