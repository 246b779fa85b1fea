-- ===== src/Segments/Tests.antt =====
-- The table at a concrete implementation of its interface.
use zulu_os.Base.{◌+◌, ◌%◌, ◌/◌, ◌≡◌, true, false, none, some}
use zulu_os.Segments.{
  kernel_code_segment, kernel_data_segment, user_data_segment, user_code_segment, tss_segment,
  Segments, gdt_init,
}
use zulu_os.Segments.Samples.{eight_places}
use zulu_os.Segments.Naming.{gdt_init_lem}

gdt_init_lem_example :
    (gdt_init eight_places false ≡ none)
    × ((s : Segments eight_places) × (gdt_init eight_places true ≡ some s)
        × (s.table.entry (s.cs / 8) ≡ some kernel_code_segment)
        × (s.table.entry (s.ds / 8) ≡ some kernel_data_segment)
        × (s.table.entry (s.gs / 8) ≡ some kernel_data_segment)
        × (s.table.entry (s.tr / 8) ≡ some tss_segment)
        × (s.table.entry ((s.star.sysret_base + 16) / 8) ≡ some user_code_segment)
        × (s.table.entry ((s.star.sysret_base + 8) / 8) ≡ some user_data_segment)
        × (s.table.entry (s.star.syscall_base / 8) ≡ some kernel_code_segment)
        × (s.table.entry ((s.star.syscall_base + 8) / 8) ≡ some kernel_data_segment)
        × ((s.star.sysret_base + 16) % 4 ≡ 3)
        × (s.cs % 4 ≡ 0))
gdt_init_lem_example = gdt_init_lem eight_places
