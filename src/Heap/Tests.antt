-- ===== src/Heap/Tests.antt =====
-- The set-up of the kernel's heap with a mapper that keeps a table.
use zulu_os.Base.{ℕ, ◌+◌, ◌*◌, ◌/◌, ◌<◌, ◌≤◌, ◌≡◌, ◌⊎◌, true, none, some}
use zulu_os.Syscall.Samples.{machine}
use zulu_os.Mapping.Samples.{Table, table_mapper, empty_table}
use zulu_os.Elf.Samples.{bit_flags}
use zulu_os.Alloc.{BumpAllocator, heap_start_address, heap_size}
use zulu_os.Heap.{heap_flags, init_kernel_heap}
use zulu_os.Heap.Setup.{init_kernel_heap_lem}

abbrev no_heap : BumpAllocator
no_heap = record { heap_start = 0; heap_end = 0; next = 0 }

init_kernel_heap_lem_example :
    (s' : Table) × (((e : ℕ) × (init_kernel_heap machine bit_flags table_mapper true empty_table
            no_heap
          ≡ some (some e, s', no_heap)))
      ⊎ ((init_kernel_heap machine bit_flags table_mapper true empty_table no_heap
            ≡ some (
              none,
              s',
              record {
                heap_start = heap_start_address;
                heap_end = heap_start_address + heap_size;
                next = heap_start_address;
              },
            ))
          × ((b : ℕ)
              → heap_start_address ≤ b
              → b < heap_start_address + heap_size
              → s'.flags (b / 4096 * 4096) ≡ some (heap_flags machine bit_flags table_mapper))))
init_kernel_heap_lem_example =
    init_kernel_heap_lem machine bit_flags table_mapper true empty_table no_heap
