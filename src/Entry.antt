-- ===== src/Entry.antt =====
-- The way into a system call and back: the naked functions `syscall_N` of syscall/src/lib.rs and
-- `syscall_handler` of kernel/src/syscall/handler.rs, instruction by instruction, and
-- `ThreadData` of kernel/src/syscall/mod.rs.
pub mod Returns
pub mod Library
pub mod Setup
pub mod Breakpoint
pub mod Session
pub mod Samples
mod Tests
use zulu_os.Base.{ℕ, ◌+◌, ◌-◌, List, [], ◌∷◌, ◌++◌, ◌==◌, if◌then◌else◌}
use zulu_os.Syscall.{read, write, syscall_number, Slice}

pub data Reg : Type 0 where
  rax rbx rcx rdx rsi rdi rbp rsp r8 r9 r10 r11 : Reg

unfoldable pub reg_number : Reg → ℕ
reg_number rax = 0
reg_number rbx = 1
reg_number rcx = 2
reg_number rdx = 3
reg_number rsi = 4
reg_number rdi = 5
reg_number rbp = 6
reg_number rsp = 7
reg_number r8 = 8
reg_number r9 = 9
reg_number r10 = 10
reg_number r11 = 11

-- A word to each key; the words of a stack are 8 bytes apart.
abbrev pub set : ℕ → ℕ → (ℕ → ℕ) → ℕ → ℕ
set key value words = λ k. if key == k then value else words k

-- `gs` and `kernel_gs` are the words that the GS base and the swapped-out base point to.
pub record Cpu : Type 0 where
  pub regs : ℕ → ℕ
  pub memory : ℕ → ℕ
  pub gs : ℕ → ℕ
  pub kernel_gs : ℕ → ℕ
  pub rflags : ℕ
  pub rip : ℕ

abbrev pub reg : Reg → Cpu → ℕ
reg r c = c.regs (reg_number r)

abbrev pub write_reg : Reg → ℕ → Cpu → Cpu
write_reg r value c = record c { regs = set (reg_number r) value c.regs }

-- `offset_of!(ThreadData, …)`
abbrev pub kernel_rsp_offset : ℕ
kernel_rsp_offset = 0

abbrev pub user_rsp_offset : ℕ
user_rsp_offset = 8

pub data Instr : Type 0 where
  push pop : Reg → Instr
  mov : Reg → Reg → Instr
  mov_imm : Reg → ℕ → Instr
  jmp : ℕ → Instr
  store_gs : ℕ → Reg → Instr
  load_gs : Reg → ℕ → Instr
  swapgs call_inner syscall sysretq leave ret iretq : Instr

-- `syscall_handler` up to its call, and all of it
abbrev pub entering : List Instr
entering =
    swapgs
    ∷ store_gs user_rsp_offset rsp
    ∷ load_gs rsp kernel_rsp_offset
    ∷ push rcx
    ∷ push r11
    ∷ mov rcx r10
    ∷ []

abbrev pub syscall_handler : List Instr
syscall_handler =
    entering
    ++ (call_inner
        ∷ pop r11
        ∷ pop rcx
        ∷ store_gs kernel_rsp_offset rsp
        ∷ load_gs rsp user_rsp_offset
        ∷ swapgs
        ∷ sysretq
        ∷ [])

-- `syscall_N` up to its `syscall`, and from there on
abbrev pub stub_start : List Instr
stub_start = push rbp ∷ mov rbp rsp ∷ mov r10 rcx ∷ syscall ∷ []

abbrev pub stub_rest : List Instr
stub_rest = leave ∷ ret ∷ []

-- `breakpoint_handler` of kernel/src/interrupts.rs
abbrev pub breakpoint_handler : List Instr
breakpoint_handler = push r10 ∷ push r11 ∷ call_inner ∷ pop r11 ∷ pop r10 ∷ iretq ∷ []

-- `mask` and `unmask` are what `syscall` and `sysretq` do to the flags, `inner` the call of
-- `syscall_handler_inner`, `entry` the address in LSTAR and `after` that of the instruction after
-- the `syscall`.
module _ (mask unmask : ℕ → ℕ) (inner : Cpu → Cpu) (entry after : ℕ) where
  pub exec : Instr → Cpu → Cpu
  exec (push r) c =
      write_reg rsp (reg rsp c - 8) (record c { memory = set (reg rsp c - 8) (reg r c) c.memory })
  exec (pop r) c = write_reg r (c.memory (reg rsp c)) (write_reg rsp (reg rsp c + 8) c)
  exec (mov r s) c = write_reg r (reg s c) c
  exec (mov_imm r value) c = write_reg r value c
  exec (jmp address) c = record c { rip = address }
  exec (store_gs offset r) c = record c { gs = set offset (reg r c) c.gs }
  exec (load_gs r offset) c = write_reg r (c.gs offset) c
  exec swapgs c = record c { gs = c.kernel_gs; kernel_gs = c.gs }
  exec call_inner c = inner c
  exec syscall c =
      write_reg rcx after
        (write_reg r11 c.rflags (record c { rflags = mask c.rflags; rip = entry }))
  exec sysretq c = record c { rflags = unmask (reg r11 c); rip = reg rcx c }
  exec leave c = write_reg rbp (c.memory (reg rbp c)) (write_reg rsp (reg rbp c + 8) c)
  exec iretq c =
      write_reg rsp (c.memory (reg rsp c + 24))
        (record c { rip = c.memory (reg rsp c); rflags = c.memory (reg rsp c + 16) })
  exec ret c = write_reg rsp (reg rsp c + 8) (record c { rip = c.memory (reg rsp c) })

  pub run : List Instr → Cpu → Cpu
  unfolding exec
  run [] c = c
  run (i ∷ is) c = run is (exec i c)

  -- the body of `syscall_N`, the kernel's part in its place
  pub syscall_n : Cpu → Cpu
  unfolding run
  syscall_n c = run stub_rest (run syscall_handler (run stub_start c))

  -- `syscall_3`, called with its arguments as System V passes them
  pub syscall_3 : ℕ → ℕ → ℕ → ℕ → Cpu → Cpu
  unfolding syscall_n
  syscall_3 syscall_num arg0 arg1 arg2 c =
      syscall_n
        (write_reg rdi syscall_num (write_reg rsi arg0 (write_reg rdx arg1 (write_reg rcx arg2 c))))

  -- `write` and `read` of the library: what the kernel gets of the bytes is pointer and length.
  pub user_write : ℕ → Slice → Cpu → Cpu
  user_write fd bytes c = syscall_3 (syscall_number write) fd bytes.ptr bytes.len c

  pub user_read : ℕ → Slice → Cpu → Cpu
  user_read fd bytes c = syscall_3 (syscall_number read) fd bytes.ptr bytes.len c
