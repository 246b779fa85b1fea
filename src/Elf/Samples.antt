-- ===== src/Elf/Samples.antt =====
-- Page flags as a test on the single flags: test data for the loader.
use zulu_os.Base.{[], ◌∷◌, ◌||◌, none, some, ◌==◌, if◌then◌else◌, refl}
use zulu_os.Syscall.Samples.{machine}
use zulu_os.Alloc.Requests.{take, release}
use zulu_os.Elf.{Object, load, flag_number}

abbrev pub bit_flags : Object machine
bit_flags = record {
  only = λ f g. flag_number f == flag_number g;
  union = λ a b g. a g || b g;
  set = λ a f v g. if flag_number f == flag_number g then v else a g;
  pf_r = 4;
  pf_w = 2;
  pf_x = 1;
  segment_type_of = λ n. if n == 1 then some load else none;
  vec_requests = λ n. take (record { size = 320; align = 8 }) ∷ [];
  map_requests = λ pages. take (record { size = 192; align = 8 }) ∷ [];
  map_drop = λ pages. release 0 ∷ [];
  contains_only = λ f g. refl;
  contains_union = λ a b g. refl;
  contains_set = λ a f g v. refl;
}
