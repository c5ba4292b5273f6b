-- ===== src/Vm/Tests.antt =====
-- An address space of one text and one data page on a machine of thirty frames, and the theorems of
-- kern/arch/mips/vm/dumbvm.c there.
use os.Base.{
  ℕ, ◌+◌, ◌*◌, ◌≤◌, ◌<◌, ◌≡◌, ◌⊎◌, inl, refl, true, false, ltb, some, none, ok, enomem, eunimp,
  einval, efault, arith, if◌then◌else◌, tally, ◌==◌,
}
use os.Vm.Coremap.{Memory, page_size}
use os.Vm.Coremap.Alloc.{IsBooted}
use os.Vm.Addrspace.{
  Addrspace, Machine, Heap, as_create, user_stack, as_prepare_load, as_copy, as_define_region,
}
use os.Vm.Addrspace.Frames.{free_count}
use os.Vm.Addrspace.Prepare.{page_entry, Loaded, as_prepare_load-Loaded}
use os.Vm.Addrspace.Duplicate.{Intact, Allocates, Duplicate, as_copy-Duplicate}
use os.Vm.Addrspace.Define.{Covers, as_define_region_three}
use os.Vm.Addrspace.Exhausted.{as_prepare_load_exhausted}
use os.Vm.Fault.{
  TlbEntry, num_tlb, tlblo_valid, is_valid, ex_mod, vm_fault, vm_fault_readonly, stack_base,
  as_activate,
}
use os.Vm.Fault.Region.{Layout, text_page}
use os.Vm.Fault.Tlb.{InTlb, vm_fault-Page, vm_fault_refused, as_activate_lem}

-- Thirty frames, of which the first `n` are in use.
abbrev frames : ℕ → Memory
frames n = record {
  firstpaddr = 0;
  lastpaddr = 0;
  created = true;
  addr_lo = 0x10000;
  addr_hi = 0x2E000;
  core_map = record {
    base_addr = 0x10000;
    in_use = λ k. if ltb k n then 1 else 0;
    contain_next = λ k. 0;
    size = 30;
  };
}

frames-IsBooted : (n : ℕ) → IsBooted (frames n)
frames-IsBooted n = record {
  made = refl;
  low = refl;
  nonzero = omega arith;
  fits = omega arith;
  small = omega arith;
}

frames_free : free_count (frames 14) ≡ 16
unfolding tally
frames_free = refl

abbrev machine : Machine
machine = record { memory = frames 14; ram = λ a. a }

-- An allocator with memory of its own.
abbrev heap : Heap
heap = record {
  kmalloc = λ bytes m. ok (some (λ k. 0), m);
  kfree_table = λ table m. ok m;
  kfree_as = λ space m. ok m;
}

abbrev text_table : ℕ → ℕ
text_table k = 0x10000

abbrev data_table : ℕ → ℕ
data_table k = 0x11000

abbrev stack_table : ℕ → ℕ
stack_table k = 0x12000 + k * page_size

-- Its fourteen pages are the frames in use.
abbrev program : Addrspace
program = record {
  as_vbase1 = 0x400000;
  as_vbase2 = 0x10000000;
  as_npages1 = 1;
  as_npages2 = 1;
  load_code_done = 1;
  as_ptable1 = some text_table;
  as_ptable2 = some data_table;
  as_stackptable = some stack_table;
}

as_prepare_load-Loaded_example :
    (space' : Addrspace) × (m' : Machine) × (t1 t2 ts : ℕ → ℕ) × (as_prepare_load heap program
        machine
      ≡ ok (0, space', m'))
    × Loaded machine m' program space' t1 t2 ts
as_prepare_load-Loaded_example =
    as_prepare_load-Loaded heap program machine machine text_table data_table (λ k. 0) refl refl
      refl (frames-IsBooted 14) (omega (arith, frames_free))

program-Intact : Intact machine program text_table data_table stack_table
program-Intact = record {
  table1 = refl;
  table2 = refl;
  table_stack = refl;
  frame = λ k. k;
  entry = λ k lt. ground arith;
  in_use = λ k lt e. ground arith;
}

heap-Allocates : Allocates heap program machine machine
heap-Allocates = record {
  block = λ k. 0;
  m1 = machine;
  first = refl;
  t1 = λ k. 0;
  m2 = machine;
  second = refl;
  t2 = λ k. 0;
  m3 = machine;
  third = refl;
  ts = λ k. 0;
  fourth = refl;
}

as_copy-Duplicate_example :
    (new : Addrspace) × (m' : Machine) × (t1 t2 ts : ℕ → ℕ) × (as_copy heap program machine
      ≡ ok (0, some new, m'))
    × Duplicate machine m' program new text_table data_table stack_table t1 t2 ts
as_copy-Duplicate_example =
    as_copy-Duplicate heap-Allocates program-Intact (frames-IsBooted 14)
      (omega (arith, frames_free))

as_prepare_load_exhausted_example :
    (space' : Addrspace) × (t1' t2' ts' ram' : ℕ → ℕ) × (as_prepare_load heap program
        (record { memory = frames 30; ram = λ a. a })
      ≡ ok (0, space', record { memory = frames 30; ram = ram' }))
    × (space' ≡ record program {
      as_ptable1 = some t1';
      as_ptable2 = some t2';
      as_stackptable = some ts';
    })
    × ((k : ℕ) → k < 14 → page_entry 1 1 t1' t2' ts' k ≡ enomem)
as_prepare_load_exhausted_example =
    as_prepare_load_exhausted (frames-IsBooted 30) (omega arith)
      (λ j run. ground (arith, run.free j (omega arith) (omega arith), run.inside)) heap program
      (record { memory = frames 30; ram = λ a. a }) text_table data_table (λ k. 0) (λ a. a) refl
      refl refl

as_define_region_three_case :
    (s1 s2 : Addrspace) × (as_define_region heap as_create 0x400010 5000 machine
      ≡ ok (0, s1, machine))
    × (as_define_region heap s1 0x10000000 100 machine ≡ ok (0, s2, machine))
    × (as_define_region heap s2 0x20000000 1 machine ≡ ok (eunimp, s2, machine))
    × Covers s2.as_vbase1 s2.as_npages1 0x400010 5000
    × Covers s2.as_vbase2 s2.as_npages2 0x10000000 100
    × (s2.as_ptable1 ≡ some (λ k. 0))
    × (s2.as_ptable2 ≡ some (λ k. 0))
as_define_region_three_case =
    as_define_region_three heap 0x400010 5000 0x10000000 100 0x20000000 1 machine machine machine
      (some (λ k. 0)) (some (λ k. 0)) (omega arith) (omega arith) (omega arith) (omega arith) refl
      refl

program-Layout : Layout program text_table data_table stack_table
program-Layout = record {
  table1 = refl;
  table2 = refl;
  table_stack = refl;
  base1 = omega arith;
  base2 = omega arith;
  pages1 = omega arith;
  pages2 = omega arith;
  aligned1 = refl;
  aligned2 = refl;
  below1 = omega arith;
  below2 = omega arith;
  apart = inl (omega arith);
  frame1 = λ k. refl;
  frame2 = λ k. refl;
  frame_stack = λ k. omega arith;
}

-- A TLB whose first entry alone is in use.
abbrev tlb : ℕ → TlbEntry
tlb k = record { ehi = 0; elo = if k == 0 then tlblo_valid else 0 }

vm_fault-Page_example :
    (tlb' : ℕ → TlbEntry) × (vm_fault 5 (some program) 0 0x400123 tlb ≡ ok (0, tlb'))
    × InTlb tlb tlb' (record { ehi = 0x400000; elo = 0x10200 })
vm_fault-Page_example =
    vm_fault-Page program-Layout (text_page 0 (omega arith)) 5 0 0x400123 tlb (omega arith)
      (omega arith) refl

vm_fault_refused_case :
    (vm_fault 5 (some program) vm_fault_readonly 0x3000 tlb ≡ ok (ex_mod, tlb))
    × ((faulttype : ℕ)
        → vm_fault_readonly < faulttype
        → vm_fault 5 (some program) faulttype 0x3000 tlb ≡ ok (einval, tlb))
    × ((faulttype : ℕ)
        → faulttype < vm_fault_readonly
        → (vm_fault 5 none faulttype 0x3000 tlb ≡ ok (efault, tlb))
          × ((0x3000 < 0x400000) ⊎ (0x401000 ≤ 0x3000)
              → (0x3000 < 0x10000000) ⊎ (0x10001000 ≤ 0x3000)
              → (0x3000 < stack_base) ⊎ (user_stack ≤ 0x3000)
              → vm_fault 5 (some program) faulttype 0x3000 tlb ≡ ok (efault, tlb)))
vm_fault_refused_case = vm_fault_refused program-Layout 5 0x3000 tlb

as_activate_lem_case :
    ((j : ℕ)
      → j < num_tlb
      → (is_valid (as_activate (some program) tlb j) ≡ false)
        × ((k : ℕ)
            → k < num_tlb
            → (as_activate (some program) tlb j).ehi ≡ (as_activate (some program) tlb k).ehi
            → j ≡ k))
    × (as_activate none tlb ≡ tlb)
as_activate_lem_case = as_activate_lem program tlb
