-- ===== src/Vm/Coremap/Tests.antt =====
-- The coremap on a machine of five frames, and the theorems there.
use os.Base.{
  ℕ, zero, suc, ◌+◌, ◌≤◌, ◌<◌, ◌≡◌, ◌⊎◌, refl, true, false, if◌then◌else◌, ◌==◌, ok, panic, fault,
  arith,
}
use os.Vm.Coremap.{
  paddr_to_kvaddr, Coremap, Memory, getppages, alloc_kpages, free_kpages, vm_bootstrap,
}
use os.Vm.Coremap.Blocks.{IsBlock, within}
use os.Vm.Coremap.Alloc.{
  IsBooted, frame_kvaddr, frame_addr, FreeRun, Allocated, getppages_too_large, Same,
  getppages_first_fit, alloc_kpages-Allocated, alloc_kpages_exhausted, free_kpages-IsBlock,
  free_kpages_below, free_alloc_kpages,
}
use os.Vm.Coremap.Boot.{Carved, vm_bootstrap-Carved}

-- Frames 1 and 2 are one block, the other three are free.
abbrev map5 : Coremap
map5 = record {
  base_addr = 0x10000;
  in_use = λ k. if k == 1 then 1 else if k == 2 then 1 else 0;
  contain_next = λ k. if k == 1 then 1 else 0;
  size = 5;
}

abbrev mem5 : Memory
mem5 = record {
  firstpaddr = 0;
  lastpaddr = 0;
  created = true;
  addr_lo = 0x10000;
  addr_hi = 0x15000;
  core_map = map5;
}

mem5-IsBooted : IsBooted mem5
mem5-IsBooted = record {
  made = refl;
  low = refl;
  nonzero = omega arith;
  fits = omega arith;
  small = omega arith;
}

run3 : FreeRun mem5 2 3
run3 = record { inside = omega arith; free = λ k lo hi. ground arith }

first3 : (j : ℕ) → j < 3 → ¬ FreeRun mem5 2 j
first3 zero lt run = ground (arith, run.free 1 (omega arith) (omega arith))
first3 (suc zero) lt run = ground (arith, run.free 1 (omega arith) (omega arith))
first3 (suc (suc j)) lt run = ground (arith, run.free 2 (omega arith) (omega arith))

none_of_three : (j : ℕ) → ¬ FreeRun mem5 3 j
none_of_three zero run = ground (arith, run.free 1 (omega arith) (omega arith))
none_of_three (suc zero) run = ground (arith, run.free 1 (omega arith) (omega arith))
none_of_three (suc (suc zero)) run = ground (arith, run.free 2 (omega arith) (omega arith))
none_of_three (suc (suc (suc j))) run = omega (arith, run.inside)

block1 : IsBlock map5 2 1
block1 = record {
  positive = omega arith;
  inside = omega arith;
  used = λ k lo hi. ground arith;
  linked = λ k lo hi. ground arith;
  last = refl;
}

getppages_first_fit_example :
    (m' : Memory) × (getppages 2 mem5 ≡ ok (frame_addr mem5 3, m'))
    × IsBlock m'.core_map 2 3
    × Same mem5 m' 2 3
getppages_first_fit_example =
    getppages_first_fit mem5-IsBooted 2 (omega arith) (omega arith) 3 run3 first3

getppages_too_large_example : getppages 6 mem5 ≡ panic
getppages_too_large_example =
    getppages_too_large mem5-IsBooted 6 (omega arith) (omega arith) (omega arith)

alloc_kpages-Allocated_example :
    (m' : Memory) × (alloc_kpages 2 mem5 ≡ ok (0x8001_3000, m')) × Allocated mem5 m' 2 3
alloc_kpages-Allocated_example =
    alloc_kpages-Allocated mem5-IsBooted 2 (omega arith) (omega arith) 3 run3 first3

alloc_kpages_exhausted_example : alloc_kpages 3 mem5 ≡ ok (0x8000_0003, mem5)
alloc_kpages_exhausted_example =
    alloc_kpages_exhausted mem5-IsBooted 3 (omega arith) (omega arith) (omega arith) none_of_three

free_kpages-IsBlock_example :
    (m' : Memory) × (free_kpages (frame_kvaddr mem5 1) mem5 ≡ ok m')
    × ((k : ℕ) → m'.core_map.in_use k ≡ (if within 1 (1 + 2) k then 0 else map5.in_use k))
    × ((n' i' : ℕ) → (i' + n' ≤ 1) ⊎ (1 + 2 ≤ i') → IsBlock map5 n' i' → IsBlock m'.core_map n' i')
free_kpages-IsBlock_example = free_kpages-IsBlock mem5-IsBooted 2 1 block1

free_alloc_kpages_example :
    (m' m'' : Memory) × (alloc_kpages 2 mem5 ≡ ok (0x8001_3000, m'))
    × (free_kpages 0x8001_3000 m' ≡ ok m'')
    × ((k : ℕ) → m''.core_map.in_use k ≡ map5.in_use k)
free_alloc_kpages_example =
    free_alloc_kpages mem5-IsBooted 2 (omega arith) (omega arith) 3 run3 first3

free_kpages_below_example : free_kpages (paddr_to_kvaddr 0xf000) mem5 ≡ fault
free_kpages_below_example = free_kpages_below mem5-IsBooted 0xf000 (omega arith)

-- 512 kilobytes of memory, of which the kernel image takes 200000 bytes.
abbrev fresh : Memory
fresh = record {
  firstpaddr = 200000;
  lastpaddr = 0x80000;
  created = false;
  addr_lo = 0;
  addr_hi = 0;
  core_map = record { base_addr = 0; in_use = λ _. 7; contain_next = λ _. 9; size = 0 };
}

vm_bootstrap-Carved_example :
    IsBooted (vm_bootstrap fresh)
    × Carved 200000 0x80000 (vm_bootstrap fresh).core_map
    × ((vm_bootstrap fresh).lastpaddr ≡ 0)
vm_bootstrap-Carved_example = vm_bootstrap-Carved fresh (omega arith) (omega arith) (omega arith)

boot_size : (vm_bootstrap fresh).core_map.size ≡ 79
unfolding vm_bootstrap
boot_size = refl
