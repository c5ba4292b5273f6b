-- ===== src/Vm/Coremap.antt =====
-- The frame allocator of kern/arch/mips/vm/dumbvm.c (with OPT_A3) over kern/arch/mips/vm/ram.c.
pub mod Search
pub mod Blocks
pub mod Alloc
pub mod Boot
mod Tests
use os.Base.{
  ℕ, zero, suc, ◌+◌, ◌-◌, ◌*◌, ◌/◌, ◌%◌, ◌^◌, ◌≡◌, Bool, true, false, ◌&&◌, Option, none, some, ltb,
  leb, ◌==◌, if◌then◌else◌, update, Result, ok, err, panic, fault, ◌>>=◌, ◌>>◌, kassert, enomem,
}

abbrev pub page_size : ℕ
page_size = 4096

abbrev pub kseg0 : ℕ
kseg0 = 0x8000_0000

-- PADDR_TO_KVADDR
unfoldable pub paddr_to_kvaddr : ℕ → ℕ
paddr_to_kvaddr pa = (pa + kseg0) % 2 ^ 32

-- `struct coremap`; the two arrays have at least `size` entries.
pub record Coremap : Type 0 where
  pub base_addr : ℕ
  pub in_use : ℕ → ℕ
  pub contain_next : ℕ → ℕ
  pub size : ℕ

-- The inner loop of getppages: free frames from `sofar`, at most `need - count`.
pub count_free : (in_use : ℕ → ℕ) (size rounds sofar count : ℕ) → ℕ
count_free in_use size zero sofar count = count
count_free in_use size (suc rounds) sofar count =
    if ltb sofar size && (in_use sofar == 0)
    then count_free in_use size rounds (sofar + 1) (count + 1)
    else count

-- The outer loop: the first index at which `need` free frames stand in a row.
pub find_run : (in_use : ℕ → ℕ) (size need fuel i : ℕ) → Option ℕ
find_run in_use size need zero i = none
find_run in_use size need (suc fuel) i =
    let count = count_free in_use size need i 0 in
    let skip = find_run in_use size need fuel (i + count + 1) in
    let next = find_run in_use size need fuel (i + 1) in
    if ltb i size
    then (if in_use i == 0 then (if ltb count need then skip else some i) else next)
    else none

-- The body of the marking loop: frame `i + j` of a block of `need`.
abbrev pub mark_frame : (need i j : ℕ) → Coremap → Coremap
mark_frame need i j cm = record cm {
  in_use = update cm.in_use (i + j) 1;
  contain_next = update cm.contain_next (i + j) (if j == need - 1 then 0 else 1);
}

-- The marking loop, `left` rounds before its end.
pub mark_run : (need left i : ℕ) → Coremap → Coremap
mark_run need zero i cm = cm
mark_run need (suc left) i cm = mark_run need left i (mark_frame need i (need - suc left) cm)

-- `core_map->inUse[i] = 0`
abbrev pub release_frame : ℕ → Coremap → Coremap
release_frame i cm = record cm { in_use = update cm.in_use i 0 }

-- The freeing loop of free_kpages: the frames before the last of a block, and where it stops.
pub free_run : (fuel i : ℕ) → Coremap → ℕ × Coremap
free_run zero i cm = (i, cm)
free_run (suc fuel) i cm =
    let rest = free_run fuel (i + 1) (release_frame i cm) in
    if ltb i cm.size && (cm.contain_next i == 1) then rest else (i, cm)

-- The static variables of ram.c (`firstpaddr`, `lastpaddr`) and of dumbvm.c.
pub record Memory : Type 0 where
  pub firstpaddr : ℕ
  pub lastpaddr : ℕ
  pub created : Bool
  pub addr_lo : ℕ
  pub addr_hi : ℕ
  pub core_map : Coremap

-- Unsigned 32-bit additions wrap, in the sum and in the product.
unfoldable pub ram_stealmem : ℕ → Memory → ℕ × Memory
ram_stealmem npages m =
    let bytes = npages * page_size % 2 ^ 32 in
    if ltb m.lastpaddr ((m.firstpaddr + bytes) % 2 ^ 32)
    then (0, m)
    else (m.firstpaddr, record m { firstpaddr = (m.firstpaddr + bytes) % 2 ^ 32 })

unfoldable pub ram_getsize : Memory → (ℕ × ℕ) × Memory
ram_getsize m = ((m.firstpaddr, m.lastpaddr), record m { firstpaddr = 0; lastpaddr = 0 })

-- `while (addr_lo % PAGE_SIZE != 0) addr_lo++`
pub align_up : (fuel addr : ℕ) → ℕ
align_up zero addr = addr
align_up (suc fuel) addr =
    let rest = align_up fuel ((addr + 1) % 2 ^ 32) in if addr % page_size == 0 then addr else rest

abbrev pub clear_frame : ℕ → Coremap → Coremap
clear_frame i cm = record cm {
  in_use = update cm.in_use i 0;
  contain_next = update cm.contain_next i 0;
}

-- The loop that clears the two arrays, `left` rounds before its end.
pub clear_frames : (count left : ℕ) → Coremap → Coremap
clear_frames count zero cm = cm
clear_frames count (suc left) cm = clear_frames count left (clear_frame (count - suc left) cm)

-- sizeof(struct coremap) and sizeof(int) on this machine
abbrev coremap_bytes : ℕ
coremap_bytes = 16

abbrev int_bytes : ℕ
int_bytes = 4

-- The arrays hold what was in memory (`m.core_map`) until they are cleared.
unfoldable pub coremap_end : ℕ → ℕ → ℕ
coremap_end lo frame_count =
    (lo + coremap_bytes + int_bytes * frame_count + int_bytes * frame_count) % 2 ^ 32

unfoldable pub frames_between : ℕ → ℕ → ℕ
frames_between lo hi = (hi + 2 ^ 32 - lo) % 2 ^ 32 / page_size

pub boot_coremap : ℕ → ℕ → Coremap → Coremap
unfolding align_up clear_frames coremap_end frames_between
boot_coremap lo hi cm =
    let frame_count = frames_between lo hi in
    let base = align_up page_size (coremap_end lo frame_count) in
    clear_frames frame_count frame_count
      (record cm { base_addr = base; size = frames_between base hi })

pub vm_bootstrap : Memory → Memory
unfolding ram_getsize boot_coremap
vm_bootstrap m =
    let ((lo, hi), m') = ram_getsize m in
    let cm = boot_coremap lo hi m.core_map in
    record m' { addr_lo = cm.base_addr; addr_hi = hi; created = true; core_map = cm }

-- `int pageRequired = (int) npages`: a value that is negative makes no round of any loop.
unfoldable pub page_required : ℕ → ℕ
page_required npages = if ltb npages (2 ^ 31) then npages else 0

-- What getppages does with the outcome of its search. With no run of free frames the result is the
-- number ENOMEM, in the place of an address.
pub take_pages : ℕ → Option ℕ → Memory → Result (ℕ × Memory)
unfolding mark_run
take_pages need none m = ok (enomem, m)
take_pages need (some i) m =
    let addr = (i * page_size + m.core_map.base_addr) % 2 ^ 32 in
    kassert (leb addr m.addr_hi && leb m.addr_lo addr)
    >> ok (addr, record m { core_map = mark_run need need i m.core_map })

pub search_pages : ℕ → Memory → Result (ℕ × Memory)
unfolding take_pages find_run count_free
search_pages need m =
    let cm = m.core_map in
    kassert (leb need cm.size) >> take_pages need (find_run cm.in_use cm.size need cm.size 0) m

pub getppages : ℕ → Memory → Result (ℕ × Memory)
unfolding ram_stealmem page_required search_pages
getppages npages m =
    if m.created then search_pages (page_required npages) m else ok (ram_stealmem npages m)

pub alloc_kpages : ℕ → Memory → Result (ℕ × Memory)
unfolding paddr_to_kvaddr
alloc_kpages npages m = do
  (pa, m') ← getppages npages m
  ok ((if pa == 0 then 0 else paddr_to_kvaddr pa), m')

-- `addr - (baseAddr + MIPS_KSEG0)` read as an int and divided by the page size, which truncates
-- towards zero; `none` is a negative index.
unfoldable pub target_frame : Coremap → ℕ → Option ℕ
target_frame cm addr =
    let diff = (addr + 2 ^ 32 - (cm.base_addr + kseg0) % 2 ^ 32) % 2 ^ 32 in
    if ltb diff (2 ^ 31)
    then some (diff / page_size)
    else if ltb (2 ^ 32 - diff) page_size
    then some 0
    else none

pub free_frames : ℕ → Coremap → Coremap
unfolding free_run
free_frames start cm =
    let (i, cm') = free_run (cm.size - start) start cm in
    if ltb i cm.size then release_frame i cm' else cm'

pub free_target : Option ℕ → Memory → Result Memory
unfolding free_frames
free_target none m = fault
free_target (some start) m = ok (record m { core_map = free_frames start m.core_map })

pub free_kpages : ℕ → Memory → Result Memory
unfolding target_frame free_target
free_kpages addr m = if m.created then free_target (target_frame m.core_map addr) m else ok m
