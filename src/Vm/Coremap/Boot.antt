-- ===== src/Vm/Coremap/Boot.antt =====
-- vm_bootstrap of kern/arch/mips/vm/dumbvm.c: the coremap is carved out of the memory it describes.
use os.Base.{
  ℕ, zero, suc, ◌+◌, ◌-◌, ◌*◌, ◌/◌, ◌%◌, ◌≤◌, ◌<◌, ◌≡◌, ◌∙◌, refl, inl, inr, ◌==◌, Bool-cases, ◌^◌,
  if◌then◌else◌, arith,
}
use os.Vm.Coremap.{
  page_size, Coremap, Memory, align_up, clear_frame, clear_frames, coremap_end, frames_between,
  boot_coremap, ram_getsize, vm_bootstrap,
}
use os.Vm.Coremap.Blocks.{within}
use os.Vm.Coremap.Alloc.{IsBooted}

align_up_lem :
    (fuel a : ℕ)
    → (a + 4095) / 4096 * 4096 + page_size < 2 ^ 32
    → (a + 4095) / 4096 * 4096 ≤ a + fuel
    → align_up fuel a ≡ (a + 4095) / 4096 * 4096
unfolding align_up
align_up_lem zero a small enough = omega arith
align_up_lem (suc fuel) a small enough =
    let e : (a + 1) % 2 ^ 32 ≡ a + 1 = omega arith in
    rw e (elim (Bool-cases (a % page_size == 0)) [
      | inl done ↦ rw done (ground arith)
      | inr more ↦ rw more (align_up_lem fuel (a + 1) (ground arith) (ground arith) ∙ ground arith)
    ])

clear_frames-in_use :
    (count left : ℕ) (cm : Coremap) (k : ℕ)
    → left ≤ count
    → (clear_frames count left cm).in_use k
      ≡ (if within (count - left) count k then 0 else cm.in_use k)
unfolding clear_frames
clear_frames-in_use count zero cm k le = ground arith
clear_frames-in_use count (suc left) cm k le =
    ground
      (arith, clear_frames-in_use count left (clear_frame (count - suc left) cm) k (omega arith))

cleared :
    (count : ℕ) (cm : Coremap) (k : ℕ) → k < count → (clear_frames count count cm).in_use k ≡ 0
cleared count cm k lt = ground (arith, clear_frames-in_use count count cm k (omega arith))

clear_frames-rest :
    (count left : ℕ) (cm : Coremap)
    → ((clear_frames count left cm).base_addr ≡ cm.base_addr)
      × ((clear_frames count left cm).size ≡ cm.size)
unfolding clear_frames
clear_frames-rest count zero cm = (refl, refl)
clear_frames-rest count (suc left) cm =
    clear_frames-rest count left (clear_frame (count - suc left) cm)

-- The bytes taken by the coremap itself, from `lo` on.
abbrev pub own_bytes : ℕ → ℕ → ℕ
own_bytes lo hi = 16 + 8 * ((hi - lo) / page_size)

pub record Carved (lo hi : ℕ) (cm : Coremap) : Type 0 where
  pub aligned : cm.base_addr % page_size ≡ 0
  pub above : lo + own_bytes lo hi ≤ cm.base_addr
  pub tight : cm.base_addr < lo + own_bytes lo hi + page_size
  pub all : cm.size ≡ (hi - cm.base_addr) / page_size
  pub free : (k : ℕ) → k < cm.size → cm.in_use k ≡ 0

boot_coremap-Carved :
    (lo hi : ℕ) (cm : Coremap)
    → lo + own_bytes lo hi + page_size ≤ hi
    → hi ≤ 508 * 1024 * 1024
    → Carved lo hi (boot_coremap lo hi cm)
unfolding boot_coremap coremap_end frames_between
boot_coremap-Carved lo hi cm fits small =
    let count = frames_between lo hi in
    let base = align_up page_size (coremap_end lo count) in
    let cm' = record cm { base_addr = base; size = frames_between base hi } in
    let rest = clear_frames-rest count count cm' in
    let a = align_up_lem page_size (coremap_end lo count) (omega arith) (omega arith) in
    record {
      aligned = omega (arith, rest.0, a);
      above = omega (arith, rest.0, a);
      tight = omega (arith, rest.0, a);
      all = omega (arith, rest.0, rest.1, a);
      free = λ k lt. cleared count cm' k (omega (arith, rest.1, a));
    }

-- Let physical memory from firstpaddr > 0 to lastpaddr, at most 508 megabytes, have room for the
-- coremap and one more page. Then vm_bootstrap leaves a booted machine: the frames are page
-- aligned, lie behind the coremap, miss less than one page at the front, go on to lastpaddr, and
-- are all free; ram_stealmem has no memory left.
pub vm_bootstrap-Carved :
    (m : Memory)
    → 0 < m.firstpaddr
    → m.firstpaddr + own_bytes m.firstpaddr m.lastpaddr + page_size ≤ m.lastpaddr
    → m.lastpaddr ≤ 508 * 1024 * 1024
    → IsBooted (vm_bootstrap m)
      × Carved m.firstpaddr m.lastpaddr (vm_bootstrap m).core_map
      × ((vm_bootstrap m).lastpaddr ≡ 0)
unfolding vm_bootstrap ram_getsize
vm_bootstrap-Carved m pos fits small =
    let c = boot_coremap-Carved m.firstpaddr m.lastpaddr m.core_map fits small in
    (
      record {
        made = refl;
        low = refl;
        nonzero = omega (arith, c.above);
        fits = omega (arith, c.all, c.tight);
        small = small;
      },
      c,
      refl,
    )
