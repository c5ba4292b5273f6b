-- ===== src/Vm/Coremap/Alloc.antt =====
-- getppages, alloc_kpages and free_kpages of kern/arch/mips/vm/dumbvm.c once the coremap exists.
use os.Base.{
  ℕ, ◌+◌, ◌*◌, ◌^◌, ◌≤◌, ◌<◌, ◌≡◌, ◌⊎◌, refl, ap, true, Option, none, some, if◌then◌else◌, ok,
  panic, fault, enomem, arith,
}
use os.Vm.Coremap.{
  page_size, kseg0, paddr_to_kvaddr, Memory, find_run, mark_run, page_required, take_pages,
  search_pages, getppages, alloc_kpages, target_frame, free_frames, free_target, free_kpages,
}
use os.Vm.Coremap.Search.{IsFreeRun, Answer, find_run-Answer}
use os.Vm.Coremap.Blocks.{
  IsBlock, within, marked-in_use, marked-contain_next, mark_run-size, mark_run-base_addr,
  mark-IsBlock, block_run_apart, mark_keeps-IsBlock, free_frames-in_use, free_keeps-IsBlock,
}

-- The state that vm_bootstrap leaves: the frames lie in [addr_lo, addr_hi), below 508 megabytes.
pub record IsBooted (m : Memory) : Type 0 where
  pub made : m.created ≡ true
  pub low : m.core_map.base_addr ≡ m.addr_lo
  pub nonzero : 0 < m.addr_lo
  pub fits : m.core_map.base_addr + m.core_map.size * page_size ≤ m.addr_hi
  pub small : m.addr_hi ≤ 508 * 1024 * 1024

-- The physical address of frame `i`, and the memory after its block of `n` frames is taken.
abbrev pub frame_addr : Memory → ℕ → ℕ
frame_addr m i = i * page_size + m.core_map.base_addr

abbrev pub taken : ℕ → ℕ → Memory → Memory
taken n i m = record m { core_map = mark_run n n i m.core_map }

abbrev pub FreeRun : Memory → ℕ → ℕ → Type 0
FreeRun m n i = IsFreeRun m.core_map.in_use m.core_map.size n i

find_run_some :
    (in_use : ℕ → ℕ) (size n i : ℕ) (o : Option ℕ)
    → Answer in_use size n 0 o
    → IsFreeRun in_use size n i
    → ((j : ℕ) → j < i → ¬ IsFreeRun in_use size n j)
    → o ≡ some i
find_run_some in_use size n i none answer run first = absurd (answer i (omega arith) run)
find_run_some in_use size n i (some r) answer run first =
    let above : ¬ (i < r) = λ p. answer.2 i (omega arith) p run in
    let below : ¬ (r < i) = λ p. first r p answer.1 in let e : r ≡ i = omega arith in ap some e

find_run_none :
    (in_use : ℕ → ℕ) (size n : ℕ) (o : Option ℕ)
    → Answer in_use size n 0 o
    → ((j : ℕ) → ¬ IsFreeRun in_use size n j)
    → o ≡ none
find_run_none in_use size n none answer full = refl
find_run_none in_use size n (some r) answer full = absurd (full r answer.1)

module _ {m : Memory} (booted : IsBooted m) (n : ℕ) (pos : 0 < n) (int : n < 2 ^ 31) where
  pub answer :
      Answer m.core_map.in_use m.core_map.size n 0
        (find_run m.core_map.in_use m.core_map.size n m.core_map.size 0)
  answer = find_run-Answer m.core_map.in_use m.core_map.size n m.core_map.size 0 pos (omega arith)

  need : page_required n ≡ n
  unfolding page_required
  need = ground arith

  getppages_eq : getppages n m ≡ search_pages n m
  unfolding getppages
  getppages_eq = simp (booted.made, need)

  -- On a booted machine a request for more frames than there are, 0 < n < 2^31, fails an
  -- assertion.
  pub getppages_too_large : m.core_map.size < n → getppages n m ≡ panic
  unfolding search_pages
  getppages_too_large large = rw getppages_eq (ground arith)

  -- At the first fit, the address and the memory that the loops leave.
  pub getppages-taken :
      (i : ℕ)
      → FreeRun m n i
      → ((j : ℕ) → j < i → ¬ FreeRun m n j)
      → getppages n m ≡ ok (frame_addr m i, taken n i m)
  unfolding search_pages take_pages
  getppages-taken i run first =
      rw (getppages_eq, find_run_some _ _ n i _ answer run first)
        (ground (arith, booted.low, booted.nonzero, booted.fits, booted.small, run.inside))

  pub getppages_exhausted :
      n ≤ m.core_map.size → ((j : ℕ) → ¬ FreeRun m n j) → getppages n m ≡ ok (enomem, m)
  unfolding search_pages take_pages
  getppages_exhausted le full = rw (getppages_eq, find_run_none _ _ n _ answer full) (ground arith)

-- An allocation that succeeds: a block of its own, every other block as it was, and still booted.
pub record Allocated (m m' : Memory) (n i : ℕ) : Type 0 where
  pub booted : IsBooted m'
  pub block : IsBlock m'.core_map n i
  pub kept :
      (n' i' : ℕ)
      → IsBlock m.core_map n' i'
      → IsBlock m'.core_map n' i' × ((i' + n' ≤ i) ⊎ (i + n ≤ i'))

pub taken-Allocated :
    {m : Memory} (n i : ℕ) → IsBooted m → 0 < n → FreeRun m n i → Allocated m (taken n i m) n i
taken-Allocated {m} n i booted pos run = record {
  booted = record {
    made = booted.made;
    low = omega (arith, booted.low, mark_run-base_addr n n i m.core_map);
    nonzero = booted.nonzero;
    fits =
        ground
          (arith, booted.fits, mark_run-base_addr n n i m.core_map, mark_run-size n n i m.core_map);
    small = booted.small;
  };
  block = mark-IsBlock n i m.core_map pos run;
  kept =
      λ n' i' b. let apart = block_run_apart pos run b in (mark_keeps-IsBlock n i apart b, apart);
}

-- All that is in `m'` besides the entries of the `n` frames from `i` on is as in `m`.
pub record Same (m m' : Memory) (n i : ℕ) : Type 0 where
  pub in_use : (k : ℕ) → (k < i) ⊎ (i + n ≤ k) → m'.core_map.in_use k ≡ m.core_map.in_use k
  pub links :
      (k : ℕ) → (k < i) ⊎ (i + n ≤ k) → m'.core_map.contain_next k ≡ m.core_map.contain_next k
  pub size : m'.core_map.size ≡ m.core_map.size
  pub base_addr : m'.core_map.base_addr ≡ m.core_map.base_addr
  pub firstpaddr : m'.firstpaddr ≡ m.firstpaddr
  pub lastpaddr : m'.lastpaddr ≡ m.lastpaddr
  pub addr_lo : m'.addr_lo ≡ m.addr_lo
  pub addr_hi : m'.addr_hi ≡ m.addr_hi
  pub created : m'.created ≡ m.created

taken-Same : (m : Memory) (n i : ℕ) → Same m (taken n i m) n i
taken-Same m n i = record {
  in_use = λ k out. ground (arith, marked-in_use n i m.core_map k);
  links = λ k out. ground (arith, marked-contain_next n i m.core_map k);
  size = mark_run-size n n i m.core_map;
  base_addr = mark_run-base_addr n n i m.core_map;
  firstpaddr = refl;
  lastpaddr = refl;
  addr_lo = refl;
  addr_hi = refl;
  created = refl;
}

-- On a booted machine a request for n frames, 0 < n < 2^31, where i is the lowest index at which n
-- frames in a row are free, returns the address of frame i. The n frames from i on are then in use
-- and linked as one block, and every other frame and the rest of the allocator's state are as
-- before.
pub getppages_first_fit :
    {m : Memory} (booted : IsBooted m) (n : ℕ)
    → 0 < n
    → n < 2 ^ 31
    → (i : ℕ) → FreeRun m n i
    → ((j : ℕ) → j < i → ¬ FreeRun m n j)
    → (m' : Memory) × (getppages n m ≡ ok (i * page_size + m.core_map.base_addr, m'))
      × IsBlock m'.core_map n i
      × Same m m' n i
getppages_first_fit {m} booted n pos int i run first = (
  taken n i m,
  getppages-taken booted n pos int i run first,
  mark-IsBlock n i m.core_map pos run,
  taken-Same m n i,
)

-- A kernel virtual address for frame `i`.
abbrev pub frame_kvaddr : Memory → ℕ → ℕ
frame_kvaddr m i = frame_addr m i + kseg0

module _ {m : Memory} (booted : IsBooted m) (n : ℕ) (pos : 0 < n) (int : n < 2 ^ 31) where
  alloc_kpages-taken :
      (i : ℕ)
      → FreeRun m n i
      → ((j : ℕ) → j < i → ¬ FreeRun m n j)
      → alloc_kpages n m ≡ ok (frame_kvaddr m i, taken n i m)
  unfolding alloc_kpages
  alloc_kpages-taken i run first =
      rw (getppages-taken booted n pos int i run first)
        (ground (arith, booted.low, booted.nonzero, booted.fits, booted.small, run.inside))

  -- On a booted machine where frame i is the lowest at which n frames in a row are free, 0 < n <
  -- 2^31, alloc_kpages returns the kernel address of frame i; the n frames become one block, the
  -- machine stays booted, and every block that was allocated before is still allocated and shares
  -- no frame with the new one.
  pub alloc_kpages-Allocated :
      (i : ℕ)
      → FreeRun m n i
      → ((j : ℕ) → j < i → ¬ FreeRun m n j)
      → (m' : Memory) × (alloc_kpages n m ≡ ok (frame_kvaddr m i, m')) × Allocated m m' n i
  alloc_kpages-Allocated i run first =
      (taken n i m, alloc_kpages-taken i run first, taken-Allocated n i booted pos run)

  -- On a booted machine with at least n frames, 0 < n < 2^31, but no n free frames in a row,
  -- alloc_kpages does not return 0: it returns the address ENOMEM + MIPS_KSEG0 and changes
  -- nothing.
  pub alloc_kpages_exhausted :
      n ≤ m.core_map.size → ((j : ℕ) → ¬ FreeRun m n j) → alloc_kpages n m ≡ ok (enomem + kseg0, m)
  unfolding alloc_kpages
  alloc_kpages_exhausted le full = rw (getppages_exhausted booted n pos int le full) refl

module _ {m : Memory} (booted : IsBooted m) where
  target_frame_block :
      (n i : ℕ) → IsBlock m.core_map n i → target_frame m.core_map (frame_kvaddr m i) ≡ some i
  unfolding target_frame
  target_frame_block n i b = ground (arith, booted.fits, booted.small, b.inside, b.positive)

  -- On a booted machine free_kpages at the address of an allocated block succeeds, clears exactly
  -- the frames of that block, and leaves every block that shares no frame with it allocated.
  pub free_kpages-IsBlock :
      (n i : ℕ)
      → IsBlock m.core_map n i
      → (m' : Memory) × (free_kpages (frame_kvaddr m i) m ≡ ok m')
        × ((k : ℕ) → m'.core_map.in_use k ≡ (if within i (i + n) k then 0 else m.core_map.in_use k))
        × ((n' i' : ℕ)
            → (i' + n' ≤ i) ⊎ (i + n ≤ i')
            → IsBlock m.core_map n' i'
            → IsBlock m'.core_map n' i')
  unfolding free_kpages free_target
  free_kpages-IsBlock n i b = (
    record m { core_map = free_frames i m.core_map },
    simp (booted.made, target_frame_block n i b),
    λ k. free_frames-in_use k b,
    λ n' i' apart b'. free_keeps-IsBlock apart b b',
  )

  -- On a booted machine free_kpages at the kernel address of a physical page that ends at or below
  -- the first frame, as one from before vm_bootstrap, reads the coremap's arrays at a negative
  -- index.
  pub free_kpages_below :
      (pa : ℕ) → pa + page_size ≤ m.core_map.base_addr → free_kpages (paddr_to_kvaddr pa) m ≡ fault
  unfolding free_kpages free_target target_frame paddr_to_kvaddr
  free_kpages_below pa below = ground (arith, booted.made, booted.fits, booted.small)

-- On a booted machine where frame i is the lowest at which n frames in a row are free, 0 < n <
-- 2^31, alloc_kpages of n pages succeeds, free_kpages of the address that it returned succeeds,
-- and then every frame is in use exactly as before.
pub free_alloc_kpages :
    {m : Memory}
    → IsBooted m
    → (n : ℕ) → 0 < n
    → n < 2 ^ 31
    → (i : ℕ) → FreeRun m n i
    → ((j : ℕ) → j < i → ¬ FreeRun m n j)
    → (m' m'' : Memory) × (alloc_kpages n m ≡ ok (frame_kvaddr m i, m'))
      × (free_kpages (frame_kvaddr m i) m' ≡ ok m'')
      × ((k : ℕ) → m''.core_map.in_use k ≡ m.core_map.in_use k)
free_alloc_kpages {m} booted n pos int i run first =
    let a = taken-Allocated n i booted pos run in
    let (m'', freed, rest, _) = free_kpages-IsBlock a.booted n i a.block in
    let base : frame_kvaddr (taken n i m) i ≡ frame_kvaddr m i =
      omega (arith, mark_run-base_addr n n i m.core_map) in
    (
      taken n i m,
      m'',
      rw (alloc_kpages-taken booted n pos int i run first),
      rw base at freed,
      λ k. ground (arith, rest k, marked-in_use n i m.core_map k, run.free k),
    )
