-- ===== src/Vm/Addrspace/Frames.antt =====
-- Single frames of the allocator of kern/arch/mips/vm/dumbvm.c: how many are free, getting one, and what a
-- run of the machine keeps.
use os.Base.{
  ◌∙◌, ℕ, zero, suc, ◌+◌, ◌≤◌, ◌<◌, ◌≡◌, ◌≢◌, refl, Option, none, some, arith, ok, update, tally,
  tally-update, tally_some, tally_ext,
}
use os.Vm.Coremap.{page_size, Memory, getppages}
use os.Vm.Coremap.Search.{IsFreeRun, Answer}
use os.Vm.Coremap.Blocks.{IsBlock, marked-in_use, mark_run-size}
use os.Vm.Coremap.Alloc.{IsBooted, FreeRun, frame_addr, taken, answer, getppages-taken}
use os.Vm.Addrspace.{Machine}

abbrev pub is_free_frame : ℕ → ℕ
is_free_frame zero = 1
is_free_frame (suc u) = 0

-- The number of free frames.
abbrev pub free_count : Memory → ℕ
free_count m = tally is_free_frame m.core_map.size m.core_map.in_use

-- With a free frame the search for one ends at the first.
pub first_free :
    (in_use : ℕ → ℕ) (size : ℕ) (o : Option ℕ)
    → 0 < tally is_free_frame size in_use
    → Answer in_use size 1 0 o
    → (i : ℕ) × IsFreeRun in_use size 1 i × ((j : ℕ) → j < i → ¬ IsFreeRun in_use size 1 j)
first_free in_use size none pos full =
    let (i, lt, free) = tally_some is_free_frame size in_use pos in
    absurd (
      full i (omega arith) (record {
        inside = omega arith;
        free = λ k lo hi. let e : k ≡ i = omega arith in rw e (ground arith);
      }))
first_free in_use size (some i) pos (lo, run, first) = (i, run, λ j lt. first j (omega arith) lt)

-- One frame, if there is a free one.
pub getppages_one :
    {m : Memory}
    → IsBooted m
    → 0 < free_count m
    → (f : ℕ) × FreeRun m 1 f × (getppages 1 m ≡ ok (frame_addr m f, taken 1 f m))
getppages_one {m} booted pos =
    let (f, run, first) =
      first_free m.core_map.in_use m.core_map.size _ pos
        (answer booted 1 (omega arith) (omega arith)) in
    (f, run, getppages-taken booted 1 (omega arith) (omega arith) f run first)

pub taken-in_use :
    (f : ℕ) (m : Memory) (k : ℕ) → (taken 1 f m).core_map.in_use k ≡ update m.core_map.in_use f 1 k
taken-in_use f m k = ground (arith, marked-in_use 1 f m.core_map k)

pub taken-free_count :
    (f : ℕ) (m : Memory) → FreeRun m 1 f → free_count (taken 1 f m) + 1 ≡ free_count m
taken-free_count f m run =
    let was : m.core_map.in_use f ≡ 0 = run.free f (omega arith) (omega arith) in
    let one : is_free_frame (m.core_map.in_use f) ≡ 1 = rw was refl in
    rw
      (
        mark_run-size 1 1 f m.core_map,
        tally_ext is_free_frame m.core_map.size _ _ (taken-in_use f m),
      )
      (omega (
        arith,
        tally-update is_free_frame m.core_map.size m.core_map.in_use f 1
            (omega (arith, run.inside)),
      ))

-- The address of byte `a` of frame `f`.
abbrev pub byte_addr : Memory → (f a : ℕ) → ℕ
byte_addr m f a = frame_addr m f + a

-- The machine goes on from `m` to `m'`: blocks stay allocated, and frames in use keep their bytes.
pub record Kept (m m' : Machine) : Type 0 where
  pub booted : IsBooted m'.memory
  pub base : m'.memory.core_map.base_addr ≡ m.memory.core_map.base_addr
  pub size : m'.memory.core_map.size ≡ m.memory.core_map.size
  pub blocks : (n i : ℕ) → IsBlock m.memory.core_map n i → IsBlock m'.memory.core_map n i
  pub used : (f : ℕ) → m.memory.core_map.in_use f ≢ 0 → m'.memory.core_map.in_use f ≢ 0
  pub bytes :
      (f a : ℕ)
      → m.memory.core_map.in_use f ≢ 0
      → a < page_size
      → m'.ram (byte_addr m.memory f a) ≡ m.ram (byte_addr m.memory f a)

-- Entry `k` of the table is a frame that was free, and is an allocated block of cleared bytes.
pub record FreshPage (m m' : Machine) (table : ℕ → ℕ) (k : ℕ) : Type 0 where
  pub frame : ℕ
  pub entry : table k ≡ frame_addr m.memory frame
  pub was_free : m.memory.core_map.in_use frame ≡ 0
  pub block : IsBlock m'.memory.core_map 1 frame
  pub cleared : (a : ℕ) → a < page_size → m'.ram (table k + a) ≡ 0

pub record Filled (m m' : Machine) (left i : ℕ) (table table' : ℕ → ℕ) : Type 0 where
  pub kept : Kept m m'
  pub frees : free_count m'.memory + left ≡ free_count m.memory
  pub below : (k : ℕ) → k < i → table' k ≡ table k
  pub fresh : (k : ℕ) → i ≤ k → k < i + left → FreshPage m m' table' k
  pub distinct : (j k : ℕ) → i ≤ j → j < k → k < i + left → table' j ≢ table' k

pub Kept-refl : (m : Machine) → IsBooted m.memory → Kept m m
Kept-refl m booted = record {
  booted = booted;
  base = refl;
  size = refl;
  blocks = λ n i b. b;
  used = λ f u. u;
  bytes = λ f a u lt. refl;
}

pub Kept-trans : {m m1 m2 : Machine} → Kept m m1 → Kept m1 m2 → Kept m m2
Kept-trans {m} {m1} {m2} p q = record {
  booted = q.booted;
  base = q.base ∙ p.base;
  size = q.size ∙ p.size;
  blocks = λ n i b. q.blocks n i (p.blocks n i b);
  used = λ f u. q.used f (p.used f u);
  bytes = λ f a u lt.
      let e : byte_addr m1.memory f a ≡ byte_addr m.memory f a = omega (arith, p.base) in
      (rw e at (q.bytes f a (p.used f u) lt)) ∙ p.bytes f a u lt;
}
