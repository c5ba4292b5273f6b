-- ===== src/Vm/Addrspace/Fill.antt =====
-- The loops of as_prepare_load (kern/arch/mips/vm/dumbvm.c): a page table gets one fresh, cleared frame
-- for each page.
use os.Base.{
  sym, ◌∙◌, ℕ, zero, suc, ◌+◌, ◌≤◌, ◌≡◌, ◌≢◌, refl, arith, ok, update, ==-false, ℕ_discrete,
}
use os.Vm.Coremap.Blocks.{mark_run-size, mark_run-base_addr}
use os.Vm.Coremap.Alloc.{IsBooted, FreeRun, frame_addr, taken, taken-Allocated}
use os.Vm.Addrspace.{Machine, fill_table, as_zero_region}
use os.Vm.Addrspace.Frames.{
  free_count, getppages_one, taken-in_use, taken-free_count, byte_addr, Kept, FreshPage, Filled,
  Kept-refl, Kept-trans,
}

-- The machine after one round.
abbrev round : (f : ℕ) → Machine → Machine
round f m = record {
  memory = taken 1 f m.memory;
  ram = as_zero_region (frame_addr m.memory f) 1 m.ram;
}

round-Kept : (f : ℕ) (m : Machine) → IsBooted m.memory → FreeRun m.memory 1 f → Kept m (round f m)
round-Kept f m booted run =
    let a = taken-Allocated 1 f booted (omega arith) run in
    let free : m.memory.core_map.in_use f ≡ 0 = run.free f (omega arith) (omega arith) in
    record {
      booted = a.booted;
      base = mark_run-base_addr 1 1 f m.memory.core_map;
      size = mark_run-size 1 1 f m.memory.core_map;
      blocks = λ n i b. (a.kept n i b).0;
      used = λ g u z. ground (arith, taken-in_use f m.memory g, free, u);
      bytes = λ g a u lt. let ne : g ≢ f = λ e. u (rw e free) in ground (arith, ne);
    }

in_use_after : (f : ℕ) (m : Machine) → (round f m).memory.core_map.in_use f ≢ 0
in_use_after f m z = ground (arith, taken-in_use f m.memory f)

round-FreshPage :
    (f i : ℕ) (m m' : Machine) (table' : ℕ → ℕ)
    → IsBooted m.memory
    → FreeRun m.memory 1 f
    → Kept (round f m) m'
    → table' i ≡ frame_addr m.memory f
    → FreshPage m m' table' i
round-FreshPage f i m m' table' booted run kept e = record {
  frame = f;
  entry = e;
  was_free = run.free f (omega arith) (omega arith);
  block = kept.blocks 1 f (taken-Allocated 1 f booted (omega arith) run).block;
  cleared = λ a lt.
      let b : byte_addr (taken 1 f m.memory) f a ≡ frame_addr m.memory f + a =
        omega (arith, mark_run-base_addr 1 1 f m.memory.core_map) in
      let zero_now : as_zero_region (frame_addr m.memory f) 1 m.ram (frame_addr m.memory f + a)
          ≡ 0 =
        ground arith in
      rw e ((rw b at (kept.bytes f a (in_use_after f m) lt)) ∙ zero_now);
}

-- A frame that is fresh after the round was so before it, and is another one.
later-FreshPage :
    (f k : ℕ) (m m' : Machine) (table' : ℕ → ℕ)
    → Kept m (round f m)
    → FreshPage (round f m) m' table' k
    → FreshPage m m' table' k × (table' k ≢ frame_addr m.memory f)
later-FreshPage f k m m' table' k1 page =
    let other : page.frame ≢ f = λ e. in_use_after f m (rw e at page.was_free) in
    (
      record {
        frame = page.frame;
        entry = page.entry ∙ omega (arith, k1.base);
        was_free = ground (arith, taken-in_use f m.memory page.frame, page.was_free, other);
        block = page.block;
        cleared = page.cleared;
      },
      λ e. omega (arith, other, page.entry, k1.base, e),
    )

round-Filled :
    (f left i : ℕ) (table table' : ℕ → ℕ) (m m' : Machine)
    → IsBooted m.memory
    → FreeRun m.memory 1 f
    → Filled (round f m) m' left (i + 1) (update table i (frame_addr m.memory f)) table'
    → Filled m m' (suc left) i table table'
round-Filled f left i table table' m m' booted run filled =
    let k1 = round-Kept f m booted run in
    let first : table' i ≡ frame_addr m.memory f = filled.below i (omega arith) ∙ ground arith in
    record {
      kept = Kept-trans k1 filled.kept;
      frees = omega (arith, filled.frees, taken-free_count f m.memory run);
      below = λ k lt. filled.below k (omega arith) ∙ ground arith;
      fresh = λ k lo hi. elim (ℕ_discrete i k) [
        | yes e ↦ rw (← e) (round-FreshPage f i m m' table' booted run filled.kept first)
        | no ne ↦
            (later-FreshPage f k m m' table' k1 (filled.fresh k (omega arith) (omega arith))).0
      ];
      distinct = λ j k lo lt hi. elim (ℕ_discrete i j) [
        | yes e ↦ λ same.
            (later-FreshPage f k m m' table' k1 (filled.fresh k (omega arith) (omega arith))).1
              (sym same ∙ rw (← e) first)
        | no ne ↦ filled.distinct j k (omega arith) lt (omega arith)
      ];
    }

-- With enough free frames the loop ends without an error, and has filled its part of the table.
pub fill_table_lem :
    (left i : ℕ) (table : ℕ → ℕ) (m : Machine)
    → IsBooted m.memory
    → left ≤ free_count m.memory
    → (table' : ℕ → ℕ) × (m' : Machine) × (fill_table left i table m ≡ ok (0, table', m'))
      × Filled m m' left i table table'
unfolding fill_table
fill_table_lem zero i table m booted enough = (
  table,
  m,
  refl,
  record {
    kept = Kept-refl m booted;
    frees = omega arith;
    below = λ k lt. refl;
    fresh = λ k lo hi. absurd (omega arith);
    distinct = λ j k lo lt hi. absurd (omega arith);
  },
)
fill_table_lem (suc left) i table m booted enough =
    let (f, run, got) = getppages_one booted (omega arith) in
    let k1 = round-Kept f m booted run in
    let (table', m', rest, filled) =
      fill_table_lem left (i + 1) (update table i (frame_addr m.memory f)) (round f m) k1.booted
        (omega (arith, taken-free_count f m.memory run)) in
    (
      table',
      m',
      rw (got, ==-false (frame_addr m.memory f) 0 (omega (arith, booted.low, booted.nonzero))) rest,
      round-Filled f left i table table' m m' booted run filled,
    )
