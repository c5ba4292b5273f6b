-- ===== src/Vm/Addrspace/Exhausted.antt =====
-- as_prepare_load of kern/arch/mips/vm/dumbvm.c when no frame is free.
use os.Base.{
  ℕ, zero, suc, ◌+◌, ◌-◌, ◌*◌, ◌≤◌, ◌<◌, ◌≡◌, refl, ◌∙◌, some, ok, enomem, arith, update,
  ℕ_discrete,
}
use os.Vm.Coremap.{Memory}
use os.Vm.Coremap.Alloc.{IsBooted, FreeRun, getppages_exhausted}
use os.Vm.Addrspace.{
  Addrspace, Machine, Heap, stack_pages, fill_table, fill_tables, as_prepare_load, as_zero_region,
}
use os.Vm.Addrspace.Prepare.{page_entry}

module _ {mem : Memory} (booted : IsBooted mem) (some_frame : 1 ≤ mem.core_map.size)
    (full : (j : ℕ) → ¬ FreeRun mem 1 j) where
  fill_table_exhausted :
      (left i : ℕ) (table ram : ℕ → ℕ)
      → (table' ram' : ℕ → ℕ) × (fill_table left i table (record { memory = mem; ram = ram })
          ≡ ok (0, table', record { memory = mem; ram = ram' }))
        × ((k : ℕ) → k < i → table' k ≡ table k)
        × ((k : ℕ) → i ≤ k → k < i + left → table' k ≡ enomem)
  unfolding fill_table
  fill_table_exhausted zero i table ram =
      (table, ram, refl, λ k lt. refl, λ k lo hi. absurd (omega arith))
  fill_table_exhausted (suc left) i table ram =
      let (table', ram', got, below, rest) =
        fill_table_exhausted left (i + 1) (update table i enomem) (as_zero_region enomem 1 ram) in
      (
        table',
        ram',
        rw (getppages_exhausted booted 1 (omega arith) (omega arith) some_frame full) got,
        λ k lt. below k (omega arith) ∙ ground arith,
        λ k lo hi. elim (ℕ_discrete i k) [
          | yes e ↦ rw (← e) (below i (omega arith) ∙ ground arith)
          | no ne ↦ rest k (omega arith) (omega arith)
        ],
      )

  -- The text and data tables are allocated, and kmalloc finds room for the stack table and leaves a
  -- booted machine of at least one frame, none of which is free. Then as_prepare_load does not fail:
  -- it returns 0, and the frame of every page is the number ENOMEM. The coremap is as before.
  pub as_prepare_load_exhausted :
      (heap : Heap) (space : Addrspace) (m : Machine) (t1 t2 ts ram : ℕ → ℕ)
      → space.as_ptable1 ≡ some t1
      → space.as_ptable2 ≡ some t2
      → heap.kmalloc (4 * stack_pages) m ≡ ok (some ts, record { memory = mem; ram = ram })
      → (space' : Addrspace) × (t1' t2' ts' ram' : ℕ → ℕ) × (as_prepare_load heap space m
          ≡ ok (0, space', record { memory = mem; ram = ram' }))
        × (space' ≡ record space {
          as_ptable1 = some t1';
          as_ptable2 = some t2';
          as_stackptable = some ts';
        })
        × ((k : ℕ)
            → k < space.as_npages1 + space.as_npages2 + stack_pages
            → page_entry space.as_npages1 space.as_npages2 t1' t2' ts' k ≡ enomem)
  unfolding as_prepare_load fill_tables
  as_prepare_load_exhausted heap space m t1 t2 ts ram e1 e2 got =
      let (t1', ram1, r1, _, a1) = fill_table_exhausted space.as_npages1 0 t1 ram in
      let (t2', ram2, r2, _, a2) = fill_table_exhausted space.as_npages2 0 t2 ram1 in
      let (ts', ram3, r3, _, a3) = fill_table_exhausted stack_pages 0 ts ram2 in
      (
        record space { as_ptable1 = some t1'; as_ptable2 = some t2'; as_stackptable = some ts' },
        t1',
        t2',
        ts',
        ram3,
        rw (got, e1, e2, r1, r2, r3) refl,
        refl,
        λ k lt. ground (
          arith,
          a1 k,
          a2 (k - space.as_npages1),
          a3 (k - (space.as_npages1 + space.as_npages2)),
        ),
      )
