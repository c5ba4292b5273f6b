-- ===== src/Vm/Addrspace.antt =====
-- Address spaces of kern/arch/mips/vm/dumbvm.c with OPT_A3: page tables of single frames for text,
-- data and stack. kmalloc and kfree (kern/vm/kmalloc.c) are parameters, since they keep their own
-- pages in the same memory.
pub mod Frames
pub mod Fill
pub mod Prepare
pub mod Copy
pub mod Duplicate
pub mod Define
pub mod Exhausted
use os.Base.{
  ℕ, zero, suc, ◌+◌, ◌-◌, ◌*◌, ◌/◌, ◌%◌, ◌^◌, Option, none, some, ltb, leb, ◌==◌, ◌&&◌,
  if◌then◌else◌, update, Result, ok, fault, ◌>>=◌, enomem, eunimp,
}
use os.Vm.Coremap.{Memory, page_size, paddr_to_kvaddr, page_required, getppages, free_kpages}

-- DUMBVM_STACKPAGES
abbrev pub stack_pages : ℕ
stack_pages = 12

-- USERSTACK
abbrev pub user_stack : ℕ
user_stack = 0x8000_0000

-- `struct addrspace`; a page table gives the `frameNumber` of each page, `none` is NULL.
pub record Addrspace : Type 0 where
  pub as_vbase1 : ℕ
  pub as_vbase2 : ℕ
  pub as_npages1 : ℕ
  pub as_npages2 : ℕ
  pub load_code_done : ℕ
  pub as_ptable1 : Option (ℕ → ℕ)
  pub as_ptable2 : Option (ℕ → ℕ)
  pub as_stackptable : Option (ℕ → ℕ)

-- The frame allocator and the bytes of physical memory, by address.
pub record Machine : Type 0 where
  pub memory : Memory
  pub ram : ℕ → ℕ

-- kmalloc of a page table or of a `struct addrspace`, by its bytes; kfree of either.
pub record Heap : Type 0 where
  pub kmalloc : ℕ → Machine → Result (Option (ℕ → ℕ) × Machine)
  pub kfree_table : Option (ℕ → ℕ) → Machine → Result Machine
  pub kfree_as : Addrspace → Machine → Result Machine

-- What as_create returns when kmalloc finds memory for it.
abbrev pub as_create : Addrspace
as_create = record {
  as_vbase1 = 0;
  as_vbase2 = 0;
  as_npages1 = 0;
  as_npages2 = 0;
  load_code_done = 0;
  as_ptable1 = none;
  as_ptable2 = none;
  as_stackptable = none;
}

-- `a & PAGE_FRAME`
abbrev pub page_align : ℕ → ℕ
page_align a = a / page_size * page_size

-- The number of pages that as_define_region computes for a region.
unfoldable pub region_pages : (vaddr sz : ℕ) → ℕ
region_pages vaddr sz =
    let aligned = (sz + vaddr % page_size) % 2 ^ 32 in
    page_align ((aligned + page_size - 1) % 2 ^ 32) / page_size

-- The first and the second region, once the page table is allocated.
pub first_region :
    Addrspace → (vaddr npages : ℕ) → Option (ℕ → ℕ) × Machine → Result (ℕ × Addrspace × Machine)
first_region space vaddr npages (table, m) =
    ok
      (0, record space { as_vbase1 = page_align vaddr; as_npages1 = npages; as_ptable1 = table }, m)

pub second_region :
    Addrspace → (vaddr npages : ℕ) → Option (ℕ → ℕ) × Machine → Result (ℕ × Addrspace × Machine)
second_region space vaddr npages (table, m) =
    ok
      (0, record space { as_vbase2 = page_align vaddr; as_npages2 = npages; as_ptable2 = table }, m)

-- The error code and the two states that as_define_region leaves.
pub as_define_region :
    Heap → Addrspace → (vaddr sz : ℕ) → Machine → Result (ℕ × Addrspace × Machine)
unfolding region_pages first_region second_region
as_define_region heap space vaddr sz m =
    let npages = region_pages vaddr sz in
    if space.as_vbase1 == 0
    then heap.kmalloc (4 * npages % 2 ^ 32) m >>= first_region space vaddr npages
    else if space.as_vbase2 == 0
    then heap.kmalloc (4 * npages % 2 ^ 32) m >>= second_region space vaddr npages
    else ok (eunimp, space, m)

-- as_zero_region: `npages` pages from `paddr` on
abbrev pub as_zero_region : (paddr npages : ℕ) → (ℕ → ℕ) → ℕ → ℕ
as_zero_region paddr npages ram a =
    if leb paddr a && ltb a (paddr + npages * page_size) then 0 else ram a

-- A loop of as_prepare_load over one page table, `left` rounds before its end.
pub fill_table : (left i : ℕ) → (ℕ → ℕ) → Machine → Result (ℕ × (ℕ → ℕ) × Machine)
fill_table zero i table m = ok (0, table, m)
fill_table (suc left) i table m = getppages 1 m.memory >>= λ (pa, mem).
    if pa == 0
    then ok (enomem, update table i pa, record m { memory = mem })
    else fill_table left (i + 1) (update table i pa)
        (record { memory = mem; ram = as_zero_region pa 1 m.ram })

-- The check of the three tables, and the three loops.
pub fill_tables :
    (t1 t2 ts : Option (ℕ → ℕ)) → Addrspace → Machine → Result (ℕ × Addrspace × Machine)
unfolding fill_table
fill_tables (some t1) (some t2) (some ts) space m =
    fill_table space.as_npages1 0 t1 m >>= λ (code1, t1', m1).
    let space1 : Addrspace = record space { as_ptable1 = some t1' } in
    if code1 == 0
    then (fill_table space.as_npages2 0 t2 m1 >>= λ (code2, t2', m2).
        let space2 : Addrspace = record space1 { as_ptable2 = some t2' } in
        if code2 == 0
        then (fill_table stack_pages 0 ts m2 >>= λ (code3, ts', m3).
            ok (code3, record space2 { as_stackptable = some ts' }, m3))
        else ok (code2, space2, m2))
    else ok (code1, space1, m1)
fill_tables _ _ _ space m = ok (enomem, space, m)

pub as_prepare_load : Heap → Addrspace → Machine → Result (ℕ × Addrspace × Machine)
unfolding fill_tables
as_prepare_load heap space m = heap.kmalloc (4 * stack_pages) m >>= λ (ts, m1).
    fill_tables space.as_ptable1 space.as_ptable2 ts (record space { as_stackptable = ts }) m1

-- A loop of as_destroy over one page table; a NULL table with a page in it is a fault.
pub free_table : (left i : ℕ) → Option (ℕ → ℕ) → Machine → Result Machine
unfolding paddr_to_kvaddr
free_table zero i table m = ok m
free_table (suc left) i none m = fault
free_table (suc left) i (some t) m = free_kpages (paddr_to_kvaddr (t i)) m.memory >>= λ mem.
    free_table left (i + 1) (some t) (record m { memory = mem })

-- The bounds of the first two loops are casts to int.
pub as_destroy : Heap → Addrspace → Machine → Result Machine
unfolding free_table page_required
as_destroy heap space m =
    free_table (page_required space.as_npages1) 0 space.as_ptable1 m
    >>= free_table (page_required space.as_npages2) 0 space.as_ptable2
    >>= free_table stack_pages 0 space.as_stackptable
    >>= heap.kfree_table space.as_stackptable
    >>= heap.kfree_table space.as_ptable2
    >>= heap.kfree_table space.as_ptable1
    >>= heap.kfree_as space

-- memmove of one page, by the kernel addresses of the two frames
abbrev pub copy_page : (dst src : ℕ) → (ℕ → ℕ) → ℕ → ℕ
copy_page dst src ram a =
    if leb dst a && ltb a (dst + page_size) then ram (src + (a - dst)) else ram a

-- A loop of as_copy over one page table.
pub copy_table : (left i : ℕ) (new old : Option (ℕ → ℕ)) → Machine → Result Machine
copy_table zero i new old m = ok m
copy_table (suc left) i (some new) (some old) m =
    copy_table left (i + 1) (some new) (some old)
      (record m { ram = copy_page (new i) (old i) m.ram })
copy_table (suc left) i _ _ m = fault

pub copy_pages : (new old : Addrspace) → Machine → Result Machine
unfolding copy_table
copy_pages new old m =
    copy_table old.as_npages1 0 new.as_ptable1 old.as_ptable1 m
    >>= copy_table old.as_npages2 0 new.as_ptable2 old.as_ptable2
    >>= copy_table stack_pages 0 new.as_stackptable old.as_stackptable

-- as_copy once the tables are allocated, by the outcome of as_prepare_load. The result is the error
-- code and the new address space.
pub finish_copy :
    Heap → (old : Addrspace) → ℕ × Addrspace × Machine → Result (ℕ × Option Addrspace × Machine)
unfolding as_destroy copy_pages
finish_copy heap old (code, new, m) =
    if code == 0
    then (copy_pages new old m >>= λ m'. ok (0, some new, m'))
    else (as_destroy heap new m >>= λ m'. ok (enomem, none, m'))

-- The address space for which as_copy calls as_prepare_load.
abbrev pub copy_shape : (old : Addrspace) (t1 t2 : Option (ℕ → ℕ)) → Addrspace
copy_shape old t1 t2 = record as_create {
  as_vbase1 = old.as_vbase1;
  as_npages1 = old.as_npages1;
  as_vbase2 = old.as_vbase2;
  as_npages2 = old.as_npages2;
  as_ptable1 = t1;
  as_ptable2 = t2;
}

pub copy_into : Heap → Addrspace → Machine → Result (ℕ × Option Addrspace × Machine)
unfolding as_prepare_load finish_copy
copy_into heap old m = do
  (t1, m1) ← heap.kmalloc (4 * old.as_npages1 % 2 ^ 32) m
  (t2, m2) ← heap.kmalloc (4 * old.as_npages2 % 2 ^ 32) m1
  prepared ← as_prepare_load heap (copy_shape old t1 t2) m2
  finish_copy heap old prepared

pub as_copy : Heap → Addrspace → Machine → Result (ℕ × Option Addrspace × Machine)
unfolding copy_into
as_copy heap old m = heap.kmalloc 32 m >>= λ (block, m1). elim block [
  | none ↦ ok (enomem, none, m1)
  | some _ ↦ copy_into heap old m1
]
