-- ===== src/Vm/Addrspace/Duplicate.antt =====
-- as_copy of kern/arch/mips/vm/dumbvm.c when its calls of kmalloc find memory.
use os.Base.{ℕ, ◌+◌, ◌*◌, ◌%◌, ◌^◌, ◌≤◌, ◌<◌, ◌≡◌, ◌≢◌, refl, ◌∙◌, Option, some, arith, ok}
use os.Vm.Coremap.{page_size}
use os.Vm.Coremap.Alloc.{IsBooted, frame_addr}
use os.Vm.Coremap.Blocks.{IsBlock}
use os.Vm.Addrspace.{
  Addrspace, Machine, Heap, stack_pages, copy_pages, copy_shape, finish_copy, copy_into, as_copy,
}
use os.Vm.Addrspace.Frames.{free_count, Kept, byte_addr}
use os.Vm.Addrspace.Prepare.{page_entry, Loaded, as_prepare_load-Loaded}
use os.Vm.Addrspace.Copy.{Apart, PagesCopied, copy_table-PagesCopied, copy_pages_eq}

-- The old address space is intact on machine `m`: its tables are there, and every page of it is a frame
-- in use.
pub record Intact (m : Machine) (old : Addrspace) (o1 o2 old_stack : ℕ → ℕ) : Type 0 where
  pub table1 : old.as_ptable1 ≡ some o1
  pub table2 : old.as_ptable2 ≡ some o2
  pub table_stack : old.as_stackptable ≡ some old_stack
  pub frame : ℕ → ℕ
  pub entry :
      (k : ℕ)
      → k < old.as_npages1 + old.as_npages2 + stack_pages
      → page_entry old.as_npages1 old.as_npages2 o1 o2 old_stack k ≡ frame_addr m.memory (frame k)
  pub in_use :
      (k : ℕ)
      → k < old.as_npages1 + old.as_npages2 + stack_pages
      → m.memory.core_map.in_use (frame k) ≢ 0

-- The calls of kmalloc in as_copy find memory, and the last one leaves machine `m4`.
pub record Allocates (heap : Heap) (old : Addrspace) (m m4 : Machine) : Type 0 where
  pub block : ℕ → ℕ
  pub m1 : Machine
  pub first : heap.kmalloc 32 m ≡ ok (some block, m1)
  pub t1 : ℕ → ℕ
  pub m2 : Machine
  pub second : heap.kmalloc (4 * old.as_npages1 % 2 ^ 32) m1 ≡ ok (some t1, m2)
  pub t2 : ℕ → ℕ
  pub m3 : Machine
  pub third : heap.kmalloc (4 * old.as_npages2 % 2 ^ 32) m2 ≡ ok (some t2, m3)
  pub ts : ℕ → ℕ
  pub fourth : heap.kmalloc (4 * stack_pages) m3 ≡ ok (some ts, m4)

-- The new address space on machine `m'`, against the old one on `m`.
pub record Duplicate (m m' : Machine) (old new : Addrspace) (o1 o2 old_stack t1 t2 ts : ℕ → ℕ)
    : Type 0 where
  pub shape : new ≡ record (copy_shape old (some t1) (some t2)) { as_stackptable = some ts }
  pub kept : Kept m m'
  pub frames :
      (k : ℕ)
      → k < old.as_npages1 + old.as_npages2 + stack_pages
      → (f : ℕ) × (page_entry old.as_npages1 old.as_npages2 t1 t2 ts k ≡ frame_addr m.memory f)
        × (m.memory.core_map.in_use f ≡ 0)
        × IsBlock m'.memory.core_map 1 f
  pub distinct :
      (j k : ℕ)
      → j < k
      → k < old.as_npages1 + old.as_npages2 + stack_pages
      → page_entry old.as_npages1 old.as_npages2 t1 t2 ts j
        ≢ page_entry old.as_npages1 old.as_npages2 t1 t2 ts k
  pub copied :
      (k a : ℕ)
      → k < old.as_npages1 + old.as_npages2 + stack_pages
      → a < page_size
      → m'.ram (page_entry old.as_npages1 old.as_npages2 t1 t2 ts k + a)
        ≡ m.ram (page_entry old.as_npages1 old.as_npages2 o1 o2 old_stack k + a)

module _ {old : Addrspace} {m m' : Machine} {o1 o2 old_stack t1 t2 ts : ℕ → ℕ} {space' : Addrspace}
    {a1 a2 : Option (ℕ → ℕ)} (intact : Intact m old o1 o2 old_stack)
    (loaded : Loaded m m' (copy_shape old a1 a2) space' t1 t2 ts) where
  new-Apart :
      (j k : ℕ)
      → j < k
      → k < old.as_npages1 + old.as_npages2 + stack_pages
      → Apart
          (page_entry old.as_npages1 old.as_npages2 t1 t2 ts j)
          (page_entry old.as_npages1 old.as_npages2 t1 t2 ts k)
  new-Apart j k lt hi = omega (
    arith,
    loaded.distinct j k lt hi,
    (loaded.fresh j (omega arith)).entry,
    (loaded.fresh k hi).entry,
  )

  old-Apart :
      (j k : ℕ)
      → j < old.as_npages1 + old.as_npages2 + stack_pages
      → k < old.as_npages1 + old.as_npages2 + stack_pages
      → Apart
          (page_entry old.as_npages1 old.as_npages2 t1 t2 ts j)
          (page_entry old.as_npages1 old.as_npages2 o1 o2 old_stack k)
  old-Apart j k hj hk =
      let page = loaded.fresh j hj in
      let ne : page.frame ≢ intact.frame k = λ e. intact.in_use k hk (rw e at page.was_free) in
      omega (arith, ne, page.entry, intact.entry k hk)

  kept_bytes :
      (ram' : ℕ → ℕ)
      → PagesCopied
          (old.as_npages1 + old.as_npages2 + stack_pages)
          0
          (page_entry old.as_npages1 old.as_npages2 t1 t2 ts)
          (page_entry old.as_npages1 old.as_npages2 o1 o2 old_stack)
          m'.ram
          ram'
      → (f a : ℕ) → m.memory.core_map.in_use f ≢ 0
      → a < page_size
      → ram' (byte_addr m.memory f a) ≡ m.ram (byte_addr m.memory f a)
  kept_bytes ram' moved f a used lt =
      moved.outside (byte_addr m.memory f a) (λ k lo hi.
        let page = loaded.fresh k (omega arith) in
        let ne : page.frame ≢ f = λ e. used (rw e at page.was_free) in
        omega (arith, ne, page.entry))
      ∙ loaded.kept.bytes f a used lt

  copied-Duplicate :
      (ram' : ℕ → ℕ)
      → PagesCopied
          (old.as_npages1 + old.as_npages2 + stack_pages)
          0
          (page_entry old.as_npages1 old.as_npages2 t1 t2 ts)
          (page_entry old.as_npages1 old.as_npages2 o1 o2 old_stack)
          m'.ram
          ram'
      → Duplicate m
          (record m' { ram = ram' })
          old
          (record (copy_shape old (some t1) (some t2)) { as_stackptable = some ts })
          o1
          o2
          old_stack
          t1
          t2
          ts
  copied-Duplicate ram' moved = record {
    shape = refl;
    kept = record {
      booted = loaded.kept.booted;
      base = loaded.kept.base;
      size = loaded.kept.size;
      blocks = loaded.kept.blocks;
      used = loaded.kept.used;
      bytes = kept_bytes ram' moved;
    };
    frames =
        λ k lt. let page = loaded.fresh k lt in (page.frame, page.entry, page.was_free, page.block);
    distinct = loaded.distinct;
    copied = λ k a lt hi.
        let e = intact.entry k lt in
        moved.copied k a (omega arith) (omega arith) hi
        ∙ rw e (loaded.kept.bytes (intact.frame k) a (intact.in_use k lt) hi);
  }

-- The old address space is intact on the machine that the four calls of kmalloc leave, which is booted
-- and has a free frame for each page. Then as_copy succeeds. The new address space has the same regions,
-- with its text not yet marked as loaded; its pages lie in different frames that were free before, and
-- each has the bytes of the old page. Frames that were in use keep theirs.
pub as_copy-Duplicate :
    {heap : Heap} {old : Addrspace} {m m4 : Machine} {o1 o2 old_stack : ℕ → ℕ}
    → Allocates heap old m m4
    → Intact m4 old o1 o2 old_stack
    → IsBooted m4.memory
    → old.as_npages1 + old.as_npages2 + stack_pages ≤ free_count m4.memory
    → (new : Addrspace) × (m' : Machine) × (t1 t2 ts : ℕ → ℕ) × (as_copy heap old m
        ≡ ok (0, some new, m'))
      × Duplicate m4 m' old new o1 o2 old_stack t1 t2 ts
unfolding as_copy copy_into finish_copy copy_pages
as_copy-Duplicate {heap} {old} {m} {m4} {o1} {o2} {old_stack} alloc intact booted enough =
    let (space', m5, t1, t2, ts, got, loaded) =
      as_prepare_load-Loaded heap (copy_shape old (some alloc.t1) (some alloc.t2)) alloc.m3 m4
        alloc.t1 alloc.t2 alloc.ts refl refl alloc.fourth booted enough in
    let (ram', done, moved) =
      copy_table-PagesCopied (old.as_npages1 + old.as_npages2 + stack_pages) 0
        (page_entry old.as_npages1 old.as_npages2 t1 t2 ts)
        (page_entry old.as_npages1 old.as_npages2 o1 o2 old_stack) m5
        (λ j k lo lt hi. new-Apart intact loaded j k lt (omega arith))
        (λ j k lo hi lo' hi'. old-Apart intact loaded j k (omega arith) (omega arith)) in
    (
      record (copy_shape old (some t1) (some t2)) { as_stackptable = some ts },
      record m5 { ram = ram' },
      t1,
      t2,
      ts,
      rw
          (
            alloc.first,
            alloc.second,
            alloc.third,
            got,
            loaded.tables,
            intact.table1,
            intact.table2,
            intact.table_stack,
            copy_pages_eq old.as_npages1 old.as_npages2 t1 t2 ts o1 o2 old_stack m5,
            done,
          )
          refl,
      copied-Duplicate intact loaded ram' moved,
    )
