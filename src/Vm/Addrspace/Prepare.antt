-- ===== src/Vm/Addrspace/Prepare.antt =====
-- as_prepare_load of kern/arch/mips/vm/dumbvm.c when there are frames enough.
use os.Base.{
  ℕ, ◌+◌, ◌-◌, ◌*◌, ◌≤◌, ◌<◌, ◌≡◌, ◌≢◌, refl, ◌∙◌, sym, some, ltb, arith, ok, if◌then◌else◌,
  ℕ_discrete, dec_lt,
}
use os.Vm.Coremap.Alloc.{IsBooted}
use os.Vm.Addrspace.{Addrspace, Machine, Heap, stack_pages, fill_tables, as_prepare_load}
use os.Vm.Addrspace.Frames.{free_count, byte_addr, Kept, Kept-refl, FreshPage, Filled, Kept-trans}
use os.Vm.Addrspace.Fill.{fill_table_lem}

frame_used :
    {m m' : Machine} {t : ℕ → ℕ} {k : ℕ} (page : FreshPage m m' t k)
    → m'.memory.core_map.in_use page.frame ≢ 0
frame_used page z = omega (arith, page.block.used page.frame (omega arith) (omega arith), z)

-- A page that is fresh in the middle of a run is fresh in the whole.
pub FreshPage-within :
    {m m0 m1 m' : Machine} {t : ℕ → ℕ} {k : ℕ}
    → Kept m m0
    → FreshPage m0 m1 t k
    → Kept m1 m'
    → m1.memory.core_map.base_addr ≡ m0.memory.core_map.base_addr
    → FreshPage m m' t k
FreshPage-within {m} {m0} {m1} {m'} {t} {k} before page after base = record {
  frame = page.frame;
  entry = page.entry ∙ omega (arith, before.base);
  was_free = elim (ℕ_discrete (m.memory.core_map.in_use page.frame) 0) [
    | yes z ↦ z
    | no u ↦ absurd (before.used page.frame u page.was_free)
  ];
  block = after.blocks 1 page.frame page.block;
  cleared = λ a lt.
      let e : byte_addr m1.memory page.frame a ≡ t k + a = omega (arith, page.entry, base) in
      (rw e at (after.bytes page.frame a (frame_used page) lt)) ∙ page.cleared a lt;
}

-- Pages that got their frames one after the other have different frames.
fresh_apart :
    {m m0 m1 m2 : Machine} {t t' : ℕ → ℕ} {j k : ℕ}
    → Kept m m0
    → FreshPage m m0 t j
    → Kept m0 m1
    → FreshPage m1 m2 t' k
    → t j ≢ t' k
fresh_apart before page between page' e =
    let same : page.frame ≡ page'.frame =
      omega (arith, page.entry, page'.entry, before.base, between.base, e) in
    between.used page.frame (frame_used page) (rw same page'.was_free)

-- The frame of page `k` of the whole address space: text, then data, then stack.
abbrev pub page_entry : (n1 n2 : ℕ) (t1 t2 ts : ℕ → ℕ) → ℕ → ℕ
page_entry n1 n2 t1 t2 ts k =
    if ltb k n1 then t1 k else if ltb k (n1 + n2) then t2 (k - n1) else ts (k - (n1 + n2))

pub record Loaded (m m' : Machine) (space space' : Addrspace) (t1 t2 ts : ℕ → ℕ) : Type 0 where
  pub tables :
      space' ≡ record space { as_ptable1 = some t1; as_ptable2 = some t2; as_stackptable = some ts }
  pub kept : Kept m m'
  pub fresh :
      (k : ℕ)
      → k < space.as_npages1 + space.as_npages2 + stack_pages
      → FreshPage m m' (page_entry space.as_npages1 space.as_npages2 t1 t2 ts) k
  pub distinct :
      (j k : ℕ)
      → j < k
      → k < space.as_npages1 + space.as_npages2 + stack_pages
      → page_entry space.as_npages1 space.as_npages2 t1 t2 ts j
        ≢ page_entry space.as_npages1 space.as_npages2 t1 t2 ts k

-- The same page under another numbering.
FreshPage-as :
    {m m' : Machine} (t t' : ℕ → ℕ) (k k' : ℕ)
    → t k ≡ t' k'
    → FreshPage m m' t k
    → FreshPage m m' t' k'
FreshPage-as {m'} t t' k k' e page = record {
  frame = page.frame;
  entry = sym e ∙ page.entry;
  was_free = page.was_free;
  block = page.block;
  cleared = λ a lt. rw (← e) (page.cleared a lt);
}

module _ (n1 n2 : ℕ) (t1 t2 ts : ℕ → ℕ) where
  pub text_entry : (k : ℕ) → k < n1 → page_entry n1 n2 t1 t2 ts k ≡ t1 k
  text_entry k lt = ground arith

  pub data_entry : (k : ℕ) → n1 ≤ k → k < n1 + n2 → page_entry n1 n2 t1 t2 ts k ≡ t2 (k - n1)
  data_entry k lo hi = ground arith

  pub stack_entry : (k : ℕ) → n1 + n2 ≤ k → page_entry n1 n2 t1 t2 ts k ≡ ts (k - (n1 + n2))
  stack_entry k lo = ground arith

module _ {m m1 m2 m3 : Machine} {n1 n2 : ℕ} {j1 j2 js t1 t2 ts : ℕ → ℕ} (booted : IsBooted m.memory)
    (f1 : Filled m m1 n1 0 j1 t1) (f2 : Filled m1 m2 n2 0 j2 t2)
    (f3 : Filled m2 m3 stack_pages 0 js ts) where
  pages_fresh : (k : ℕ) → k < n1 + n2 + stack_pages → FreshPage m m3 (page_entry n1 n2 t1 t2 ts) k
  pages_fresh k lt = elim (dec_lt k n1) [
    | yes p ↦ FreshPage-as t1 _ k k (sym (text_entry n1 n2 t1 t2 ts k p)) (
        FreshPage-within (Kept-refl m booted) (f1.fresh k (omega arith) (omega arith))
          (Kept-trans f2.kept f3.kept) f1.kept.base)
    | no p ↦ elim (dec_lt k (n1 + n2)) [
      | yes q ↦ FreshPage-as t2 _ (k - n1) k (sym (data_entry n1 n2 t1 t2 ts k (omega arith) q)) (
          FreshPage-within f1.kept (f2.fresh (k - n1) (omega arith) (omega arith)) f3.kept
            f2.kept.base)
      | no q ↦
          FreshPage-as ts _ (k - (n1 + n2)) k (sym (stack_entry n1 n2 t1 t2 ts k (omega arith))) (
            FreshPage-within (Kept-trans f1.kept f2.kept)
              (f3.fresh (k - (n1 + n2)) (omega arith) (omega arith)) (Kept-refl m3 f3.kept.booted)
              f3.kept.base)
    ]
  ]

  text_apart :
      (j k : ℕ) → j < k → j < n1 → k < n1 + n2 + stack_pages → t1 j ≢ page_entry n1 n2 t1 t2 ts k
  text_apart j k lt p hi = elim (dec_lt k n1) [
    | yes q ↦ rw (text_entry n1 n2 t1 t2 ts k q) (f1.distinct j k (omega arith) lt (omega arith))
    | no q ↦ elim (dec_lt k (n1 + n2)) [
      | yes r ↦ rw (data_entry n1 n2 t1 t2 ts k (omega arith) r) (
          fresh_apart f1.kept (f1.fresh j (omega arith) (omega arith)) (Kept-refl m1 f1.kept.booted)
            (f2.fresh (k - n1) (omega arith) (omega arith)))
      | no r ↦ rw (stack_entry n1 n2 t1 t2 ts k (omega arith)) (
          fresh_apart f1.kept (f1.fresh j (omega arith) (omega arith)) f2.kept
            (f3.fresh (k - (n1 + n2)) (omega arith) (omega arith)))
    ]
  ]

  data_apart :
      (j k : ℕ)
      → j < k
      → n1 ≤ j
      → j < n1 + n2
      → k < n1 + n2 + stack_pages
      → t2 (j - n1) ≢ page_entry n1 n2 t1 t2 ts k
  data_apart j k lt lo p hi = elim (dec_lt k (n1 + n2)) [
    | yes r ↦
        rw (data_entry n1 n2 t1 t2 ts k (omega arith) r)
          (f2.distinct (j - n1) (k - n1) (omega arith) (omega arith) (omega arith))
    | no r ↦ rw (stack_entry n1 n2 t1 t2 ts k (omega arith)) (
        fresh_apart f2.kept (f2.fresh (j - n1) (omega arith) (omega arith))
          (Kept-refl m2 f2.kept.booted) (f3.fresh (k - (n1 + n2)) (omega arith) (omega arith)))
  ]

  pages_distinct :
      (j k : ℕ)
      → j < k
      → k < n1 + n2 + stack_pages
      → page_entry n1 n2 t1 t2 ts j ≢ page_entry n1 n2 t1 t2 ts k
  pages_distinct j k lt hi = elim (dec_lt j n1) [
    | yes p ↦ rw (text_entry n1 n2 t1 t2 ts j p) (text_apart j k lt p hi)
    | no p ↦ elim (dec_lt j (n1 + n2)) [
      | yes q ↦
          rw (data_entry n1 n2 t1 t2 ts j (omega arith) q) (data_apart j k lt (omega arith) q hi)
      | no q ↦
          rw
            (stack_entry n1 n2 t1 t2 ts j (omega arith), stack_entry n1 n2 t1 t2 ts k (omega arith))
            (f3.distinct (j - (n1 + n2)) (k - (n1 + n2)) (omega arith) (omega arith) (omega arith))
    ]
  ]

-- An address space whose text and data tables are allocated; kmalloc finds room for the stack table
-- and leaves the machine booted with a free frame for each page of text, data and stack. Then
-- as_prepare_load succeeds. The pages have different frames, each one was free, is now an
-- allocated block and holds zeros. Blocks allocated before stay so, and frames in use keep their bytes.
pub as_prepare_load-Loaded :
    (heap : Heap) (space : Addrspace) (m m1 : Machine) (t1 t2 ts : ℕ → ℕ)
    → space.as_ptable1 ≡ some t1
    → space.as_ptable2 ≡ some t2
    → heap.kmalloc (4 * stack_pages) m ≡ ok (some ts, m1)
    → IsBooted m1.memory
    → space.as_npages1 + space.as_npages2 + stack_pages ≤ free_count m1.memory
    → (space' : Addrspace) × (m' : Machine) × (t1' t2' ts' : ℕ → ℕ) × (as_prepare_load heap space m
        ≡ ok (0, space', m'))
      × Loaded m1 m' space space' t1' t2' ts'
unfolding as_prepare_load fill_tables
as_prepare_load-Loaded heap space m m1 t1 t2 ts e1 e2 got booted enough =
    let (t1', ma, r1, f1) = fill_table_lem space.as_npages1 0 t1 m1 booted (omega arith) in
    let (t2', mb, r2, f2) =
      fill_table_lem space.as_npages2 0 t2 ma f1.kept.booted (omega (arith, f1.frees)) in
    let (ts', mc, r3, f3) =
      fill_table_lem stack_pages 0 ts mb f2.kept.booted (omega (arith, f1.frees, f2.frees)) in
    (
      record space { as_ptable1 = some t1'; as_ptable2 = some t2'; as_stackptable = some ts' },
      mc,
      t1',
      t2',
      ts',
      rw (got, e1, e2, r1, r2, r3) refl,
      record {
        tables = refl;
        kept = Kept-trans f1.kept (Kept-trans f2.kept f3.kept);
        fresh = pages_fresh booted f1 f2 f3;
        distinct = pages_distinct booted f1 f2 f3;
      },
    )
