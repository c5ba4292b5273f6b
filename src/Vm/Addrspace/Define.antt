-- ===== src/Vm/Addrspace/Define.antt =====
-- as_define_region of kern/arch/mips/vm/dumbvm.c: the pages of a region, and how many regions there are.
use os.Base.{ℕ, ◌+◌, ◌*◌, ◌%◌, ◌^◌, ◌≤◌, ◌<◌, ◌≡◌, refl, Option, ok, eunimp, arith, ==-false}
use os.Vm.Coremap.{page_size}
use os.Vm.Addrspace.{
  Addrspace, Machine, Heap, as_create, page_align, region_pages, first_region, second_region,
  as_define_region,
}

-- The `npages` pages from `base` on are those that the bytes from `vaddr` to `vaddr + sz` lie in.
pub record Covers (base npages vaddr sz : ℕ) : Type 0 where
  pub aligned : page_align base ≡ base
  pub starts : (base ≤ vaddr) × (vaddr < base + page_size)
  pub reaches : vaddr + sz ≤ base + npages * page_size
  pub tight : base + npages * page_size < vaddr + sz + page_size

region_pages-Covers :
    (vaddr sz : ℕ)
    → vaddr + sz + page_size ≤ 2 ^ 32
    → Covers (page_align vaddr) (region_pages vaddr sz) vaddr sz
unfolding region_pages
region_pages-Covers vaddr sz fits = record {
  aligned = omega arith;
  starts = omega arith;
  reaches = omega arith;
  tight = omega arith;
}

-- Three regions that end a page below 2^32, the first two not in page 0, in a new address space, where
-- kmalloc returns normally: the first becomes the text and the second the data region, each of the
-- pages that its bytes lie in and with the table that kmalloc returned; the third is refused with
-- EUNIMP and changes nothing.
pub as_define_region_three :
    (heap : Heap) (v1 sz1 v2 sz2 v3 sz3 : ℕ) (m m1 m2 : Machine) (t1 t2 : Option (ℕ → ℕ))
    → v1 + sz1 + page_size ≤ 2 ^ 32
    → v2 + sz2 + page_size ≤ 2 ^ 32
    → page_size ≤ v1
    → page_size ≤ v2
    → heap.kmalloc (4 * region_pages v1 sz1 % 2 ^ 32) m ≡ ok (t1, m1)
    → heap.kmalloc (4 * region_pages v2 sz2 % 2 ^ 32) m1 ≡ ok (t2, m2)
    → (s1 s2 : Addrspace) × (as_define_region heap as_create v1 sz1 m ≡ ok (0, s1, m1))
      × (as_define_region heap s1 v2 sz2 m1 ≡ ok (0, s2, m2))
      × (as_define_region heap s2 v3 sz3 m2 ≡ ok (eunimp, s2, m2))
      × Covers s2.as_vbase1 s2.as_npages1 v1 sz1
      × Covers s2.as_vbase2 s2.as_npages2 v2 sz2
      × (s2.as_ptable1 ≡ t1)
      × (s2.as_ptable2 ≡ t2)
unfolding as_define_region first_region second_region
as_define_region_three heap v1 sz1 v2 sz2 v3 sz3 m m1 m2 t1 t2 fits1 fits2 high1 high2 got1 got2 =
    let nz1 = ==-false (page_align v1) 0 (omega arith) in
    let nz2 = ==-false (page_align v2) 0 (omega arith) in
    (
      record as_create {
        as_vbase1 = page_align v1;
        as_npages1 = region_pages v1 sz1;
        as_ptable1 = t1;
      },
      record as_create {
        as_vbase1 = page_align v1;
        as_npages1 = region_pages v1 sz1;
        as_ptable1 = t1;
        as_vbase2 = page_align v2;
        as_npages2 = region_pages v2 sz2;
        as_ptable2 = t2;
      },
      rw got1 refl,
      rw (nz1, got2) refl,
      rw (nz1, nz2) refl,
      region_pages-Covers v1 sz1 fits1,
      region_pages-Covers v2 sz2 fits2,
      refl,
      refl,
    )
