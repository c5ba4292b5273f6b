-- ===== src/Vm/Fault/Region.antt =====
-- Which frame a page of an address space has, by the tests of vm_fault
-- (kern/arch/mips/vm/dumbvm.c).
use os.Base.{
  ℕ, ◌+◌, ◌-◌, ◌*◌, ◌/◌, ◌%◌, ◌≤◌, ◌<◌, ◌≡◌, ◌⊎◌, ap, Bool, true, false, none, some, ok, lt→ltb,
  arith,
}
use os.Vm.Coremap.{page_size}
use os.Vm.Addrspace.{Addrspace, page_align, stack_pages, user_stack}
use os.Vm.Fault.{stack_base, in_region, frame_of, is_set_up, translate}

-- An address space that is set up, with its three tables: regions that start at a page, lie below the
-- stack and share no page, and frames that start at a multiple of the page size.
pub record Layout (space : Addrspace) (t1 t2 ts : ℕ → ℕ) : Type 0 where
  pub table1 : space.as_ptable1 ≡ some t1
  pub table2 : space.as_ptable2 ≡ some t2
  pub table_stack : space.as_stackptable ≡ some ts
  pub base1 : 0 < space.as_vbase1
  pub base2 : 0 < space.as_vbase2
  pub pages1 : 0 < space.as_npages1
  pub pages2 : 0 < space.as_npages2
  pub aligned1 : page_align space.as_vbase1 ≡ space.as_vbase1
  pub aligned2 : page_align space.as_vbase2 ≡ space.as_vbase2
  pub below1 : space.as_vbase1 + space.as_npages1 * page_size ≤ stack_base
  pub below2 : space.as_vbase2 + space.as_npages2 * page_size ≤ stack_base
  pub apart :
      (space.as_vbase1 + space.as_npages1 * page_size ≤ space.as_vbase2)
      ⊎ (space.as_vbase2 + space.as_npages2 * page_size ≤ space.as_vbase1)
  pub frame1 : (k : ℕ) → page_align (t1 k) ≡ t1 k
  pub frame2 : (k : ℕ) → page_align (t2 k) ≡ t2 k
  pub frame_stack : (k : ℕ) → page_align (ts k) ≡ ts k

-- The pages of an address space: the address of each, its frame and whether it is text.
pub data Page (space : Addrspace) (t1 t2 ts : ℕ → ℕ) : (a paddr : ℕ) → (text : Bool) → Type 0 where
  text_page :
      (k : ℕ)
      → k < space.as_npages1
      → Page space t1 t2 ts (space.as_vbase1 + k * page_size) (t1 k) true
  data_page :
      (k : ℕ)
      → k < space.as_npages2
      → Page space t1 t2 ts (space.as_vbase2 + k * page_size) (t2 k) false
  stack_page :
      (k : ℕ) → k < stack_pages → Page space t1 t2 ts (stack_base + k * page_size) (ts k) false

frame_of_page :
    (t : ℕ → ℕ) (base k : ℕ)
    → k * page_size < 2147483648
    → frame_of (some t) (base + k * page_size - base) ≡ ok (some (t k))
frame_of_page t base k small =
    let positive = lt→ltb (base + k * page_size - base) 2147483648 (omega arith) in
    let index : (base + k * page_size - base) / page_size ≡ k = omega arith in
    let offset : (base + k * page_size - base) % page_size ≡ 0 = omega arith in
    let same : t k + 0 ≡ t k = omega arith in rw (positive, index, offset) (ap ok (ap some same))

in_region-true :
    (base n a : ℕ)
    → base + n * page_size ≤ stack_base
    → base ≤ a
    → a < base + n * page_size
    → in_region base n a ≡ true
in_region-true base n a below lo hi = ground arith

in_region-false :
    (base n a : ℕ)
    → base + n * page_size ≤ stack_base
    → (a < base) ⊎ (base + n * page_size ≤ a)
    → in_region base n a ≡ false
in_region-false base n a below out = ground arith

module _ {space : Addrspace} {t1 t2 ts : ℕ → ℕ} (l : Layout space t1 t2 ts) where
  pub set_up : is_set_up space ≡ true
  unfolding is_set_up
  set_up =
      rw (l.table1, l.table2, l.table_stack)
        (ground (arith, l.base1, l.base2, l.pages1, l.pages2, l.aligned1, l.aligned2))

  -- Whether an address is in the text region.
  pub text-Page :
      {a paddr : ℕ} {text : Bool}
      → Page space t1 t2 ts a paddr text
      → in_region space.as_vbase1 space.as_npages1 a ≡ text
  text-Page (text_page k lt) = in_region-true _ _ _ l.below1 (omega arith) (omega arith)
  text-Page (data_page k lt) = in_region-false _ _ _ l.below1 (omega (arith, l.apart))
  text-Page (stack_page k lt) = in_region-false _ _ _ l.below1 (omega (arith, l.below1))

  pub translate-Page :
      {a paddr : ℕ} {text : Bool}
      → Page space t1 t2 ts a paddr text
      → translate space a ≡ ok (some paddr)
  unfolding translate
  translate-Page (text_page k lt) =
      rw (text-Page (text_page k lt), l.table1)
        (frame_of_page t1 space.as_vbase1 k (omega (arith, l.below1)))
  translate-Page (data_page k lt) =
      rw
        (
          text-Page (data_page k lt),
          in_region-true space.as_vbase2 _ (space.as_vbase2 + k * page_size) l.below2 (omega arith)
              (omega arith),
          l.table2,
        )
        (frame_of_page t2 space.as_vbase2 k (omega (arith, l.below2)))
  translate-Page (stack_page k lt) =
      rw
        (
          text-Page (stack_page k lt),
          in_region-false space.as_vbase2 _ (stack_base + k * page_size) l.below2
              (omega (arith, l.below2)),
          l.table_stack,
        )
        (rw (frame_of_page ts stack_base k (omega arith)) (ground arith))

  -- An address in no region.
  pub translate_outside :
      (a : ℕ)
      → (a < space.as_vbase1) ⊎ (space.as_vbase1 + space.as_npages1 * page_size ≤ a)
      → (a < space.as_vbase2) ⊎ (space.as_vbase2 + space.as_npages2 * page_size ≤ a)
      → (a < stack_base) ⊎ (user_stack ≤ a)
      → translate space a ≡ ok none
  unfolding translate
  translate_outside a out1 out2 out3 =
      rw (in_region-false _ _ _ l.below1 out1, in_region-false _ _ _ l.below2 out2) (ground arith)

  pub Page-aligned :
      {a paddr : ℕ} {text : Bool}
      → Page space t1 t2 ts a paddr text
      → (page_align a ≡ a) × (page_align paddr ≡ paddr) × (a < user_stack)
  Page-aligned (text_page k lt) = (omega (arith, l.aligned1), l.frame1 k, omega (arith, l.below1))
  Page-aligned (data_page k lt) = (omega (arith, l.aligned2), l.frame2 k, omega (arith, l.below2))
  Page-aligned (stack_page k lt) = (omega arith, l.frame_stack k, omega arith)
