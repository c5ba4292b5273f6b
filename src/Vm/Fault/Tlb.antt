-- ===== src/Vm/Fault/Tlb.antt =====
-- What vm_fault and as_activate of kern/arch/mips/vm/dumbvm.c do to the TLB.
use os.Base.{
  ◌>>=◌, ℕ, zero, suc, ◌+◌, ◌*◌, ◌^◌, ◌≤◌, ◌<◌, ◌≡◌, ◌≢◌, ◌⊎◌, inl, inr, refl, Bool, true, false,
  Option, none, some, ltb, leb, arith, ok, efault, einval, update, ==-false, ==_iff, Bool-cases,
  ◌&&◌, ◌==◌, if◌then◌else◌, ℕ_discrete,
}
use os.Vm.Coremap.{page_size}
use os.Vm.Addrspace.{Addrspace, page_align, user_stack}
use os.Vm.Fault.{
  TlbEntry, num_tlb, tlblo_dirty, tlblo_valid, is_valid, vm_fault_readonly, ex_mod, stack_base,
  find_invalid, tlb_put, tlb_entry, load_tlb, translate, handle_fault, vm_fault, invalidate,
  as_activate,
}
use os.Vm.Fault.Region.{
  Layout, Page, set_up, text-Page, translate-Page, translate_outside, Page-aligned,
}

-- What the loop over the TLB finds from index `i` on.
abbrev Scanned : (ℕ → TlbEntry) → (left i : ℕ) → Option ℕ → Type 0
Scanned tlb left i none = (j : ℕ) → i ≤ j → j < i + left → is_valid (tlb j) ≡ true
Scanned tlb left i (some r) = (i ≤ r) × (r < i + left) × (is_valid (tlb r) ≡ false)

Scanned-later :
    (tlb : ℕ → TlbEntry) (left i : ℕ) (o : Option ℕ)
    → is_valid (tlb i) ≡ true
    → Scanned tlb left (i + 1) o
    → Scanned tlb (suc left) i o
Scanned-later tlb left i none here later = λ j lo hi. elim (ℕ_discrete i j) [
  | yes e ↦ rw (← e) here
  | no ne ↦ later j (omega arith) (omega arith)
]
Scanned-later tlb left i (some r) here (lo, hi, free) = (omega arith, omega arith, free)

find_invalid-Scanned :
    (tlb : ℕ → TlbEntry) (left i : ℕ) → Scanned tlb left i (find_invalid left i tlb)
unfolding find_invalid
find_invalid-Scanned tlb zero i = λ j lo hi. absurd (omega arith)
find_invalid-Scanned tlb (suc left) i = elim (Bool-cases (is_valid (tlb i))) [
  | inl used ↦ rw used (Scanned-later tlb left i _ used (find_invalid-Scanned tlb left (i + 1)))
  | inr free ↦ rw free (omega arith, omega arith, free)
]

-- The TLB `tlb'` is `tlb` but for the entry `e` at `slot`, which takes the place of an entry that was
-- not valid if there was one.
pub record InTlb (tlb tlb' : ℕ → TlbEntry) (e : TlbEntry) : Type 0 where
  pub slot : ℕ
  pub in_range : slot < num_tlb
  pub entry : tlb' slot ≡ e
  pub others : (j : ℕ) → j ≢ slot → tlb' j ≡ tlb j
  pub evicts : (j : ℕ) → j < num_tlb → is_valid (tlb j) ≡ false → is_valid (tlb slot) ≡ false

tlb_put-InTlb :
    (victim : ℕ) (e : TlbEntry) (tlb : ℕ → TlbEntry)
    → victim < num_tlb
    → (o : Option ℕ) → Scanned tlb num_tlb 0 o
    → InTlb tlb (tlb_put victim o e tlb) e
unfolding tlb_put
tlb_put-InTlb victim e tlb lt none full = record {
  slot = victim;
  in_range = lt;
  entry = ground arith;
  others = λ j ne. ground arith;
  evicts = λ j lt' free. ground (arith, full j (omega arith) lt');
}
tlb_put-InTlb victim e tlb lt (some r) (lo, hi, free) = record {
  slot = r;
  in_range = hi;
  entry = ground arith;
  others = λ j ne. ground arith;
  evicts = λ j lt' free'. free;
}

vm_fault-handle_fault :
    (victim : ℕ) (o : Option Addrspace) (faulttype va : ℕ) (tlb : ℕ → TlbEntry)
    → faulttype < vm_fault_readonly
    → vm_fault victim o faulttype va tlb ≡ handle_fault victim o (page_align va) tlb
unfolding vm_fault
vm_fault-handle_fault victim o faulttype va tlb lt = elim (ℕ_discrete faulttype 0) [
  | yes e ↦ rw e refl
  | no ne ↦ let e : faulttype ≡ 1 = omega arith in rw e refl
]

module _ {space : Addrspace} {t1 t2 ts : ℕ → ℕ} (l : Layout space t1 t2 ts) where
  handle_fault-load_tlb :
      (victim a : ℕ) (tlb : ℕ → TlbEntry)
      → handle_fault victim (some space) a tlb
        ≡ (translate space a >>= λ paddr. load_tlb victim space a paddr tlb)
  unfolding handle_fault
  handle_fault-load_tlb victim a tlb = rw (set_up l) refl

  -- The address space is set up (its regions are apart and below the stack, its frames aligned). A
  -- read or write fault at an address in one of its pages succeeds: the TLB gets one entry, for that
  -- page and its frame, valid, and writable unless the page is text and the program is loaded. No
  -- other entry changes, and the one it replaces was not valid if any was not.
  pub vm_fault-Page :
      {a paddr : ℕ} {text : Bool}
      → Page space t1 t2 ts a paddr text
      → (victim faulttype va : ℕ) (tlb : ℕ → TlbEntry) → victim < num_tlb
      → faulttype < vm_fault_readonly
      → page_align va ≡ a
      → (tlb' : ℕ → TlbEntry) × (vm_fault victim (some space) faulttype va tlb ≡ ok (0, tlb'))
        × InTlb tlb tlb' (record {
          ehi = a;
          elo =
              if text && (space.load_code_done == 1)
              then paddr + tlblo_valid
              else paddr + tlblo_dirty + tlblo_valid;
        })
  unfolding load_tlb tlb_entry
  vm_fault-Page {a} {paddr} {text} p victim faulttype va tlb lt kind same = (
    tlb_put victim (find_invalid num_tlb 0 tlb) (tlb_entry space a paddr) tlb,
    rw
        (
          vm_fault-handle_fault victim (some space) faulttype va tlb kind,
          same,
          handle_fault-load_tlb victim a tlb,
          translate-Page l p,
          (==_iff (page_align paddr) paddr).1 (Page-aligned l p).1,
        )
        refl,
    rw (← text-Page l p) (tlb_put-InTlb victim _ tlb lt _ (find_invalid-Scanned tlb num_tlb 0)),
  )

  -- A write to a page that the TLB has read-only gives EX_MOD, an unknown fault EINVAL, a fault
  -- without an address space EFAULT; and, the address space being set up, so does a read or write
  -- fault at an address whose page is in none of the regions. The TLB is left as it was.
  pub vm_fault_refused :
      (victim va : ℕ) (tlb : ℕ → TlbEntry)
      → (vm_fault victim (some space) vm_fault_readonly va tlb ≡ ok (ex_mod, tlb))
        × ((faulttype : ℕ)
            → vm_fault_readonly < faulttype
            → vm_fault victim (some space) faulttype va tlb ≡ ok (einval, tlb))
        × ((faulttype : ℕ)
            → faulttype < vm_fault_readonly
            → (vm_fault victim none faulttype va tlb ≡ ok (efault, tlb))
              × ((page_align va < space.as_vbase1)
                    ⊎ (space.as_vbase1 + space.as_npages1 * page_size ≤ page_align va)
                  → (page_align va < space.as_vbase2)
                    ⊎ (space.as_vbase2 + space.as_npages2 * page_size ≤ page_align va)
                  → (page_align va < stack_base) ⊎ (user_stack ≤ page_align va)
                  → vm_fault victim (some space) faulttype va tlb ≡ ok (efault, tlb)))
  unfolding vm_fault handle_fault load_tlb
  vm_fault_refused victim va tlb = (
    refl,
    λ ty hi.
        rw (==-false ty 2 (omega arith), ==-false ty 0 (omega arith), ==-false ty 1 (omega arith))
          refl,
    λ ty lt. (
      rw (vm_fault-handle_fault victim none ty va tlb lt) refl,
      λ o1 o2 o3.
          rw
            (
              vm_fault-handle_fault victim (some space) ty va tlb lt,
              handle_fault-load_tlb victim (page_align va) tlb,
              translate_outside l (page_align va) o1 o2 o3,
            )
            refl,
    ),
  )

invalidate_lem :
    (left i : ℕ) (tlb : ℕ → TlbEntry) (j : ℕ)
    → invalidate left i tlb j ≡ (
        if leb i j && ltb j (i + left)
        then record { ehi = (0x80000 + j) * 2 ^ 12; elo = 0 }
        else tlb j)
unfolding invalidate
invalidate_lem zero i tlb j = ground arith
invalidate_lem (suc left) i tlb j =
    rw (invalidate_lem left (i + 1) (update tlb i _) j) (ground arith)

-- as_activate of an address space leaves no valid entry in the TLB and no two entries for the same
-- page, whatever was in it; without an address space it changes nothing.
pub as_activate_lem :
    (space : Addrspace) (tlb : ℕ → TlbEntry)
    → ((j : ℕ)
        → j < num_tlb
        → (is_valid (as_activate (some space) tlb j) ≡ false)
          × ((k : ℕ)
              → k < num_tlb
              → (as_activate (some space) tlb j).ehi ≡ (as_activate (some space) tlb k).ehi
              → j ≡ k))
      × (as_activate none tlb ≡ tlb)
unfolding as_activate
as_activate_lem space tlb =
    let cleared : (j : ℕ)
        → j < num_tlb
        → (invalidate num_tlb 0 tlb j).ehi ≡ (0x80000 + j) * 2 ^ 12 =
      λ j lt. rw (invalidate_lem num_tlb 0 tlb j) (ground arith) in
    (
      λ j lt. (
        rw (invalidate_lem 64 0 tlb j) (ground arith),
        λ k lt' e. omega (arith, cleared j lt, cleared k lt', e),
      ),
      refl,
    )
