-- ===== src/Vm/Fault.antt =====
-- Address translation: vm_fault and as_activate of kern/arch/mips/vm/dumbvm.c with OPT_A3, over the
-- TLB of kern/arch/mips/include/tlb.h.
pub mod Region
pub mod Tlb
use os.Base.{
  true, ◌||◌, false, ℕ, zero, suc, ◌+◌, ◌-◌, ◌*◌, ◌/◌, ◌%◌, ◌^◌, Option, none, some, ltb, leb, ◌==◌,
  ◌&&◌, not, Bool, if◌then◌else◌, update, Result, ok, err, panic, fault, ◌>>=◌, ◌>>◌, kassert,
  efault, einval,
}
use os.Vm.Coremap.{page_size}
use os.Vm.Addrspace.{Addrspace, page_align, stack_pages, user_stack}

-- `ehi` and `elo`
pub record TlbEntry : Type 0 where
  pub ehi : ℕ
  pub elo : ℕ

-- NUM_TLB
abbrev pub num_tlb : ℕ
num_tlb = 64

-- TLBLO_DIRTY and TLBLO_VALID
abbrev pub tlblo_dirty : ℕ
tlblo_dirty = 0x400

abbrev pub tlblo_valid : ℕ
tlblo_valid = 0x200

-- `elo & TLBLO_VALID`
abbrev pub is_valid : TlbEntry → Bool
is_valid e = e.elo / tlblo_valid % 2 == 1

-- VM_FAULT_READ, VM_FAULT_WRITE, VM_FAULT_READONLY and EX_MOD
abbrev pub vm_fault_read : ℕ
vm_fault_read = 0

abbrev pub vm_fault_write : ℕ
vm_fault_write = 1

abbrev pub vm_fault_readonly : ℕ
vm_fault_readonly = 2

abbrev pub ex_mod : ℕ
ex_mod = 1

-- The assertions that the address space has been set up.
abbrev pub is_table : Option (ℕ → ℕ) → Bool
is_table none = false
is_table (some t) = true

unfoldable pub is_set_up : Addrspace → Bool
is_set_up space =
    not (space.as_vbase1 == 0)
    && (not (space.as_npages1 == 0)
        && (not (space.as_vbase2 == 0)
            && (not (space.as_npages2 == 0)
                && (is_table space.as_ptable1
                    && (is_table space.as_ptable2
                        && (is_table space.as_stackptable
                            && ((page_align space.as_vbase1 == space.as_vbase1)
                                && (page_align space.as_vbase2 == space.as_vbase2))))))))

-- `vbase <= faultaddress < vtop`, with the top of `npages` pages in 32 bits
abbrev pub in_region : (vbase npages a : ℕ) → Bool
in_region vbase npages a = leb vbase a && ltb a ((vbase + npages * page_size) % 2 ^ 32)

-- `table[offset / PAGE_SIZE].frameNumber + offset % PAGE_SIZE`. The offset is an int: from 2^31 on it is
-- negative, and the index lies before the table.
abbrev pub frame_of : Option (ℕ → ℕ) → (offset : ℕ) → Result (Option ℕ)
frame_of none offset = fault
frame_of (some t) offset =
    if ltb offset 2147483648 then ok (some (t (offset / page_size) + offset % page_size)) else fault

abbrev pub stack_base : ℕ
stack_base = user_stack - stack_pages * page_size

-- The chain of tests over the three regions; `none` is an address in none of them.
unfoldable pub translate : Addrspace → ℕ → Result (Option ℕ)
translate space a =
    if in_region space.as_vbase1 space.as_npages1 a
    then frame_of space.as_ptable1 (a - space.as_vbase1)
    else if in_region space.as_vbase2 space.as_npages2 a
    then frame_of space.as_ptable2 (a - space.as_vbase2)
    else if leb stack_base a && ltb a user_stack
    then frame_of space.as_stackptable (a - stack_base)
    else ok none

-- The entry for a page; `paddr` is a multiple of the page size, so `|` with the bits is `+`.
unfoldable pub tlb_entry : Addrspace → (a paddr : ℕ) → TlbEntry
tlb_entry space a paddr = record {
  ehi = a;
  elo =
      if in_region space.as_vbase1 space.as_npages1 a && (space.load_code_done == 1)
      then paddr + tlblo_valid
      else paddr + tlblo_dirty + tlblo_valid;
}

-- The loop over the TLB: the first entry that is not valid.
pub find_invalid : (left i : ℕ) → (ℕ → TlbEntry) → Option ℕ
find_invalid zero i tlb = none
find_invalid (suc left) i tlb = if is_valid (tlb i) then find_invalid left (i + 1) tlb else some i

-- tlb_write at that index, or tlb_random, which replaces the entry `victim`
pub tlb_put : (victim : ℕ) → Option ℕ → TlbEntry → (ℕ → TlbEntry) → ℕ → TlbEntry
tlb_put victim none e tlb = update tlb victim e
tlb_put victim (some i) e tlb = update tlb i e

pub load_tlb :
    (victim : ℕ) → Addrspace → (a : ℕ) → Option ℕ → (ℕ → TlbEntry) → Result (ℕ × (ℕ → TlbEntry))
unfolding tlb_put find_invalid tlb_entry
load_tlb victim space a none tlb = ok (efault, tlb)
load_tlb victim space a (some paddr) tlb =
    kassert (page_align paddr == paddr)
    >> ok (0, tlb_put victim (find_invalid num_tlb 0 tlb) (tlb_entry space a paddr) tlb)

-- What follows the switch; `none` is no process or no address space.
pub handle_fault :
    (victim : ℕ) → Option Addrspace → ℕ → (ℕ → TlbEntry) → Result (ℕ × (ℕ → TlbEntry))
unfolding is_set_up load_tlb translate
handle_fault victim none a tlb = ok (efault, tlb)
handle_fault victim (some space) a tlb =
    kassert (is_set_up space) >> (translate space a >>= λ paddr. load_tlb victim space a paddr tlb)

-- The error code and the TLB that the fault leaves. `victim` is the index that the processor picks.
pub vm_fault :
    (victim : ℕ)
    → Option Addrspace
    → (faulttype faultaddress : ℕ) → (ℕ → TlbEntry)
    → Result (ℕ × (ℕ → TlbEntry))
unfolding handle_fault
vm_fault victim space faulttype faultaddress tlb =
    let a = page_align faultaddress in
    if faulttype == vm_fault_readonly
    then ok (ex_mod, tlb)
    else if (faulttype == vm_fault_read) || (faulttype == vm_fault_write)
    then handle_fault victim space a tlb
    else ok (einval, tlb)

-- The loop of as_activate, `left` rounds before its end.
pub invalidate : (left i : ℕ) → (ℕ → TlbEntry) → ℕ → TlbEntry
invalidate zero i tlb = tlb
invalidate (suc left) i tlb =
    invalidate left (i + 1) (update tlb i (record { ehi = (0x80000 + i) * 2 ^ 12; elo = 0 }))

pub as_activate : Option Addrspace → (ℕ → TlbEntry) → ℕ → TlbEntry
unfolding invalidate
as_activate none tlb = tlb
as_activate (some space) tlb = invalidate num_tlb 0 tlb
