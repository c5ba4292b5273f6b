-- ===== src/Synch/Threadlist.antt =====
-- Doubly linked lists of threads: kern/thread/threadlist.c. A thread is named by the address of its list
-- node, 2 or more; the bookends of the list are the addresses 0 and 1. DEBUGASSERT checks nothing.
pub mod Links
pub mod Spine
pub mod Laws
use os.Base.{
  ℕ, zero, suc, ◌+◌, ◌-◌, ◌%◌, ◌^◌, Bool, true, false, ◌&&◌, Option, none, some, ◌==◌,
  if◌then◌else◌, update, Result, ok, panic, fault, ◌>>=◌, ◌>>◌, kassert,
}

abbrev pub tl_head : ℕ
tl_head = 0

abbrev pub tl_tail : ℕ
tl_tail = 1

-- `struct threadlist` and the nodes: `tln_next` and `tln_prev` of each, `none` for NULL.
pub record Threadlist : Type 0 where
  pub tln_next : ℕ → Option ℕ
  pub tln_prev : ℕ → Option ℕ
  pub tl_count : ℕ

-- threadlistnode_init and threadlistnode_cleanup of node `t`
pub threadlistnode_init : Threadlist → ℕ → Threadlist
threadlistnode_init s t = record s {
  tln_next = update s.tln_next t none;
  tln_prev = update s.tln_prev t none;
}

abbrev pub is_null : Option ℕ → Bool
is_null none = true
is_null (some p) = false

pub threadlistnode_cleanup : Threadlist → ℕ → Result Threadlist
threadlistnode_cleanup s t =
    kassert (is_null (s.tln_next t)) >> kassert (is_null (s.tln_prev t)) >> ok s

pub threadlist_init : Threadlist → Threadlist
threadlist_init s = record {
  tln_next = update (update s.tln_next tl_head (some tl_tail)) tl_tail none;
  tln_prev = update (update s.tln_prev tl_head none) tl_tail (some tl_head);
  tl_count = 0;
}

unfoldable pub threadlist_isempty : Threadlist → Bool
threadlist_isempty s = s.tl_count == 0

pub threadlist_cleanup : Threadlist → Result Threadlist
unfolding threadlist_isempty
threadlist_cleanup s = kassert (threadlist_isempty s) >> kassert (s.tl_count == 0) >> ok s

-- `p->tln_next = q` and `p->tln_prev = q` through a pointer
abbrev pub set_next : Option ℕ → Option ℕ → Threadlist → Result Threadlist
set_next none q s = fault
set_next (some p) q s = ok (record s { tln_next = update s.tln_next p q })

abbrev pub set_prev : Option ℕ → Option ℕ → Threadlist → Result Threadlist
set_prev none q s = fault
set_prev (some p) q s = ok (record s { tln_prev = update s.tln_prev p q })

-- The last two writes of an insertion, through the links of the new node.
pub link_in : ℕ → Threadlist → Result Threadlist
link_in addee s = set_next (s.tln_prev addee) (some addee) s >>= λ s'.
    set_prev (s'.tln_next addee) (some addee) s'

pub threadlist_insertafternode : (onlist t : ℕ) → Threadlist → Result Threadlist
unfolding link_in
threadlist_insertafternode onlist t s =
    let s1 : Threadlist = record s { tln_prev = update s.tln_prev t (some onlist) } in
    link_in t (record s1 { tln_next = update s1.tln_next t (s1.tln_next onlist) })

pub threadlist_insertbeforenode : (t onlist : ℕ) → Threadlist → Result Threadlist
unfolding link_in
threadlist_insertbeforenode t onlist s =
    let s1 : Threadlist = record s { tln_prev = update s.tln_prev t (s.tln_prev onlist) } in
    link_in t (record s1 { tln_next = update s1.tln_next t (some onlist) })

pub threadlist_removenode : ℕ → Threadlist → Result Threadlist
threadlist_removenode t s = set_next (s.tln_prev t) (s.tln_next t) s >>= λ s1.
    set_prev (s1.tln_next t) (s1.tln_prev t) s1 >>= λ s2.
    ok (record s2 { tln_prev = update s2.tln_prev t none; tln_next = update s2.tln_next t none })

-- `tl_count++` and `tl_count--` on an unsigned int
abbrev pub count_up : Threadlist → Threadlist
count_up s = record s { tl_count = (s.tl_count + 1) % 2 ^ 32 }

abbrev pub count_down : Threadlist → Threadlist
count_down s = record s { tl_count = (s.tl_count + 2 ^ 32 - 1) % 2 ^ 32 }

pub threadlist_addhead : Threadlist → ℕ → Result Threadlist
unfolding threadlist_insertafternode
threadlist_addhead s t = threadlist_insertafternode tl_head t s >>= λ s'. ok (count_up s')

pub threadlist_addtail : Threadlist → ℕ → Result Threadlist
unfolding threadlist_insertbeforenode
threadlist_addtail s t = threadlist_insertbeforenode t tl_tail s >>= λ s'. ok (count_up s')

pub threadlist_insertafter : Threadlist → (onlist addee : ℕ) → Result Threadlist
unfolding threadlist_insertafternode
threadlist_insertafter s onlist addee =
    threadlist_insertafternode onlist addee s >>= λ s'. ok (count_up s')

pub threadlist_insertbefore : Threadlist → (addee onlist : ℕ) → Result Threadlist
unfolding threadlist_insertbeforenode
threadlist_insertbefore s addee onlist =
    threadlist_insertbeforenode addee onlist s >>= λ s'. ok (count_up s')

pub threadlist_remove : Threadlist → ℕ → Result Threadlist
unfolding threadlist_removenode
threadlist_remove s t = threadlist_removenode t s >>= λ s'. ok (count_down s')

-- The removal at an end: `tln` is the node there, and `beyond` its link outwards.
pub remove_end : (tln : ℕ) → (beyond : Option ℕ) → Threadlist → Result (Option ℕ × Threadlist)
unfolding threadlist_removenode
remove_end tln none s = ok (none, s)
remove_end tln (some p) s = threadlist_removenode tln s >>= λ s'. ok (some tln, count_down s')

-- `tln` is what the bookend points to.
pub remove_first : Option ℕ → Threadlist → Result (Option ℕ × Threadlist)
unfolding remove_end
remove_first none s = fault
remove_first (some tln) s = remove_end tln (s.tln_next tln) s

pub remove_last : Option ℕ → Threadlist → Result (Option ℕ × Threadlist)
unfolding remove_end
remove_last none s = fault
remove_last (some tln) s = remove_end tln (s.tln_prev tln) s

pub threadlist_remhead : Threadlist → Result (Option ℕ × Threadlist)
unfolding remove_first
threadlist_remhead s = remove_first (s.tln_next tl_head) s

pub threadlist_remtail : Threadlist → Result (Option ℕ × Threadlist)
unfolding remove_last
threadlist_remtail s = remove_last (s.tln_prev tl_tail) s
