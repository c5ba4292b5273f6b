-- ===== src/Proc/Table.antt =====
-- The process table of kern/proc/proc.c and kern/include/proc.h: creation and destruction of processes.
use os.Base.{
  ℕ, ◌+◌, ◌-◌, Bool, true, false, if◌then◌else◌, ltb, ◌==◌, Option, none, some, List, [], ◌∷◌,
  Result, ok, panic, fault, ◌>>=◌, ◌>>◌, kassert, update,
}

-- `struct proc`. The array of threads is a list, and NULL is `none`.
pub record Process : Type 0 where
  pub pid : ℕ
  pub count_child : ℕ
  pub child_array : ℕ → ℕ
  pub is_alive : Bool
  pub code : ℕ
  pub status : ℕ
  pub p_addrspace : Option ℕ
  pub p_threads : List ℕ

-- The static variables of proc.c, the processes in memory by address, and `t_proc` of every thread.
-- Addresses are handed out in order.
pub record Kernel : Type 0 where
  pub procs : ℕ → Option Process
  pub next_proc : ℕ
  pub counter_pid : ℕ
  pub proc_table : ℕ → Option ℕ
  pub exit_table : ℕ → ℕ
  pub alive_table : ℕ → Bool
  pub proc_count : ℕ
  pub no_proc_sem : ℕ
  pub t_proc : ℕ → Option ℕ

-- A pointer to a process that was freed, or NULL, is a fault.
unfoldable pub load : ℕ → Kernel → Result Process
load proc k = elim (k.procs proc) [ none ↦ fault | some p ↦ ok p ]

unfoldable pub save : ℕ → Process → Kernel → Kernel
save proc p k = record k { procs = update k.procs proc (some p) }

-- `a[i]` in an array of 64 entries.
unfoldable pub in_table : ℕ → Result (Unit {0})
in_table i = if ltb i 64 then ok tt else fault

-- The fields that proc_create leaves to kmalloc are 0 here.
abbrev pub fresh_process : Process
fresh_process = record {
  pid = 0;
  count_child = 0;
  child_array = λ _. 0;
  is_alive = false;
  code = 0;
  status = 0;
  p_addrspace = none;
  p_threads = [];
}

-- proc_create: `memory` tells whether both allocations succeed.
unfoldable pub proc_create : Bool → Kernel → Kernel × Option ℕ
unfolding save
proc_create memory k =
    if memory
    then (
      record (save k.next_proc fresh_process k) { next_proc = k.next_proc + 1 },
      some k.next_proc,
    )
    else (k, none)

-- proc_bootstrap: the kernel's own process and empty tables.
unfoldable pub proc_bootstrap : Bool → Kernel → Result (Kernel × ℕ)
unfolding proc_create
proc_bootstrap memory k =
    let (k', kproc) = proc_create memory k in
    elim kproc [
      | none ↦ panic
      | some proc ↦ ok (
        record k' {
          proc_count = 0;
          no_proc_sem = 0;
          counter_pid = 2;
          alive_table = λ i. if ltb i 64 then true else k'.alive_table i;
        },
        proc,
      )
    ]

-- What the allocations of one call come to.
pub record Luck : Type 0 where
  pub proc_memory : Bool
  pub lock_memory : Bool
  pub cv_memory : Bool

-- `proc->pid = counter_pid; procTable[counter_pid - 2] = proc; counter_pid++;`
unfoldable pub take_pid : ℕ → Kernel → Result Kernel
unfolding load save in_table
take_pid proc k = do
  p ← load proc k
  in_table (k.counter_pid - 2)
  ok (record (save proc (record p { pid = k.counter_pid }) k) {
    proc_table = update k.proc_table (k.counter_pid - 2) (some proc);
    counter_pid = k.counter_pid + 1;
  })

-- The rest of proc_create_runprogram: the fields for the children, with the lock and the variable.
unfoldable pub set_children : Luck → ℕ → Kernel → Result (Kernel × Option ℕ)
unfolding load save
set_children luck proc k = do
  p ← load proc k
  kassert luck.lock_memory
  (if luck.cv_memory
      then ok (save proc (record p { count_child = 0; is_alive = true }) k, some proc)
      else ok (record k { procs = update k.procs proc none }, none))

unfoldable pub number_process : Luck → Kernel × Option ℕ → Result (Kernel × Option ℕ)
unfolding take_pid set_children
number_process luck (k, none) = ok (k, none)
number_process luck (k, some proc) = do
  k' ← take_pid proc (record k { proc_count = k.proc_count + 1 })
  set_children luck proc k'

unfoldable pub proc_create_runprogram : Luck → Kernel → Result (Kernel × Option ℕ)
unfolding number_process proc_create
proc_create_runprogram luck k = number_process luck (proc_create luck.proc_memory k)

-- `cv_destroy(procTable[proc->pid - 2]->cv_child)`: the entry is followed to a process in memory.
unfoldable pub follow : Option ℕ → Kernel → Result ℕ
unfolding load
follow none k = fault
follow (some proc) k = load proc k >>= λ _. ok proc

unfoldable pub cv_of : ℕ → Kernel → Result ℕ
unfolding follow in_table
cv_of index k = in_table index >> follow (k.proc_table index) k

is_empty : List ℕ → Bool
is_empty [] = true
is_empty (t ∷ ts) = false

-- `proc_count--`, and V(no_proc_sem) for the last process.
unfoldable pub uncount : Kernel → Result Kernel
uncount k = do
  kassert (ltb 0 k.proc_count)
  let left = k.proc_count - 1
  ok (record k {
    proc_count = left;
    no_proc_sem = if left == 0 then k.no_proc_sem + 1 else k.no_proc_sem;
  })

-- proc_destroy of a process that is not kproc.
unfoldable pub proc_destroy : ℕ → Kernel → Result Kernel
unfolding load cv_of is_empty uncount
proc_destroy proc k = do
  p ← load proc k
  _ ← cv_of (p.pid - 2) k
  kassert (is_empty p.p_threads)
  uncount (record k { procs = update k.procs proc none })
