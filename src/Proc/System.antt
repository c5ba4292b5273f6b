-- ===== src/Proc/System.antt =====
-- The processes of the system as they call fork, waitpid and _exit (kern/syscall/proc_syscalls.c). A
-- process has one thread, named by the process's address. The test of sys_waitpid and the records of
-- sys__exit are one step each since they hold lk_tb. sys_fork, the start of a process by the menu and the
-- end of sys__exit behind lk_tb are one step each as well, though they take no lock for the whole: what
-- other processes do in the middle of them is not modelled.
pub mod Effects
pub mod Fork
pub mod Listed
pub mod Inversion
pub mod Leaving
pub mod Invariant
pub mod Kept
pub mod Making
pub mod Sleeping
pub mod Steady
pub mod Results
pub mod Waiting
pub mod Progress
use os.Base.{
  ℕ, ◌+◌, ◌≡◌, Bool, true, false, if◌then◌else◌, ◌==◌, Option, none, some, Result, ok, update,
}
use os.Proc.Table.{Kernel, proc_bootstrap}
use os.Proc.Syscalls.{
  ForkLuck, Forked, Found, sleeps, exited, sys_fork, launch, curproc_setas, waitpid_check,
  waitpid_test, exit_record, exit_leave,
}

-- Where a process stands.
pub data Pc : Type 0 where
  absent : Pc  -- it was never started
  running : Pc  -- it runs other code
  checking : ℕ → Pc  -- in sys_waitpid for a pid, before the test under lk_tb
  asleep : ℕ → ℕ → Pc  -- in cv_wait, on a process's variable, for a pid
  returning : ℕ → ℕ → Pc  -- behind the loop of sys_waitpid, with a pid and the exit status
  exiting : ℕ → Pc  -- in sys__exit, past lk_tb, with the exit code
  gone : ℕ → Pc  -- destroyed

pub record System : Type 0 where
  pub kernel : Kernel
  pub pc : ℕ → Pc

-- cv_broadcast on the variable of `proc`, for one process.
unfoldable pub wake : ℕ → Pc → Pc
wake proc (asleep cv pid) = if cv == proc then checking pid else asleep cv pid
wake proc other = other

-- Behind the test of the while loop.
unfoldable pub after_test : ℕ → Found → Pc
after_test pid (sleeps proc) = asleep proc pid
after_test pid (exited status) = returning pid status

-- The child that a call started, by its error code.
unfoldable pub start_child : ℕ → ℕ → (ℕ → Pc) → ℕ → Pc
start_child child result pc = if result == 0 then update pc child running else pc

pub data Step (y : System) : System → Type 0 where
  launches :
      (luck : ForkLuck) (f : Forked)
      → launch luck y.kernel ≡ ok f
      → Step y (record { kernel = f.kernel; pc = start_child y.kernel.next_proc f.result y.pc })
  forks :
      (a : ℕ) (luck : ForkLuck) (f : Forked)
      → y.pc a ≡ running
      → sys_fork luck a y.kernel ≡ ok f
      → Step y (record { kernel = f.kernel; pc = start_child y.kernel.next_proc f.result y.pc })
  loads :
      (a : ℕ) (newas old : Option ℕ) (k : Kernel)
      → y.pc a ≡ running
      → curproc_setas a newas y.kernel ≡ ok (k, old)
      → Step y (record { kernel = k; pc = y.pc })
  waits :
      (a pid status options : ℕ)
      → y.pc a ≡ running
      → waitpid_check a pid status options y.kernel ≡ ok 0
      → Step y (record { kernel = y.kernel; pc = update y.pc a (checking pid) })
  tests :
      (a pid : ℕ) (found : Found)
      → y.pc a ≡ checking pid
      → waitpid_test pid y.kernel ≡ ok found
      → Step y (record { kernel = y.kernel; pc = update y.pc a (after_test pid found) })
  returns :
      (a pid status : ℕ)
      → y.pc a ≡ returning pid status
      → Step y (record { kernel = y.kernel; pc = update y.pc a running })
  exits :
      (a exitcode : ℕ) (k : Kernel)
      → y.pc a ≡ running
      → exit_record a exitcode y.kernel ≡ ok k
      → Step y (record { kernel = k; pc = update (λ i. wake a (y.pc i)) a (exiting exitcode) })
  leaves :
      (a exitcode : ℕ) (k : Kernel)
      → y.pc a ≡ exiting exitcode
      → exit_leave a a y.kernel ≡ ok k
      → Step y (record { kernel = k; pc = update y.pc a (gone exitcode) })

-- Memory before proc_bootstrap: static variables are 0.
abbrev pub cold : Kernel
cold = record {
  procs = λ _. none;
  next_proc = 0;
  counter_pid = 0;
  proc_table = λ _. none;
  exit_table = λ _. 0;
  alive_table = λ _. false;
  proc_count = 0;
  no_proc_sem = 0;
  t_proc = λ _. none;
}

pub data Reach : System → Type 0 where
  boots :
      (k : Kernel) (kproc : ℕ)
      → proc_bootstrap true cold ≡ ok (k, kproc)
      → Reach (record { kernel = k; pc = λ _. absent })
  next : {y z : System} → Reach y → Step y z → Reach z
