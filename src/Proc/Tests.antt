-- ===== src/Proc/Tests.antt =====
-- The theorems about kern/proc/proc.c and kern/syscall/proc_syscalls.c at concrete inputs: the menu
-- starts process 1, which forks process 2 and waits for it.
use os.Base.{
  ◌%◌, ◌⊎◌, ◌<◌, ◌≤◌, ◌≢◌, ℕ, ◌≡◌, refl, true, false, none, some, [], ◌∷◌, Result, ok, fault,
  update, arith,
}
use os.Proc.Table.{Process, Kernel, fresh_process, proc_bootstrap}
use os.Proc.Syscalls.{
  is_wifexited, wexitstatus, ForkLuck, Forked, Found, sleeps, mkwait_exit, launch, curproc_setas,
  sys_fork, waitpid_check, waitpid_test,
}
use os.Proc.System.{
  exiting, gone, Pc, absent, checking, returning, System, after_test, start_child, Step, launches,
  forks, loads, waits, tests, cold, Reach, boots, next,
}
use os.Proc.System.Sleeping.{IsLive}
use os.Proc.System.Results.{
  low_30, waitpid_code, asleep-IsLive, waitpid_test_safe, exit_wakes, failed_fork_faults,
}

abbrev get_ok {ℓ} : {A : Type ℓ} → A → Result A → A
get_ok default (ok a) = a
get_ok default _ = default

abbrev lucky : ForkLuck
lucky = record {
  creation = record { proc_memory = true; lock_memory = true; cv_memory = true };
  as_copy_result = 0;
  new_space = 9;
  frame_memory = true;
  thread_memory = true;
  array_memory = true;
}

booted : Kernel
unfolding proc_bootstrap
booted = (get_ok (cold, 0) (proc_bootstrap true cold)).0

abbrev nothing : Forked
nothing = record { kernel = cold; result = 0; retval = none }

launched : Forked
unfolding launch booted
launched = get_ok nothing (launch lucky booted)

loaded : Kernel
unfolding launched curproc_setas
loaded = (get_ok (cold, none) (curproc_setas 1 (some 7) launched.kernel)).0

forked : Forked
unfolding loaded sys_fork
forked = get_ok nothing (sys_fork lucky 1 loaded)

abbrev at_start : ℕ → Pc
at_start _ = absent

forked_Reach : Reach (record {
  kernel = forked.kernel;
  pc = start_child 2 forked.result (start_child 1 launched.result at_start);
})
unfolding booted launched loaded forked proc_bootstrap launch curproc_setas sys_fork start_child
forked_Reach =
    next
      (next (next (boots booted 0 refl) (launches lucky launched refl))
        (loads 1 (some 7) none loaded refl refl))
      (forks 1 lucky forked refl refl)

abbrev forked_pc : ℕ → Pc
unfolding start_child launched forked
forked_pc = start_child 2 forked.result (start_child 1 launched.result at_start)

-- Process 1 checks the child's pid, which is 3, and finds it alive.
checking_system : System
unfolding forked forked_pc
checking_system = record { kernel = forked.kernel; pc = update forked_pc 1 (checking 3) }

sleeping_system : System
unfolding checking_system after_test
sleeping_system = record {
  kernel = forked.kernel;
  pc = update checking_system.pc 1 (after_test 3 (sleeps 2));
}

checking_Reach : Reach checking_system
unfolding checking_system forked_pc forked_Reach waitpid_check
checking_Reach = next forked_Reach (waits 1 3 4096 0 refl refl)

sleeping_Reach : Reach sleeping_system
unfolding sleeping_system waitpid_test
sleeping_Reach = next checking_Reach (tests 1 3 (sleeps 2) refl refl)

asleep-IsLive_example : (◌≡◌ {A = ℕ} 3 3) × IsLive (sleeping_system.pc 2)
unfolding sleeping_system
asleep-IsLive_example = asleep-IsLive sleeping_Reach 1 3 2 refl

waitpid_test_safe_example : (found : Found) × (waitpid_test 3 checking_system.kernel ≡ ok found)
unfolding checking_system forked_pc
waitpid_test_safe_example = waitpid_test_safe checking_Reach 1 3 refl (λ e. cc)

abbrev child : Process
child = record fresh_process { pid = 3; is_alive = true; p_addrspace = some 9; p_threads = 2 ∷ [] }

exit_wakes_example :
    (z w : System) × Step sleeping_system z × Step z w × (w.pc 1 ≡ returning 3 (mkwait_exit 5))
unfolding sleeping_system
exit_wakes_example = exit_wakes sleeping_Reach 1 2 3 5 9 child refl refl refl refl

waited : (z w : System) × Step sleeping_system z × Step z w × (w.pc 1 ≡ returning 3 (mkwait_exit 5))
unfolding sleeping_system
waited = exit_wakes sleeping_Reach 1 2 3 5 9 child refl refl refl refl

waited_Reach : Reach waited.1
waited_Reach = next (next sleeping_Reach waited.2) waited.3

waitpid_code_example :
    (code : ℕ) × ((waited.1.pc 2 ≡ exiting code) ⊎ (waited.1.pc 2 ≡ gone code))
    × (is_wifexited (mkwait_exit 5) ≡ true)
    × (wexitstatus (mkwait_exit 5) ≡ low_30 code)
    × (((wexitstatus (mkwait_exit 5) ≡ code % 4294967296)
          × ((code % 4294967296 < 536870912) ⊎ (3758096384 ≤ code % 4294967296)))
        ⊎ ((wexitstatus (mkwait_exit 5) ≢ code % 4294967296)
            × (536870912 ≤ code % 4294967296)
            × (code % 4294967296 < 3758096384)))
waitpid_code_example = waitpid_code waited_Reach 1 3 (mkwait_exit 5) waited.4

-- _exit(-1) comes out as -1.
minus_one : wexitstatus (mkwait_exit 4294967295) ≡ 4294967295
unfolding wexitstatus mkwait_exit
minus_one = refl

-- No memory is left for the child's thread.
unlucky : ForkLuck
unlucky = record lucky { thread_memory = false }

failed : Forked
unfolding loaded sys_fork unlucky
failed = get_ok nothing (sys_fork unlucky 1 loaded)

abbrev loaded_system : System
unfolding loaded launched start_child
loaded_system = record { kernel = loaded; pc = start_child 1 launched.result at_start }

loaded_Reach : Reach loaded_system
unfolding booted launched loaded proc_bootstrap launch curproc_setas start_child
loaded_Reach =
    next (next (boots booted 0 refl) (launches lucky launched refl))
      (loads 1 (some 7) none loaded refl refl)

failed_fork_faults_example :
    (waitpid_check 1 3 4096 0 failed.kernel ≡ ok 0) × (waitpid_test 3 failed.kernel ≡ fault)
unfolding failed loaded_Reach
failed_fork_faults_example =
    failed_fork_faults loaded_Reach 1 4096 unlucky failed refl refl (λ e. omega arith)
      (λ e. omega arith) refl refl (λ e. omega arith)
