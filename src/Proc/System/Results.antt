-- ===== src/Proc/System/Results.antt =====
-- What sys_waitpid and sys__exit (kern/syscall/proc_syscalls.c) promise to the processes.
use mathlib.Core.Path.{subst}
use os.Base.{
  ◌⊎◌, ◌%◌, ◌>>=◌, kassert, lt→ltb, ℕ, zero, suc, ◌+◌, ◌-◌, ◌<◌, ◌≡◌, ◌≢◌, ◌≤◌, ltb, if◌then◌else◌,
  refl, sym, ap, ◌∙◌, inl, inr, true, false, none, some, Result, ok, fault, update, Bool-cases,
  arith,
}
use os.Proc.Table.{save, Process, Kernel, load, in_table, follow, cv_of}
use os.Proc.Syscalls.{
  is_wifexited, wexitstatus, ForkLuck, Forked, Found, sleeps, exited, mkwait_exit, waitpid_check,
  waitpid_test, is_some, exit_record, sys_fork,
}
use os.Proc.System.{
  Pc, absent, running, checking, asleep, returning, exiting, gone, System, wake, after_test, Step,
  tests, exits, Reach,
}
use os.Proc.System.Inversion.{load-found, update_same, update_other}
use os.Proc.System.Fork.{sys_fork-Made}
use os.Proc.System.Listed.{sys_fork-Listed, waitpid_check-listed}
use os.Proc.System.Leaving.{marked}
use os.Proc.System.Invariant.{Holds}
use os.Proc.System.Sleeping.{IsLive, WaitOk}
use os.Proc.System.Kept.{Present-pid}
use os.Proc.System.Making.{Made-Inv}
use os.Proc.System.Waiting.{busy, not_kproc, Reach-Inv}
use os.Proc.System.Progress.{next_absent, Reach-AllOk}

-- The lowest 30 bits of a word read as a signed number, which is again a word of 32 bits.
unfoldable pub low_30 : ℕ → ℕ
low_30 code = let low = code % 1073741824 in if ltb low 536870912 then low else low + 3221225472

-- What WIFEXITED and WEXITSTATUS make of the status.
decoded :
    (code : ℕ)
    → (is_wifexited (mkwait_exit code) ≡ true) × (wexitstatus (mkwait_exit code) ≡ low_30 code)
unfolding is_wifexited wexitstatus mkwait_exit low_30
decoded code = (ground arith, ground arith)

-- A code from -2^29 up to 2^29 - 1, as a word, is given back unchanged, and no other.
low_30-same :
    (code : ℕ)
    → ((low_30 code ≡ code % 4294967296)
        × ((code % 4294967296 < 536870912) ⊎ (3758096384 ≤ code % 4294967296)))
      ⊎ ((low_30 code ≢ code % 4294967296)
          × (536870912 ≤ code % 4294967296)
          × (code % 4294967296 < 3758096384))
unfolding low_30
low_30-same code = ground arith

module _ {y : System} (reach : Reach y) (a pid : ℕ) where
  -- In every reachable state, where a process is about to return from sys_waitpid with a status,
  -- the process of that pid has called _exit, WIFEXITED holds of the status, and WEXITSTATUS of it is
  -- the lowest 30 bits of the code that the process gave, read as a signed number. Either that is the
  -- code itself as an int, which then lies between -2^29 and 2^29 - 1, or it is not, and the code lies
  -- outside.
  pub waitpid_code :
      (status : ℕ)
      → y.pc a ≡ returning pid status
      → (code : ℕ) × ((y.pc (pid - 1) ≡ exiting code) ⊎ (y.pc (pid - 1) ≡ gone code))
        × (is_wifexited status ≡ true)
        × (wexitstatus status ≡ low_30 code)
        × (((wexitstatus status ≡ code % 4294967296)
              × ((code % 4294967296 < 536870912) ⊎ (3758096384 ≤ code % 4294967296)))
            ⊎ ((wexitstatus status ≢ code % 4294967296)
                × (536870912 ≤ code % 4294967296)
                × (code % 4294967296 < 3758096384)))
  waitpid_code status at =
      let (code, ended, e) = subst (λ c. WaitOk y c) at (Reach-AllOk reach a) in
      let (exited_bit, value) = decoded code in
      let given = ap wexitstatus e ∙ value in
      (code, ended, ap is_wifexited e ∙ exited_bit, given, rw given (low_30-same code))

  -- In every reachable state a process that sleeps in sys_waitpid sleeps on the variable of the
  -- process whose pid it waits for, and that process was started and has not called _exit yet: no
  -- wakeup is lost, and no variable is destroyed under a sleeper.
  pub asleep-IsLive : (cv : ℕ) → y.pc a ≡ asleep cv pid → (pid ≡ suc cv) × IsLive (y.pc cv)
  asleep-IsLive cv at =
      let (_, _, e, live) = subst (λ c. WaitOk y c) at (Reach-AllOk reach a) in (e, live)

-- The test of sys_waitpid at slot `i`.
module _ (k : Kernel) (i : ℕ) (small : i < 64) where
  two : i + 2 - 2 ≡ i
  two = omega arith

  test_dead :
      k.alive_table i ≡ false → waitpid_test (i + 2) k ≡ ok (exited (mkwait_exit (k.exit_table i)))
  unfolding waitpid_test in_table
  test_dead dead = rw (two, lt→ltb i 64 small, dead)

  test_live :
      (p : Process)
      → k.alive_table i ≡ true
      → k.proc_table i ≡ some (suc i)
      → k.procs (suc i) ≡ some p
      → waitpid_test (i + 2) k ≡ ok (sleeps (suc i))
  unfolding waitpid_test in_table cv_of
  test_live p alive slot at = rw (two, lt→ltb i 64 small, alive, slot, follow, load, at)

  test_freed :
      k.alive_table i ≡ true
      → k.proc_table i ≡ some (suc i)
      → k.procs (suc i) ≡ none
      → waitpid_test (i + 2) k ≡ fault
  unfolding waitpid_test in_table cv_of
  test_freed alive slot at = rw (two, lt→ltb i 64 small, alive, slot, follow, load, at)

in_memory :
    (c : Pc) (k : Kernel) (i : ℕ)
    → Holds c k i
    → k.alive_table i ≡ true
    → c ≢ absent
    → (p : Process) × (k.procs (suc i) ≡ some p)
in_memory absent k i held alive ne = absurd (ne refl)
in_memory running k i ((p, at, _, _, _), _) alive ne = (p, at)
in_memory (checking pid) k i ((p, at, _, _, _), _) alive ne = (p, at)
in_memory (asleep cv pid) k i ((p, at, _, _, _), _) alive ne = (p, at)
in_memory (returning pid status) k i ((p, at, _, _, _), _) alive ne = (p, at)
in_memory (exiting code) k i (_, dead, _) alive ne = cc
in_memory (gone code) k i (_, dead, _) alive ne = cc

wake_self : (a pid : ℕ) → wake a (asleep a pid) ≡ checking pid
unfolding wake
wake_self a pid = ground arith

bind_ok {ℓ κ} :
    {A : Type ℓ} {B : Type κ} (m : Result A) (f : A → Result B) {a : A} {r : Result B}
    → m ≡ ok a
    → f a ≡ r
    → (m >>= f) ≡ r
bind_ok m f e h = (λ d. e d >>= f) ∙ h

in_table_ok : (i : ℕ) → i < 64 → in_table i ≡ ok tt
unfolding in_table
in_table_ok i small = rw (lt→ltb i 64 small)

module _ {y : System} (reach : Reach y) where
  -- In every reachable state the test that a process in sys_waitpid makes under lk_tb neither
  -- leaves the tables nor follows a pointer to a process that was freed, given that the process it
  -- waits for was started.
  pub waitpid_test_safe :
      (a pid : ℕ)
      → y.pc a ≡ checking pid
      → y.pc (pid - 1) ≢ absent
      → (found : Found) × (waitpid_test pid y.kernel ≡ ok found)
  waitpid_test_safe a pid at started =
      let inv = Reach-Inv reach in
      let k = y.kernel in
      let (low, high) = subst (λ c. WaitOk y c) at (Reach-AllOk reach a) in
      let i = pid - 2 in
      let back : suc i ≡ pid - 1 = omega arith in
      let same : i + 2 ≡ pid = omega arith in
      let lt : suc i < k.next_proc = omega (arith, inv.counter) in
      let small : i < 64 = omega (arith, inv.room) in
      let ne : y.pc (suc i) ≢ absent = subst (λ b. y.pc b ≢ absent) (sym back) started in
      subst (λ n. (found : Found) × (waitpid_test n k ≡ ok found)) same
        (elim (Bool-cases (k.alive_table i)) [
          | inl alive ↦
              let (p, mem) = in_memory (y.pc (suc i)) k i (inv.holds i lt) alive ne in
              (sleeps (suc i), test_live k i small p alive (inv.table i lt) mem)
          | inr dead ↦ (exited (mkwait_exit (k.exit_table i)), test_dead k i small dead)
        ])

  -- The exit of process `i + 1`, which `a` waits for, and the test that `a` makes then.
  module _ (a i pid exitcode space : ℕ) (p : Process) (at : y.pc a ≡ asleep (suc i) pid)
      (runs : y.pc (suc i) ≡ running) (mem : y.kernel.procs (suc i) ≡ some p)
      (has : p.p_addrspace ≡ some space) where
    exit_kernel : Kernel
    exit_kernel = record y.kernel {
      procs = update y.kernel.procs (suc i) (some (marked p exitcode));
      exit_table = update y.kernel.exit_table (p.pid - 2) exitcode;
      alive_table = update y.kernel.alive_table (p.pid - 2) false;
    }

    exit_slot : (p.pid - 2 ≡ i) × (i < 64)
    exit_slot =
        let inv = Reach-Inv reach in
        let lt = busy inv i running runs (λ e. cc) in
        let (present, _) = subst (λ c. Holds c y.kernel i) runs (inv.holds i lt) in
        (Present-pid inv i lt p present mem, omega (arith, inv.room))

    exit_record_ok : exit_record (suc i) exitcode y.kernel ≡ ok exit_kernel
    unfolding exit_record save exit_kernel in_table
    exit_record_ok =
        let (index, small) = exit_slot in
        bind_ok (load (suc i) y.kernel) _ (load-found (suc i) y.kernel p mem) (
          bind_ok (kassert (is_some p.p_addrspace)) _ (λ d. kassert (is_some (has d)))
            (bind_ok (in_table (p.pid - 2)) _ (in_table_ok (p.pid - 2) (omega arith)) refl))

    exit_system : System
    exit_system = record {
      kernel = exit_kernel;
      pc = update (λ j. wake (suc i) (y.pc j)) (suc i) (exiting exitcode);
    }

    woken : exit_system.pc a ≡ checking pid
    unfolding exit_system wake
    woken =
        let ne : suc i ≢ a = λ e. cc (sym runs ∙ ap y.pc e ∙ at) in
        update_other (λ j. wake (suc i) (y.pc j)) (suc i) a (exiting exitcode) ne
        ∙ (λ d. wake (suc i) (at d))
        ∙ wake_self (suc i) pid

    exit_test : waitpid_test pid exit_kernel ≡ ok (exited (mkwait_exit exitcode))
    unfolding exit_kernel
    exit_test =
        let (index, small) = exit_slot in
        let alive = y.kernel.alive_table in
        let codes = y.kernel.exit_table in
        let (e, _) = asleep-IsLive reach a pid (suc i) at in
        let same : i + 2 ≡ pid = omega (arith, e) in
        let dead = (λ d. update alive (index d) false i) ∙ update_same alive i false in
        let code = (λ d. update codes (index d) exitcode i) ∙ update_same codes i exitcode in
        subst (λ n. waitpid_test n exit_kernel ≡ ok (exited (mkwait_exit exitcode))) same
          (test_dead exit_kernel i small dead ∙ (λ d. ok (exited (mkwait_exit (code d)))))

    exit_then_return :
        (z w : System) × Step y z × Step z w × (w.pc a ≡ returning pid (mkwait_exit exitcode))
    unfolding after_test exit_system
    exit_then_return = (
      exit_system,
      record {
        kernel = exit_kernel;
        pc = update exit_system.pc a (after_test pid (exited (mkwait_exit exitcode)));
      },
      exits (suc i) exitcode exit_kernel runs exit_record_ok,
      tests a pid (exited (mkwait_exit exitcode)) woken exit_test,
      update_same exit_system.pc a (returning pid (mkwait_exit exitcode)),
    )

  -- Where a process sleeps in sys_waitpid on a process that runs and has an address space, _exit of
  -- that process with any code is possible, and behind it one step of the sleeper takes it out of
  -- the loop with _MKWAIT_EXIT of that code.
  pub exit_wakes :
      (a cv pid exitcode space : ℕ) (p : Process)
      → y.pc a ≡ asleep cv pid
      → y.pc cv ≡ running
      → y.kernel.procs cv ≡ some p
      → p.p_addrspace ≡ some space
      → (z w : System) × Step y z × Step z w × (w.pc a ≡ returning pid (mkwait_exit exitcode))
  exit_wakes a zero pid exitcode space p at runs mem has =
      absurd (cc (not_kproc (Reach-Inv reach) running runs))
  exit_wakes a (suc i) pid exitcode space p at runs mem has =
      exit_then_return a i pid exitcode space p at runs mem has

  -- Whatever step of sys_fork failed once a pid was taken, its table entry leads to freed memory.
  freed_entry_faults :
      (a : ℕ) (luck : ForkLuck) (f : Forked)
      → y.pc a ≡ running
      → sys_fork luck a y.kernel ≡ ok f
      → f.result ≢ 0
      → f.kernel.counter_pid ≢ y.kernel.counter_pid
      → waitpid_test y.kernel.counter_pid f.kernel ≡ fault
  freed_entry_faults a luck f runs forked fails took =
      let inv = Reach-Inv reach in
      let k = y.kernel in
      let i = k.next_proc - 1 in
      let here : suc i ≡ k.next_proc = omega (arith, inv.booted) in
      let pid : i + 2 ≡ k.counter_pid = omega (arith, inv.counter) in
      let m =
        sys_fork-Made luck k f (omega (arith, inv.counter)) a
          (λ e. cc (sym runs ∙ ap y.pc e ∙ next_absent inv)) forked in
      let made = Made-Inv f inv m in
      elim m [
        | inl (_, same) ↦ absurd (took (λ d. (same d).counter_pid))
        | inr (g, inl (z, _, _)) ↦ absurd (fails z)
        | inr (g, inr (_, away)) ↦
            let small : i < 64 = omega (arith, g.room, inv.counter) in
            let alive = (λ d. g.alive_table d i) ∙ inv.fresh i (omega arith) small in
            let slot = made.table i (omega (arith, g.next_proc)) in
            let freed = subst (λ n. f.kernel.procs n ≡ none) (sym here) away in
            subst (λ n. waitpid_test n f.kernel ≡ fault) pid
              (test_freed f.kernel i small alive slot freed)
      ]

  -- In every reachable state, where sys_fork took a pid and created the child's condition variable,
  -- as_copy succeeded and sys_fork still reports an error, as it does when thread_fork fails, the
  -- parent's next call of sys_waitpid for that pid, with no options and a status pointer that is not
  -- null, passes all of its checks, and its test under lk_tb then follows the table to a process that
  -- was freed.
  pub failed_fork_faults :
      (a status : ℕ) (luck : ForkLuck) (f : Forked)
      → y.pc a ≡ running
      → sys_fork luck a y.kernel ≡ ok f
      → f.result ≢ 0
      → f.kernel.counter_pid ≢ y.kernel.counter_pid
      → luck.creation.cv_memory ≡ true
      → luck.as_copy_result ≡ 0
      → status ≢ 0
      → (waitpid_check a y.kernel.counter_pid status 0 f.kernel ≡ ok 0)
        × (waitpid_test y.kernel.counter_pid f.kernel ≡ fault)
  failed_fork_faults a status luck f runs forked fails took cv copied given =
      let inv = Reach-Inv reach in
      let k = y.kernel in
      let other : a ≢ k.next_proc = λ e. cc (sym runs ∙ ap y.pc e ∙ next_absent inv) in
      let (p, _, listed) =
        sys_fork-Listed luck k f a other (omega (arith, inv.counter)) cv copied took forked in
      (
        waitpid_check-listed a k.counter_pid status f.kernel p given listed,
        freed_entry_faults a luck f runs forked fails took,
      )
