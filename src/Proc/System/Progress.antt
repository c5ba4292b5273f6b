-- ===== src/Proc/System/Progress.antt =====
-- sys_waitpid and sys__exit (kern/syscall/proc_syscalls.c) in every reachable state.
use mathlib.Core.Path.{subst}
use os.Base.{ℕ, zero, suc, ◌-◌, ◌≤◌, ◌≡◌, refl, sym, ap, ◌∙◌, inl, inr, arith}
use os.Proc.Table.{Kernel}
use os.Proc.Syscalls.{Found, sleeps, exited, Forked}
use os.Proc.System.{
  start_child, Pc, absent, running, checking, returning, exiting, gone, System, after_test, Step,
  launches, forks, loads, waits, tests, returns, exits, leaves, Reach, boots, next,
}
use os.Proc.System.Fork.{Made, launch-Made, sys_fork-Made}
use os.Proc.System.Leaving.{curproc_setas_result, exit_record_result, exit_leave-Left}
use os.Proc.System.Invariant.{Holds, Inv}
use os.Proc.System.Sleeping.{
  IsLive, Ended, WaitOk, WaitOk-map, waitpid_check-range, waitpid_test-WaitOk,
}
use os.Proc.System.Steady.{AllOk, move-AllOk, exit-AllOk, start-AllOk, never-Ended}
use os.Proc.System.Waiting.{busy, not_kproc, Reach-Inv}

Made-counter : (k : Kernel) (f : Forked) → Made k f → k.counter_pid ≤ f.kernel.counter_pid
Made-counter k f (inl (_, same)) =
    let e : f.kernel.counter_pid ≡ k.counter_pid = λ d. (same d).counter_pid in omega arith
Made-counter k f (inr (g, _)) = omega (arith, g.counter_pid)

pub next_absent : {y : System} → Inv y → y.pc y.kernel.next_proc ≡ absent
next_absent {y} inv =
    let e : suc (y.kernel.next_proc - 1) ≡ y.kernel.next_proc = omega (arith, inv.booted) in
    subst (λ n. y.pc n ≡ absent) e (inv.later (y.kernel.next_proc - 1) (omega arith))

Made-AllOk :
    {y : System} (f : Forked)
    → Inv y
    → AllOk y
    → Made y.kernel f
    → AllOk (record { kernel = f.kernel; pc = start_child y.kernel.next_proc f.result y.pc })
Made-AllOk {y} f inv all m =
    start-AllOk y f.kernel y.kernel.next_proc f.result (next_absent inv) (Made-counter y.kernel f m)
      all

after_test-IsLive : (pid : ℕ) (found : Found) → IsLive (after_test pid found)
unfolding after_test
after_test-IsLive pid (sleeps proc) = tt
after_test-IsLive pid (exited status) = tt

-- A process in a state that no end shows in.
nothing_ends :
    (c d c' : Pc)
    → c ≡ d
    → ((status : ℕ) → Ended d status → ⊥)
    → (status : ℕ) → Ended c status
    → Ended c' status
nothing_ends c d c' at unended status h = absurd (unended status (subst (λ e. Ended e status) at h))

running_unended : (status : ℕ) → Ended running status → ⊥
running_unended status h = never-Ended running status (inl refl) h

checking_unended : (pid status : ℕ) → Ended (checking pid) status → ⊥
checking_unended pid status (code, inl e, f) = cc
checking_unended pid status (code, inr e, f) = cc

returning_unended : (pid st status : ℕ) → Ended (returning pid st) status → ⊥
returning_unended pid st status (code, inl e, f) = cc
returning_unended pid st status (code, inr e, f) = cc

leaving-Ended :
    (exitcode status : ℕ) → Ended (exiting exitcode) status → Ended (gone exitcode) status
leaving-Ended exitcode status (code, inl e, f) = (code, inr (cc), f)
leaving-Ended exitcode status (code, inr e, f) = cc

Step-AllOk : {y z : System} → Inv y → AllOk y → Step y z → AllOk z
Step-AllOk {y} inv all (launches luck f h) =
    Made-AllOk f inv all (launch-Made luck y.kernel f (omega (arith, inv.counter)) h)
Step-AllOk {y} inv all (forks a luck f at h) = Made-AllOk f inv all (
    sys_fork-Made luck y.kernel f (omega (arith, inv.counter)) a
      (λ e. absurd (cc (sym at ∙ ap y.pc e ∙ next_absent inv))) h)
Step-AllOk {y} inv all (loads a newas old k at h) =
    let (p, _, same) = curproc_setas_result a newas old y.kernel k h in
    let z : System = record { kernel = k; pc = y.pc } in
    let e : k.counter_pid ≡ y.kernel.counter_pid = λ d. (same d).counter_pid in
    λ b. WaitOk-map y z (y.pc b) (omega arith) (λ b h. h) (λ b status h. h) (all b)
Step-AllOk {y} inv all (waits zero pid status options at h) = absurd (cc (not_kproc inv running at))
Step-AllOk {y} inv all (waits (suc i) pid status options at h) =
    let held = inv.holds i (busy inv i running at (λ e. cc)) in
    let (present, _) = subst (λ c. Holds c y.kernel i) at held in
    move-AllOk y y.kernel (suc i) (checking pid) (omega arith) (λ l. tt)
      (nothing_ends (y.pc (suc i)) running (checking pid) at running_unended) all
      (waitpid_check-range y.kernel i pid status options present h)
Step-AllOk {y} inv all (tests a pid found at h) =
    let (low, high) = subst (λ c. WaitOk y c) at (all a) in
    move-AllOk y y.kernel a (after_test pid found) (omega arith) (λ l. after_test-IsLive pid found)
      (nothing_ends (y.pc a) (checking pid) (after_test pid found) at (checking_unended pid)) all
      (waitpid_test-WaitOk y pid found inv low high h)
Step-AllOk {y} inv all (returns a pid status at) =
    move-AllOk y y.kernel a running (omega arith) (λ l. tt)
      (nothing_ends (y.pc a) (returning pid status) running at (returning_unended pid status)) all
      tt
Step-AllOk {y} inv all (exits a exitcode k at h) =
    let (p, _, same) = exit_record_result a exitcode y.kernel k h in
    let e : k.counter_pid ≡ y.kernel.counter_pid = λ d. (same d).counter_pid in
    exit-AllOk y k a exitcode at (omega arith) all
Step-AllOk {y} inv all (leaves zero exitcode k at h) =
    absurd (cc (not_kproc inv (exiting exitcode) at))
Step-AllOk {y} inv all (leaves (suc i) exitcode k at h) =
    let held = inv.holds i (busy inv i (exiting exitcode) at (λ e. cc)) in
    let (present, _, _) = subst (λ c. Holds c y.kernel i) at held in
    let left = exit_leave-Left (suc i) y.kernel k present.3 h in
    move-AllOk y k (suc i) (gone exitcode) (omega (arith, left.counter_pid))
      (λ l. absurd (subst (λ c. IsLive c) at l))
      (λ status e. leaving-Ended exitcode status (subst (λ c. Ended c status) at e)) all tt

pub Reach-AllOk : {y : System} → Reach y → AllOk y
Reach-AllOk (boots k kproc h) = λ b. tt
Reach-AllOk (next r st) = Step-AllOk (Reach-Inv r) (Reach-AllOk r) st
