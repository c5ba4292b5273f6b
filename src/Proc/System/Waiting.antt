-- ===== src/Proc/System/Waiting.antt =====
-- What a process that waits in sys_waitpid (kern/syscall/proc_syscalls.c) may rely on.
use mathlib.Core.Path.{subst}
use os.Base.{lt→ltb, ℕ, zero, suc, ◌<◌, ◌≡◌, ◌≢◌, refl, sym, ◌∙◌, true, ok, dec_lt, arith}
use os.Proc.Table.{Kernel, proc_bootstrap}
use os.Proc.Syscalls.{Found, sleeps, exited}
use os.Proc.System.{
  Pc, absent, running, checking, returning, exiting, System, after_test, Step, launches, forks,
  loads, waits, tests, returns, exits, leaves, cold, Reach, boots, next,
}
use os.Proc.System.Inversion.{ok-inj}
use os.Proc.System.Invariant.{Holds, Inv}
use os.Proc.System.Fork.{launch-Made, sys_fork-Made}
use os.Proc.System.Kept.{move-Inv, setas-Inv, exit-Inv, leave-Inv}
use os.Proc.System.Making.{Made-Inv}

pair-inj {ℓ κ} :
    {A : Type ℓ} {B : Type κ} {a a' : A} {b b' : B} → ◌≡◌ {A = A × B} (a, b) (a', b') → a ≡ a'
pair-inj h i = (h i).0

boots-Inv :
    (k : Kernel) (kproc : ℕ)
    → proc_bootstrap true cold ≡ ok (k, kproc)
    → Inv (record { kernel = k; pc = λ _. absent })
unfolding proc_bootstrap
boots-Inv k kproc h =
    subst (λ k'. Inv (record { kernel = k'; pc = λ _. absent })) (pair-inj (ok-inj h))
      (record {
        booted = omega arith;
        counter = refl;
        table = λ i lt. absurd (omega arith);
        holds = λ i lt. absurd (omega arith);
        fresh = λ i ge small. rw (lt→ltb i 64 small);
        room = omega arith;
        later = λ i ge. refl;
        kproc = refl;
      })

pub busy :
    {y : System}
    → Inv y
    → (i : ℕ) (c : Pc) → y.pc (suc i) ≡ c
    → c ≢ absent
    → suc i < y.kernel.next_proc
busy {y} inv i c at ne = elim (dec_lt (suc i) y.kernel.next_proc) [
  | yes lt ↦ lt
  | no ge ↦ absurd (ne (sym at ∙ inv.later i (omega arith)))
]

after_test-Holds :
    (pid : ℕ) (found : Found) (k : Kernel) (i : ℕ)
    → Holds (checking pid) k i
    → Holds (after_test pid found) k i
unfolding after_test
after_test-Holds pid (sleeps proc) k i h = h
after_test-Holds pid (exited status) k i h = h

-- The kernel's own process takes no step.
module _ {y : System} (inv : Inv y) where
  pub not_kproc : (c : Pc) → y.pc 0 ≡ c → c ≡ absent
  not_kproc c at = sym at ∙ inv.kproc

pub Step-Inv : {y z : System} → Inv y → Step y z → Inv z
Step-Inv {y} inv (launches luck f h) =
    Made-Inv f inv (launch-Made luck y.kernel f (omega (arith, inv.counter)) h)
Step-Inv {y} inv (forks zero luck f at h) = absurd (cc (not_kproc inv running at))
Step-Inv {y} inv (forks (suc i) luck f at h) =
    let lt = busy inv i running at (λ e. cc) in
    Made-Inv f inv
      (sys_fork-Made luck y.kernel f (omega (arith, inv.counter)) (suc i) (λ e. omega arith) h)
Step-Inv {y} inv (loads zero newas old k at h) = absurd (cc (not_kproc inv running at))
Step-Inv {y} inv (loads (suc i) newas old k at h) =
    setas-Inv inv i (busy inv i running at (λ e. cc)) newas old k at h
Step-Inv {y} inv (waits zero pid status options at h) = absurd (cc (not_kproc inv running at))
Step-Inv {y} inv (waits (suc i) pid status options at h) =
    move-Inv inv i (busy inv i running at (λ e. cc)) (checking pid)
      (λ held. subst (λ c. Holds c y.kernel i) at held)
Step-Inv {y} inv (tests zero pid found at h) = absurd (cc (not_kproc inv (checking pid) at))
Step-Inv {y} inv (tests (suc i) pid found at h) =
    move-Inv inv i (busy inv i (checking pid) at (λ e. cc)) (after_test pid found)
      (λ held. after_test-Holds pid found y.kernel i (subst (λ c. Holds c y.kernel i) at held))
Step-Inv {y} inv (returns zero pid status at) =
    absurd (cc (not_kproc inv (returning pid status) at))
Step-Inv {y} inv (returns (suc i) pid status at) =
    move-Inv inv i (busy inv i (returning pid status) at (λ e. cc)) running
      (λ held. subst (λ c. Holds c y.kernel i) at held)
Step-Inv {y} inv (exits zero exitcode k at h) = absurd (cc (not_kproc inv running at))
Step-Inv {y} inv (exits (suc i) exitcode k at h) =
    exit-Inv inv i (busy inv i running at (λ e. cc)) exitcode k at h
Step-Inv {y} inv (leaves zero exitcode k at h) = absurd (cc (not_kproc inv (exiting exitcode) at))
Step-Inv {y} inv (leaves (suc i) exitcode k at h) =
    leave-Inv inv i (busy inv i (exiting exitcode) at (λ e. cc)) exitcode k at h

pub Reach-Inv : {y : System} → Reach y → Inv y
Reach-Inv (boots k kproc h) = boots-Inv k kproc h
Reach-Inv (next r st) = Step-Inv (Reach-Inv r) st
