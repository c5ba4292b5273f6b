-- ===== src/Proc/System/Sleeping.antt =====
-- Who waits for whom in sys_waitpid (kern/syscall/proc_syscalls.c), in every reachable state.
use mathlib.Core.Path.{subst}
use os.Base.{
  not, einval, efault, echild, ℕ, zero, suc, ◌+◌, ◌-◌, ◌≤◌, ◌<◌, ◌≡◌, refl, sym, ap, ◌∙◌, ◌⊎◌, inl,
  inr, Bool, true, false, if◌then◌else◌, ◌==◌, ==_iff, Option, none, some, ok, ok-bind, Bool-cases,
  arith,
}
use os.Proc.Table.{Process, Kernel, load, in_table, follow, cv_of}
use os.Proc.Syscalls.{
  Found, sleeps, mkwait_exit, is_exist_from, is_exist, waitpid_check, waitpid_test,
}
use os.Proc.System.{
  Pc, absent, running, checking, asleep, returning, exiting, gone, System, after_test,
}
use os.Proc.System.Inversion.{load-eq-ok, ok-inj}
use os.Proc.System.Invariant.{Present, Holds, Inv, some-inj}

-- The process was started and has not called _exit.
abbrev pub IsLive : Pc → Type 0
IsLive absent = ⊥
IsLive (exiting code) = ⊥
IsLive (gone code) = ⊥
IsLive running = Unit
IsLive (checking pid) = Unit
IsLive (asleep cv pid) = Unit
IsLive (returning pid status) = Unit

-- The process called _exit with a code that `status` encodes.
abbrev pub Ended : Pc → ℕ → Type 0
Ended c status = (code : ℕ) × ((c ≡ exiting code) ⊎ (c ≡ gone code)) × (status ≡ mkwait_exit code)

-- What a process at this place relies on.
abbrev pub WaitOk : System → Pc → Type 0
WaitOk y (checking pid) = (2 ≤ pid) × (pid < y.kernel.counter_pid)
WaitOk y (asleep cv pid) =
    (2 ≤ pid) × (pid < y.kernel.counter_pid) × (pid ≡ suc cv) × IsLive (y.pc cv)
WaitOk y (returning pid status) = Ended (y.pc (pid - 1)) status
WaitOk y absent = Unit
WaitOk y running = Unit
WaitOk y (exiting code) = Unit
WaitOk y (gone code) = Unit

pub WaitOk-map :
    (y z : System) (c : Pc)
    → y.kernel.counter_pid ≤ z.kernel.counter_pid
    → ((b : ℕ) → IsLive (y.pc b) → IsLive (z.pc b))
    → ((b status : ℕ) → Ended (y.pc b) status → Ended (z.pc b) status)
    → WaitOk y c
    → WaitOk z c
WaitOk-map y z (checking pid) more live ended (low, high) = (low, omega arith)
WaitOk-map y z (asleep cv pid) more live ended (low, high, e, alive) =
    (low, omega arith, e, live cv alive)
WaitOk-map y z (returning pid status) more live ended h = ended (pid - 1) status h
WaitOk-map y z absent more live ended h = tt
WaitOk-map y z running more live ended h = tt
WaitOk-map y z (exiting code) more live ended h = tt
WaitOk-map y z (gone code) more live ended h = tt

-- isExist finds a pid only on the list.
is_exist_from-found :
    (left i pid : ℕ) (children : ℕ → ℕ)
    → is_exist_from left i pid children ≡ true
    → (j : ℕ) × (i ≤ j) × (j < i + left) × (children j ≡ pid)
unfolding is_exist_from
is_exist_from-found zero i pid children h = cc
is_exist_from-found (suc left) i pid children h = elim (Bool-cases (children i == pid)) [
  | inl e ↦ (i, omega arith, omega arith, (==_iff (children i) pid).0 e)
  | inr e ↦
      let (j, low, high, at) = is_exist_from-found left (i + 1) pid children (rw e at h) in
      (j, omega arith, omega arith, at)
]

exists :
    (b : Bool) (options status : ℕ)
    → (if not (options == 0)
        then einval
        else if status == 0
        then efault
        else if b
        then 0
        else echild)
      ≡ 0
    → b ≡ true
exists true options status h = refl
exists false options status h = ground arith

-- The checks of sys_waitpid pass only a pid that was handed out.
pub waitpid_check-range :
    (k : Kernel) (i pid status options : ℕ)
    → Present k i
    → waitpid_check (suc i) pid status options k ≡ ok 0
    → (2 ≤ pid) × (pid < k.counter_pid)
unfolding waitpid_check is_exist
waitpid_check-range k i pid status options (p, at, _, _, children) h =
    let (q, e, h1) = ok-bind (load (suc i) k) _ h in
    let same : q ≡ p = some-inj (sym (load-eq-ok (suc i) k e) ∙ at) in
    let found = exists (is_exist pid q) options status (ok-inj h1) in
    let (j, _, lt, here) = is_exist_from-found q.count_child 0 pid q.child_array found in
    let (low, high) =
      subst
        (λ r.
          (j : ℕ) → j < r.count_child → (2 ≤ r.child_array j) × (r.child_array j < k.counter_pid))
        (sym same) children j (omega arith) in
    (omega (arith, here, low), omega (arith, here, high))

-- A slot whose process is alive and in memory.
alive-IsLive :
    (c : Pc) (k : Kernel) (i : ℕ) {p : Process}
    → Holds c k i
    → k.alive_table i ≡ true
    → k.procs (suc i) ≡ some p
    → IsLive c
alive-IsLive absent k i h alive at = cc
alive-IsLive running k i h alive at = tt
alive-IsLive (checking pid) k i h alive at = tt
alive-IsLive (asleep cv pid) k i h alive at = tt
alive-IsLive (returning pid status) k i h alive at = tt
alive-IsLive (exiting code) k i h alive at = cc
alive-IsLive (gone code) k i h alive at = cc

dead-Ended :
    (c : Pc) (k : Kernel) (i : ℕ)
    → Holds c k i
    → k.alive_table i ≡ false
    → Ended c (mkwait_exit (k.exit_table i))
dead-Ended absent k i h dead = cc
dead-Ended running k i h dead = cc
dead-Ended (checking pid) k i h dead = cc
dead-Ended (asleep cv pid) k i h dead = cc
dead-Ended (returning pid status) k i h dead = cc
dead-Ended (exiting code) k i h dead = (code, inl refl, ap mkwait_exit h.2)
dead-Ended (gone code) k i h dead = (code, inr refl, ap mkwait_exit h.2)

cv_of-eq-ok :
    (i : ℕ) (k : Kernel) {proc : ℕ}
    → cv_of i k ≡ ok proc
    → (p : Process) × (k.proc_table i ≡ some proc) × (k.procs proc ≡ some p)
unfolding cv_of
cv_of-eq-ok i k {proc} h = let (_, _, h1) = ok-bind (in_table i) _ h in go (k.proc_table i) h1
  where
    go :
        (o : Option ℕ)
        → follow o k ≡ ok proc
        → (p : Process) × (o ≡ some proc) × (k.procs proc ≡ some p)
    go none h1 = cc
    go (some a) h1 =
        let (p, e, h2) = ok-bind (load a k) _ h1 in
        let same : a ≡ proc = ok-inj h2 in (p, rw same, rw same at (load-eq-ok a k e))

-- What the test under lk_tb finds.
pub waitpid_test-WaitOk :
    (y : System) (pid : ℕ) (found : Found)
    → Inv y
    → 2 ≤ pid
    → pid < y.kernel.counter_pid
    → waitpid_test pid y.kernel ≡ ok found
    → WaitOk y (after_test pid found)
unfolding waitpid_test after_test
waitpid_test-WaitOk y pid found inv low high h =
    let k = y.kernel in
    let i = pid - 2 in
    let (_, _, h1) = ok-bind (in_table i) _ h in
    let back : suc i ≡ pid - 1 = omega arith in
    let held = inv.holds i (omega (arith, inv.counter)) in
    elim (Bool-cases (k.alive_table i)) [
      | inl alive ↦
          let (proc, e, h2) = ok-bind (cv_of i k) (λ a. ok (sleeps a)) (rw alive at h1) in
          let (p, slot, at) = cv_of-eq-ok i k e in
          let mine = some-inj (sym slot ∙ inv.table i (omega (arith, inv.counter))) in
          let live =
            alive-IsLive (y.pc (suc i)) k i held alive (subst (λ b. k.procs b ≡ some p) mine at) in
          subst (λ f. WaitOk y (after_test pid f)) (ok-inj h2)
            (low, high, omega arith, subst (λ b. IsLive (y.pc b)) (sym mine) live)
      | inr dead ↦
          subst (λ f. WaitOk y (after_test pid f)) (ok-inj (rw dead at h1))
            (subst (λ b. Ended (y.pc b) (mkwait_exit (k.exit_table i))) back
              (dead-Ended (y.pc (suc i)) k i held dead))
    ]
