-- ===== src/Proc/System/Steady.antt =====
-- Every step keeps what the processes in sys_waitpid (kern/syscall/proc_syscalls.c) rely on.
use mathlib.Core.Path.{subst}
use os.Base.{ℕ, ◌-◌, ◌≤◌, ◌≡◌, ◌≢◌, sym, ap, ◌⊎◌, inl, inr, ◌==◌, ==_iff, update, Bool-cases, arith}
use os.Proc.Table.{Kernel}
use os.Proc.System.{
  Pc, absent, running, checking, asleep, returning, exiting, gone, System, wake, start_child,
}
use os.Proc.System.Inversion.{update_other}
use os.Proc.System.Sleeping.{IsLive, Ended, WaitOk, WaitOk-map}

-- Every process has what it relies on.
abbrev pub AllOk : System → Type 0
AllOk y = (a : ℕ) → WaitOk y (y.pc a)

-- What holds after an update, index by index.
update-ind :
    (P : ℕ → Pc → Type 0) (pc : ℕ → Pc) (a : ℕ) (c : Pc)
    → P a c
    → ((b : ℕ) → b ≢ a → P b (pc b))
    → (b : ℕ) → P b (update pc a c b)
update-ind P pc a c here others b = elim (Bool-cases (a == b)) [
  | inl e ↦ rw e (subst (λ d. P d c) ((==_iff a b).0 e) here)
  | inr e ↦ rw e (others b (λ q. ground (arith, e, q)))
]

-- Process `a` goes to `c`, and others see it live, or ended with the same status, as before.
pub move-AllOk :
    (y : System) (k' : Kernel) (a : ℕ) (c : Pc)
    → y.kernel.counter_pid ≤ k'.counter_pid
    → (IsLive (y.pc a) → IsLive c)
    → ((status : ℕ) → Ended (y.pc a) status → Ended c status)
    → AllOk y
    → WaitOk y c
    → AllOk (record { kernel = k'; pc = update y.pc a c })
move-AllOk y k' a c more live ended all here =
    let z : System = record { kernel = k'; pc = update y.pc a c } in
    let lives = update-ind (λ b d. IsLive (y.pc b) → IsLive d) y.pc a c live (λ b ne h. h) in
    let ends =
      update-ind (λ b d. (status : ℕ) → Ended (y.pc b) status → Ended d status) y.pc a c ended
        (λ b ne status h. h) in
    update-ind (λ b d. WaitOk z d) y.pc a c (WaitOk-map y z c more lives ends here)
      (λ b ne. WaitOk-map y z (y.pc b) more lives ends (all b))

wake-IsLive : (a : ℕ) (c : Pc) → IsLive c → IsLive (wake a c)
unfolding wake
wake-IsLive a (asleep cv pid) h = elim (Bool-cases (cv == a)) [ inl e ↦ rw e tt | inr e ↦ rw e tt ]
wake-IsLive a running h = tt
wake-IsLive a (checking pid) h = tt
wake-IsLive a (returning pid status) h = tt
wake-IsLive a absent h = h
wake-IsLive a (exiting code) h = h
wake-IsLive a (gone code) h = h

wake-Ended : (a : ℕ) (c : Pc) (status : ℕ) → Ended c status → Ended (wake a c) status
unfolding wake
wake-Ended a c status (code, inl e, f) = (code, inl (ap (wake a) e), f)
wake-Ended a c status (code, inr e, f) = (code, inr (ap (wake a) e), f)

pub never-Ended : (c : Pc) (status : ℕ) → (c ≡ running) ⊎ (c ≡ absent) → Ended c status → ⊥
never-Ended c status (inl r) (code, inl e, f) = cc
never-Ended c status (inl r) (code, inr e, f) = cc
never-Ended c status (inr r) (code, inl e, f) = cc
never-Ended c status (inr r) (code, inr e, f) = cc

-- Process `a` records its exit, and the broadcast wakes those that sleep on its variable.
module _ (y : System) (k' : Kernel) (a exitcode : ℕ) (at : y.pc a ≡ running)
    (same : y.kernel.counter_pid ≤ k'.counter_pid) where
  abbrev after : System
  after = record { kernel = k'; pc = update (λ j. wake a (y.pc j)) a (exiting exitcode) }

  other_at : (b : ℕ) → b ≢ a → after.pc b ≡ wake a (y.pc b)
  other_at b ne = update_other (λ j. wake a (y.pc j)) a b (exiting exitcode) (λ e. ne (sym e))

  stays-Ended : (b status : ℕ) → Ended (y.pc b) status → Ended (after.pc b) status
  stays-Ended b status h = elim (Bool-cases (b == a)) [
    | inl e ↦
        let running_here = subst (λ d. Ended (y.pc d) status) ((==_iff b a).0 e) h in
        absurd (never-Ended (y.pc a) status (inl at) running_here)
    | inr e ↦ rw (other_at b (λ q. ground (arith, e, q))) (wake-Ended a (y.pc b) status h)
  ]

  wake-WaitOk : (c : Pc) → WaitOk y c → WaitOk after (wake a c)
  unfolding wake
  wake-WaitOk (checking pid) (low, high) = (low, omega arith)
  wake-WaitOk (asleep cv pid) (low, high, e, alive) = elim (Bool-cases (cv == a)) [
    | inl woken ↦ rw woken (low, omega arith)
    | inr on ↦ rw on (
      low,
      omega arith,
      e,
      rw (other_at cv (λ q. ground (arith, on, q))) (wake-IsLive a (y.pc cv) alive),
    )
  ]
  wake-WaitOk (returning pid status) h = stays-Ended (pid - 1) status h
  wake-WaitOk absent h = tt
  wake-WaitOk running h = tt
  wake-WaitOk (exiting code) h = tt
  wake-WaitOk (gone code) h = tt

  pub exit-AllOk : AllOk y → AllOk after
  exit-AllOk all =
      update-ind (λ b d. WaitOk after d) (λ j. wake a (y.pc j)) a (exiting exitcode) tt
        (λ b ne. wake-WaitOk (y.pc b) (all b))

-- A new process starts, or none does.
pub start-AllOk :
    (y : System) (k' : Kernel) (n result : ℕ)
    → y.pc n ≡ absent
    → y.kernel.counter_pid ≤ k'.counter_pid
    → AllOk y
    → AllOk (record { kernel = k'; pc = start_child n result y.pc })
unfolding start_child
start-AllOk y k' n result at more all = elim (Bool-cases (result == 0)) [
  | inl e ↦ rw e (
      move-AllOk y k' n running more (λ h. tt)
        (λ status h. absurd (never-Ended (y.pc n) status (inr at) h)) all tt)
  | inr e ↦
      let z : System = record { kernel = k'; pc = y.pc } in
      rw e (λ b. WaitOk-map y z (y.pc b) more (λ b h. h) (λ b status h. h) (all b))
]
