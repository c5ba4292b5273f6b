-- ===== src/Proc/System/Invariant.antt =====
-- What every slot of the process table (kern/proc/proc.c) holds in every reachable state.
use os.Base.{
  ℕ, zero, suc, ◌+◌, ◌≤◌, ◌<◌, ◌≡◌, ◌≢◌, refl, sym, ◌∙◌, inl, inr, true, false, ◌==◌, none, some,
  Bool-cases, dec_lt, arith,
}
use os.Proc.Table.{Process, Kernel}
use os.Proc.System.{Pc, absent, running, checking, asleep, returning, exiting, gone, System, wake}

-- A process is in memory under its address, with its pid, its thread and children that have pids.
abbrev pub Present : Kernel → ℕ → Type 0
Present k i =
    (p : Process) × (k.procs (suc i) ≡ some p)
    × (p.pid ≡ i + 2)
    × (k.t_proc (suc i) ≡ some (suc i))
    × ((j : ℕ) → j < p.count_child → (2 ≤ p.child_array j) × (p.child_array j < k.counter_pid))

-- Slot `i` against where the process of pid `i + 2`, at address `i + 1`, stands.
abbrev pub Holds : Pc → Kernel → ℕ → Type 0
Holds absent k i = (k.procs (suc i) ≡ none) × (k.alive_table i ≡ true)
Holds running k i = Present k i × (k.alive_table i ≡ true)
Holds (checking pid) k i = Present k i × (k.alive_table i ≡ true)
Holds (asleep cv pid) k i = Present k i × (k.alive_table i ≡ true)
Holds (returning pid status) k i = Present k i × (k.alive_table i ≡ true)
Holds (exiting code) k i = Present k i × (k.alive_table i ≡ false) × (k.exit_table i ≡ code)
Holds (gone code) k i =
    (k.procs (suc i) ≡ none) × (k.alive_table i ≡ false) × (k.exit_table i ≡ code)

pub record Inv (y : System) : Type 0 where
  pub booted : 1 ≤ y.kernel.next_proc
  pub counter : y.kernel.counter_pid ≡ y.kernel.next_proc + 1
  pub table : (i : ℕ) → suc i < y.kernel.next_proc → y.kernel.proc_table i ≡ some (suc i)
  pub holds : (i : ℕ) → suc i < y.kernel.next_proc → Holds (y.pc (suc i)) y.kernel i
  pub fresh : (i : ℕ) → y.kernel.next_proc ≤ suc i → i < 64 → y.kernel.alive_table i ≡ true
  pub room : y.kernel.next_proc ≤ 65
  pub later : (i : ℕ) → y.kernel.next_proc ≤ suc i → y.pc (suc i) ≡ absent
  pub kproc : y.pc 0 ≡ absent

pub some-inj {ℓ} : {A : Type ℓ} {p q : A} → some p ≡ some q → p ≡ q
some-inj h = cc

-- A step that keeps what a slot holds.
pub Holds-map :
    (c : Pc) (k k' : Kernel) (i : ℕ)
    → (Present k i → Present k' i)
    → (k.procs (suc i) ≡ none → k'.procs (suc i) ≡ none)
    → k'.alive_table i ≡ k.alive_table i
    → k'.exit_table i ≡ k.exit_table i
    → Holds c k i
    → Holds c k' i
Holds-map absent k k' i here away al ex h = (away h.0, al ∙ h.1)
Holds-map running k k' i here away al ex h = (here h.0, al ∙ h.1)
Holds-map (checking pid) k k' i here away al ex h = (here h.0, al ∙ h.1)
Holds-map (asleep cv pid) k k' i here away al ex h = (here h.0, al ∙ h.1)
Holds-map (returning pid status) k k' i here away al ex h = (here h.0, al ∙ h.1)
Holds-map (exiting code) k k' i here away al ex h = (here h.0, al ∙ h.1, ex ∙ h.2)
Holds-map (gone code) k k' i here away al ex h = (away h.0, al ∙ h.1, ex ∙ h.2)

pub Present-same :
    (k k' : Kernel) (i : ℕ)
    → k'.procs (suc i) ≡ k.procs (suc i)
    → k'.t_proc (suc i) ≡ k.t_proc (suc i)
    → k'.counter_pid ≡ k.counter_pid
    → Present k i
    → Present k' i
Present-same k k' i procs t_proc counter (p, at, pid_e, thread, children) =
    (p, procs ∙ at, pid_e, t_proc ∙ thread, λ j lt. let (a, b) = children j lt in (a, omega arith))

-- A process that keeps its pid and its children.
pub Present-changed :
    (k k' : Kernel) (i : ℕ) (p p' : Process)
    → k.procs (suc i) ≡ some p
    → k'.procs (suc i) ≡ some p'
    → p'.pid ≡ p.pid
    → p'.count_child ≡ p.count_child
    → p'.child_array ≡ p.child_array
    → k'.t_proc (suc i) ≡ k.t_proc (suc i)
    → k'.counter_pid ≡ k.counter_pid
    → Present k i
    → Present k' i
Present-changed k k' i p p' at at' pid_e count_e array_e t_proc counter
      (q, at_q, pid_q, thread, children) =
    let q_e : q ≡ p = some-inj (sym at_q ∙ at) in
    (
      p',
      at',
      pid_e ∙ (λ i. (sym q_e i).pid) ∙ pid_q,
      t_proc ∙ thread,
      λ j lt.
          let count : p'.count_child ≡ q.count_child = count_e ∙ (λ i. (sym q_e i).count_child) in
          let array : p'.child_array ≡ q.child_array = array_e ∙ (λ i. (sym q_e i).child_array) in
          let (a, b) = children j (rw count at lt) in rw array (a, omega (arith, b, counter)),
    )

pub Holds-same :
    (c : Pc) (k k' : Kernel) (i : ℕ)
    → k'.procs (suc i) ≡ k.procs (suc i)
    → k'.t_proc (suc i) ≡ k.t_proc (suc i)
    → k'.counter_pid ≡ k.counter_pid
    → k'.alive_table i ≡ k.alive_table i
    → k'.exit_table i ≡ k.exit_table i
    → Holds c k i
    → Holds c k' i
Holds-same c k k' i procs t_proc counter =
    Holds-map c k k' i (Present-same k k' i procs t_proc counter) (λ none_here. procs ∙ none_here)

-- A process that a broadcast wakes is in memory as before.
pub Holds-wake : (a : ℕ) (c : Pc) (k : Kernel) (i : ℕ) → Holds c k i → Holds (wake a c) k i
unfolding wake
Holds-wake a absent k i h = h
Holds-wake a running k i h = h
Holds-wake a (checking pid) k i h = h
Holds-wake a (asleep cv pid) k i h = elim (Bool-cases (cv == a)) [ inl e ↦ rw e h | inr e ↦ rw e h ]
Holds-wake a (returning pid status) k i h = h
Holds-wake a (exiting code) k i h = h
Holds-wake a (gone code) k i h = h

-- A process that stands anywhere but at `absent` has a slot.
pub slot_of :
    {y : System}
    → Inv y
    → (a : ℕ) → y.pc a ≢ absent
    → (i : ℕ) × (a ≡ suc i) × (a < y.kernel.next_proc)
slot_of inv zero there = absurd (there inv.kproc)
slot_of {y} inv (suc i) there = elim (dec_lt (suc i) y.kernel.next_proc) [
  | yes lt ↦ (i, refl, lt)
  | no ge ↦ absurd (there (inv.later i (omega arith)))
]
