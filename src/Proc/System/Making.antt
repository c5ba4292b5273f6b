-- ===== src/Proc/System/Making.antt =====
-- A call of sys_fork or common_prog keeps what the slots of the process table (kern/proc/proc.c) hold.
use mathlib.Core.Path.{subst}
use os.Base.{
  Bool-cases, ℕ, suc, ◌+◌, ◌-◌, ◌≤◌, ◌<◌, ◌≡◌, ◌≢◌, sym, ◌∙◌, inl, inr, true, ◌==◌, ==-false, none,
  some, update, dec_lt, arith,
}
use os.Proc.Table.{Process, Kernel}
use os.Proc.Syscalls.{Forked}
use os.Proc.System.{Pc, running, System, start_child}
use os.Proc.System.Inversion.{update_same, update_other}
use os.Proc.System.Effects.{Grows}
use os.Proc.System.Fork.{Born, Made}
use os.Proc.System.Invariant.{Present, Holds, Inv, Holds-map, some-inj}

-- Every child on the list has a pid that was handed out.
abbrev Children : Process → ℕ → Type 0
Children p bound = (j : ℕ) → j < p.count_child → (2 ≤ p.child_array j) × (p.child_array j < bound)

more-Children :
    (p : Process) (pid bound : ℕ)
    → 2 ≤ pid
    → pid < bound
    → Children p pid
    → (j : ℕ) → j < p.count_child + 1
    → (2 ≤ update p.child_array p.count_child pid j)
      × (update p.child_array p.count_child pid j < bound)
more-Children p pid bound low high old j lt = elim (Bool-cases (p.count_child == j)) [
  | inl e ↦ rw e (low, high)
  | inr e ↦
      let ne : p.count_child ≢ j = λ q. ground (arith, e, q) in
      let (a, b) = old j (omega arith) in rw e (a, omega arith)
]

-- The parent's list may have got the new pid.
Present-Kept :
    (k k' : Kernel) (i : ℕ)
    → 1 ≤ k.next_proc
    → k.counter_pid ≡ k.next_proc + 1
    → Grows true k k'
    → suc i < k.next_proc
    → Present k i
    → Present k' i
Present-Kept k k' i booted counter g lt (p, at, pid_e, thread, children) =
    elim (g.procs (suc i) (λ e. omega arith)) [
      | inl same ↦ (
        p,
        same ∙ at,
        pid_e,
        g.t_proc (suc i) (λ e. omega arith) ∙ thread,
        λ j small. let (a, b) = children j small in (a, omega (arith, g.counter_pid)),
      )
      | inr (q, at_q, at') ↦
          let q_e : q ≡ p = some-inj (sym at_q ∙ at) in
          (
            _,
            at',
            (λ d. (q_e d).pid) ∙ pid_e,
            g.t_proc (suc i) (λ e. omega arith) ∙ thread,
            more-Children q k.counter_pid k'.counter_pid (omega arith)
                (omega (arith, g.counter_pid))
                (subst (λ r. Children r k.counter_pid) (sym q_e) children),
          )
    ]

none-Kept :
    (k k' : Kernel) (i : ℕ)
    → Grows true k k'
    → suc i < k.next_proc
    → k.procs (suc i) ≡ none
    → k'.procs (suc i) ≡ none
none-Kept k k' i g lt at = elim (g.procs (suc i) (λ e. omega arith)) [
  | inl same ↦ same ∙ at
  | inr (q, at_q, at') ↦ cc
]

-- The slots that were in use.
old-Holds :
    {y : System} (k' : Kernel) (i : ℕ)
    → Inv y
    → Grows true y.kernel k'
    → suc i < y.kernel.next_proc
    → Holds (y.pc (suc i)) k' i
old-Holds {y} k' i inv g lt =
    Holds-map (y.pc (suc i)) y.kernel k' i (Present-Kept y.kernel k' i inv.booted inv.counter g lt)
      (none-Kept y.kernel k' i g lt) (λ d. g.alive_table d i) (λ d. g.exit_table d i)
      (inv.holds i lt)

-- The new slot.
born-Holds :
    {y : System} (f : Forked) (i : ℕ)
    → Inv y
    → Grows true y.kernel f.kernel
    → Born f.result y.kernel
        (f.kernel.procs y.kernel.next_proc)
        (f.kernel.t_proc y.kernel.next_proc)
    → suc i ≡ y.kernel.next_proc
    → Holds (start_child y.kernel.next_proc f.result y.pc (suc i)) f.kernel i
unfolding start_child
born-Holds {y} f i inv g born e =
    let alive =
      (λ d. g.alive_table d i) ∙ inv.fresh i (omega arith) (omega (arith, g.room, inv.counter)) in
    elim born [
      | inl (z, thread, (c, at, pid_e, none_yet, _)) ↦
          subst (λ n. Holds (start_child n f.result y.pc (suc i)) f.kernel i) e
            (let started =
                (λ d. start_child (suc i) (z d) y.pc (suc i)) ∙ update_same y.pc (suc i) running in
              subst (λ c'. Holds c' f.kernel i) (sym started)
                (
                  (
                    c,
                    subst (λ n. f.kernel.procs n ≡ some c) (sym e) at,
                    omega (arith, inv.counter, pid_e),
                    subst (λ n. f.kernel.t_proc n ≡ some n) (sym e) thread,
                    λ j lt. absurd (omega arith),
                  ),
                  alive,
                ))
      | inr (nz, away) ↦
          rw (==-false f.result 0 nz, inv.later i (omega arith)) (rw (sym e) at away, alive)
    ]

start_other : (n result : ℕ) (pc : ℕ → Pc) (b : ℕ) → b ≢ n → start_child n result pc b ≡ pc b
unfolding start_child
start_other n result pc b ne = elim (Bool-cases (result == 0)) [
  | inl e ↦ rw e (update_other pc n b running (λ q. ne (sym q)))
  | inr e ↦ rw e
]

not_started : (n result : ℕ) (pc : ℕ → Pc) → result ≢ 0 → start_child n result pc ≡ pc
unfolding start_child
not_started n result pc ne = rw (==-false result 0 ne)

pub Made-Inv :
    {y : System} (f : Forked)
    → Inv y
    → Made y.kernel f
    → Inv (record { kernel = f.kernel; pc = start_child y.kernel.next_proc f.result y.pc })
Made-Inv {y} f inv (inl (fails, same)) =
    let idle = not_started y.kernel.next_proc f.result y.pc fails in
    subst Inv (λ d. record { kernel = sym same d; pc = sym idle d }) inv
Made-Inv {y} f inv (inr (g, born)) =
    let n = y.kernel.next_proc in
    let booted = inv.booted in
    let counter = inv.counter in
    let index = y.kernel.counter_pid - 2 in
    let table_at : (i : ℕ) → i < n → update y.kernel.proc_table index (some n) i ≡ some (suc i) =
      λ i lt. elim (dec_lt (suc i) n) [
        | yes old ↦
            update_other y.kernel.proc_table index i (some n) (λ e. omega arith) ∙ inv.table i old
        | no new ↦
            let last : index ≡ i = omega arith in
            let here : n ≡ suc i = omega arith in
            (λ d. update y.kernel.proc_table (last d) (some n) i)
            ∙ update_same y.kernel.proc_table i (some n)
            ∙ (λ d. some (here d))
      ] in
    record {
      booted = omega (arith, g.next_proc);
      counter = omega (arith, g.next_proc, g.counter_pid);
      table = λ i lt. (λ d. g.proc_table d i) ∙ table_at i (omega (arith, g.next_proc));
      holds = λ i lt. elim (dec_lt (suc i) n) [
        | yes old ↦
            rw (start_other n f.result y.pc (suc i) (λ e. omega arith))
              (old-Holds f.kernel i inv g old)
        | no new ↦ born-Holds f i inv g born (omega (arith, g.next_proc))
      ];
      fresh =
          λ i ge small. (λ d. g.alive_table d i) ∙ inv.fresh i (omega (arith, g.next_proc)) small;
      room = omega (arith, g.next_proc, g.room);
      later = λ i ge.
          start_other n f.result y.pc (suc i) (λ e. omega (arith, g.next_proc))
          ∙ inv.later i (omega (arith, g.next_proc));
      kproc = start_other n f.result y.pc 0 (λ e. omega arith) ∙ inv.kproc;
    }
