-- ===== src/Proc/System/Kept.antt =====
-- Every step of the process model keeps what the slots of the process table (kern/proc/proc.c) hold.
use mathlib.Core.Path.{subst}
use os.Base.{
  ℕ, suc, ◌+◌, ◌-◌, ◌<◌, ◌≡◌, ◌≢◌, refl, sym, ◌∙◌, ◌⊎◌, inl, inr, false, ◌==◌, ==_iff, Option, none,
  some, ok, update, Bool-cases, arith,
}
use os.Proc.Table.{Process, Kernel}
use os.Proc.Syscalls.{curproc_setas, exit_record, exit_leave}
use os.Proc.System.{Pc, absent, running, exiting, gone, System, wake}
use os.Proc.System.Leaving.{curproc_setas_result, marked, exit_record_result, exit_leave-Left}
use os.Proc.System.Inversion.{update_same, update_other}
use os.Proc.System.Invariant.{
  Holds-wake, some-inj, Present-changed, Present, Holds, Inv, Holds-map, Holds-same,
}

dec_eq : (a b : ℕ) → (a ≡ b) ⊎ (a ≢ b)
dec_eq a b = elim (Bool-cases (a == b)) [
  | inl e ↦ inl ((==_iff a b).0 e)
  | inr e ↦ inr (λ q. ground (arith, e, q))
]

not_none : {p : Process} → some p ≡ none → ⊥
not_none h = cc

-- A step of process `i + 1` that hands out no pid.
step-Inv :
    {y : System} (k' : Kernel) (pc' : ℕ → Pc) (i : ℕ)
    → Inv y
    → k'.next_proc ≡ y.kernel.next_proc
    → k'.counter_pid ≡ y.kernel.counter_pid
    → k'.proc_table ≡ y.kernel.proc_table
    → ((j : ℕ) → j ≢ i → k'.alive_table j ≡ y.kernel.alive_table j)
    → suc i < y.kernel.next_proc
    → ((a : ℕ) → a ≢ suc i → y.pc a ≡ absent → pc' a ≡ absent)
    → Holds (pc' (suc i)) k' i
    → ((j : ℕ) → j ≢ i → Holds (y.pc (suc j)) y.kernel j → Holds (pc' (suc j)) k' j)
    → Inv (record { kernel = k'; pc = pc' })
step-Inv {y} k' pc' i inv nexts counters tables alive lt out here others = record {
  booted = rw nexts inv.booted;
  counter = omega (arith, inv.counter);
  table = λ j there. (λ d. tables d j) ∙ inv.table j (omega arith);
  holds = λ j there. elim (dec_eq j i) [
    | inl same ↦ rw same here
    | inr ne ↦ others j ne (inv.holds j (omega arith))
  ];
  fresh = λ j ge small. alive j (λ e. omega arith) ∙ inv.fresh j (omega arith) small;
  room = omega (arith, inv.room);
  later = λ j ge. out (suc j) (λ e. omega arith) (inv.later j (omega arith));
  kproc = out 0 (λ e. omega arith) inv.kproc;
}

update_at :
    (pc : ℕ → Pc) (a : ℕ) (c : Pc) (b : ℕ) → b ≢ a → pc b ≡ absent → update pc a c b ≡ absent
update_at pc a c b ne e = update_other pc a b c (λ q. ne (sym q)) ∙ e

wake_absent : (a : ℕ) → wake a absent ≡ absent
unfolding wake
wake_absent a = refl

module _ {y : System} (inv : Inv y) (i : ℕ) (lt : suc i < y.kernel.next_proc) where
  -- Only where process `i + 1` stands changes.
  pub move-Inv :
      (c : Pc)
      → (Holds (y.pc (suc i)) y.kernel i → Holds c y.kernel i)
      → Inv (record { kernel = y.kernel; pc = update y.pc (suc i) c })
  move-Inv c keeps =
      step-Inv y.kernel (update y.pc (suc i) c) i inv refl refl refl (λ j ne. refl) lt
        (update_at y.pc (suc i) c) (rw (update_same y.pc (suc i) c) (keeps (inv.holds i lt)))
        (λ j ne h. rw (update_other y.pc (suc i) (suc j) c (λ e. ne (omega arith))) h)

  pub setas-Inv :
      (newas old : Option ℕ) (k' : Kernel)
      → y.pc (suc i) ≡ running
      → curproc_setas (suc i) newas y.kernel ≡ ok (k', old)
      → Inv (record { kernel = k'; pc = y.pc })
  setas-Inv newas old k' at h =
      let (p, mem, same) = curproc_setas_result (suc i) newas old y.kernel k' h in
      let p' : Process = record p { p_addrspace = newas } in
      let k1 : Kernel = record y.kernel { procs = update y.kernel.procs (suc i) (some p') } in
      let mem' = update_same y.kernel.procs (suc i) (some p') in
      subst (λ k. Inv (record { kernel = k; pc = y.pc })) (sym same)
        (step-Inv k1 y.pc i inv refl refl refl (λ j ne. refl) lt (λ a ne e. e)
          (Holds-map (y.pc (suc i)) y.kernel k1 i
            (Present-changed y.kernel k1 i p p' mem mem' refl refl refl refl refl)
            (λ away. absurd (not_none (sym mem ∙ away))) refl refl (inv.holds i lt))
          (λ j ne.
            Holds-same (y.pc (suc j)) y.kernel k1 j
              (update_other y.kernel.procs (suc i) (suc j) (some p') (λ e. ne (omega arith))) refl
              refl refl refl))

  -- The process is still in memory, with this pid.
  pub Present-pid :
      (p : Process) → Present y.kernel i → y.kernel.procs (suc i) ≡ some p → p.pid - 2 ≡ i
  Present-pid p (q, at_q, pid_q, _, _) at =
      let q_e : q ≡ p = some-inj (sym at_q ∙ at) in
      let pid_e : p.pid ≡ i + 2 = (λ i. (sym q_e i).pid) ∙ pid_q in omega arith

  pub exit-Inv :
      (exitcode : ℕ) (k' : Kernel)
      → y.pc (suc i) ≡ running
      → exit_record (suc i) exitcode y.kernel ≡ ok k'
      → Inv (record {
        kernel = k';
        pc = update (λ j. wake (suc i) (y.pc j)) (suc i) (exiting exitcode);
      })
  exit-Inv exitcode k' at h =
      let pc' = update (λ j. wake (suc i) (y.pc j)) (suc i) (exiting exitcode) in
      let (p, mem, same) = exit_record_result (suc i) exitcode y.kernel k' h in
      let p' = marked p exitcode in
      let (present, alive) = subst (λ c. Holds c y.kernel i) at (inv.holds i lt) in
      let index = Present-pid p present mem in
      let k1 : Kernel = record y.kernel {
        procs = update y.kernel.procs (suc i) (some p');
        exit_table = update y.kernel.exit_table i exitcode;
        alive_table = update y.kernel.alive_table i false;
      } in
      let same1 : k' ≡ k1 = same ∙ (λ d. record y.kernel {
        procs = update y.kernel.procs (suc i) (some p');
        exit_table = update y.kernel.exit_table (index d) exitcode;
        alive_table = update y.kernel.alive_table (index d) false;
      }) in
      let mem' = update_same y.kernel.procs (suc i) (some p') in
      subst (λ k. Inv (record { kernel = k; pc = pc' })) (sym same1)
        (step-Inv k1 pc' i inv refl refl refl
          (λ j ne. update_other y.kernel.alive_table i j false (λ e. ne (sym e))) lt
          (λ a ne e.
            update_other (λ j. wake (suc i) (y.pc j)) (suc i) a (exiting exitcode) (λ q. ne (sym q))
            ∙ (λ d. wake (suc i) (e d))
            ∙ wake_absent (suc i))
          (rw (update_same (λ j. wake (suc i) (y.pc j)) (suc i) (exiting exitcode)) (
            Present-changed y.kernel k1 i p p' mem mem' refl refl refl refl refl present,
            update_same y.kernel.alive_table i false,
            update_same y.kernel.exit_table i exitcode,
          ))
          (λ j ne held.
            let ne' : suc i ≢ suc j = λ e. ne (omega arith) in
            let apart : i ≢ j = λ e. ne (sym e) in
            rw (update_other (λ j. wake (suc i) (y.pc j)) (suc i) (suc j) (exiting exitcode) ne') (
              Holds-wake (suc i) (y.pc (suc j)) k1 j (
                Holds-same (y.pc (suc j)) y.kernel k1 j
                  (update_other y.kernel.procs (suc i) (suc j) (some p') ne') refl refl
                  (update_other y.kernel.alive_table i j false apart)
                  (update_other y.kernel.exit_table i j exitcode apart) held))))

  pub leave-Inv :
      (exitcode : ℕ) (k' : Kernel)
      → y.pc (suc i) ≡ exiting exitcode
      → exit_leave (suc i) (suc i) y.kernel ≡ ok k'
      → Inv (record { kernel = k'; pc = update y.pc (suc i) (gone exitcode) })
  leave-Inv exitcode k' at h =
      let (present, alive, code) = subst (λ c. Holds c y.kernel i) at (inv.holds i lt) in
      let left = exit_leave-Left (suc i) y.kernel k' present.3 h in
      step-Inv k' (update y.pc (suc i) (gone exitcode)) i inv left.next_proc left.counter_pid
        left.proc_table (λ j ne. (λ d. left.alive_table d j)) lt
        (update_at y.pc (suc i) (gone exitcode))
        (rw (update_same y.pc (suc i) (gone exitcode))
          (left.freed, (λ d. left.alive_table d i) ∙ alive, (λ d. left.exit_table d i) ∙ code))
        (λ j ne held.
          let ne' : suc j ≢ suc i = λ e. ne (omega arith) in
          rw (update_other y.pc (suc i) (suc j) (gone exitcode) (λ e. ne' (sym e))) (
            Holds-same (y.pc (suc j)) y.kernel k' j (left.procs (suc j) ne')
              (left.t_proc (suc j) ne') left.counter_pid (λ d. left.alive_table d j)
              (λ d. left.exit_table d j) held))
