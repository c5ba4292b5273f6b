-- ===== src/Proc/System/Leaving.antt =====
-- What curproc_setas and the two halves of sys__exit leave of the process table (kern/proc/proc.c).
use mathlib.Core.Path.{subst}
use os.Base.{
  ℕ, ◌-◌, ◌≡◌, ◌≢◌, sym, ◌∙◌, false, Option, none, some, List, ok, kassert, update, ok-bind, arith,
}
use os.Proc.Table.{Process, Kernel, load, save, in_table}
use os.Proc.Threads.{remove_from, leave, remove_thread, proc_remthread}
use os.Proc.Syscalls.{is_some, curproc_setas, mkwait_exit, exit_record, exit_leave}
use os.Proc.System.Inversion.{load-eq-ok, ok-inj, update_same, update_other, proc_destroy_result}

pub curproc_setas_result :
    (a : ℕ) (newas old : Option ℕ) (k k' : Kernel)
    → curproc_setas a newas k ≡ ok (k', old)
    → (p : Process) × (k.procs a ≡ some p)
      × (k' ≡ record k { procs = update k.procs a (some (record p { p_addrspace = newas })) })
unfolding curproc_setas save
curproc_setas_result a newas old k k' h =
    let (p, e, h1) = ok-bind (load a k) _ h in (p, load-eq-ok a k e, ground (arith, ok-inj h1))

-- The process as exit_record marks it.
abbrev pub marked : Process → ℕ → Process
marked p exitcode = record p { is_alive = false; code = exitcode; status = mkwait_exit exitcode }

pub exit_record_result :
    (a exitcode : ℕ) (k k' : Kernel)
    → exit_record a exitcode k ≡ ok k'
    → (p : Process) × (k.procs a ≡ some p)
      × (k' ≡ record k {
        procs = update k.procs a (some (marked p exitcode));
        exit_table = update k.exit_table (p.pid - 2) exitcode;
        alive_table = update k.alive_table (p.pid - 2) false;
      })
unfolding exit_record save
exit_record_result a exitcode k k' h =
    let (p, e, h1) = ok-bind (load a k) _ h in
    let (_, _, h2) = ok-bind (kassert (is_some p.p_addrspace)) _ h1 in
    let (_, _, h3) = ok-bind (in_table (p.pid - 2)) _ h2 in (p, load-eq-ok a k e, sym (ok-inj h3))

-- Process `a` and its only thread are gone.
pub record Left (a : ℕ) (k k' : Kernel) : Type 0 where
  pub next_proc : k'.next_proc ≡ k.next_proc
  pub counter_pid : k'.counter_pid ≡ k.counter_pid
  pub proc_table : k'.proc_table ≡ k.proc_table
  pub exit_table : k'.exit_table ≡ k.exit_table
  pub alive_table : k'.alive_table ≡ k.alive_table
  pub t_proc : (j : ℕ) → j ≢ a → k'.t_proc j ≡ k.t_proc j
  pub procs : (j : ℕ) → j ≢ a → k'.procs j ≡ k.procs j
  pub freed : k'.procs a ≡ none

leave_result :
    (a : ℕ) (p : Process) (rest : Option (List ℕ)) (k k' : Kernel)
    → leave a a p rest k ≡ ok k'
    → (p' : Process) × (k'
        ≡ record k { procs = update k.procs a (some p'); t_proc = update k.t_proc a none })
unfolding leave save
leave_result a p none k k' h = cc
leave_result a p (some rest) k k' h = (record p { p_threads = rest }, sym (ok-inj h))

proc_remthread_result :
    (a : ℕ) (k k' : Kernel)
    → k.t_proc a ≡ some a
    → proc_remthread a k ≡ ok k'
    → (p : Process) × (k'
        ≡ record k { procs = update k.procs a (some p); t_proc = update k.t_proc a none })
unfolding proc_remthread remove_from save
proc_remthread_result a k k' mine h =
    let h1 = sym (λ i. remove_from a (mine i) k) ∙ h in
    let (p, e, h2) = ok-bind (load a k) _ h1 in
    leave_result a p (remove_thread a p.p_threads) k k' h2

pub exit_leave-Left :
    (a : ℕ) (k k' : Kernel) → k.t_proc a ≡ some a → exit_leave a a k ≡ ok k' → Left a k k'
unfolding exit_leave
exit_leave-Left a k k' mine h =
    let ((k1, old), e1, h1) = ok-bind (curproc_setas a none k) _ h in
    let (k2, e2, h2) = ok-bind (proc_remthread a k1) _ h1 in
    let (p, _, same1) = curproc_setas_result a none old k k1 e1 in
    let mine1 = (λ i. (same1 i).t_proc a) ∙ mine in
    let (p', same2) = proc_remthread_result a k1 k2 mine1 e2 in
    let same3 = proc_destroy_result a k2 k' h2 in
    let all = same3 ∙ (λ i. record (same2 i) {
      procs = update (same2 i).procs a none;
      proc_count = k'.proc_count;
      no_proc_sem = k'.no_proc_sem;
    }) in
    subst (Left a k) (sym all) (record {
      next_proc = λ i. (same1 i).next_proc;
      counter_pid = λ i. (same1 i).counter_pid;
      proc_table = λ i. (same1 i).proc_table;
      exit_table = λ i. (same1 i).exit_table;
      alive_table = λ i. (same1 i).alive_table;
      t_proc =
          λ j ne. update_other k1.t_proc a j none (λ e. ne (sym e)) ∙ (λ i. (same1 i).t_proc j);
      procs = λ j ne.
          let ne' : a ≢ j = λ e. ne (sym e) in
          update_other (update k1.procs a (some p')) a j none ne'
          ∙ update_other k1.procs a j (some p') ne'
          ∙ (λ i. (same1 i).procs j)
          ∙ update_other k.procs a j (some (record p { p_addrspace = none })) ne';
      freed = update_same (update k1.procs a (some p')) a none;
    })
