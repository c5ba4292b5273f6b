-- ===== src/Proc/System/Listed.antt =====
-- The parent's list of children once sys_fork (kern/syscall/proc_syscalls.c) is past as_copy.
use mathlib.Core.Path.{subst}
use os.Base.{
  lt→ltb, ℕ, zero, suc, ◌+◌, ◌<◌, ◌≡◌, ◌≢◌, refl, sym, ◌∙◌, ◌⊎◌, inl, inr, Bool, true, none, some,
  [], ◌∷◌, ◌++◌, Result, ok, ◌>>=◌, ◌==◌, not, einval, efault, echild, ==-false, update, ok-bind,
  if◌then◌else◌, arith,
}
use os.Proc.Table.{Process, Kernel, load, save, proc_create_runprogram, proc_destroy}
use os.Proc.Threads.{thread_fork}
use os.Proc.Syscalls.{
  ForkLuck, Forked, give_up, add_child, fork_thread, copy_frame, after_copy, fork_child, fork_with,
  sys_fork, is_exist_from, is_exist, waitpid_check,
}
use os.Proc.System.Inversion.{
  load-found, rest_of, ok-inj, update_other, update_same, proc_destroy_result, created,
  proc_create_runprogram_result,
}
use os.Proc.System.Effects.{with_child, add_child_result}
use os.Proc.System.Fork.{
  newborn, newborn_loads, thread_fork_result, fork_thread_fails, fork_thread_ok,
}

is_exist_from-suc :
    (left i pid : ℕ) (children : ℕ → ℕ)
    → is_exist_from (suc left) i pid children
      ≡ (if children i == pid then true else is_exist_from left (i + 1) pid children)
unfolding is_exist_from
is_exist_from-suc left i pid children = refl

found_later : (test : Bool) → (if test then true else true) ≡ true
found_later test = ground arith

is_exist_from_last :
    (left i pid : ℕ) (children : ℕ → ℕ)
    → is_exist_from (suc left) i pid (update children (i + left) pid) ≡ true
is_exist_from_last zero i pid children =
    let here : i + 0 ≡ i = omega arith in
    is_exist_from-suc zero i pid (update children (i + 0) pid) ∙ ground arith
is_exist_from_last (suc left) i pid children =
    let next : i + 1 + left ≡ i + suc left = omega arith in
    let list = update children (i + suc left) pid in
    let later = rw next at (is_exist_from_last left (i + 1) pid children) in
    is_exist_from-suc (suc left) i pid list
    ∙ (λ d. if list i == pid then true else later d)
    ∙ found_later (list i == pid)

is_exist-with_child : (p : Process) (pid : ℕ) → is_exist pid (with_child p pid) ≡ true
unfolding is_exist
is_exist-with_child p pid =
    let one : suc p.count_child ≡ p.count_child + 1 = omega arith in
    let start : 0 + p.count_child ≡ p.count_child = omega arith in
    let list = update p.child_array p.count_child pid in
    subst (λ (m : ℕ). is_exist_from m 0 pid list ≡ true) one
      (subst
        (λ (m : ℕ). is_exist_from (suc p.count_child) 0 pid (update p.child_array m pid) ≡ true)
        start (is_exist_from_last p.count_child 0 pid p.child_array))

-- The checks of sys_waitpid once the caller's process is known.
waitpid_check_of : ℕ → ℕ → Process → Result ℕ
waitpid_check_of pid status p = ok (
    if not (◌==◌ 0 0)
    then einval
    else if status == 0
    then efault
    else if is_exist pid p
    then 0
    else echild)

pub waitpid_check-listed :
    (a pid status : ℕ) (k : Kernel) (p : Process)
    → status ≢ 0
    → k.procs a ≡ some (with_child p pid)
    → waitpid_check a pid status 0 k ≡ ok 0
unfolding waitpid_check waitpid_check_of
waitpid_check-listed a pid status k p given at =
    (λ d. load-found a k (with_child p pid) at d >>= waitpid_check_of pid status)
    ∙ rw (==-false status 0 given, is_exist-with_child p pid) refl

module _ (luck : ForkLuck) (k : Kernel) (f : Forked) (parent : ℕ) (other : parent ≢ k.next_proc)
    (numbers : 0 < k.counter_pid) where
  -- The parent is as before but for a child more.
  abbrev pub Listed : Type 0
  Listed =
      (p : Process) × (k.procs parent ≡ some p)
      × (f.kernel.procs parent ≡ some (with_child p k.counter_pid))

  give_up_parent :
      (k' : Kernel) (code : ℕ)
      → give_up k.next_proc (suc code) k' ≡ ok f
      → f.kernel.procs parent ≡ k'.procs parent
  unfolding give_up
  give_up_parent k' code h =
      let n = k.next_proc in
      let (k'', e, h1) = ok-bind (proc_destroy n k') _ h in
      sym (λ i. (ok-inj h1 i).kernel.procs parent)
      ∙ (λ i. (proc_destroy_result n k' k'' e i).procs parent)
      ∙ update_other k'.procs n parent none (λ e. other (sym e))

  -- thread_fork and what follows it leave the parent alone.
  fork_thread_parent :
      (k' : Kernel) (c : Process)
      → k'.procs k.next_proc ≡ some c
      → (thread_fork luck.thread_memory luck.array_memory k.next_proc k.next_proc k'
          >>= fork_thread k.next_proc)
        ≡ ok f
      → f.kernel.procs parent ≡ k'.procs parent
  fork_thread_parent k' c at h =
      let n = k.next_proc in
      let ((k'', code), e, h1) =
        ok-bind (thread_fork luck.thread_memory luck.array_memory n n k') (fork_thread n) h in
      finish k'' code (thread_fork_result luck.thread_memory luck.array_memory n k' k'' c code at e)
        h1
    where
      finish :
          (k'' : Kernel) (code : ℕ)
          → ((code ≢ 0) × (k'' ≡ k'))
            ⊎ ((code ≡ 0)
                × (k'' ≡ record k' {
                  procs =
                      update k'.procs k.next_proc
                        (some (record c { p_threads = c.p_threads ++ k.next_proc ∷ [] }));
                  t_proc = update k'.t_proc k.next_proc (some k.next_proc);
                }))
          → fork_thread k.next_proc (k'', code) ≡ ok f
          → f.kernel.procs parent ≡ k'.procs parent
      finish k'' zero (inl (ne, _)) h1 = absurd (ne refl)
      finish k'' zero (inr (_, same)) h1 =
          let n = k.next_proc in
          let c' : Process = record c { p_threads = c.p_threads ++ n ∷ [] } in
          let there = (λ i. (same i).procs n) ∙ update_same k'.procs n (some c') in
          let end = ok-inj (sym (fork_thread_ok n k'' c' there) ∙ h1) in
          sym (λ i. (end i).kernel.procs parent)
          ∙ (λ i. (same i).procs parent)
          ∙ update_other k'.procs n parent (some c') (λ e. other (sym e))
      finish k'' (suc code) (inr (z, _)) h1 = absurd (omega arith)
      finish k'' (suc code) (inl (_, same)) h1 =
          give_up_parent k'' code (sym (fork_thread_fails k.next_proc code k'') ∙ h1)
          ∙ (λ i. (same i).procs parent)

  after_copy-Listed :
      after_copy zero luck parent k.next_proc k.counter_pid
          (created k (some (newborn luck k f numbers)))
        ≡ ok f
      → Listed
  unfolding after_copy
  after_copy-Listed h =
      let n = k.next_proc in
      let k1 = created k (some (newborn luck k f numbers)) in
      let c : Process = record (newborn luck k f numbers) { p_addrspace = some luck.new_space } in
      let h1 = rest_of (load n k1) _ (newborn_loads luck k f numbers) h in
      let (k2, e2, h2) = ok-bind (add_child parent k.counter_pid (save n c k1)) _ h1 in
      let (_, _, h3) = ok-bind (copy_frame luck.frame_memory) _ h2 in
      let (p, at, same) = add_child_result parent k.counter_pid (save n c k1) k2 e2 in
      let here =
        (λ i. (same i).procs n)
        ∙ update_other (save n c k1).procs parent n (some (with_child p k.counter_pid)) other
        ∙ update_same k1.procs n (some c) in
      let before =
        update_other k1.procs n parent (some c) (λ e. other (sym e))
        ∙ update_other k.procs n parent (some (newborn luck k f numbers)) (λ e. other (sym e)) in
      (
        p,
        sym before ∙ at,
        fork_thread_parent k2 c here h3
            ∙ (λ i. (same i).procs parent)
            ∙ update_same (save n c k1).procs parent (some (with_child p k.counter_pid)),
      )

  -- sys_fork once as_copy succeeded and a pid was taken.
  pub sys_fork-Listed :
      luck.creation.cv_memory ≡ true
      → luck.as_copy_result ≡ 0
      → f.kernel.counter_pid ≢ k.counter_pid
      → sys_fork luck parent k ≡ ok f
      → Listed
  unfolding sys_fork fork_with fork_child
  sys_fork-Listed cv copied took h =
      let ((k', r), e, h1) =
        ok-bind (proc_create_runprogram luck.creation k) (fork_with luck parent) h in
      elim (proc_create_runprogram_result luck.creation k k' r e) [
        | inl (re, ke) ↦
            let same = (λ i. fork_with luck parent (sym ke i, sym re i)) ∙ h1 in
            absurd (took (sym (λ i. (ok-inj same i).kernel.counter_pid)))
        | inr (room, inl (no_cv, _, _)) ↦ absurd (cc (sym cv ∙ no_cv))
        | inr (room, inr (re, ke)) ↦
            let same = (λ i. fork_with luck parent (sym ke i, sym re i)) ∙ h1 in
            after_copy-Listed (
              rw (lt→ltb 0 k.counter_pid numbers, copied) at
                (rest_of (load k.next_proc (created k (some (newborn luck k f numbers)))) _
                  (newborn_loads luck k f numbers) same))
      ]
