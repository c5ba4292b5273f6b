-- ===== src/Proc/System/Fork.antt =====
-- What sys_fork and common_prog (kern/syscall/proc_syscalls.c, kern/startup/menu.c) leave of the
-- process table.
use mathlib.Core.Path.{subst}
use os.Base.{
  lt→ltb, ℕ, zero, suc, ◌<◌, ◌≡◌, ◌≢◌, refl, sym, ◌∙◌, ◌⊎◌, inl, inr, Bool, true, false, Option,
  none, some, [], ◌∷◌, ◌++◌, Result, ok, ◌>>=◌, ==-false, update, ok-bind, enomem, arith,
}
use os.Proc.Table.{Process, Kernel, load, save, fresh_process, proc_create_runprogram, proc_destroy}
use os.Proc.Threads.{proc_addthread, thread_fork}
use os.Proc.Syscalls.{
  ForkLuck, Forked, give_up, add_child, fork_thread, menu_thread, copy_frame, after_copy,
  fork_child, fork_with, sys_fork, launch_in, launch,
}
use os.Proc.System.Inversion.{
  load-found, rest_of, ok-inj, update_other, update_same, proc_destroy_result, created,
  proc_create_runprogram_result,
}
use os.Proc.System.Effects.{
  Grows, Grows-weaken, created-Grows, Grows-change, with_child, add_child_result, Grows-list,
}

-- How the new process ends up: started, with its thread, or not in memory.
abbrev pub Born : ℕ → Kernel → Option Process → Option ℕ → Type 0
Born result k o t =
    ((result ≡ 0)
      × (t ≡ some k.next_proc)
      × ((c : Process) × (o ≡ some c)
          × (c.pid ≡ k.counter_pid)
          × (c.count_child ≡ 0)
          × (c.p_threads ≡ k.next_proc ∷ [])))
    ⊎ ((result ≢ 0) × (o ≡ none))

-- The outcome of a call that was to make a process.
abbrev pub Made : Kernel → Forked → Type 0
Made k f =
    ((f.result ≢ 0) × (f.kernel ≡ k))
    ⊎ (Grows true k f.kernel
        × Born f.result k (f.kernel.procs k.next_proc) (f.kernel.t_proc k.next_proc))

give_up-Made :
    (listed : Bool) (k k' : Kernel) (result : ℕ) (f : Forked)
    → Grows listed k k'
    → give_up k.next_proc (suc result) k' ≡ ok f
    → Made k f
unfolding give_up
give_up-Made listed k k' result f g h =
    let (k'', e, h1) = ok-bind (proc_destroy k.next_proc k') _ h in
    let same = proc_destroy_result k.next_proc k' k'' e in
    let grown =
      Grows-change listed k k' none k'.t_proc k''.proc_count k''.no_proc_sem (λ j ne. refl) g in
    subst (Made k) (ok-inj h1) (
      inr (
        subst (Grows true k) (sym same) (Grows-weaken grown),
        inr (
          (λ z. omega arith),
          (λ i. (same i).procs k.next_proc) ∙ update_same k'.procs k.next_proc none,
        ),
      ))

pub thread_fork_result :
    (memory array_memory : Bool) (child : ℕ) (k k' : Kernel) (p : Process) (code : ℕ)
    → k.procs child ≡ some p
    → thread_fork memory array_memory child child k ≡ ok (k', code)
    → ((code ≢ 0) × (k' ≡ k))
      ⊎ ((code ≡ 0)
          × (k' ≡ record k {
            procs =
                update k.procs child (some (record p { p_threads = p.p_threads ++ child ∷ [] }));
            t_proc = update k.t_proc child (some child);
          }))
unfolding thread_fork proc_addthread load save
thread_fork_result memory array_memory child k k' p code at h = ground (arith, at)

-- thread_fork and what follows it, for a new process `c` with no thread.
fork_thread-Made :
    (luck : ForkLuck) (k k' : Kernel) (c : Process) (f : Forked)
    → Grows true k k'
    → k'.procs k.next_proc ≡ some c
    → c.pid ≡ k.counter_pid
    → c.count_child ≡ 0
    → c.p_threads ≡ []
    → (later : Kernel × ℕ → Result Forked)
    → ((k'' : Kernel) (code : ℕ) → later (k'', suc code) ≡ give_up k.next_proc (suc code) k'')
    → ((k'' : Kernel) (c' : Process)
        → k''.procs k.next_proc ≡ some c'
        → (r : Option ℕ) × (later (k'', zero)
            ≡ ok (record { kernel = k''; result = 0; retval = r })))
    → (thread_fork luck.thread_memory luck.array_memory k.next_proc k.next_proc k' >>= later) ≡ ok f
    → Made k f
fork_thread-Made luck k k' c f g at pid_e count_e threads_e later fails succeeds h =
    let n = k.next_proc in
    let ((k'', code), e, h1) =
      ok-bind (thread_fork luck.thread_memory luck.array_memory n n k') later h in
    finish k'' code (thread_fork_result luck.thread_memory luck.array_memory n k' k'' c code at e)
      h1
  where
    finish :
        (k'' : Kernel) (code : ℕ)
        → ((code ≢ 0) × (k'' ≡ k'))
          ⊎ ((code ≡ 0)
              × (k'' ≡ record k' {
                procs =
                    update k'.procs k.next_proc
                      (some (record c { p_threads = c.p_threads ++ k.next_proc ∷ [] }));
                t_proc = update k'.t_proc k.next_proc (some k.next_proc);
              }))
        → later (k'', code) ≡ ok f
        → Made k f
    finish k'' zero r h1 = elim r [
      | inl (ne, _) ↦ absurd (ne refl)
      | inr (_, same) ↦
          let n = k.next_proc in
          let c' : Process = record c { p_threads = c.p_threads ++ n ∷ [] } in
          let there = (λ i. (same i).procs n) ∙ update_same k'.procs n (some c') in
          let (r, end) = succeeds k'' c' there in
          let grown =
            Grows-change true k k' (some c') (update k'.t_proc n (some n)) k'.proc_count
              k'.no_proc_sem (λ j ne. rw (==-false n j (λ e. ne (sym e)))) g in
          subst (Made k) (ok-inj (sym end ∙ h1)) (
            inr (
              subst (Grows true k) (sym same) grown,
              inl (
                refl,
                (λ i. (same i).t_proc n) ∙ update_same k'.t_proc n (some n),
                (c', there, pid_e, count_e, rw threads_e),
              ),
            ))
    ]
    finish k'' (suc code) r h1 = elim r [
      | inl (_, same) ↦
          give_up-Made true k k'' code f (subst (Grows true k) (sym same) g)
            (sym (fails k'' code) ∙ h1)
      | inr (z, _) ↦ absurd (omega arith)
    ]

pub fork_thread_fails :
    (child code : ℕ) (k : Kernel) → fork_thread child (k, suc code) ≡ give_up child (suc code) k
unfolding fork_thread
fork_thread_fails child code k = refl

pub fork_thread_ok :
    (child : ℕ) (k : Kernel) (c : Process)
    → k.procs child ≡ some c
    → fork_thread child (k, zero) ≡ ok (record { kernel = k; result = 0; retval = some c.pid })
unfolding fork_thread
fork_thread_ok child k c at i =
    load-found child k c at i >>= λ c'. ok (record { kernel = k; result = 0; retval = some c'.pid })

menu_thread_fails :
    (child code : ℕ) (k : Kernel) → menu_thread child (k, suc code) ≡ give_up child (suc code) k
unfolding menu_thread
menu_thread_fails child code k = refl

menu_thread_ok :
    (child : ℕ) (k : Kernel)
    → menu_thread child (k, zero) ≡ ok (record { kernel = k; result = 0; retval = none })
unfolding menu_thread
menu_thread_ok child k = refl

module _ (luck : ForkLuck) (k : Kernel) (f : Forked) (numbers : 0 < k.counter_pid) where
  -- What proc_create_runprogram gives to its callers.
  abbrev pub newborn : Process
  newborn = record fresh_process { pid = k.counter_pid; is_alive = true }

  -- Behind proc_create_runprogram: `later` fails without a process, and is followed with one.
  newborn-Made :
      (later : Kernel × Option ℕ → Result Forked) (retval : Option ℕ)
      → ((k' : Kernel)
          → later (k', none) ≡ ok (record { kernel = k'; result = enomem; retval = retval }))
      → (Grows false k (created k (some newborn))
          → later (created k (some newborn), some k.next_proc) ≡ ok f
          → Made k f)
      → (proc_create_runprogram luck.creation k >>= later) ≡ ok f
      → Made k f
  newborn-Made later retval fails follows h =
      let ((k', r), e, h1) = ok-bind (proc_create_runprogram luck.creation k) later h in
      elim (proc_create_runprogram_result luck.creation k k' r e) [
        | inl (re, ke) ↦
            let same = sym (fails k) ∙ (λ i. later (sym ke i, sym re i)) ∙ h1 in
            subst (Made k) (ok-inj same) (inl (λ z. omega arith, refl))
        | inr (room, inl (_, re, ke)) ↦
            let same = sym (fails (created k none)) ∙ (λ i. later (sym ke i, sym re i)) ∙ h1 in
            subst (Made k) (ok-inj same) (
              inr (
                Grows-weaken (created-Grows k none room),
                inr ((λ z. omega arith), update_same k.procs k.next_proc none),
              ))
        | inr (room, inr (re, ke)) ↦
            follows (created-Grows k (some newborn) room) ((λ i. later (sym ke i, sym re i)) ∙ h1)
      ]

  pub newborn_loads : load k.next_proc (created k (some newborn)) ≡ ok newborn
  unfolding load
  newborn_loads = rw (update_same k.procs k.next_proc (some newborn), load)

  after_copy-Made :
      (result parent : ℕ)
      → parent ≢ k.next_proc
      → Grows false k (created k (some newborn))
      → after_copy result luck parent k.next_proc k.counter_pid (created k (some newborn)) ≡ ok f
      → Made k f
  unfolding after_copy
  after_copy-Made (suc result) parent ne g h = give_up-Made false k _ result f g h
  after_copy-Made zero parent ne g h =
      let n = k.next_proc in
      let k1 = created k (some newborn) in
      let c : Process = record newborn { p_addrspace = some luck.new_space } in
      let h1 = rest_of (load n k1) _ newborn_loads h in
      let (k2, e2, h2) = ok-bind (add_child parent k.counter_pid (save n c k1)) _ h1 in
      let (_, _, h3) = ok-bind (copy_frame luck.frame_memory) _ h2 in
      let g1 =
        Grows-change false k k1 (some c) k1.t_proc k1.proc_count k1.no_proc_sem (λ j _. refl) g in
      let (p, at, same) = add_child_result parent k.counter_pid (save n c k1) k2 e2 in
      let g2 = Grows-list k (save n c k1) parent p ne at g1 in
      let here =
        (λ i. (same i).procs n)
        ∙ update_other (save n c k1).procs parent n (some (with_child p k.counter_pid)) ne
        ∙ update_same k1.procs n (some c) in
      fork_thread-Made luck k k2 c f (subst (Grows true k) (sym same) g2) here refl refl refl
        (fork_thread n) (λ k'' code. fork_thread_fails n code k'')
        (λ k'' c' at. (some c'.pid, fork_thread_ok n k'' c' at)) h3

  pub launch-Made : launch luck k ≡ ok f → Made k f
  unfolding launch launch_in
  launch-Made h =
      newborn-Made (launch_in luck) none (λ k'. refl)
        (λ g h1.
          fork_thread-Made luck k (created k (some newborn)) newborn f (Grows-weaken g)
            (update_same k.procs k.next_proc (some newborn)) refl refl refl
            (menu_thread k.next_proc) (λ k'' code. menu_thread_fails k.next_proc code k'')
            (λ k'' c' at. (none, menu_thread_ok k.next_proc k'')) h1)
        h

  pub sys_fork-Made : (parent : ℕ) → parent ≢ k.next_proc → sys_fork luck parent k ≡ ok f → Made k f
  unfolding sys_fork fork_with fork_child
  sys_fork-Made parent ne h =
      newborn-Made (fork_with luck parent) (some 1) (λ k'. refl)
        (λ g h1. after_copy-Made luck.as_copy_result parent ne g (
          rw (lt→ltb 0 k.counter_pid numbers) at
            (rest_of (load k.next_proc (created k (some newborn))) _ newborn_loads h1)))
        h
