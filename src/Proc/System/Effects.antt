-- ===== src/Proc/System/Effects.antt =====
-- What the creation of a process changes in the process table (kern/proc/proc.c), slot by slot.
use os.Base.{
  ℕ, ◌+◌, ◌-◌, ◌<◌, ◌≡◌, ◌≢◌, refl, sym, ◌∙◌, ◌⊎◌, inl, inr, Bool, true, false, ◌==◌, Option, some,
  ok, ==_iff, ==-false, update, ok-bind, Bool-cases, arith,
}
use os.Proc.Table.{Process, Kernel, load, save, in_table}
use os.Proc.Syscalls.{add_child}
use os.Proc.System.Inversion.{ok-inj, load-eq-ok, created}

-- A process that is not the new one: as before or, once the parent lists it, with a child more.
abbrev pub Kept : Bool → ℕ → Option Process → Option Process → Type 0
Kept false pid o o' = o' ≡ o
Kept true pid o o' =
    (o' ≡ o)
    ⊎ ((p : Process) × (o ≡ some p)
        × (o'
            ≡ some (record p {
              child_array = update p.child_array p.count_child pid;
              count_child = p.count_child + 1;
            })))

-- One address and one pid were handed out.
pub record Grows (listed : Bool) (k k' : Kernel) : Type 0 where
  pub room : k.counter_pid - 2 < 64
  pub next_proc : k'.next_proc ≡ k.next_proc + 1
  pub counter_pid : k'.counter_pid ≡ k.counter_pid + 1
  pub proc_table : k'.proc_table ≡ update k.proc_table (k.counter_pid - 2) (some k.next_proc)
  pub exit_table : k'.exit_table ≡ k.exit_table
  pub alive_table : k'.alive_table ≡ k.alive_table
  pub t_proc : (j : ℕ) → j ≢ k.next_proc → k'.t_proc j ≡ k.t_proc j
  pub procs : (j : ℕ) → j ≢ k.next_proc → Kept listed k.counter_pid (k.procs j) (k'.procs j)

pub created-Grows :
    (k : Kernel) (o : Option Process) → k.counter_pid - 2 < 64 → Grows false k (created k o)
created-Grows k o room = record {
  room = room;
  next_proc = refl;
  counter_pid = refl;
  proc_table = refl;
  exit_table = refl;
  alive_table = refl;
  t_proc = λ j ne. refl;
  procs = λ j ne. ground arith;
}

Kept-weaken :
    (listed : Bool) (pid : ℕ) (o o' : Option Process) → Kept listed pid o o' → Kept true pid o o'
Kept-weaken true pid o o' h = h
Kept-weaken false pid o o' h = inl h

pub Grows-weaken : {listed : Bool} {k k' : Kernel} → Grows listed k k' → Grows true k k'
Grows-weaken {listed} {k} {k'} g = record {
  room = g.room;
  next_proc = g.next_proc;
  counter_pid = g.counter_pid;
  proc_table = g.proc_table;
  exit_table = g.exit_table;
  alive_table = g.alive_table;
  t_proc = g.t_proc;
  procs = λ j ne. Kept-weaken listed k.counter_pid (k.procs j) (k'.procs j) (g.procs j ne);
}

-- A change of the new process's own slots.
pub Grows-change :
    (listed : Bool) (k k' : Kernel) (o : Option Process) (t : ℕ → Option ℕ) (count sem : ℕ)
    → ((j : ℕ) → j ≢ k.next_proc → t j ≡ k'.t_proc j)
    → Grows listed k k'
    → Grows listed k (record k' {
      procs = update k'.procs k.next_proc o;
      t_proc = t;
      proc_count = count;
      no_proc_sem = sem;
    })
Grows-change listed k k' o t count sem same g = record {
  room = g.room;
  next_proc = g.next_proc;
  counter_pid = g.counter_pid;
  proc_table = g.proc_table;
  exit_table = g.exit_table;
  alive_table = g.alive_table;
  t_proc = λ j ne. same j ne ∙ g.t_proc j ne;
  procs = λ j ne. rw (==-false k.next_proc j (λ e. ne (sym e))) (g.procs j ne);
}

-- The parent's process with one child more.
abbrev pub with_child : Process → ℕ → Process
with_child p pid = record p {
  child_array = update p.child_array p.count_child pid;
  count_child = p.count_child + 1;
}

pub add_child_result :
    (parent pid : ℕ) (k k' : Kernel)
    → add_child parent pid k ≡ ok k'
    → (p : Process) × (k.procs parent ≡ some p)
      × (k' ≡ record k { procs = update k.procs parent (some (with_child p pid)) })
unfolding add_child save
add_child_result parent pid k k' h =
    let (p, e, h1) = ok-bind (load parent k) _ h in
    let (_, _, h2) = ok-bind (in_table p.count_child) _ h1 in
    (p, load-eq-ok parent k e, sym (ok-inj h2))

pub Grows-list :
    (k k' : Kernel) (parent : ℕ) (p : Process)
    → parent ≢ k.next_proc
    → k'.procs parent ≡ some p
    → Grows false k k'
    → Grows true k
        (record k' { procs = update k'.procs parent (some (with_child p k.counter_pid)) })
Grows-list k k' parent p ne at g = record {
  room = g.room;
  next_proc = g.next_proc;
  counter_pid = g.counter_pid;
  proc_table = g.proc_table;
  exit_table = g.exit_table;
  alive_table = g.alive_table;
  t_proc = g.t_proc;
  procs = λ j other. elim (Bool-cases (parent == j)) [
    | inl e ↦
        let same = (==_iff parent j).0 e in
        rw e (inr (p, sym (g.procs j other) ∙ (λ i. k'.procs (sym same i)) ∙ at, refl))
    | inr e ↦ rw e (inl (g.procs j other))
  ];
}
