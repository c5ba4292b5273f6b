-- ===== src/Proc/System/Inversion.antt =====
-- What a successful call of the operations of kern/proc/proc.c and proc_syscalls.c leaves.
use mathlib.Core.Path.{fun_ext}
use os.Base.{
  ==-false, ℕ, ◌+◌, ◌-◌, ◌<◌, ◌≡◌, ◌≢◌, sym, ◌∙◌, ◌⊎◌, inl, inr, Bool, true, false, Option, none,
  some, Result, ok, ◌>>=◌, update, ok-bind, arith,
}
use os.Proc.Table.{
  Process, Kernel, Luck, load, save, in_table, fresh_process, proc_create, take_pid, set_children,
  number_process, proc_create_runprogram, cv_of, uncount, proc_destroy,
}

-- The rest of a chain whose first step succeeds with `a`.
pub rest_of {ℓ κ} :
    {A : Type ℓ} {B : Type κ} (m : Result A) (f : A → Result B) {a : A} {b : B}
    → m ≡ ok a
    → (m >>= f) ≡ ok b
    → f a ≡ ok b
rest_of m f e h = sym (λ i. e i >>= f) ∙ h

pub ok-inj {ℓ} : {A : Type ℓ} {a b : A} → ok a ≡ ok b → a ≡ b
ok-inj h = cc

pub update_other {ℓ} : {A : Type ℓ} (f : ℕ → A) (i j : ℕ) (v : A) → i ≢ j → update f i v j ≡ f j
update_other f i j v ne = rw (==-false i j ne)

pub load-eq-ok : (proc : ℕ) (k : Kernel) {p : Process} → load proc k ≡ ok p → k.procs proc ≡ some p
unfolding load
load-eq-ok proc k h = ground arith

pub load-found : (proc : ℕ) (k : Kernel) (p : Process) → k.procs proc ≡ some p → load proc k ≡ ok p
unfolding load
load-found proc k p at = rw (at, load)

-- proc_destroy takes one process out of memory.
pub proc_destroy_result :
    (proc : ℕ) (k k' : Kernel)
    → proc_destroy proc k ≡ ok k'
    → k' ≡ record k {
      procs = update k.procs proc none;
      proc_count = k'.proc_count;
      no_proc_sem = k'.no_proc_sem;
    }
unfolding proc_destroy uncount
proc_destroy_result proc k k' h =
    let (p, _, h1) = ok-bind (load proc k) _ h in
    let (c, _, h2) = ok-bind (cv_of (p.pid - 2) k) _ h1 in ground (arith, h2)

load-save : (proc : ℕ) (p : Process) (k : Kernel) → load proc (save proc p k) ≡ ok p
unfolding load save
load-save proc p k = ground arith

pub update_twice {ℓ} :
    {A : Type ℓ} (f : ℕ → A) (i : ℕ) (u v : A) → update (update f i u) i v ≡ update f i v
update_twice f i u v = fun_ext (λ j. ground arith)

pub update_same {ℓ} : {A : Type ℓ} (f : ℕ → A) (i : ℕ) (v : A) → update f i v i ≡ v
update_same f i v = ground arith

take_pid_result :
    (proc : ℕ) (k k' : Kernel) (p : Process)
    → k.procs proc ≡ some p
    → take_pid proc k ≡ ok k'
    → (k.counter_pid - 2 < 64)
      × (k' ≡ record k {
        procs = update k.procs proc (some (record p { pid = k.counter_pid }));
        proc_table = update k.proc_table (k.counter_pid - 2) (some proc);
        counter_pid = k.counter_pid + 1;
      })
unfolding take_pid load save in_table
take_pid_result proc k k' p at h = (ground (arith, at), ground (arith, at))

set_children_result :
    (luck : Luck) (proc : ℕ) (k k' : Kernel) (p : Process) (r : Option ℕ)
    → k.procs proc ≡ some p
    → set_children luck proc k ≡ ok (k', r)
    → ((luck.cv_memory ≡ false) × (r ≡ none) × (k' ≡ record k { procs = update k.procs proc none }))
      ⊎ ((r ≡ some proc)
          × (k' ≡ record k {
            procs = update k.procs proc (some (record p { count_child = 0; is_alive = true }));
          }))
unfolding set_children load save
set_children_result luck proc k k' p r at h = ground (arith, at)

-- The kernel with a new pid and these processes.
abbrev numbered_procs : ℕ → Kernel → (ℕ → Option Process) → Kernel
numbered_procs proc k procs_given = record k {
  procs = procs_given;
  counter_pid = k.counter_pid + 1;
  proc_table = update k.proc_table (k.counter_pid - 2) (some proc);
  proc_count = k.proc_count + 1;
}

-- A process in memory gets the next pid; `o` is what is left of it.
abbrev numbered : ℕ → Kernel → Option Process → Kernel
numbered proc k o = numbered_procs proc k (update k.procs proc o)

number_process_result :
    (luck : Luck) (proc : ℕ) (k k' : Kernel) (p : Process) (r : Option ℕ)
    → k.procs proc ≡ some p
    → number_process luck (k, some proc) ≡ ok (k', r)
    → (k.counter_pid - 2 < 64)
      × (((luck.cv_memory ≡ false) × (r ≡ none) × (k' ≡ numbered proc k none))
          ⊎ ((r ≡ some proc)
              × (k'
                  ≡ numbered proc k
                      (some (record p { pid = k.counter_pid; count_child = 0; is_alive = true })))))
unfolding number_process
number_process_result luck proc k k' p r at h =
    let k0 : Kernel = record k { proc_count = k.proc_count + 1 } in
    let (k1, e1, h1) = ok-bind (take_pid proc k0) _ h in
    let (room, same) = take_pid_result proc k0 k1 p at e1 in
    let p1 : Process = record p { pid = k.counter_pid } in
    let at1 = (λ i. (same i).procs proc) ∙ update_same k.procs proc (some p1) in
    (
      room,
      elim (set_children_result luck proc k1 k' p1 r at1 h1) [
        | inl (c, e, f) ↦ inl (
          c,
          e,
          f
              ∙ (λ i. record (same i) { procs = update (same i).procs proc none })
              ∙ (λ i. numbered_procs proc k (update_twice k.procs proc (some p1) none i)),
        )
        | inr (e, f) ↦
            let p2 : Process = record p1 { count_child = 0; is_alive = true } in
            inr (
              e,
              f
                  ∙ (λ i. record (same i) { procs = update (same i).procs proc (some p2) })
                  ∙ (λ i. numbered_procs proc k (update_twice k.procs proc (some p1) (some p2) i)),
            )
      ],
    )

-- proc_create_runprogram takes the next address and the next pid.
abbrev pub created : Kernel → Option Process → Kernel
created k o = record (numbered k.next_proc k o) { next_proc = k.next_proc + 1 }

created_again :
    (k : Kernel) (o : Option Process)
    → numbered k.next_proc
        (record k {
          procs = update k.procs k.next_proc (some fresh_process);
          next_proc = k.next_proc + 1;
        })
        o
      ≡ created k o
created_again k o i =
    record (numbered_procs k.next_proc k
      (update_twice k.procs k.next_proc (some fresh_process) o i)) { next_proc = k.next_proc + 1 }

pub proc_create_runprogram_result :
    (luck : Luck) (k k' : Kernel) (r : Option ℕ)
    → proc_create_runprogram luck k ≡ ok (k', r)
    → ((r ≡ none) × (k' ≡ k))
      ⊎ ((k.counter_pid - 2 < 64)
          × (((luck.cv_memory ≡ false) × (r ≡ none) × (k' ≡ created k none))
              ⊎ ((r ≡ some k.next_proc)
                  × (k'
                      ≡ created k
                          (some (record fresh_process { pid = k.counter_pid; is_alive = true }))))))
unfolding proc_create_runprogram proc_create save number_process
proc_create_runprogram_result luck k k' r h = by_memory luck.proc_memory h
  where
    by_memory :
        (memory : Bool)
        → number_process luck (proc_create memory k) ≡ ok (k', r)
        → ((r ≡ none) × (k' ≡ k))
          ⊎ ((k.counter_pid - 2 < 64)
              × (((luck.cv_memory ≡ false) × (r ≡ none) × (k' ≡ created k none))
                  ⊎ ((r ≡ some k.next_proc)
                      × (k'
                          ≡ created k (
                              some
                                (record fresh_process { pid = k.counter_pid; is_alive = true }))))))
    by_memory true h =
        let n = k.next_proc in
        let k1 : Kernel = record (save n fresh_process k) { next_proc = n + 1 } in
        let at = update_same k.procs n (some fresh_process) in
        let (room, made) = number_process_result luck n k1 k' fresh_process r at h in
        inr (
          room,
          elim made [
            | inl (c, e, f) ↦ inl (c, e, f ∙ created_again k none)
            | inr (e, f) ↦ inr (
              e,
              f
                  ∙ created_again k
                      (some (record fresh_process { pid = k.counter_pid; is_alive = true })),
            )
          ],
        )
    by_memory false h = inl (cc, cc)
