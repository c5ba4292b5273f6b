-- ===== src/Proc/Threads.antt =====
-- The threads of a process: proc_addthread and proc_remthread of kern/proc/proc.c, thread_fork of
-- kern/thread/thread.c as far as the process goes.
use os.Base.{
  ℕ, Bool, true, false, if◌then◌else◌, ◌==◌, Option, none, some, List, [], ◌∷◌, ◌++◌, Result, ok,
  panic, ◌>>=◌, ◌>>◌, kassert, update, enomem,
}
use os.Proc.Table.{Process, Kernel, load, save}

pub is_none : Option ℕ → Bool
is_none none = true
is_none (some a) = false

-- proc_addthread: its error code. `memory` tells whether the array of threads can grow.
unfoldable pub proc_addthread : Bool → ℕ → ℕ → Kernel → Result (Kernel × ℕ)
unfolding is_none load save
proc_addthread memory proc thread k = do
  kassert (is_none (k.t_proc thread))
  p ← load proc k
  (if memory
      then ok (
        record (save proc (record p { p_threads = p.p_threads ++ thread ∷ [] }) k) {
          t_proc = update k.t_proc thread (some proc);
        },
        0,
      )
      else ok (k, enomem))

-- thread_fork: its error code. `memory` tells whether the thread and its stack can be allocated.
unfoldable pub thread_fork : Bool → Bool → ℕ → ℕ → Kernel → Result (Kernel × ℕ)
unfolding proc_addthread
thread_fork memory array_memory proc thread k =
    if memory then proc_addthread array_memory proc thread k else ok (k, enomem)

-- The loop of proc_remthread: the list without the first entry that is `thread`, if there is one.
unfoldable pub remove_thread : ℕ → List ℕ → Option (List ℕ)
remove_thread thread [] = none
remove_thread thread (t ∷ ts) =
    let later = remove_thread thread ts in
    if t == thread then some ts else elim later [ none ↦ none | some rest ↦ some (t ∷ rest) ]

unfoldable pub leave : ℕ → ℕ → Process → Option (List ℕ) → Kernel → Result Kernel
unfolding save
leave proc thread p none k = panic
leave proc thread p (some rest) k =
    ok (record (save proc (record p { p_threads = rest }) k) {
      t_proc = update k.t_proc thread none;
    })

unfoldable pub remove_from : ℕ → Option ℕ → Kernel → Result Kernel
unfolding load leave remove_thread
remove_from thread none k = panic
remove_from thread (some proc) k =
    load proc k >>= λ p. leave proc thread p (remove_thread thread p.p_threads) k

unfoldable pub proc_remthread : ℕ → Kernel → Result Kernel
unfolding remove_from
proc_remthread thread k = remove_from thread (k.t_proc thread) k
