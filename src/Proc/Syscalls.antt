-- ===== src/Proc/Syscalls.antt =====
-- The system calls of kern/syscall/proc_syscalls.c: fork, getpid, waitpid and _exit. What happens
-- without a wait in between is one function; waiting stands in the model of the system.
use os.Base.{
  ℕ, zero, suc, ◌+◌, ◌-◌, ◌*◌, ◌%◌, ◌/◌, Bool, true, false, not, if◌then◌else◌, ltb, ◌==◌, Option,
  none, some, Result, ok, fault, ◌>>=◌, ◌>>◌, kassert, update, einval, efault, echild, enomem,
}
use os.Proc.Table.{
  Process, Kernel, Luck, load, save, in_table, proc_create_runprogram, cv_of, proc_destroy,
}
use os.Proc.Threads.{thread_fork, proc_remthread}

-- _MKWAIT_EXIT of kern/include/kern/wait.h on a 32-bit int.
unfoldable pub mkwait_exit : ℕ → ℕ
mkwait_exit code = code * 4 % 4294967296

-- WIFEXITED and WEXITSTATUS on the int that waitpid stores, a word of 32 bits. The shift to the right
-- keeps the sign: the two highest bits of a negative value stay set.
unfoldable pub is_wifexited : ℕ → Bool
is_wifexited status = status % 4 == 0

unfoldable pub wexitstatus : ℕ → ℕ
wexitstatus status = if ltb status 2147483648 then status / 4 else status / 4 + 3221225472

-- The loop of isExist from `i` on.
unfoldable pub is_exist_from : ℕ → ℕ → ℕ → (ℕ → ℕ) → Bool
is_exist_from zero i pid children = false
is_exist_from (suc left) i pid children =
    let later = is_exist_from left (i + 1) pid children in if children i == pid then true else later

unfoldable pub is_exist : ℕ → Process → Bool
unfolding is_exist_from
is_exist pid p = is_exist_from p.count_child 0 pid p.child_array

-- sys_getpid
unfoldable pub sys_getpid : ℕ → Kernel → Result ℕ
unfolding load
sys_getpid proc k = load proc k >>= λ p. ok p.pid

-- The checks that sys_waitpid begins with: an error code, or 0 to go on.
unfoldable pub waitpid_check : ℕ → ℕ → ℕ → ℕ → Kernel → Result ℕ
unfolding load is_exist
waitpid_check proc pid status options k = do
  p ← load proc k
  ok (
      if not (options == 0)
      then einval
      else if status == 0
      then efault
      else if is_exist pid p
      then 0
      else echild)

-- What a process that waits finds under lk_tb: it sleeps on a process's variable, or has the status.
pub data Found : Type 0 where
  sleeps : ℕ → Found
  exited : ℕ → Found

-- The test of the while loop of sys_waitpid, with what follows either way.
unfoldable pub waitpid_test : ℕ → Kernel → Result Found
unfolding in_table cv_of mkwait_exit
waitpid_test pid k = do
  in_table (pid - 2)
  (if k.alive_table (pid - 2)
      then (cv_of (pid - 2) k >>= λ proc. ok (sleeps proc))
      else ok (exited (mkwait_exit (k.exit_table (pid - 2)))))

-- The end of sys_waitpid, by the result of copyout: the error code and `*retval`.
unfoldable pub waitpid_return : ℕ → ℕ → ℕ × Option ℕ
waitpid_return zero pid = (0, some pid)
waitpid_return (suc result) pid = (suc result, none)

pub is_some : Option ℕ → Bool
is_some none = false
is_some (some a) = true

-- sys__exit up to the release of lk_tb, without the broadcast.
unfoldable pub exit_record : ℕ → ℕ → Kernel → Result Kernel
unfolding load save in_table is_some mkwait_exit
exit_record proc exitcode k = do
  p ← load proc k
  kassert (is_some p.p_addrspace)
  in_table (p.pid - 2)
  ok
      (record (save proc
        (record p { is_alive = false; code = exitcode; status = mkwait_exit exitcode }) k) {
          exit_table = update k.exit_table (p.pid - 2) exitcode;
          alive_table = update k.alive_table (p.pid - 2) false;
        })

-- curproc_setas of kern/proc/proc.c: the old address space is returned.
unfoldable pub curproc_setas : ℕ → Option ℕ → Kernel → Result (Kernel × Option ℕ)
unfolding load save
curproc_setas proc newas k = do
  p ← load proc k
  ok (save proc (record p { p_addrspace = newas }) k, p.p_addrspace)

-- The rest of sys__exit: curproc_setas(NULL), proc_remthread and proc_destroy.
unfoldable pub exit_leave : ℕ → ℕ → Kernel → Result Kernel
unfolding curproc_setas proc_remthread proc_destroy
exit_leave proc thread k = do
  old ← curproc_setas proc none k
  k' ← proc_remthread thread old.0
  proc_destroy proc k'

-- What memory and as_copy come to in one fork.
pub record ForkLuck : Type 0 where
  pub creation : Luck
  pub as_copy_result : ℕ
  pub new_space : ℕ
  pub frame_memory : Bool
  pub thread_memory : Bool
  pub array_memory : Bool

-- What sys_fork leaves: the kernel, the error code, and `*retval` where it was set.
pub record Forked : Type 0 where
  pub kernel : Kernel
  pub result : ℕ
  pub retval : Option ℕ

-- A failed step of sys_fork: the child is destroyed, and the error code is returned.
unfoldable pub give_up : ℕ → ℕ → Kernel → Result Forked
unfolding proc_destroy
give_up child result k =
    proc_destroy child k >>= λ k'. ok (record { kernel = k'; result = result; retval = none })

-- `childArray[countChild] = pid; countChild++;`
unfoldable pub add_child : ℕ → ℕ → Kernel → Result Kernel
unfolding load save in_table
add_child parent child_pid k = do
  p ← load parent k
  in_table p.count_child
  ok (
      save parent
        (record p {
          child_array = update p.child_array p.count_child child_pid;
          count_child = p.count_child + 1;
        })
        k)

-- Behind thread_fork in sys_fork: `childProc->pid` is read last.
unfoldable pub fork_thread : ℕ → Kernel × ℕ → Result Forked
unfolding give_up load
fork_thread child (k, zero) = do
  c ← load child k
  ok (record { kernel = k; result = 0; retval = some c.pid })
fork_thread child (k, suc result) = give_up child (suc result) k

-- Behind thread_fork in common_prog.
unfoldable pub menu_thread : ℕ → Kernel × ℕ → Result Forked
unfolding give_up
menu_thread child (k, zero) = ok (record { kernel = k; result = 0; retval = none })
menu_thread child (k, suc result) = give_up child (suc result) k

-- memcpy into the trapframe that kmalloc returned, NULL or not.
unfoldable pub copy_frame : Bool → Result (Unit {0})
copy_frame true = ok tt
copy_frame false = fault

-- sys_fork behind as_copy. The child's thread is named by the address of its process.
unfoldable pub after_copy : ℕ → ForkLuck → ℕ → ℕ → ℕ → Kernel → Result Forked
unfolding load save add_child fork_thread copy_frame thread_fork give_up
after_copy zero luck parent child child_pid k = do
  c ← load child k
  k' ← add_child parent child_pid (save child (record c { p_addrspace = some luck.new_space }) k)
  copy_frame luck.frame_memory
  thread_fork luck.thread_memory luck.array_memory child child k' >>= fork_thread child
after_copy (suc result) luck parent child child_pid k = give_up child (suc result) k

unfoldable pub fork_child : ForkLuck → ℕ → ℕ → ℕ → Kernel → Result Forked
unfolding after_copy
fork_child luck = after_copy luck.as_copy_result luck

unfoldable pub fork_with : ForkLuck → ℕ → Kernel × Option ℕ → Result Forked
unfolding load fork_child proc_destroy
fork_with luck parent (k, none) = ok (record { kernel = k; result = enomem; retval = some 1 })
fork_with luck parent (k, some child) = do
  c ← load child k
  (if ltb 0 c.pid
      then fork_child luck parent child c.pid k
      else (proc_destroy child k >>= λ k'. ok (record { kernel = k'; result = 0; retval = none })))

unfoldable pub sys_fork : ForkLuck → ℕ → Kernel → Result Forked
unfolding proc_create_runprogram fork_with
sys_fork luck parent k = proc_create_runprogram luck.creation k >>= fork_with luck parent

unfoldable pub launch_in : ForkLuck → Kernel × Option ℕ → Result Forked
unfolding menu_thread thread_fork
launch_in luck (k, none) = ok (record { kernel = k; result = enomem; retval = none })
launch_in luck (k, some child) =
    thread_fork luck.thread_memory luck.array_memory child child k >>= menu_thread child

-- common_prog of kern/startup/menu.c up to its wait: the menu starts a process.
unfoldable pub launch : ForkLuck → Kernel → Result Forked
unfolding proc_create_runprogram launch_in
launch luck k = proc_create_runprogram luck.creation k >>= launch_in luck
