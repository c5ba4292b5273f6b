-- ===== src/Synch/Semaphore.antt =====
-- Semaphores of kern/thread/synch.c: the code of P and V for n threads, one access to the shared
-- state a step, over a spinlock and a wait channel (kern/thread/spinlock.c, thread.c).
pub mod Places
pub mod Invariant
pub mod Safety
use os.Base.{ℕ, ◌+◌, ◌-◌, ◌^◌, ◌<◌, ◌≡◌, List, [], ◌∷◌, ◌++◌, update}

-- `struct semaphore` and its wait channel. A lock word is 0 or 1.
pub record Sem : Type 0 where
  pub sem_count : ℕ
  pub sem_lock : ℕ
  pub wc_lock : ℕ
  pub wc_threads : List ℕ

-- Where a thread stands.
pub data Pc : Type 0 where
  outside : Pc  -- runs other code, holding no unit
  p_enter : Pc  -- P: before spinlock_acquire, at the start and after each wakeup
  p_test : Pc  -- P: at the test of the while loop
  p_nest : Pc  -- P: count was 0, before wchan_lock
  p_bridge : Pc  -- P: before spinlock_release in the loop
  p_sleep : Pc  -- P: before wchan_sleep
  asleep : Pc  -- P: on the wait channel
  p_take : Pc  -- P: before sem_count--
  p_leave : Pc  -- P: before the last spinlock_release
  inside : Pc  -- runs other code, holding a unit
  v_enter : Pc  -- V: before spinlock_acquire
  v_count : Pc  -- V: before sem_count++
  v_wake : Pc  -- V: in wchan_wakeone, before spinlock_acquire
  v_remhead : Pc  -- V: in wchan_wakeone, before threadlist_remhead
  v_leave : Pc  -- V: before the last spinlock_release

-- A step of one thread that moves no other. spinlock_acquire passes when the word is 0.
pub data Move (s : Sem) : Pc → Sem → Pc → Type 0 where
  call_p : Move s outside s p_enter
  p_acquire : s.sem_lock ≡ 0 → Move s p_enter (record s { sem_lock = 1 }) p_test
  test_zero : s.sem_count ≡ 0 → Move s p_test s p_nest
  test_positive : 0 < s.sem_count → Move s p_test s p_take
  lock_channel : s.wc_lock ≡ 0 → Move s p_nest (record s { wc_lock = 1 }) p_bridge
  bridge : Move s p_bridge (record s { sem_lock = 0 }) p_sleep
  take : Move s p_take (record s { sem_count = s.sem_count - 1 }) p_leave
  p_release : Move s p_leave (record s { sem_lock = 0 }) inside
  -- the thread gives its unit back, keeps it for good, or gives one that no P took
  call_v : Move s inside s v_enter
  keep : Move s inside s outside
  signal : Move s outside s v_enter
  v_acquire : s.sem_lock ≡ 0 → Move s v_enter (record s { sem_lock = 1 }) v_count
  -- with KASSERT(sem_count > 0) after the increment of an int
  give : s.sem_count + 1 < 2 ^ 31 → Move s v_count (record s { sem_count = s.sem_count + 1 }) v_wake
  wake_lock : s.wc_lock ≡ 0 → Move s v_wake (record s { wc_lock = 1 }) v_remhead
  wake_none : s.wc_threads ≡ [] → Move s v_remhead (record s { wc_lock = 0 }) v_leave
  v_release : Move s v_leave (record s { sem_lock = 0 }) outside

pub record System : Type 0 where
  pub sem : Sem
  pub pc : ℕ → Pc

-- wchan_sleep puts the thread last on the list and unlocks the channel; wchan_wakeone takes the first
-- off, unlocks the channel and makes that thread runnable.
pub data Step (n : ℕ) (y : System) : System → Type 0 where
  move :
      (i : ℕ) {s : Sem} {p : Pc}
      → i < n
      → Move y.sem (y.pc i) s p
      → Step n y (record { sem = s; pc = update y.pc i p })
  sleep :
      (i : ℕ)
      → i < n
      → y.pc i ≡ p_sleep
      → Step n y (record {
        sem = record y.sem { wc_threads = y.sem.wc_threads ++ i ∷ []; wc_lock = 0 };
        pc = update y.pc i asleep;
      })
  wake :
      (i t : ℕ) (rest : List ℕ)
      → i < n
      → y.pc i ≡ v_remhead
      → y.sem.wc_threads ≡ t ∷ rest
      → Step n y (record {
        sem = record y.sem { wc_threads = rest; wc_lock = 0 };
        pc = update (update y.pc i v_leave) t p_enter;
      })

-- sem_create with an initial count, and no thread in P or V.
abbrev pub create : ℕ → System
create initial_count = record {
  sem = record { sem_count = initial_count; sem_lock = 0; wc_lock = 0; wc_threads = [] };
  pc = λ _. outside;
}

pub data Reach (n initial_count : ℕ) : System → Type 0 where
  start : Reach n initial_count (create initial_count)
  next : {y z : System} → Reach n initial_count y → Step n y z → Reach n initial_count z
