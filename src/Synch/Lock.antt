-- ===== src/Synch/Lock.antt =====
-- Locks of kern/thread/synch.c for n threads, one access to the shared state a step. lock_acquire has
-- the places of P and lock_release those of V, so the program counters are those of the semaphore.
pub mod Refine
pub mod Owner
use os.Base.{
  ℕ, ◌<◌, ◌≡◌, Bool, true, false, ◌&&◌, ◌==◌, Option, none, some, List, [], ◌∷◌, ◌++◌, update,
}
use os.Synch.Semaphore.{
  Pc, outside, p_enter, p_test, p_nest, p_bridge, p_sleep, asleep, p_take, p_leave, inside, v_enter,
  v_count, v_wake, v_remhead, v_leave,
}

-- `struct lock` and its wait channel; `none` is the null owner.
pub record Lock : Type 0 where
  pub hold : Bool
  pub owner : Option ℕ
  pub lk_spinlock : ℕ
  pub wc_lock : ℕ
  pub wc_threads : List ℕ

abbrev pub is_owner : Option ℕ → ℕ → Bool
is_owner none i = false
is_owner (some j) i = j == i

-- lock_do_i_hold, called by thread `i`
abbrev pub lock_do_i_hold : Lock → ℕ → Bool
lock_do_i_hold l i = l.hold && is_owner l.owner i

-- A step of thread `i` that moves no other; a failed assertion is no step.
pub data Move (i : ℕ) (l : Lock) : Pc → Lock → Pc → Type 0 where
  call_acquire : lock_do_i_hold l i ≡ false → Move i l outside l p_enter
  a_acquire : l.lk_spinlock ≡ 0 → Move i l p_enter (record l { lk_spinlock = 1 }) p_test
  test_held : l.hold ≡ true → Move i l p_test l p_nest
  test_free : l.hold ≡ false → Move i l p_test l p_take
  lock_channel : l.wc_lock ≡ 0 → Move i l p_nest (record l { wc_lock = 1 }) p_bridge
  bridge : Move i l p_bridge (record l { lk_spinlock = 0 }) p_sleep
  take : Move i l p_take (record l { hold = true; owner = some i }) p_leave
  a_release : Move i l p_leave (record l { lk_spinlock = 0 }) inside
  call_release : lock_do_i_hold l i ≡ true → Move i l inside l v_enter
  r_acquire : l.lk_spinlock ≡ 0 → Move i l v_enter (record l { lk_spinlock = 1 }) v_count
  clear : Move i l v_count (record l { hold = false; owner = none }) v_wake
  wake_lock : l.wc_lock ≡ 0 → Move i l v_wake (record l { wc_lock = 1 }) v_remhead
  wake_none : l.wc_threads ≡ [] → Move i l v_remhead (record l { wc_lock = 0 }) v_leave
  r_release : Move i l v_leave (record l { lk_spinlock = 0 }) outside

pub record System : Type 0 where
  pub lock : Lock
  pub pc : ℕ → Pc

pub data Step (n : ℕ) (y : System) : System → Type 0 where
  move :
      (i : ℕ) {l : Lock} {p : Pc}
      → i < n
      → Move i y.lock (y.pc i) l p
      → Step n y (record { lock = l; pc = update y.pc i p })
  sleep :
      (i : ℕ)
      → i < n
      → y.pc i ≡ p_sleep
      → Step n y (record {
        lock = record y.lock { wc_threads = y.lock.wc_threads ++ i ∷ []; wc_lock = 0 };
        pc = update y.pc i asleep;
      })
  wake :
      (i t : ℕ) (rest : List ℕ)
      → i < n
      → y.pc i ≡ v_remhead
      → y.lock.wc_threads ≡ t ∷ rest
      → Step n y (record {
        lock = record y.lock { wc_threads = rest; wc_lock = 0 };
        pc = update (update y.pc i v_leave) t p_enter;
      })

-- lock_create, and no thread in the code of the lock.
abbrev pub create : System
create = record {
  lock = record { hold = false; owner = none; lk_spinlock = 0; wc_lock = 0; wc_threads = [] };
  pc = λ _. outside;
}

pub data Reach (n : ℕ) : System → Type 0 where
  start : Reach n create
  next : {y z : System} → Reach n y → Step n y z → Reach n z
