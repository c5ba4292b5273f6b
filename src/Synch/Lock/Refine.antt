-- ===== src/Synch/Lock/Refine.antt =====
-- A lock of kern/thread/synch.c as a semaphore of one unit: held is count 0.
use os.Base.{weight-le-tally, ℕ, ◌<◌, ◌≡◌, ◌⊎◌, refl, true, if◌then◌else◌, update, arith}
use mathlib.Core.Path.{subst, path_j}
use os.Synch.Semaphore
use os.Synch.Semaphore.{
  Pc, outside, p_enter, p_test, p_nest, p_bridge, p_sleep, asleep, p_take, p_leave, inside, v_enter,
  v_count, v_wake, v_remhead, v_leave,
}
use os.Synch.Semaphore.Places.{pending}
use os.Synch.Catmouse.{
  InnerMove, Creature, cat, Turn, arrive, finish, inner, Simulation, opened, turn, holds, one_eats,
  Simulation-holds, sleeper_is_awaited,
}
use os.Synch.Lock.{
  Lock, Move, call_acquire, a_acquire, test_held, test_free, lock_channel, bridge, take, a_release,
  call_release, r_acquire, clear, wake_lock, wake_none, r_release, System, move, sleep, wake, Reach,
  start, next,
}

-- The semaphore that a lock stands for.
abbrev pub as_sem : Lock → Semaphore.Sem
as_sem l = record {
  sem_count = if l.hold then 0 else 1;
  sem_lock = l.lk_spinlock;
  wc_lock = l.wc_lock;
  wc_threads = l.wc_threads;
}

abbrev pub abstract_system : System → Semaphore.System
abstract_system y = record { sem = as_sem y.lock; pc = y.pc }

abbrev threads : ℕ → Creature
threads _ = cat

module _ {n : ℕ} (y : System) (i : ℕ) (lt : i < n) where
  -- An inner move of the semaphore, at the place where the thread stands, up to an equal outcome.
  inner_turn :
      {p p' : Pc} {s s' : Semaphore.Sem}
      → y.pc i ≡ p
      → (mv : Semaphore.Move (as_sem y.lock) p s p') → InnerMove mv
      → s ≡ s'
      → Turn n threads (abstract_system y) (record { sem = s'; pc = update y.pc i p' })
  inner_turn {p'} {s} e mv ok e' =
      subst (λ s'. Turn n threads (abstract_system y) (record { sem = s'; pc = update y.pc i p' }))
        e'
        (path_j
          (λ p e.
            (mv : Semaphore.Move (as_sem y.lock) p s p')
            → InnerMove mv
            → Turn n threads (abstract_system y) (record { sem = s; pc = update y.pc i p' }))
          (λ mv ok. inner (Semaphore.move i lt mv) ok) e mv ok)

  -- A move of the lock is a move of the semaphore, since a thread that clears the lock finds it held.
  Move-Turn :
      {l : Lock} {p p' : Pc}
      → y.pc i ≡ p
      → (p ≡ v_count → y.lock.hold ≡ true)
      → Move i y.lock p l p'
      → Turn n threads
          (abstract_system y)
          (abstract_system (record { lock = l; pc = update y.pc i p' }))
  Move-Turn e held (call_acquire h) = arrive i 0 lt e
  Move-Turn e held (a_acquire free) = inner_turn e (Semaphore.p_acquire free) tt refl
  Move-Turn e held (test_held h) = inner_turn e (Semaphore.test_zero (rw h refl)) tt refl
  Move-Turn e held (test_free h) =
      inner_turn e (Semaphore.test_positive (rw h (omega arith))) tt refl
  Move-Turn e held (lock_channel free) = inner_turn e (Semaphore.lock_channel free) tt refl
  Move-Turn e held bridge = inner_turn e Semaphore.bridge tt refl
  Move-Turn e held take = inner_turn e Semaphore.take tt (ground arith)
  Move-Turn e held a_release = inner_turn e Semaphore.p_release tt refl
  Move-Turn e held (call_release h) = finish i 0 lt e
  Move-Turn e held (r_acquire free) = inner_turn e (Semaphore.v_acquire free) tt refl
  Move-Turn e held clear =
      inner_turn e (Semaphore.give (ground (arith, held refl))) tt (ground (arith, held refl))
  Move-Turn e held (wake_lock free) = inner_turn e (Semaphore.wake_lock free) tt refl
  Move-Turn e held (wake_none empty) = inner_turn e (Semaphore.wake_none empty) tt refl
  Move-Turn e held r_release = inner_turn e Semaphore.v_release tt refl

-- In a run of the abstract semaphore a thread that holds the unit leaves the count at 0.
held_of_holds :
    {n : ℕ} (y : System)
    → Simulation n threads (abstract_system y)
    → (i : ℕ) → i < n
    → holds (y.pc i) ≡ 1
    → y.lock.hold ≡ true
held_of_holds {n} y r i lt one =
    ground (arith, weight-le-tally holds n y.pc i lt, Simulation-holds r)

-- Every run of the lock is a run of a semaphore of one unit, in which each thread alternates between
-- P and V: the lock refines it, with the count 0 exactly when the lock is held.
pub Reach-Simulation : {n : ℕ} {y : System} → Reach n y → Simulation n threads (abstract_system y)
Reach-Simulation start = opened
Reach-Simulation (next {y} r (move i lt mv)) =
    let s = Reach-Simulation r in
    turn s (Move-Turn y i lt refl (λ e. held_of_holds y s i lt (rw e)) mv)
Reach-Simulation (next r (sleep i lt e)) =
    turn (Reach-Simulation r) (inner (Semaphore.sleep i lt e) tt)
Reach-Simulation (next r (wake i t rest lt e list)) =
    turn (Reach-Simulation r) (inner (Semaphore.wake i t rest lt e list) tt)

module _ {n : ℕ} {y : System} (r : Reach n y) where
  -- In every reachable state two threads that have returned from lock_acquire, and have not called
  -- lock_release since, are the same thread, and the lock is held while there is one.
  pub mutual_exclusion :
      (i : ℕ)
      → i < n
      → y.pc i ≡ inside
      → (y.lock.hold ≡ true) × ((j : ℕ) → j < n → y.pc j ≡ inside → i ≡ j)
  mutual_exclusion i lt e =
      let s = Reach-Simulation r in
      (held_of_holds y s i lt (rw e), λ j lt' e'. one_eats s i j lt lt' e e')

  -- While a thread sleeps on the lock, some thread can go on: it will still test the lock, take it
  -- or wake a sleeper, or it holds the lock.
  pub no_thread_forgotten :
      (i : ℕ)
      → i < n
      → y.pc i ≡ asleep
      → (j : ℕ) × (j < n) × ((0 < pending (y.pc j)) ⊎ (0 < holds (y.pc j)))
  no_thread_forgotten i lt e = sleeper_is_awaited (Reach-Simulation r) i lt e
