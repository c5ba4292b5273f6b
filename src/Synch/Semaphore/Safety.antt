-- ===== src/Synch/Semaphore/Safety.antt =====
-- P and V of kern/thread/synch.c: sleeping threads, and the assertion before the decrement.
use os.Base.{tally, tally-zero, weight-le-tally, ℕ, ◌≤◌, ◌<◌, ◌≡◌, arith}
use os.Synch.Semaphore.{System, asleep, p_take, Reach}
use os.Synch.Semaphore.Places.{in_sem, waits, pending, takes}
use os.Synch.Semaphore.Invariant.{Reach-Inv}

module _ {n count : ℕ} {y : System} (r : Reach n count y) (i : ℕ) (lt : i < n) where
  -- In every reachable state in which a thread sleeps on the semaphore, the count is at most the
  -- number of threads that will still test it, take from it or wake a sleeper. So when no thread will
  -- any more, the count is 0: no thread sleeps while a unit is left.
  pub no_lost_wakeup :
      y.pc i ≡ asleep
      → (y.sem.sem_count ≤ tally pending n y.pc)
        × (((j : ℕ) → j < n → pending (y.pc j) ≡ 0) → y.sem.sem_count ≡ 0)
  no_lost_wakeup e =
      let inv = Reach-Inv r in
      let w = weight-le-tally waits n y.pc i lt in
      let one : waits (y.pc i) ≡ 1 = rw e in
      let few : y.sem.sem_count ≤ tally pending n y.pc = omega (arith, inv.none_lost) in
      (few, λ quiet. omega (arith, tally-zero pending n y.pc quiet))

  -- In every reachable state a thread that is about to decrement finds the count above 0, and holds
  -- the spinlock alone.
  pub assertion_before_take : y.pc i ≡ p_take → (0 < y.sem.sem_count) × (tally in_sem n y.pc ≡ 1)
  assertion_before_take e =
      let inv = Reach-Inv r in
      let one : takes (y.pc i) ≡ 1 = rw e in
      let held : in_sem (y.pc i) ≡ 1 = rw e in
      (
        omega (arith, inv.backed, weight-le-tally takes n y.pc i lt),
        omega (arith, inv.sem_word, inv.sem_one, weight-le-tally in_sem n y.pc i lt),
      )
