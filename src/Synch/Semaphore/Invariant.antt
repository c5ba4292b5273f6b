-- ===== src/Synch/Semaphore/Invariant.antt =====
-- What holds in every reachable state of P and V (kern/thread/synch.c).
use os.Base.{
  tally-const, tally, tally-update, weight-le-tally, length-append, refl, ◌++◌, ◌∷◌, [], ap, sym,
  inl, sym, List, ℕ, ◌+◌, ◌≤◌, ◌<◌, ◌≡◌, ◌⊎◌, length, update, arith,
}
use os.Synch.Threads.{Queued-sleep, Queued-update, Queued-move, Queued}
use os.Synch.Semaphore.{
  start, next, wake, outside, sleep, next, move, Reach, Step, create, Sem, Pc, p_enter, p_sleep,
  asleep, v_remhead, v_leave, Move, call_p, p_acquire, test_zero, test_positive, lock_channel,
  bridge, take, p_release, call_v, keep, signal, v_acquire, give, wake_lock, wake_none, v_release,
  System,
}
use os.Synch.Semaphore.Places.{
  in_sem, in_channel, waits, pending, sleeps, takes, tests, removes, tests-takes, waits-removes,
  ne_asleep,
}

-- The state of the semaphore against the number of threads at each kind of place.
pub record Inv (n : ℕ) (y : System) : Type 0 where
  pub sem_word : y.sem.sem_lock ≡ tally in_sem n y.pc
  pub sem_one : y.sem.sem_lock ≤ 1
  pub channel_word : y.sem.wc_lock ≡ tally in_channel n y.pc
  pub channel_one : y.sem.wc_lock ≤ 1
  pub listed : Queued asleep n y.pc y.sem.wc_threads
  pub sleepers : length y.sem.wc_threads ≡ tally sleeps n y.pc
  pub backed : tally takes n y.pc ≤ y.sem.sem_count
  pub none_lost : (tally waits n y.pc ≡ 0) ⊎ (y.sem.sem_count ≤ tally pending n y.pc)

-- One thread goes from `p` to `p'`.
record Moved (n : ℕ) (pc : ℕ → Pc) (p p' : Pc) (pc' : ℕ → Pc) : Type 0 where
  sem : tally in_sem n pc' + in_sem p ≡ tally in_sem n pc + in_sem p'
  channel : tally in_channel n pc' + in_channel p ≡ tally in_channel n pc + in_channel p'
  waiting : tally waits n pc' + waits p ≡ tally waits n pc + waits p'
  coming : tally pending n pc' + pending p ≡ tally pending n pc + pending p'
  sleeping : tally sleeps n pc' + sleeps p ≡ tally sleeps n pc + sleeps p'
  taking : tally takes n pc' + takes p ≡ tally takes n pc + takes p'
  removing : removes p ≤ tally removes n pc
  testing : tests p ≤ tally tests n pc

moved : (n : ℕ) (pc : ℕ → Pc) (i : ℕ) (p' : Pc) → i < n → Moved n pc (pc i) p' (update pc i p')
moved n pc i p' lt = record {
  sem = tally-update in_sem n pc i p' lt;
  channel = tally-update in_channel n pc i p' lt;
  waiting = tally-update waits n pc i p' lt;
  coming = tally-update pending n pc i p' lt;
  sleeping = tally-update sleeps n pc i p' lt;
  taking = tally-update takes n pc i p' lt;
  removing = weight-le-tally removes n pc i lt;
  testing = weight-le-tally tests n pc i lt;
}

-- The part of the invariant about the numbers.
record Numbers (n : ℕ) (s : Sem) (pc : ℕ → Pc) : Type 0 where
  sem_word : s.sem_lock ≡ tally in_sem n pc
  sem_one : s.sem_lock ≤ 1
  channel_word : s.wc_lock ≡ tally in_channel n pc
  channel_one : s.wc_lock ≤ 1
  sleepers : length s.wc_threads ≡ tally sleeps n pc
  backed : tally takes n pc ≤ s.sem_count
  none_lost : (tally waits n pc ≡ 0) ⊎ (s.sem_count ≤ tally pending n pc)

module _ {n : ℕ} {y : System} (inv : Inv n y) where
  Move-Numbers :
      {p p' : Pc} {s' : Sem} {pc' : ℕ → Pc}
      → Move y.sem p s' p'
      → Moved n y.pc p p' pc'
      → Numbers n s' pc'
  Move-Numbers call_p m = omega arith
  Move-Numbers (p_acquire free) m = omega arith
  Move-Numbers (test_zero z) m = omega arith
  Move-Numbers (test_positive pos) m = omega (arith, tests-takes n y.pc)
  Move-Numbers (lock_channel free) m = omega arith
  Move-Numbers bridge m = omega arith
  Move-Numbers take m = omega arith
  Move-Numbers p_release m = omega arith
  Move-Numbers call_v m = omega arith
  Move-Numbers keep m = omega arith
  Move-Numbers signal m = omega arith
  Move-Numbers (v_acquire free) m = omega arith
  Move-Numbers (give fits) m = omega arith
  Move-Numbers (wake_lock free) m = omega arith
  Move-Numbers (wake_none empty) m =
      let none : length y.sem.wc_threads ≡ 0 = rw empty in omega (arith, none, waits-removes n y.pc)
  Move-Numbers v_release m = omega arith

  with_list :
      {s' : Sem} {pc' : ℕ → Pc}
      → Numbers n s' pc'
      → Queued asleep n pc' s'.wc_threads
      → Inv n (record { sem = s'; pc = pc' })
  with_list k q = record {
    sem_word = k.sem_word;
    sem_one = k.sem_one;
    channel_word = k.channel_word;
    channel_one = k.channel_one;
    listed = q;
    sleepers = k.sleepers;
    backed = k.backed;
    none_lost = k.none_lost;
  }

  -- No move leaves `asleep`, and none changes the list.
  Move-awake :
      {s s' : Sem} {p p' : Pc} → Move s p s' p' → (sleeps p ≡ 0) × (s'.wc_threads ≡ s.wc_threads)
  Move-awake call_p = (refl, refl)
  Move-awake _ = (refl, refl)

  Move-Inv :
      (i : ℕ) {p' : Pc} {s' : Sem}
      → i < n
      → Move y.sem (y.pc i) s' p'
      → Inv n (record { sem = s'; pc = update y.pc i p' })
  Move-Inv i {p'} lt mv =
      let (awake, same) = Move-awake mv in
      with_list (Move-Numbers mv (moved n y.pc i p' lt))
        (rw same (Queued-move asleep n y.pc i p' _ (ne_asleep (y.pc i) awake) inv.listed))

  sleep-Inv :
      (i : ℕ)
      → i < n
      → y.pc i ≡ p_sleep
      → Inv n (record {
        sem = record y.sem { wc_threads = y.sem.wc_threads ++ i ∷ []; wc_lock = 0 };
        pc = update y.pc i asleep;
      })
  sleep-Inv i lt e =
      with_list (sleep_numbers (rw e at (moved n y.pc i asleep lt)))
        (Queued-sleep asleep n y.pc i _ lt (λ e'. cc (e, e')) inv.listed)
    where
      sleep_numbers :
          {pc' : ℕ → Pc}
          → Moved n y.pc p_sleep asleep pc'
          → Numbers n (record y.sem { wc_threads = y.sem.wc_threads ++ i ∷ []; wc_lock = 0 }) pc'
      sleep_numbers m = omega (arith, length-append y.sem.wc_threads (i ∷ []))

  wake-Inv :
      (i t : ℕ) (rest : List ℕ)
      → i < n
      → y.pc i ≡ v_remhead
      → y.sem.wc_threads ≡ t ∷ rest
      → Inv n (record {
        sem = record y.sem { wc_threads = rest; wc_lock = 0 };
        pc = update (update y.pc i v_leave) t p_enter;
      })
  wake-Inv i t rest lt e list =
      let q : Queued asleep n y.pc (t ∷ rest) = rw list at inv.listed in
      let still : update y.pc i v_leave t ≡ asleep = ground (arith, q.1, e) in
      let q' = Queued-move asleep n y.pc i v_leave rest (λ e'. cc (e, e')) q.3 in
      with_list
        (wake_numbers (rw e at (moved n y.pc i v_leave lt))
          (rw still at (moved n (update y.pc i v_leave) t p_enter q.0)))
        (Queued-update asleep n (update y.pc i v_leave) t p_enter rest q.2 q')
    where
      wake_numbers :
          {pc1 pc2 : ℕ → Pc}
          → Moved n y.pc v_remhead v_leave pc1
          → Moved n pc1 asleep p_enter pc2
          → Numbers n (record y.sem { wc_threads = rest; wc_lock = 0 }) pc2
      wake_numbers m m' = omega (arith, ap length list)

-- Every step keeps the invariant.
pub Step-Inv : {n : ℕ} {y z : System} → Step n y z → Inv n y → Inv n z
Step-Inv (move i lt mv) inv = Move-Inv inv i lt mv
Step-Inv (sleep i lt e) inv = sleep-Inv inv i lt e
Step-Inv (wake i t rest lt e list) inv = wake-Inv inv i t rest lt e list

create-Inv : (n count : ℕ) → Inv n (create count)
create-Inv n count = record {
  sem_word = sym (tally-const in_sem n outside refl);
  sem_one = omega arith;
  channel_word = sym (tally-const in_channel n outside refl);
  channel_one = omega arith;
  listed = tt;
  sleepers = sym (tally-const sleeps n outside refl);
  backed = omega (arith, tally-const takes n outside refl);
  none_lost = inl (tally-const waits n outside refl);
}

pub Reach-Inv : {n count : ℕ} {y : System} → Reach n count y → Inv n y
Reach-Inv {n} {count} start = create-Inv n count
Reach-Inv (next r st) = Step-Inv st (Reach-Inv r)
