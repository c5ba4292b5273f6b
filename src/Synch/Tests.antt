-- ===== src/Synch/Tests.antt =====
-- Runs of two threads on a semaphore, in the cat and mouse simulation and on a lock: thread 0 goes
-- in and thread 1 goes to sleep.
use os.Base.{
  false, List, [], ◌∷◌, some, none, ok, if◌then◌else◌, ◌==◌, tally, ℕ, zero, suc, ◌≤◌, ◌<◌, ◌≡◌,
  ◌⊎◌, refl, true, arith,
}
use os.Synch.Threadlist
use os.Synch.Threadlist.Links.{last_of}
use os.Synch.Threadlist.Spine.{IsList}
use os.Synch.Threadlist.Laws.{inserted, removed, insert-IsList, remove-IsList}
use os.Synch.Semaphore
use os.Synch.Semaphore.{outside, Pc, outside, p_enter, p_test, p_take, inside, asleep}
use os.Synch.Semaphore.Places.{pending, in_sem}
use os.Synch.Semaphore.Safety.{no_lost_wakeup, assertion_before_take}
use os.Synch.Catmouse.{
  Creature, cat, mouse, arrive, inner, Simulation, opened, turn, holds, one_eats,
  sleeper_is_awaited,
}
use os.Synch.Traffic
use os.Synch.Traffic.Collision.{woken_meets_other}
use os.Synch.Lock
use os.Synch.Lock.Owner.{assertions_hold}
use os.Synch.Lock.Refine.{abstract_system, mutual_exclusion, no_thread_forgotten, Reach-Simulation}

-- Thread 0 is about to take the one unit.
abbrev taking : (y : Semaphore.System) × Semaphore.Reach 2 1 y
taking =
    let r1 = Semaphore.next Semaphore.start (Semaphore.move 0 (omega arith) Semaphore.call_p) in
    let r2 = Semaphore.next r1 (Semaphore.move 0 (omega arith) (Semaphore.p_acquire refl)) in
    (_, Semaphore.next r2 (Semaphore.move 0 (omega arith) (Semaphore.test_positive (omega arith))))

assertion_before_take_case : (0 < taking.0.sem.sem_count) × (tally in_sem 2 taking.0.pc ≡ 1)
assertion_before_take_case = assertion_before_take taking.1 0 (omega arith) refl

-- Thread 1 sleeps on a semaphore of no units.
abbrev sleeping : (y : Semaphore.System) × Semaphore.Reach 2 0 y
sleeping =
    let r1 = Semaphore.next Semaphore.start (Semaphore.move 1 (omega arith) Semaphore.call_p) in
    let r2 = Semaphore.next r1 (Semaphore.move 1 (omega arith) (Semaphore.p_acquire refl)) in
    let r3 = Semaphore.next r2 (Semaphore.move 1 (omega arith) (Semaphore.test_zero refl)) in
    let r4 = Semaphore.next r3 (Semaphore.move 1 (omega arith) (Semaphore.lock_channel refl)) in
    let r5 = Semaphore.next r4 (Semaphore.move 1 (omega arith) Semaphore.bridge) in
    (_, Semaphore.next r5 (Semaphore.sleep 1 (omega arith) refl))

no_lost_wakeup_example :
    (sleeping.0.sem.sem_count ≤ tally pending 2 sleeping.0.pc)
    × (((j : ℕ) → j < 2 → pending (sleeping.0.pc j) ≡ 0) → sleeping.0.sem.sem_count ≡ 0)
no_lost_wakeup_example = no_lost_wakeup sleeping.1 1 (omega arith) refl

-- Thread 0 holds the lock and thread 1 sleeps on it.
abbrev locked : (y : Lock.System) × Lock.Reach 2 y
locked =
    let r1 = Lock.next Lock.start (Lock.move 0 (omega arith) (Lock.call_acquire refl)) in
    let r2 = Lock.next r1 (Lock.move 0 (omega arith) (Lock.a_acquire refl)) in
    let r3 = Lock.next r2 (Lock.move 0 (omega arith) (Lock.test_free refl)) in
    let r4 = Lock.next r3 (Lock.move 0 (omega arith) Lock.take) in
    let r5 = Lock.next r4 (Lock.move 0 (omega arith) Lock.a_release) in
    let r6 = Lock.next r5 (Lock.move 1 (omega arith) (Lock.call_acquire refl)) in
    let r7 = Lock.next r6 (Lock.move 1 (omega arith) (Lock.a_acquire refl)) in
    let r8 = Lock.next r7 (Lock.move 1 (omega arith) (Lock.test_held refl)) in
    let r9 = Lock.next r8 (Lock.move 1 (omega arith) (Lock.lock_channel refl)) in
    let r10 = Lock.next r9 (Lock.move 1 (omega arith) Lock.bridge) in
    (_, Lock.next r10 (Lock.sleep 1 (omega arith) refl))

mutual_exclusion_example :
    (locked.0.lock.hold ≡ true) × ((j : ℕ) → j < 2 → locked.0.pc j ≡ inside → 0 ≡ j)
mutual_exclusion_example = mutual_exclusion locked.1 0 (omega arith) refl

no_thread_forgotten_example :
    (j : ℕ) × (j < 2) × ((0 < pending (locked.0.pc j)) ⊎ (0 < holds (locked.0.pc j)))
no_thread_forgotten_example = no_thread_forgotten locked.1 1 (omega arith) refl

Reach-Simulation_example : Simulation 2 (λ _. cat) (abstract_system locked.0)
Reach-Simulation_example = Reach-Simulation locked.1

abbrev cat_and_mouse : ℕ → Creature
cat_and_mouse zero = cat
cat_and_mouse (suc i) = mouse

-- The cat eats and the mouse sleeps.
abbrev feeding : (y : Semaphore.System) × Simulation 2 cat_and_mouse y
feeding =
    let r1 = turn opened (arrive 0 1 (omega arith) refl) in
    let r2 = turn r1 (inner (Semaphore.move 0 (omega arith) (Semaphore.p_acquire refl)) tt) in
    let r3 =
      turn r2 (inner (Semaphore.move 0 (omega arith) (Semaphore.test_positive (omega arith))) tt) in
    let r4 = turn r3 (inner (Semaphore.move 0 (omega arith) Semaphore.take) tt) in
    let r5 = turn r4 (inner (Semaphore.move 0 (omega arith) Semaphore.p_release) tt) in
    let r6 = turn r5 (arrive 1 2 (omega arith) refl) in
    let r7 = turn r6 (inner (Semaphore.move 1 (omega arith) (Semaphore.p_acquire refl)) tt) in
    let r8 = turn r7 (inner (Semaphore.move 1 (omega arith) (Semaphore.test_zero refl)) tt) in
    let r9 = turn r8 (inner (Semaphore.move 1 (omega arith) (Semaphore.lock_channel refl)) tt) in
    let r10 = turn r9 (inner (Semaphore.move 1 (omega arith) Semaphore.bridge) tt) in
    (_, turn r10 (inner (Semaphore.sleep 1 (omega arith) refl) tt))

one_eats_example : ◌≡◌ {A = ℕ} 0 0
one_eats_example = one_eats feeding.1 0 0 (omega arith) (omega arith) refl refl

sleeper_is_awaited_example :
    (j : ℕ) × (j < 2) × ((0 < pending (feeding.0.pc j)) ⊎ (0 < holds (feeding.0.pc j)))
sleeper_is_awaited_example = sleeper_is_awaited feeding.1 1 (omega arith) refl

woken_meets_other_example :
    (y : Traffic.System) × Traffic.Reach 3 y
    × (y.pc 0 ≡ Traffic.inside Traffic.west)
    × (y.pc 1 ≡ Traffic.inside Traffic.north)
woken_meets_other_example = woken_meets_other Traffic.north Traffic.west

-- Threads 5 and 9 on a list, and thread 7 beside it.
abbrev two_threads : Threadlist.Threadlist
two_threads = record {
  tln_next =
      λ p. if p == 0 then some 5 else if p == 5 then some 9 else if p == 9 then some 1 else none;
  tln_prev =
      λ p. if p == 1 then some 9 else if p == 9 then some 5 else if p == 5 then some 0 else none;
  tl_count = 2;
}

two_threads-IsList : IsList two_threads (5 ∷ 9 ∷ [])
two_threads-IsList = record {
  links = (refl, refl, (refl, refl, (refl, refl, tt)));
  head_end = refl;
  tail_end = refl;
  distinct = (
    (λ e. omega (arith, e), (λ e. omega (arith, e), (λ e. omega (arith, e), tt))),
    ((λ e. omega (arith, e), (λ e. omega (arith, e), tt)), ((λ e. omega (arith, e), tt), (tt, tt))),
  );
  counted = refl;
}

abbrev between : Threadlist.Threadlist
between = inserted two_threads (5 ∷ []) 7 (9 ∷ [])

insert-IsList_example :
    IsList between (5 ∷ 7 ∷ 9 ∷ [])
    × (Threadlist.threadlist_insertafter two_threads (last_of 0 (5 ∷ [])) 7 ≡ ok between)
    × (Threadlist.threadlist_insertbefore two_threads 7 9 ≡ ok between)
    × (◌≡◌ {A = List ℕ} (5 ∷ []) [] → Threadlist.threadlist_addhead two_threads 7 ≡ ok between)
    × (◌≡◌ {A = List ℕ} (9 ∷ []) [] → Threadlist.threadlist_addtail two_threads 7 ≡ ok between)
insert-IsList_example =
    insert-IsList two_threads (5 ∷ []) 7 (9 ∷ []) two_threads-IsList
      (
        λ e. omega (arith, e),
        (λ e. omega (arith, e), (λ e. omega (arith, e), (λ e. omega (arith, e), tt))),
      )
      (omega arith)

abbrev without_first : Threadlist.Threadlist
without_first = removed two_threads [] 5 (9 ∷ [])

remove-IsList_example :
    IsList without_first (9 ∷ [])
    × (Threadlist.threadlist_remove two_threads 5 ≡ ok without_first)
    × (without_first.tln_next 5 ≡ none)
    × (without_first.tln_prev 5 ≡ none)
    × (◌≡◌ {A = List ℕ} [] []
        → Threadlist.threadlist_remhead two_threads ≡ ok (some 5, without_first))
    × (◌≡◌ {A = List ℕ} (9 ∷ []) []
        → Threadlist.threadlist_remtail two_threads ≡ ok (some 5, without_first))
remove-IsList_example = remove-IsList two_threads [] 5 (9 ∷ []) two_threads-IsList (omega arith)

assertions_hold_case :
    (locked.0.pc 0 ≡ outside → Lock.lock_do_i_hold locked.0.lock 0 ≡ false)
    × (locked.0.pc 0 ≡ inside → Lock.lock_do_i_hold locked.0.lock 0 ≡ true)
assertions_hold_case = assertions_hold locked.1 0 (omega arith)
