-- ===== src/Synch/Traffic/Collision.antt =====
-- A vehicle that was woken in kern/synchprobs/traffic_synch.c enters without a second test.
use os.Base.{◌≡◌, ◌==◌, true, refl, arith}
use os.Synch.Traffic.{
  Direction, north, east, south, west, trans_dir, before_entry, after_wait, after_exit,
  next_direction, shift, enlist, flagged, inside, System, arrive, resume, leave, Reach, start, next,
}

same_dir : (d : Direction) → (trans_dir d == trans_dir d) ≡ true
same_dir north = refl
same_dir east = refl
same_dir south = refl
same_dir west = refl

-- For any two directions there is a reachable state of three vehicles in which one from the first and
-- one from the second are in the intersection together: the vehicle from `d` waits and is woken, a
-- third one passes before it has the lock again, the one from `e` finds the intersection empty and
-- enters, and then the woken one goes on without a test.
pub woken_meets_other :
    (d e : Direction) → (y : System) × Reach 3 y × (y.pc 0 ≡ inside e) × (y.pc 1 ≡ inside d)
unfolding before_entry after_wait after_exit next_direction shift enlist flagged
woken_meets_other d e =
    let s = same_dir d in
    let r1 = next start (arrive 0 e (omega arith) refl) in
    let r2 = next r1 (arrive 1 d (omega arith) refl) in
    let r3 = next r2 (leave 0 e (omega arith) refl) in
    let r4 = next r3 (arrive 2 d (omega arith) refl) in
    let r5 = next r4 (leave 2 d (omega arith) (rw s refl)) in
    let r6 = next r5 (arrive 0 e (omega arith) (rw s refl)) in
    let r7 = next r6 (resume 1 d (omega arith) (rw s refl)) in (_, r7, rw s refl, refl)
