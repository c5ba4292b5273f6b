-- ===== src/Synch/Lock/Owner.antt =====
-- The owner of a lock of kern/thread/synch.c, and the assertions that lock_acquire and lock_release begin
-- with.
use os.Base.{
  ℕ, ◌<◌, ◌≡◌, ◌≢◌, inl, inr, refl, sym, ◌∙◌, true, false, some, ◌∷◌, update, arith,
  weight-le-tally, two-le-tally, ℕ_discrete, Option-cases,
}
use os.Synch.Threads.{Queued}
use os.Synch.Semaphore.{Pc, outside, p_enter, p_take, asleep, inside, v_leave}
use os.Synch.Semaphore.Invariant.{Reach-Inv}
use os.Synch.Semaphore.Safety.{assertion_before_take}
use os.Synch.Catmouse.{holds, Simulation-holds, Simulation-Reach}
use os.Synch.Lock.{
  Lock, lock_do_i_hold, Move, call_acquire, a_acquire, test_held, test_free, lock_channel, bridge,
  take, a_release, call_release, r_acquire, clear, wake_lock, wake_none, r_release, System, move,
  sleep, wake, Reach, start, next,
}
use os.Synch.Lock.Refine.{Reach-Simulation}

-- The thread that holds the lock by its place is the owner, and there is no other owner.
record Owned (n : ℕ) (l : Lock) (pc : ℕ → Pc) : Type 0 where
  holder : (i : ℕ) → i < n → holds (pc i) ≡ 1 → (l.hold ≡ true) × (l.owner ≡ some i)
  owner_holds : (i : ℕ) → l.owner ≡ some i → holds (pc i) ≡ 1

same_Owned :
    {n : ℕ} {l l' : Lock} {pc pc' : ℕ → Pc}
    → Owned n l pc
    → l'.hold ≡ l.hold
    → l'.owner ≡ l.owner
    → ((j : ℕ) → holds (pc' j) ≡ holds (pc j))
    → Owned n l' pc'
same_Owned o h w same = record {
  holder = λ i lt e. let (a, b) = o.holder i lt (sym (same i) ∙ e) in (h ∙ a, w ∙ b);
  owner_holds = λ i e. same i ∙ o.owner_holds i (sym w ∙ e);
}

holds-update :
    (pc : ℕ → Pc) (i : ℕ) (p : Pc)
    → holds p ≡ holds (pc i)
    → (j : ℕ) → holds (update pc i p j) ≡ holds (pc j)
holds-update pc i p e j = ground (arith, e)

-- Of two threads only one holds the lock, and none does while one is about to take it.
module _ {n : ℕ} {y : System} (r : Reach n y) where
  one_holds : (i j : ℕ) → i < n → j < n → holds (y.pc i) ≡ 1 → holds (y.pc j) ≡ 1 → i ≡ j
  one_holds i j hi hj ei ej = elim (ℕ_discrete i j) [
    | yes e ↦ e
    | no ne ↦ absurd (
        omega
          (arith, two-le-tally holds n y.pc i j hi hj ne, Simulation-holds (Reach-Simulation r)))
  ]

  none_holds : (i j : ℕ) → i < n → j < n → y.pc i ≡ p_take → holds (y.pc j) ≢ 1
  none_holds i j hi hj e one = omega (
    arith,
    (assertion_before_take (Simulation-Reach (Reach-Simulation r)) i hi e).0,
    weight-le-tally holds n y.pc j hj,
    Simulation-holds (Reach-Simulation r),
  )

  Move-Owned :
      (i : ℕ) {p : Pc} {l' : Lock} {p' : Pc}
      → i < n
      → y.pc i ≡ p
      → Move i y.lock p l' p'
      → Owned n y.lock y.pc
      → Owned n l' (update y.pc i p')
  Move-Owned i lt e take o = record {
    holder = λ j lt' one. elim (ℕ_discrete i j) [
      | yes same ↦ (refl, rw same refl)
      | no ne ↦ absurd (none_holds i j lt lt' e (ground (arith, one)))
    ];
    owner_holds = λ j own. ground (arith, own);
  }
  Move-Owned i lt e clear o = record {
    holder = λ j lt' one. absurd (ground (arith, one, one_holds i j lt lt', e));
    owner_holds = λ j own. absurd (ground (arith, own));
  }
  Move-Owned i lt e (call_acquire h) o = same_Owned o refl refl (holds-update y.pc i _ (rw e refl))
  Move-Owned i lt e (a_acquire free) o = same_Owned o refl refl (holds-update y.pc i _ (rw e refl))
  Move-Owned i lt e (test_held h) o = same_Owned o refl refl (holds-update y.pc i _ (rw e refl))
  Move-Owned i lt e (test_free h) o = same_Owned o refl refl (holds-update y.pc i _ (rw e refl))
  Move-Owned i lt e (lock_channel free) o =
      same_Owned o refl refl (holds-update y.pc i _ (rw e refl))
  Move-Owned i lt e bridge o = same_Owned o refl refl (holds-update y.pc i _ (rw e refl))
  Move-Owned i lt e a_release o = same_Owned o refl refl (holds-update y.pc i _ (rw e refl))
  Move-Owned i lt e (call_release h) o = same_Owned o refl refl (holds-update y.pc i _ (rw e refl))
  Move-Owned i lt e (r_acquire free) o = same_Owned o refl refl (holds-update y.pc i _ (rw e refl))
  Move-Owned i lt e (wake_lock free) o = same_Owned o refl refl (holds-update y.pc i _ (rw e refl))
  Move-Owned i lt e (wake_none empty) o = same_Owned o refl refl (holds-update y.pc i _ (rw e refl))
  Move-Owned i lt e r_release o = same_Owned o refl refl (holds-update y.pc i _ (rw e refl))

Reach-Owned : {n : ℕ} {y : System} → Reach n y → Owned n y.lock y.pc
Reach-Owned start = record {
  holder = λ i lt e. absurd (omega (arith, e));
  owner_holds = λ i e. absurd (ground (arith, e));
}
Reach-Owned (next {y} r (move i lt mv)) = Move-Owned r i lt refl mv (Reach-Owned r)
Reach-Owned (next {y} r (sleep i lt e)) =
    same_Owned (Reach-Owned r) refl refl (holds-update y.pc i asleep (rw e refl))
Reach-Owned {n} (next {y} r (wake i t rest lt e list)) =
    let q : Queued asleep n y.pc (t ∷ rest) =
      rw list at (Reach-Inv (Simulation-Reach (Reach-Simulation r))).listed in
    same_Owned (Reach-Owned r) refl refl (λ j.
      holds-update (update y.pc i v_leave) t p_enter (ground (arith, q.1)) j
      ∙ holds-update y.pc i v_leave (rw e refl) j)

-- In every reachable state the assertions that begin lock_acquire and lock_release hold: a thread that
-- does not have the lock does not find itself its owner, and one that has returned from lock_acquire,
-- and has not called lock_release since, does.
pub assertions_hold :
    {n : ℕ} {y : System}
    → Reach n y
    → (i : ℕ) → i < n
    → (y.pc i ≡ outside → lock_do_i_hold y.lock i ≡ false)
      × (y.pc i ≡ inside → lock_do_i_hold y.lock i ≡ true)
assertions_hold {y} r i lt =
    let o = Reach-Owned r in
    (
      λ e. elim (Option-cases y.lock.owner) [
        | inl none' ↦ rw none' (ground arith)
        | inr (j, own) ↦ rw own (ground (arith, o.owner_holds j own, e))
      ],
      λ e. let (h, own) = o.holder i lt (rw e refl) in rw (h, own) (ground arith),
    )
