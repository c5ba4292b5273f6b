-- ===== src/Synch/Catmouse.antt =====
-- Cats and mice that eat under one semaphore: kern/synchprobs/catmouse_synch.c over P and V.
use os.Base.{
  tally, tally-update, tally-const, two-le-tally, tally_some, weight-le-tally, ◌∷◌, ◌∙◌, ℕ, ◌+◌,
  ◌<◌, ◌≡◌, ◌⊎◌, inl, inr, refl, update, arith,
}
use native.Mathlib.Decide.{ℕ_discrete, dec_lt}
use os.Synch.Threads.{Queued}
use os.Synch.Semaphore.{
  Sem, Pc, outside, p_enter, asleep, p_take, p_leave, inside, v_enter, v_count, v_leave, Move,
  call_p, take, call_v, keep, signal, give, System, Step, move, sleep, wake, create, Reach, start,
  next,
}
use os.Synch.Semaphore.Safety.{no_lost_wakeup}
use os.Synch.Semaphore.Places.{takes, pending}
use os.Synch.Semaphore.Invariant.{Inv, Reach-Inv}

pub data Creature : Type 0 where
  cat : Creature
  mouse : Creature

-- cat_before_eating and mouse_before_eating call P, cat_after_eating and mouse_after_eating call V,
-- on the one semaphore and whatever the bowl.
abbrev pub before_eating : Creature → (bowl : ℕ) → Pc
before_eating cat bowl = p_enter
before_eating mouse bowl = p_enter

abbrev pub after_eating : Creature → (bowl : ℕ) → Pc
after_eating cat bowl = v_enter
after_eating mouse bowl = v_enter

-- catmouse_sync_init
abbrev pub sync_init : System
sync_init = create 1

-- The moves of P and V themselves, between a call and its return.
abbrev pub InnerMove : {s s' : Sem} {p p' : Pc} → Move s p s' p' → Type 0
InnerMove call_p = ⊥
InnerMove call_v = ⊥
InnerMove keep = ⊥
InnerMove signal = ⊥
InnerMove _ = Unit

abbrev pub InnerStep : {n : ℕ} {y z : System} → Step n y z → Type 0
InnerStep (move i lt mv) = InnerMove mv
InnerStep _ = Unit

-- `kind i` is what thread i simulates. A creature eats at the place `inside`.
pub data Turn (n : ℕ) (kind : ℕ → Creature) (y : System) : System → Type 0 where
  arrive :
      (i bowl : ℕ)
      → i < n
      → y.pc i ≡ outside
      → Turn n kind y (record y { pc = update y.pc i (before_eating (kind i) bowl) })
  finish :
      (i bowl : ℕ)
      → i < n
      → y.pc i ≡ inside
      → Turn n kind y (record y { pc = update y.pc i (after_eating (kind i) bowl) })
  inner : {z : System} (st : Step n y z) → InnerStep st → Turn n kind y z

pub data Simulation (n : ℕ) (kind : ℕ → Creature) : System → Type 0 where
  opened : Simulation n kind sync_init
  turn : {y z : System} → Simulation n kind y → Turn n kind y z → Simulation n kind z

-- A creature between the decrement of its P and the increment of its V.
abbrev pub holds : Pc → ℕ
holds p_leave = 1
holds inside = 1
holds v_enter = 1
holds v_count = 1
holds _ = 0

before_eating_lem : (c : Creature) (bowl : ℕ) → before_eating c bowl ≡ p_enter
before_eating_lem cat bowl = refl
before_eating_lem mouse bowl = refl

after_eating_lem : (c : Creature) (bowl : ℕ) → after_eating c bowl ≡ v_enter
after_eating_lem cat bowl = refl
after_eating_lem mouse bowl = refl

take_ready :
    (n : ℕ) (y : System) → Inv n y → (i : ℕ) → i < n → y.pc i ≡ p_take → 0 < y.sem.sem_count
take_ready n y inv i lt e =
    let one : takes (y.pc i) ≡ 1 = rw e in
    omega (arith, inv.backed, weight-le-tally takes n y.pc i lt)

-- A simulation is a run of P and V from a count of 1.
pub Simulation-Reach :
    {n : ℕ} {kind : ℕ → Creature} {y : System} → Simulation n kind y → Reach n 1 y
Simulation-Reach opened = start
Simulation-Reach {kind} (turn {y} r (arrive i bowl lt e)) =
    rw (before_eating_lem (kind i) bowl) (next (Simulation-Reach r) (move i lt (rw e call_p)))
Simulation-Reach {kind} (turn {y} r (finish i bowl lt e)) =
    rw (after_eating_lem (kind i) bowl) (next (Simulation-Reach r) (move i lt (rw e call_v)))
Simulation-Reach (turn r (inner st ok)) = next (Simulation-Reach r) st

InnerMove-holds :
    {s s' : Sem} {p p' : Pc} (mv : Move s p s' p')
    → InnerMove mv
    → (p ≡ p_take → 0 < s.sem_count)
    → s'.sem_count + holds p' ≡ s.sem_count + holds p
InnerMove-holds call_p within ready = absurd within
InnerMove-holds call_v within ready = absurd within
InnerMove-holds keep within ready = absurd within
InnerMove-holds signal within ready = absurd within
InnerMove-holds take within ready = omega (arith, ready refl)
InnerMove-holds (give fits) within ready = omega arith
InnerMove-holds _ within ready = refl

InnerStep-holds :
    {n : ℕ} {y z : System} (st : Step n y z)
    → InnerStep st
    → Inv n y
    → z.sem.sem_count + tally holds n z.pc ≡ y.sem.sem_count + tally holds n y.pc
InnerStep-holds {n} {y} (move i {p} lt mv) within inv =
    omega
      (arith, InnerMove-holds mv within (take_ready n y inv i lt), tally-update holds n y.pc i p lt)
InnerStep-holds {n} {y} (sleep i lt e) within inv =
    let none : holds (y.pc i) ≡ 0 = rw e in
    omega (arith, tally-update holds n y.pc i asleep lt, none)
InnerStep-holds {n} {y} (wake i t rest lt e list) within inv =
    let none : holds (y.pc i) ≡ 0 = rw e in
    let q : Queued asleep n y.pc (t ∷ rest) = rw list at inv.listed in
    let none' : holds (update y.pc i v_leave t) ≡ 0 = ground (arith, q.1) in
    omega (
      arith,
      tally-update holds n y.pc i v_leave lt,
      tally-update holds n (update y.pc i v_leave) t p_enter q.0,
      none,
      none',
    )

-- The count and the creatures that hold a unit are one together.
pub Simulation-holds :
    {n : ℕ} {kind : ℕ → Creature} {y : System}
    → Simulation n kind y
    → y.sem.sem_count + tally holds n y.pc ≡ 1
Simulation-holds {n} opened = omega (arith, tally-const holds n outside refl)
Simulation-holds {n} {kind} (turn {y} r (arrive i bowl lt e)) =
    let none : holds (y.pc i) ≡ 0 = rw e in
    rw (before_eating_lem (kind i) bowl)
      (omega (arith, Simulation-holds r, tally-update holds n y.pc i p_enter lt, none))
Simulation-holds {n} {kind} (turn {y} r (finish i bowl lt e)) =
    let one : holds (y.pc i) ≡ 1 = rw e in
    rw (after_eating_lem (kind i) bowl)
      (omega (arith, Simulation-holds r, tally-update holds n y.pc i v_enter lt, one))
Simulation-holds (turn r (inner st ok)) =
    InnerStep-holds st ok (Reach-Inv (Simulation-Reach r)) ∙ Simulation-holds r

module _ {n : ℕ} {kind : ℕ → Creature} {y : System} (r : Simulation n kind y) where
  -- In every reachable state of the simulation at most one creature eats: no two at one bowl, and no
  -- cat while a mouse does.
  pub one_eats : (i j : ℕ) → i < n → j < n → y.pc i ≡ inside → y.pc j ≡ inside → i ≡ j
  one_eats i j hi hj ei ej = elim (ℕ_discrete i j) [
    | yes e ↦ e
    | no ne ↦
        let one : holds (y.pc i) ≡ 1 = rw ei in
        let one' : holds (y.pc j) ≡ 1 = rw ej in
        absurd (omega (arith, two-le-tally holds n y.pc i j hi hj ne, Simulation-holds r))
  ]

  -- While a creature sleeps, some creature can go on: it will still test, take or wake, or it holds
  -- the unit, eating included. So the creatures are never all asleep or away.
  pub sleeper_is_awaited :
      (i : ℕ)
      → i < n
      → y.pc i ≡ asleep
      → (j : ℕ) × (j < n) × ((0 < pending (y.pc j)) ⊎ (0 < holds (y.pc j)))
  sleeper_is_awaited i lt e = elim (dec_lt 0 (tally pending n y.pc)) [
    | yes p ↦ let (j, hj, w) = tally_some pending n y.pc p in (j, hj, inl w)
    | no p ↦
        let few = (no_lost_wakeup (Simulation-Reach r) i lt e).0 in
        let (j, hj, w) = tally_some holds n y.pc (omega (arith, few, Simulation-holds r)) in
        (j, hj, inr w)
  ]
