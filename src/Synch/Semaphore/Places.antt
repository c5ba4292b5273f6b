-- ===== src/Synch/Semaphore/Places.antt =====
-- The places of P and V (kern/thread/synch.c) by what a thread does there.
use os.Base.{tally, tally-le, tally-add, ◌≢◌, ℕ, ◌+◌, ◌≤◌, ◌≡◌, arith}
use os.Synch.Semaphore.{
  Pc, p_enter, p_test, p_nest, p_bridge, p_sleep, asleep, p_take, p_leave, v_count, v_wake,
  v_remhead, v_leave,
}

-- Holds `sem_lock`.
abbrev pub in_sem : Pc → ℕ
in_sem p_test = 1
in_sem p_nest = 1
in_sem p_bridge = 1
in_sem p_take = 1
in_sem p_leave = 1
in_sem v_count = 1
in_sem v_wake = 1
in_sem v_remhead = 1
in_sem v_leave = 1
in_sem _ = 0

-- Holds the lock of the wait channel.
abbrev pub in_channel : Pc → ℕ
in_channel p_bridge = 1
in_channel p_sleep = 1
in_channel v_remhead = 1
in_channel _ = 0

-- Sleeps, or will without another test.
abbrev pub waits : Pc → ℕ
waits p_nest = 1
waits p_bridge = 1
waits p_sleep = 1
waits asleep = 1
waits _ = 0

-- Will still test the count, take a unit or wake a thread.
abbrev pub pending : Pc → ℕ
pending p_enter = 1
pending p_test = 1
pending p_take = 1
pending v_wake = 1
pending v_remhead = 1
pending _ = 0

abbrev pub sleeps : Pc → ℕ
sleeps asleep = 1
sleeps _ = 0

abbrev pub takes : Pc → ℕ
takes p_take = 1
takes _ = 0

abbrev pub tests : Pc → ℕ
tests p_test = 1
tests _ = 0

abbrev pub removes : Pc → ℕ
removes v_remhead = 1
removes _ = 0

-- A thread that tests or takes holds the lock; one that removes holds both, and one that waits
-- sleeps or holds one of them.
pub tests-takes : (n : ℕ) (pc : ℕ → Pc) → tally tests n pc + tally takes n pc ≤ tally in_sem n pc
tests-takes n pc = omega (
  arith,
  tally-le (λ p. tests p + takes p) in_sem (λ p. pointwise p) n pc,
  tally-add tests takes n pc,
)
  where
    pointwise : (p : Pc) → tests p + takes p ≤ in_sem p
    pointwise p = ground arith

pub waits-removes :
    (n : ℕ) (pc : ℕ → Pc)
    → tally waits n pc + (tally removes n pc + tally removes n pc)
      ≤ tally sleeps n pc + (tally in_sem n pc + tally in_channel n pc)
waits-removes n pc = omega (
  arith,
  tally-le (λ p. waits p + (removes p + removes p)) (λ p. sleeps p + (in_sem p + in_channel p))
      (λ p. pointwise p) n pc,
  tally-add waits (λ p. removes p + removes p) n pc,
  tally-add removes removes n pc,
  tally-add sleeps (λ p. in_sem p + in_channel p) n pc,
  tally-add in_sem in_channel n pc,
)
  where
    pointwise : (p : Pc) → waits p + (removes p + removes p) ≤ sleeps p + (in_sem p + in_channel p)
    pointwise p = ground arith

pub ne_asleep : (p : Pc) → sleeps p ≡ 0 → p ≢ asleep
ne_asleep p z e = ground arith
