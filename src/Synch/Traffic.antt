-- ===== src/Synch/Traffic.antt =====
-- The intersection of kern/synchprobs/traffic_synch.c. What a function does while it holds `lk_mutex`
-- is one step; cv_wait splits it, and a woken vehicle goes on in a later step.
pub mod Collision
use os.Base.{
  ℕ, zero, suc, ◌+◌, ◌-◌, ◌<◌, ◌≡◌, Bool, true, false, ◌&&◌, ◌||◌, Option, none, some, ◌==◌,
  if◌then◌else◌, update,
}

pub data Direction : Type 0 where
  north : Direction
  east : Direction
  south : Direction
  west : Direction

-- transDir on the four directions
abbrev pub trans_dir : Direction → ℕ
trans_dir north = 0
trans_dir east = 1
trans_dir south = 2
trans_dir west = 3

-- The static variables; -1 is `none`.
pub record Traffic : Type 0 where
  pub count : ℕ
  pub current : Option ℕ
  pub waitlist : ℕ → Option ℕ
  pub len_waitlist : ℕ

abbrev pub is_dir : Option ℕ → ℕ → Bool
is_dir none t = false
is_dir (some u) t = u == t

-- The loop that sets `flag`, `left` rounds before its end.
pub flagged : (ℕ → Option ℕ) → (t left i : ℕ) → Bool
flagged slots t zero i = false
flagged slots t (suc left) i = is_dir (slots i) t || flagged slots t left (i + 1)

abbrev pub is_free : Option ℕ → ℕ → Bool
is_free none t = true
is_free (some u) t = u == t

-- The else branch of intersection_before_entry up to cv_wait.
pub enlist : ℕ → Traffic → Traffic
unfolding flagged
enlist t s = if s.len_waitlist == 4 then s else if flagged s.waitlist t 4 0 then s else record s {
  waitlist = update s.waitlist s.len_waitlist (some t);
  len_waitlist = s.len_waitlist + 1;
}

-- intersection_before_entry up to its return (`true`) or to cv_wait.
pub before_entry : Direction → Traffic → Traffic × Bool
unfolding enlist
before_entry origin s =
    if (s.count == 0) && is_free s.current (trans_dir origin)
    then (record s { count = s.count + 1; current = some (trans_dir origin) }, true)
    else (enlist (trans_dir origin) s, false)

-- The rest of it, after cv_wait has returned.
pub after_wait : Traffic → Traffic
after_wait s = record s { count = s.count + 1 }

-- `for (i = 0; i < 3; i++) waitlist[i] = waitlist[i+1]; waitlist[3] = -1;`
pub shift : (ℕ → Option ℕ) → ℕ → Option ℕ
shift slots =
    let s1 = update slots 0 (slots 1) in
    let s2 = update s1 1 (s1 2) in let s3 = update s2 2 (s2 3) in update s3 3 none

-- What intersection_after_exit does when the count has come to 0.
pub next_direction : Traffic → Traffic
unfolding shift
next_direction s = elim (s.waitlist 0) [
  | none ↦ record s { current = none }
  | some t ↦ record s {
    current = some t;
    waitlist = shift s.waitlist;
    len_waitlist = s.len_waitlist - 1;
  }
]

-- The new state, and the direction whose condition variable gets cv_broadcast.
pub after_exit : Traffic → Traffic × Option ℕ
unfolding next_direction
after_exit s =
    let s' : Traffic = record s { count = s.count - 1 } in
    if s'.count == 0 then (next_direction s', (next_direction s').current) else (s', none)

-- Where the thread of a vehicle stands.
pub data Pc : Type 0 where
  away : Pc
  waiting : (origin : Direction) → Pc  -- in cv_wait, on the list of its condition variable
  woken : (origin : Direction) → Pc  -- in cv_wait, before it has the lock again
  inside : (origin : Direction) → Pc  -- in the intersection

-- cv_broadcast on the condition variable of a direction
abbrev pub wake_dir : Option ℕ → Pc → Pc
wake_dir none p = p
wake_dir (some t) (waiting d) = if trans_dir d == t then woken d else waiting d
wake_dir (some t) p = p

pub record System : Type 0 where
  pub shared : Traffic
  pub pc : ℕ → Pc

abbrev pub entry_pc : Direction → Bool → Pc
entry_pc d true = inside d
entry_pc d false = waiting d

pub data Step (n : ℕ) (y : System) : System → Type 0 where
  arrive :
      (i : ℕ) (origin : Direction)
      → i < n
      → y.pc i ≡ away
      → Step n y (record {
        shared = (before_entry origin y.shared).0;
        pc = update y.pc i (entry_pc origin (before_entry origin y.shared).1);
      })
  resume :
      (i : ℕ) (origin : Direction)
      → i < n
      → y.pc i ≡ woken origin
      → Step n y (record { shared = after_wait y.shared; pc = update y.pc i (inside origin) })
  leave :
      (i : ℕ) (origin : Direction)
      → i < n
      → y.pc i ≡ inside origin
      → Step n y (record {
        shared = (after_exit y.shared).0;
        pc = λ j. wake_dir (after_exit y.shared).1 (update y.pc i away j);
      })

abbrev pub sync_init : System
sync_init = record {
  shared = record { count = 0; current = none; waitlist = λ _. none; len_waitlist = 0 };
  pc = λ _. away;
}

pub data Reach (n : ℕ) : System → Type 0 where
  start : Reach n sync_init
  next : {y z : System} → Reach n y → Step n y z → Reach n z
