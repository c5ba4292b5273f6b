-- ===== src/Vm/Coremap/Blocks.antt =====
-- Blocks of frames: what the marking loop of getppages writes and what free_kpages takes back.
use os.Base.{
  ℕ, zero, suc, ◌+◌, ◌-◌, ◌≤◌, ◌<◌, ◌≡◌, ◌⊎◌, inl, inr, refl, Bool, true, false, ◌&&◌, ltb, leb, ap,
  ◌∙◌, ◌==◌, if◌then◌else◌, arith,
}
use native.Mathlib.Decide.{dec_lt}
use os.Vm.Coremap.Search.{IsFreeRun}
use os.Vm.Coremap.{Coremap, mark_frame, mark_run, release_frame, free_run, free_frames}

-- The `n` frames from `i` on are one allocated block.
pub record IsBlock (cm : Coremap) (n i : ℕ) : Type 0 where
  pub positive : 0 < n
  pub inside : i + n ≤ cm.size
  pub used : (k : ℕ) → i ≤ k → k < i + n → cm.in_use k ≡ 1
  pub linked : (k : ℕ) → i ≤ k → k + 1 < i + n → cm.contain_next k ≡ 1
  pub last : cm.contain_next (i + n - 1) ≡ 0

abbrev pub within : ℕ → ℕ → ℕ → Bool
within lo hi k = leb lo k && ltb k hi

mark_run-in_use :
    (need left i : ℕ) (cm : Coremap) (k : ℕ)
    → left ≤ need
    → (mark_run need left i cm).in_use k
      ≡ (if within (i + (need - left)) (i + need) k then 1 else cm.in_use k)
unfolding mark_run
mark_run-in_use need zero i cm k le = ground arith
mark_run-in_use need (suc left) i cm k le =
    ground
      (arith, mark_run-in_use need left i (mark_frame need i (need - suc left) cm) k (omega arith))

mark_run-contain_next :
    (need left i : ℕ) (cm : Coremap) (k : ℕ)
    → left ≤ need
    → (mark_run need left i cm).contain_next k ≡ (
        if within (i + (need - left)) (i + need) k
        then (if k == i + need - 1 then 0 else 1)
        else cm.contain_next k)
unfolding mark_run
mark_run-contain_next need zero i cm k le = ground arith
mark_run-contain_next need (suc left) i cm k le = ground (
  arith,
  mark_run-contain_next need left i (mark_frame need i (need - suc left) cm) k (omega arith),
)

pub mark_run-base_addr :
    (need left i : ℕ) (cm : Coremap) → (mark_run need left i cm).base_addr ≡ cm.base_addr
unfolding mark_run
mark_run-base_addr need zero i cm = refl
mark_run-base_addr need (suc left) i cm =
    mark_run-base_addr need left i (mark_frame need i (need - suc left) cm)

pub mark_run-size : (need left i : ℕ) (cm : Coremap) → (mark_run need left i cm).size ≡ cm.size
unfolding mark_run
mark_run-size need zero i cm = refl
mark_run-size need (suc left) i cm = mark_run-size need left i _

-- The frames of a fresh block, as the loop of all its rounds leaves them.
abbrev marked : ℕ → ℕ → Coremap → Coremap
marked n i cm = mark_run n n i cm

pub marked-in_use :
    (n i : ℕ) (cm : Coremap) (k : ℕ)
    → (marked n i cm).in_use k ≡ (if within i (i + n) k then 1 else cm.in_use k)
marked-in_use n i cm k =
    let e : i + (n - n) ≡ i = omega arith in rw e at (mark_run-in_use n n i cm k (omega arith))

pub marked-contain_next :
    (n i : ℕ) (cm : Coremap) (k : ℕ)
    → (marked n i cm).contain_next k
      ≡ (if within i (i + n) k then (if k == i + n - 1 then 0 else 1) else cm.contain_next k)
marked-contain_next n i cm k =
    let e : i + (n - n) ≡ i = omega arith in
    rw e at (mark_run-contain_next n n i cm k (omega arith))

pub mark-IsBlock :
    (n i : ℕ) (cm : Coremap)
    → 0 < n
    → IsFreeRun cm.in_use cm.size n i
    → IsBlock (mark_run n n i cm) n i
mark-IsBlock n i cm pos run = record {
  positive = pos;
  inside = omega (arith, run.inside, mark_run-size n n i cm);
  used = λ k lo hi. ground (arith, marked-in_use n i cm k);
  linked = λ k lo hi. ground (arith, marked-contain_next n i cm k);
  last = ground (arith, marked-contain_next n i cm (i + n - 1));
}

-- An allocated block and a free run share no frame.
pub block_run_apart :
    {cm : Coremap} {n i n' i' : ℕ}
    → 0 < n
    → IsFreeRun cm.in_use cm.size n i
    → IsBlock cm n' i'
    → (i' + n' ≤ i) ⊎ (i + n ≤ i')
block_run_apart {n} {i} {n'} {i'} pos run b = elim (dec_lt i i') [
  | yes p ↦ elim (dec_lt i' (i + n)) [
    | yes q ↦ absurd (
        omega
          (arith, run.free i' (omega arith) q, b.used i' (omega arith) (omega (arith, b.positive))))
    | no q ↦ inr (omega arith)
  ]
  | no p ↦ elim (dec_lt i (i' + n')) [
    | yes q ↦
        absurd (omega (arith, run.free i (omega arith) (omega arith), b.used i (omega arith) q))
    | no q ↦ inl (omega arith)
  ]
]

pub mark_keeps-IsBlock :
    {cm : Coremap} (n i : ℕ) {n' i' : ℕ}
    → (i' + n' ≤ i) ⊎ (i + n ≤ i')
    → IsBlock cm n' i'
    → IsBlock (mark_run n n i cm) n' i'
mark_keeps-IsBlock {cm} n i {n'} {i'} apart b = record {
  positive = b.positive;
  inside = omega (arith, b.inside, mark_run-size n n i cm);
  used = λ k lo hi. ground (arith, marked-in_use n i cm k, b.used k lo hi);
  linked = λ k lo hi. ground (arith, marked-contain_next n i cm k, b.linked k lo hi);
  last = ground (arith, marked-contain_next n i cm (i' + n' - 1), b.last, b.positive);
}

-- `m` linked frames and one that ends the block.
record Freed (m i : ℕ) (cm : Coremap) (r : ℕ × Coremap) : Type 0 where
  stop : r.0 ≡ i + m
  in_use : (k : ℕ) → r.1.in_use k ≡ (if within i (i + m) k then 0 else cm.in_use k)
  same_links : r.1.contain_next ≡ cm.contain_next
  same_size : r.1.size ≡ cm.size

free_run_lem :
    (fuel m i : ℕ) (cm : Coremap)
    → m ≤ fuel
    → i + m < cm.size
    → ((k : ℕ) → i ≤ k → k < i + m → cm.contain_next k ≡ 1)
    → cm.contain_next (i + m) ≡ 0
    → Freed m i cm (free_run fuel i cm)
unfolding free_run
free_run_lem zero zero i cm le inside linked last = record {
  stop = omega arith;
  in_use = λ k. ground arith;
  same_links = refl;
  same_size = refl;
}
free_run_lem zero (suc m) i cm le inside linked last = absurd (omega arith)
free_run_lem (suc fuel) zero i cm le inside linked last =
    let e : i + 0 ≡ i = omega arith in
    let z : cm.contain_next i ≡ 0 = rw e at last in
    let halt : (ltb i cm.size && (cm.contain_next i == 1)) ≡ false = ground arith in
    rw halt (record {
      stop = omega arith;
      in_use = λ k. ground arith;
      same_links = refl;
      same_size = refl;
    })
free_run_lem (suc fuel) (suc m) i cm le inside linked last =
    let go : (ltb i cm.size && (cm.contain_next i == 1)) ≡ true =
      ground (arith, linked i (omega arith) (omega arith)) in
    let e : i + 1 + m ≡ i + suc m = omega arith in
    let rest =
      free_run_lem fuel m (i + 1) (release_frame i cm) (omega arith) (omega arith)
        (λ k lo hi. linked k (omega arith) (omega arith)) (rw e last) in
    rw go (record {
      stop = omega (arith, rest.stop);
      in_use = λ k. ground (arith, rest.in_use k);
      same_links = rest.same_links;
      same_size = rest.same_size;
    })

-- free_kpages clears the frames of the block that starts there, and no other.
pub free_frames-in_use :
    {cm : Coremap} {n i : ℕ} (k : ℕ)
    → IsBlock cm n i
    → (free_frames i cm).in_use k ≡ (if within i (i + n) k then 0 else cm.in_use k)
unfolding free_frames
free_frames-in_use {cm} {n} {i} k b =
    let e : i + (n - 1) ≡ i + n - 1 = omega (arith, b.positive) in
    let r =
      free_run_lem (cm.size - i) (n - 1) i cm (omega (arith, b.inside))
        (omega (arith, b.inside, b.positive)) (λ j lo hi. b.linked j lo (omega arith))
        (rw e b.last) in
    ground (arith, r.stop, r.in_use k, r.same_size, b.inside, b.positive)

free_run-links :
    (fuel i : ℕ) (cm : Coremap)
    → ((free_run fuel i cm).1.contain_next ≡ cm.contain_next)
      × ((free_run fuel i cm).1.size ≡ cm.size)
unfolding free_run
free_run-links zero i cm = (refl, refl)
free_run-links (suc fuel) i cm = ground (arith, free_run-links fuel (i + 1) (release_frame i cm))

pub free_frames-links :
    (i : ℕ) (cm : Coremap)
    → ((free_frames i cm).contain_next ≡ cm.contain_next) × ((free_frames i cm).size ≡ cm.size)
unfolding free_frames
free_frames-links i cm = ground (arith, free_run-links (cm.size - i) i cm)

pub free_keeps-IsBlock :
    {cm : Coremap} {n i n' i' : ℕ}
    → (i' + n' ≤ i) ⊎ (i + n ≤ i')
    → IsBlock cm n i
    → IsBlock cm n' i'
    → IsBlock (free_frames i cm) n' i'
free_keeps-IsBlock {cm} {n} {i} {n'} {i'} apart b b' =
    let (links, size) = free_frames-links i cm in
    record {
      positive = b'.positive;
      inside = omega (arith, b'.inside);
      used = λ k lo hi. ground (arith, free_frames-in_use k b, b'.used k lo hi);
      linked = λ k lo hi. ap (λ f. f k) links ∙ b'.linked k lo hi;
      last = ap (λ f. f (i' + n' - 1)) links ∙ b'.last;
    }
