-- ===== src/Kernlib/Queue/Laws.antt =====
-- Growth of a queue, and its operations as list operations (kern/lib/queue.c).
use os.Base.{
  sym, Option, none, some, ℕ, zero, suc, ◌+◌, ◌*◌, ◌%◌, ◌^◌, ◌≤◌, ◌<◌, ◌≡◌, ◌⊎◌, ◌∙◌, inl, inr,
  refl, ap, Option, [], ◌∷◌, ◌++◌, ltb, Bool-cases, Option-cases, Result, ok, err, enomem, arith,
  ==-false,
}
use native.Mathlib.Decide.{dec_lt}
use os.Kernlib.Slice.{slice, slice_snoc}
use os.Kernlib.Queue.{
  Queue, grow_size, refill, grow_with, addtail_with, filled, contents, expect_ok, grow_fuel,
}
use os.Kernlib.Queue.Ring.{
  wrap, IsQueue, Added, place, entry, filled-lt, place_end, place_inside, place_next, full_iff,
  addtail_with-Added,
}

doubled : ℕ → ℕ → ℕ
doubled zero n = n
doubled (suc fuel) n = doubled fuel (n * 2)

doubled_mono : (fuel n m : ℕ) → n ≤ m → doubled fuel n ≤ doubled fuel m
unfolding doubled
doubled_mono zero n m le = le
doubled_mono (suc fuel) n m le = doubled_mono fuel (n * 2) (m * 2) (omega arith)

-- Below 2^29 the doubling ends without overflow, at less than twice the target or where it began.
grow_size_lem :
    (fuel n target : ℕ)
    → 0 < n
    → target < 2 ^ 29
    → target ≤ doubled fuel n
    → (r : ℕ) × (grow_size (suc fuel) n target ≡ ok r)
      × (target ≤ r)
      × (n ≤ r)
      × ((r ≡ n) ⊎ (r < 2 * target))
unfolding grow_size doubled
grow_size_lem zero n target pos small enough = (n, ground arith, enough, omega arith, inl refl)
grow_size_lem (suc fuel) n target pos small enough = elim (Bool-cases (ltb n target)) [
  | inr done ↦ (n, rw done, ground arith, omega arith, inl refl)
  | inl more ↦
      let (r, got, le, ge, bound) = grow_size_lem fuel (n * 2) target (omega arith) small enough in
      (r, ground arith, le, omega arith, inr (ground arith))
]

-- A queue that is to hold one more doubles once.
pub grow_size-double :
    (fuel n : ℕ) → 0 < n → n + 1 < 2 ^ 28 → grow_size (suc (suc fuel)) n (n + 1) ≡ ok (n * 2)
unfolding grow_size
grow_size-double fuel n pos small = ground arith

grow_bound : (n target : ℕ) → 0 < n → target < 2 ^ 28 → target ≤ doubled 31 n
unfolding doubled
grow_bound n target pos small = omega (arith, doubled_mono 31 1 n pos)

module _ {ℓ} {A : Type ℓ} where
  -- The state of the refilling loop after `j` of the old entries.
  record Refilled (old q : Queue A) (j : ℕ) : Type ℓ where
    valid : IsQueue q
    room : filled old < q.size
    count : filled q ≡ j
    copied : contents q ≡ slice j 0 (entry old)

  Refilled-next :
      {old q q1 : Queue A} {j : ℕ} {v : IsQueue q}
      → Added v (entry old j) q1
      → Refilled old q j
      → Refilled old q1 (j + 1)
  Refilled-next {old} {j} a r = record {
    valid = a.valid';
    room = omega (arith, r.room, a.size);
    count = omega (arith, r.count, a.filled');
    copied =
        a.contents'
        ∙ (ap (λ l. l ++ entry old j ∷ []) r.copied
            ∙ sym (slice_snoc j (entry old) (entry old) (entry old j) (λ k lt. refl) refl));
  }

  refill_lem :
      (grow : Queue A → ℕ → Result (Queue A)) {old : Queue A}
      → IsQueue old
      → (fuel j : ℕ) (q : Queue A) → j ≤ filled old
      → filled old ≤ j + fuel
      → Refilled old q j
      → (q' : Queue A) × (refill
            (addtail_with grow)
            old.data_block
            old.size
            old.nextwrite
            fuel
            (place old j)
            q
          ≡ ok q')
        × Refilled old q' (filled old)
        × (q'.size ≡ q.size)
  unfolding refill expect_ok
  refill_lem grow {old} vo zero j q le enough r =
      let e : j ≡ filled old = omega arith in
      (q, rw (e, place_end vo) (ground arith), rw e at r, refl)
  refill_lem grow {old} vo (suc fuel) j q le enough r = elim (dec_lt j (filled old)) [
    | no p ↦
        let e : j ≡ filled old = omega arith in
        (q, rw (e, place_end vo) (ground arith), rw e at r, refl)
    | yes p ↦
        let (q1, got, a) =
          addtail_with-Added r.valid grow (entry old j)
            ((full_iff r.valid).1 (omega (arith, r.count, r.room))) in
        let (q', end, r', size) =
          refill_lem grow vo fuel (j + 1) q1 (omega arith) (omega arith) (Refilled-next a r) in
        (
          q',
          rw
              (
                ==-false _ _ (place_inside vo j p),
                got,
                place_next vo j (omega (arith, filled-lt vo)),
              )
              end,
          r',
          size ∙ a.size,
        )
  ]

  -- The whole loop, from the old read position.
  refill_all :
      (grow : Queue A → ℕ → Result (Queue A)) {old : Queue A} (q : Queue A)
      → IsQueue old
      → Refilled old q 0
      → (q' : Queue A) × (refill
            (addtail_with grow)
            old.data_block
            old.size
            old.nextwrite
            old.size
            old.nextread
            q
          ≡ ok q')
        × Refilled old q' (filled old)
        × (q'.size ≡ q.size)
  refill_all grow {old} q vo r =
      let start : place old 0 ≡ old.nextread =
        ground (arith, vo.read, vo.positive, wrap (old.nextread + 0) old.size) in
      let (q', run, r', size) =
        refill_lem grow vo old.size 0 q (omega arith) (omega (arith, filled-lt vo)) r in
      (q', rw start at run, r', size)

  -- A queue grown to hold more has the same entries, and room for the target.
  pub record Grown (q : Queue A) (target : ℕ) (q' : Queue A) : Type ℓ where
    pub valid : IsQueue q'
    pub size : target ≤ q'.size
    pub entries : contents q' ≡ contents q
    pub room : filled q' ≡ filled q

  module _ (kmalloc : ℕ → Option (ℕ → A)) {q : Queue A} (valid : IsQueue q) where
    fresh-Refilled :
        (nsize : ℕ) (ndata : ℕ → A)
        → q.size ≤ nsize
        → nsize < 2 ^ 29
        → Refilled q (record { size = nsize; nextread = 0; nextwrite = 0; data_block = ndata }) 0
    unfolding contents slice
    fresh-Refilled nsize ndata le small = record {
      valid = record {
        positive = omega (arith, valid.positive);
        small = small;
        read = omega (arith, valid.positive);
        write = omega (arith, valid.positive);
      };
      room = omega (arith, filled-lt valid);
      count = refl;
      copied = refl;
    }

    pub grow_lem :
        (grow : Queue A → ℕ → Result (Queue A)) (target : ℕ)
        → q.size < target
        → target < 2 ^ 28
        → (nsize : ℕ) × (grow_size grow_fuel q.size target ≡ ok nsize)
          × (((grow_with (addtail_with grow) kmalloc q target ≡ err enomem)
                × (kmalloc (nsize * 4 % 2 ^ 32) ≡ none))
              ⊎ ((q' : Queue A) × (grow_with (addtail_with grow) kmalloc q target ≡ ok q')
                  × Grown q target q'
                  × ((block : ℕ → A) × (kmalloc (nsize * 4 % 2 ^ 32) ≡ some block))))
    unfolding grow_with contents
    grow_lem grow target lt small =
        let (nsize, got, le, ge, bound) =
          grow_size_lem 31 q.size target valid.positive (omega arith)
            (grow_bound q.size target valid.positive small) in
        (
          nsize,
          got,
          elim (Option-cases (kmalloc (nsize * 4 % 2 ^ 32))) [
            | inl failed ↦ inl (rw (got, failed), failed)
            | inr (ndata, block) ↦
                let q0 : Queue A = record {
                  size = nsize;
                  nextread = 0;
                  nextwrite = 0;
                  data_block = ndata;
                } in
                let (q', run, r, size) =
                  refill_all grow q0 valid
                    (fresh-Refilled nsize ndata ge (omega (arith, bound, valid.small))) in
                inr (
                  q',
                  rw (got, block) run,
                  record {
                    valid = r.valid;
                    size = omega (arith, size, le);
                    entries = r.copied;
                    room = r.count;
                  },
                  (ndata, block),
                )
          ],
        )
