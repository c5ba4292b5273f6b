-- ===== src/Vm/Coremap/Search.antt =====
-- The search loops of getppages (kern/arch/mips/vm/dumbvm.c): first fit, and complete.
use os.Base.{
  ℕ, zero, suc, ◌+◌, ◌-◌, ◌≤◌, ◌<◌, ◌≡◌, ◌≢◌, ◌⊎◌, inl, inr, false, Option, none, some, ltb, ◌==◌,
  arith, ◌&&◌, Bool-cases,
}
use native.Mathlib.Decide.{dec_lt}
use os.Vm.Coremap.{count_free, find_run}

-- Frames `i` to `i + n - 1` exist and are free.
pub record IsFreeRun (in_use : ℕ → ℕ) (size n i : ℕ) : Type 0 where
  pub inside : i + n ≤ size
  pub free : (k : ℕ) → i ≤ k → k < i + n → in_use k ≡ 0

-- What the search has to say from index `i` on.
abbrev pub Answer : (in_use : ℕ → ℕ) (size n i : ℕ) → Option ℕ → Type 0
Answer in_use size n i none = (j : ℕ) → i ≤ j → ¬ IsFreeRun in_use size n j
Answer in_use size n i (some r) =
    (i ≤ r) × IsFreeRun in_use size n r × ((j : ℕ) → i ≤ j → j < r → ¬ IsFreeRun in_use size n j)

module _ (in_use : ℕ → ℕ) (size : ℕ) where
  -- The inner loop counts the free frames from `s`, and stops early only at a frame that blocks.
  record Counted (rounds s c r : ℕ) : Type 0 where
    least : c ≤ r
    most : r ≤ c + rounds
    inside : c < r → s + (r - c) ≤ size
    free : (k : ℕ) → s ≤ k → k < s + (r - c) → in_use k ≡ 0
    stop : r < c + rounds → (size ≤ s + (r - c)) ⊎ (in_use (s + (r - c)) ≢ 0)

  Counted-more :
      (rounds s c r : ℕ)
      → s < size
      → in_use s ≡ 0
      → Counted rounds (s + 1) (c + 1) r
      → Counted (suc rounds) s c r
  Counted-more rounds s c r lt z h =
      let e : s + 1 + (r - (c + 1)) ≡ s + (r - c) = omega (arith, h.least) in
      record {
        least = omega (arith, h.least);
        most = omega (arith, h.most);
        inside = λ _. elim (dec_lt (c + 1) r) [
          | yes p ↦ omega (arith, h.inside p, h.least)
          | no p ↦ omega (arith, h.least)
        ];
        free = λ k lo hi. elim (dec_lt s k) [
          | yes p ↦ h.free k (omega arith) (omega (arith, h.least))
          | no p ↦ let e' : k ≡ s = omega arith in rw e' z
        ];
        stop = λ p. rw e at (h.stop (omega arith));
      }

  count_free_lem : (rounds s c : ℕ) → Counted rounds s c (count_free in_use size rounds s c)
  unfolding count_free
  count_free_lem zero s c = record {
    least = omega arith;
    most = omega arith;
    inside = λ p. absurd (omega arith);
    free = λ k lo hi. absurd (omega arith);
    stop = λ p. absurd (omega arith);
  }
  count_free_lem (suc rounds) s c = elim (Bool-cases (ltb s size && (in_use s == 0))) [
    | inl go ↦ rw go (
        Counted-more rounds s c _ (ground arith) (ground arith)
          (count_free_lem rounds (s + 1) (c + 1)))
    | inr halt ↦ rw halt (record {
      least = omega arith;
      most = omega arith;
      inside = λ p. absurd (omega arith);
      free = λ k lo hi. absurd (omega arith);
      stop = λ p. let e : s + (c - c) ≡ s = omega arith in rw e (ground arith);
    })
  ]

  -- A frame that blocks rules out every run over it.
  not-IsFreeRun_of_block :
      (n j b : ℕ) → (size ≤ b) ⊎ (in_use b ≢ 0) → j ≤ b → b < j + n → ¬ IsFreeRun in_use size n j
  not-IsFreeRun_of_block n j b (inl out) lo hi run = omega (arith, run.inside)
  not-IsFreeRun_of_block n j b (inr used) lo hi run = used (run.free b lo hi)

  Answer-later :
      (n i i' : ℕ) (o : Option ℕ)
      → i ≤ i'
      → ((j : ℕ) → i ≤ j → j < i' → ¬ IsFreeRun in_use size n j)
      → Answer in_use size n i' o
      → Answer in_use size n i o
  Answer-later n i i' none le skip h =
      λ j lo. elim (dec_lt j i') [ yes p ↦ skip j lo p | no p ↦ h j (omega arith) ]
  Answer-later n i i' (some r) le skip h = (
    omega (arith, h.0),
    h.1,
    λ j lo hi. elim (dec_lt j i') [ yes p ↦ skip j lo p | no p ↦ h.2 j (omega arith) hi ],
  )

  count-blocks :
      (n i : ℕ)
      → count_free in_use size n i 0 < n
      → (size ≤ i + count_free in_use size n i 0) ⊎ (in_use (i + count_free in_use size n i 0) ≢ 0)
  count-blocks n i short =
      let count = count_free in_use size n i 0 in
      let e : i + (count - 0) ≡ i + count = omega arith in
      rw e at ((count_free_lem n i 0).stop (omega arith))

  count-IsFreeRun :
      (n i : ℕ) → 0 < n → ltb (count_free in_use size n i 0) n ≡ false → IsFreeRun in_use size n i
  count-IsFreeRun n i pos full =
      let c = count_free_lem n i 0 in
      let e : count_free in_use size n i 0 ≡ n = ground (arith, c.most) in
      record {
        inside = omega (arith, c.inside (omega arith));
        free = λ k lo hi. c.free k lo (omega arith);
      }

  pub find_run-Answer :
      (n fuel i : ℕ)
      → 0 < n
      → size ≤ fuel + i
      → Answer in_use size n i (find_run in_use size n fuel i)
  unfolding find_run
  find_run-Answer n zero i pos enough = λ j lo run. omega (arith, run.inside)
  find_run-Answer n (suc fuel) i pos enough = elim (Bool-cases (ltb i size)) [
    | inr out ↦ rw out (λ j lo run. absurd (ground (arith, run.inside)))
    | inl lt ↦ elim (Bool-cases (in_use i == 0)) [
      | inr used ↦
          rw (lt, used)
            (Answer-later n i (i + 1) _ (omega arith)
              (λ j lo hi.
                not-IsFreeRun_of_block n j i (inr (ground arith)) (omega arith) (omega arith))
              (find_run-Answer n fuel (i + 1) pos (omega arith)))
      | inl z ↦
          let count = count_free in_use size n i 0 in
          elim (Bool-cases (ltb count n)) [
            | inl short ↦
                let lt' : count < n = ground arith in
                rw (lt, z, short)
                  (Answer-later n i (i + count + 1) _ (omega arith)
                    (λ j lo hi.
                      not-IsFreeRun_of_block n j (i + count) (count-blocks n i lt') (omega arith)
                        (omega arith))
                    (find_run-Answer n fuel (i + count + 1) pos (omega arith)))
            | inr full ↦
                rw (lt, z, full)
                  (omega arith, count-IsFreeRun n i pos full, λ j lo hi. absurd (omega arith))
          ]
    ]
  ]
