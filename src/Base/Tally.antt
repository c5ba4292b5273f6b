-- ===== src/Base/Tally.antt =====
-- Sums of weights over the numbers below a bound, as counts of threads or of frames.
use Prim.Native.Nat.{ℕ, zero, suc, ◌+◌, ◌≤◌, ◌<◌}
use mathlib.Core.Path.{◌≡◌, refl}
use mathlib.Core.Logic.{◌≢◌}
use native.Mathlib.Omega.{arith}
use native.Mathlib.Decide.{dec_lt}
use os.Base.Arrays.{update}

module _ {ℓ} {A : Type ℓ} where
  -- How much the threads below `n` weigh together.
  unfoldable pub tally : (weight : A → ℕ) → ℕ → (ℕ → A) → ℕ
  tally weight zero pc = 0
  tally weight (suc n) pc = weight (pc n) + tally weight n pc

  tally-update_above :
      (weight : A → ℕ) (n : ℕ) (pc : ℕ → A) (i : ℕ) (p : A)
      → n ≤ i
      → tally weight n (update pc i p) ≡ tally weight n pc
  unfolding tally
  tally-update_above weight zero pc i p le = refl
  tally-update_above weight (suc n) pc i p le = ground (arith, tally-update_above weight n pc i p)

  -- One thread moves on.
  pub tally-update :
      (weight : A → ℕ) (n : ℕ) (pc : ℕ → A) (i : ℕ) (p : A)
      → i < n
      → tally weight n (update pc i p) + weight (pc i) ≡ tally weight n pc + weight p
  unfolding tally
  tally-update weight zero pc i p lt = absurd (omega arith)
  tally-update weight (suc n) pc i p lt = elim (dec_lt i n) [
    | yes q ↦ ground (arith, tally-update weight n pc i p q)
    | no q ↦ ground (arith, tally-update_above weight n pc i p)
  ]

  pub tally-const : (weight : A → ℕ) (n : ℕ) (p : A) → weight p ≡ 0 → tally weight n (λ _. p) ≡ 0
  unfolding tally
  tally-const weight zero p z = refl
  tally-const weight (suc n) p z = omega (arith, tally-const weight n p z)

  -- A thread's own weight is part of the sum.
  pub weight-le-tally :
      (weight : A → ℕ) (n : ℕ) (pc : ℕ → A) (i : ℕ) → i < n → weight (pc i) ≤ tally weight n pc
  unfolding tally
  weight-le-tally weight zero pc i lt = absurd (omega arith)
  weight-le-tally weight (suc n) pc i lt = elim (dec_lt i n) [
    | yes q ↦ omega (arith, weight-le-tally weight n pc i q)
    | no q ↦ let e : i ≡ n = omega arith in rw e (omega arith)
  ]

  -- Two different threads' weights are parts of the sum.
  pub two-le-tally :
      (weight : A → ℕ) (n : ℕ) (pc : ℕ → A) (i j : ℕ)
      → i < n
      → j < n
      → i ≢ j
      → weight (pc i) + weight (pc j) ≤ tally weight n pc
  unfolding tally
  two-le-tally weight zero pc i j hi hj ne = absurd (omega arith)
  two-le-tally weight (suc n) pc i j hi hj ne = elim (dec_lt i n) [
    | yes q ↦ elim (dec_lt j n) [
      | yes q' ↦ omega (arith, two-le-tally weight n pc i j q q' ne)
      | no q' ↦ let e : j ≡ n = omega arith in rw e (omega (arith, weight-le-tally weight n pc i q))
    ]
    | no q ↦
        let e : i ≡ n = omega arith in
        rw e (omega (arith, weight-le-tally weight n pc j (omega arith)))
  ]

  pub tally-le :
      (w w' : A → ℕ) → ((p : A) → w p ≤ w' p) → (n : ℕ) (pc : ℕ → A) → tally w n pc ≤ tally w' n pc
  unfolding tally
  tally-le w w' le zero pc = omega arith
  tally-le w w' le (suc n) pc = omega (arith, le (pc n), tally-le w w' le n pc)

  pub tally-add :
      (w w' : A → ℕ) (n : ℕ) (pc : ℕ → A)
      → tally (λ p. w p + w' p) n pc ≡ tally w n pc + tally w' n pc
  unfolding tally
  tally-add w w' zero pc = refl
  tally-add w w' (suc n) pc = omega (arith, tally-add w w' n pc)

  -- A sum that is not 0 has a part that is not 0.
  pub tally_some :
      (w : A → ℕ) (n : ℕ) (pc : ℕ → A) → 0 < tally w n pc → (i : ℕ) × (i < n) × (0 < w (pc i))
  unfolding tally
  tally_some w zero pc pos = absurd (omega arith)
  tally_some w (suc n) pc pos = elim (dec_lt 0 (w (pc n))) [
    | yes p ↦ (n, omega arith, p)
    | no p ↦ let (i, lt, q) = tally_some w n pc (omega arith) in (i, omega arith, q)
  ]

  pub tally-zero :
      (w : A → ℕ) (n : ℕ) (pc : ℕ → A) → ((i : ℕ) → i < n → w (pc i) ≡ 0) → tally w n pc ≡ 0
  unfolding tally
  tally-zero w zero pc z = refl
  tally-zero w (suc n) pc z =
      omega (arith, z n (omega arith), tally-zero w n pc (λ i lt. z i (omega arith)))

  pub tally_ext :
      (w : A → ℕ) (n : ℕ) (pc pc' : ℕ → A) → ((k : ℕ) → pc k ≡ pc' k) → tally w n pc ≡ tally w n pc'
  unfolding tally
  tally_ext w zero pc pc' h = refl
  tally_ext w (suc n) pc pc' h = rw (h n, tally_ext w n pc pc' h)
