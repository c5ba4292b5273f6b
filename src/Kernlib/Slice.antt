-- ===== src/Kernlib/Slice.antt =====
-- The elements of a C array, from an index on, as a list.
use os.Base.{
  ◌∙◌, update, set, none, ℕ, zero, suc, ◌+◌, ◌≤◌, ◌<◌, ◌≡◌, refl, ap, List, [], ◌∷◌, ◌++◌, some,
  length, get_elem?, arith,
}
use mathlib.Core.Path.{ap₂}

module _ {ℓ} {A : Type ℓ} where
  -- v[from], ..., v[from + n - 1]
  unfoldable pub slice : (n from : ℕ) → (ℕ → A) → List A
  slice zero from v = []
  slice (suc n) from v = v from ∷ slice n (from + 1) v

  pub slice_ext :
      (n from : ℕ) (v w : ℕ → A)
      → ((k : ℕ) → from ≤ k → k < from + n → v k ≡ w k)
      → slice n from v ≡ slice n from w
  unfolding slice
  slice_ext zero from v w h = refl
  slice_ext (suc n) from v w h =
      ap₂ ◌∷◌ (h from (omega arith) (omega arith))
        (slice_ext n (from + 1) v w (λ k lo hi. h k (omega arith) (omega arith)))

  -- An array read at a shifted index.
  pub slice_shift :
      (n from from' : ℕ) (v w : ℕ → A)
      → ((k : ℕ) → k < n → v (from + k) ≡ w (from' + k))
      → slice n from v ≡ slice n from' w
  unfolding slice
  slice_shift zero from from' v w h = refl
  slice_shift (suc n) from from' v w h =
      ap₂ ◌∷◌
        (let e : from + 0 ≡ from = omega arith in
          let e' : from' + 0 ≡ from' = omega arith in rw (e, e') at (h 0 (omega arith)))
        (slice_shift n (from + 1) (from' + 1) v w (λ k lt.
          let e : from + (k + 1) ≡ from + 1 + k = omega arith in
          let e' : from' + (k + 1) ≡ from' + 1 + k = omega arith in
          rw (e, e') at (h (k + 1) (omega arith))))

  pub slice-append :
      (n m from : ℕ) (v : ℕ → A) → slice (n + m) from v ≡ slice n from v ++ slice m (from + n) v
  unfolding slice
  slice-append zero m from v =
      let e : 0 + m ≡ m = omega arith in let e' : from + 0 ≡ from = omega arith in rw (e, e')
  slice-append (suc n) m from v =
      let e : suc n + m ≡ suc (n + m) = omega arith in
      let e' : from + suc n ≡ from + 1 + n = omega arith in
      rw (e, e') (ap (λ l. v from ∷ l) (slice-append n m (from + 1) v))

  pub length-slice : (n from : ℕ) (v : ℕ → A) → length (slice n from v) ≡ n
  unfolding slice
  length-slice zero from v = refl
  length-slice (suc n) from v = ap suc (length-slice n (from + 1) v)

  pub get_elem?-slice :
      (n from : ℕ) (v : ℕ → A) (i : ℕ) → i < n → get_elem? (slice n from v) i ≡ some (v (from + i))
  unfolding slice
  get_elem?-slice zero from v i lt = absurd (omega arith)
  get_elem?-slice (suc n) from v zero lt = let e : from + 0 ≡ from = omega arith in rw e
  get_elem?-slice (suc n) from v (suc i) lt =
      let e : from + suc i ≡ from + 1 + i = omega arith in
      rw e (get_elem?-slice n (from + 1) v i (omega arith))

  pub get_elem?-slice_out :
      (n from : ℕ) (v : ℕ → A) (i : ℕ) → n ≤ i → get_elem? (slice n from v) i ≡ none
  unfolding slice
  get_elem?-slice_out zero from v i le = refl
  get_elem?-slice_out (suc n) from v zero le = absurd (omega arith)
  get_elem?-slice_out (suc n) from v (suc i) le = get_elem?-slice_out n (from + 1) v i (omega arith)

  pub set-slice :
      (n from : ℕ) (v : ℕ → A) (i : ℕ) (x : A)
      → i < n
      → set (slice n from v) i x ≡ slice n from (update v (from + i) x)
  unfolding slice
  set-slice zero from v i x lt = absurd (omega arith)
  set-slice (suc n) from v zero x lt =
      let e : from + 0 ≡ from = omega arith in
      rw e (
        ap₂ ◌∷◌ (ground arith)
          (slice_ext n (from + 1) v (update v from x) (λ k lo hi. ground arith)))
  set-slice (suc n) from v (suc i) x lt =
      let e : from + suc i ≡ from + 1 + i = omega arith in
      rw e (ap₂ ◌∷◌ (ground arith) (set-slice n (from + 1) v i x (omega arith)))

  -- One more element behind those of another array.
  pub slice_snoc :
      (n : ℕ) (v w : ℕ → A) (x : A)
      → ((k : ℕ) → k < n → w k ≡ v k)
      → w n ≡ x
      → slice (n + 1) 0 w ≡ slice n 0 v ++ x ∷ []
  unfolding slice
  slice_snoc n v w x same e =
      let e' : 0 + n ≡ n = omega arith in
      slice-append n 1 0 w
      ∙ ap₂ ◌++◌ (slice_ext n 0 w v (λ k lo hi. same k (omega arith))) (ap (λ y. y ∷ []) (rw e' e))
