-- ===== src/Kernlib/Array/Laws.antt =====
-- An array as a list: the operations of kern/lib/array.c against their list counterparts.
use os.Base.{
  ℕ, zero, suc, ◌+◌, ◌-◌, ◌*◌, ◌%◌, ◌^◌, ◌≤◌, ◌<◌, ◌≡◌, refl, ◌⊎◌, inl, inr, List, [], ◌∷◌, ◌++◌,
  Option, length, get_elem?, ltb, ◌==◌, if◌then◌else◌, Bool-cases, Option-cases, update, ok, err,
  ◌∙◌, none, some, enomem, arith, lt→ltb, or_panic, set,
}
use mathlib.Core.Path.{ap₂}
use native.Mathlib.Nat.{zero-add}
use os.Kernlib.Slice.{
  slice, slice_shift, length-slice, get_elem?-slice, get_elem?-slice_out, set-slice, slice_snoc,
}
use os.Kernlib.Array.{
  Array, grow_max, copy, new_max, move_to, array_setsize, array_get, array_set, array_add,
  move_down, array_remove, contents,
}

-- n doubled `fuel` times, without wrap-around.
doubled : ℕ → ℕ → ℕ
doubled zero n = n
doubled (suc fuel) n = doubled fuel (n * 2)

doubled_mono : (fuel n m : ℕ) → n ≤ m → doubled fuel n ≤ doubled fuel m
unfolding doubled
doubled_mono zero n m le = le
doubled_mono (suc fuel) n m le = doubled_mono fuel (n * 2) (m * 2) (omega arith)

-- The growing loop ends by its test, at a size at most twice the number asked for.
grow_max_lem :
    (fuel num newmax : ℕ)
    → num ≤ 2 ^ 31
    → 0 < newmax
    → num ≤ doubled fuel newmax
    → (r : ℕ) × (grow_max (suc fuel) num newmax ≡ ok r) × (num ≤ r) × ((r ≡ newmax) ⊎ (r ≤ 2 * num))
unfolding grow_max doubled
grow_max_lem zero num newmax small pos enough = (newmax, ground arith, enough, inl refl)
grow_max_lem (suc fuel) num newmax small pos enough = elim (Bool-cases (ltb newmax num)) [
  | inr done ↦ (newmax, rw done, ground arith, inl refl)
  | inl more ↦
      let e : (if newmax == 0 then 4 else newmax * 2 % 2 ^ 32) ≡ newmax * 2 = ground arith in
      let (r, got, le, bound) = grow_max_lem fuel num (newmax * 2) small (omega arith) enough in
      let turn : grow_max (suc (suc fuel)) num newmax ≡ grow_max (suc fuel) num (newmax * 2) =
        rw (more, e) refl in
      (r, turn ∙ got, le, inr (ground (arith, bound)))
]

grow_max-zero : (fuel num : ℕ) → 0 < num → grow_max (suc fuel) num 0 ≡ grow_max fuel num 4
unfolding grow_max
grow_max-zero fuel num lt = rw (lt→ltb 0 num lt)

-- From the start of the loop, an empty array included.
grow_max_start :
    (num max : ℕ)
    → num ≤ 2 ^ 31
    → max < num
    → (r : ℕ) × (new_max num max ≡ ok r) × (num ≤ r) × (r ≤ 2 * num + 2)
unfolding new_max doubled
grow_max_start num zero small lt =
    let (r, got, le, bound) = grow_max_lem 32 num 4 small (omega arith) (omega arith) in
    (r, grow_max-zero 33 num lt ∙ got, le, omega (arith, bound))
grow_max_start num (suc max) small lt =
    let (r, got, le, bound) =
      grow_max_lem 33 num (suc max) small (omega arith)
        (omega (arith, doubled_mono 33 1 (suc max) (omega arith))) in
    (r, got, le, omega (arith, bound))

module _ {ℓ} {A : Type ℓ} where
  pub record IsArray (a : Array A) : Type 0 where
    pub bounded : a.num ≤ a.max
    pub small : a.max ≤ 2 ^ 31

  module _ (kmalloc : ℕ → Option (ℕ → A)) {a : Array A} (ia : IsArray a) where
    -- An array within its bounds and a size of num, less than 2^29 - 1. Either the block is too small
    -- for num, kmalloc fails for a block of newmax pointers of 4 bytes, where newmax is at least num
    -- and at most 2 * num + 2, and the result is ENOMEM; or the call succeeds: the array is within its
    -- bounds and has num elements, the old ones in place, and either the block holds num already and
    -- is kept, or it is too small and the new one has room for newmax as above.
    pub array_setsize-cases :
        (num : ℕ)
        → num < 2 ^ 29 - 1
        → ((array_setsize kmalloc a num ≡ err enomem)
            × (a.max < num)
            × ((newmax : ℕ) × (kmalloc (newmax * 4) ≡ none)
                × (num ≤ newmax)
                × (newmax ≤ 2 * num + 2)))
          ⊎ ((a' : Array A) × (array_setsize kmalloc a num ≡ ok a')
              × IsArray a'
              × (a'.num ≡ num)
              × ((k : ℕ) → k < a.num → a'.v k ≡ a.v k)
              × (((num ≤ a.max) × (a'.max ≡ a.max) × (a'.v ≡ a.v))
                  ⊎ ((a.max < num)
                      × ((block : ℕ → A) × (kmalloc (a'.max * 4) ≡ some block))
                      × (a'.max ≤ 2 * num + 2))))
    unfolding array_setsize move_to
    array_setsize-cases num lt = elim (Bool-cases (ltb a.max num)) [
      | inr room ↦ inr (
        record a { num = num },
        rw room,
        record { bounded = ground arith; small = ia.small },
        refl,
        λ k p. refl,
        inl (ground arith, refl, refl),
      )
      | inl more ↦
          let (newmax, sized, le, bound) = grow_max_start num a.max (omega arith) (ground arith) in
          let bytes : newmax * 4 % 2 ^ 32 ≡ newmax * 4 = omega arith in
          let short : a.max < num = ground arith in
          elim (Option-cases (kmalloc (newmax * 4))) [
            | inl failed ↦ inl (rw (more, sized, bytes, failed), short, (newmax, failed, le, bound))
            | inr (newptr, got) ↦ inr (
              record { v = copy newptr a.v a.num; num = num; max = newmax },
              rw (more, sized, bytes, got),
              record { bounded = le; small = omega arith },
              refl,
              λ k p. ground arith,
              inr (short, (newptr, got), bound),
            )
          ]
    ]

module _ {ℓ} {A : Type ℓ} where
  -- The list without its element at an index.
  pub erase_at : List A → ℕ → List A
  erase_at [] i = []
  erase_at (x ∷ xs) zero = xs
  erase_at (x ∷ xs) (suc i) = x ∷ erase_at xs i

  erase_at-slice :
      (n i from : ℕ) (v w : ℕ → A)
      → i < n
      → ((k : ℕ) → from ≤ k → k < from + i → w k ≡ v k)
      → ((k : ℕ) → from + i ≤ k → k + 1 < from + n → w k ≡ v (k + 1))
      → slice (n - 1) from w ≡ erase_at (slice n from v) i
  unfolding slice erase_at
  erase_at-slice zero i from v w lt low high = absurd (omega arith)
  erase_at-slice (suc n) zero from v w lt low high =
      let e : suc n - 1 ≡ n = omega arith in
      rw e (
        slice_shift n from (from + 1) w v (λ k p.
          let e' : from + k + 1 ≡ from + 1 + k = omega arith in
          rw (← e') (high (from + k) (omega arith) (omega arith))))
  erase_at-slice (suc zero) (suc i) from v w lt low high = absurd (omega arith)
  erase_at-slice (suc (suc n)) (suc i) from v w lt low high =
      let e : suc (suc n) - 1 ≡ suc (suc n - 1) = omega arith in
      rw e (
        ap₂ ◌∷◌ (low from (omega arith) (omega arith)) (
          erase_at-slice (suc n) i (from + 1) v w (omega arith)
            (λ k lo hi. low k (omega arith) (omega arith))
            (λ k lo hi. high k (omega arith) (omega arith))))

  -- An array within its bounds, array_remove at an index in use: the list loses the element at that
  -- index and the later ones move down.
  pub array_remove-erase_at :
      (a : Array A) (i : ℕ)
      → IsArray a
      → i < a.num
      → (a' : Array A) × (array_remove a i ≡ ok a')
        × IsArray a'
        × (contents a' ≡ erase_at (contents a) i)
  unfolding array_remove contents
  array_remove-erase_at a i ia lt = (
    record a { v = move_down a.v i (a.num - (i + 1)); num = a.num - 1 },
    ground (arith, ia.bounded),
    record { bounded = omega (arith, ia.bounded); small = ia.small },
    erase_at-slice a.num i 0 a.v (move_down a.v i (a.num - (i + 1))) lt (λ k lo hi. ground arith)
        (λ k lo hi. ground arith),
  )

  -- array_get at any index, and array_set at an index in use, read and write the list.
  pub array_get-set :
      (a : Array A)
      → ((i : ℕ) → array_get a i ≡ or_panic (get_elem? (contents a) i))
        × ((i : ℕ) (x : A)
            → i < a.num
            → (a' : Array A) × (array_set a i x ≡ ok a') × (contents a' ≡ set (contents a) i x))
  unfolding array_get array_set contents
  array_get-set a = (
    λ i. elim (Bool-cases (ltb i a.num)) [
      | inl lt ↦ rw (lt, get_elem?-slice a.num 0 a.v i (ground arith), zero-add i)
      | inr out ↦ rw (out, get_elem?-slice_out a.num 0 a.v i (ground arith))
    ],
    λ i x lt. (
      record a { v = update a.v i x },
      rw (lt→ltb i a.num lt),
      rw (set-slice a.num 0 a.v i x lt, zero-add i),
    ),
  )

  module _ (kmalloc : ℕ → Option (ℕ → A)) where
    -- array_add to an array within its bounds of fewer than 2^29 - 2 elements: either kmalloc failed
    -- and the result is ENOMEM, or the list has the value behind its old elements, at the index that
    -- is returned, and the array is within its bounds.
    pub array_add-append :
        (a : Array A) (x : A)
        → IsArray a
        → a.num + 1 < 2 ^ 29 - 1
        → (array_add kmalloc a x ≡ err enomem)
          ⊎ ((a' : Array A) × (array_add kmalloc a x ≡ ok (a', length (contents a)))
              × IsArray a'
              × (contents a' ≡ contents a ++ x ∷ []))
    unfolding array_add contents
    array_add-append a x ia lt =
        let e : (a.num + 1) % 2 ^ 32 ≡ a.num + 1 = omega arith in
        elim (array_setsize-cases kmalloc ia (a.num + 1) lt) [
          | inl (failed, _, _) ↦ inl (rw (e, failed))
          | inr (a', got, ia', n, same, _) ↦ inr (
            record a' { v = update a'.v a.num x },
            rw (e, got, length-slice a.num 0 a.v),
            record { bounded = ia'.bounded; small = ia'.small },
            rw n (
                slice_snoc a.num a.v (update a'.v a.num x) x (λ k p. ground (arith, same k p))
                  (ground arith)),
          )
        ]
