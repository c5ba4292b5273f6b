-- ===== src/Clib/Text/Search.antt =====
-- strchr and strrchr of common/libc/string.
use os.Base.{
  ==_iff, ==-false, ℕ, zero, suc, ◌+◌, ◌%◌, ◌≤◌, ◌<◌, ◌≡◌, ◌≢◌, refl, ◌⊎◌, inl, inr, Option, none,
  some, Result, ok, dec_lt, ℕ_discrete, arith,
}
use mathlib.Core.Path.{subst, ap}
use os.Clib.Move.{Bytes}
use os.Clib.Text.{IsString, strchr_loop, strchr, strrchr_loop, strrchr}
use os.Clib.Text.Copying.{strlen_lem}

-- `ch` does not stand in the bytes of `s` from offset `i` up to `k`.
abbrev pub Lacks : Bytes → ℕ → ℕ → ℕ → ℕ → Type 0
Lacks mem s ch i k = (j : ℕ) → i ≤ j → j < k → mem (s + j) ≢ ch

module _ (mem : Bytes) (s n ch : ℕ) (whole : IsString mem s n) where
  -- The leftmost place of `ch` from offset `i` on, the terminator counted.
  abbrev Leftmost : ℕ → Result (Option ℕ) → Type 0
  Leftmost i r =
      ((r ≡ ok none) × Lacks mem s ch i (n + 1))
      ⊎ ((k : ℕ) × (r ≡ ok (some (s + k)))
          × (i ≤ k)
          × (k ≤ n)
          × (mem (s + k) ≡ ch)
          × Lacks mem s ch i k)

  one_more : (i k : ℕ) → mem (s + i) ≢ ch → Lacks mem s ch (i + 1) k → Lacks mem s ch i k
  one_more i k miss lacks j ge lt = elim (ℕ_discrete i j) [
    | yes here ↦ subst (λ (x : ℕ). mem (s + x) ≢ ch) here miss
    | no there ↦ lacks j (omega (arith, there)) lt
  ]

  Leftmost-suc :
      (i : ℕ) (r : Result (Option ℕ)) → mem (s + i) ≢ ch → Leftmost (i + 1) r → Leftmost i r
  Leftmost-suc i r miss (inl (e, lacks)) = inl (e, one_more i (n + 1) miss lacks)
  Leftmost-suc i r miss (inr (k, e, ge, le, hit, lacks)) =
      inr (k, e, omega arith, le, hit, one_more i k miss lacks)

  strchr_loop_lem :
      (limit i : ℕ) → i ≤ n → n < i + limit → Leftmost i (strchr_loop mem ch limit (s + i))
  unfolding strchr_loop
  strchr_loop_lem zero i le lt = absurd (omega arith)
  strchr_loop_lem (suc limit) i le lt = elim (ℕ_discrete (mem (s + i)) ch) [
    | yes hit ↦
        rw ((==_iff (mem (s + i)) ch).1 hit)
          (inr (i, ground arith, omega arith, le, hit, λ j ge lt. absurd (omega arith)))
    | no miss ↦ rw (==-false (mem (s + i)) ch miss) (elim (dec_lt i n) [
      | yes more ↦
          let next : s + (i + 1) ≡ s + i + 1 = omega arith in
          let rest = strchr_loop_lem limit (i + 1) (omega arith) (omega arith) in
          rw (==-false (mem (s + i)) 0 (whole.1 i more))
            (Leftmost-suc i (strchr_loop mem ch limit (s + i + 1)) miss (rw next at rest))
      | no last ↦
          let here : n ≡ i = omega arith in
          let end =
            (==_iff (mem (s + i)) 0).1 (subst (λ (k : ℕ). mem (s + k) ≡ 0) here (whole.0)) in
          rw end (inl (refl, one_more i (n + 1) miss (λ j ge lt. absurd (omega arith))))
    ])
  ]

  -- The rightmost place of `ch` below offset `i`.
  abbrev Rightmost : ℕ → Option ℕ → Type 0
  Rightmost i r =
      ((r ≡ none) × Lacks mem s ch 0 i)
      ⊎ ((k : ℕ) × (r ≡ some (s + k)) × (k < i) × (mem (s + k) ≡ ch) × Lacks mem s ch (k + 1) i)

  strrchr_loop_lem : (i : ℕ) → Rightmost i (strrchr_loop mem s ch i)
  unfolding strrchr_loop
  strrchr_loop_lem zero = inl (refl, λ j ge lt. absurd (omega arith))
  strrchr_loop_lem (suc i) = elim (ℕ_discrete (mem (s + i)) ch) [
    | yes hit ↦
        rw ((==_iff (mem (s + i)) ch).1 hit)
          (inr (i, refl, omega arith, hit, λ j ge lt. absurd (omega arith)))
    | no miss ↦
        rw (==-false (mem (s + i)) ch miss)
          (Rightmost-suc i (strrchr_loop mem s ch i) miss (strrchr_loop_lem i))
  ]
    where
      longer : (i k : ℕ) → mem (s + i) ≢ ch → Lacks mem s ch k i → Lacks mem s ch k (suc i)
      longer i k miss lacks j ge lt = elim (ℕ_discrete i j) [
        | yes here ↦ subst (λ (x : ℕ). mem (s + x) ≢ ch) here miss
        | no there ↦ lacks j ge (omega (arith, there))
      ]

      Rightmost-suc :
          (i : ℕ) (r : Option ℕ) → mem (s + i) ≢ ch → Rightmost i r → Rightmost (suc i) r
      Rightmost-suc i r miss (inl (e, lacks)) = inl (e, longer i 0 miss lacks)
      Rightmost-suc i r miss (inr (k, e, lt, hit, lacks)) =
          inr (k, e, omega arith, hit, longer i (k + 1) miss lacks)

module _ (mem : Bytes) (s n ch : ℕ) (whole : IsString mem s n) (limit : ℕ) (lt : n < limit) where
  strchr_lem : Leftmost mem s n (ch % 256) whole 0 (strchr mem limit s ch)
  unfolding strchr
  strchr_lem =
      let z : s + 0 ≡ s = omega arith in
      rw z at (strchr_loop_lem mem s n (ch % 256) whole limit 0 (omega arith) (omega arith))

  -- In a string of n bytes whose terminator is within the limit, strchr and strrchr both return NULL,
  -- and no byte of the string, the terminator included, is the character modulo 256; or they return
  -- the places of two such bytes j and k with j at or before k, none before j and none behind k.
  pub strchr-strrchr :
      ((strchr mem limit s ch ≡ ok none)
        × (strrchr mem limit s ch ≡ ok none)
        × Lacks mem s (ch % 256) 0 (n + 1))
      ⊎ ((j : ℕ) × (k : ℕ) × (strchr mem limit s ch ≡ ok (some (s + j)))
          × (strrchr mem limit s ch ≡ ok (some (s + k)))
          × (j ≤ k)
          × (k ≤ n)
          × (mem (s + j) ≡ ch % 256)
          × (mem (s + k) ≡ ch % 256)
          × Lacks mem s (ch % 256) 0 j
          × Lacks mem s (ch % 256) (k + 1) (n + 1))
  unfolding strrchr
  strchr-strrchr = rw (strlen_lem mem s n whole limit lt) (elim strchr_lem [
    | inl (e, lacks) ↦ elim (strrchr_loop_lem mem s n (ch % 256) whole (n + 1)) [
      | inl (e', _) ↦ inl (e, ap ok e', lacks)
      | inr (k, _, le, hit, _) ↦ absurd (lacks k (omega arith) le hit)
    ]
    | inr (j, e, ge, le, hit, before) ↦ elim (strrchr_loop_lem mem s n (ch % 256) whole (n + 1)) [
      | inl (_, lacks) ↦ absurd (lacks j (omega arith) (omega arith) hit)
      | inr (k, e', lt', hit', behind) ↦ elim (dec_lt k j) [
        | yes swapped ↦ absurd (before k (omega arith) swapped hit')
        | no ordered ↦ inr (j, k, e, ap ok e', omega arith, omega arith, hit, hit', before, behind)
      ]
    ]
  ])
