-- ===== src/Clib/Text/Compare.antt =====
-- strcmp of common/libc/string.
use os.Base.{
  ==_iff, ==-false, lt→ltb, ℕ, zero, suc, ◌+◌, ◌≤◌, ◌<◌, ◌≡◌, ◌≢◌, refl, sym, ◌⊎◌, inl, inr, ok,
  dec_lt, ℕ_discrete, arith,
}
use mathlib.Core.Path.{subst, ◌∙◌}
use os.Clib.Move.{Bytes}
use os.Clib.Text.{IsString, strcmp_loop, strcmp}

module _ (mem : Bytes) (a b n m : ℕ) (first : IsString mem a n) (second : IsString mem b m) where
  -- The strings agree below `k`, where neither has ended before.
  abbrev pub AgreeBelow : ℕ → Type 0
  AgreeBelow k = (k ≤ n) × (k ≤ m) × ((i : ℕ) → i < k → mem (a + i) ≡ mem (b + i))

  -- The offset where the loop stops.
  abbrev Stop : ℕ → Type 0
  Stop k = AgreeBelow k × (((k ≡ n) × (k ≡ m)) ⊎ (mem (a + k) ≢ mem (b + k)))

  -- A byte that is no terminator stands before the end of the other string.
  inside : (i : ℕ) → i ≤ m → i < n → mem (a + i) ≡ mem (b + i) → i < m
  inside i lm more same = elim (dec_lt i m) [
    | yes lt ↦ lt
    | no last ↦
        let here : m ≡ i = omega arith in
        absurd (first.1 i more (same ∙ subst (λ (k : ℕ). mem (b + k) ≡ 0) here (second.0)))
  ]

  -- The first string has ended at `n`.
  ends : n ≤ m → AgreeBelow n → Stop n
  ends le agree = elim (dec_lt n m) [
    | yes lt ↦ (agree, inr (λ e. second.1 n lt (sym e ∙ first.0)))
    | no last ↦ (agree, inl (refl, omega arith))
  ]

  strcmp_loop_lem :
      (limit i : ℕ)
      → n < i + limit
      → AgreeBelow i
      → (k : ℕ) × (strcmp_loop mem a b limit i ≡ ok k) × Stop k
  unfolding strcmp_loop
  strcmp_loop_lem zero i lt (ln, lm, agree) = absurd (omega arith)
  strcmp_loop_lem (suc limit) i lt (ln, lm, agree) = elim (dec_lt i n) [
    | no last ↦
        let here : i ≡ n = omega arith in
        let stop = ends (omega arith) (omega arith, omega arith, λ j lt. agree j (omega arith)) in
        rw (here, first.0) (n, refl, stop)
    | yes more ↦
        rw (==-false (mem (a + i)) 0 (first.1 i more))
          (elim (ℕ_discrete (mem (a + i)) (mem (b + i))) [
            | no differ ↦
                rw (==-false (mem (a + i)) (mem (b + i)) differ)
                  (i, refl, ((ln, lm, agree), inr differ))
            | yes same ↦
                let lt' = inside i lm more same in
                rw ((==_iff (mem (a + i)) (mem (b + i))).1 same) (
                  strcmp_loop_lem limit (i + 1) (omega arith)
                    (omega arith, omega arith, λ j lt. one_more i agree same j lt))
          ])
  ]
    where
      one_more :
          (i : ℕ)
          → ((j : ℕ) → j < i → mem (a + j) ≡ mem (b + j))
          → mem (a + i) ≡ mem (b + i)
          → (j : ℕ) → j < i + 1
          → mem (a + j) ≡ mem (b + j)
      one_more i agree same j lt = ground (arith, agree j)

  -- strcmp of a string of n bytes and one of m bytes, with limits past the first one's terminator:
  -- there is an offset k in both up to which they agree, and strcmp returns 0 where the strings both
  -- end at k, and otherwise they differ at k and it returns 1 or -1 as the first string's byte at k is
  -- greater or smaller than the second's.
  pub strcmp-AgreeBelow :
      (limit : ℕ)
      → n < limit
      → (k : ℕ) × AgreeBelow k
        × (((strcmp mem limit a b ≡ ok 0) × (k ≡ n) × (k ≡ m))
            ⊎ ((strcmp mem limit a b ≡ ok 1) × (mem (b + k) < mem (a + k)))
            ⊎ ((strcmp mem limit a b ≡ ok 4294967295) × (mem (a + k) < mem (b + k))))
  unfolding strcmp
  strcmp-AgreeBelow limit lt =
      let (k, done, (agree, stop)) =
        strcmp_loop_lem limit 0 (omega arith)
          (omega arith, omega arith, λ i lt. absurd (omega arith)) in
      rw done (
        k,
        agree,
        elim stop [
          | inl (en, em) ↦
              let end_a : mem (a + k) ≡ 0 = subst (λ (x : ℕ). mem (a + x) ≡ 0) (sym en) (first.0) in
              let end_b : mem (b + k) ≡ 0 =
                subst (λ (x : ℕ). mem (b + x) ≡ 0) (sym em) (second.0) in
              rw (end_a, end_b) (inl (refl, en, em))
          | inr differ ↦ elim (dec_lt (mem (b + k)) (mem (a + k))) [
            | yes gt ↦ rw (lt→ltb (mem (b + k)) (mem (a + k)) gt) (inr (inl (refl, gt)))
            | no le ↦ inr (inr (ground arith, omega (arith, differ)))
          ]
        ],
      )
