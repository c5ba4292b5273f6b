-- ===== src/Clib/Text/Tokens.antt =====
-- strtok_r of common/libc/string.
use os.Base.{
  ==_iff, ==-false, ℕ, zero, suc, ◌+◌, ◌-◌, ◌%◌, ◌≤◌, ◌<◌, ◌≡◌, ◌≢◌, refl, sym, ◌∙◌, ◌⊎◌, inl, inr,
  true, Option, none, some, Result, ok, ◌==◌, update, dec_lt, ℕ_discrete, arith,
}
use mathlib.Core.Path.{subst}
use os.Clib.Move.{Bytes}
use os.Clib.Text.{
  IsString, Token, strchr, is_found, skip_separators, skip_word, cut_at, next_word, resume,
  strtok_r,
}
use os.Clib.Text.Search.{strchr-strrchr}

-- `c` stands in the string of `w` bytes at `q`.
abbrev pub IsSeparator : Bytes → ℕ → ℕ → ℕ → Type 0
IsSeparator mem q w c = (j : ℕ) × (j < w) × (mem (q + j) ≡ c)

module _ (mem : Bytes) (bytes : (x : ℕ) → mem x < 256) (limit q w : ℕ) (seps : IsString mem q w)
    (lw : w < limit) where
  -- What strchr says of a character that is no terminator.
  strchr_cases :
      (x : ℕ)
      → mem x ≢ 0
      → ((strchr mem limit q (mem x) ≡ ok none) × ¬ IsSeparator mem q w (mem x))
        ⊎ ((p : ℕ) × (strchr mem limit q (mem x) ≡ ok (some p)) × IsSeparator mem q w (mem x))
  strchr_cases x inner =
      let same : mem x % 256 ≡ mem x = omega (arith, bytes x) in
      elim (strchr-strrchr mem q w (mem x) seps limit lw) [
        | inl (e, _, lacks) ↦
            inl (e, λ (j, lt, hit). lacks j (omega arith) (omega arith) (hit ∙ sym same))
        | inr (j, k, e, _, le, lk, hit, _, _, _) ↦ elim (dec_lt j w) [
          | yes lt ↦ inr (q + j, e, (j, lt, hit ∙ same))
          | no last ↦
              let here : w ≡ j = omega arith in
              absurd (inner (sym (hit ∙ same) ∙ subst (λ (i : ℕ). mem (q + i) ≡ 0) here (seps.0)))
        ]
      ]

  module _ (start n : ℕ) (whole : IsString mem start n) where
    -- All of the bytes from offset `i` up to `k` are separators, and not the one at `k`.
    abbrev Gap : ℕ → ℕ → Type 0
    Gap i k =
        (i ≤ k)
        × (k ≤ n)
        × ((j : ℕ) → i ≤ j → j < k → IsSeparator mem q w (mem (start + j)))
        × (k < n → ¬ IsSeparator mem q w (mem (start + k)))

    -- None of them is, and the one at `k` is.
    abbrev Word : ℕ → ℕ → Type 0
    Word i k =
        (i ≤ k)
        × (k ≤ n)
        × ((j : ℕ) → i ≤ j → j < k → ¬ IsSeparator mem q w (mem (start + j)))
        × (k < n → IsSeparator mem q w (mem (start + k)))

    one_more :
        (P : ℕ → Type 0) (i k : ℕ)
        → P (mem (start + i))
        → ((j : ℕ) → i + 1 ≤ j → j < k → P (mem (start + j)))
        → (j : ℕ) → i ≤ j
        → j < k
        → P (mem (start + j))
    one_more P i k here above j ge lt = elim (ℕ_discrete i j) [
      | yes e ↦ subst (λ (x : ℕ). P (mem (start + x))) e here
      | no ne ↦ above j (omega (arith, ne)) lt
    ]

    at_end : (i : ℕ) → ¬ (i < n) → i ≤ n → (mem (start + i) == 0) ≡ true
    at_end i last le =
        let here : n ≡ i = omega arith in
        (==_iff (mem (start + i)) 0).1 (subst (λ (k : ℕ). mem (start + k) ≡ 0) here (whole.0))

    skip_separators_lem :
        (fuel i : ℕ)
        → i ≤ n
        → n < i + fuel
        → (k : ℕ) × (skip_separators mem limit q fuel (start + i) ≡ ok (start + k)) × Gap i k
    unfolding skip_separators is_found
    skip_separators_lem zero i le lt = absurd (omega arith)
    skip_separators_lem (suc fuel) i le lt = elim (dec_lt i n) [
      | no last ↦
          rw (at_end i last le) (
            i,
            refl,
            (omega arith, le, λ j ge lt. absurd (omega arith), λ lt. absurd (omega arith)),
          )
      | yes more ↦
          rw (==-false (mem (start + i)) 0 (whole.1 i more))
            (elim (strchr_cases (start + i) (whole.1 i more)) [
              | inl (e, miss) ↦
                  rw e (i, refl, (omega arith, le, λ j ge lt. absurd (omega arith), λ lt. miss))
              | inr (p, e, hit) ↦
                  let next : start + (i + 1) ≡ start + i + 1 = omega arith in
                  let (k, done, (ge, lk, all, stop)) =
                    skip_separators_lem fuel (i + 1) (omega arith) (omega arith) in
                  rw (e, sym next)
                    (k, done, (omega arith, lk, one_more (IsSeparator mem q w) i k hit all, stop))
            ])
    ]

    skip_word_lem :
        (fuel i : ℕ)
        → i ≤ n
        → n < i + fuel
        → (k : ℕ) × (skip_word mem limit q fuel (start + i) ≡ ok (start + k)) × Word i k
    unfolding skip_word is_found
    skip_word_lem zero i le lt = absurd (omega arith)
    skip_word_lem (suc fuel) i le lt = elim (dec_lt i n) [
      | no last ↦
          rw (at_end i last le) (
            i,
            refl,
            (omega arith, le, λ j ge lt. absurd (omega arith), λ lt. absurd (omega arith)),
          )
      | yes more ↦
          rw (==-false (mem (start + i)) 0 (whole.1 i more))
            (elim (strchr_cases (start + i) (whole.1 i more)) [
              | inr (p, e, hit) ↦
                  rw e (i, refl, (omega arith, le, λ j ge lt. absurd (omega arith), λ lt. hit))
              | inl (e, miss) ↦
                  let next : start + (i + 1) ≡ start + i + 1 = omega arith in
                  let (k, done, (ge, lk, all, stop)) =
                    skip_word_lem fuel (i + 1) (omega arith) (omega arith) in
                  rw (e, sym next)
                    (
                      k,
                      done,
                      (omega arith, lk, one_more (λ c. ¬ IsSeparator mem q w c) i k miss all, stop),
                    )
            ])
    ]

    -- What a call leaves where no word is left, and where the next word is from `h` up to `t`.
    abbrev pub NoWord : Result Token → Type 0
    NoWord r =
        (r ≡ ok (record { mem = mem; context = none; word = none }))
        × ((j : ℕ) → j < n → IsSeparator mem q w (mem (start + j)))

    abbrev Last : ℕ → ℕ → Result Token → Type 0
    Last h t r =
        (t ≡ n)
        × (r ≡ ok (record { mem = mem; context = none; word = some (start + h) }))
        × IsString mem (start + h) (t - h)

    abbrev Cut : ℕ → ℕ → Result Token → Type 0
    Cut h t r =
        let mem' = update mem (start + t) 0 in
        (t < n)
        × (r ≡ ok (record { mem = mem'; context = some (start + t + 1); word = some (start + h) }))
        × IsString mem' (start + h) (t - h)
        × IsString mem' (start + t + 1) (n - t - 1)

    abbrev pub OneWord : Result Token → Type 0
    OneWord r = (h : ℕ) × (t : ℕ) × Gap 0 h × (h < t) × Word h t × (Last h t r ⊎ Cut h t r)

    cut_at_lem :
        (h t : ℕ)
        → h < t
        → t ≤ n
        → Last h t (ok (cut_at mem limit q (start + h) (start + t)))
          ⊎ Cut h t (ok (cut_at mem limit q (start + h) (start + t)))
    unfolding cut_at
    cut_at_lem h t lt le = elim (dec_lt t n) [
      | no last ↦
          let here : h + (t - h) ≡ n = omega arith in
          let e : start + h + (t - h) ≡ start + n = omega arith in
          rw (at_end t last le)
            (inl (omega arith, refl, (rw e (whole.0), λ i below. ground (arith, whole.1 (h + i)))))
      | yes more ↦ rw (==-false (mem (start + t)) 0 (whole.1 t more)) (
          inr (
            more,
            refl,
            (ground arith, λ i below. ground (arith, whole.1 (h + i))),
            (ground (arith, whole.0), λ i below. ground (arith, whole.1 (t + 1 + i))),
          ))
    ]

    next_word_lem :
        (h : ℕ)
        → n < limit
        → Gap 0 h
        → NoWord (next_word mem limit q (start + h)) ⊎ OneWord (next_word mem limit q (start + h))
    unfolding next_word
    next_word_lem h ln (ge, le, all, stop) = elim (dec_lt h n) [
      | no last ↦ rw (at_end h last le) (inl (refl, λ j lt. all j (omega arith) (omega arith)))
      | yes more ↦ rw (==-false (mem (start + h)) 0 (whole.1 h more)) (
          let (t, done, (gt, lt, none_of, sep)) = skip_word_lem limit h le (omega arith) in
          let some_byte = longer h t more gt (stop more) sep in
          rw done (
            inr (
              h,
              t,
              (ge, le, all, stop),
              some_byte,
              (gt, lt, none_of, sep),
              cut_at_lem h t some_byte lt,
            )))
    ]
      where
        longer :
            (h t : ℕ)
            → h < n
            → h ≤ t
            → ¬ IsSeparator mem q w (mem (start + h))
            → (t < n → IsSeparator mem q w (mem (start + t)))
            → h < t
        longer h t more gt miss sep = elim (dec_lt h t) [
          | yes lt ↦ lt
          | no same ↦
              let here : t ≡ h = omega arith in
              absurd (
                miss (
                  subst (λ (x : ℕ). IsSeparator mem q w (mem (start + x))) here
                    (sep (omega arith))))
        ]

    resume_lem :
        n < limit
        → NoWord (resume mem limit q (some start)) ⊎ OneWord (resume mem limit q (some start))
    unfolding resume
    resume_lem ln =
        let z : start + 0 ≡ start = omega arith in
        let (h, done, gap) = skip_separators_lem limit 0 (omega arith) (omega arith) in
        rw (rw z at done) (next_word_lem h ln gap)

    -- A call of strtok_r on a string of n bytes at `start`, given as `string` or, where that is NULL,
    -- as the context, with separators in a string of w bytes, both terminators within the limit:
    -- either all bytes are separators, and it returns NULL and leaves NULL in the context, or it
    -- returns the first longest word of bytes that are no separators. If the word ends with the
    -- string, memory is unchanged and the context is NULL; otherwise the separator behind the word is
    -- overwritten by a terminator, and the context is the rest of the string.
    pub strtok_r_lem :
        (string context : Option ℕ)
        → n < limit
        → (string ≡ some start) ⊎ ((string ≡ none) × (context ≡ some start))
        → NoWord (strtok_r mem limit q string context)
          ⊎ OneWord (strtok_r mem limit q string context)
    unfolding strtok_r
    strtok_r_lem string context ln (inl e) = rw e (resume_lem ln)
    strtok_r_lem string context ln (inr (e, e')) = rw (e, e') (resume_lem ln)
