-- ===== src/Usermem/Copyinout/Strings.antt =====
-- The string copies of kern/vm/copyinout.c.
use mathlib.Core.Path.{subst}
use os.Usermem.Copyinout.Laws.{copycheck_cases}
use os.Base.{
  sym, ==_iff, ◌∙◌, lt→ltb, ltb→lt, ==-false, if◌then◌else◌, ℕ, zero, suc, ◌+◌, ◌-◌, ◌≤◌, ◌<◌, ◌≡◌,
  refl, ◌⊎◌, inl, inr, Bool, true, false, none, some, Bool-cases, ltb, efault, enametoolong, dec_lt,
  arith,
}
use os.Clib.Move.{Bytes, store}
use os.Clib.Text.{IsString}
use os.Clib.Text.Copying.{Rest, Rest-store, stays, store_next}
use os.Usermem.Copyinout.{
  userspacetop, copycheck, too_long, copystr_loop, copystr, checked_string, copyinstr,
}

module _ (access : ℕ → Bool) (dest src maxlen stoplen : ℕ) where
  -- Trap or not, the loop writes only in its destination.
  pub copystr_loop_outside :
      (left i : ℕ) (mem : Bytes) (x : ℕ)
      → i + left ≡ maxlen
      → (x < dest) ⊎ (dest + stoplen ≤ x) ⊎ (dest + maxlen ≤ x)
      → (copystr_loop access dest src maxlen stoplen left i mem).mem x ≡ mem x
  unfolding copystr_loop too_long store
  copystr_loop_outside zero i mem x e out = refl
  copystr_loop_outside (suc left) i mem x e out =
      let rest =
        copystr_loop_outside left (i + 1) (store 1 (dest + i) (src + i) mem) x (omega arith) out in
      ground (arith, rest)

module _ (access : ℕ → Bool) (open_to : (a : ℕ) → access a ≡ true) (dest src maxlen stoplen n : ℕ)
    (apart : (src + suc n ≤ dest) ⊎ (dest + maxlen ≤ src)) where
  store_last :
      (i : ℕ) (mem : Bytes) (x : ℕ)
      → ¬ (i < n)
      → i ≤ n
      → store 1 (dest + i) (src + i) mem x ≡ store (n + 1 - i) (dest + i) (src + i) mem x
  store_last i mem x last le = let one : n + 1 - i ≡ 1 = omega arith in rw one

  copystr_loop_fits :
      (left i : ℕ) (mem : Bytes)
      → i + left ≡ maxlen
      → i ≤ n
      → n < maxlen
      → n < stoplen
      → Rest src n i mem
      → let r = copystr_loop access dest src maxlen stoplen left i mem in
        (r.result ≡ 0)
        × (r.gotlen ≡ some (n + 1))
        × ((x : ℕ) → r.mem x ≡ store (n + 1 - i) (dest + i) (src + i) mem x)
  unfolding copystr_loop
  copystr_loop_fits zero i mem e le fits below rest = absurd (omega arith)
  copystr_loop_fits (suc left) i mem e le fits below rest =
      let mem' = store 1 (dest + i) (src + i) mem in
      let rest' = Rest-store dest src maxlen n apart i mem (omega arith) rest in
      rw (lt→ltb i stoplen (omega arith), open_to (dest + i), open_to (src + i))
        (elim (dec_lt i n) [
          | yes more ↦
              let ne = stays dest src maxlen n apart i mem rest more in
              let (done, got, same) =
                copystr_loop_fits left (i + 1) mem' (omega arith) (omega arith) fits below rest' in
              rw (==-false (mem' (src + i)) 0 ne)
                (done, got, λ x. same x ∙ store_next dest src maxlen n apart i mem x more fits)
          | no last ↦
              let here : i ≡ n = omega arith in
              let end =
                (==_iff (mem' (src + i)) 0).1
                  (subst (λ (k : ℕ). mem' (src + k) ≡ 0) (sym here) (rest'.0)) in
              rw end (refl, ground arith, λ x. store_last i mem x last le)
        ])

  copystr_loop_long :
      (left i : ℕ) (mem : Bytes)
      → i + left ≡ maxlen
      → i ≤ n
      → (maxlen ≤ n) ⊎ (stoplen ≤ n)
      → Rest src n i mem
      → let r = copystr_loop access dest src maxlen stoplen left i mem in
        (r.gotlen ≡ none) × (r.result ≡ (if ltb stoplen maxlen then efault else enametoolong))
  unfolding copystr_loop too_long
  copystr_loop_long zero i mem e le long rest = (refl, refl)
  copystr_loop_long (suc left) i mem e le long rest = elim (Bool-cases (ltb i stoplen)) [
    | inr over ↦ rw over (refl, refl)
    | inl under ↦
        let mem' = store 1 (dest + i) (src + i) mem in
        let more : i < n = omega (arith, ltb→lt i stoplen under) in
        rw
          (
            under,
            open_to (dest + i),
            open_to (src + i),
            ==-false (mem' (src + i)) 0 (stays dest src maxlen n apart i mem rest more),
          )
          (copystr_loop_long left (i + 1) mem' (omega arith) (omega arith) long
            (Rest-store dest src maxlen n apart i mem (omega arith) rest))
  ]

module _ (access : ℕ → Bool) (open_to : (a : ℕ) → access a ≡ true) (n usersrc dest len : ℕ)
    (mem : Bytes) (kernel : userspacetop ≤ dest) (str : IsString mem usersrc n)
    (within : usersrc + n < userspacetop) where
  abbrev Whole : Type 0
  Whole =
      ((copyinstr access usersrc dest len mem).result ≡ 0)
      × ((copyinstr access usersrc dest len mem).gotlen ≡ some (n + 1))
      × ((x : ℕ) → (copyinstr access usersrc dest len mem).mem x ≡ store (n + 1) dest usersrc mem x)

  copyinstr_short :
      (stoplen : ℕ) → copycheck usersrc len ≡ (0, stoplen) → n < len → n < stoplen → Whole
  unfolding copyinstr copystr checked_string
  copyinstr_short stoplen e short below =
      let d : dest + 0 ≡ dest = omega arith in
      let s : usersrc + 0 ≡ usersrc = omega arith in
      let k : n + 1 - 0 ≡ n + 1 = omega arith in
      let (done, got, same) =
        rw (d, s) at
          (copystr_loop_fits access open_to dest usersrc len stoplen n (inl (omega arith)) len 0 mem
            (omega arith) (omega arith) short below (str.0, λ k _ lt. str.1 k lt)) in
      rw e (done, got, λ x. same x ∙ (λ i. store (k i) dest usersrc mem x))

  copyinstr_long :
      copycheck usersrc len ≡ (0, len)
      → len ≤ n
      → ((copyinstr access usersrc dest len mem).result ≡ enametoolong)
        × ((copyinstr access usersrc dest len mem).gotlen ≡ none)
  unfolding copyinstr copystr checked_string
  copyinstr_long e long =
      let (got, code) =
        copystr_loop_long access open_to dest usersrc len len n (inl (omega arith)) len 0 mem
          (omega arith) (omega arith) (inl long) (str.0, λ k _ lt. str.1 k lt) in
      let same : ltb len len ≡ false = ground arith in rw e (rw same at code, got)

  -- Where no access traps, copyinstr of a string of n bytes that ends below USERSPACETOP, into a
  -- kernel buffer of len bytes, len > 0, with the buffer's length not past 2^32 from the string's start,
  -- returns 0 with n + 1 as the length and the string with its terminator copied and nothing else
  -- changed if n < len, and otherwise ENAMETOOLONG with no length.
  pub copyinstr_lem :
      len < 4294967296
      → usersrc + len ≤ 4294967296
      → 0 < len
      → ((n < len) × Whole)
        ⊎ ((len ≤ n)
            × ((copyinstr access usersrc dest len mem).result ≡ enametoolong)
            × ((copyinstr access usersrc dest len mem).gotlen ≡ none))
  copyinstr_lem word fits pos = elim (copycheck_cases usersrc len (omega arith) word) [
    | inl (_, below, e) ↦ elim (dec_lt n len) [
      | yes short ↦ inl (short, copyinstr_short len e short short)
      | no long ↦ let (code, got) = copyinstr_long e (omega arith) in inr (omega arith, code, got)
    ]
    | inr (inl (_, _, over, e)) ↦
        inl (omega arith, copyinstr_short (userspacetop - usersrc) e (omega arith) (omega arith))
    | inr (inr (bad, e)) ↦ absurd (omega arith)
  ]
