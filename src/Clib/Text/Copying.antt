-- ===== src/Clib/Text/Copying.antt =====
-- strlen, strcpy and strcat of common/libc/string.
use os.Base.{
  ◌∙◌, ==-false, ℕ, zero, suc, ◌+◌, ◌-◌, ◌≤◌, ◌<◌, ◌≡◌, ◌≢◌, refl, sym, ◌⊎◌, inl, inr, ok, update,
  dec_lt, arith,
}
use mathlib.Core.Path.{subst}
use os.Clib.Move.{Bytes, store}
use os.Clib.Text.{IsString, strlen_loop, strlen, strcpy_loop, strcpy, strcat}

-- The string of length `n` at `src`, from byte `i` on.
abbrev pub Rest : ℕ → ℕ → ℕ → Bytes → Type 0
Rest src n i mem = (mem (src + n) ≡ 0) × ((k : ℕ) → i ≤ k → k < n → mem (src + k) ≢ 0)

module _ (dest src maxlen n : ℕ) (apart : (src + suc n ≤ dest) ⊎ (dest + maxlen ≤ src)) where
  pub Rest-store :
      (i : ℕ) (mem : Bytes)
      → i < maxlen
      → Rest src n i mem
      → Rest src n (i + 1) (store 1 (dest + i) (src + i) mem)
  unfolding store
  Rest-store i mem lt (end, inner) = (ground (arith, end), λ k le lt. ground (arith, inner k))

  -- The byte that was copied is no terminator.
  pub stays :
      (i : ℕ) (mem : Bytes)
      → Rest src n i mem
      → i < n
      → store 1 (dest + i) (src + i) mem (src + i) ≢ 0
  unfolding store
  stays i mem (end, inner) lt = ground (arith, inner i)

  pub store_next :
      (i : ℕ) (mem : Bytes) (x : ℕ)
      → i < n
      → n < maxlen
      → store
          (n + 1 - (i + 1))
          (dest + (i + 1))
          (src + (i + 1))
          (store 1 (dest + i) (src + i) mem)
          x
        ≡ store (n + 1 - i) (dest + i) (src + i) mem x
  unfolding store
  store_next i mem x more fits = elim apart [ inl below ↦ ground arith | inr above ↦ ground arith ]

module _ (mem : Bytes) (str n : ℕ) (whole : IsString mem str n) where
  strlen_loop_lem :
      (limit ret : ℕ) → ret ≤ n → n < ret + limit → strlen_loop mem str limit ret ≡ ok n
  unfolding strlen_loop
  strlen_loop_lem zero ret le lt = absurd (omega arith)
  strlen_loop_lem (suc limit) ret le lt = elim (dec_lt ret n) [
    | yes more ↦
        rw (==-false (mem (str + ret)) 0 (whole.1 ret more))
          (strlen_loop_lem limit (ret + 1) (omega arith) (omega arith))
    | no last ↦ let here : ret ≡ n = omega arith in rw (here, whole.0) refl
  ]

  pub strlen_lem : (limit : ℕ) → n < limit → strlen mem limit str ≡ ok n
  unfolding strlen
  strlen_lem limit lt = strlen_loop_lem limit 0 (omega arith) (omega arith)

module _ (dest src n : ℕ) (apart : (src + suc n ≤ dest) ⊎ (dest + suc n ≤ src)) where
  -- The terminator is written as if it were copied.
  update-store :
      (i : ℕ) (mem : Bytes) (x : ℕ)
      → ¬ (i < n)
      → i ≤ n
      → mem (src + i) ≡ 0
      → update mem (dest + i) 0 x ≡ store (n + 1 - i) (dest + i) (src + i) mem x
  unfolding store
  update-store i mem x last le end = ground arith

  strcpy_loop_lem :
      (limit i : ℕ) (mem : Bytes)
      → i ≤ n
      → n < i + limit
      → Rest src n i mem
      → (mem' : Bytes) × (strcpy_loop dest src limit i mem ≡ ok mem')
        × ((x : ℕ) → mem' x ≡ store (n + 1 - i) (dest + i) (src + i) mem x)
  unfolding strcpy_loop
  strcpy_loop_lem zero i mem le lt rest = absurd (omega arith)
  strcpy_loop_lem (suc limit) i mem le lt rest = elim (dec_lt i n) [
    | yes more ↦
        let rest' = Rest-store dest src (suc n) n apart i mem (omega arith) rest in
        let (mem', done, same) =
          strcpy_loop_lem limit (i + 1) (store 1 (dest + i) (src + i) mem) (omega arith)
            (omega arith) rest' in
        rw (==-false (mem (src + i)) 0 (rest.1 i (omega arith) more))
          (mem', done, λ x. same x ∙ store_next dest src (suc n) n apart i mem x more (omega arith))
    | no last ↦
        let here : i ≡ n = omega arith in
        let end : mem (src + i) ≡ 0 = subst (λ (k : ℕ). mem (src + k) ≡ 0) (sym here) (rest.0) in
        rw end (update mem (dest + i) 0, refl, λ x. update-store i mem x last le end)
  ]

  pub strcpy_lem :
      (limit : ℕ) (mem : Bytes)
      → n < limit
      → IsString mem src n
      → (mem' : Bytes) × (strcpy limit dest src mem ≡ ok mem')
        × ((x : ℕ) → mem' x ≡ store (n + 1) dest src mem x)
  unfolding strcpy
  strcpy_lem limit mem lt whole =
      let d : dest + 0 ≡ dest = omega arith in
      let s : src + 0 ≡ src = omega arith in
      let k : n + 1 - 0 ≡ n + 1 = omega arith in
      rw (d, s, k) at
        (strcpy_loop_lem limit 0 mem (omega arith) (omega arith) (whole.0, λ k _ lt. whole.1 k lt))

module _ (dest src n m : ℕ) (apart : (src + suc m ≤ dest) ⊎ (dest + n + suc m ≤ src)) (mem : Bytes)
    (first : IsString mem dest n) (second : IsString mem src m) where
  Joined :
      (mem' : Bytes)
      → ((x : ℕ) → mem' x ≡ store (m + 1) (dest + n) src mem x)
      → IsString mem' dest (n + m)
  unfolding store
  Joined mem' same = (
    ground (arith, same (dest + (n + m)), second.0),
    λ i lt. ground (arith, same (dest + i), first.1 i, second.1 (i - n)),
  )

  -- strcat of a string of m bytes to a string of n bytes, where the string with its terminator ends
  -- before the destination or starts at or behind the end of the result, and where no terminator
  -- stands beyond the limit, succeeds: it copies the m bytes and the terminator to the end of the
  -- first string and changes nothing else, and the result is a string of n + m bytes.
  pub strcat-IsString :
      (limit : ℕ)
      → n < limit
      → m < limit
      → (mem' : Bytes) × (strcat limit dest src mem ≡ ok mem')
        × ((x : ℕ) → mem' x ≡ store (m + 1) (dest + n) src mem x)
        × IsString mem' dest (n + m)
  unfolding strcat
  strcat-IsString limit ln lm =
      let (mem', done, same) = strcpy_lem (dest + n) src m (omega arith) limit mem lm second in
      rw (strlen_lem mem dest n first limit ln) (mem', done, same, Joined mem' same)
