-- ===== src/Clib/Move/Laws.antt =====
-- memcpy and memmove of common/libc/string against a copy made at once.
use os.Base.{
  ◌+◌, inl, ◌⊎◌, ◌⊎◌, inr, inl, ℕ, ◌*◌, ◌/◌, ◌≤◌, ◌<◌, ◌≡◌, Bool, true, false, Bool-cases, ltb,
  ltb→lt, arith,
}
use os.Clib.Move.{Bytes, word_aligned, memcpy, memmove}
use os.Clib.Move.Loops.{
  copy_down_outside, copy_up_outside, Copies, copy_up_from_start, copy_down-Copies,
}

words_len : (dst src len : ℕ) → word_aligned dst src len ≡ true → 4 * (len / 4) ≡ len
unfolding word_aligned
words_len dst src len h = ground arith

one : (n : ℕ) → 1 * n ≡ n
one n = omega arith

ltb-false : (a b : ℕ) → ltb a b ≡ false → b ≤ a
ltb-false a b h = ground arith

module _ (access : ℕ → Bool) (open_to : (a : ℕ) → access a ≡ true) (dst src len : ℕ)
    (mem : Bytes) where
  pub memcpy-Copies :
      (dst ≤ src) ⊎ (src + len ≤ dst) → Copies len dst src mem (memcpy access dst src len mem)
  unfolding memcpy
  memcpy-Copies apart = elim (Bool-cases (word_aligned dst src len)) [
    | inl words ↦
        let n = words_len dst src len words in
        rw words (rw n at (copy_up_from_start access open_to 4 dst src (len / 4) mem (rw n apart)))
    | inr bytes ↦
        rw bytes (
          rw (one len) at
            (copy_up_from_start access open_to 1 dst src len mem (rw (one len) apart)))
  ]

  -- Where every access succeeds, memmove leaves memory as if all the bytes of the source were read
  -- before any is written, however source and destination overlap, by words and by bytes alike.
  pub memmove-Copies : Copies len dst src mem (memmove access dst src len mem)
  unfolding memmove
  memmove-Copies = elim (Bool-cases (ltb dst src)) [
    | inl below ↦ rw below (memcpy-Copies (inl (omega (arith, ltb→lt dst src below))))
    | inr above ↦ rw above (elim (Bool-cases (word_aligned dst src len)) [
      | inl words ↦ rw words (
          rw (words_len dst src len words) at (
            copy_down-Copies access open_to 4 dst src (len / 4) mem
              (omega (arith, ltb-false dst src above))))
      | inr bytes ↦ rw bytes (
          rw (one len) at
            (copy_down-Copies access open_to 1 dst src len mem (ltb-false dst src above)))
    ])
  ]

module _ (access : ℕ → Bool) (dst src len : ℕ) (mem : Bytes) where
  pub memcpy_outside :
      (x : ℕ) → (x < dst) ⊎ (dst + len ≤ x) → (memcpy access dst src len mem).0 x ≡ mem x
  unfolding memcpy
  memcpy_outside x out = elim (Bool-cases (word_aligned dst src len)) [
    | inl words ↦
        let n = words_len dst src len words in
        rw words (copy_up_outside access 4 dst src (len / 4) 0 mem x (omega arith))
    | inr bytes ↦ rw bytes (copy_up_outside access 1 dst src len 0 mem x (omega arith))
  ]

  pub memmove_outside :
      (x : ℕ) → (x < dst) ⊎ (dst + len ≤ x) → (memmove access dst src len mem).0 x ≡ mem x
  unfolding memmove
  memmove_outside x out = elim (Bool-cases (ltb dst src)) [
    | inl below ↦ rw below (memcpy_outside x out)
    | inr above ↦ rw above (elim (Bool-cases (word_aligned dst src len)) [
      | inl words ↦
          let n = words_len dst src len words in
          rw words (copy_down_outside access 4 dst src (len / 4) mem x (omega arith))
      | inr bytes ↦ rw bytes (copy_down_outside access 1 dst src len mem x (omega arith))
    ])
  ]
