-- ===== src/Kernlib/Bitmap/Laws.antt =====
-- A bitmap as a set of numbers: what each operation of kern/lib/bitmap.c does to it.
use os.Base.{
  ℕ, ◌+◌, ◌-◌, ◌*◌, ◌^◌, ◌≤◌, ◌<◌, ◌≡◌, refl, Bool, true, false, ◌==◌, if◌then◌else◌, update, ok,
  panic, arith,
}
use os.Kernlib.Bits.{
  set_bit, clear_bit, is_clear-set_bit, set_bit-lt, is_clear-clear_bit, clear_bit-lt,
}
use os.Kernlib.Bitmap.{Bitmap, words, bitmap_mark, bitmap_unmark, bitmap_isset, word_of, offset_of}

-- The words are bytes, and the bits behind the last one are set.
pub record IsBitmap (b : Bitmap) : Type 0 where
  pub small : b.nbits < 2 ^ 32 - 8
  pub bytes : (ix : ℕ) → ix < words b.nbits → b.v ix < 256
  pub rest : (k : ℕ) → b.nbits ≤ k → k < 8 * words b.nbits → bitmap_isset b k ≡ true

-- The bitmap `b'` is `b` but for bit `i`, which is `value` in it.
pub record Put (b b' : Bitmap) (i : ℕ) (value : Bool) : Type 0 where
  pub valid : IsBitmap b'
  pub nbits : b'.nbits ≡ b.nbits
  pub bits : (k : ℕ) → bitmap_isset b' k ≡ (if i == k then value else bitmap_isset b k)

pub words_bounds : (n : ℕ) → n < 2 ^ 32 - 8 → (n ≤ 8 * words n) × (8 * words n < n + 8)
unfolding words
words_bounds n h = omega arith

abbrev pub with_word : Bitmap → ℕ → ℕ → Bitmap
with_word b ix w = record b { v = update b.v ix w }

module _ {b : Bitmap} (valid : IsBitmap b) (i : ℕ) (lt : i < b.nbits) where
  here : word_of i < words b.nbits
  here = omega (arith, words_bounds b.nbits valid.small)

  set-bits :
      (k : ℕ)
      → bitmap_isset (with_word b (word_of i) (set_bit (b.v (word_of i)) (offset_of i))) k
        ≡ (if i == k then true else bitmap_isset b k)
  unfolding bitmap_isset
  set-bits k = ground (
    arith,
    is_clear-set_bit (b.v (word_of i)) (offset_of i) (offset_of k) (valid.bytes _ here)
        (omega arith) (omega arith),
  )

  clear-bits :
      (k : ℕ)
      → bitmap_isset (with_word b (word_of i) (clear_bit (b.v (word_of i)) (offset_of i))) k
        ≡ (if i == k then false else bitmap_isset b k)
  unfolding bitmap_isset
  clear-bits k = ground (
    arith,
    is_clear-clear_bit (b.v (word_of i)) (offset_of i) (offset_of k) (valid.bytes _ here)
        (omega arith) (omega arith),
  )

  pub set-Put : Put b (with_word b (word_of i) (set_bit (b.v (word_of i)) (offset_of i))) i true
  set-Put = record {
    valid = record {
      small = valid.small;
      bytes = λ ix p. ground (
        arith,
        valid.bytes ix p,
        set_bit-lt (b.v (word_of i)) (offset_of i) 0 (valid.bytes _ here) (omega arith)
            (omega arith),
      );
      rest = λ k lo hi. ground (arith, set-bits k, valid.rest k lo hi);
    };
    nbits = refl;
    bits = set-bits;
  }

  clear-Put : Put b (with_word b (word_of i) (clear_bit (b.v (word_of i)) (offset_of i))) i false
  clear-Put = record {
    valid = record {
      small = valid.small;
      bytes = λ ix p. ground (
        arith,
        valid.bytes ix p,
        clear_bit-lt (b.v (word_of i)) (offset_of i) 0 (valid.bytes _ here) (omega arith)
            (omega arith),
      );
      rest = λ k lo hi. ground (arith, clear-bits k, valid.rest k lo hi);
    };
    nbits = refl;
    bits = clear-bits;
  }

  -- In a well-formed bitmap, bitmap_mark at an index in range fails an assertion if the bit is set;
  -- else it sets that bit and no other, and the bitmap stays well formed.
  pub bitmap_mark_lem :
      (bitmap_isset b i ≡ true → bitmap_mark b i ≡ panic)
      × (bitmap_isset b i ≡ false → (b' : Bitmap) × (bitmap_mark b i ≡ ok b') × Put b b' i true)
  unfolding bitmap_mark bitmap_isset
  bitmap_mark_lem = (λ e. ground arith, λ e. (_, ground arith, set-Put))

  -- In a well-formed bitmap, bitmap_unmark at an index in range fails an assertion if the bit is not
  -- set; else it clears that bit and no other, and the bitmap stays well formed.
  pub bitmap_unmark_lem :
      (bitmap_isset b i ≡ false → bitmap_unmark b i ≡ panic)
      × (bitmap_isset b i ≡ true → (b' : Bitmap) × (bitmap_unmark b i ≡ ok b') × Put b b' i false)
  unfolding bitmap_unmark bitmap_isset
  bitmap_unmark_lem = (λ e. ground arith, λ e. (_, ground arith, clear-Put))
