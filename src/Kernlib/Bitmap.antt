-- ===== src/Kernlib/Bitmap.antt =====
-- Fixed-size bitmaps: kern/lib/bitmap.c, with words of eight bits.
pub mod Laws
pub mod Alloc
pub mod Create
use os.Base.{
  ℕ, zero, suc, ◌+◌, ◌-◌, ◌*◌, ◌/◌, ◌%◌, ◌^◌, Bool, ◌&&◌, not, Option, none, some, ltb, ◌==◌,
  if◌then◌else◌, update, Result, ok, err, panic, ◌>>◌, kassert, enospc,
}
use os.Kernlib.Bits.{is_clear, set_bit, clear_bit, find_clear}

-- `struct bitmap`
pub record Bitmap : Type 0 where
  pub nbits : ℕ
  pub v : ℕ → ℕ

-- DIVROUNDUP(nbits, BITS_PER_WORD), in unsigned ints
unfoldable pub words : ℕ → ℕ
words nbits = (nbits + 8 - 1) % 2 ^ 32 / 8

-- The loop that marks the bits from `j` to the end of the last word.
pub mark_rest : (left j word : ℕ) → ℕ
unfolding set_bit
mark_rest zero j word = word
mark_rest (suc left) j word = mark_rest left (j + 1) (set_bit word j)

-- With both blocks allocated. `bzero` clears the words.
pub bitmap_create : ℕ → Result Bitmap
unfolding words mark_rest
bitmap_create nbits =
    let b : Bitmap = record { nbits = nbits; v = λ _. 0 } in
    if ltb (nbits / 8) (words nbits)
    then (let ix = words nbits - 1 in
        let overbits = nbits - ix * 8 in
        kassert (nbits / 8 == ix)
        >> kassert (ltb 0 overbits && ltb overbits 8)
        >> ok (record b { v = update b.v ix (mark_rest (8 - overbits) overbits (b.v ix)) }))
    else ok b

-- The outer loop of bitmap_alloc: the first word from `ix` on with a bit that is not set.
pub find_word : (fuel maxix ix : ℕ) → (ℕ → ℕ) → Option ℕ
find_word zero maxix ix v = none
find_word (suc fuel) maxix ix v =
    let rest = find_word fuel maxix (ix + 1) v in
    if ltb ix maxix then (if v ix == 255 then rest else some ix) else none

-- Its body, from the outcome of the inner loop on; KASSERT(0) follows that loop.
pub take_bit : Option ℕ → ℕ → Bitmap → Result (ℕ × Bitmap)
unfolding set_bit
take_bit none ix b = panic
take_bit (some offset) ix b =
    kassert (ltb (ix * 8 + offset) b.nbits)
    >> ok (ix * 8 + offset, record b { v = update b.v ix (set_bit (b.v ix) offset) })

pub alloc_in : Option ℕ → Bitmap → Result (ℕ × Bitmap)
unfolding take_bit find_clear
alloc_in none b = err enospc
alloc_in (some ix) b = take_bit (find_clear 8 0 (b.v ix)) ix b

pub bitmap_alloc : Bitmap → Result (ℕ × Bitmap)
unfolding alloc_in find_word words
bitmap_alloc b = alloc_in (find_word (words b.nbits) (words b.nbits) 0 b.v) b

-- bitmap_translate: the word and the bit in it
abbrev pub word_of : ℕ → ℕ
word_of bitno = bitno / 8

abbrev pub offset_of : ℕ → ℕ
offset_of bitno = bitno % 8

pub bitmap_mark : Bitmap → ℕ → Result Bitmap
unfolding is_clear set_bit
bitmap_mark b index =
    let ix = word_of index in
    kassert (ltb index b.nbits)
    >> kassert (is_clear (b.v ix) (offset_of index))
    >> ok (record b { v = update b.v ix (set_bit (b.v ix) (offset_of index)) })

pub bitmap_unmark : Bitmap → ℕ → Result Bitmap
unfolding is_clear clear_bit
bitmap_unmark b index =
    let ix = word_of index in
    kassert (ltb index b.nbits)
    >> kassert (not (is_clear (b.v ix) (offset_of index)))
    >> ok (record b { v = update b.v ix (clear_bit (b.v ix) (offset_of index)) })

-- bitmap_isset as a condition
unfoldable pub bitmap_isset : Bitmap → ℕ → Bool
unfolding is_clear
bitmap_isset b index = not (is_clear (b.v (word_of index)) (offset_of index))
