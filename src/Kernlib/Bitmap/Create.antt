-- ===== src/Kernlib/Bitmap/Create.antt =====
-- bitmap_create of kern/lib/bitmap.c: an empty bitmap with the rest of its last word marked.
use os.Base.{
  ℕ, zero, suc, ◌+◌, ◌-◌, ◌*◌, ◌/◌, ◌%◌, ◌^◌, ◌<◌, ◌≡◌, refl, inl, inr, true, false, ◌&&◌, ltb, leb,
  ◌==◌, if◌then◌else◌, Bool-cases, ok, arith,
}
use os.Kernlib.Bits.{is_clear, is_clear-zero, set_bit, is_clear-set_bit, set_bit-lt}
use os.Kernlib.Bitmap.{Bitmap, words, mark_rest, bitmap_create, bitmap_isset}
use os.Kernlib.Bitmap.Laws.{IsBitmap, words_bounds, with_word}

mark_rest_lem :
    (left j w q : ℕ)
    → j + left ≡ 8
    → w < 256
    → q < 8
    → (is_clear (mark_rest left j w) q ≡ (if leb j q then false else is_clear w q))
      × (mark_rest left j w < 256)
unfolding mark_rest
mark_rest_lem zero j w q e hw hq = (ground arith, hw)
mark_rest_lem (suc left) j w q e hw hq =
    let r =
      mark_rest_lem left (j + 1) (set_bit w j) q (omega arith)
        (set_bit-lt w j 0 hw (omega arith) (omega arith)) hq in
    (ground (arith, r.0, is_clear-set_bit w j q hw (omega arith) hq), r.1)

empty : ℕ → Bitmap
empty nbits = record { nbits = nbits; v = λ _. 0 }

isset-empty : (nbits k : ℕ) → bitmap_isset (empty nbits) k ≡ false
unfolding bitmap_isset empty
isset-empty nbits k = rw (is_clear-zero (k % 8) (omega arith))

module _ (nbits : ℕ) (small : nbits < 2 ^ 32 - 8) where
  -- The bitmap whose last word `ix` has its bits from `nbits` on marked.
  marked : ℕ → Bitmap
  unfolding empty
  marked ix = with_word (empty nbits) ix (mark_rest (8 - (nbits - ix * 8)) (nbits - ix * 8) 0)

  isset-marked :
      (ix k : ℕ)
      → ix * 8 < nbits
      → nbits < ix * 8 + 8
      → bitmap_isset (marked ix) k
        ≡ (if (k / 8 == ix) && leb (nbits - ix * 8) (k % 8) then true else false)
  unfolding bitmap_isset marked empty
  isset-marked ix k lo hi = ground (
    arith,
    mark_rest_lem (8 - (nbits - ix * 8)) (nbits - ix * 8) 0 (k % 8) (omega arith) (omega arith)
        (omega arith),
    is_clear-zero (k % 8) (omega arith),
  )

  -- With memory for it, bitmap_create of fewer than 2^32 - 8 bits makes a well-formed bitmap of that
  -- size in which no bit is set; its assertions hold.
  pub bitmap_create_lem :
      (b : Bitmap) × (bitmap_create nbits ≡ ok b)
      × IsBitmap b
      × (b.nbits ≡ nbits)
      × ((k : ℕ) → k < nbits → bitmap_isset b k ≡ false)
  unfolding bitmap_create marked empty words
  bitmap_create_lem = elim (Bool-cases (ltb (nbits / 8) (words nbits))) [
    | inl more ↦
        let ix = words nbits - 1 in
        let w = words_bounds nbits small in
        let part : nbits / 8 < words nbits = ground arith in
        (
          marked ix,
          ground arith,
          record {
            small = small;
            bytes = λ j lt. ground (
              arith,
              mark_rest_lem (8 - (nbits - ix * 8)) (nbits - ix * 8) 0 0 (omega arith) (omega arith)
                  (omega arith),
            );
            rest = λ k lo hi. ground (arith, isset-marked ix k (omega arith) (omega arith));
          },
          refl,
          λ k lt. ground (arith, isset-marked ix k (omega arith) (omega arith)),
        )
    | inr even ↦ (
      empty nbits,
      rw even,
      record {
        small = small;
        bytes = λ j lt. omega arith;
        rest = λ k lo hi. absurd (ground arith);
      },
      refl,
      λ k lt. isset-empty nbits k,
    )
  ]
