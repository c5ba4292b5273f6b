-- ===== src/Kernlib/Bitmap/Alloc.antt =====
-- bitmap_alloc of kern/lib/bitmap.c: the lowest bit that is not set.
use os.Base.{
  lt→ltb, ℕ, zero, suc, ◌+◌, ◌*◌, ◌%◌, ◌≤◌, ◌<◌, ◌≡◌, ◌≢◌, ◌⊎◌, inl, inr, refl, true, false, not,
  Option, none, some, ltb, ◌==◌, Bool-cases, Result, ok, err, enospc, arith,
}
use native.Mathlib.Decide.{dec_lt}
use os.Kernlib.Bits.{is_clear, find_clear, find_clear_lem, found}
use os.Kernlib.Bitmap.{
  set_bit, Bitmap, words, find_word, take_bit, alloc_in, bitmap_alloc, bitmap_isset, word_of,
  offset_of,
}
use os.Kernlib.Bitmap.Laws.{IsBitmap, Put, words_bounds, with_word, set-Put}

-- What the search over the words finds from `ix` on.
abbrev WordFound : (maxix ix : ℕ) → (ℕ → ℕ) → Option ℕ → Type 0
WordFound maxix ix v none = (j : ℕ) → ix ≤ j → j < maxix → v j ≡ 255
WordFound maxix ix v (some r) =
    (ix ≤ r) × (r < maxix) × (v r ≢ 255) × ((j : ℕ) → ix ≤ j → j < r → v j ≡ 255)

WordFound-later :
    (maxix ix : ℕ) (v : ℕ → ℕ) (o : Option ℕ)
    → v ix ≡ 255
    → WordFound maxix (ix + 1) v o
    → WordFound maxix ix v o
WordFound-later maxix ix v none full h = λ j lo hi. elim (dec_lt ix j) [
  | yes p ↦ h j (omega arith) hi
  | no p ↦ let e : j ≡ ix = omega arith in rw e full
]
WordFound-later maxix ix v (some r) full h = (
  omega (arith, h.0),
  h.1,
  h.2,
  λ j lo hi. elim (dec_lt ix j) [
    | yes p ↦ h.3 j (omega arith) hi
    | no p ↦ let e : j ≡ ix = omega arith in rw e full
  ],
)

find_word_lem :
    (fuel maxix ix : ℕ) (v : ℕ → ℕ)
    → maxix ≤ fuel + ix
    → WordFound maxix ix v (find_word fuel maxix ix v)
unfolding find_word
find_word_lem zero maxix ix v enough = λ j lo hi. absurd (omega arith)
find_word_lem (suc fuel) maxix ix v enough = elim (Bool-cases (ltb ix maxix)) [
  | inr out ↦ rw out (λ j lo hi. absurd (ground arith))
  | inl lt ↦ elim (Bool-cases (v ix == 255)) [
    | inr free ↦
        rw (lt, free) (omega arith, ground arith, ground arith, λ j lo hi. absurd (omega arith))
    | inl full ↦
        rw (lt, full)
          (WordFound-later maxix ix v (find_word fuel maxix (ix + 1) v) (ground arith)
            (find_word_lem fuel maxix (ix + 1) v (omega arith)))
  ]
]

-- All bits of a full byte are set.
isset_full : (b : Bitmap) (k : ℕ) → b.v (word_of k) ≡ 255 → bitmap_isset b k ≡ true
unfolding bitmap_isset
isset_full b k e =
    rw e (full_byte (find_clear 8 0 255) (find_clear_lem 255 (k % 8) (omega arith) (omega arith)))
  where
    full_byte : (o : Option ℕ) → found 255 o (k % 8) ≡ true → not (is_clear 255 (k % 8)) ≡ true
    full_byte none h = h
    full_byte (some o) h = cc

-- The lowest bit that is not set, in a word that is not full.
record Lowest (w o : ℕ) : Type 0 where
  offset : o < 8
  clear : is_clear w o ≡ true
  below : (q : ℕ) → q < o → is_clear w q ≡ false

find_clear-Lowest : (w : ℕ) → w < 256 → w ≢ 255 → (o : ℕ) × (find_clear 8 0 w ≡ some o) × Lowest w o
find_clear-Lowest w hw ne = go (find_clear 8 0 w) (λ q. find_clear_lem w q hw)
  where
    go :
        (r : Option ℕ)
        → ((q : ℕ) → q < 8 → found w r q ≡ true)
        → (o : ℕ) × (r ≡ some o) × Lowest w o
    go none h = absurd (ground (arith, h 0 (omega arith)))
    go (some o) h = (
      o,
      refl,
      record {
        offset = ground (arith, h 0 (omega arith));
        clear = ground (arith, h 0 (omega arith));
        below = λ q lt. ground (arith, h 0 (omega arith), h q);
      },
    )

module _ {b : Bitmap} (valid : IsBitmap b) where
  isset-Lowest : (ix o : ℕ) → Lowest (b.v ix) o → bitmap_isset b (ix * 8 + o) ≡ false
  unfolding bitmap_isset
  isset-Lowest ix o low =
      let e : word_of (ix * 8 + o) ≡ ix = omega (arith, low.offset) in
      let e' : offset_of (ix * 8 + o) ≡ o = omega (arith, low.offset) in rw (e, e', low.clear)

  isset-below :
      (ix o : ℕ)
      → Lowest (b.v ix) o
      → (j : ℕ) → word_of j ≡ ix
      → offset_of j < o
      → bitmap_isset b j ≡ true
  unfolding bitmap_isset
  isset-below ix o low j e lt = rw (e, low.below (offset_of j) lt)

  take-Lowest :
      (ix : ℕ)
      → WordFound (words b.nbits) 0 b.v (some ix)
      → (o : ℕ) → Lowest (b.v ix) o
      → (ix * 8 + o < b.nbits)
        × (bitmap_isset b (ix * 8 + o) ≡ false)
        × ((j : ℕ) → j < ix * 8 + o → bitmap_isset b j ≡ true)
  take-Lowest ix f o low =
      let free = isset-Lowest ix o low in
      (
        elim (dec_lt (ix * 8 + o) b.nbits) [
          | yes p ↦ p
          | no p ↦ absurd (
              ground (
                arith,
                free,
                valid.rest (ix * 8 + o) (omega arith) (omega (arith, f.1, low.offset)),
              ))
        ],
        free,
        λ j lt. elim (dec_lt (word_of j) ix) [
          | yes p ↦ isset_full b j (f.3 (word_of j) (omega arith) p)
          | no p ↦ isset-below ix o low j (omega (arith, low.offset)) (omega (arith, low.offset))
        ],
      )

  abbrev AllocResult : Result (ℕ × Bitmap) → Type 0
  AllocResult r =
      ((r ≡ err enospc) × ((k : ℕ) → k < b.nbits → bitmap_isset b k ≡ true))
      ⊎ ((k : ℕ) × (b' : Bitmap) × (r ≡ ok (k, b'))
          × (k < b.nbits)
          × (bitmap_isset b k ≡ false)
          × ((j : ℕ) → j < k → bitmap_isset b j ≡ true)
          × Put b b' k true)

  alloc_in_lem : (o : Option ℕ) → WordFound (words b.nbits) 0 b.v o → AllocResult (alloc_in o b)
  unfolding alloc_in take_bit
  alloc_in_lem none full = inl (
    refl,
    λ k lt.
        isset_full b k
          (full (word_of k) (omega arith) (omega (arith, words_bounds b.nbits valid.small))),
  )
  alloc_in_lem (some ix) f =
      let (o, got, low) = find_clear-Lowest (b.v ix) (valid.bytes ix f.1) f.2 in
      let (lt, free, below) = take-Lowest ix f o low in
      let k = ix * 8 + o in
      let e : word_of k ≡ ix = omega (arith, low.offset) in
      let e' : offset_of k ≡ o = omega (arith, low.offset) in
      inr (
        k,
        with_word b ix (set_bit (b.v ix) o),
        rw (got, lt→ltb k b.nbits lt),
        lt,
        free,
        below,
        rw (e, e') at (set-Put valid k lt),
      )

  -- In a well-formed bitmap, bitmap_alloc takes the lowest bit that is not set: it returns its index,
  -- which is in range, sets it and no other, and the bitmap stays well formed. If every bit is set
  -- it returns ENOSPC. No assertion in it fails.
  pub bitmap_alloc_lem :
      ((bitmap_alloc b ≡ err enospc) × ((k : ℕ) → k < b.nbits → bitmap_isset b k ≡ true))
      ⊎ ((k : ℕ) × (b' : Bitmap) × (bitmap_alloc b ≡ ok (k, b'))
          × (k < b.nbits)
          × (bitmap_isset b k ≡ false)
          × ((j : ℕ) → j < k → bitmap_isset b j ≡ true)
          × Put b b' k true)
  unfolding bitmap_alloc
  bitmap_alloc_lem =
      alloc_in_lem (find_word (words b.nbits) (words b.nbits) 0 b.v)
        (find_word_lem (words b.nbits) (words b.nbits) 0 b.v (omega arith))
