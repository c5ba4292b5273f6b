-- ===== src/Kernlib/Tests.antt =====
-- Small arrays, bitmaps and queues, and the theorems of kern/lib there.
use os.Base.{
  ◌-◌, ℕ, zero, suc, ◌+◌, ◌*◌, ◌≤◌, none, ◌<◌, ◌≡◌, ◌⊎◌, ◌↔◌, refl, true, false, Option, some, [],
  ◌∷◌, ◌++◌, length, get_elem?, set, if◌then◌else◌, ◌==◌, ok, err, panic, enomem, enospc, or_panic,
  arith,
}
use os.Kernlib.Array
use os.Kernlib.Array.{Array, array_setsize, array_add, array_get, array_set, array_remove}
use os.Kernlib.Array.Laws.{
  IsArray, array_setsize-cases, array_remove-erase_at, array_get-set, array_add-append, erase_at,
}
use os.Kernlib.Bits.{is_clear}
use os.Kernlib.Bitmap.{
  Bitmap, words, bitmap_create, bitmap_alloc, bitmap_mark, bitmap_unmark, bitmap_isset,
}
use os.Kernlib.Bitmap.Laws.{IsBitmap, Put, bitmap_mark_lem, bitmap_unmark_lem}
use os.Kernlib.Bitmap.Alloc.{bitmap_alloc_lem}
use os.Kernlib.Bitmap.Create.{bitmap_create_lem}
use os.Kernlib.Queue
use os.Kernlib.Queue.{Queue, q_addtail, q_remhead, q_empty, q_len, filled}
use os.Kernlib.Queue.Ring.{IsQueue}
use os.Kernlib.Queue.Api.{q_addtail-append, q_remhead-contents, q_len-length}

-- kmalloc that finds memory, with zeros in it
abbrev kmalloc_zeros : ℕ → Option (ℕ → ℕ)
kmalloc_zeros bytes = some (λ _. 0)

-- A full array of four.
abbrev four : Array ℕ
four = record { v = λ k. 10 + k; num = 4; max = 4 }

four-IsArray : IsArray four
four-IsArray = record { bounded = omega arith; small = omega arith }

array_setsize-cases_example :
    ((array_setsize kmalloc_zeros four 5 ≡ err enomem)
      × (4 < 5)
      × ((newmax : ℕ) × (kmalloc_zeros (newmax * 4) ≡ none) × (5 ≤ newmax) × (newmax ≤ 12)))
    ⊎ ((a' : Array ℕ) × (array_setsize kmalloc_zeros four 5 ≡ ok a')
        × IsArray a'
        × (a'.num ≡ 5)
        × ((k : ℕ) → k < 4 → a'.v k ≡ 10 + k)
        × (((5 ≤ 4) × (a'.max ≡ 4) × (a'.v ≡ four.v))
            ⊎ ((4 < 5)
                × ((block : ℕ → ℕ) × (kmalloc_zeros (a'.max * 4) ≡ some block))
                × (a'.max ≤ 12))))
array_setsize-cases_example = array_setsize-cases kmalloc_zeros four-IsArray 5 (omega arith)

array_remove-erase_at_example :
    (a' : Array ℕ) × (array_remove four 1 ≡ ok a')
    × IsArray a'
    × (Array.contents a' ≡ erase_at (Array.contents four) 1)
array_remove-erase_at_example = array_remove-erase_at four 1 four-IsArray (omega arith)

array_get-set_case :
    ((i : ℕ) → array_get four i ≡ or_panic (get_elem? (Array.contents four) i))
    × ((i x : ℕ)
        → i < 4
        → (a' : Array ℕ) × (array_set four i x ≡ ok a')
          × (Array.contents a' ≡ set (Array.contents four) i x))
array_get-set_case = array_get-set four

array_add-append_case :
    (array_add kmalloc_zeros four 14 ≡ err enomem)
    ⊎ ((a' : Array ℕ) × (array_add kmalloc_zeros four 14 ≡ ok (a', length (Array.contents four)))
        × IsArray a'
        × (Array.contents a' ≡ Array.contents four ++ 14 ∷ []))
array_add-append_case = array_add-append kmalloc_zeros four 14 four-IsArray (omega arith)

-- Twelve bits, of which the first nine are set, and the four behind the end.
abbrev twelve : Bitmap
twelve = record { nbits = 12; v = λ k. if k == 0 then 255 else 241 }

twelve_rest : (j : ℕ) → j < 4 → bitmap_isset twelve (12 + j) ≡ true
unfolding bitmap_isset is_clear
twelve_rest zero lt = refl
twelve_rest (suc zero) lt = refl
twelve_rest (suc (suc zero)) lt = refl
twelve_rest (suc (suc (suc zero))) lt = refl
twelve_rest (suc (suc (suc (suc j)))) lt = absurd (omega arith)

twelve-IsBitmap : IsBitmap twelve
unfolding words
twelve-IsBitmap = record {
  small = omega arith;
  bytes = λ ix lt. ground arith;
  rest = λ k lo hi.
      let e : k ≡ 12 + (k - 12) = omega arith in rw e (twelve_rest (k - 12) (omega arith));
}

bitmap_mark_lem_case :
    (bitmap_isset twelve 10 ≡ true → bitmap_mark twelve 10 ≡ panic)
    × (bitmap_isset twelve 10 ≡ false
        → (b' : Bitmap) × (bitmap_mark twelve 10 ≡ ok b') × Put twelve b' 10 true)
bitmap_mark_lem_case = bitmap_mark_lem twelve-IsBitmap 10 (omega arith)

bitmap_unmark_lem_case :
    (bitmap_isset twelve 3 ≡ false → bitmap_unmark twelve 3 ≡ panic)
    × (bitmap_isset twelve 3 ≡ true
        → (b' : Bitmap) × (bitmap_unmark twelve 3 ≡ ok b') × Put twelve b' 3 false)
bitmap_unmark_lem_case = bitmap_unmark_lem twelve-IsBitmap 3 (omega arith)

bitmap_alloc_lem_example :
    ((bitmap_alloc twelve ≡ err enospc) × ((k : ℕ) → k < 12 → bitmap_isset twelve k ≡ true))
    ⊎ ((k : ℕ) × (b' : Bitmap) × (bitmap_alloc twelve ≡ ok (k, b'))
        × (k < 12)
        × (bitmap_isset twelve k ≡ false)
        × ((j : ℕ) → j < k → bitmap_isset twelve j ≡ true)
        × Put twelve b' k true)
bitmap_alloc_lem_example = bitmap_alloc_lem twelve-IsBitmap

bitmap_create_lem_case :
    (b : Bitmap) × (bitmap_create 13 ≡ ok b)
    × IsBitmap b
    × (b.nbits ≡ 13)
    × ((k : ℕ) → k < 13 → bitmap_isset b k ≡ false)
bitmap_create_lem_case = bitmap_create_lem 13 (omega arith)

-- A full queue of four slots that has wrapped around: 7, 8, 9.
abbrev ring : Queue ℕ
ring = record {
  size = 4;
  nextread = 3;
  nextwrite = 2;
  data_block = λ k. if k == 3 then 7 else 8 + k;
}

ring-IsQueue : IsQueue ring
ring-IsQueue = record {
  positive = omega arith;
  small = omega arith;
  read = omega arith;
  write = omega arith;
}

q_addtail-append_example :
    ((q_addtail kmalloc_zeros ring 5 ≡ err enomem)
      × (filled ring + 1 ≡ 4)
      × (kmalloc_zeros 32 ≡ none))
    ⊎ ((q' : Queue ℕ) × (q_addtail kmalloc_zeros ring 5 ≡ ok q')
        × IsQueue q'
        × (Queue.contents q' ≡ Queue.contents ring ++ 5 ∷ [])
        × ((filled ring + 1 < 4) ⊎ ((block : ℕ → ℕ) × (kmalloc_zeros 32 ≡ some block))))
q_addtail-append_example = q_addtail-append kmalloc_zeros ring ring-IsQueue 5 (omega arith)

q_remhead-contents_example :
    ((Queue.contents ring ≡ []) × (q_remhead ring ≡ panic))
    ⊎ ((x : ℕ) × (q' : Queue ℕ) × (q_remhead ring ≡ ok (x, q'))
        × IsQueue q'
        × (Queue.contents ring ≡ x ∷ Queue.contents q'))
q_remhead-contents_example = q_remhead-contents ring ring-IsQueue

q_len-length_example :
    (q_len ring ≡ some (length (Queue.contents ring)))
    × ((q_empty ring ≡ true) ↔ (length (Queue.contents ring) ≡ 0))
q_len-length_example = q_len-length ring ring-IsQueue
