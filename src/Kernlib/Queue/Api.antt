-- ===== src/Kernlib/Queue/Api.antt =====
-- What a client of kern/lib/queue.c sees: first in, first out.
use os.Base.{
  none, ==_iff, ◌↔◌, ℕ, zero, suc, ◌+◌, ◌*◌, ◌%◌, ◌^◌, ◌≤◌, ◌<◌, ◌≡◌, ◌≢◌, ◌⊎◌, ◌∙◌, inl, inr, refl,
  ap, true, Option, some, [], ◌∷◌, ◌++◌, length, Result, ok, err, panic, ◌>>=◌, enomem, arith,
  ==-false, lt→ltb,
}
use native.Mathlib.Decide.{dec_lt, ℕ_discrete}
use mathlib.Core.Path.{sym, ap₂}
use os.Kernlib.Slice.{slice, slice_shift, length-slice}
use os.Kernlib.Queue.{
  Queue, grow_with, put_tail, addtail_with, q_addtail_depth, q_addtail, q_remhead, q_empty,
  count_entries, q_len, filled, contents, grow_size, grow_fuel,
}
use os.Kernlib.Queue.Ring.{
  IsQueue, wrap, place, entry, filled-lt, place_end, place_inside, place_next, full_iff,
  addtail_with-Added, put_tail-Added,
}
use os.Kernlib.Queue.Laws.{grow_size-double, grow_lem}

module _ {ℓ} {A : Type ℓ} where
  -- q_addtail with its two recursions opened: a level to add, and one to grow.
  abbrev inner : (ℕ → Option (ℕ → A)) → Queue A → ℕ → Result (Queue A)
  inner kmalloc = grow_with (q_addtail_depth 0 kmalloc) kmalloc

  module _ (kmalloc : ℕ → Option (ℕ → A)) (q : Queue A) (valid : IsQueue q) where
    addtail_open :
        (x : A)
        → q_addtail kmalloc q x
          ≡ addtail_with (grow_with (addtail_with (inner kmalloc)) kmalloc) q x
    unfolding q_addtail q_addtail_depth
    addtail_open x = refl

    addtail_full :
        (x : A)
        → (q.nextwrite + 1) % q.size ≡ q.nextread
        → q_addtail kmalloc q x ≡ (
            grow_with (addtail_with (inner kmalloc)) kmalloc q (q.size + 1) >>= λ q'.
            ok (put_tail q' x ((q'.nextwrite + 1) % q'.size)))
    unfolding addtail_with
    addtail_full x e = addtail_open x ∙ rw (lt→ltb 0 q.size valid.positive, (==_iff _ _).1 e) refl

    has_room : (q.nextwrite + 1) % q.size ≢ q.nextread → filled q + 1 < q.size
    has_room room =
        ground (arith, room, valid.read, valid.write, valid.positive, wrap (q.nextwrite + 1) q.size)

    -- The bytes of the block that a full queue grows to.
    block_size :
        (nsize : ℕ)
        → q.size + 1 < 2 ^ 28
        → grow_size grow_fuel q.size (q.size + 1) ≡ ok nsize
        → nsize * 4 % 2 ^ 32 ≡ q.size * 2 * 4
    block_size nsize small sized =
        let double : nsize ≡ q.size * 2 =
          cc (sized, grow_size-double 30 q.size valid.positive small) in
        omega (arith, double)

    -- A queue of less than 2^28 - 1 slots. Either the queue is full, kmalloc fails for a block of
    -- twice as many pointers of 4 bytes, and q_addtail returns ENOMEM; or the queue has room or that
    -- block is allocated, and q_addtail succeeds: the queue is well formed and holds the old entries
    -- with the new one behind them.
    pub q_addtail-append :
        (x : A)
        → q.size + 1 < 2 ^ 28
        → ((q_addtail kmalloc q x ≡ err enomem)
            × (filled q + 1 ≡ q.size)
            × (kmalloc (q.size * 2 * 4) ≡ none))
          ⊎ ((q' : Queue A) × (q_addtail kmalloc q x ≡ ok q')
              × IsQueue q'
              × (contents q' ≡ contents q ++ x ∷ [])
              × ((filled q + 1 < q.size)
                  ⊎ ((block : ℕ → A) × (kmalloc (q.size * 2 * 4) ≡ some block))))
    q_addtail-append x small = elim (ℕ_discrete ((q.nextwrite + 1) % q.size) q.nextread) [
      | no room ↦
          let (q', got, a) =
            addtail_with-Added valid (grow_with (addtail_with (inner kmalloc)) kmalloc) x room in
          inr (q', addtail_open x ∙ got, a.valid', a.contents', inl (has_room room))
      | yes full ↦
          let (nsize, sized, grown) =
            grow_lem kmalloc valid (inner kmalloc) (q.size + 1) (omega arith) small in
          let bytes = block_size nsize small sized in
          elim grown [
            | inl (failed, no_block) ↦
                inl (addtail_full x full ∙ rw failed, (full_iff valid).0 full, rw bytes at no_block)
            | inr (q1, got, g, (block, made)) ↦
                let a =
                  put_tail-Added g.valid x
                    ((full_iff g.valid).1 (omega (arith, g.room, g.size, filled-lt valid))) in
                inr (
                  put_tail q1 x ((q1.nextwrite + 1) % q1.size),
                  addtail_full x full ∙ rw got,
                  a.valid',
                  a.contents' ∙ ap (λ l. l ++ x ∷ []) g.entries,
                  inr (block, rw bytes at made),
                )
          ]
    ]

  module _ (q : Queue A) (valid : IsQueue q) where
    entry_shift :
        (k : ℕ)
        → k + 1 < q.size
        → entry q (1 + k) ≡ entry (record q { nextread = (q.nextread + 1) % q.size }) (0 + k)
    entry_shift k lt = ap q.data_block (
        ground (
          arith,
          valid.read,
          valid.positive,
          wrap (q.nextread + 1) q.size,
          wrap (q.nextread + (1 + k)) q.size,
          wrap ((q.nextread + 1) % q.size + (0 + k)) q.size,
        ))

    remhead_filled :
        q.nextwrite ≢ q.nextread
        → filled (record q { nextread = (q.nextread + 1) % q.size }) + 1 ≡ filled q
    remhead_filled ne =
        ground (arith, valid.read, valid.write, valid.positive, wrap (q.nextread + 1) q.size)

    -- q_remhead of an empty queue fails an assertion. Of any other it returns the oldest entry, and
    -- the queue holds the others in order.
    pub q_remhead-contents :
        ((contents q ≡ []) × (q_remhead q ≡ panic))
        ⊎ ((x : A) × (q' : Queue A) × (q_remhead q ≡ ok (x, q'))
            × IsQueue q'
            × (contents q ≡ x ∷ contents q'))
    unfolding q_remhead q_empty contents slice
    q_remhead-contents = elim (ℕ_discrete q.nextwrite q.nextread) [
      | yes e ↦
          let z : filled q ≡ 0 = ground arith in
          inl (rw z, rw (lt→ltb 0 q.size valid.positive, (==_iff _ _).1 e))
      | no ne ↦
          let q' : Queue A = record q { nextread = (q.nextread + 1) % q.size } in
          let n : filled q ≡ suc (filled q') = omega (arith, remhead_filled ne) in
          let first : place q 0 ≡ q.nextread =
            ground (arith, valid.read, valid.positive, wrap (q.nextread + 0) q.size) in
          inr (
            q.data_block q.nextread,
            q',
            rw (lt→ltb 0 q.size valid.positive, ==-false _ _ ne),
            record {
              positive = valid.positive;
              small = valid.small;
              read = ground (arith, valid.read, valid.positive, wrap (q.nextread + 1) q.size);
              write = valid.write;
            },
            rw n (
                ap₂ ◌∷◌ (ap q.data_block first) (
                  slice_shift (filled q') 1 0 (entry q) (entry q')
                    (λ k lt. entry_shift k (omega (arith, n, filled-lt valid))))),
          )
    ]

    count_entries_lem :
        (fuel j : ℕ)
        → j ≤ filled q
        → filled q ≤ j + fuel
        → count_entries fuel q.size q.nextwrite (place q j) j ≡ some (filled q)
    unfolding count_entries
    count_entries_lem zero j le enough =
        let e : j ≡ filled q = omega arith in rw (e, place_end valid) (ground arith)
    count_entries_lem (suc fuel) j le enough = elim (dec_lt j (filled q)) [
      | no p ↦ let e : j ≡ filled q = omega arith in rw (e, place_end valid) (ground arith)
      | yes p ↦
          rw
            (
              ==-false _ _ (place_inside valid j p),
              place_next valid j (omega (arith, filled-lt valid)),
            )
            (count_entries_lem fuel (j + 1) (omega arith) (omega arith))
    ]

    -- q_len ends, and is the number of entries; q_empty tells whether there are none.
    pub q_len-length :
        (q_len q ≡ some (length (contents q))) × ((q_empty q ≡ true) ↔ (length (contents q) ≡ 0))
    unfolding q_len q_empty contents
    q_len-length =
        let start : place q 0 ≡ q.nextread =
          ground (arith, valid.read, valid.positive, wrap (q.nextread + 0) q.size) in
        let l = length-slice (filled q) 0 (entry q) in
        (
          rw l (
              rw start at
                (count_entries_lem q.size 0 (omega arith) (omega (arith, filled-lt valid)))),
          (
            λ h. l ∙ ground arith,
            λ h. let z : filled q ≡ 0 = sym l ∙ h in ground (arith, valid.read, valid.write),
          ),
        )
