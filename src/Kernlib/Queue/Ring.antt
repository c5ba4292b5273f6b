-- ===== src/Kernlib/Queue/Ring.antt =====
-- A queue refines a list: q_addtail, q_remhead, q_grow and q_len of kern/lib/queue.c.
use os.Base.{
  ℕ, ◌+◌, ◌-◌, ◌%◌, ◌^◌, ◌<◌, ◌≡◌, ◌≢◌, ◌∙◌, refl, [], ◌∷◌, ◌++◌, ltb, if◌then◌else◌, Result, ok,
  arith, ==-false, lt→ltb,
}
use native.Mathlib.Nat.{mod-eq_of_lt, mod-eq-sub-mod}
use native.Mathlib.Decide.{dec_lt}
use os.Kernlib.Slice.{slice_snoc}
use os.Kernlib.Queue.{Queue, put_tail, addtail_with, filled, contents}

pub wrap : (x s : ℕ) → 0 < s → x < s + s → x % s ≡ (if ltb x s then x else x - s)
wrap x s pos lt = elim (dec_lt x s) [
  | yes p ↦ mod-eq_of_lt p ∙ ground arith
  | no p ↦ mod-eq-sub-mod (omega arith) ∙ (mod-eq_of_lt (omega arith) ∙ ground arith)
]

module _ {ℓ} {A : Type ℓ} where
  pub record IsQueue (q : Queue A) : Type 0 where
    pub positive : 0 < q.size
    pub small : q.size < 2 ^ 29
    pub read : q.nextread < q.size
    pub write : q.nextwrite < q.size

  -- The place of the k-th entry.
  abbrev pub place : Queue A → ℕ → ℕ
  place q k = (q.nextread + k) % q.size

  abbrev pub entry : Queue A → ℕ → A
  entry q k = q.data_block (place q k)

  module _ {q : Queue A} (valid : IsQueue q) where
    pub filled-lt : filled q < q.size
    filled-lt = ground (arith, valid.read, valid.write)

    pub place_end : place q (filled q) ≡ q.nextwrite
    place_end =
        ground (arith, valid.read, valid.write, valid.positive, wrap (q.nextread + filled q) q.size)

    pub place_inside : (k : ℕ) → k < filled q → place q k ≢ q.nextwrite
    place_inside k lt =
        ground (arith, valid.read, valid.write, valid.positive, wrap (q.nextread + k) q.size)

    pub place_next : (k : ℕ) → k < q.size → (place q k + 1) % q.size ≡ place q (k + 1)
    place_next k lt = ground (
      arith,
      valid.read,
      valid.positive,
      wrap (q.nextread + k) q.size,
      wrap (q.nextread + (k + 1)) q.size,
      wrap (place q k + 1) q.size,
    )

    -- The slot behind the last entry is taken when the queue is not full.
    pub record Added (x : A) (q' : Queue A) : Type ℓ where
      pub valid' : IsQueue q'
      pub size : q'.size ≡ q.size
      pub filled' : filled q' ≡ filled q + 1
      pub contents' : contents q' ≡ contents q ++ x ∷ []

    pub put_tail-Added :
        (x : A)
        → (q.nextwrite + 1) % q.size ≢ q.nextread
        → Added x (put_tail q x ((q.nextwrite + 1) % q.size))
    unfolding put_tail contents
    put_tail-Added x room = record {
      valid' = record {
        positive = valid.positive;
        small = valid.small;
        read = valid.read;
        write = next_lt;
      };
      size = refl;
      filled' = more;
      contents' = rw more (
          slice_snoc (filled q) (entry q) _ x (λ k lt. ground (arith, place_inside k lt))
            (ground (arith, place_end)));
    }
      where
        next_lt : (q.nextwrite + 1) % q.size < q.size
        next_lt = ground (arith, valid.write, valid.positive, wrap (q.nextwrite + 1) q.size)

        more : filled (put_tail q x ((q.nextwrite + 1) % q.size)) ≡ filled q + 1
        more =
            ground (arith, valid.read, valid.write, valid.positive, wrap (q.nextwrite + 1) q.size)

    pub addtail_with-Added :
        (grow : Queue A → ℕ → Result (Queue A)) (x : A)
        → (q.nextwrite + 1) % q.size ≢ q.nextread
        → (q' : Queue A) × (addtail_with grow q x ≡ ok q') × Added x q'
    unfolding addtail_with
    addtail_with-Added grow x room = (
      put_tail q x ((q.nextwrite + 1) % q.size),
      rw (lt→ltb 0 q.size valid.positive, ==-false _ _ room),
      put_tail-Added x room,
    )

    -- The test of q_addtail sees a full queue, and only that.
    pub full_iff :
        ((q.nextwrite + 1) % q.size ≡ q.nextread → filled q + 1 ≡ q.size)
        × (filled q + 1 < q.size → (q.nextwrite + 1) % q.size ≢ q.nextread)
    full_iff = (
      ground (arith, valid.read, valid.write, valid.positive, wrap (q.nextwrite + 1) q.size),
      ground (arith, valid.read, valid.write, valid.positive, wrap (q.nextwrite + 1) q.size),
    )
