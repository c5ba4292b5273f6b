-- ===== src/Usermem/Uio/Laws.antt =====
-- uiomove (kern/lib/uio.c) on buffers of the kernel.
use os.Base.{
  sym, ==-false, lt→ltb, false, ◌∙◌, ap, ℕ, zero, suc, ◌+◌, ◌-◌, ◌*◌, ◌≤◌, ◌<◌, ◌≡◌, refl, ◌⊎◌, inl,
  inr, Bool, true, Option, none, List, [], ◌∷◌, Result, ok, length, ltb, dec_lt, arith,
}
use os.Clib.Move.{store, Bytes, memmove}
use os.Clib.Move.Laws.{memmove_outside, memmove-Copies}
use os.Usermem.Uio.{
  uio_kinit, Direction, read, write, sys, Iovec, Uio, Transfer, move_bytes, advance, fewer,
  next_iovec, moved, turn, uiomove_loop, space_matches, uiomove,
}
use os.Usermem.Uio.Sums.{
  chunk, block, transferred, transferred-pass, transferred-block, transferred-nothing, total_len,
  IsValid, Clear, Progress, Progress-refl, Progress-trans, turns,
}

-- A turn in direction `d` that goes on with `t'`.
record Turned (d : Direction) (t t' : Transfer) : Type 0 where
  valid : IsValid t'.uio
  progress : Progress d t t'
  shorter : (t'.n ≡ 0) ⊎ (turns t'.uio.uio_iov < turns t.uio.uio_iov)

turns-le : (iovs : List Iovec) → turns iovs ≤ 2 * length iovs
turns-le [] = omega arith
turns-le (iov ∷ rest) = ground arith

module _ (t : Transfer) (iov : Iovec) (rest : List Iovec) (first : t.uio.uio_iov ≡ iov ∷ rest) where
  Clear-next_iovec : (d : Direction) (x : ℕ) → Clear d x t → Clear d x (next_iovec t rest)
  unfolding next_iovec
  Clear-next_iovec read x c = (rw first at c).1
  Clear-next_iovec write x c = c

  Clear-advance :
      (d : Direction) (x size : ℕ) (mem : Bytes)
      → size ≤ iov.iov_len
      → size ≤ t.n
      → Clear d x t
      → Clear d x (advance t iov rest size mem)
  unfolding advance
  Clear-advance read x size mem le fits c =
      let (here, there) = rw first at c in (omega arith, there)
  Clear-advance write x size mem le fits c = omega arith

module _ (d : Direction) (t : Transfer) (iov : Iovec) (rest : List Iovec)
    (first : t.uio.uio_iov ≡ iov ∷ rest) (v : IsValid t.uio) where
  counted : t.uio.uio_iovcnt ≡ suc (length rest)
  counted = v.counted ∙ ap length first

  held : t.uio.uio_resid ≡ iov.iov_len + total_len rest
  held = v.held ∙ ap total_len first

  next_iovec-Turned : iov.iov_len ≡ 0 → Turned d t (next_iovec t rest)
  unfolding next_iovec
  next_iovec-Turned empty = record {
    valid = record {
      counted = omega (arith, counted, v.short);
      held = omega (arith, held);
      word = v.word;
      short = omega arith;
    };
    progress = record {
      fewer = omega arith;
      resid = omega arith;
      offset = omega arith;
      segflg = refl;
      direction = refl;
      space = refl;
      ptr = omega arith;
      carried = λ x.
          sym (transferred-pass d iov rest t.ptr t.n t.mem x (ground (arith, empty)))
          ∙ (λ i. transferred d (sym first i) t.ptr t.n t.mem x);
      mem = λ x c. refl;
      clear = λ x c. Clear-next_iovec t iov rest first d x c;
    };
    shorter = inr (rw first (ground (arith, empty, turns-le rest)));
  }

  after_block :
      (size : ℕ) (mem : Bytes)
      → size ≡ chunk t.n iov.iov_len
      → ((x : ℕ) → mem x ≡ block d t.ptr iov.iov_base size t.mem x)
      → (x : ℕ)
      → transferred d rest (t.ptr + size) (t.n - size) mem x
        ≡ transferred d (iov ∷ rest) t.ptr t.n t.mem x
  after_block size mem whole copied x =
      (λ i. transferred d rest (t.ptr + whole i) (t.n - whole i) mem x)
      ∙ transferred-block d iov rest t.ptr t.n t.mem mem
          (λ z. copied z ∙ (λ i. block d t.ptr iov.iov_base (whole i) t.mem z)) x

  advance-Turned :
      (size : ℕ) (mem : Bytes)
      → 0 < size
      → size ≤ iov.iov_len
      → size ≤ t.n
      → size ≡ chunk t.n iov.iov_len
      → ((x : ℕ) → Clear d x t → mem x ≡ t.mem x)
      → ((x : ℕ) → mem x ≡ block d t.ptr iov.iov_base size t.mem x)
      → Turned d t (advance t iov rest size mem)
  unfolding advance
  advance-Turned size mem pos le fits whole same copied = record {
    valid = record {
      counted = counted;
      held = omega (arith, held, v.word);
      word = omega arith;
      short = v.short;
    };
    progress = record {
      fewer = omega arith;
      resid = omega (arith, held, v.word);
      offset = omega arith;
      segflg = refl;
      direction = refl;
      space = refl;
      ptr = omega arith;
      carried = λ x.
          transferred-pass d
            (record { iov_base = iov.iov_base + size; iov_len = iov.iov_len - size }) rest
            (t.ptr + size) (t.n - size) mem x (ground (arith, whole))
          ∙ after_block size mem whole copied x
          ∙ (λ i. transferred d (sym first i) t.ptr t.n t.mem x);
      mem = same;
      clear = λ x c. Clear-advance t iov rest first d x size mem le fits c;
    };
    shorter = elim (dec_lt size t.n) [
      | yes more ↦ inr (rw first ground (arith, whole, more))
      | no all ↦ inl (omega arith)
    ];
  }

-- How a transfer on kernel buffers ends.
abbrev pub Done : Direction → Transfer → Result (Transfer × ℕ) → Type 0
Done d t r =
    (t' : Transfer) × (r ≡ ok (t', 0))
    × Progress d t t'
    × IsValid t'.uio
    × ((t'.n ≡ 0) ⊎ (t'.uio.uio_resid ≡ 0))
    × ((x : ℕ) → t'.mem x ≡ transferred d t.uio.uio_iov t.ptr t.n t.mem x)

unmoved :
    (d : Direction) (t : Transfer)
    → (t.n ≡ 0) ⊎ (total_len t.uio.uio_iov ≡ 0)
    → (x : ℕ) → t.mem x ≡ transferred d t.uio.uio_iov t.ptr t.n t.mem x
unmoved d t nothing x = sym (transferred-nothing d t.uio.uio_iov t.ptr t.n t.mem x nothing)

List-cases : (l : List Iovec) → (l ≡ []) ⊎ ((iov : Iovec) × (rest : List Iovec) × (l ≡ iov ∷ rest))
List-cases [] = inl refl
List-cases (iov ∷ rest) = inr (iov, rest, refl)

ltb-false : (a b : ℕ) → ¬ (a < b) → ltb a b ≡ false
ltb-false a b h = ground arith

length_pos : (iovs : List Iovec) → 0 < total_len iovs → 0 < length iovs
length_pos [] h = h
length_pos (iov ∷ rest) h = omega arith

chunk_bounds :
    (n len : ℕ)
    → 0 < n
    → 0 < len
    → (chunk n len ≤ len)
      × (chunk n len ≤ n)
      × ((chunk n len ≡ len) ⊎ (chunk n len ≡ n))
      × (0 < chunk n len)
chunk_bounds n len hn hl = elim (dec_lt n len) [
  | yes lt ↦ rw (lt→ltb n len lt) (omega arith, omega arith, inr refl, hn)
  | no ge ↦ rw (ltb-false n len ge) (omega arith, omega arith, inl refl, hl)
]

module _ (access : ℕ → Bool) where
  move_bytes_sys :
      (d : Direction) (t : Transfer) (iov : Iovec) (rest : List Iovec) (size : ℕ)
      → t.uio.uio_iov ≡ iov ∷ rest
      → size ≤ iov.iov_len
      → size ≤ t.n
      → (m : Bytes) × (move_bytes access sys d t.ptr iov.iov_base size t.mem ≡ (m, 0))
        × ((x : ℕ) → Clear d x t → m x ≡ t.mem x)
        × ((x : ℕ) → m x ≡ block d t.ptr iov.iov_base size t.mem x)
  unfolding move_bytes
  move_bytes_sys read t iov rest size first le fits = (
    (memmove (λ _. true) iov.iov_base t.ptr size t.mem).0,
    refl,
    λ x c.
        let here = (rw first at c).0 in
        memmove_outside (λ _. true) iov.iov_base t.ptr size t.mem x (omega arith),
    (memmove-Copies (λ _. true) (λ _. refl) iov.iov_base t.ptr size t.mem).1,
  )
  move_bytes_sys write t iov rest size first le fits = (
    (memmove (λ _. true) t.ptr iov.iov_base size t.mem).0,
    refl,
    λ x c. memmove_outside (λ _. true) t.ptr iov.iov_base size t.mem x (omega arith),
    (memmove-Copies (λ _. true) (λ _. refl) t.ptr iov.iov_base size t.mem).1,
  )

  -- What one turn does, whatever comes after it.
  turn-Turned :
      (d : Direction) (t : Transfer) (iov : Iovec) (rest : List Iovec)
      (continue_with : Transfer → Result (Transfer × ℕ))
      → t.uio.uio_iov ≡ iov ∷ rest
      → t.uio.uio_segflg ≡ sys
      → t.uio.uio_rw ≡ d
      → IsValid t.uio
      → 0 < t.n
      → 0 < t.uio.uio_resid
      → (t' : Transfer) × Turned d t t'
        × (turn access t (iov ∷ rest) continue_with ≡ continue_with t')
  unfolding turn moved
  turn-Turned d t iov rest continue_with first seg dir v asked left = elim (dec_lt 0 iov.iov_len) [
    | no empty ↦
        let more = ==-false (fewer t.uio.uio_iovcnt) 0 (λ e. omega (
          arith,
          counted d t iov rest first v,
          held d t iov rest first v,
          length_pos rest,
          v.short,
        )) in
        let nothing : chunk t.n iov.iov_len ≡ 0 = ground arith in
        (
          next_iovec t rest,
          next_iovec-Turned d t iov rest first v (omega arith),
          rw (nothing, more),
        )
    | yes some_left ↦
        let size = chunk t.n iov.iov_len in
        let (le, fits, whole, pos) = chunk_bounds t.n iov.iov_len asked some_left in
        let (m, e, same, copied) = move_bytes_sys d t iov rest size first le fits in
        let moves : move_bytes access t.uio.uio_segflg t.uio.uio_rw t.ptr iov.iov_base size t.mem
            ≡ (m, 0) =
          (λ i. move_bytes access (seg i) (dir i) t.ptr iov.iov_base size t.mem) ∙ e in
        (
          advance t iov rest size m,
          advance-Turned d t iov rest first v size m pos le fits refl same copied,
          rw (==-false size 0 (λ z. omega arith), moves),
        )
  ]

  uiomove_loop-Done :
      (d : Direction) (fuel : ℕ) (t : Transfer)
      → t.uio.uio_segflg ≡ sys
      → t.uio.uio_rw ≡ d
      → IsValid t.uio
      → 0 < fuel
      → (t.n ≡ 0) ⊎ (turns t.uio.uio_iov < fuel)
      → Done d t (uiomove_loop access fuel t)
  unfolding uiomove_loop
  uiomove_loop-Done d zero t seg dir v pos enough = absurd (omega arith)
  uiomove_loop-Done d (suc fuel) t seg dir v pos enough = elim (dec_lt 0 t.n) [
    | no none_asked ↦
        (t, ground arith, Progress-refl d t, v, inl (omega arith), unmoved d t (inl (omega arith)))
    | yes asked ↦ elim (dec_lt 0 t.uio.uio_resid) [
      | no none_left ↦ (
        t,
        ground arith,
        Progress-refl d t,
        v,
        inr (omega arith),
        unmoved d t (inr (omega (arith, v.held))),
      )
      | yes left ↦ elim (List-cases t.uio.uio_iov) [
        | inl empty ↦ absurd (omega (arith, ap total_len empty, v.held))
        | inr (iov, rest, first) ↦
            let (t', turned, e) =
              turn-Turned d t iov rest (uiomove_loop access fuel) first seg dir v asked left in
            let busy : 0 < turns t.uio.uio_iov = rw first (ground arith) in
            let p = turned.progress in
            let (t'', run, q, v'', end, moved_all) =
              uiomove_loop-Done d fuel t' (p.segflg ∙ seg) (p.direction ∙ dir) turned.valid
                (omega arith) (omega (arith, turned.shorter)) in
            (
              t'',
              rw (lt→ltb 0 t.n asked, lt→ltb 0 t.uio.uio_resid left)
                  ((λ i. turn access t (first i) (uiomove_loop access fuel)) ∙ e ∙ run),
              Progress-trans p q,
              v'',
              end,
              λ x. moved_all x ∙ p.carried x,
            )
      ]
    ]
  ]

  -- uiomove on kernel buffers that hold as much as the residue says, with an address space of NULL and
  -- a residue and a count of buffers that fit 32 bits, in either direction, ends with result 0, its
  -- loop within two turns a buffer. Memory is then as after dealing the caller's n bytes out to the
  -- buffers in order, each filled before the next, block by block, or for a write after gathering them
  -- from the buffers in order; the pointer and the offset grow and the residue and the count of bytes
  -- shrink by what was transferred, which is all that was asked for unless the residue is then 0; the
  -- cursor stays valid; and memory changes in the buffers alone for a read, in the caller's block alone
  -- for a write.
  pub uiomove-Done :
      (here : Option ℕ) (ptr n : ℕ) (uio : Uio) (mem : Bytes)
      → uio.uio_segflg ≡ sys
      → uio.uio_space ≡ none
      → IsValid uio
      → Done uio.uio_rw
          (record { mem = mem; ptr = ptr; n = n; uio = uio })
          (uiomove access here ptr n uio mem)
  unfolding uiomove space_matches
  uiomove-Done here ptr n uio mem seg space v =
      let matches : space_matches uio.uio_segflg uio.uio_space here ≡ true =
        λ i. space_matches (seg i) (space i) here in
      let t : Transfer = record { mem = mem; ptr = ptr; n = n; uio = uio } in
      rw matches (
        uiomove_loop-Done uio.uio_rw (2 * length uio.uio_iov + 1) t seg refl v (omega arith)
          (inr (omega (arith, turns-le uio.uio_iov))))

  -- On a buffer that uio_kinit set up for a read, uiomove of no more bytes than it holds returns 0
  -- with the caller's bytes in the buffer, whatever the overlap, and all other bytes unchanged, the
  -- residue less and the offset more by that number.
  pub uiomove-uio_kinit :
      (here : Option ℕ) (ptr n kbuf len pos : ℕ) (mem : Bytes)
      → n ≤ len
      → len < 4294967296
      → (t : Transfer) × (uiomove access here ptr n (uio_kinit kbuf len pos read) mem ≡ ok (t, 0))
        × (t.uio.uio_resid ≡ len - n)
        × (t.uio.uio_offset ≡ pos + n)
        × ((x : ℕ) → t.mem x ≡ store n kbuf ptr mem x)
  unfolding uiomove uiomove_loop turn moved advance uio_kinit move_bytes store
  uiomove-uio_kinit here ptr zero kbuf len pos mem fits word = (
    record { mem = mem; ptr = ptr; n = 0; uio = uio_kinit kbuf len pos read },
    refl,
    omega arith,
    omega arith,
    λ x. ground arith,
  )
  uiomove-uio_kinit here ptr (suc n) kbuf len pos mem fits word =
      let m = (memmove (λ _. true) kbuf ptr (suc n) mem).0 in
      let t : Transfer = record {
        mem = mem;
        ptr = ptr;
        n = suc n;
        uio = uio_kinit kbuf len pos read;
      } in
      let whole : chunk (suc n) len ≡ suc n = ground arith in
      let over : suc n - suc n ≡ 0 = omega arith in
      let done = lt→ltb 0 (suc n) (omega arith) in
      let space = lt→ltb 0 len (omega arith) in
      (
        advance t (record { iov_base = kbuf; iov_len = len }) [] (suc n) m,
        rw (done, space, whole, over, ==-false (suc n) 0 (λ z. omega arith)),
        omega arith,
        refl,
        (memmove-Copies (λ _. true) (λ _. refl) kbuf ptr (suc n) mem).1,
      )
