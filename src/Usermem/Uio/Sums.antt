-- ===== src/Usermem/Uio/Sums.antt =====
-- The buffers of a uio (kern/lib/uio.c): how many bytes they hold, and where.
use os.Base.{
  sym, ltb, refl, ◌∙◌, if◌then◌else◌, ◌==◌, ◌*◌, ℕ, ◌+◌, ◌-◌, ◌≤◌, ◌<◌, ◌≡◌, ◌⊎◌, List, [], ◌∷◌,
  length, arith,
}
use os.Clib.Move.{Bytes, store}
use os.Clib.Move.Loops.{store_ext, store-nothing}
use os.Usermem.Uio.{Iovec, Uio, Transfer, Direction, read, write}

abbrev pub total_len : List Iovec → ℕ
total_len [] = 0
total_len (iov ∷ rest) = iov.iov_len + total_len rest

-- Address `x` lies in none of the buffers.
abbrev pub Outside : ℕ → List Iovec → Type 0
Outside x [] = Unit
Outside x (iov ∷ rest) = ((x < iov.iov_base) ⊎ (iov.iov_base + iov.iov_len ≤ x)) × Outside x rest

-- As uio.h asks: the residue is what the buffers hold, and their number is given.
pub record IsValid (uio : Uio) : Type 0 where
  pub counted : uio.uio_iovcnt ≡ length uio.uio_iov
  pub held : uio.uio_resid ≡ total_len uio.uio_iov
  pub word : uio.uio_resid < 4294967296
  pub short : uio.uio_iovcnt < 4294967296

-- What a transfer may not touch: a read leaves all but the buffers alone, a write all but the caller's
-- `n` bytes.
abbrev pub Clear : Direction → ℕ → Transfer → Type 0
Clear read x t = Outside x t.uio.uio_iov
Clear write x t = (x < t.ptr) ⊎ (t.ptr + t.n ≤ x)

-- How much of `n` bytes goes to or from a buffer of `len`.
abbrev pub chunk : ℕ → ℕ → ℕ
chunk n len = if ltb n len then n else len

-- One block between the caller's bytes and a buffer, copied at once.
abbrev pub block : Direction → ℕ → ℕ → ℕ → Bytes → Bytes
block read ptr base size mem = store size base ptr mem
block write ptr base size mem = store size ptr base mem

-- Memory after `n` bytes from `ptr` on were dealt out to the buffers in order, each filled before the
-- next, or, for a write, gathered from them in order.
unfoldable pub transferred : Direction → List Iovec → ℕ → ℕ → Bytes → Bytes
transferred d [] ptr n mem = mem
transferred d (iov ∷ rest) ptr n mem =
    let size = chunk n iov.iov_len in
    transferred d rest (ptr + size) (n - size) (block d ptr iov.iov_base size mem)

block_ext :
    (d : Direction) (ptr base size : ℕ) (mem mem' : Bytes)
    → ((x : ℕ) → mem x ≡ mem' x)
    → (x : ℕ) → block d ptr base size mem x ≡ block d ptr base size mem' x
block_ext read ptr base size mem mem' same x = store_ext size base ptr mem mem' same x
block_ext write ptr base size mem mem' same x = store_ext size ptr base mem mem' same x

block-nothing :
    (d : Direction) (ptr base : ℕ) (mem : Bytes) (x : ℕ) → block d ptr base 0 mem x ≡ mem x
block-nothing read ptr base mem x = sym (store-nothing base ptr mem x)
block-nothing write ptr base mem x = sym (store-nothing ptr base mem x)

pub transferred_ext :
    (d : Direction) (iovs : List Iovec) (ptr n : ℕ) (mem mem' : Bytes)
    → ((x : ℕ) → mem x ≡ mem' x)
    → (x : ℕ) → transferred d iovs ptr n mem x ≡ transferred d iovs ptr n mem' x
unfolding transferred
transferred_ext d [] ptr n mem mem' same x = same x
transferred_ext d (iov ∷ rest) ptr n mem mem' same x =
    let size = chunk n iov.iov_len in
    transferred_ext d rest (ptr + size) (n - size) (block d ptr iov.iov_base size mem)
      (block d ptr iov.iov_base size mem') (block_ext d ptr iov.iov_base size mem mem' same) x

-- A buffer that takes nothing is passed over.
pub transferred-pass :
    (d : Direction) (iov : Iovec) (rest : List Iovec) (ptr n : ℕ) (mem : Bytes) (x : ℕ)
    → chunk n iov.iov_len ≡ 0
    → transferred d (iov ∷ rest) ptr n mem x ≡ transferred d rest ptr n mem x
unfolding transferred
transferred-pass d iov rest ptr n mem x none_left =
    let p : ptr + 0 ≡ ptr = omega arith in
    let m : n - 0 ≡ n = omega arith in
    rw (none_left, p, m)
      (transferred_ext d rest ptr n (block d ptr iov.iov_base 0 mem) mem
        (block-nothing d ptr iov.iov_base mem) x)

pub transferred-block :
    (d : Direction) (iov : Iovec) (rest : List Iovec) (ptr n : ℕ) (mem mem' : Bytes)
    → ((x : ℕ) → mem' x ≡ block d ptr iov.iov_base (chunk n iov.iov_len) mem x)
    → (x : ℕ)
    → transferred d rest (ptr + chunk n iov.iov_len) (n - chunk n iov.iov_len) mem' x
      ≡ transferred d (iov ∷ rest) ptr n mem x
unfolding transferred
transferred-block d iov rest ptr n mem mem' same x =
    transferred_ext d rest (ptr + chunk n iov.iov_len) (n - chunk n iov.iov_len) mem'
      (block d ptr iov.iov_base (chunk n iov.iov_len) mem) same x

-- Where nothing is asked for or the buffers are empty, nothing changes.
pub transferred-nothing :
    (d : Direction) (iovs : List Iovec) (ptr n : ℕ) (mem : Bytes) (x : ℕ)
    → (n ≡ 0) ⊎ (total_len iovs ≡ 0)
    → transferred d iovs ptr n mem x ≡ mem x
unfolding transferred
transferred-nothing d [] ptr n mem x nothing = refl
transferred-nothing d (iov ∷ rest) ptr n mem x nothing =
    transferred-pass d iov rest ptr n mem x (ground (arith, nothing))
    ∙ transferred-nothing d rest ptr n mem x (omega (arith, nothing))

-- Part of a transfer in direction `d`, from `t` to `t'`: `t.n - t'.n` bytes have moved, and what is left
-- to do from `t'` comes to the same memory as all of it from `t`.
pub record Progress (d : Direction) (t t' : Transfer) : Type 0 where
  pub fewer : t'.n ≤ t.n
  pub resid : t'.uio.uio_resid + (t.n - t'.n) ≡ t.uio.uio_resid
  pub offset : t'.uio.uio_offset ≡ t.uio.uio_offset + (t.n - t'.n)
  pub segflg : t'.uio.uio_segflg ≡ t.uio.uio_segflg
  pub direction : t'.uio.uio_rw ≡ t.uio.uio_rw
  pub space : t'.uio.uio_space ≡ t.uio.uio_space
  pub ptr : t'.ptr ≡ t.ptr + (t.n - t'.n)
  pub carried :
      (x : ℕ)
      → transferred d t'.uio.uio_iov t'.ptr t'.n t'.mem x
        ≡ transferred d t.uio.uio_iov t.ptr t.n t.mem x
  pub mem : (x : ℕ) → Clear d x t → t'.mem x ≡ t.mem x
  pub clear : (x : ℕ) → Clear d x t → Clear d x t'

pub Progress-refl : (d : Direction) (t : Transfer) → Progress d t t
Progress-refl d t = record {
  fewer = omega arith;
  resid = omega arith;
  offset = omega arith;
  segflg = refl;
  direction = refl;
  space = refl;
  ptr = omega arith;
  carried = λ x. refl;
  mem = λ x c. refl;
  clear = λ x c. c;
}

pub Progress-trans :
    {d : Direction} {t u v : Transfer} → Progress d t u → Progress d u v → Progress d t v
Progress-trans p q = record {
  fewer = omega arith;
  resid = omega arith;
  offset = omega arith;
  segflg = q.segflg ∙ p.segflg;
  direction = q.direction ∙ p.direction;
  space = q.space ∙ p.space;
  ptr = omega (arith, p.ptr, q.ptr, p.fewer, q.fewer);
  carried = λ x. q.carried x ∙ p.carried x;
  mem = λ x c. q.mem x (p.clear x c) ∙ p.mem x c;
  clear = λ x c. q.clear x (p.clear x c);
}

-- How many turns the loop of uiomove takes at most: two for a buffer that is not empty.
abbrev pub turns : List Iovec → ℕ
turns [] = 0
turns (iov ∷ rest) = if iov.iov_len == 0 then 2 * length rest + 1 else 2 * length rest + 2
