-- ===== src/Usermem/Uio.antt =====
-- kern/lib/uio.c: the cursor over a list of buffers that read and write calls pass around.
pub mod Sums
pub mod Laws
use os.Base.{
  ◌>>◌, ℕ, zero, suc, ◌+◌, ◌-◌, ◌*◌, ◌%◌, ◌<◌, ◌≡◌, Bool, true, false, ◌&&◌, if◌then◌else◌, Option,
  none, some, List, [], ◌∷◌, Result, ok, panic, fault, ◌>>=◌, kassert, ltb, ◌==◌, length,
}
use os.Clib.Move.{Bytes, memmove}
use os.Usermem.Copyinout.{copyin, copyout}

-- UIO_READ moves from the kernel to the buffers, UIO_WRITE the other way.
pub data Direction : Type 0 where
  read : Direction
  write : Direction

pub data Segment : Type 0 where
  useri : Segment
  user : Segment
  sys : Segment

pub record Iovec : Type 0 where
  pub iov_base : ℕ
  pub iov_len : ℕ

-- `uio_iov` points to the first of the buffers that are left.
pub record Uio : Type 0 where
  pub uio_iov : List Iovec
  pub uio_iovcnt : ℕ
  pub uio_offset : ℕ
  pub uio_resid : ℕ
  pub uio_segflg : Segment
  pub uio_rw : Direction
  pub uio_space : Option ℕ

-- `memory`, the caller's buffer and how much of it is left, and the cursor.
pub record Transfer : Type 0 where
  pub mem : Bytes
  pub ptr : ℕ
  pub n : ℕ
  pub uio : Uio

-- Behind the switch: the counters of a move of `size` bytes. `size_t` is 32 bits wide.
unfoldable pub advance : Transfer → Iovec → List Iovec → ℕ → Bytes → Transfer
advance t iov rest size mem = record {
  mem = mem;
  ptr = t.ptr + size;
  n = t.n - size;
  uio = record t.uio {
    uio_iov = record { iov_base = iov.iov_base + size; iov_len = iov.iov_len - size } ∷ rest;
    uio_resid = (t.uio.uio_resid + 4294967296 - size) % 4294967296;
    uio_offset = t.uio.uio_offset + size;
  };
}

-- `uio_iov++` and `uio_iovcnt--` of an unsigned count
abbrev pub fewer : ℕ → ℕ
fewer count = (count + 4294967295) % 4294967296

unfoldable pub next_iovec : Transfer → List Iovec → Transfer
next_iovec t rest = record t {
  uio = record t.uio { uio_iov = rest; uio_iovcnt = fewer t.uio.uio_iovcnt };
}

unfoldable pub moved :
    Transfer
    → Iovec
    → List Iovec
    → ℕ
    → Bytes × ℕ
    → (Transfer → Result (Transfer × ℕ))
    → Result (Transfer × ℕ)
moved t iov rest size (mem, zero) continue_with = continue_with (advance t iov rest size mem)
moved t iov rest size (mem, suc result) continue_with = ok (record t { mem = mem }, suc result)

module _ (access : ℕ → Bool) where
  -- The switch on the segment: `size` bytes between `ptr` and `base`, and the error code.
  unfoldable pub move_bytes : Segment → Direction → ℕ → ℕ → ℕ → Bytes → Bytes × ℕ
  move_bytes sys read ptr base size mem = ((memmove (λ _. true) base ptr size mem).0, 0)
  move_bytes sys write ptr base size mem = ((memmove (λ _. true) ptr base size mem).0, 0)
  move_bytes _ read ptr base size mem = copyout access ptr base size mem
  move_bytes _ write ptr base size mem = copyin access base ptr size mem

  -- One turn of the loop of uiomove at the buffers given.
  unfoldable pub turn :
      Transfer → List Iovec → (Transfer → Result (Transfer × ℕ)) → Result (Transfer × ℕ)
  unfolding move_bytes advance next_iovec moved
  turn t [] continue_with = fault
  turn t (iov ∷ rest) continue_with =
      let size = if ltb t.n iov.iov_len then t.n else iov.iov_len in
      if size == 0
      then (if fewer t.uio.uio_iovcnt == 0 then panic else continue_with (next_iovec t rest))
      else moved t iov rest size
          (move_bytes t.uio.uio_segflg t.uio.uio_rw t.ptr iov.iov_base size t.mem) continue_with

  -- The loop of uiomove.
  unfoldable pub uiomove_loop : ℕ → Transfer → Result (Transfer × ℕ)
  unfolding turn
  uiomove_loop zero t = fault
  uiomove_loop (suc fuel) t =
      if ltb 0 t.n && ltb 0 t.uio.uio_resid
      then turn t t.uio.uio_iov (uiomove_loop fuel)
      else ok (t, 0)

-- The KASSERT on the address space; `here` is the current process's.
unfoldable pub space_matches : Segment → Option ℕ → Option ℕ → Bool
space_matches sys none here = true
space_matches sys (some as_given) here = false
space_matches _ none none = true
space_matches _ (some a) (some b) = a == b
space_matches _ _ _ = false

is_read : Direction → Bool
is_read read = true
is_read write = false

-- What uiomovezeros makes of a call of uiomove.
after_zeros : Transfer × ℕ → (Uio → Bytes → Result (Bytes × Uio × ℕ)) → Result (Bytes × Uio × ℕ)
after_zeros (t, zero) continue_with = continue_with t.uio t.mem
after_zeros (t, suc result) continue_with = ok (t.mem, t.uio, suc result)

module _ (access : ℕ → Bool) (here : Option ℕ) where
  -- A turn moves to the next buffer, empties one, or is the last.
  unfoldable pub uiomove : ℕ → ℕ → Uio → Bytes → Result (Transfer × ℕ)
  unfolding space_matches uiomove_loop
  uiomove ptr n uio mem = do
    kassert (space_matches uio.uio_segflg uio.uio_space here)
    uiomove_loop access (2 * length uio.uio_iov + 1)
        (record { mem = mem; ptr = ptr; n = n; uio = uio })

  -- The loop of uiomovezeros, 16 bytes of zeros at a time, from the static array `zeros`, here at `zero_block`.
  unfoldable pub uiomovezeros_loop : ℕ → ℕ → ℕ → Uio → Bytes → Result (Bytes × Uio × ℕ)
  unfolding uiomove after_zeros
  uiomovezeros_loop zero zero_block n uio mem = fault
  uiomovezeros_loop (suc fuel) zero_block n uio mem =
      let amt = if ltb n 16 then n else 16 in
      let rest =
        λ (r : Transfer × ℕ). after_zeros r (uiomovezeros_loop fuel zero_block (n - amt)) in
      if n == 0 then ok (mem, uio, 0) else uiomove zero_block amt uio mem >>= rest

  unfoldable pub uiomovezeros : ℕ → ℕ → Uio → Bytes → Result (Bytes × Uio × ℕ)
  unfolding uiomovezeros_loop is_read
  uiomovezeros zero_block n uio mem = do
    kassert (is_read uio.uio_rw)
    uiomovezeros_loop (n + 1) zero_block n uio mem

-- uio_kinit: one buffer of the kernel.
unfoldable pub uio_kinit : ℕ → ℕ → ℕ → Direction → Uio
uio_kinit kbuf len pos rw_given = record {
  uio_iov = record { iov_base = kbuf; iov_len = len } ∷ [];
  uio_iovcnt = 1;
  uio_offset = pos;
  uio_resid = len;
  uio_segflg = sys;
  uio_rw = rw_given;
  uio_space = none;
}
