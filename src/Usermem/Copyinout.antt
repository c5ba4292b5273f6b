-- ===== src/Usermem/Copyinout.antt =====
-- kern/vm/copyinout.c: copies to and from user addresses. `access a` tells whether the processor can
-- reach address `a`; where it cannot, the trap handler resumes at copyfail, and setjmp returns 1.
pub mod Laws
pub mod Strings
pub mod Bounds
use os.Base.{
  ℕ, zero, suc, ◌+◌, ◌-◌, ◌%◌, ◌^◌, ◌<◌, Bool, true, false, ◌&&◌, if◌then◌else◌, Option, none, some,
  ltb, leb, ◌==◌, efault, enametoolong,
}
use os.Clib.Move.{Bytes, store, memcpy}

-- USERSPACETOP
abbrev pub userspacetop : ℕ
userspacetop = 2147483648

-- copycheck: its result, and what it leaves in `stoplen`. Addresses are 32 bits wide.
unfoldable pub copycheck : ℕ → ℕ → ℕ × ℕ
copycheck userptr len =
    let top = (userptr + len + 4294967296 - 1) % 4294967296 in
    if ltb top userptr
    then (efault, len)
    else if leb userspacetop userptr
    then (efault, len)
    else if leb userspacetop top
    then (0, userspacetop - userptr)
    else (0, len)

-- What setjmp's second return makes of a trap.
unfoldable pub recover : Bytes × Bool → Bytes × ℕ
recover (mem, true) = (mem, 0)
recover (mem, false) = (mem, efault)

-- The checks that copyin and copyout begin with, then the guarded copy.
checked : ℕ × ℕ → ℕ → Bytes → Bytes × ℕ → Bytes × ℕ
checked (zero, stoplen) len mem copied = if stoplen == len then copied else (mem, efault)
checked (suc result, stoplen) len mem copied = (mem, suc result)

module _ (access : ℕ → Bool) where
  unfoldable pub copyin : ℕ → ℕ → ℕ → Bytes → Bytes × ℕ
  unfolding checked
  copyin usersrc dest len mem =
      checked (copycheck usersrc len) len mem (recover (memcpy access dest usersrc len mem))

  unfoldable pub copyout : ℕ → ℕ → ℕ → Bytes → Bytes × ℕ
  unfolding checked
  copyout src userdest len mem =
      checked (copycheck userdest len) len mem (recover (memcpy access userdest src len mem))

-- What a string copy leaves: memory, `*gotlen` where it was stored, and the result.
pub record Copied : Type 0 where
  pub mem : Bytes
  pub gotlen : Option ℕ
  pub result : ℕ

-- Behind the loop of copystr.
unfoldable pub too_long : ℕ → ℕ → Bytes → Copied
too_long maxlen stoplen mem = record {
  mem = mem;
  gotlen = none;
  result = if ltb stoplen maxlen then efault else enametoolong;
}

module _ (access : ℕ → Bool) (dest src maxlen stoplen : ℕ) where
  -- The loop of copystr at `i`, with `left` rounds until maxlen. A trap ends it in copyfail.
  unfoldable pub copystr_loop : ℕ → ℕ → Bytes → Copied
  unfolding too_long
  copystr_loop zero i mem = too_long maxlen stoplen mem
  copystr_loop (suc left) i mem =
      let mem' = store 1 (dest + i) (src + i) mem in
      let rest = copystr_loop left (i + 1) mem' in
      if ltb i stoplen
      then (if access (dest + i) && access (src + i)
          then (if mem' (src + i) == 0
              then record { mem = mem'; gotlen = some (i + 1); result = 0 }
              else rest)
          else record { mem = mem; gotlen = none; result = efault })
      else too_long maxlen stoplen mem

  unfoldable pub copystr : Bytes → Copied
  unfolding copystr_loop
  copystr mem = copystr_loop maxlen 0 mem

checked_string : ℕ × ℕ → Bytes → (ℕ → Copied) → Copied
checked_string (zero, stoplen) mem copy = copy stoplen
checked_string (suc result, stoplen) mem copy = record {
  mem = mem;
  gotlen = none;
  result = suc result;
}

module _ (access : ℕ → Bool) where
  unfoldable pub copyinstr : ℕ → ℕ → ℕ → Bytes → Copied
  unfolding checked_string
  copyinstr usersrc dest len mem =
      checked_string (copycheck usersrc len) mem
        (λ stoplen. copystr access dest usersrc len stoplen mem)

  unfoldable pub copyoutstr : ℕ → ℕ → ℕ → Bytes → Copied
  unfolding checked_string
  copyoutstr src userdest len mem =
      checked_string (copycheck userdest len) mem
        (λ stoplen. copystr access userdest src len stoplen mem)
