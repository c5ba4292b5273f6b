-- ===== src/Clib/Move.antt =====
-- memcpy and memmove of common/libc/string over byte memory, with the accesses that may trap.
pub mod Loops
pub mod Laws
use os.Base.{
  ◌*◌, ℕ, zero, suc, ◌+◌, ◌-◌, ◌%◌, ◌/◌, ◌≤◌, ◌<◌, Bool, true, false, ◌&&◌, if◌then◌else◌, ltb, leb,
  ◌==◌,
}

-- The bytes of memory by address.
abbrev pub Bytes : Type 0
Bytes = ℕ → ℕ

-- `*d = *s` for a char (`width` 1) or a long (`width` 4): the value is read before it is written.
unfoldable pub store : ℕ → ℕ → ℕ → Bytes → Bytes
store width d s mem x = if leb d x && ltb x (d + width) then mem (s + (x - d)) else mem x

-- The counted loops of both functions: `rounds` assignments from offset `at` on upwards, or from
-- offset `width * rounds` downwards. An access that traps ends the loop: the flag is then false.
module _ (access : ℕ → Bool) (width dst src : ℕ) where
  unfoldable pub copy_up : ℕ → ℕ → Bytes → Bytes × Bool
  copy_up zero at mem = (mem, true)
  copy_up (suc rounds) at mem =
      let rest = copy_up rounds (at + width) (store width (dst + at) (src + at) mem) in
      if access (dst + at) && access (src + at) then rest else (mem, false)

  unfoldable pub copy_down : ℕ → Bytes → Bytes × Bool
  copy_down zero mem = (mem, true)
  copy_down (suc rounds) mem =
      let at = width * rounds in
      let rest = copy_down rounds (store width (dst + at) (src + at) mem) in
      if access (dst + at) && access (src + at) then rest else (mem, false)

-- `(uintptr_t)dst % sizeof(long) == 0 && ...`
unfoldable pub word_aligned : ℕ → ℕ → ℕ → Bool
word_aligned dst src len = dst % 4 == 0 && src % 4 == 0 && len % 4 == 0

module _ (access : ℕ → Bool) (dst src len : ℕ) (mem : Bytes) where
  unfoldable pub memcpy : Bytes × Bool
  unfolding word_aligned copy_up
  memcpy =
      if word_aligned dst src len
      then copy_up access 4 dst src (len / 4) 0 mem
      else copy_up access 1 dst src len 0 mem

  unfoldable pub memmove : Bytes × Bool
  unfolding memcpy word_aligned copy_down
  memmove =
      if ltb dst src
      then memcpy
      else if word_aligned dst src len
      then copy_down access 4 dst src (len / 4) mem
      else copy_down access 1 dst src len mem
