-- ===== src/Clib/Move/Loops.antt =====
-- The counted loops of memcpy and memmove (common/libc/string) against a copy made at once.
use os.Base.{
  ℕ, zero, suc, ◌+◌, ◌-◌, ◌*◌, ◌≤◌, ◌<◌, ◌≡◌, ◌∙◌, refl, ◌⊎◌, inl, inr, Bool, true, arith,
}
use os.Clib.Move.{Bytes, store, copy_up, copy_down}

-- A round up, then a one-time copy of what lies above it.
store-store_up :
    (width len d s : ℕ) (mem : Bytes) (x : ℕ)
    → (d ≤ s) ⊎ (s + (len + width) ≤ d)
    → store len (d + width) (s + width) (store width d s mem) x ≡ store (len + width) d s mem x
unfolding store
store-store_up width len d s mem x (inl le) = ground arith
store-store_up width len d s mem x (inr apart) = ground arith

store-store_down :
    (width len d s : ℕ) (mem : Bytes) (x : ℕ)
    → s ≤ d
    → store len d s (store width (d + len) (s + len) mem) x ≡ store (len + width) d s mem x
unfolding store
store-store_down width len d s mem x le = ground arith

pub store_ext :
    (width d s : ℕ) (mem mem' : Bytes)
    → ((x : ℕ) → mem x ≡ mem' x)
    → (x : ℕ) → store width d s mem x ≡ store width d s mem' x
unfolding store
store_ext width d s mem mem' same x = ground (arith, same x, same (s + (x - d)))

pub store-nothing : (d s : ℕ) (mem : Bytes) (x : ℕ) → mem x ≡ store 0 d s mem x
unfolding store
store-nothing d s mem x = ground arith

-- `r` ended without a trap, and memory is as after a copy of `len` bytes at once.
abbrev pub Copies : ℕ → ℕ → ℕ → Bytes → Bytes × Bool → Type 0
Copies len d s mem r = (r.1 ≡ true) × ((x : ℕ) → r.0 x ≡ store len d s mem x)

module _ (access : ℕ → Bool) (open_to : (a : ℕ) → access a ≡ true) (width dst src : ℕ) where
  pub copy_up-Copies :
      (rounds at : ℕ) (mem : Bytes)
      → (dst ≤ src) ⊎ (src + width * rounds ≤ dst)
      → Copies
          (width * rounds)
          (dst + at)
          (src + at)
          mem
          (copy_up access width dst src rounds at mem)
  unfolding copy_up
  copy_up-Copies zero at mem le =
      let e : width * 0 ≡ 0 = omega arith in
      (refl, λ x. rw e (store-nothing (dst + at) (src + at) mem x))
  copy_up-Copies (suc rounds) at mem apart =
      let e : width * suc rounds ≡ width * rounds + width = grind arith in
      let d : dst + (at + width) ≡ dst + at + width = omega arith in
      let s : src + (at + width) ≡ src + at + width = omega arith in
      let (done, same) =
        copy_up-Copies rounds (at + width) (store width (dst + at) (src + at) mem) (omega arith) in
      rw (open_to (dst + at), open_to (src + at))
        (
          done,
          λ x. rw e (
              rw (d, s) at (same x)
              ∙ store-store_up width (width * rounds) (dst + at) (src + at) mem x (omega arith)),
        )

  pub copy_up_from_start :
      (rounds : ℕ) (mem : Bytes)
      → (dst ≤ src) ⊎ (src + width * rounds ≤ dst)
      → Copies (width * rounds) dst src mem (copy_up access width dst src rounds 0 mem)
  copy_up_from_start rounds mem le =
      let d : dst + 0 ≡ dst = omega arith in
      let s : src + 0 ≡ src = omega arith in rw (d, s) at (copy_up-Copies rounds 0 mem le)

  pub copy_down-Copies :
      (rounds : ℕ) (mem : Bytes)
      → src ≤ dst
      → Copies (width * rounds) dst src mem (copy_down access width dst src rounds mem)
  unfolding copy_down
  copy_down-Copies zero mem le =
      let e : width * 0 ≡ 0 = omega arith in (refl, λ x. rw e (store-nothing dst src mem x))
  copy_down-Copies (suc rounds) mem le =
      let at = width * rounds in
      let (done, same) = copy_down-Copies rounds (store width (dst + at) (src + at) mem) le in
      let e : width * suc rounds ≡ width * rounds + width = grind arith in
      rw (open_to (dst + at), open_to (src + at))
        (done, λ x. rw e (same x ∙ store-store_down width at dst src mem x le))

-- Trap or not, nothing is written outside the destination.
pub copy_up_outside :
    (access : ℕ → Bool) (width dst src rounds at : ℕ) (mem : Bytes) (x : ℕ)
    → (x < dst + at) ⊎ (dst + at + width * rounds ≤ x)
    → (copy_up access width dst src rounds at mem).0 x ≡ mem x
unfolding copy_up store
copy_up_outside access width dst src zero at mem x out = refl
copy_up_outside access width dst src (suc rounds) at mem x out =
    let e : width * suc rounds ≡ width * rounds + width = grind arith in
    let rest =
      copy_up_outside access width dst src rounds (at + width)
        (store width (dst + at) (src + at) mem) x (omega arith) in
    ground (arith, rest)

pub copy_down_outside :
    (access : ℕ → Bool) (width dst src rounds : ℕ) (mem : Bytes) (x : ℕ)
    → (x < dst) ⊎ (dst + width * rounds ≤ x)
    → (copy_down access width dst src rounds mem).0 x ≡ mem x
unfolding copy_down store
copy_down_outside access width dst src zero mem x out = refl
copy_down_outside access width dst src (suc rounds) mem x out =
    let e : width * suc rounds ≡ width * rounds + width = grind arith in
    let at = width * rounds in
    let rest =
      copy_down_outside access width dst src rounds (store width (dst + at) (src + at) mem) x
        (omega arith) in
    ground (arith, rest)
