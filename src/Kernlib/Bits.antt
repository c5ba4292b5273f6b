-- ===== src/Kernlib/Bits.antt =====
-- Single bits of a byte: what setting, clearing and searching do, checked on every byte.
use Prim.Native.Nat.{bit_and, bit_or}
use os.Base.{
  ℕ_discrete, ◌≤◌, ℕ, zero, suc, ◌+◌, ◌-◌, ◌^◌, ◌<◌, ◌≡◌, refl, Bool, true, false, ◌&&◌, Option,
  none, some, ltb, ◌==◌, if◌then◌else◌, arith, not,
}

-- `(word & mask) == 0` for the mask of bit `o`
unfoldable pub is_clear : ℕ → ℕ → Bool
is_clear w o = bit_and w (2 ^ o) == 0

-- `word |= mask`
unfoldable pub set_bit : ℕ → ℕ → ℕ
set_bit w o = bit_or w (2 ^ o)

-- `word &= ~mask`, in an unsigned char
unfoldable pub clear_bit : ℕ → ℕ → ℕ
clear_bit w o = bit_and w (255 - 2 ^ o)

-- `for (offset = 0; offset < 8; offset++) if ((word & mask) == 0) ...`
unfoldable pub find_clear : (fuel offset word : ℕ) → Option ℕ
unfolding is_clear
find_clear zero offset word = none
find_clear (suc fuel) offset word =
    if is_clear word offset then some offset else find_clear fuel (offset + 1) word

-- Whether a test passes on the `left` numbers from `from` on.
passes : (test : ℕ → Bool) (left from : ℕ) → Bool
passes test zero from = true
passes test (suc left) from = if test from then passes test left (from + 1) else false

passes_at :
    (test : ℕ → Bool) (left from q : ℕ)
    → from ≤ q
    → q < from + left
    → passes test left from ≡ true
    → test q ≡ true
unfolding passes
passes_at test zero from q lo hi h = absurd (omega arith)
passes_at test (suc left) from q lo hi h = elim (ℕ_discrete from q) [
  | yes e ↦ rw (← e) (ground arith)
  | no ne ↦ passes_at test left (from + 1) q (omega arith) (omega arith) (ground arith)
]

passes_below : (test : ℕ → Bool) (n q : ℕ) → passes test n 0 ≡ true → q < n → test q ≡ true
passes_below test n q h lt = passes_at test n 0 q (omega arith) (omega arith) h

abbrev same : Bool → Bool → Bool
same true b = b
same false b = not b

same→eq : (a b : Bool) → same a b ≡ true → a ≡ b
same→eq a b h = ground arith

-- A statement about every byte and two of its bits.
abbrev ByteTable : (ℕ → ℕ → ℕ → Bool) → Type 0
ByteTable p = passes (λ w. passes (λ o. passes (λ q. p w o q) 8 0) 8 0) 256 0 ≡ true

byte_table :
    (p : ℕ → ℕ → ℕ → Bool) → ByteTable p → (w o q : ℕ) → w < 256 → o < 8 → q < 8 → p w o q ≡ true
byte_table p t w o q hw ho hq =
    let row = passes_below (λ w. passes (λ o. passes (λ q. p w o q) 8 0) 8 0) 256 w t hw in
    let cell = passes_below (λ o. passes (λ q. p w o q) 8 0) 8 o row ho in
    passes_below (λ q. p w o q) 8 q cell hq

set_table : ByteTable λ w o q.
    same (is_clear (set_bit w o) q) (if o == q then false else is_clear w q)
    && ltb (set_bit w o) 256
unfolding passes is_clear set_bit
set_table = refl

clear_table : ByteTable λ w o q.
    same (is_clear (clear_bit w o) q) (if o == q then true else is_clear w q)
    && ltb (clear_bit w o) 256
unfolding passes is_clear clear_bit
clear_table = refl

-- Of the bits below the one found none is clear.
abbrev pub found : ℕ → Option ℕ → ℕ → Bool
found w none q = (w == 255) && not (is_clear w q)
found w (some o) q =
    not (w == 255) && is_clear w o && ltb o 8 && (if ltb q o then not (is_clear w q) else true)

find_table : ByteTable λ w o q. found w (find_clear 8 0 w) q
unfolding passes find_clear
find_table = refl

module _ (w o q : ℕ) (hw : w < 256) (ho : o < 8) (hq : q < 8) where
  pub is_clear-set_bit : is_clear (set_bit w o) q ≡ (if o == q then false else is_clear w q)
  is_clear-set_bit = same→eq _ _ (ground (arith, byte_table _ set_table w o q hw ho hq))

  pub set_bit-lt : set_bit w o < 256
  set_bit-lt = ground (arith, byte_table _ set_table w o q hw ho hq)

  pub is_clear-clear_bit : is_clear (clear_bit w o) q ≡ (if o == q then true else is_clear w q)
  is_clear-clear_bit = same→eq _ _ (ground (arith, byte_table _ clear_table w o q hw ho hq))

  pub clear_bit-lt : clear_bit w o < 256
  clear_bit-lt = ground (arith, byte_table _ clear_table w o q hw ho hq)

pub find_clear_lem : (w q : ℕ) → w < 256 → q < 8 → found w (find_clear 8 0 w) q ≡ true
find_clear_lem w q hw hq = byte_table _ find_table w 0 q hw (omega arith) hq

zero_table : passes (is_clear 0) 8 0 ≡ true
unfolding passes is_clear
zero_table = refl

pub is_clear-zero : (q : ℕ) → q < 8 → is_clear 0 q ≡ true
is_clear-zero q lt = passes_below (is_clear 0) 8 q zero_table lt
