-- ===== src/Clib/Number.antt =====
-- atoi of common/libc/stdlib over byte memory. As in Clib.Text, a loop reads at most `limit` bytes.
pub mod Laws
use os.Base.{
  ℕ, zero, suc, ◌+◌, ◌-◌, ◌*◌, ◌%◌, Bool, true, false, ◌||◌, if◌then◌else◌, Option, none, some,
  Result, ok, fault, ◌>>=◌, ltb, ◌==◌,
}
use os.Clib.Move.{Bytes}
use os.Clib.Text.{strchr}

-- `static const char digits[] = "0123456789"`, at address 0 of a memory of its own.
unfoldable pub digits : Bytes
digits i = if ltb i 10 then 48 + i else 0

-- `-val` of an unsigned word.
unfoldable pub negated : Bool → ℕ → ℕ
negated true val = (4294967296 - val) % 4294967296
negated false val = val

module _ (mem : Bytes) where
  unfoldable pub skip_blanks : ℕ → ℕ → Result ℕ
  skip_blanks zero s = fault
  skip_blanks (suc limit) s =
      let rest = skip_blanks limit (s + 1) in if mem s == 32 || mem s == 9 then rest else ok s

  -- `neg`, and where the digits begin.
  unfoldable pub read_sign : ℕ → Bool × ℕ
  read_sign s =
      if mem s == 45 then (true, s + 1) else if mem s == 43 then (false, s + 1) else (false, s)

  -- What the place of a character in `digits` makes of `val`, an unsigned word.
  unfoldable pub add_digit : ℕ → (ℕ → Result ℕ) → Option ℕ → Result ℕ
  add_digit val rest none = ok val
  add_digit val rest (some digit) = rest ((val * 10 + digit) % 4294967296)

  unfoldable pub read_digits : ℕ → ℕ → ℕ → Result ℕ
  unfolding add_digit
  read_digits zero s val = fault
  read_digits (suc limit) s val =
      let rest = read_digits limit (s + 1) in
      if mem s == 0 then ok val else (strchr digits 11 0 (mem s) >>= add_digit val rest)

  unfoldable pub atoi : ℕ → ℕ → Result ℕ
  unfolding skip_blanks read_sign read_digits negated
  atoi limit s = do
    p ← skip_blanks limit s
    val ← read_digits limit (read_sign p).1 0
    ok (negated ((read_sign p).0) val)
