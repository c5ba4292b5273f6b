-- ===== src/Clib/Number/Laws.antt =====
-- atoi of common/libc/stdlib against the value of a row of digits.
use os.Base.{
  ==_iff, ==-false, ◌∙◌, ℕ, zero, suc, ◌+◌, ◌-◌, ◌*◌, ◌%◌, ◌≤◌, ◌<◌, ◌≡◌, ◌≢◌, refl, sym, ap, ◌⊎◌,
  inl, inr, Bool, true, false, none, some, ok, dec_lt, ℕ_discrete, arith,
}
use mathlib.Core.Path.{subst}
use os.Clib.Move.{Bytes}
use os.Clib.Text.{IsString, strchr}
use os.Clib.Text.Search.{strchr-strrchr}
use os.Clib.Number.{digits, skip_blanks, read_sign, add_digit, read_digits, negated, atoi}

-- The number that `d` digits at `s` write in base ten.
unfoldable pub decimal : Bytes → ℕ → ℕ → ℕ
decimal mem s zero = 0
decimal mem s (suc d) = decimal mem s d * 10 + (mem (s + d) - 48)

decimal-suc :
    (mem : Bytes) (s i : ℕ) → decimal mem s (i + 1) ≡ decimal mem s i * 10 + (mem (s + i) - 48)
unfolding decimal
decimal-suc mem s i = let next : i + 1 ≡ suc i = omega arith in rw next refl

digits-IsString : IsString digits 0 10
unfolding digits
digits-IsString = (refl, λ i lt. ground arith)

strchr-digit : (c : ℕ) → 48 ≤ c → c < 58 → strchr digits 11 0 c ≡ ok (some (c - 48))
unfolding digits
strchr-digit c ge lt =
    let same : c % 256 ≡ c = omega arith in
    elim (strchr-strrchr digits 0 10 c digits-IsString 11 (omega arith)) [
      | inl (_, _, lacks) ↦ absurd (lacks (c - 48) (omega arith) (omega arith) (ground arith))
      | inr (j, k, e, _, le, lk, hit, _, _, _) ↦
          let here : 0 + j ≡ c - 48 = ground (arith, hit) in e ∙ ap (λ (x : ℕ). ok (some x)) here
    ]

strchr-no_digit : (c : ℕ) → c < 256 → c ≢ 0 → (c < 48) ⊎ (57 < c) → strchr digits 11 0 c ≡ ok none
unfolding digits
strchr-no_digit c byte inner out =
    let same : c % 256 ≡ c = omega arith in
    elim (strchr-strrchr digits 0 10 c digits-IsString 11 (omega arith)) [
      | inl (e, _, _) ↦ e
      | inr (j, k, e, _, le, lk, hit, _, _, _) ↦ absurd (ground (arith, hit, inner))
    ]

-- A byte that ends a number.
abbrev pub IsEnd : ℕ → Type 0
IsEnd c = (c < 48) ⊎ (57 < c)

pub data Sign : Type 0 where
  minus plus unsigned : Sign

-- A number with its sign as a 32-bit word.
abbrev pub signed : Sign → ℕ → ℕ
signed minus v = (4294967296 - v % 4294967296) % 4294967296
signed plus v = v % 4294967296
signed unsigned v = v % 4294967296

is_minus : Sign → Bool
is_minus minus = true
is_minus plus = false
is_minus unsigned = false

negated-signed : (sign : Sign) (v : ℕ) → negated (is_minus sign) (v % 4294967296) ≡ signed sign v
unfolding negated is_minus
negated-signed minus v = refl
negated-signed plus v = refl
negated-signed unsigned v = refl

module _ (mem : Bytes) (bytes : (x : ℕ) → mem x < 256) where
  -- `d` digits stand at `s`, and no digit behind them.
  pub record IsNumber (s d : ℕ) : Type 0 where
    pub row : (i : ℕ) → i < d → (48 ≤ mem (s + i)) × (mem (s + i) < 58)
    pub end : IsEnd (mem (s + d))

  read_digits_end : (s val limit : ℕ) → IsEnd (mem s) → read_digits mem (suc limit) s val ≡ ok val
  unfolding read_digits add_digit
  read_digits_end s val limit end = elim (ℕ_discrete (mem s) 0) [
    | yes zero_byte ↦ rw ((==_iff (mem s) 0).1 zero_byte) refl
    | no inner ↦ rw (==-false (mem s) 0 inner, strchr-no_digit (mem s) (bytes s) inner end) refl
  ]

  read_digits_row :
      (s val limit : ℕ)
      → 48 ≤ mem s
      → mem s < 58
      → read_digits mem (suc limit) s val
        ≡ read_digits mem limit (s + 1) ((val * 10 + (mem s - 48)) % 4294967296)
  unfolding read_digits add_digit
  read_digits_row s val limit ge lt =
      rw (==-false (mem s) 0 (omega arith), strchr-digit (mem s) ge lt) refl

  read_digits_lem :
      (s d : ℕ) (number : IsNumber s d) (limit i : ℕ)
      → i ≤ d
      → d < i + limit
      → read_digits mem limit (s + i) (decimal mem s i % 4294967296)
        ≡ ok (decimal mem s d % 4294967296)
  unfolding decimal
  read_digits_lem s d number zero i le lt = absurd (omega arith)
  read_digits_lem s d number (suc limit) i le lt = elim (dec_lt i d) [
    | no last ↦
        let here : d ≡ i = omega arith in
        rw here (
          read_digits_end (s + i) (decimal mem s i % 4294967296) limit
            (subst (λ (x : ℕ). IsEnd (mem (s + x))) here (number.end)))
    | yes more ↦
        let (ge, below) = number.row i more in
        let next : s + (i + 1) ≡ s + i + 1 = omega arith in
        let sum : (decimal mem s i % 4294967296 * 10 + (mem (s + i) - 48)) % 4294967296
            ≡ (decimal mem s i * 10 + (mem (s + i) - 48)) % 4294967296 =
          omega arith in
        let rest = read_digits_lem s d number limit (i + 1) (omega arith) (omega arith) in
        rw (read_digits_row (s + i) (decimal mem s i % 4294967296) limit ge below, sum, sym next)
          (rw (decimal-suc mem s i) at rest)
  ]

  -- `b` blanks at `s`, and no blank behind them.
  pub record IsBlank (s b : ℕ) : Type 0 where
    pub row : (i : ℕ) → i < b → (mem (s + i) ≡ 32) ⊎ (mem (s + i) ≡ 9)
    pub end : (mem (s + b) ≢ 32) × (mem (s + b) ≢ 9)

  skip_blanks_lem :
      (s b : ℕ) (blank : IsBlank s b) (limit i : ℕ)
      → i ≤ b
      → b < i + limit
      → skip_blanks mem limit (s + i) ≡ ok (s + b)
  unfolding skip_blanks
  skip_blanks_lem s b blank zero i le lt = absurd (omega arith)
  skip_blanks_lem s b blank (suc limit) i le lt = elim (dec_lt i b) [
    | no last ↦
        let here : i ≡ b = omega arith in
        rw (here, ==-false (mem (s + b)) 32 (blank.end.0), ==-false (mem (s + b)) 9 (blank.end.1))
          refl
    | yes more ↦
        let next : s + (i + 1) ≡ s + i + 1 = omega arith in
        let rest = skip_blanks_lem s b blank limit (i + 1) (omega arith) (omega arith) in
        elim (blank.row i more) [
          | inl space ↦ rw (space, sym next) rest
          | inr tab ↦ rw (tab, sym next) rest
        ]
  ]

  -- The number with this sign in front, which stands at `p`, begins at `q`.
  abbrev pub HasSign : Sign → ℕ → ℕ → Type 0
  HasSign minus p q = (mem p ≡ 45) × (q ≡ p + 1)
  HasSign plus p q = (mem p ≡ 43) × (q ≡ p + 1)
  HasSign unsigned p q = (mem p ≢ 45) × (mem p ≢ 43) × (q ≡ p)

  read_sign_lem : (sign : Sign) (p q : ℕ) → HasSign sign p q → read_sign mem p ≡ (is_minus sign, q)
  unfolding read_sign is_minus
  read_sign_lem minus p q (c, at) = rw (c, at) refl
  read_sign_lem plus p q (c, at) = rw (c, at) refl
  read_sign_lem unsigned p q (no_minus, no_plus, at) =
      rw (==-false (mem p) 45 no_minus, ==-false (mem p) 43 no_plus, at) refl

  -- atoi of b blanks (spaces and tabs), then a minus sign, a plus sign or none, then d digits, perhaps
  -- none, and any byte that is no digit behind them, with limits past the blanks and the digits,
  -- returns the number that the digits write in base ten, with its sign, as a 32-bit word.
  pub atoi-decimal :
      (s b d q : ℕ) (sign : Sign) (limit : ℕ)
      → IsBlank s b
      → HasSign sign (s + b) q
      → IsNumber q d
      → b < limit
      → d < limit
      → atoi mem limit s ≡ ok (signed sign (decimal mem q d))
  unfolding atoi decimal
  atoi-decimal s b d q sign limit blank front number lb ld =
      let z : s + 0 ≡ s = omega arith in
      let y : q + 0 ≡ q = omega arith in
      let blanks = rw z at (skip_blanks_lem s b blank limit 0 (omega arith) (omega arith)) in
      let row : read_digits mem limit q 0 ≡ ok (decimal mem q d % 4294967296) =
        rw y at (read_digits_lem q d number limit 0 (omega arith) (omega arith)) in
      rw (blanks, read_sign_lem sign (s + b) q front, row, negated-signed sign (decimal mem q d))
        refl
