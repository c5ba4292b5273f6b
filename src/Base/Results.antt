-- ===== src/Base/Results.antt =====
-- What a kernel function returns: `ok` for the error code 0, `err` for another code, `panic` for a
-- failed KASSERT or a call of panic(), and `fault` for an access outside an array.
use Prim.Native.Nat.{ℕ}
use mathlib.Core.Path.{◌≡◌, refl}
use mathlib.Core.Option.{Option, none, some}
use mathlib.Core.Bool.{Bool, true, false}

pub data Result {ℓ} (A : Type ℓ) : Type ℓ where
  ok : A → Result A
  err : ℕ → Result A
  panic : Result A
  fault : Result A

-- The next call of a function: it runs on the value of a call that returned 0.
infixl 5 ◌>>=◌
abbrev pub ◌>>=◌ {ℓ κ} : {X : Type ℓ} {Y : Type κ} → Result X → (X → Result Y) → Result Y
fault >>= next = fault
panic >>= next = panic
err code >>= next = err code
ok x >>= next = next x

infixl 5 ◌>>◌
abbrev pub ◌>>◌ {κ} : {Y : Type κ} → Result (Unit {0}) → Result Y → Result Y
call >> next = call >>= λ _. next

-- A chain that succeeds has a first step that succeeds.
pub ok-bind {ℓ κ} :
    {X : Type ℓ} {Y : Type κ} (call : Result X) (next : X → Result Y) {y : Y}
    → (call >>= next) ≡ ok y
    → (x : X) × (call ≡ ok x) × (next x ≡ ok y)
ok-bind fault next h = cc
ok-bind panic next h = cc
ok-bind (err code) next h = cc
ok-bind (ok x) next h = (x, refl, h)

-- KASSERT(b)
abbrev pub kassert : Bool → Result (Unit {0})
kassert true = ok tt
kassert false = panic

-- What a failed assertion makes of an absent value.
abbrev pub or_panic {ℓ} : {A : Type ℓ} → Option A → Result A
or_panic none = panic
or_panic (some a) = ok a

-- kern/errno.h
abbrev pub enomem : ℕ
enomem = 3

abbrev pub efault : ℕ
efault = 6

abbrev pub enametoolong : ℕ
enametoolong = 7

abbrev pub einval : ℕ
einval = 8

abbrev pub echild : ℕ
echild = 16

abbrev pub enospc : ℕ
enospc = 36

abbrev pub eunimp : ℕ
eunimp = 2
