-- ===== src/Base/Arrays.antt =====
-- A C array, or a family indexed by thread, is a function of the index; the bound is kept beside it.
use Prim.Native.Nat.{ℕ}
use os.Base.Tests.{◌==◌, if◌then◌else◌}

module _ {ℓ} {A : Type ℓ} where
  -- `a[i] = v`
  abbrev pub update : (ℕ → A) → ℕ → A → ℕ → A
  update f i v j = if i == j then v else f j
