-- ===== src/Kernlib/Array.antt =====
-- Resizable arrays: kern/lib/array.c and kern/include/array.h. `A` is what the array holds.
pub mod Laws
use os.Base.{
  ℕ, zero, suc, ◌+◌, ◌-◌, ◌*◌, ◌%◌, ◌^◌, Bool, ◌&&◌, Option, none, some, List, ltb, leb, ◌==◌,
  if◌then◌else◌, update, Result, ok, err, fault, ◌>>=◌, ◌>>◌, kassert, enomem,
}
use os.Kernlib.Slice.{slice}

-- `struct array`: the block `v` has room for `max` pointers, of which `num` are in use.
pub record Array {ℓ} (A : Type ℓ) : Type ℓ where
  pub v : ℕ → A
  pub num : ℕ
  pub max : ℕ

-- `while (num > newmax) newmax = newmax ? newmax*2 : 4`, in unsigned ints
pub grow_max : (fuel num newmax : ℕ) → Result ℕ
grow_max zero num newmax = fault
grow_max (suc fuel) num newmax =
    let rest = grow_max fuel num (if newmax == 0 then 4 else newmax * 2 % 2 ^ 32) in
    if ltb newmax num then rest else ok newmax

-- Up to 4, doublings to 2 ^ 31, and the last test. For more than 2 ^ 31 the loop does not end.
abbrev pub grow_fuel : ℕ
grow_fuel = 34

pub new_max : (num max : ℕ) → Result ℕ
unfolding grow_max
new_max num max = grow_max grow_fuel num max

module _ {ℓ} {A : Type ℓ} where
  -- The array that array_init leaves; `junk` is what lies behind the null pointer.
  pub array_init : (junk : ℕ → A) → Array A
  array_init junk = record { v = junk; num = 0; max = 0 }

  -- memcpy of `n` pointers
  abbrev pub copy : (ℕ → A) → (ℕ → A) → ℕ → ℕ → A
  copy dest src n k = if ltb k n then src k else dest k

  -- The new block takes the place of the old one, unless kmalloc returned NULL.
  pub move_to : Option (ℕ → A) → (num newmax : ℕ) → Array A → Result (Array A)
  move_to none num newmax a = err enomem
  move_to (some newptr) num newmax a =
      ok (record { v = copy newptr a.v a.num; num = num; max = newmax })

  -- `kmalloc bytes` is the block that the allocator returns, with what it holds, or NULL.
  pub array_setsize : (kmalloc : ℕ → Option (ℕ → A)) → Array A → ℕ → Result (Array A)
  array_setsize kmalloc a num =
      let grown =
        new_max num a.max >>= λ newmax. move_to (kmalloc (newmax * 4 % 2 ^ 32)) num newmax a in
      if ltb a.max num then grown else ok (record a { num = num })

  pub array_num : Array A → ℕ
  array_num a = a.num

  pub array_get : Array A → ℕ → Result A
  array_get a index = kassert (ltb index a.num) >>= λ _. ok (a.v index)

  pub array_set : Array A → ℕ → A → Result (Array A)
  array_set a index val =
      kassert (ltb index a.num) >>= λ _. ok (record a { v = update a.v index val })

  pub array_add : (kmalloc : ℕ → Option (ℕ → A)) → Array A → A → Result (Array A × ℕ)
  unfolding array_setsize
  array_add kmalloc a val = do
    a' ← array_setsize kmalloc a ((a.num + 1) % 2 ^ 32)
    ok (record a' { v = update a'.v a.num val }, a.num)

  -- memmove of `n` pointers from `index + 1` to `index`
  abbrev pub move_down : (ℕ → A) → (index n : ℕ) → ℕ → A
  move_down v index n k = if leb index k && ltb k (index + n) then v (k + 1) else v k

  pub array_remove : Array A → ℕ → Result (Array A)
  array_remove a index = kassert (leb a.num a.max && ltb index a.num) >>= λ _.
      ok (record a { v = move_down a.v index (a.num - (index + 1)); num = a.num - 1 })

  pub array_cleanup : Array A → Result (Array A)
  array_cleanup a = kassert (a.num == 0) >>= λ _. ok a

  -- What the array stands for.
  pub contents : Array A → List A
  contents a = slice a.num 0 a.v
