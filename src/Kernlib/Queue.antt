-- ===== src/Kernlib/Queue.antt =====
-- Growing ring buffers: kern/lib/queue.c. `A` is what the queue holds; its ints are not negative.
pub mod Ring
pub mod Laws
pub mod Api
use os.Base.{
  ℕ, zero, suc, ◌+◌, ◌-◌, ◌*◌, ◌%◌, ◌^◌, Bool, ◌&&◌, not, Option, none, some, List, ltb, leb, ◌==◌,
  if◌then◌else◌, update, Result, ok, err, panic, fault, ◌>>=◌, ◌>>◌, kassert, enomem,
}
use os.Kernlib.Slice.{slice}

-- `struct queue`
pub record Queue {ℓ} (A : Type ℓ) : Type ℓ where
  pub size : ℕ
  pub nextread : ℕ
  pub nextwrite : ℕ
  pub data_block : ℕ → A

-- `while (nsize < targetsize) { nsize *= 2; KASSERT(nsize > 0); }`, where a product that does not
-- fit an int comes out as not positive.
pub grow_size : (fuel nsize target : ℕ) → Result ℕ
grow_size zero nsize target = fault
grow_size (suc fuel) nsize target =
    let rest = grow_size fuel (nsize * 2) target in
    if ltb nsize target then kassert (ltb 0 nsize && ltb (nsize * 2) (2 ^ 31)) >> rest else ok nsize

abbrev pub grow_fuel : ℕ
grow_fuel = 32

-- `while (tmp != nextwrite) { tmp = (tmp+1) % size; count++; }`
pub count_entries : (fuel size nextwrite tmp count : ℕ) → Option ℕ
count_entries zero size nextwrite tmp count = if tmp == nextwrite then some count else none
count_entries (suc fuel) size nextwrite tmp count =
    let rest = count_entries fuel size nextwrite ((tmp + 1) % size) (count + 1) in
    if tmp == nextwrite then some count else rest

-- KASSERT(result == 0)
pub expect_ok {ℓ} : {A : Type ℓ} → Result A → Result A
expect_ok (ok a) = ok a
expect_ok (err e) = panic
expect_ok panic = panic
expect_ok fault = fault

module _ {ℓ} {A : Type ℓ} where
  -- The loop of q_grow over the old entries, from `i` up to `onw`.
  pub refill :
      (addtail : Queue A → A → Result (Queue A)) (olddata : ℕ → A) (osize onw fuel i : ℕ)
      → Queue A
      → Result (Queue A)
  unfolding expect_ok
  refill addtail olddata osize onw zero i q = if i == onw then ok q else fault
  refill addtail olddata osize onw (suc fuel) i q =
      let rest =
        expect_ok (addtail q (olddata i))
        >>= refill addtail olddata osize onw fuel ((i + 1) % osize) in
      if i == onw then ok q else rest

  -- q_grow, given the q_addtail that it calls and the block that kmalloc returns for a size.
  pub grow_with :
      (addtail : Queue A → A → Result (Queue A)) (kmalloc : ℕ → Option (ℕ → A))
      → Queue A
      → ℕ
      → Result (Queue A)
  unfolding grow_size refill expect_ok
  grow_with addtail kmalloc q target = do
    nsize ← grow_size grow_fuel q.size target
    elim (kmalloc (nsize * 4 % 2 ^ 32)) [
      | none ↦ err enomem
      | some ndata ↦
          refill addtail q.data_block q.size q.nextwrite q.size q.nextread
            (record { size = nsize; nextread = 0; nextwrite = 0; data_block = ndata })
    ]

  -- The end of q_addtail: the write, and the next place.
  pub put_tail : Queue A → A → ℕ → Queue A
  put_tail q ptr nextnext = record q {
    data_block = update q.data_block q.nextwrite ptr;
    nextwrite = nextnext;
  }

  -- q_addtail, given the q_grow that it calls.
  pub addtail_with : (grow : Queue A → ℕ → Result (Queue A)) → Queue A → A → Result (Queue A)
  unfolding put_tail
  addtail_with grow q ptr =
      let nextnext = (q.nextwrite + 1) % q.size in
      let grown =
        grow q (q.size + 1) >>= (λ q'. ok (put_tail q' ptr ((q'.nextwrite + 1) % q'.size))) in
      kassert (ltb 0 q.size) >>= λ _.
      if nextnext == q.nextread then grown else ok (put_tail q ptr nextnext)

  -- The two functions call one another; `depth` bounds the nesting.
  pub q_addtail_depth : (depth : ℕ) (kmalloc : ℕ → Option (ℕ → A)) → Queue A → A → Result (Queue A)
  unfolding addtail_with grow_with
  q_addtail_depth zero kmalloc q ptr = fault
  q_addtail_depth (suc depth) kmalloc q ptr =
      addtail_with (grow_with (q_addtail_depth depth kmalloc) kmalloc) q ptr

  -- q_grow fills a queue that has room, so two levels are enough.
  pub q_addtail : (kmalloc : ℕ → Option (ℕ → A)) → Queue A → A → Result (Queue A)
  unfolding q_addtail_depth
  q_addtail kmalloc q ptr = q_addtail_depth 2 kmalloc q ptr

  pub q_grow : (kmalloc : ℕ → Option (ℕ → A)) → Queue A → ℕ → Result (Queue A)
  unfolding grow_with q_addtail_depth
  q_grow kmalloc q target = grow_with (q_addtail_depth 1 kmalloc) kmalloc q target

  -- With both blocks allocated; `block` is what kmalloc returned.
  pub q_create : (size : ℕ) (block : ℕ → A) → Queue A
  q_create size block = record { size = size; nextread = 0; nextwrite = 0; data_block = block }

  pub q_preallocate : (kmalloc : ℕ → Option (ℕ → A)) → Queue A → ℕ → Result (Queue A)
  unfolding q_grow
  q_preallocate kmalloc q size =
      let grown = q_grow kmalloc q size in
      kassert (ltb 0 q.size) >> (if ltb q.size size then grown else ok q)

  pub q_empty : Queue A → Bool
  q_empty q = q.nextwrite == q.nextread

  pub q_remhead : Queue A → Result (A × Queue A)
  unfolding q_empty
  q_remhead q = kassert (ltb 0 q.size) >>= λ _. kassert (not (q_empty q)) >>= λ _.
      ok (q.data_block q.nextread, record q { nextread = (q.nextread + 1) % q.size })

  pub q_peek : Queue A → Result (Option A)
  unfolding q_empty
  q_peek q = kassert (ltb 0 q.size) >>= λ _.
      ok (if q_empty q then none else some (q.data_block q.nextread))

  pub q_len : Queue A → Option ℕ
  unfolding count_entries
  q_len q = count_entries q.size q.size q.nextwrite q.nextread 0

  -- What the queue stands for, oldest entry first.
  abbrev pub filled : Queue A → ℕ
  filled q =
      if leb q.nextread q.nextwrite
      then q.nextwrite - q.nextread
      else q.nextwrite + q.size - q.nextread

  pub contents : Queue A → List A
  contents q = slice (filled q) 0 (λ k. q.data_block ((q.nextread + k) % q.size))
