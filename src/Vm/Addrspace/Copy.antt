-- ===== src/Vm/Addrspace/Copy.antt =====
-- The loops of as_copy (kern/arch/mips/vm/dumbvm.c) over the pages of the old address space.
use os.Base.{
  ℕ, zero, suc, ◌+◌, ◌-◌, ◌≤◌, ◌<◌, ◌≡◌, ◌⊎◌, refl, ◌∙◌, some, arith, ok, err, panic, fault, ap,
  Result, ◌>>=◌, ℕ_discrete,
}
use os.Vm.Coremap.{page_size}
use os.Vm.Addrspace.{Machine, stack_pages, copy_page, copy_table}
use os.Vm.Addrspace.Prepare.{page_entry, data_entry, stack_entry}

-- Two pages that share no byte, by their addresses.
abbrev pub Apart : ℕ → ℕ → Type 0
Apart p q = (p + page_size ≤ q) ⊎ (q + page_size ≤ p)

-- The bytes after pages `i` to `i + left - 1` are copied.
pub record PagesCopied (left i : ℕ) (new old : ℕ → ℕ) (ram ram' : ℕ → ℕ) : Type 0 where
  pub copied : (k a : ℕ) → i ≤ k → k < i + left → a < page_size → ram' (new k + a) ≡ ram (old k + a)
  pub outside :
      (b : ℕ)
      → ((k : ℕ) → i ≤ k → k < i + left → (b < new k) ⊎ (new k + page_size ≤ b))
      → ram' b ≡ ram b

pub copy_table-PagesCopied :
    (left i : ℕ) (new old : ℕ → ℕ) (m : Machine)
    → ((j k : ℕ) → i ≤ j → j < k → k < i + left → Apart (new j) (new k))
    → ((j k : ℕ) → i ≤ j → j < i + left → i ≤ k → k < i + left → Apart (new j) (old k))
    → (ram' : ℕ → ℕ) × (copy_table left i (some new) (some old) m ≡ ok (record m { ram = ram' }))
      × PagesCopied left i new old m.ram ram'
unfolding copy_table
copy_table-PagesCopied zero i new old m among against =
    (m.ram, refl, record { copied = λ k a lo hi lt. absurd (omega arith); outside = λ b out. refl })
copy_table-PagesCopied (suc left) i new old m among against =
    let (ram', got, moved) =
      copy_table-PagesCopied left (i + 1) new old
        (record m { ram = copy_page (new i) (old i) m.ram })
        (λ j k lo lt hi. among j k (omega arith) lt (omega arith))
        (λ j k lo hi lo' hi'.
          against j k (omega arith) (omega arith) (omega arith) (omega arith)) in
    (
      ram',
      got,
      record {
        copied = λ k a lo hi lt. elim (ℕ_discrete i k) [
          | yes e ↦ rw (← e) (
              moved.outside (new i + a)
                (λ k' lo' hi'. omega (arith, among i k' (omega arith) (omega arith) (omega arith)))
              ∙ ground arith)
          | no ne ↦
              moved.copied k a (omega arith) (omega arith) lt
              ∙ ground (arith, against i k (omega arith) (omega arith) (omega arith) (omega arith))
        ];
        outside = λ b out.
            moved.outside b (λ k lo hi. out k (omega arith) (omega arith))
            ∙ ground (arith, out i (omega arith) (omega arith));
      },
    )

-- The loop over a table is the loop over a part of a larger one.
copy_table_part :
    (left i d : ℕ) (new old new' old' : ℕ → ℕ) (m : Machine)
    → ((k : ℕ) → i ≤ k → k < i + left → (new k ≡ new' (k + d)) × (old k ≡ old' (k + d)))
    → copy_table left i (some new) (some old) m ≡ copy_table left (i + d) (some new') (some old') m
unfolding copy_table
copy_table_part zero i d new old new' old' m same = refl
copy_table_part (suc left) i d new old new' old' m same =
    let e : i + 1 + d ≡ i + d + 1 = omega arith in
    let (s, s') = same i (omega arith) (omega arith) in
    rw (← s, ← s', ← e)
      (copy_table_part left (i + 1) d new old new' old' _
        (λ k lo hi. same k (omega arith) (omega arith)))

copy_table_split :
    (l1 l2 i : ℕ) (new old : ℕ → ℕ) (m : Machine)
    → copy_table (l1 + l2) i (some new) (some old) m
      ≡ (copy_table l1 i (some new) (some old) m >>= copy_table l2 (i + l1) (some new) (some old))
unfolding copy_table
copy_table_split zero l2 i new old m =
    let e : 0 + l2 ≡ l2 = omega arith in let e' : i + 0 ≡ i = omega arith in rw (e, e') refl
copy_table_split (suc l1) l2 i new old m =
    let e : suc l1 + l2 ≡ suc (l1 + l2) = omega arith in
    let e' : i + suc l1 ≡ i + 1 + l1 = omega arith in
    rw (e, e')
      (copy_table_split l1 l2 (i + 1) new old (record m { ram = copy_page (new i) (old i) m.ram }))

bind_ext :
    {A B : Type 0} (r : Result A) (f g : A → Result B)
    → ((a : A) → f a ≡ g a)
    → (r >>= f) ≡ (r >>= g)
bind_ext (ok a) f g h = h a
bind_ext (err e) f g h = refl
bind_ext panic f g h = refl
bind_ext fault f g h = refl

-- The three loops of as_copy are one loop over all pages.
pub copy_pages_eq :
    (n1 n2 : ℕ) (t1 t2 ts o1 o2 old_stack : ℕ → ℕ) (m : Machine)
    → (copy_table n1 0 (some t1) (some o1) m
        >>= copy_table n2 0 (some t2) (some o2)
        >>= copy_table stack_pages 0 (some ts) (some old_stack))
      ≡ copy_table
          (n1 + n2 + stack_pages)
          0
          (some (page_entry n1 n2 t1 t2 ts))
          (some (page_entry n1 n2 o1 o2 old_stack))
          m
copy_pages_eq n1 n2 t1 t2 ts o1 o2 old_stack m =
    let new = page_entry n1 n2 t1 t2 ts in
    let old = page_entry n1 n2 o1 o2 old_stack in
    let texts : copy_table n1 0 (some t1) (some o1) m ≡ copy_table n1 0 (some new) (some old) m =
      copy_table_part n1 0 0 t1 o1 new old m (λ k lo hi. (ground arith, ground arith)) in
    let datas : (m' : Machine)
        → copy_table n2 0 (some t2) (some o2) m' ≡ copy_table n2 (0 + n1) (some new) (some old) m' =
      λ m'.
        copy_table_part n2 0 n1 t2 o2 new old m'
          (λ k lo hi. (shifted_data k t1 t2 ts hi, shifted_data k o1 o2 old_stack hi)) in
    let stacks : (m' : Machine)
        → copy_table stack_pages 0 (some ts) (some old_stack) m'
          ≡ copy_table stack_pages (0 + (n1 + n2)) (some new) (some old) m' =
      λ m'.
        copy_table_part stack_pages 0 (n1 + n2) ts old_stack new old m'
          (λ k lo hi. (shifted_stack k t1 t2 ts, shifted_stack k o1 o2 old_stack)) in
    rw
      (
        texts,
        copy_table_split (n1 + n2) stack_pages 0 new old m,
        copy_table_split n1 n2 0 new old m,
      )
      (ap (λ r. r >>= copy_table stack_pages 0 (some ts) (some old_stack))
          (bind_ext (copy_table n1 0 (some new) (some old) m) _ _ datas)
        ∙ bind_ext _ _ _ stacks)
  where
    shifted_data :
        (k : ℕ) (u1 u2 us : ℕ → ℕ) → k < 0 + n2 → u2 k ≡ page_entry n1 n2 u1 u2 us (k + n1)
    shifted_data k u1 u2 us hi =
        let e : k + n1 - n1 ≡ k = omega arith in
        rw (data_entry n1 n2 u1 u2 us (k + n1) (omega arith) (omega arith), e) refl

    shifted_stack : (k : ℕ) (u1 u2 us : ℕ → ℕ) → us k ≡ page_entry n1 n2 u1 u2 us (k + (n1 + n2))
    shifted_stack k u1 u2 us =
        let e : k + (n1 + n2) - (n1 + n2) ≡ k = omega arith in
        rw (stack_entry n1 n2 u1 u2 us (k + (n1 + n2)) (omega arith), e) refl
