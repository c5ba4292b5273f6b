-- ===== src/Usermem/Copyinout/Laws.antt =====
-- The user-space bounds of kern/vm/copyinout.c.
use os.Base.{
  ==_iff, ==-false, false, dec_lt, ◌≢◌, ℕ, ◌+◌, ◌-◌, sym, ◌≤◌, ◌<◌, ◌≡◌, refl, ◌⊎◌, inl, inr, Bool,
  true, efault, arith,
}
use os.Clib.Move.{Bytes, store, memcpy}
use os.Clib.Move.Laws.{memcpy_outside, memcpy-Copies}
use os.Usermem.Copyinout.{userspacetop, copycheck, recover, checked, copyin, copyout}

-- The three ways through copycheck: a block below USERSPACETOP keeps its length, one that crosses it
-- gets what lies below it, and any other is refused.
pub copycheck_cases :
    (userptr len : ℕ)
    → userptr < 4294967296
    → len < 4294967296
    → ((0 < len) × (userptr + len ≤ userspacetop) × (copycheck userptr len ≡ (0, len)))
      ⊎ ((userptr < userspacetop)
          × (len ≢ userspacetop - userptr)
          × ((len ≡ 0) ⊎ (userspacetop < userptr + len))
          × (copycheck userptr len ≡ (0, userspacetop - userptr)))
      ⊎ ((((len ≡ 0) × (0 < userptr)) ⊎ (userspacetop ≤ userptr) ⊎ (4294967296 < userptr + len))
          × (copycheck userptr len ≡ (efault, len)))
unfolding copycheck
copycheck_cases userptr len hp hl = elim (dec_lt userptr userspacetop) [
  | no high ↦ inr (inr (inr (inl (omega arith)), ground arith))
  | yes low ↦ elim (dec_lt 4294967296 (userptr + len)) [
    | yes wraps ↦ inr (inr (inr (inr wraps), ground arith))
    | no fits ↦ elim (dec_lt 0 len) [
      | yes pos ↦ elim (dec_lt userspacetop (userptr + len)) [
        | yes over ↦ inr (inl (low, omega arith, inr over, ground arith))
        | no below ↦ inl (pos, omega arith, ground arith)
      ]
      | no empty ↦ elim (dec_lt 0 userptr) [
        | yes somewhere ↦ inr (inr (inl (omega arith, somewhere), ground arith))
        | no null ↦ inr (inl (low, omega arith, inl (omega arith), ground arith))
      ]
    ]
  ]
]

recover_mem : (r : Bytes × Bool) → (recover r).0 ≡ r.0
unfolding recover
recover_mem (mem, true) = refl
recover_mem (mem, false) = refl

recover_done : (r : Bytes × Bool) → r.1 ≡ true → (recover r).1 ≡ 0
unfolding recover
recover_done (mem, true) done = refl
recover_done (mem, false) done = cc

ne_zero : efault ≢ 0
ne_zero h = omega arith

-- Where the checks pass, the guarded copy is made; elsewhere memory stays and the result is EFAULT.
checked_cases :
    (userptr len : ℕ) (mem : Bytes) (copied : Bytes × ℕ)
    → userptr < 4294967296
    → len < 4294967296
    → ((0 < len)
        × (userptr + len ≤ userspacetop)
        × (checked (copycheck userptr len) len mem copied ≡ copied))
      ⊎ (((len ≡ 0) ⊎ (userspacetop < userptr + len))
          × (checked (copycheck userptr len) len mem copied ≡ (mem, efault)))
unfolding checked
checked_cases userptr len mem copied hp hl = elim (copycheck_cases userptr len hp hl) [
  | inl (pos, below, e) ↦ inl (pos, below, rw (e, (==_iff len len).1 refl))
  | inr (inl (low, ne, bad, e)) ↦
      inr (bad, rw (e, ==-false (userspacetop - userptr) len (λ q. ne (sym q))))
  | inr (inr (bad, e)) ↦ inr (omega arith, rw e)
]

module _ (access : ℕ → Bool) where
  pub copyout_block :
      (src userdest len : ℕ) (mem : Bytes)
      → userdest < 4294967296
      → len < 4294967296
      → ((x : ℕ) → userspacetop ≤ x → (copyout access src userdest len mem).0 x ≡ mem x)
        × ((copyout access src userdest len mem).1 ≡ 0
            → (0 < len) × (userdest + len ≤ userspacetop))
  unfolding copyout
  copyout_block src userdest len mem hp hl =
      elim (checked_cases userdest len mem (recover (memcpy access userdest src len mem)) hp hl) [
        | inl (pos, below, e) ↦ (
          λ x above.
              rw (e, recover_mem (memcpy access userdest src len mem))
                (memcpy_outside access userdest src len mem x (inr (omega arith))),
          λ _. (pos, below),
        )
        | inr (bad, e) ↦ (λ x above. rw e, λ done. absurd (ne_zero (rw e at done)))
      ]

  -- Where no access traps and the destination is in the kernel, copyin of a block that is not empty
  -- and ends at or below USERSPACETOP returns 0 with the bytes copied and all others unchanged, and
  -- of any other block, the empty one included, returns EFAULT with memory unchanged.
  pub copyin-Copied :
      ((a : ℕ) → access a ≡ true)
      → (usersrc dest len : ℕ) (mem : Bytes) → usersrc < 4294967296
      → len < 4294967296
      → userspacetop ≤ dest
      → ((0 < len)
          × (usersrc + len ≤ userspacetop)
          × ((copyin access usersrc dest len mem).1 ≡ 0)
          × ((x : ℕ) → (copyin access usersrc dest len mem).0 x ≡ store len dest usersrc mem x))
        ⊎ (((len ≡ 0) ⊎ (userspacetop < usersrc + len))
            × (copyin access usersrc dest len mem ≡ (mem, efault)))
  unfolding copyin
  copyin-Copied open_to usersrc dest len mem hp hl kernel =
      elim (checked_cases usersrc len mem (recover (memcpy access dest usersrc len mem)) hp hl) [
        | inl (pos, below, e) ↦
            let (done, same) =
              memcpy-Copies access open_to dest usersrc len mem (inr (omega arith)) in
            inl (
              pos,
              below,
              rw e (recover_done (memcpy access dest usersrc len mem) done),
              λ x. rw (e, recover_mem (memcpy access dest usersrc len mem)) (same x),
            )
        | inr (bad, e) ↦ inr (bad, e)
      ]
