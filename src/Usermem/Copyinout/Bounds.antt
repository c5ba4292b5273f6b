-- ===== src/Usermem/Copyinout/Bounds.antt =====
-- What copyout and copyoutstr (kern/vm/copyinout.c) may write.
use os.Base.{ℕ, ◌+◌, ◌-◌, ◌≤◌, ◌<◌, ◌≡◌, inl, inr, Bool, arith}
use os.Clib.Move.{Bytes}
use os.Usermem.Copyinout.{userspacetop, copystr, checked_string, copyout, copyoutstr}
use os.Usermem.Copyinout.Laws.{copycheck_cases, copyout_block}
use os.Usermem.Copyinout.Strings.{copystr_loop_outside}

module _ (access : ℕ → Bool) (src userdest len : ℕ) (mem : Bytes) (hp : userdest < 4294967296)
    (hl : len < 4294967296) where
  copyoutstr_outside :
      (x : ℕ) → userspacetop ≤ x → (copyoutstr access src userdest len mem).mem x ≡ mem x
  unfolding copyoutstr checked_string copystr
  copyoutstr_outside x above = elim (copycheck_cases userdest len hp hl) [
    | inl (_, below, e) ↦
        rw e
          (copystr_loop_outside access userdest src len len len 0 mem x (omega arith) (omega arith))
    | inr (inl (low, _, _, e)) ↦ rw e (
        copystr_loop_outside access userdest src len (userspacetop - userdest) len 0 mem x
          (omega arith) (omega arith))
    | inr (inr (_, e)) ↦ rw e
  ]

  -- Whatever the user address, the length below 2^32 and the traps on the way, copyout and
  -- copyoutstr leave every byte at and above USERSPACETOP alone; and copyout returns 0 only for a
  -- block that is not empty and ends at or below USERSPACETOP.
  pub copyout_bounds :
      ((x : ℕ)
        → userspacetop ≤ x
        → ((copyout access src userdest len mem).0 x ≡ mem x)
          × ((copyoutstr access src userdest len mem).mem x ≡ mem x))
      × ((copyout access src userdest len mem).1 ≡ 0 → (0 < len) × (userdest + len ≤ userspacetop))
  copyout_bounds =
      let (same, within) = copyout_block access src userdest len mem hp hl in
      (λ x above. (same x above, copyoutstr_outside x above), within)
