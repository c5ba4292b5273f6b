-- ===== src/Usermem/Tests.antt =====
-- The theorems about kern/vm/copyinout.c and kern/lib/uio.c at concrete inputs.
use os.Base.{
  ◌-◌, ok, ℕ, ◌+◌, ◌≤◌, ◌<◌, ◌≡◌, refl, ◌⊎◌, true, none, some, [], ◌∷◌, efault, enametoolong, arith,
  Bool, if◌then◌else◌, ◌==◌,
}
use os.Clib.Move.{Bytes, store}
use os.Usermem.Copyinout.{userspacetop, copyin, copyout, copyinstr, copyoutstr}
use os.Usermem.Copyinout.Laws.{copyin-Copied}
use os.Usermem.Copyinout.Strings.{copyinstr_lem}
use os.Usermem.Copyinout.Bounds.{copyout_bounds}
use os.Usermem.Uio.{uio_kinit, Transfer, read, sys, Uio, uiomove}
use os.Usermem.Uio.Sums.{IsValid, transferred}
use os.Usermem.Uio.Laws.{uiomove-uio_kinit, Done, uiomove-Done}

abbrev all : ℕ → Bool
all _ = true

abbrev kernel_buffer : ℕ
kernel_buffer = 2147484000

-- A string of five letters at 4096.
abbrev hello : Bytes
hello x = if x == 4101 then 0 else 104

copyout_bounds_example :
    ((x : ℕ)
      → userspacetop ≤ x
      → ((copyout all kernel_buffer 2147483640 16 hello).0 x ≡ hello x)
        × ((copyoutstr all kernel_buffer 2147483640 16 hello).mem x ≡ hello x))
    × ((copyout all kernel_buffer 2147483640 16 hello).1 ≡ 0
        → (0 < 16) × (2147483640 + 16 ≤ userspacetop))
copyout_bounds_example =
    copyout_bounds all kernel_buffer 2147483640 16 hello (omega arith) (omega arith)

copyin-Copied_example :
    ((0 < 8)
      × (4096 + 8 ≤ userspacetop)
      × ((copyin all 4096 kernel_buffer 8 hello).1 ≡ 0)
      × ((x : ℕ)
          → (copyin all 4096 kernel_buffer 8 hello).0 x ≡ store 8 kernel_buffer 4096 hello x))
    ⊎ (((◌≡◌ {A = ℕ} 8 0) ⊎ (userspacetop < 4096 + 8))
        × (copyin all 4096 kernel_buffer 8 hello ≡ (hello, efault)))
copyin-Copied_example =
    copyin-Copied all (λ _. refl) 4096 kernel_buffer 8 hello (omega arith) (omega arith)
      (omega arith)

copyinstr_lem_example :
    ((5 < 64)
      × (((copyinstr all 4096 kernel_buffer 64 hello).result ≡ 0)
          × ((copyinstr all 4096 kernel_buffer 64 hello).gotlen ≡ some 6)
          × ((x : ℕ)
              → (copyinstr all 4096 kernel_buffer 64 hello).mem x
                ≡ store 6 kernel_buffer 4096 hello x)))
    ⊎ ((64 ≤ 5)
        × ((copyinstr all 4096 kernel_buffer 64 hello).result ≡ enametoolong)
        × ((copyinstr all 4096 kernel_buffer 64 hello).gotlen ≡ none))
copyinstr_lem_example =
    copyinstr_lem all (λ _. refl) 5 4096 kernel_buffer 64 hello (omega arith)
      (refl, λ i lt. ground arith) (omega arith) (omega arith) (omega arith) (omega arith)

-- Two buffers of 8 and 4 bytes with an empty one between them.
abbrev buffers : Uio
buffers = record {
  uio_iov =
      record { iov_base = 3000; iov_len = 8 }
      ∷ record { iov_base = 4000; iov_len = 0 }
      ∷ record { iov_base = 5000; iov_len = 4 }
      ∷ [];
  uio_iovcnt = 3;
  uio_offset = 100;
  uio_resid = 12;
  uio_segflg = sys;
  uio_rw = read;
  uio_space = none;
}

buffers-IsValid : IsValid buffers
buffers-IsValid = record { counted = refl; held = refl; word = omega arith; short = omega arith }

uiomove-Done_example :
    Done read
      (record { mem = hello; ptr = 9000; n = 10; uio = buffers })
      (uiomove all none 9000 10 buffers hello)
uiomove-Done_example = uiomove-Done all none 9000 10 buffers hello refl refl buffers-IsValid

-- The ninth byte goes to the third buffer.
ninth : transferred read buffers.uio_iov 9000 10 (λ x. x) 5000 ≡ 9008
unfolding transferred store
ninth = refl

uiomove-uio_kinit_case :
    (t : Transfer) × (uiomove all none 9000 10 (uio_kinit 9004 16 100 read) hello ≡ ok (t, 0))
    × (t.uio.uio_resid ≡ 16 - 10)
    × (t.uio.uio_offset ≡ 100 + 10)
    × ((x : ℕ) → t.mem x ≡ store 10 9004 9000 hello x)
uiomove-uio_kinit_case =
    uiomove-uio_kinit all none 9000 10 9004 16 100 hello (omega arith) (omega arith)
