-- ===== src/Mini/Sleep.antt =====
-- HW3/libmini64.asm: `sleep`, over a kernel that gives the result of `nanosleep` and the seconds that it
-- leaves in its second argument.
use advanced_programmin.Prelude.{ℕ, suc, ◌≡◌, ◌≢◌, refl, ◌==◌, if◌then◌else◌, arith}
use advanced_programmin.Prelude.Int.{ℤ, pos, negsuc, bits}

pub record Clock : Type 1 where
  pub Kernel : Type 0
  pub nanosleep : ℕ → ℕ → Kernel → (ℤ × ℕ) × Kernel

-- EINTR
abbrev pub eintr : ℕ
eintr = 4

-- the value of rax as an `unsigned int`, from the result and the seconds that remain
abbrev pub slept : ℤ → ℕ → ℕ
slept (pos n) rem = bits 32 (pos n)
slept (negsuc n) rem = if suc n == eintr then bits 32 (pos rem) else 0

module _ (clock : Clock) where
  -- `errno` is not touched.
  unfoldable pub sleep : ℕ → clock.Kernel → ℕ × clock.Kernel
  sleep seconds k = let ((ret, rem), k') = clock.nanosleep seconds 0 k in (slept ret rem, k')

  -- A full sleep, and one that fails for another reason than a signal, both return 0.
  sleep_zero :
      (seconds : ℕ) (k : clock.Kernel) (ret : ℤ)
      → (clock.nanosleep seconds 0 k).0.0 ≡ ret
      → ret ≢ negsuc 3
      → ((n : ℕ) → ret ≡ pos n → n ≡ 0)
      → (sleep seconds k).0 ≡ 0
  unfolding sleep
  sleep_zero seconds k (pos n) e other full = rw (e, full n refl) refl
  sleep_zero seconds k (negsuc n) e other full = rw e (ground arith)
