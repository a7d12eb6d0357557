-- ===== src/Mini/Signals/Handler.antt =====
-- HW3/libmini.c: what `signal` asks of the kernel, and what it returns.
use Prim.Native.Nat.{bit_or, bit_or-bitwise}
use advanced_programmin.Prelude.{ℕ, suc, ◌-◌, ◌^◌, ◌≤◌, ◌<◌, ◌≡◌, refl, Option, none, some}
use advanced_programmin.Prelude.Int.{ℤ, pos, negsuc, to_i32}
use advanced_programmin.Mini.{World}
use advanced_programmin.Mini.Calls.{retval}
use advanced_programmin.Mini.Text.{memset, fill}
use advanced_programmin.Mini.Signals.{
  Sigaction, SignalSystem, sig_err, sigemptyset, sigaddset, sigaction, signal, old_handler,
}
use advanced_programmin.Mini.Signals.Sets.{valid_lem}

bit_or_zero_left : (x : ℕ) → bit_or 0 x ≡ x
bit_or_zero_left x = simp bit_or-bitwise refl

sigemptyset_lem : (junk : ℕ) → sigemptyset junk ≡ some (pos 0, 0)
unfolding sigemptyset memset fill
sigemptyset_lem junk = refl

sigaddset_empty :
    {K : Type 0} (n : ℕ) (w : World K)
    → 0 < n
    → n ≤ 64
    → sigaddset 0 (pos n) w ≡ ((pos 0, 2 ^ (n - 1)), w)
unfolding sigaddset
sigaddset_empty n w h0 h =
    rw (sigaddset, valid_lem n h0 h) (rw (bit_or_zero_left (2 ^ (n - 1))) refl)

module _ (sys : SignalSystem) where
  -- the action that is asked for
  abbrev pub request : ℕ → ℕ → Sigaction
  request n handler = record {
    sa_handler = handler;
    sa_flags = 0x1400_0000;
    sa_restorer = sys.myrt;
    sa_mask = 2 ^ (n - 1);
  }

  -- The result of `signal` from the kernel's: the old handler, or an error and its number.
  abbrev pub answered :
      (ℤ × Option Sigaction) × sys.Kernel → World sys.Kernel → Option ℕ × World sys.Kernel
  answered ((negsuc e, old), k) w = (some sig_err, record w { errno = pos (suc e); kernel = k })
  answered ((pos m, none), k) w = (none, record w { errno = pos 0; kernel = k })
  answered ((pos m, some old), k) w = (some old.sa_handler, record w { errno = pos 0; kernel = k })

  -- A result of `rt_sigaction` is 0 or an error.
  abbrev pub ZeroOrError : (ℤ × Option Sigaction) × sys.Kernel → Type 0
  ZeroOrError ((negsuc e, old), k) = Unit
  ZeroOrError ((pos m, old), k) = m ≡ 0

  -- the rest of `signal` after the system call
  abbrev concluded :
      (ℤ × Option Sigaction) × sys.Kernel → World sys.Kernel → Option ℕ × World sys.Kernel
  concluded r w =
      let ((ret, old), k) = r in
      let (re, w') = retval to_i32 (ret, k) w in (old_handler sys re old, w')

  concluded_lem :
      (r : (ℤ × Option Sigaction) × sys.Kernel) (w : World sys.Kernel)
      → ZeroOrError r
      → concluded r w ≡ answered r w
  concluded_lem ((negsuc e, old), k) w h = refl
  concluded_lem ((pos m, none), k) w h = rw h refl
  concluded_lem ((pos m, some old), k) w h = rw h refl

  -- For a signal from 1 to 64, with a kernel whose result is 0 or an error, `signal` asks the kernel
  -- for the handler, with the restorer, both flags and a mask of this signal alone, whatever was on
  -- the stack; it returns the old handler and leaves `errno` 0, or -1 and the error's number.
  pub signal_lem :
      (junk : Sigaction) (n handler : ℕ) (w : World sys.Kernel)
      → ((a : Sigaction) → ZeroOrError (sys.rt_sigaction (pos n) a w.kernel))
      → 0 < n
      → n ≤ 64
      → signal sys junk (pos n) handler w
        ≡ answered (sys.rt_sigaction (pos n) (request n handler) w.kernel) w
  unfolding signal sigaction
  signal_lem junk n handler w law h0 h =
      rw (signal, valid_lem n h0 h)
        (rw (sigemptyset_lem junk.sa_mask) (
          rw (sigaddset_empty n w h0 h) (
            concluded_lem (sys.rt_sigaction (pos n) (request n handler) w.kernel) w
              (law (request n handler)))))
