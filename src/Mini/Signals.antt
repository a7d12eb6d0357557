-- ===== src/Mini/Signals.antt =====
-- HW3/libmini.c: signals and sets of signals. A set is its 64 bits as a number, and a handler an
-- address. What the stack holds before it is written is an argument, `junk`.
pub mod Sets
pub mod Handler
use Prim.Native.Nat.{bit_and, bit_or}
use advanced_programmin.Prelude.{
  ℕ, zero, suc, ◌+◌, ◌-◌, ◌*◌, ◌/◌, ◌%◌, ◌^◌, Bool, true, false, Option, none, some, List, [], ◌∷◌,
  ◌==◌, ltb, leb, if◌then◌else◌,
}
use advanced_programmin.Prelude.Int.{ℤ, pos, negsuc, bits, to_int, to_i32}
use advanced_programmin.Mini.{World}
use advanced_programmin.Mini.Calls.{retval}
use advanced_programmin.Mini.Text.{memset}

pub record Sigaction : Type 0 where
  pub sa_handler : ℕ
  pub sa_flags : ℕ
  pub sa_restorer : ℕ
  pub sa_mask : ℕ

-- The kernel's part: a result, and what it writes through the pointer to the old value.
pub record SignalSystem : Type 1 where
  pub Kernel : Type 0
  pub rt_sigaction : ℤ → Sigaction → Kernel → (ℤ × Option Sigaction) × Kernel
  pub rt_sigprocmask : ℤ → Option ℕ → Kernel → (ℤ × Option ℕ) × Kernel
  pub rt_sigpending : Kernel → (ℤ × Option ℕ) × Kernel
  pub myrt : ℕ

abbrev pub einval : ℕ
einval = 22

abbrev pub sig_err : ℕ
sig_err = 2 ^ 64 - 1

abbrev pub sa_restart : ℕ
sa_restart = 0x1000_0000

abbrev pub sa_restorer_flag : ℕ
sa_restorer_flag = 0x0400_0000

abbrev pub sig_block : ℤ
sig_block = pos 0

abbrev pub sig_setmask : ℤ
sig_setmask = pos 2

-- `1ul << (signum - 1)`
abbrev pub sigmask : ℕ → ℕ
sigmask signum = 2 ^ (signum - 1)

-- `signum <= 0 || signum > 64`, negated, with the number it is
abbrev pub valid_signum : ℤ → Option ℕ
valid_signum (pos n) = if ltb 0 n then (if leb n 64 then some n else none) else none
valid_signum (negsuc n) = none

module _ {K : Type 0} where
  abbrev pub invalid : World K → World K
  invalid w = record w { errno = pos einval }

  -- `int s` keeps 32 bits of the mask, and `*set & s` extends its sign to 64.
  unfoldable pub sigismember : ℕ → ℤ → World K → ℤ × World K
  sigismember set signum w = elim (valid_signum signum) [
    | none ↦ (negsuc 0, invalid w)
    | some n ↦
        let s = to_int (sigmask n) in (if bit_and set (bits 64 s) == 0 then pos 0 else pos 1, w)
  ]

  unfoldable pub sigaddset : ℕ → ℤ → World K → (ℤ × ℕ) × World K
  sigaddset set signum w = elim (valid_signum signum) [
    | none ↦ ((negsuc 0, set), invalid w)
    | some n ↦ ((pos 0, bit_or set (sigmask n)), w)
  ]

-- The bytes of a word, the lowest first, and the word of some bytes.
abbrev pub to_bytes : ℕ → ℕ → List ℕ
to_bytes zero x = []
to_bytes (suc n) x = x % 256 ∷ to_bytes n (x / 256)

abbrev pub of_bytes : List ℕ → ℕ
of_bytes [] = 0
of_bytes (b ∷ bs) = b + 256 * of_bytes bs

-- A result, and the set.
unfoldable pub sigemptyset : ℕ → Option (ℤ × ℕ)
sigemptyset set = elim (memset (to_bytes 8 set) (pos 0) (pos 8)) [
  | none ↦ none
  | some bs ↦ some (pos 0, of_bytes bs)
]

module _ (sys : SignalSystem) where
  -- The result, the action that `act` points to then, and what is at `oldact`.
  unfoldable pub sigaction :
      ℤ → Sigaction → World sys.Kernel → (ℤ × Sigaction × Option Sigaction) × World sys.Kernel
  sigaction signum act w =
      let asked = record act {
        sa_flags = bit_or act.sa_flags sa_restorer_flag;
        sa_restorer = sys.myrt;
      } in
      let ((ret, old), k) = sys.rt_sigaction signum asked w.kernel in
      let (re, w') = retval to_i32 (ret, k) w in ((re, asked, old), w')

  unfoldable pub sigprocmask : ℤ → Option ℕ → World sys.Kernel → (ℤ × Option ℕ) × World sys.Kernel
  sigprocmask how set w =
      let ((ret, old), k) = sys.rt_sigprocmask how set w.kernel in
      let (re, w') = retval to_i32 (ret, k) w in ((re, old), w')

  unfoldable pub sigpending : World sys.Kernel → (ℤ × Option ℕ) × World sys.Kernel
  sigpending w =
      let ((ret, set), k) = sys.rt_sigpending w.kernel in
      let (re, w') = retval to_i32 (ret, k) w in ((re, set), w')

  -- The result of `sigaction` and the old action decide; one that is not written is not read.
  abbrev pub old_handler : ℤ → Option Sigaction → Option ℕ
  old_handler (negsuc n) old = some sig_err
  old_handler (pos n) none = none
  old_handler (pos n) (some old) = some old.sa_handler

  unfoldable pub signal : Sigaction → ℤ → ℕ → World sys.Kernel → Option ℕ × World sys.Kernel
  signal junk signum handler w = elim (valid_signum signum) [
    | none ↦ (some sig_err, invalid w)
    | some n ↦ elim (sigemptyset junk.sa_mask) [
      | none ↦ (none, w)
      | some (re, empty) ↦
          let ((re', mask), w') = sigaddset empty signum w in
          let act = record junk { sa_mask = mask; sa_handler = handler; sa_flags = sa_restart } in
          let ((re'', act', old), w'') = sigaction signum act w' in (old_handler re'' old, w'')
    ]
  ]

  -- The mask of `env`, which is not known where the kernel does not write it.
  unfoldable pub sigsetjmp : World sys.Kernel → (ℤ × Option ℕ) × World sys.Kernel
  sigsetjmp w =
      let ((ret, old), k) = sys.rt_sigprocmask sig_block none w.kernel in
      let (re, w') = retval to_i32 (ret, k) w in ((re, old), w')

  unfoldable pub siglongjmp : ℕ → World sys.Kernel → ℤ × World sys.Kernel
  siglongjmp mask w =
      let ((ret, old), k) = sys.rt_sigprocmask sig_setmask (some mask) w.kernel in
      retval to_i32 (ret, k) w
