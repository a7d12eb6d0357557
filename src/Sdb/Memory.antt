-- ===== src/Sdb/Memory.antt =====
-- HW4/util.cpp: `change_byte`, by which breakpoints are set and removed.
mod Bytes
pub mod Writes
pub mod Frame
use Prim.Native.Nat.{bit_and, bit_or}
use advanced_programmin.Prelude.{ℕ, ◌%◌, ◌^◌, ◌+◌, if◌then◌else◌}
use advanced_programmin.Sdb.Os.{Os}
use advanced_programmin.Sdb.Exec.{Exec, pure, get_program, get_kernel, attempt, errquit, ◌>>=◌}

-- `unsigned long` addition.
abbrev pub add64 : ℕ → ℕ → ℕ
add64 a b = (a + b) % 2 ^ 64

module _ (os : Os) where
  unfoldable pub change_byte : ℕ → ℕ → Exec os.Kernel ℕ
  change_byte addr value = do
    pid ← get_program (λ p. p.pid)
    ovalue ← get_kernel (os.peek pid addr)
    good ← attempt (os.poke pid addr (bit_or (bit_and ovalue 0xffff_ffff_ffff_ff00) value))
    if good then pure (ovalue % 256) else errquit "** ptrace(POKETEXT)"
