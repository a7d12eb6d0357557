-- ===== src/Mini.antt =====
-- HW3: a small C library over system calls. A pointer to an object that the code reads is the
-- object's bytes from there on, and a pointer that only the kernel writes through is a number.
pub mod Calls
pub mod Text
pub mod Signals
pub mod Jump
pub mod Sleep
use advanced_programmin.Prelude.{ℕ, List}
use advanced_programmin.Prelude.Int.{ℤ}

-- An argument of a system call.
pub data Arg : Type 0 where
  num : ℤ → Arg
  bytes : List ℕ → Arg

-- The kernel: a system call by its number, which returns a `long`. A result is a number of 64
-- bits, and no error is its least one.
pub record System : Type 1 where
  pub Kernel : Type 0
  pub syscall : ℕ → List Arg → Kernel → ℤ × Kernel

pub record World (K : Type 0) : Type 0 where
  pub errno : ℤ
  pub kernel : K
