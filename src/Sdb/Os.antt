-- ===== src/Sdb/Os.antt =====
-- What the debugger calls and does not implement: `ptrace`, `waitpid`, `fork`, files and capstone.
-- `Os` has the calls, over a state of the kernel and of the traced process that nothing is assumed
-- of; `Ptrace` states the documented behaviour of the memory and register requests.
use advanced_programmin.Prelude.{
  ℕ, zero, suc, ◌+◌, ◌-◌, ◌*◌, ◌/◌, ◌%◌, ◌^◌, ◌<◌, String, ◌≡◌, Bool, ◌&&◌, Option, some, List, leb,
  ltb, if◌then◌else◌,
}
use advanced_programmin.Sdb.Types.{Regs, Argv}

-- `cs_insn`
pub record Insn : Type 0 where
  pub address : ℕ
  pub size : ℕ
  pub bytes : List ℕ
  pub mnemonic : String
  pub op_str : String

pub record Os : Type 1 where
  pub Kernel : Type 0
  -- PTRACE_GETREGS and PTRACE_SETREGS; `none` is a result other than 0
  pub getregs : ℕ → Kernel → Option Regs
  pub setregs : ℕ → Regs → Kernel → Option Kernel
  -- PTRACE_PEEKTEXT, PTRACE_PEEKDATA: the `long` as its 64 bits (all ones on failure)
  pub peek : ℕ → ℕ → Kernel → ℕ
  -- PTRACE_POKETEXT; `none` is a result other than 0
  pub poke : ℕ → ℕ → ℕ → Kernel → Option Kernel
  pub singlestep : ℕ → Kernel → Kernel
  pub cont : ℕ → Kernel → Kernel
  pub setoptions : ℕ → Kernel → Kernel
  -- `waitpid`: `none` is a result below 0, else the status
  pub waitpid : ℕ → Kernel → Option ℕ × Kernel
  -- `fork` as the parent sees it; the child runs PTRACE_TRACEME and `execvp` of the path
  pub fork_exec : String → Argv → Kernel → ℕ × Kernel
  -- the words of /proc/PID/stat, where the file can be opened
  pub proc_stat : ℕ → Kernel → Option (List String)
  -- the text of /proc/PID/maps, where the file can be opened
  pub proc_maps : ℕ → Kernel → Option String
  -- the bytes of a file that can be opened for reading
  pub open_file : String → Kernel → Option (List ℕ)
  -- the value of a 64-bit local variable that was never written
  pub indeterminate : Kernel → ℕ
  -- whether `cs_open` succeeds, and what `cs_disasm` finds: code, size, start, count
  pub cs_open : Bool
  pub cs_disasm : List ℕ → ℕ → ℕ → ℕ → List Insn

-- The little-endian number in `n` bytes from `a`.
abbrev pub word : ℕ → (ℕ → ℕ) → ℕ → ℕ
word zero f a = 0
word (suc n) f a = f a + 256 * word n f (suc a)

abbrev pub nth_byte : ℕ → ℕ → ℕ
nth_byte zero w = w % 256
nth_byte (suc i) w = nth_byte i (w / 256)

-- Memory in which the word at `a` has been written.
abbrev pub written : (ℕ → ℕ) → ℕ → ℕ → ℕ → ℕ
written f a w b = if leb a b && ltb b (a + 8) then nth_byte (b - a) w else f b

pub record Ptrace (os : Os) : Type 1 where
  -- the process's memory, byte by byte, and where a word of it can be reached
  pub byte : ℕ → os.Kernel → ℕ → ℕ
  pub Mapped : ℕ → os.Kernel → ℕ → Type 0
  pub byte_lt : (pid : ℕ) (k : os.Kernel) (a : ℕ) → byte pid k a < 256
  -- PEEKTEXT reads a word, POKETEXT writes one, and both reach what is mapped
  pub peek_word :
      (pid : ℕ) (k : os.Kernel) (a : ℕ) → Mapped pid k a → os.peek pid a k ≡ word 8 (byte pid k) a
  pub poke_total :
      (pid : ℕ) (k : os.Kernel) (a w : ℕ)
      → Mapped pid k a
      → (k' : os.Kernel) × (os.poke pid a w k ≡ some k')
  pub poke_word :
      (pid : ℕ) (k k' : os.Kernel) (a w : ℕ)
      → Mapped pid k a
      → w < 2 ^ 64
      → os.poke pid a w k ≡ some k'
      → (b : ℕ) → byte pid k' b ≡ written (byte pid k) a w b
  pub poke_mapped :
      (pid : ℕ) (k k' : os.Kernel) (a w : ℕ)
      → os.poke pid a w k ≡ some k'
      → (b : ℕ) → Mapped pid k b
      → Mapped pid k' b
  pub poke_regs :
      (pid : ℕ) (k k' : os.Kernel) (a w : ℕ)
      → os.poke pid a w k ≡ some k'
      → os.getregs pid k' ≡ os.getregs pid k
  -- The registers that SETREGS writes as they are: a kernel may refuse to modify some, and masks bits
  -- of the flags without an error. GETREGS returns those that were written so. Registers just read
  -- with another instruction pointer are written so. SETREGS leaves the memory alone.
  pub Taken : ℕ → os.Kernel → Regs → Type 0
  pub rip_taken :
      (pid : ℕ) (r : Regs) (k : os.Kernel) (a : ℕ)
      → os.getregs pid k ≡ some r
      → Taken pid k (record r { rip = a })
  pub setregs_regs :
      (pid : ℕ) (r : Regs) (k k' : os.Kernel)
      → Taken pid k r
      → os.setregs pid r k ≡ some k'
      → os.getregs pid k' ≡ some r
  pub setregs_byte :
      (pid : ℕ) (r : Regs) (k k' : os.Kernel)
      → os.setregs pid r k ≡ some k'
      → (b : ℕ) → byte pid k' b ≡ byte pid k b
  pub setregs_mapped :
      (pid : ℕ) (r : Regs) (k k' : os.Kernel)
      → os.setregs pid r k ≡ some k'
      → (b : ℕ) → Mapped pid k b
      → Mapped pid k' b
