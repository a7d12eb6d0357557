-- ===== src/Sdb/Exec.antt =====
-- The debugger's functions as actions on the global `program`, the kernel and what was printed. An
-- action returns, or the debugger stops: by `exit`, by an exception that nothing catches, or by
-- behaviour that C++ leaves undefined.
pub mod Maintains
use advanced_programmin.Prelude.{
  ℕ, String, Bool, true, false, Option, none, some, List, [], ◌∷◌, ◌++◌,
}
use advanced_programmin.Sdb.Types.{Program, Regs}
use advanced_programmin.Sdb.Os.{Insn}

-- What is printed, a constructor for each `printf` that has arguments.
pub data Out : Type 0 where
  text err : String → Out  -- a fixed text on stdout, on stderr
  err_path : String → Out  -- "** program %s is already running\n"
  unknown : String → Out  -- "** known instruction: %s\n"
  bp_line : ℕ → ℕ → Out  -- "  %d:%8llx\n"
  deleted : ℕ → Out  -- "** breakpoint %d deleted\n"
  reg_line : String → ℕ → Out  -- "%s = %llu (0x%llx)\n"
  reg_table : Regs → Out
  dump_row : ℕ → List ℕ → Out  -- "      %06llx: " and the bytes, in hex and as text
  insn_line : Insn → Out
  loaded_line : String → ℕ → Out  -- "** program '%s' loaded. entry point 0x%lx\n"
  pid_line : ℕ → Out  -- "** pid %d\n"
  ended : ℕ → ℕ → Out  -- "** chlid process %d terminiated normally (code %d)\n"
  map_line : ℕ → ℕ → String → ℕ → String → Out  -- "%016llx-%016llx %c%c%c %llu        %s\n"
  killed : ℕ → Out  -- "** %d stop by signal"

pub record World (K : Type 0) : Type 0 where
  pub program : Program
  pub kernel : K
  pub out : List Out  -- the latest first

pub data Stop : Type 0 where
  exited : ℕ → Stop
  uncaught : Stop
  undefined : Stop

pub data Outcome (K A : Type 0) : Type 0 where
  done : A → World K → Outcome K A
  stopped : Stop → World K → Outcome K A

abbrev pub Exec : Type 0 → Type 0 → Type 0
Exec K A = World K → Outcome K A

module _ {K A : Type 0} where
  pub pure : A → Exec K A
  pure a w = done a w

  pub stop : Stop → Exec K A
  stop s w = stopped s w

  pub get_program : (Program → A) → Exec K A
  get_program f w = done (f w.program) w

  pub get_kernel : (K → A) → Exec K A
  get_kernel f w = done (f w.kernel) w

  -- a kernel call with a result
  pub call : (K → A × K) → Exec K A
  call f w = let (a, k) = f w.kernel in done a (record w { kernel = k })

  -- util.cpp, `errquit`: `perror`, then `exit(-1)`
  pub errquit : String → Exec K A
  errquit msg w = stopped (exited 255) (record w { out = err msg ∷ w.out })

module _ {K : Type 0} where
  pub set_program : (Program → Program) → Exec K Unit
  set_program f w = done tt (record w { program = f w.program })

  pub act : (K → K) → Exec K Unit
  act f w = done tt (record w { kernel = f w.kernel })

  abbrev pub attempted : World K → Option K → Outcome K Bool
  attempted w none = done false w
  attempted w (some k) = done true (record w { kernel = k })

  -- a kernel call that changes nothing where it fails; whether it succeeded
  pub attempt : (K → Option K) → Exec K Bool
  attempt f w = attempted w (f w.kernel)

  pub say : Out → Exec K Unit
  say o w = done tt (record w { out = o ∷ w.out })

  pub say_all : List Out → Exec K Unit
  say_all [] w = done tt w
  say_all (o ∷ os) w = say_all os (record w { out = o ∷ w.out })

module _ {K A B : Type 0} where
  -- a branch on a result that may be missing
  pub case_option : Option A → Exec K B → (A → Exec K B) → Exec K B
  case_option none m f = m
  case_option (some a) m f = f a

  abbrev pub continue : Outcome K A → (A → Exec K B) → Outcome K B
  continue (done a w) f = f a w
  continue (stopped s w) f = stopped s w

  infixl 5 ◌>>=◌ ◌>>◌
  -- Opening this opens the primitive actions too.
  unfoldable pub ◌>>=◌ : Exec K A → (A → Exec K B) → Exec K B
  unfolding pure stop get_program get_kernel call errquit set_program act attempt say say_all
      case_option
  ◌>>=◌ m f w = continue (m w) f

  abbrev pub ◌>>◌ : Exec K A → Exec K B → Exec K B
  m >> n = m >>= λ _. n
