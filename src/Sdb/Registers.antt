-- ===== src/Sdb/Registers.antt =====
-- HW4/ins.cpp: the commands get, getregs and set.
pub mod SetGet
use advanced_programmin.Prelude.{
  ℕ, String, Option, none, some, List, [], ◌∷◌, str_eq, if◌then◌else◌,
}
use advanced_programmin.Sdb.Types.{Regs}
use advanced_programmin.Sdb.Os.{Os}
use advanced_programmin.Sdb.Exec.{
  case_option, err, reg_line, reg_table, Exec, pure, get_program, get_kernel, errquit, set_program,
  attempt, say, ◌>>=◌, ◌>>◌,
}
use advanced_programmin.Sdb.Scan.{sscanf_0x}
use advanced_programmin.Sdb.Breakpoints.{Status, success, failure, is_running, fail}

-- The register that `get` prints for a name.
unfoldable pub get_reg : String → Regs → Option ℕ
get_reg name regs =
    if str_eq name "rax"
    then some regs.rax
    else if str_eq name "rbx"
    then some regs.rbx
    else if str_eq name "rcx"
    then some regs.rcx
    else if str_eq name "rdx"
    then some regs.rdx
    else if str_eq name "r8"
    then some regs.r8
    else if str_eq name "r9"
    then some regs.r9
    else if str_eq name "r10"
    then some regs.r10
    else if str_eq name "r11"
    then some regs.r11
    else if str_eq name "r12"
    then some regs.r12
    else if str_eq name "r13"
    then some regs.r13
    else if str_eq name "r14"
    then some regs.r14
    else if str_eq name "r15"
    then some regs.r15
    else if str_eq name "rdi"
    then some regs.rdi
    else if str_eq name "rsi"
    then some regs.rsi
    else if str_eq name "rbp"
    then some regs.rbp
    else if str_eq name "rsp"
    then some regs.rsp
    else if str_eq name "rip"
    then some regs.rip
    else if str_eq name "flags"
    then some regs.eflags
    else none

-- The assignment of `set`.
unfoldable pub set_reg : String → ℕ → Regs → Option Regs
set_reg name v regs =
    if str_eq name "rax"
    then some (record regs { rax = v })
    else if str_eq name "rbx"
    then some (record regs { rbx = v })
    else if str_eq name "rcx"
    then some (record regs { rcx = v })
    else if str_eq name "rdx"
    then some (record regs { rdx = v })
    else if str_eq name "r8"
    then some (record regs { r8 = v })
    else if str_eq name "r9"
    then some (record regs { r9 = v })
    else if str_eq name "r10"
    then some (record regs { r10 = v })
    else if str_eq name "r11"
    then some (record regs { r11 = v })
    else if str_eq name "r12"
    then some (record regs { r12 = v })
    else if str_eq name "r13"
    then some (record regs { r13 = v })
    else if str_eq name "r14"
    then some (record regs { r14 = v })
    else if str_eq name "r15"
    then some (record regs { r15 = v })
    else if str_eq name "rdi"
    then some (record regs { rdi = v })
    else if str_eq name "rsi"
    then some (record regs { rsi = v })
    else if str_eq name "rbp"
    then some (record regs { rbp = v })
    else if str_eq name "rsp"
    then some (record regs { rsp = v })
    else if str_eq name "rip"
    then some (record regs { rip = v })
    else if str_eq name "flags"
    then some (record regs { eflags = v })
    else none

module _ (os : Os) where
  -- `insget` and `insset` from the successful PTRACE_GETREGS on
  unfoldable pub print_reg : String → Regs → Exec os.Kernel Status
  print_reg name regs = do
    set_program (λ p. record p { regs = regs })
    case_option (get_reg name regs) (fail os "** known register\n")
        (λ v. say (reg_line name v) >> pure success)

  unfoldable pub insget : List String → Exec os.Kernel Status
  insget (name ∷ []) = do
    state ← get_program (λ p. p.state)
    if is_running state
        then (do
          pid ← get_program (λ p. p.pid)
          regs ← get_kernel (os.getregs pid)
          case_option regs (errquit "** ptrace error ") (print_reg name))
        else fail os "** program is NOT running.\n"
  insget _ = fail os "** Instruction Error: get\n"

  -- A text that "0x%lx" does not match leaves `addr` as it was, never written.
  unfoldable pub scan_addr : String → Exec os.Kernel ℕ
  scan_addr text = case_option (sscanf_0x text) (get_kernel os.indeterminate) pure

  unfoldable pub put_regs : Regs → Exec os.Kernel Status
  put_regs new = do
    set_program (λ p. record p { regs = new })
    pid ← get_program (λ p. p.pid)
    good ← attempt (os.setregs pid new)
    if good then pure success else fail os "** ptrace(SETREGS)"

  unfoldable pub write_reg : String → String → Regs → Exec os.Kernel Status
  write_reg name text regs = do
    set_program (λ p. record p { regs = regs })
    v ← scan_addr text
    case_option (set_reg name v regs) (fail os "** known register\n") put_regs

  unfoldable pub insset : List String → Exec os.Kernel Status
  insset (name ∷ text ∷ []) = do
    state ← get_program (λ p. p.state)
    if is_running state
        then (do
          pid ← get_program (λ p. p.pid)
          regs ← get_kernel (os.getregs pid)
          case_option regs (errquit "** ptrace error ") (write_reg name text))
        else fail os "** program is NOT running.\n"
  insset _ = fail os "** Instruction Error: set\n"

  unfoldable pub print_regs : Regs → Exec os.Kernel Status
  print_regs r = do set_program (λ p. record p { regs = r }); say (reg_table r); pure success

  unfoldable pub insgetregs : List String → Exec os.Kernel Status
  insgetregs [] = do
    state ← get_program (λ p. p.state)
    if is_running state
        then (do
          pid ← get_program (λ p. p.pid)
          regs ← get_kernel (os.getregs pid)
          case_option regs (fail os "** ptrace error: GETREGS") print_regs)
        else fail os "** program is NOT running.\n"
  insgetregs _ = fail os "** Instruction Error: getregs\n"
