-- ===== src/Sdb/Breakpoints.antt =====
-- HW4/ins.cpp: `setbreak`, `checkbp`, `restore` and the commands break, delete and list.
pub mod Twice
pub mod Numbers
use advanced_programmin.Prelude.{
  ℕ, suc, ◌+◌, ◌-◌, ◌%◌, ◌^◌, String, Bool, true, false, ◌||◌, Option, none, some, List, [], ◌∷◌,
  ◌++◌, length, get_elem?, erase_at, ◌==◌, if◌then◌else◌,
}
use advanced_programmin.Prelude.Int.{ℤ, pos, negsuc, to_int, lebℤ}
use advanced_programmin.Sdb.Types.{State, running, Bp, Regs}
use advanced_programmin.Sdb.Os.{Os}
use advanced_programmin.Sdb.Exec.{
  case_option, Out, err, bp_line, deleted, undefined, uncaught, Exec, pure, stop, get_program,
  get_kernel, errquit, set_program, attempt, say, say_all, ◌>>=◌, ◌>>◌,
}
use advanced_programmin.Sdb.Scan.{Converted, value, stoul16, stoi}
use advanced_programmin.Sdb.Memory.{add64, change_byte}

-- The `int` that the commands return: 0 or -1.
pub data Status : Type 0 where
  success failure : Status

abbrev pub is_running : State → Bool
is_running running = true
is_running _ = false

-- `x - 1` on `unsigned long long`.
abbrev pub pred64 : ℕ → ℕ
pred64 x = (x + 2 ^ 64 - 1) % 2 ^ 64

-- The search of `setbreak`.
unfoldable pub has_addr : ℕ → List Bp → Bool
has_addr addr [] = false
has_addr addr (bp ∷ bps) = addr == bp.addr || has_addr addr bps

-- The search of `checkbp`: the number of the first breakpoint at `target`.
unfoldable pub find_bp : ℕ → ℕ → List Bp → Option ℕ
find_bp base target [] = none
find_bp base target (bp ∷ bps) =
    let rest = find_bp base target bps in
    if target == add64 base bp.addr
    then some 0
    else elim rest [ none ↦ none | some i ↦ some (suc i) ]

-- `data[0] == 0xcc ? bpid : -1`, at the word read before the breakpoints are written again
abbrev pub hit_of : ℕ → Option ℕ → Option ℕ
hit_of here none = none
hit_of here (some i) = if here % 256 == 0xcc then some i else none

-- What `list` prints, from the number `i` on.
unfoldable pub bp_lines : ℕ → List Bp → List Out
bp_lines i [] = []
bp_lines i (bp ∷ bps) = bp_line i bp.addr ∷ bp_lines (i + 1) bps

module _ (os : Os) where
  abbrev pub fail : String → Exec os.Kernel Status
  fail msg = do say (err msg); pure failure

  unfoldable pub setbreak : ℕ → Exec os.Kernel Status
  setbreak addr = do
    bps ← get_program (λ p. p.bplist)
    if has_addr addr bps then pure failure else do
      base ← get_program (λ p. p.base_address)
      ovalue ← change_byte os (add64 base addr) 0xcc
      set_program
          (λ p. record p { bplist = p.bplist ++ (record { addr = addr; ovalue = ovalue } ∷ []) })
      pure success

  -- `insbreak` from the conversion on; an exception of `stoul` is not caught
  unfoldable pub break_at : Converted ℕ → Exec os.Kernel Status
  break_at (value addr) = setbreak addr >> pure success
  break_at _ = stop uncaught

  unfoldable pub insbreak : List String → Exec os.Kernel Status
  unfolding break_at
  insbreak (arg ∷ []) = do
    state ← get_program (λ p. p.state)
    if is_running state then break_at (stoul16 arg) else fail "** program is NOT running.\n"
  insbreak _ = fail "** Instruction Error: break\n"

  -- the loop that writes the breakpoints again
  unfoldable pub arm_all : ℕ → List Bp → Exec os.Kernel Unit
  arm_all base [] = pure tt
  arm_all base (bp ∷ bps) = do change_byte os (add64 base bp.addr) 0xcc; arm_all base bps

  -- `checkbp` once the registers are read
  unfoldable pub check_at : Regs → Exec os.Kernel (Option ℕ)
  check_at regs = do
    set_program (λ p. record p { regs = regs })
    pid ← get_program (λ p. p.pid)
    here ← get_kernel (os.peek pid (pred64 regs.rip))
    base ← get_program (λ p. p.base_address)
    bps ← get_program (λ p. p.bplist)
    arm_all base bps
    pure (hit_of here (find_bp base (pred64 regs.rip) bps))

  -- `none` is the result -1
  unfoldable pub checkbp : Exec os.Kernel (Option ℕ)
  checkbp = do
    pid ← get_program (λ p. p.pid)
    regs ← get_kernel (os.getregs pid)
    case_option regs (errquit "** ptrace error ") check_at

  -- `program.bplist[i]`
  unfoldable pub nth_bp : ℕ → Exec os.Kernel Bp
  nth_bp i = do
    bps ← get_program (λ p. p.bplist)
    case_option (get_elem? bps i) (stop undefined) pure

  unfoldable pub restore_at : ℕ → Regs → Exec os.Kernel Status
  restore_at bpid regs = do
    set_program (λ p. record p { regs = regs })
    bp ← nth_bp bpid
    base ← get_program (λ p. p.base_address)
    change_byte os (add64 base bp.addr) bp.ovalue
    let back = record regs { rip = pred64 regs.rip }
    set_program (λ p. record p { regs = back })
    pid ← get_program (λ p. p.pid)
    good ← attempt (os.setregs pid back)
    if good then pure success else fail "** ptrace(SETREGS)"

  unfoldable pub restore : ℕ → Exec os.Kernel Status
  restore bpid = do
    pid ← get_program (λ p. p.pid)
    regs ← get_kernel (os.getregs pid)
    case_option regs (fail "** ptrace error: GETREGS") (restore_at bpid)

  unfoldable pub remove_bp : ℕ → Exec os.Kernel Status
  remove_bp i = do
    bp ← nth_bp i
    base ← get_program (λ p. p.base_address)
    change_byte os (add64 base bp.addr) bp.ovalue
    set_program (λ p. record p { bplist = erase_at p.bplist i })
    say (deleted i)
    pure success

  -- `program.bplist[bpid]`, where a negative number is no index
  unfoldable pub delete_nth : ℤ → Exec os.Kernel Status
  delete_nth (pos i) = remove_bp i
  delete_nth (negsuc n) = stop undefined

  -- A negative number passes the test.
  unfoldable pub delete_bp : ℤ → Exec os.Kernel Status
  delete_bp bpid = do
    bps ← get_program (λ p. p.bplist)
    if lebℤ (to_int (length bps)) bpid then pure failure else delete_nth bpid

  -- `insdelete` from the conversion on
  unfoldable pub delete_at : Converted ℤ → Exec os.Kernel Status
  delete_at (value bpid) = delete_bp bpid
  delete_at _ = stop uncaught

  unfoldable pub insdelete : List String → Exec os.Kernel Status
  unfolding delete_at
  insdelete (arg ∷ []) = do
    state ← get_program (λ p. p.state)
    if is_running state then delete_at (stoi arg) else fail "** program is NOT running.\n"
  insdelete _ = fail "** Instruction Error: delete\n"

  unfoldable pub list_all : Exec os.Kernel Status
  list_all = do bps ← get_program (λ p. p.bplist); say_all (bp_lines 0 bps); pure success

  -- too many arguments are reported, and the list is printed all the same
  unfoldable pub inslist : List String → Exec os.Kernel Status
  inslist [] = list_all
  inslist (_ ∷ _) = do say (err "** Instruction Error: list\n"); list_all
