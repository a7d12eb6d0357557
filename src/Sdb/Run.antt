-- ===== src/Sdb/Run.antt =====
-- HW4/start.cpp, and the commands cont, si, run and start of HW4/ins.cpp.
pub mod Ends
use advanced_programmin.Prelude.{
  ℕ, ◌-◌, ◌%◌, ◌^◌, String, Bool, ◌&&◌, Option, none, some, List, [], ◌∷◌, get_elem?, ltb, ◌==◌,
  if◌then◌else◌,
}
use advanced_programmin.Sdb.Types.{State, loaded, running, rank, Bp}
use advanced_programmin.Sdb.Os.{Os}
use advanced_programmin.Sdb.Exec.{
  case_option, text, err, err_path, pid_line, ended, killed, Exec, pure, get_program, get_kernel,
  call, errquit, set_program, act, say, ◌>>=◌, ◌>>◌,
}
use advanced_programmin.Sdb.Scan.{scan_lu}
use advanced_programmin.Sdb.Memory.{add64, change_byte}
use advanced_programmin.Sdb.Breakpoints.{
  Status, success, is_running, fail, checkbp, nth_bp, restore,
}
use advanced_programmin.Sdb.Disasm.{sub64, capstone_disasm}

-- WIFEXITED and WIFSIGNALED of <sys/wait.h>: the signal number is the low seven bits, 0 at an exit
-- and 127 at a stop.
abbrev pub wifexited : ℕ → Bool
wifexited status = status % 128 == 0

abbrev pub wifsignaled : ℕ → Bool
wifsignaled status = ltb 0 (status % 128) && ltb (status % 128) 127

module _ (os : Os) where
  -- the 26th word of /proc/PID/stat
  unfoldable pub start_code : List String → Exec os.Kernel ℕ
  start_code fields =
      case_option (get_elem? fields 25) (get_kernel os.indeterminate)
        (λ field. case_option (scan_lu field) (get_kernel os.indeterminate) pure)

  unfoldable pub get_base_address : Exec os.Kernel ℕ
  get_base_address = do
    pid ← get_program (λ p. p.pid)
    stat ← get_kernel (os.proc_stat pid)
    case_option stat (say (err "** fopen error: ") >> pure (2 ^ 64 - 1)) start_code

  -- the loop of `start`: every breakpoint is written, and keeps the byte that it now covers
  unfoldable pub arm_fresh : ℕ → List Bp → Exec os.Kernel (List Bp)
  arm_fresh base [] = pure []
  arm_fresh base (bp ∷ bps) = do
    ovalue ← change_byte os (add64 base bp.addr) 0xcc
    rest ← arm_fresh base bps
    pure (record bp { ovalue = ovalue } ∷ rest)

  unfoldable pub rearm_with : List Bp → Exec os.Kernel Status
  rearm_with armed = do
    set_program (λ p. record p { bplist = armed })
    pid ← get_program (λ p. p.pid)
    say (pid_line pid)
    pure success

  unfoldable pub rearm : ℕ → Exec os.Kernel Status
  rearm base = do bps ← get_program (λ p. p.bplist); armed ← arm_fresh base bps; rearm_with armed

  -- the parent's branch
  unfoldable pub spawn : Exec os.Kernel Status
  spawn = do
    path ← get_program (λ p. p.path)
    argv ← get_program (λ p. p.argv)
    pid ← call (os.fork_exec path argv)
    set_program (λ p. record p { pid = pid })
    call (os.waitpid pid)
    act (os.setoptions pid)
    set_program (λ p. record p { state = running })
    dynamic ← get_program (λ p. p.dynamic)
    base ← if dynamic then get_base_address else pure 0
    set_program (λ p. record p { base_address = base })
    rearm base

  unfoldable pub start : Exec os.Kernel Status
  start = do
    state ← get_program (λ p. p.state)
    if ltb (rank state) (rank loaded)
        then fail os "** program is NOT loaded yet.\n"
        else if ltb (rank loaded) (rank state)
        then fail os "** program is running.\n"
        else spawn

  -- PTRACE_SINGLESTEP and the wait, as cont and si write it
  unfoldable pub single_step : String → Exec os.Kernel (Option ℕ)
  single_step msg = do
    pid ← get_program (λ p. p.pid)
    act (os.singlestep pid)
    waited ← call (os.waitpid pid)
    case_option waited (errquit msg) (λ status. checkbp os)

  -- what cont and si do at a breakpoint
  unfoldable pub report_hit : Option ℕ → Exec os.Kernel Status
  report_hit none = pure success
  report_hit (some bpid) = do
    restore os bpid
    say (text "** breakpoint @")
    bp ← nth_bp os bpid
    code ← get_program (λ p. p.text)
    capstone_disasm os bp.addr (sub64 code.size (sub64 bp.addr code.entry)) 1
    pure success

  unfoldable pub report_end : ℕ → Exec os.Kernel Status
  report_end status = do
    pid ← get_program (λ p. p.pid)
    if wifsignaled status then say (killed pid) else say (ended pid status)
    set_program (λ p. record p { state = loaded })
    pure success

  -- `resume` once the process has stopped or ended
  unfoldable pub stopped_with : ℕ → Exec os.Kernel Status
  stopped_with status = if wifexited status then report_end status else (checkbp os >>= report_hit)

  -- PTRACE_CONT, where no breakpoint was met at the first step
  unfoldable pub resume : Exec os.Kernel Status
  resume = do
    pid ← get_program (λ p. p.pid)
    act (os.cont pid)
    waited ← call (os.waitpid pid)
    case_option waited (say (err "** inscont error ") >> (checkbp os >>= report_hit)) stopped_with

  unfoldable pub step_and_go : Exec os.Kernel Status
  step_and_go = do
    first ← single_step "** cont step error "
    case_option first resume (λ bpid. checkbp os >>= report_hit)

  -- With an argument the error is printed, the state is not looked at, and the step is made.
  unfoldable pub inscont : List String → Exec os.Kernel Status
  inscont [] = do
    state ← get_program (λ p. p.state)
    if is_running state then step_and_go else fail os "** program is NOT running.\n"
  inscont (_ ∷ _) = do say (err "** Instruction Error: cont\n"); step_and_go

  unfoldable pub step_one : Exec os.Kernel Status
  step_one = single_step "** si error " >>= report_hit

  -- the state is not looked at
  unfoldable pub inssi : List String → Exec os.Kernel Status
  inssi [] = step_one
  inssi (_ ∷ _) = do say (err "** Instruction Error: si\n"); step_one

  unfoldable pub run_in : State → Exec os.Kernel Status
  run_in running = do
    path ← get_program (λ p. p.path)
    say (err_path path)
    inscont []
    pure success
  run_in loaded = do start; inscont []; pure success
  run_in State.none = fail os "** program is NOT loaded yet.\n"

  unfoldable pub insrun : List String → Exec os.Kernel Status
  insrun [] = get_program (λ p. p.state) >>= run_in
  insrun (_ ∷ _) = fail os "** Instruction Error: run\n"

  unfoldable pub insstart : List String → Exec os.Kernel Status
  insstart [] = start >> pure success
  insstart (_ ∷ _) = do say (err "** Instruction Error: start\n"); start; pure success
