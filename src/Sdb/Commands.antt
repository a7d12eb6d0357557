-- ===== src/Sdb/Commands.antt =====
-- HW4/ins.cpp: the commands help and exit, the table of the commands and `execins`.
pub mod Dispatch
pub mod Exits
use advanced_programmin.Prelude.{
  ℕ, String, ◌||◌, Option, none, some, List, [], ◌∷◌, map, get_elem?, str_eq, if◌then◌else◌,
}
use advanced_programmin.Sdb.Os.{Os}
use advanced_programmin.Sdb.Exec.{
  case_option, text, unknown, exited, undefined, Exec, pure, stop, say, say_all, ◌>>◌,
}
use advanced_programmin.Sdb.Scan.{words}
use advanced_programmin.Sdb.Breakpoints.{Status, success, fail, insbreak, insdelete, inslist}
use advanced_programmin.Sdb.Registers.{insget, insgetregs, insset}
use advanced_programmin.Sdb.Disasm.{insdisasm, insdump}
use advanced_programmin.Sdb.Run.{inscont, inssi, insrun, insstart}
use advanced_programmin.Sdb.Load.{insload}
use advanced_programmin.Sdb.Vmmap.{insvmmap}

abbrev pub help_lines : List String
help_lines =
    "- break {instruction-address}: add a break point\n" ∷ "- cont: continue execution\n"
    ∷ "- delete {break-point-id}: remove a break point\n"
    ∷ "- disasm addr: disassemble instructions in a file or a memory region\n"
    ∷ "- dump addr: dump memory content\n" ∷ "- exit: terminate the debugger\n"
    ∷ "- get reg: get a single value from a register\n" ∷ "- getregs: show registers\n"
    ∷ "- help: show this message\n" ∷ "- list: list break points\n"
    ∷ "- load {path/to/a/program}: load a program\n" ∷ "- run: run the program\n"
    ∷ "- vmmap: show memory layout\n" ∷ "- set reg val: get a single value to a register\n"
    ∷ "- si: step into instruction\n"
    ∷ "- start: start the program and stop at the first instruction\n" ∷ []

-- The conditional that chooses `funcid`; `none` is -1.
unfoldable pub funcid : String → Option ℕ
funcid ins =
    if str_eq ins "break" || str_eq ins "b"
    then some 0
    else if str_eq ins "cont" || str_eq ins "c"
    then some 1
    else if str_eq ins "delete"
    then some 2
    else if str_eq ins "disasm" || str_eq ins "d"
    then some 3
    else if str_eq ins "dump" || str_eq ins "x"
    then some 4
    else if str_eq ins "exit" || str_eq ins "q"
    then some 5
    else if str_eq ins "get" || str_eq ins "g"
    then some 6
    else if str_eq ins "getregs"
    then some 7
    else if str_eq ins "help" || str_eq ins "h"
    then some 8
    else if str_eq ins "list" || str_eq ins "l"
    then some 9
    else if str_eq ins "load"
    then some 10
    else if str_eq ins "run" || str_eq ins "r"
    then some 11
    else if str_eq ins "vmmap" || str_eq ins "m"
    then some 12
    else if str_eq ins "set" || str_eq ins "s"
    then some 13
    else if str_eq ins "si"
    then some 14
    else if str_eq ins "start"
    then some 15
    else none

module _ (os : Os) where
  unfoldable pub inshelp : List String → Exec os.Kernel Status
  inshelp [] = do say_all (map text help_lines); pure success
  inshelp (_ ∷ _) = fail os "** Instruction Error: help\n"

  unfoldable pub insexit : List String → Exec os.Kernel Status
  insexit [] = stop (exited 0)
  insexit (_ ∷ _) = fail os "** Instruction Error: exit\n"

module _ (os : Os) where
  -- `func`, as `init_func` fills it
  abbrev pub func : List (List String → Exec os.Kernel Status)
  func =
      insbreak os
      ∷ inscont os
      ∷ insdelete os
      ∷ insdisasm os
      ∷ insdump os
      ∷ insexit os
      ∷ insget os
      ∷ insgetregs os
      ∷ inshelp os
      ∷ inslist os
      ∷ insload os
      ∷ insrun os
      ∷ insvmmap os
      ∷ insset os
      ∷ inssi os
      ∷ insstart os
      ∷ []

  -- `func[id](args)`
  unfoldable pub call_func : ℕ → List String → Exec os.Kernel Status
  call_func id args = case_option (get_elem? func id) (stop undefined) (λ f. f args)

  unfoldable pub exec_words : String → List String → Exec os.Kernel Unit
  exec_words ins args =
      case_option (funcid ins) (say (unknown ins)) (λ id. call_func id args >> pure tt)

  unfoldable pub exec_split : List String → Exec os.Kernel Unit
  exec_split [] = exec_words "" []
  exec_split (ins ∷ args) = exec_words ins args

  unfoldable pub execins : String → Exec os.Kernel Unit
  execins line = exec_split (words line)

  -- HW4/main.cpp, the loop of `execscript` over the lines of the file
  unfoldable pub exec_lines : List String → Exec os.Kernel Unit
  exec_lines [] = pure tt
  exec_lines (line ∷ lines) = do execins line; exec_lines lines
