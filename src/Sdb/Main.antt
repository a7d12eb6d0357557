-- ===== src/Sdb/Main.antt =====
-- HW4/main.cpp. The script's lines and those of the standard input are lists; `getopt` is seen by
-- what it returns at its one call.
use advanced_programmin.Prelude.{String, Option, none, some, List, [], ◌∷◌, str_eq, if◌then◌else◌}
use advanced_programmin.Sdb.Types.{of_main}
use advanced_programmin.Sdb.Os.{Os}
use advanced_programmin.Sdb.Exec.{
  text, err, exited, undefined, Exec, pure, stop, get_program, errquit, set_program, say, ◌>>=◌,
  ◌>>◌, case_option,
}
use advanced_programmin.Sdb.Load.{load}
use advanced_programmin.Sdb.Commands.{execins, exec_lines}

-- The command line: nothing behind the program's name; the option -s with a script, an option that
-- `getopt` refuses, or none, with the arguments from `optind` on.
pub data Args : Type 0 where
  alone : Args
  opt_s : String → List String → Args
  opt_bad : Args
  opt_end : List String → Args

module _ (os : Os) where
  -- `program.path` and `program.argv` from the arguments that are left
  unfoldable pub take_program : String → List String → Exec os.Kernel Unit
  take_program path rest = set_program (λ p. record p { path = path; argv = of_main rest })

  -- `parse_args`, with the script's name as its result
  unfoldable pub parse_args : Args → Exec os.Kernel (Option String)
  parse_args alone = pure none
  parse_args (opt_s script []) = pure (some script)
  parse_args (opt_s script (path ∷ rest)) = do take_program path (path ∷ rest); pure (some script)
  parse_args opt_bad = do say (err "usage: %s [-s script] [program]\n"); stop (exited 1)
  -- a null pointer is assigned to a string
  parse_args (opt_end []) = stop undefined
  parse_args (opt_end (path ∷ rest)) = do take_program path (path ∷ rest); pure none

  -- the lines of the script, where it can be opened
  unfoldable pub execscript : Option (List String) → Exec os.Kernel Unit
  execscript none = errquit "** script file error: "
  execscript (some lines) = exec_lines os lines

  -- the rounds of the prompt's loop that read the lines of the input
  unfoldable pub prompt : List String → Exec os.Kernel Unit
  prompt [] = pure tt
  prompt (line ∷ lines) = do say (text "sdb> "); execins os line; prompt lines

  unfoldable pub load_if : String → Exec os.Kernel Unit
  load_if path = if str_eq path "" then pure tt else load os

  -- `main`, with the files that can be read and the lines of the input
  unfoldable pub main : Args → (String → Option (List String)) → List String → Exec os.Kernel Unit
  main args files input = do
    script ← parse_args args
    path ← get_program (λ p. p.path)
    load_if path
    case_option script (prompt input) (λ name. execscript (files name))
