-- ===== src/Sdb/Invariant/Start.antt =====
-- HW4/main.cpp keeps the invariant, from the start of the debugger on.
use advanced_programmin.Sdb.Exec.Maintains.{
  Maintains-say, Maintains-bind, Maintains, after, maintains_rules,
}
use advanced_programmin.Prelude.{◌≡◌, sym, subst, String, Option, none, some, List, [], ◌∷◌}
use advanced_programmin.Sdb.Types.{init}
use advanced_programmin.Sdb.Os.{Os}
use advanced_programmin.Sdb.Exec.{World}
use advanced_programmin.Sdb.Commands.{execins, exec_lines}
use advanced_programmin.Sdb.Main.{
  Args, alone, opt_s, opt_bad, opt_end, take_program, parse_args, execscript, prompt, load_if, main,
}
use advanced_programmin.Sdb.Invariant.{WellFormed}
use advanced_programmin.Sdb.Invariant.Writes.{path-WellFormed}
use advanced_programmin.Sdb.Invariant.Loading.{load-WellFormed}
use advanced_programmin.Sdb.Invariant.Script.{
  func-WellFormed, init-WellFormed, Maintains-execins, Maintains-exec_lines,
}

module _ (os : Os) where
  take_program-WellFormed :
      (path : String) (rest : List String) → Maintains WellFormed (take_program os path rest)
  unfolding take_program
  take_program-WellFormed path rest = path-WellFormed path _

  parse_args-WellFormed : (args : Args) → Maintains WellFormed (parse_args os args)
  unfolding parse_args
  parse_args-WellFormed alone = search maintains_rules
  parse_args-WellFormed (opt_s script []) = search maintains_rules
  parse_args-WellFormed (opt_s script (path ∷ rest)) =
      search (maintains_rules, take_program-WellFormed) depth 9
  parse_args-WellFormed opt_bad = search maintains_rules
  parse_args-WellFormed (opt_end []) = search maintains_rules
  parse_args-WellFormed (opt_end (path ∷ rest)) =
      search (maintains_rules, take_program-WellFormed) depth 9

  execins-WellFormed : (line : String) → Maintains WellFormed (execins os line)
  execins-WellFormed = Maintains-execins os WellFormed (func-WellFormed os)

  exec_lines-kept : (lines : List String) → Maintains WellFormed (exec_lines os lines)
  exec_lines-kept = Maintains-exec_lines os WellFormed (func-WellFormed os)

  execscript-WellFormed :
      (lines : Option (List String)) → Maintains WellFormed (execscript os lines)
  unfolding execscript
  execscript-WellFormed none = search maintains_rules
  execscript-WellFormed (some lines) = exec_lines-kept lines

  prompt-WellFormed : (lines : List String) → Maintains WellFormed (prompt os lines)
  unfolding prompt
  prompt-WellFormed [] = search maintains_rules
  prompt-WellFormed (line ∷ lines) =
      Maintains-bind _
        (λ _. Maintains-bind _ (λ _. prompt-WellFormed lines) (execins-WellFormed line))
        (Maintains-say _)

  load_if-WellFormed : (path : String) → Maintains WellFormed (load_if os path)
  unfolding load_if
  load_if-WellFormed path = search (maintains_rules, load-WellFormed os) depth 8

  main-kept :
      (args : Args) (files : String → Option (List String)) (input : List String)
      → Maintains WellFormed (main os args files input)
  unfolding main
  main-kept args files input =
      search
        (
          maintains_rules, parse_args-WellFormed, load_if-WellFormed, prompt-WellFormed,
          execscript-WellFormed,
        )
        depth 12

-- Whatever the command line, the script, the input and the kernel are, from its start on the
-- debugger keeps its data well formed, when it stops and after each line of the input.
pub main-WellFormed :
    (os : Os) (args : Args) (files : String → Option (List String)) (input : List String)
    (w : World os.Kernel)
    → w.program ≡ init
    → WellFormed (after (main os args files input w)).program
main-WellFormed os args files input w e =
    (main-kept os args files input).at w (subst WellFormed (sym e) init-WellFormed)
