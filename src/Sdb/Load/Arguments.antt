-- ===== src/Sdb/Load/Arguments.antt =====
-- HW4/ins.cpp, `insload`: the arguments that a program loaded by the command gets.
use advanced_programmin.Prelude.{ℕ, ◌≡◌, refl, Bool, String, none, List, [], ◌∷◌}
use advanced_programmin.Sdb.Types.{State, of_frame, Program}
use advanced_programmin.Sdb.Os.{Os}
use advanced_programmin.Sdb.Exec.{World, set_program, ◌>>=◌}
use advanced_programmin.Sdb.Exec.Maintains.{
  Maintains, Maintains-set_program, Maintains-continue, Maintains-pure, after, maintains_rules,
}
use advanced_programmin.Sdb.Breakpoints.{Status, success, failure}
use advanced_programmin.Sdb.Load.{
  Search, found, absent, overrun, take_text, parse_bytes, parse_elf, loaded_with, load_file, load,
  insload,
}

-- What `insload` has made of the command line: the path, and an array without it.
pub record Given (path : String) (p : Program) : Type 0 where
  pub path_eq : p.path ≡ path
  pub argv_eq : p.argv ≡ of_frame (none ∷ none ∷ [])

module _ (os : Os) (path : String) where
  text-Given :
      (size entry : ℕ) (bytes : List ℕ)
      → Maintains {K = os.Kernel} (Given path) (
          set_program
            (λ p. record p { text = record p.text { size = size; entry = entry; bytes = bytes } }))
  text-Given size entry bytes =
      Maintains-set_program _ (λ p h. record { path_eq = h.path_eq; argv_eq = h.argv_eq })

  dynamic-Given :
      (b : Bool)
      → Maintains {K = os.Kernel} (Given path) (set_program (λ p. record p { dynamic = b }))
  dynamic-Given b =
      Maintains-set_program _ (λ p h. record { path_eq = h.path_eq; argv_eq = h.argv_eq })

  state-Given :
      (s : State)
      → Maintains {K = os.Kernel} (Given path) (set_program (λ p. record p { state = s }))
  state-Given s =
      Maintains-set_program _ (λ p h. record { path_eq = h.path_eq; argv_eq = h.argv_eq })

  take_text-Given : (file : List ℕ) (s : Search) → Maintains (Given path) (take_text os file s)
  unfolding take_text
  take_text-Given file (found sh) = search (maintains_rules, text-Given) depth 8
  take_text-Given file absent = search maintains_rules
  take_text-Given file overrun = search maintains_rules

  parse_bytes-Given : (file : List ℕ) → Maintains (Given path) (parse_bytes os file)
  unfolding parse_bytes
  parse_bytes-Given file = search (maintains_rules, dynamic-Given, take_text-Given) depth 24

  parse_elf-Given : (name : String) → Maintains (Given path) (parse_elf os name)
  unfolding parse_elf
  parse_elf-Given name = search (maintains_rules, parse_bytes-Given) depth 9

  loaded_with-Given : (s : Status) → Maintains (Given path) (loaded_with os s)
  unfolding loaded_with
  loaded_with-Given success = search (maintains_rules, state-Given) depth 9
  loaded_with-Given failure = search maintains_rules

  load_file-Given : Maintains (Given path) (load_file os)
  unfolding load_file
  load_file-Given = search (maintains_rules, parse_elf-Given, loaded_with-Given) depth 9

  load-Given : Maintains (Given path) (load os)
  unfolding load
  load-Given = search (maintains_rules, load_file-Given) depth 9

  -- Where no program is loaded, load with a path sets the program's path, and leaves as its
  -- arguments an array of the ended call in which no argument is stored, however the load ends.
  insload-Given :
      (w : World os.Kernel)
      → w.program.state ≡ State.none
      → Given path (after (insload os (path ∷ []) w)).program
  unfolding insload ◌>>=◌
  insload-Given w e = rw e (
      Maintains-continue {P = Given path} (load os _) _ (λ _. Maintains-pure success)
        (load-Given.at _ (record { path_eq = refl; argv_eq = refl })))
