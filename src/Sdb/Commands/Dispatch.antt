-- ===== src/Sdb/Commands/Dispatch.antt =====
-- HW4/ins.cpp, `execins`: the names of the commands and the functions that they run.
use advanced_programmin.Prelude.{
  ◌≡◌, refl, Bool, true, false, ◌||◌, if◌then◌else◌, ℕ, String, Option, none, some, List, [], ◌∷◌,
  get_elem?, str_eq,
}
use advanced_programmin.Sdb.Os.{Os}
use advanced_programmin.Sdb.Exec.{World, Outcome, done, unknown, pure, ◌>>=◌, ◌>>◌, Exec}
use advanced_programmin.Sdb.Scan.{words}
use advanced_programmin.Sdb.Commands.{
  funcid, func, call_func, exec_words, exec_split, execins, inshelp, insexit,
}
use advanced_programmin.Sdb.Breakpoints.{Status, insbreak, insdelete, inslist}
use advanced_programmin.Sdb.Registers.{insget, insgetregs, insset}
use advanced_programmin.Sdb.Disasm.{insdisasm, insdump}
use advanced_programmin.Sdb.Run.{inscont, inssi, insrun, insstart}
use advanced_programmin.Sdb.Load.{insload}
use advanced_programmin.Sdb.Vmmap.{insvmmap}

-- the first entry of a name
abbrev pub lookup : {A : Type 0} → String → List (String × A) → Option A
lookup name [] = none
lookup name ((key, x) ∷ entries) = if str_eq name key then some x else lookup name entries

module _ (os : Os) where
  -- The commands by their names, as the assignment has them: no number is in between.
  abbrev pub commands : List (String × (List String → Exec os.Kernel Status))
  commands =
      ("break", insbreak os)
      ∷ ("b", insbreak os)
      ∷ ("cont", inscont os)
      ∷ ("c", inscont os)
      ∷ ("delete", insdelete os)
      ∷ ("disasm", insdisasm os)
      ∷ ("d", insdisasm os)
      ∷ ("dump", insdump os)
      ∷ ("x", insdump os)
      ∷ ("exit", insexit os)
      ∷ ("q", insexit os)
      ∷ ("get", insget os)
      ∷ ("g", insget os)
      ∷ ("getregs", insgetregs os)
      ∷ ("help", inshelp os)
      ∷ ("h", inshelp os)
      ∷ ("list", inslist os)
      ∷ ("l", inslist os)
      ∷ ("load", insload os)
      ∷ ("run", insrun os)
      ∷ ("r", insrun os)
      ∷ ("vmmap", insvmmap os)
      ∷ ("m", insvmmap os)
      ∷ ("set", insset os)
      ∷ ("s", insset os)
      ∷ ("si", inssi os)
      ∷ ("start", insstart os)
      ∷ []

  -- a number and a function that go together: both none, or the table has the one at the other
  data Goes : Option ℕ → Option (List String → Exec os.Kernel Status) → Type 0 where
    stored :
        {i : ℕ} {f : List String → Exec os.Kernel Status}
        → get_elem? (func os) i ≡ some f
        → Goes (some i) (some f)
    missing : Goes none none

  one_name :
      (a : Bool) (i : ℕ) (f : List String → Exec os.Kernel Status) (x : Option ℕ)
      (y : Option (List String → Exec os.Kernel Status))
      → get_elem? (func os) i ≡ some f
      → Goes x y
      → Goes (if a then some i else x) (if a then some f else y)
  one_name true i f x y e h = stored e
  one_name false i f x y e h = h

  two_names :
      (a b : Bool) (i : ℕ) (f : List String → Exec os.Kernel Status) (x : Option ℕ)
      (y : Option (List String → Exec os.Kernel Status))
      → get_elem? (func os) i ≡ some f
      → Goes x y
      → Goes (if a || b then some i else x) (if a then some f else if b then some f else y)
  two_names true b i f x y e h = stored e
  two_names false true i f x y e h = stored e
  two_names false false i f x y e h = h

  funcid-commands : (ins : String) → Goes (funcid ins) (lookup ins commands)
  unfolding funcid
  funcid-commands ins =
      let is = str_eq ins in
      two_names (is "break") (is "b") 0 _ _ _ refl (
        two_names (is "cont") (is "c") 1 _ _ _ refl (
          one_name (is "delete") 2 _ _ _ refl (
            two_names (is "disasm") (is "d") 3 _ _ _ refl (
              two_names (is "dump") (is "x") 4 _ _ _ refl (
                two_names (is "exit") (is "q") 5 _ _ _ refl (
                  two_names (is "get") (is "g") 6 _ _ _ refl (
                    one_name (is "getregs") 7 _ _ _ refl (
                      two_names (is "help") (is "h") 8 _ _ _ refl (
                        two_names (is "list") (is "l") 9 _ _ _ refl (
                          one_name (is "load") 10 _ _ _ refl (
                            two_names (is "run") (is "r") 11 _ _ _ refl (
                              two_names (is "vmmap") (is "m") 12 _ _ _ refl (
                                two_names (is "set") (is "s") 13 _ _ _ refl (
                                  one_name (is "si") 14 _ _ _ refl
                                    (one_name (is "start") 15 _ _ _ refl (missing))))))))))))))))

  -- A function runs with the arguments, and its result is thrown away; without one, all that
  -- changes is that one message is printed.
  abbrev pub dispatched :
      Option (List String → Exec os.Kernel Status)
      → String
      → List String
      → World os.Kernel
      → Outcome os.Kernel Unit
  dispatched (some f) ins args w = (f args >> pure tt) w
  dispatched none ins args w = done tt (record w { out = unknown ins ∷ w.out })

  goes_lem :
      {id : Option ℕ} {f : Option (List String → Exec os.Kernel Status)} (ins : String)
      (args : List String) (w : World os.Kernel)
      → Goes id f
      → funcid ins ≡ id
      → exec_words os ins args w ≡ dispatched f ins args w
  unfolding exec_words call_func ◌>>=◌
  goes_lem ins args w (stored h) e = rw e (rw h refl)
  goes_lem ins args w missing e = rw e refl

  -- A line that has a word runs, with its other words, the function that the list of the commands
  -- has under its first word, and its result is thrown away; where the list does not have the word,
  -- all that changes is that one message is printed.
  pub execins_lem :
      (line ins : String) (args : List String) (w : World os.Kernel)
      → words line ≡ (ins ∷ args)
      → execins os line w ≡ dispatched (lookup ins commands) ins args w
  unfolding execins exec_split
  execins_lem line ins args w e = rw e (goes_lem ins args w (funcid-commands ins) refl)
