-- ===== src/Sdb/Invariant/Script.antt =====
-- HW4/ins.cpp and HW4/main.cpp: every command keeps the invariant, and so does a script.
use advanced_programmin.Sdb.Exec.{undefined, stop, World, Exec, case_option, ◌>>=◌}
use advanced_programmin.Prelude.{ℕ, zero, suc, refl, String, List, [], ◌∷◌, All, get_elem?}
use advanced_programmin.Sdb.Types.{Program, init}
use advanced_programmin.Sdb.Os.{Os}
use advanced_programmin.Sdb.Exec.Maintains.{
  Maintains, after, Maintains-pure, Maintains-stop, Maintains-bind, maintains_rules,
}
use advanced_programmin.Sdb.Breakpoints.{Status}
use advanced_programmin.Sdb.Frames.{
  Maintains-insget, Maintains-insset, Maintains-insgetregs, Maintains-inslist, Maintains-insdisasm,
  Maintains-insdump, Maintains-insvmmap, Maintains-inshelp, Maintains-insexit,
}
use advanced_programmin.Sdb.Scan.{words}
use advanced_programmin.Sdb.Commands.{func, call_func, exec_words, exec_split, execins, exec_lines}
use advanced_programmin.Sdb.Invariant.{WellFormed}
use advanced_programmin.Sdb.Invariant.Writes.{regs-WellFormed}
use advanced_programmin.Sdb.Invariant.Edits.{insbreak-WellFormed, insdelete-WellFormed}
use advanced_programmin.Sdb.Invariant.Process.{
  inscont-WellFormed, inssi-WellFormed, insrun-WellFormed, insstart-WellFormed,
}
use advanced_programmin.Sdb.Invariant.Loading.{insload-WellFormed}

-- A property that each command of the table keeps is kept by a call through the table.
module _ {K : Type 0} (P : Program → Type 0) where
  abbrev KeptBy : (List String → Exec K Status) → Type 0
  KeptBy f = (args : List String) → Maintains P (f args)

  Maintains-nth :
      (fs : List (List String → Exec K Status)) (i : ℕ) (args : List String)
      → All KeptBy fs
      → Maintains P (case_option (get_elem? fs i) (stop undefined) (λ f. f args))
  unfolding ◌>>=◌
  Maintains-nth [] i args h = Maintains-stop _
  Maintains-nth (f ∷ fs) zero args h = h.0 args
  Maintains-nth (f ∷ fs) (suc i) args h = Maintains-nth fs i args h.1

-- A property that the whole table keeps is kept by a line and by a script.
module _ (os : Os) (P : Program → Type 0) (each : All (KeptBy P) (func os)) where
  Maintains-call_func : (i : ℕ) (args : List String) → Maintains P (call_func os i args)
  unfolding call_func
  Maintains-call_func i args = Maintains-nth P (func os) i args each

  Maintains-exec_words : (ins : String) (args : List String) → Maintains P (exec_words os ins args)
  unfolding exec_words
  Maintains-exec_words ins args = search (maintains_rules, Maintains-call_func) depth 8

  Maintains-exec_split : (ws : List String) → Maintains P (exec_split os ws)
  unfolding exec_split
  Maintains-exec_split [] = Maintains-exec_words "" []
  Maintains-exec_split (ins ∷ args) = Maintains-exec_words ins args

  pub Maintains-execins : (line : String) → Maintains P (execins os line)
  unfolding execins
  Maintains-execins line = Maintains-exec_split (words line)

  pub Maintains-exec_lines : (lines : List String) → Maintains P (exec_lines os lines)
  unfolding exec_lines
  Maintains-exec_lines [] = Maintains-pure tt
  Maintains-exec_lines (line ∷ lines) =
      Maintains-bind _ (λ _. Maintains-exec_lines lines) (Maintains-execins line)

pub func-WellFormed : (os : Os) → All (KeptBy WellFormed) (func os)
func-WellFormed os = (
  insbreak-WellFormed os,
  (
    inscont-WellFormed os,
    (
      insdelete-WellFormed os,
      (
        Maintains-insdisasm os,
        (
          Maintains-insdump os,
          (
            Maintains-insexit os,
            (
              Maintains-insget os WellFormed regs-WellFormed,
              (
                Maintains-insgetregs os WellFormed regs-WellFormed,
                (
                  Maintains-inshelp os,
                  (
                    Maintains-inslist os,
                    (
                      insload-WellFormed os,
                      (
                        insrun-WellFormed os,
                        (
                          Maintains-insvmmap os,
                          (
                            Maintains-insset os WellFormed regs-WellFormed,
                            (inssi-WellFormed os, (insstart-WellFormed os, tt)),
                          ),
                        ),
                      ),
                    ),
                  ),
                ),
              ),
            ),
          ),
        ),
      ),
    ),
  ),
)

-- A script keeps the invariant, whatever its lines are and whatever the kernel answers. Where it
-- holds before the script, then when the script ends or the debugger stops, the breakpoints have
-- different addresses of 64 bits, each with a saved byte, the text has the length that its section
-- header gives, and there is no breakpoint before a load.
pub exec_lines-WellFormed :
    (os : Os) (lines : List String) (w : World os.Kernel)
    → WellFormed w.program
    → WellFormed (after (exec_lines os lines w)).program
exec_lines-WellFormed os lines w =
    (Maintains-exec_lines os WellFormed (func-WellFormed os) lines).at w

pub init-WellFormed : WellFormed init
init-WellFormed = record { distinct = tt; in_range = tt; text_size = refl; unloaded = λ _. refl }
