-- ===== src/Sdb/Commands/Exits.antt =====
-- HW4/main.cpp and HW4/ins.cpp: a script with a line `exit`.
use advanced_programmin.Prelude.{String, List, [], ◌∷◌, ◌++◌, ◌≡◌, refl}
use advanced_programmin.Sdb.Os.{Os}
use advanced_programmin.Sdb.Exec.{Exec, World, Outcome, done, stopped, exited, continue, ◌>>=◌}
use advanced_programmin.Sdb.Scan.{words}
use advanced_programmin.Sdb.Commands.{
  insexit, funcid, call_func, exec_words, exec_split, execins, exec_lines,
}

module _ {K : Type 0} where
  -- the exit behind lines that return
  abbrev pub exits : Outcome K Unit → Outcome K Unit
  exits (done u w) = stopped (exited 0) w
  exits (stopped s w) = stopped s w

  exits-continue :
      (r : Outcome K Unit) (f g : Exec K Unit)
      → ((w : World K) → f w ≡ exits (g w))
      → continue r (λ _. f) ≡ exits (continue r (λ _. g))
  exits-continue (done u w) f g h = h w
  exits-continue (stopped s w) f g h = refl

module _ (os : Os) where
  exit_line :
      (line : String) (rest : Exec os.Kernel Unit) (w : World os.Kernel)
      → words line ≡ ("exit" ∷ [])
      → continue (execins os line w) (λ _. rest) ≡ stopped (exited 0) w
  unfolding execins exec_split exec_words call_func insexit funcid ◌>>=◌
  exit_line line rest w h = rw h refl

  -- A script with a line whose only word is `exit` ends the debugger: where the lines before it
  -- return, with status 0, in the world that they leave; else as they end it. No line behind it runs.
  pub exec_lines-exit :
      (before rest : List String) (line : String) (w : World os.Kernel)
      → words line ≡ ("exit" ∷ [])
      → exec_lines os (before ++ (line ∷ rest)) w ≡ exits (exec_lines os before w)
  unfolding exec_lines ◌>>=◌
  exec_lines-exit [] rest line w h = exit_line line (exec_lines os rest) w h
  exec_lines-exit (x ∷ before) rest line w h =
      exits-continue (execins os x w) (exec_lines os (before ++ (line ∷ rest)))
        (exec_lines os before) (λ w'. exec_lines-exit before rest line w' h)
