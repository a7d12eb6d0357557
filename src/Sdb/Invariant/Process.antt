-- ===== src/Sdb/Invariant/Process.antt =====
-- HW4/start.cpp and the commands cont, si, run and start of HW4/ins.cpp keep the invariant.
use advanced_programmin.Sdb.Invariant.Writes.{
  regs-WellFormed, pid-WellFormed, base-WellFormed, running-WellFormed, loaded-WellFormed,
}
use advanced_programmin.Sdb.Breakpoints.{checkbp, restore}
use advanced_programmin.Prelude.{ℕ, String, Option, none, some, List, [], ◌∷◌}
use advanced_programmin.Sdb.Types.{State, loaded, running, Program}
use advanced_programmin.Sdb.Os.{Os}
use advanced_programmin.Sdb.Exec.Maintains.{Maintains, maintains_rules}
use advanced_programmin.Sdb.Frames.{
  Maintains-checkbp, Maintains-restore, Maintains-nth_bp, Maintains-capstone_disasm,
}
use advanced_programmin.Sdb.Run.{
  start_code, get_base_address, spawn, start, single_step, report_hit, report_end, stopped_with,
  resume, step_and_go, inscont, step_one, inssi, run_in, insrun, insstart,
}
use advanced_programmin.Sdb.Invariant.{WellFormed}
use advanced_programmin.Sdb.Invariant.Rearm.{rearm-WellFormed}

module _ (os : Os) where
  Maintains-start_code :
      {P : Program → Type 0} (fields : List String) → Maintains P (start_code os fields)
  unfolding start_code
  Maintains-start_code fields = search maintains_rules depth 8

  Maintains-get_base_address : {P : Program → Type 0} → Maintains P (get_base_address os)
  unfolding get_base_address
  Maintains-get_base_address = search (maintains_rules, Maintains-start_code) depth 9

  spawn-WellFormed : Maintains WellFormed (spawn os)
  unfolding spawn
  spawn-WellFormed =
      search
        (
          maintains_rules,
          Maintains-get_base_address,
          rearm-WellFormed os,
          pid-WellFormed,
          running-WellFormed,
          base-WellFormed,
        )
        depth 24

  start-WellFormed : Maintains WellFormed (start os)
  unfolding start
  start-WellFormed = search (maintains_rules, spawn-WellFormed) depth 8

  checkbp-WellFormed : Maintains WellFormed (checkbp os)
  checkbp-WellFormed = Maintains-checkbp os WellFormed regs-WellFormed

  restore-WellFormed : (i : ℕ) → Maintains WellFormed (restore os i)
  restore-WellFormed = Maintains-restore os WellFormed regs-WellFormed

  single_step-WellFormed : (msg : String) → Maintains WellFormed (single_step os msg)
  unfolding single_step
  single_step-WellFormed msg = search (maintains_rules, checkbp-WellFormed) depth 9

  report_hit-WellFormed : (hit : Option ℕ) → Maintains WellFormed (report_hit os hit)
  unfolding report_hit
  report_hit-WellFormed none = search maintains_rules
  report_hit-WellFormed (some bpid) =
      search
        (maintains_rules, restore-WellFormed, Maintains-nth_bp os, Maintains-capstone_disasm os)
        depth 12

  report_end-WellFormed : (status : ℕ) → Maintains WellFormed (report_end os status)
  unfolding report_end
  report_end-WellFormed status = search (maintains_rules, loaded-WellFormed) depth 9

  stopped_with-WellFormed : (status : ℕ) → Maintains WellFormed (stopped_with os status)
  unfolding stopped_with
  stopped_with-WellFormed status =
      search (maintains_rules, checkbp-WellFormed, report_end-WellFormed, report_hit-WellFormed)
        depth 9

  resume-WellFormed : Maintains WellFormed (resume os)
  unfolding resume
  resume-WellFormed =
      search (maintains_rules, checkbp-WellFormed, stopped_with-WellFormed, report_hit-WellFormed)
        depth 12

  step_and_go-WellFormed : Maintains WellFormed (step_and_go os)
  unfolding step_and_go
  step_and_go-WellFormed =
      search
        (
          maintains_rules, checkbp-WellFormed, single_step-WellFormed, resume-WellFormed,
          report_hit-WellFormed,
        )
        depth 9

  pub inscont-WellFormed : (args : List String) → Maintains WellFormed (inscont os args)
  unfolding inscont
  inscont-WellFormed [] = search (maintains_rules, step_and_go-WellFormed) depth 9
  inscont-WellFormed (_ ∷ _) = search (maintains_rules, step_and_go-WellFormed) depth 9

  step_one-WellFormed : Maintains WellFormed (step_one os)
  unfolding step_one
  step_one-WellFormed =
      search (maintains_rules, single_step-WellFormed, report_hit-WellFormed) depth 9

  pub inssi-WellFormed : (args : List String) → Maintains WellFormed (inssi os args)
  unfolding inssi
  inssi-WellFormed [] = search (maintains_rules, step_one-WellFormed) depth 9
  inssi-WellFormed (_ ∷ _) = search (maintains_rules, step_one-WellFormed) depth 9

  run_in-WellFormed : (s : State) → Maintains WellFormed (run_in os s)
  unfolding run_in
  run_in-WellFormed running = search (maintains_rules, inscont-WellFormed) depth 8
  run_in-WellFormed loaded = search (maintains_rules, start-WellFormed, inscont-WellFormed) depth 8
  run_in-WellFormed State.none = search maintains_rules

  pub insrun-WellFormed : (args : List String) → Maintains WellFormed (insrun os args)
  unfolding insrun
  insrun-WellFormed [] = search (maintains_rules, run_in-WellFormed) depth 9
  insrun-WellFormed (_ ∷ _) = search maintains_rules

  pub insstart-WellFormed : (args : List String) → Maintains WellFormed (insstart os args)
  unfolding insstart
  insstart-WellFormed [] = search (maintains_rules, start-WellFormed) depth 9
  insstart-WellFormed (_ ∷ _) = search (maintains_rules, start-WellFormed) depth 9
